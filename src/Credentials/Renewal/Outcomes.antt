-- ===== src/Credentials/Renewal/Outcomes.antt =====
-- What a round of run does with the token, and what all the rounds come to.
use xmidt_agent.Base.{
  ℕ, ◌≡◌, refl, ◌∙◌, ap, inl, inr, Bool, true, false, Option, some, none, List, [], ◌∷◌, Text,
  Option-cases,
}
use xmidt_agent.Fs.{Result}
use xmidt_agent.Credentials.{Token, Answer, Fetched}
use xmidt_agent.Credentials.Stored.{Storage}
use xmidt_agent.Credentials.Renewal.{
  Loop, Round, Wake, marked_invalid, timed_out, cancelled, settle, keep, attempt, wake_up, run,
}

-- What one who waits for a token sees: the token that requests get, and whether WaitUntilValid returns.
pub record View : Type 0 where
  pub held : Option Token
  pub valid : Bool

-- The events of the service: a new token, a failed fetch, MarkInvalid.
pub data Event : Type 0 where
  renewed : Token → Event
  missed invalidated : Event

abbrev pub view : {S : Type 0} → Loop S → View
view c = record { held = c.held; valid = c.valid }

-- A new token replaces the one that is held; MarkInvalid only asks for another.
abbrev pub see : Event → View → View
see (renewed t) v = record { held = some t; valid = true }
see missed v = v
see invalidated v = record v { valid = false }

abbrev pub see_all : List Event → View → View
see_all [] v = v
see_all (e ∷ events) v = see_all events (see e v)

-- The event of a fetch: a token counts if there is no error.
abbrev pub offered : Fetched → Event
offered f = elim f.error [
  | some e ↦ missed
  | none ↦ elim f.token [ none ↦ missed | some t ↦ renewed t ]
]

-- What the first round takes is the token that was loaded.
abbrev pub outcome : (ℕ → Answer → Fetched) → Option Token → Round → Event
outcome fetch_token (some t) r = renewed t
outcome fetch_token none r = offered (fetch_token r.answered r.answer)

abbrev pub events : (ℕ → Answer → Fetched) → Option Token → List Round → List Event
events fetch_token loaded [] = []
events fetch_token loaded (r ∷ rounds) =
    let rest = events fetch_token none rounds in
    outcome fetch_token loaded r
    ∷ elim r.wake [ marked_invalid ↦ invalidated ∷ rest | timed_out ↦ rest | cancelled ↦ [] ]

module _ {S : Type 0} (encode : Token → Result Text) (storage : Option (Storage S))
    (portion : ℕ → ℕ) (fetch_token : ℕ → Answer → Fetched) where
  settle-view :
      (now : ℕ) (f : Fetched) (c : Loop S)
      → let c' = (settle encode storage portion now f c).1 in
        (view c' ≡ see (offered f) (view c)) × (c'.loaded ≡ c.loaded)
  unfolding settle keep
  settle-view now f c = elim (Option-cases f.error) [
    | inr (e, q) ↦ rw (settle, q) (refl, refl)
    | inl q ↦ elim (Option-cases f.token) [
      | inl n ↦ rw (settle, q, n) (refl, refl)
      | inr (t, n) ↦ rw (settle, q, n) (refl, refl)
    ]
  ]

  attempt-view :
      (r : Round) (c : Loop S)
      → let c' = (attempt encode storage portion fetch_token r.answered r.stored r.answer c).1 in
        (view c' ≡ see (outcome fetch_token c.loaded r) (view c)) × (c'.loaded ≡ none)
  unfolding attempt keep
  attempt-view r c = elim (Option-cases c.loaded) [
    | inr (t, p) ↦ rw (attempt, p) (refl, refl)
    | inl p ↦
        rw (attempt, p)
          (settle-view r.stored (fetch_token r.answered r.answer)
            (record c { fetched = true; loaded = none }))
  ]

  abbrev Refines : List Round → Loop S → Type 0
  Refines rounds c =
      view (run encode storage portion fetch_token rounds c)
      ≡ see_all (events fetch_token c.loaded rounds) (view c)

  -- The rest of the rounds, from a state of which the view is known.
  rest-view :
      (w : Wake) (rounds : List Round) (v : View) (c : Loop S)
      → ((c' : Loop S) → Refines rounds c')
      → view c ≡ v
      → c.loaded ≡ none
      → view (elim (wake_up w c) [
        | none ↦ c
        | some c' ↦ run encode storage portion fetch_token rounds c'
      ])
        ≡ see_all
            (let rest = events fetch_token none rounds in
              elim w [ marked_invalid ↦ invalidated ∷ rest | timed_out ↦ rest | cancelled ↦ [] ])
            v
  unfolding wake_up
  rest-view marked_invalid rounds v c ih p l =
      ih (record c { valid = false })
      ∙ ap (λ t. see_all (events fetch_token t rounds) (see invalidated (view c))) l
      ∙ ap (λ v. see_all (events fetch_token none rounds) (see invalidated v)) p
  rest-view timed_out rounds v c ih p l =
      ih c
      ∙ ap (λ t. see_all (events fetch_token t rounds) (view c)) l
      ∙ ap (λ v. see_all (events fetch_token none rounds) v) p
  rest-view cancelled rounds v c ih p l = p

  -- Whatever the rounds are, run refines the service that holds the token that was obtained last: the
  -- one loaded from the disc, in the first round, and otherwise the one that a fetch gives without an
  -- error. A failed fetch changes neither the token nor whether WaitUntilValid returns, MarkInvalid
  -- makes WaitUntilValid wait but leaves the token, and nothing follows a cancellation.
  pub run-Refines : (rounds : List Round) (c : Loop S) → Refines rounds c
  unfolding run
  run-Refines [] c = refl
  run-Refines (r ∷ rounds) c =
      let (p, l) = attempt-view r c in rest-view r.wake rounds _ _ (run-Refines rounds) p l
