-- ===== src/Websocket/Authorization.antt =====
-- cmd/xmidt-agent/ws.go: the websocket with the Decorate of the credentials and that of the metadata
-- as its decorators, and what a dial then carries.
use xmidt_agent.Base.{
  some-inj, ℕ, ◌<◌, ◌≤◌, ◌≡◌, sym, ap, ◌∙◌, ◌⊎◌, inl, inr, Bool, true, false, Option, some, none,
  List, ◌∷◌, ◌++◌, codes, Text, is_empty, arith, Option-cases,
}
use xmidt_agent.Base.Dict.{Dict, lookup-insert}
use xmidt_agent.Base.Dict
use xmidt_agent.Wrp.{Error}
use xmidt_agent.Credentials.{Token}
use xmidt_agent.Credentials
use xmidt_agent.Credentials.Headers.{decorate_correct}
use xmidt_agent.Metadata.{MetadataProvider, get_metadata, header_name}
use xmidt_agent.Metadata
use xmidt_agent.Net
use xmidt_agent.Websocket.{next_mode, Event, dialed, Loop, Round, attempt}
use xmidt_agent.Websocket.Rounds.{attempt-events}

abbrev pub authorization : Text
authorization = codes "Authorization"

-- There is no token that can be used at the instant.
abbrev pub Unusable : ℕ → Option Token → Type 0
Unusable now held =
    (held ≡ none)
    ⊎ ((t : Token) × (held ≡ some t) × ((is_empty t.token ≡ true) ⊎ (t.expires_at < now)))

-- The header Authorization from the decoration on.
abbrev pub Authorized : ℕ → Option Token → Dict Text → Dict Text → Type 0
Authorized now held before after =
    ((t : Token) × (held ≡ some t)
      × (is_empty t.token ≡ false)
      × (now ≤ t.expires_at)
      × (Dict.lookup authorization after ≡ some (codes "Bearer " ++ t.token)))
    ⊎ Unusable now held × (Dict.lookup authorization after ≡ Dict.lookup authorization before)

decorate-Authorized :
    (required : Bool) (now : ℕ) (held : Option Token) (h h' : Dict Text) (err : Option Error)
    → Credentials.decorate required now held (some h) ≡ (err, some h')
    → Authorized now held h h'
decorate-Authorized required now held h h' err p =
    let q = ap (λ (r : Option Error × Option (Dict Text)). r.1) p in
    let kept = λ (s : (Credentials.decorate required now held (some h)).1 ≡ some h).
      ap (Dict.lookup authorization) (some-inj h' h (sym q ∙ s)) in
    elim (decorate_correct required now held (some h)) [
      | inl (bad, r) ↦ ground (arith, bad)
      | inr (g, same, inl (missing, (e, s))) ↦ inr (inl missing, kept s)
      | inr (g, same, inr (t, there, inl (empty, (e, s)))) ↦ inr (inr (t, there, inl empty), kept s)
      | inr (g, same, inr (t, there, inr (full, inl (late, (e, s))))) ↦
          inr (inr (t, there, inr late), kept s)
      | inr (g, same, inr (t, there, inr (full, inr (early, s)))) ↦
          let now_set = ap (λ (r : Option Error × Option (Dict Text)). r.1) s in
          inl (
            t,
            there,
            full,
            early,
            ap (Dict.lookup authorization) (some-inj h' _ (sym q ∙ now_set))
                ∙ lookup-insert authorization authorization (codes "Bearer " ++ t.token) g,
          )
    ]

marshalled :
    (encode : Text → Text) (r : Net.Result Text) (h h' : Dict Text) (err : Option Error)
    → let x : Option (Option Error × Dict Text) = elim r [
      | Net.failed e ↦ some (some e, h)
      | Net.ok bytes ↦ some (none, Dict.insert header_name (encode bytes) h)
    ] in
      x ≡ some (err, h') → Dict.lookup authorization h' ≡ Dict.lookup authorization h
marshalled encode (Net.failed e) h h' err p =
    ap (λ (r : Option Error × Dict Text). Dict.lookup authorization r.1) (sym (some-inj _ _ p))
marshalled encode (Net.ok bytes) h h' err p =
    ap (λ (r : Option Error × Dict Text). Dict.lookup authorization r.1) (sym (some-inj _ _ p))
    ∙ lookup-insert header_name authorization (encode bytes) h

-- Decorate of the metadata leaves the header.
convey-authorization :
    (marshal : Dict Text → Net.Result Text) (encode : Text → Text) (m : MetadataProvider)
    (h h' : Dict Text) (err : Option Error)
    → Metadata.decorate marshal encode m h ≡ some (err, h')
    → Dict.lookup authorization h' ≡ Dict.lookup authorization h
unfolding Metadata.decorate
convey-authorization marshal encode m h h' err p = elim (Option-cases (get_metadata m)) [
  | inl nothing ↦ ground (arith, rw (Metadata.decorate, nothing) at p)
  | inr (header, q) ↦ marshalled encode (marshal header) h h' err (rw (Metadata.decorate, q) at p)
]

module _ {C P : Type 0} (once : Bool) (next : P → ℕ × P) (describe : Error → Text) (new_policy : P)
    (with_ipv4 with_ipv6 : Bool) where
  first_event :
      (r : Round C) (l : Loop C P)
      → let headers = (r.convey_decorator (r.cred_decorator l.headers).1).1 in
        (rest : List (Event C)) × ((attempt once next describe new_policy with_ipv4 with_ipv6 r l).0
          ≡ dialed (next_mode with_ipv4 with_ipv6 l.mode) headers ∷ rest)
        × ((attempt once next describe new_policy with_ipv4 with_ipv6 r l).1.headers ≡ headers)
  first_event r l = elim (attempt-events once next describe new_policy with_ipv4 with_ipv6 r l) [
    | inl (e, p, q, s) ↦ (_, q, ap (λ (l : Loop C P). l.headers) s)
    | inr (conn, last, stored, p, q, ending, s) ↦ (_, q, ap (λ (l : Loop C P). l.headers) s)
  ]

  -- With the decorators that the agent gives it, a round dials with Authorization set to Bearer and
  -- the token if there is a token that is not empty and has not expired. Otherwise it dials with the
  -- header that the rounds before have left, if any. The headers stay for the next round.
  pub dial-Authorized :
      (required : Bool) (now : ℕ) (held : Option Token) (marshal : Dict Text → Net.Result Text)
      (encode : Text → Text) (m : MetadataProvider) (r : Round C) (l : Loop C P)
      → Credentials.decorate required now held (some l.headers)
        ≡ ((r.cred_decorator l.headers).0, some (r.cred_decorator l.headers).1)
      → Metadata.decorate marshal encode m (r.cred_decorator l.headers).1
        ≡ some (r.convey_decorator (r.cred_decorator l.headers).1)
      → (headers : Dict Text) × (rest : List (Event C)) × ((attempt once next describe new_policy
            with_ipv4 with_ipv6 r l).0
          ≡ dialed (next_mode with_ipv4 with_ipv6 l.mode) headers ∷ rest)
        × ((attempt once next describe new_policy with_ipv4 with_ipv6 r l).1.headers ≡ headers)
        × Authorized now held l.headers headers
  dial-Authorized required now held marshal encode m r l cred convey =
      let (rest, p, q) = first_event r l in
      let same = convey-authorization marshal encode m _ _ _ convey in
      (
        _,
        rest,
        p,
        q,
        elim (decorate-Authorized required now held l.headers _ _ cred) [
          | inl (t, there, full, early, set) ↦ inl (t, there, full, early, same ∙ set)
          | inr (bad, kept) ↦ inr (bad, same ∙ kept)
        ],
      )
