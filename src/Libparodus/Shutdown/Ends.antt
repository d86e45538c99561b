-- ===== src/Libparodus/Shutdown/Ends.antt =====
-- After Stop the services are closed, and their keepalive goroutines end.
use xmidt_agent.Base.{
  some-inj, ℕ, zero, suc, ◌<◌, ◌≡◌, refl, sym, ap, subst, ◌∙◌, ◌⊎◌, inl, inr, Bool, false, ◌&&◌,
  Option, some, none, List, [], ◌∷◌, Text, eq_text, eq_text_iff, arith, if◌then◌else◌, ==_iff,
  Bool-cases, In,
}
use xmidt_agent.Base.Dict.{Dict, lookup-delete}
use xmidt_agent.Base.Dict
use xmidt_agent.Libparodus.{
  Adapter, External, Late, terminate, cancel, cancel_if, cancel_each, cancel_late, register, stop,
  keys, beat,
}
use xmidt_agent.Libparodus.Live.{AllLive, cancel_if-AllLive}
use xmidt_agent.Libparodus.Reach.{Reach, Reach-AllLive, register-AllLive}
use xmidt_agent.Libparodus.Replaced.{cancel_self, without_alive, beat_ended}
use xmidt_agent.Libparodus.Shutdown.{
  lookup-keys, cancel_if-lookup, cancel_if-lookup-none, cancel_each-kept, cancel_each-lookup,
}
use xmidt_agent.Libparodus.Shutdown.Late.{
  IsClosed, In-longer, cancel-IsClosed, kept-IsClosed, kept_if-IsClosed, cancel_if-made,
  register-lookup, register-IsClosed,
}

-- The external is registered under the name, or closed.
abbrev Due : Text → ℕ → Adapter → Type 0
Due name i a = (Dict.lookup name a.sub_services ≡ some i) ⊎ IsClosed i a

-- A round of the loop of Stop closes the external of its name and leaves the others due.
round-Due :
    (n name : Text) (i : ℕ) (a : Adapter) (found : Option ℕ)
    → AllLive a
    → Dict.lookup n a.sub_services ≡ found
    → Due name i a
    → Due name i (cancel_if found a)
unfolding cancel terminate
round-Due n name i a none all h due = due
round-Due n name i a (some j) all h (inr shut) = inr (kept-IsClosed i j a shut)
round-Due n name i a (some j) all h (inl there) =
    let named = (all n j h).named in
    elim (Bool-cases (eq_text n name)) [
      | inl same ↦
          let found =
            sym h ∙ ap (λ k. Dict.lookup k a.sub_services) ((eq_text_iff n name).0 same) ∙ there in
          inr (subst (λ k. IsClosed k (cancel j a)) (some-inj j i found) (cancel-IsClosed j a))
      | inr apart ↦ inl (
          ap (λ k. Dict.lookup name (Dict.delete k a.sub_services)) named
          ∙ (lookup-delete n name a.sub_services ∙ rw apart there))
    ]

closing :
    (name : Text) (i : ℕ) (a : Adapter) (found : Option ℕ)
    → Dict.lookup name a.sub_services ≡ found
    → Due name i a
    → IsClosed i (cancel_if found a)
closing name i a none h (inl there) = ground (arith, h, there)
closing name i a none h (inr shut) = shut
closing name i a (some j) h (inl there) =
    subst (λ k. IsClosed k (cancel j a)) (some-inj j i (sym h ∙ there)) (cancel-IsClosed j a)
closing name i a (some j) h (inr shut) = kept-IsClosed i j a shut

kept_each-IsClosed :
    (names : List Text) (i : ℕ) (a : Adapter) → IsClosed i a → IsClosed i (cancel_each names a)
unfolding cancel_each
kept_each-IsClosed [] i a shut = shut
kept_each-IsClosed (n ∷ names) i a shut =
    let found = Dict.lookup n a.sub_services in
    kept_each-IsClosed names i (cancel_if found a) (kept_if-IsClosed i found a shut)

cancel_each-IsClosed :
    (names : List Text) (name : Text) (i : ℕ) (a : Adapter)
    → AllLive a
    → In name names
    → Due name i a
    → IsClosed i (cancel_each names a)
unfolding cancel_each
cancel_each-IsClosed [] name i a all h due = absurd h
cancel_each-IsClosed (n ∷ names) name i a all (inl same) due =
    let found = Dict.lookup n a.sub_services in
    kept_each-IsClosed names i (cancel_if found a)
      (closing n i a found refl (subst (λ k. Due k i a) same due))
cancel_each-IsClosed (n ∷ names) name i a all (inr h) due =
    let found = Dict.lookup n a.sub_services in
    cancel_each-IsClosed names name i (cancel_if found a) (cancel_if-AllLive found a all) h
      (round-Due n name i a found all refl due)

-- A keepalive goroutine whose socket is closed ends with its next message.
beat_ends :
    (i : ℕ) (taken : Bool) (a : Adapter)
    → (a.externals i).is_open ≡ false
    → ((beat i taken a).externals i).keeps_alive ≡ false
unfolding beat
beat_ends i taken a closed = elim (Bool-cases (a.externals i).keeps_alive) [
  | inr over ↦
      let b = without_alive i a in
      ap
        (λ k.
          let a' = if k then (if (a.externals i).is_open && taken then a else cancel i b) else a in
          (a'.externals i).keeps_alive)
        over
      ∙ over
  | inl runs ↦
      ap (λ (a : Adapter). (a.externals i).keeps_alive) (beat_ended i taken a runs closed)
      ∙ ap (λ (x : External). x.keeps_alive) (cancel_self i (without_alive i a))
      ∙ rw ((==_iff i i).1 refl) refl
]

-- The name is not that of the registration that comes while Stop runs.
abbrev pub IsSpared : Option Late → Text → Type 0
IsSpared none name = Unit
IsSpared (some late) name = eq_text late.name name ≡ false

module _ (late : Late) (name : Text) (apart : eq_text late.name name ≡ false) where
  cancel_late-IsClosed :
      (n : ℕ) (names : List Text) (i : ℕ) (a : Adapter)
      → AllLive a
      → i < a.made
      → (In name names × Due name i a) ⊎ IsClosed i a
      → IsClosed i (cancel_late late n names a)
  unfolding cancel_late
  cancel_late-IsClosed zero names i a all made (inl (h, due)) =
      let b = (register late.name late.opening a).1 in
      let due' : Due name i b = elim due [
        | inl there ↦ inl (register-lookup late.name name a apart late.opening all ∙ there)
        | inr shut ↦ inr (register-IsClosed late.name late.opening i a made shut)
      ] in
      cancel_each-IsClosed _ name i b (register-AllLive late.name late.opening a all)
        (In-longer late.is_met name names (late.name ∷ []) h) due'
  cancel_late-IsClosed zero names i a all made (inr shut) =
      kept_each-IsClosed _ i (register late.name late.opening a).1
        (register-IsClosed late.name late.opening i a made shut)
  cancel_late-IsClosed (suc n) [] i a all made due = cancel_late-IsClosed n [] i a all made due
  cancel_late-IsClosed (suc n) (m ∷ names) i a all made due =
      let found = Dict.lookup m a.sub_services in
      cancel_late-IsClosed n names i (cancel_if found a) (cancel_if-AllLive found a all)
        (omega (arith, cancel_if-made found a))
        (elim due [
          | inl (inl same, d) ↦ inr (closing m i a found refl (subst (λ k. Due k i a) same d))
          | inl (inr h, d) ↦ inl (h, round-Due m name i a found all refl d)
          | inr shut ↦ inr (kept_if-IsClosed i found a shut)
        ])

  cancel_late-lookup :
      (n : ℕ) (names : List Text) (a : Adapter)
      → AllLive a
      → (Dict.lookup name a.sub_services ≡ none) ⊎ In name names
      → Dict.lookup name (cancel_late late n names a).sub_services ≡ none
  unfolding cancel_late
  cancel_late-lookup zero names a all (inl gone) =
      cancel_each-kept _ name (register late.name late.opening a).1
        (register-lookup late.name name a apart late.opening all ∙ gone)
  cancel_late-lookup zero names a all (inr h) =
      cancel_each-lookup _ name (register late.name late.opening a).1
        (register-AllLive late.name late.opening a all)
        (In-longer late.is_met name names (late.name ∷ []) h)
  cancel_late-lookup (suc n) [] a all h = cancel_late-lookup n [] a all h
  cancel_late-lookup (suc n) (m ∷ names) a all h =
      let found = Dict.lookup m a.sub_services in
      cancel_late-lookup n names (cancel_if found a) (cancel_if-AllLive found a all) (elim h [
        | inl gone ↦ inl (cancel_if-lookup-none found name a gone)
        | inr (inl same) ↦ inl (
            subst (λ k. Dict.lookup k (cancel_if found a).sub_services ≡ none) (sym same)
              (cancel_if-lookup found m a all refl))
        | inr (inr h') ↦ inr h'
      ])

stop-unregisters :
    (late : Option Late) (a : Adapter) (name : Text)
    → AllLive a
    → IsSpared late name
    → Dict.lookup name (stop late a).sub_services ≡ none
unfolding stop
stop-unregisters none a name all spared = elim (lookup-keys name a.sub_services) [
  | inl gone ↦ cancel_each-kept (keys a.sub_services) name a gone
  | inr h ↦ cancel_each-lookup (keys a.sub_services) name a all h
]
stop-unregisters (some late) a name all spared =
    cancel_late-lookup late name spared late.rounds (keys a.sub_services) a all
      (lookup-keys name a.sub_services)

stop_closes :
    (late : Option Late) (a : Adapter) (name : Text) (i : ℕ)
    → AllLive a
    → Dict.lookup name a.sub_services ≡ some i
    → IsSpared late name
    → IsClosed i (stop late a)
unfolding stop
stop_closes late a name i all h spared =
    let named : In name (keys a.sub_services) = elim (lookup-keys name a.sub_services) [
      | inl missing ↦ ground (arith, missing, h)
      | inr there ↦ there
    ] in
    by_late late spared named
  where
    by_late :
        (late : Option Late)
        → IsSpared late name
        → In name (keys a.sub_services)
        → IsClosed i (stop late a)
    by_late none spared named =
        cancel_each-IsClosed (keys a.sub_services) name i a all named (inl h)
    by_late (some l) spared named =
        cancel_late-IsClosed l name spared l.rounds (keys a.sub_services) i a all
          (all name i h).made (inl (named, inl h))

-- Stop, with or without a registration that receive makes while its loop runs, whenever that comes,
-- however it ends, and whether or not the loop meets it, and with no keepalive message in the loop. Only the name of that registration can be
-- registered after Stop. The external of each other service that was registered is closed and no
-- longer subscribed to the pubsub, and its keepalive goroutine ends with the next message that it
-- sends, whatever the socket answers.
pub stop-IsClosed :
    (late : Option Late) (a : Adapter) (name other : Text) (i : ℕ) (taken : Bool)
    → Reach a
    → Dict.lookup name a.sub_services ≡ some i
    → IsSpared late name
    → IsSpared late other
    → (Dict.lookup other (stop late a).sub_services ≡ none)
      × IsClosed i (stop late a)
      × (((beat i taken (stop late a)).externals i).keeps_alive ≡ false)
stop-IsClosed late a name other i taken r h spared apart =
    let all = Reach-AllLive a r in
    let shut = stop_closes late a name i all h spared in
    (stop-unregisters late a other all apart, shut, beat_ends i taken (stop late a) shut.0)
