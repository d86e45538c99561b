-- ===== src/Libparodus/Live.antt =====
-- The services that are registered and live, and how a cancellation keeps the others so.
use xmidt_agent.Base.{
  ℕ, ◌≡◌, ◌<◌, ◌≤◌, subst, refl, sym, ap, ◌∙◌, inl, inr, Bool, true, false, ◌&&◌, Option, some,
  none, Text, eq_text, eq_text_iff, arith, ◌==◌, ==_iff, Bool-cases,
}
use xmidt_agent.Base.Dict.{Dict, lookup-insert, lookup-delete}
use xmidt_agent.Base.Dict
use xmidt_agent.Libparodus.{External, Adapter, change, terminate, cancel, cancel_if, beat}

-- The external of a service that is registered.
pub record IsLive (name : Text) (i : ℕ) (a : Adapter) : Type 0 where
  pub made : i < a.made
  pub named : (a.externals i).name ≡ name
  pub is_open : (a.externals i).is_open ≡ true
  pub is_subscribed : (a.externals i).is_subscribed ≡ true
  pub keeps_alive : (a.externals i).keeps_alive ≡ true

abbrev pub AllLive : Adapter → Type 0
AllLive a = (name : Text) (i : ℕ) → Dict.lookup name a.sub_services ≡ some i → IsLive name i a

lookup-terminate :
    (gone name : Text) (i : ℕ) (m : Dict ℕ)
    → Dict.lookup name (Dict.delete gone m) ≡ some i
    → (eq_text gone name ≡ false) × (Dict.lookup name m ≡ some i)
lookup-terminate gone name i m h = elim (Bool-cases (eq_text gone name)) [
  | inl same ↦ ground (arith, sym (lookup-delete gone name m) ∙ h, same)
  | inr apart ↦ (apart, rw apart at (sym (lookup-delete gone name m) ∙ h))
]

-- A live external stays so where its record does.
pub IsLive-same :
    (name : Text) (i : ℕ) (a b : Adapter)
    → b.externals i ≡ a.externals i
    → a.made ≤ b.made
    → IsLive name i a
    → IsLive name i b
IsLive-same name i a b same more live = record {
  made = omega (arith, live.made, more);
  named = ap (λ (x : External). x.name) same ∙ live.named;
  is_open = ap (λ (x : External). x.is_open) same ∙ live.is_open;
  is_subscribed = ap (λ (x : External). x.is_subscribed) same ∙ live.is_subscribed;
  keeps_alive = ap (λ (x : External). x.keeps_alive) same ∙ live.keeps_alive;
}

pub terminate-AllLive : (name : Text) (a : Adapter) → AllLive a → AllLive (terminate name a)
unfolding terminate
terminate-AllLive gone a all name i h =
    IsLive-same name i a (terminate gone a) refl (omega arith)
      (all name i (lookup-terminate gone name i a.sub_services h).1)

-- All services but those of the external i are live, and the names are right.
abbrev AllLiveBut : ℕ → Adapter → Type 0
AllLiveBut i a =
    (name : Text) (j : ℕ)
    → Dict.lookup name a.sub_services ≡ some j
    → ((a.externals j).name ≡ name) × ((j == i) ≡ false → IsLive name j a)

AllLive-but : (i : ℕ) (a : Adapter) → AllLive a → AllLiveBut i a
AllLive-but i a all name j h = ((all name j h).named, λ _. all name j h)

pub change-other :
    (i j : ℕ) (x : External) (f : ℕ → External) → (j == i) ≡ false → change i x f j ≡ f j
change-other i j x f h = rw h refl

pub change-name :
    (i j : ℕ) (x : External) (f : ℕ → External)
    → x.name ≡ (f i).name
    → (change i x f j).name ≡ (f j).name
change-name i j x f h = elim (Bool-cases (j == i)) [
  | inl same ↦ rw same (h ∙ ap (λ k. (f k).name) (sym ((==_iff j i).0 same)))
  | inr other ↦ rw other refl
]

change-AllLiveBut :
    (i : ℕ) (x : External) (a : Adapter)
    → x.name ≡ (a.externals i).name
    → AllLiveBut i a
    → AllLiveBut i (record a { externals = change i x a.externals })
change-AllLiveBut i x a same all name j h =
    let (named, live) = all name j h in
    let b : Adapter = record a { externals = change i x a.externals } in
    (
      change-name i j x a.externals same ∙ named,
      λ other.
          IsLive-same name j a b (change-other i j x a.externals other) (omega arith) (live other),
    )

-- Where the service of the external i is removed, all are live.
terminate-but : (i : ℕ) (a : Adapter) → AllLiveBut i a → AllLive (terminate (a.externals i).name a)
unfolding terminate
terminate-but i a all name j h =
    let gone = (a.externals i).name in
    let (apart, there) = lookup-terminate gone name j a.sub_services h in
    let (named, live) = all name j there in
    elim (Bool-cases (j == i)) [
      | inl same ↦
          let eq = ap (λ k. (a.externals k).name) (sym ((==_iff j i).0 same)) ∙ named in
          ground (arith, apart, (eq_text_iff gone name).1 eq)
      | inr other ↦ IsLive-same name j a (terminate gone a) refl (omega arith) (live other)
    ]

cancel-AllLive : (i : ℕ) (a : Adapter) → AllLiveBut i a → AllLive (cancel i a)
unfolding cancel
cancel-AllLive i a all =
    let x : External = record (a.externals i) { is_open = false; is_subscribed = false } in
    let b : Adapter = record a { externals = change i x a.externals } in
    subst (λ n. AllLive (terminate n b)) (change-name i i x a.externals refl)
      (terminate-but i b (change-AllLiveBut i x a refl all))

pub cancel_if-AllLive : (i : Option ℕ) (a : Adapter) → AllLive a → AllLive (cancel_if i a)
cancel_if-AllLive none a all = all
cancel_if-AllLive (some i) a all = cancel-AllLive i a (AllLive-but i a all)

pub beat-AllLive : (i : ℕ) (taken : Bool) (a : Adapter) → AllLive a → AllLive (beat i taken a)
unfolding beat
beat-AllLive i taken a all =
    let x : External = record (a.externals i) { keeps_alive = false } in
    let b : Adapter = record a { externals = change i x a.externals } in
    let ended = cancel-AllLive i b (change-AllLiveBut i x a refl (AllLive-but i a all)) in
    elim (Bool-cases (a.externals i).keeps_alive) [
      | inr over ↦ rw (beat, over) all
      | inl p ↦ elim (Bool-cases ((a.externals i).is_open && taken)) [
        | inl q ↦ rw (beat, p, q) all
        | inr q ↦ rw (beat, p, q) ended
      ]
    ]

pub cancel-other :
    (i j : ℕ) (a : Adapter)
    → (j == i) ≡ false
    → ((cancel i a).externals j ≡ a.externals j) × ((cancel i a).made ≡ a.made)
unfolding cancel terminate
cancel-other i j a h = (
  change-other i j (record (a.externals i) { is_open = false; is_subscribed = false }) a.externals
      h,
  refl,
)
