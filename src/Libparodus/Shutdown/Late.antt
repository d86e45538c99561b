-- ===== src/Libparodus/Shutdown/Late.antt =====
-- What a registration leaves of the services of other names.
use xmidt_agent.Base.{
  ℕ, ◌<◌, ◌≡◌, refl, ap, ◌∙◌, inl, inr, Bool, true, false, Option, some, none, List, [], ◌∷◌, ◌++◌,
  Text, eq_text, arith, if◌then◌else◌, In, ◌==◌, ==_iff, Bool-cases,
}
use xmidt_agent.Base.Dict.{Dict, lookup-insert, lookup-delete}
use xmidt_agent.Base.Dict
use xmidt_agent.Libparodus.{
  Adapter, External, Opening, no_socket, undialed, unsubscribed, opened, terminate, cancel,
  cancel_if, register, new_external,
}
use xmidt_agent.Libparodus.Live.{AllLive, change-other}
use xmidt_agent.Libparodus.Reach.{with_new}

-- The external is closed and no longer subscribed.
abbrev pub IsClosed : ℕ → Adapter → Type 0
IsClosed i a = ((a.externals i).is_open ≡ false) × ((a.externals i).is_subscribed ≡ false)

pub In-longer :
    {A : Type 0} (b : Bool) (x : A) (xs ys : List A) → In x xs → In x (if b then xs ++ ys else xs)
In-longer b x [] ys h = absurd h
In-longer true x (y ∷ xs) ys (inl same) = inl same
In-longer true x (y ∷ xs) ys (inr h) = inr (In-longer true x xs ys h)
In-longer false x (y ∷ xs) ys h = h

pub cancel-IsClosed : (i : ℕ) (a : Adapter) → IsClosed i (cancel i a)
unfolding cancel terminate
cancel-IsClosed i a =
    let same : (i == i) ≡ true = (==_iff i i).1 refl in (rw same refl, rw same refl)

pub kept-IsClosed : (i j : ℕ) (a : Adapter) → IsClosed i a → IsClosed i (cancel j a)
unfolding cancel terminate
kept-IsClosed i j a (p, q) = elim (Bool-cases (i == j)) [
  | inl same ↦ (rw same refl, rw same refl)
  | inr other ↦ (rw other p, rw other q)
]

pub kept_if-IsClosed :
    (i : ℕ) (found : Option ℕ) (a : Adapter) → IsClosed i a → IsClosed i (cancel_if found a)
kept_if-IsClosed i none a shut = shut
kept_if-IsClosed i (some j) a shut = kept-IsClosed i j a shut

pub cancel_if-made : (found : Option ℕ) (a : Adapter) → (cancel_if found a).made ≡ a.made
unfolding cancel terminate
cancel_if-made none a = refl
cancel_if-made (some i) a = refl

module _ (name other : Text) (a : Adapter) (apart : eq_text name other ≡ false) where
  -- The external that is replaced has the same name as the new one.
  replaced-lookup :
      (prev : Option ℕ)
      → AllLive a
      → Dict.lookup name a.sub_services ≡ prev
      → Dict.lookup other (cancel_if prev (with_new name a)).sub_services
        ≡ Dict.lookup other a.sub_services
  unfolding cancel terminate
  replaced-lookup none all h = refl
  replaced-lookup (some j) all h =
      let live = all name j h in
      let new_name =
        ap (λ (x : External). x.name)
          (change-other a.made j _ a.externals (grind (arith, live.made)))
        ∙ live.named in
      ap (λ k. Dict.lookup other (Dict.delete k a.sub_services)) new_name
      ∙ (lookup-delete name other a.sub_services ∙ rw apart refl)

  pub register-lookup :
      (opening : Opening)
      → AllLive a
      → Dict.lookup other (register name opening a).1.sub_services
        ≡ Dict.lookup other a.sub_services
  unfolding register new_external terminate
  register-lookup (no_socket e) all = refl
  register-lookup (undialed e) all = lookup-delete name other a.sub_services ∙ rw apart refl
  register-lookup (unsubscribed e) all = lookup-delete name other a.sub_services ∙ rw apart refl
  register-lookup opened all =
      let prev = Dict.lookup name a.sub_services in
      lookup-insert name other a.made (cancel_if prev (with_new name a)).sub_services
      ∙ (rw apart (replaced-lookup prev all refl))

pub register-IsClosed :
    (name : Text) (opening : Opening) (i : ℕ) (a : Adapter)
    → i < a.made
    → IsClosed i a
    → IsClosed i (register name opening a).1
unfolding register new_external terminate
register-IsClosed name (no_socket e) i a made shut = shut
register-IsClosed name (undialed e) i a made shut = shut
register-IsClosed name (unsubscribed e) i a made shut = shut
register-IsClosed name opened i a made (p, q) =
    let old = change-other a.made i _ a.externals (grind (arith, made)) in
    kept_if-IsClosed i (Dict.lookup name a.sub_services) (with_new name a)
      (ap (λ (x : External). x.is_open) old ∙ p, ap (λ (x : External). x.is_subscribed) old ∙ q)
