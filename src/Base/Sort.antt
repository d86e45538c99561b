-- ===== src/Base/Sort.antt =====
-- Sorting by a test, as the Go library's sort functions do, and filtering.
use mathlib.Core.Path.{◌≡◌}
use mathlib.Core.Bool.{Bool, true, false}
use mathlib.Core.Logic.{inl, inr}
use mathlib.Core.List.{List, [], ◌∷◌, Perm}
use mathlib.Core.List.Perm
use xmidt_agent.Base.Tests.{if◌then◌else◌, Bool-cases}
use xmidt_agent.Base.Lists.{All}

module _ {ℓ} {A : Type ℓ} (keep : A → Bool) where
  abbrev pub filter : List A → List A
  filter [] = []
  filter (x ∷ xs) = let rest = filter xs in if keep x then x ∷ rest else rest

module _ {ℓ} {A : Type ℓ} (less : A → A → Bool) where
  abbrev pub insert_by : A → List A → List A
  insert_by x [] = x ∷ []
  insert_by x (y ∷ ys) = let rest = insert_by x ys in if less y x then y ∷ rest else x ∷ y ∷ ys

  abbrev pub sort_by : List A → List A
  sort_by [] = []
  sort_by (x ∷ xs) = insert_by x (sort_by xs)

  -- None comes before one that stands to its left.
  abbrev pub IsSortedBy : List A → Type ℓ
  IsSortedBy [] = Unit
  IsSortedBy (x ∷ xs) = All (λ y. less y x ≡ false) xs × IsSortedBy xs

  insert_by-perm : (x : A) (ys : List A) → Perm (insert_by x ys) (x ∷ ys)
  insert_by-perm x [] = Perm.refl (x ∷ [])
  insert_by-perm x (y ∷ ys) = elim (Bool-cases (less y x)) [
    | inl e ↦ rw e (Perm.trans (Perm.cons y (insert_by-perm x ys)) (Perm.swap x y ys))
    | inr e ↦ rw e (Perm.refl (x ∷ y ∷ ys))
  ]

  pub sort_by-perm : (xs : List A) → Perm (sort_by xs) xs
  sort_by-perm [] = Perm.refl []
  sort_by-perm (x ∷ xs) = Perm.trans (insert_by-perm x (sort_by xs)) (Perm.cons x (sort_by-perm xs))

  insert_by-All : (P : A → Type 0) (x : A) (ys : List A) → P x → All P ys → All P (insert_by x ys)
  insert_by-All P x [] p h = (p, tt)
  insert_by-All P x (y ∷ ys) p (q, h) = elim (Bool-cases (less y x)) [
    | inl e ↦ rw e (q, insert_by-All P x ys p h)
    | inr e ↦ rw e (p, (q, h))
  ]

  pub sort_by-All : (P : A → Type 0) (xs : List A) → All P xs → All P (sort_by xs)
  sort_by-All P [] h = tt
  sort_by-All P (x ∷ xs) (p, h) = insert_by-All P x (sort_by xs) p (sort_by-All P xs h)

  module _ (asym : (x y : A) → less x y ≡ true → less y x ≡ false)
      (negtrans : (x y z : A) → less x y ≡ false → less y z ≡ false → less x z ≡ false) where
    All-insert_by :
        (x z : A) (ys : List A)
        → less x z ≡ false
        → All (λ y. less y z ≡ false) ys
        → All (λ y. less y z ≡ false) (insert_by x ys)
    All-insert_by x z [] p h = (p, tt)
    All-insert_by x z (y ∷ ys) p (q, h) = elim (Bool-cases (less y x)) [
      | inl e ↦ rw e (q, All-insert_by x z ys p h)
      | inr e ↦ rw e (p, (q, h))
    ]

    All-weaken :
        (x y : A) (ys : List A)
        → less y x ≡ false
        → All (λ w. less w y ≡ false) ys
        → All (λ w. less w x ≡ false) ys
    All-weaken x y [] p h = tt
    All-weaken x y (w ∷ ys) p (q, h) = (negtrans w y x q p, All-weaken x y ys p h)

    insert_by-IsSortedBy : (x : A) (ys : List A) → IsSortedBy ys → IsSortedBy (insert_by x ys)
    insert_by-IsSortedBy x [] h = (tt, tt)
    insert_by-IsSortedBy x (y ∷ ys) (h, s) = elim (Bool-cases (less y x)) [
      | inl e ↦ rw e (All-insert_by x y ys (asym y x e) h, insert_by-IsSortedBy x ys s)
      | inr e ↦ rw e ((e, All-weaken x y ys e h), (h, s))
    ]

    pub sort_by-IsSortedBy : (xs : List A) → IsSortedBy (sort_by xs)
    sort_by-IsSortedBy [] = tt
    sort_by-IsSortedBy (x ∷ xs) = insert_by-IsSortedBy x (sort_by xs) (sort_by-IsSortedBy xs)
