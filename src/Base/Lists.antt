-- ===== src/Base/Lists.antt =====
-- Lists under native indices.
use Prim.Native.Nat.{ℕ, zero, suc, ◌+◌, ◌≤◌}
use Prim.Native.Nat.add
use mathlib.Core.Path.{◌≡◌, refl, ap, ◌∙◌}
use mathlib.Core.Bool.{Bool, false, ◌||◌}
use mathlib.Core.Logic.{∥∥₁_elim, ◌⊎◌}
use mathlib.Core.Option.{Option, none, some}
use mathlib.Core.List.{List, [], ◌∷◌, ◌++◌, Perm, Permᴰ}
use native.Mathlib.Nat.{ℕ_set, add-zero}
use native.Mathlib.Omega.{arith}
use xmidt_agent.Base.Tests.{◌==◌}

module _ {ℓ} {A : Type ℓ} where
  abbrev pub length : List A → ℕ
  length [] = 0
  length (x ∷ xs) = suc (length xs)

  abbrev pub get_elem? : List A → ℕ → Option A
  get_elem? [] i = none
  get_elem? (x ∷ xs) zero = some x
  get_elem? (x ∷ xs) (suc i) = get_elem? xs i

  abbrev pub get_or : List A → ℕ → A → A
  get_or [] i d = d
  get_or (x ∷ xs) zero d = x
  get_or (x ∷ xs) (suc i) d = get_or xs i d

  abbrev pub set : List A → ℕ → A → List A
  set [] i v = []
  set (x ∷ xs) zero v = v ∷ xs
  set (x ∷ xs) (suc i) v = x ∷ set xs i v

  abbrev pub take : ℕ → List A → List A
  take zero xs = []
  take (suc n) [] = []
  take (suc n) (x ∷ xs) = x ∷ take n xs

  abbrev pub drop : ℕ → List A → List A
  drop zero xs = xs
  drop (suc n) [] = []
  drop (suc n) (x ∷ xs) = drop n xs

  pub drop-drop : (m n : ℕ) (xs : List A) → drop (m + n) xs ≡ drop n (drop m xs)
  drop-drop zero n xs = rw add.zero refl
  drop-drop (suc m) zero [] = rw add-zero refl
  drop-drop (suc m) (suc n) [] = rw (add.suc m (suc n)) refl
  drop-drop (suc m) n (x ∷ xs) = rw (add.suc m n) (drop-drop m n xs)

  pub drop-length-take : (n : ℕ) (xs : List A) → drop (length (take n xs)) xs ≡ drop n xs
  drop-length-take zero xs = refl
  drop-length-take (suc n) [] = refl
  drop-length-take (suc n) (x ∷ xs) = drop-length-take n xs

  pub take-take : (m n : ℕ) (xs : List A) → take m xs ++ take n (drop m xs) ≡ take (m + n) xs
  take-take zero n xs = rw add.zero refl
  take-take (suc m) zero [] = rw (add.suc m zero) refl
  take-take (suc m) (suc n) [] = rw (add.suc m (suc n)) refl
  take-take (suc m) n (x ∷ xs) = rw (add.suc m n) (ap (λ (t : List A). x ∷ t) (take-take m n xs))

  pub take-all : (n : ℕ) (xs : List A) → length xs ≤ n → take n xs ≡ xs
  take-all zero [] h = refl
  take-all zero (x ∷ xs) h = absurd (omega arith)
  take-all (suc n) [] h = refl
  take-all (suc n) (x ∷ xs) h = ap (λ (t : List A). x ∷ t) (take-all n xs (omega arith))

  pub drop-all : (n : ℕ) (xs : List A) → length xs ≤ n → drop n xs ≡ []
  drop-all zero [] h = refl
  drop-all zero (x ∷ xs) h = absurd (omega arith)
  drop-all (suc n) [] h = refl
  drop-all (suc n) (x ∷ xs) h = drop-all n xs (omega arith)

  pub drop-nil_length : (n : ℕ) (xs : List A) → drop n xs ≡ [] → length xs ≤ n
  drop-nil_length n [] h = omega arith
  drop-nil_length zero (x ∷ xs) h = ground (arith, h)
  drop-nil_length (suc n) (x ∷ xs) h = omega (arith, drop-nil_length n xs h)

  pub length-append : (xs ys : List A) → length (xs ++ ys) ≡ length xs + length ys
  length-append [] ys = omega arith
  length-append (x ∷ xs) ys = omega (arith, length-append xs ys)

  pub length-set : (xs : List A) (i : ℕ) (v : A) → length (set xs i v) ≡ length xs
  length-set [] i v = refl
  length-set (x ∷ xs) zero v = refl
  length-set (x ∷ xs) (suc i) v = ap suc (length-set xs i v)

  -- A predicate on every element, by recursion.
  abbrev pub All {κ} : (A → Type κ) → List A → Type κ
  All P [] = Unit
  All P (x ∷ xs) = P x × All P xs

  length-Permᴰ : {xs ys : List A} → Permᴰ xs ys → length xs ≡ length ys
  length-Permᴰ Permᴰ.nil = refl
  length-Permᴰ (Permᴰ.cons _ p) = ap suc (length-Permᴰ p)
  length-Permᴰ (Permᴰ.swap _ _) = refl
  length-Permᴰ (Permᴰ.trans p q) = length-Permᴰ p ∙ length-Permᴰ q

  pub length-perm : {xs ys : List A} → Perm xs ys → length xs ≡ length ys
  length-perm p = ∥∥₁_elim p (ℕ_set _ _) length-Permᴰ

-- A sum over a list, which does not depend on the order.
module _ {ℓ} {A : Type ℓ} (f : A → ℕ) where
  abbrev pub sum_by : List A → ℕ
  sum_by [] = 0
  sum_by (x ∷ xs) = f x + sum_by xs

  pub sum_by-append : (xs ys : List A) → sum_by (xs ++ ys) ≡ sum_by xs + sum_by ys
  sum_by-append [] ys = omega arith
  sum_by-append (x ∷ xs) ys = omega (arith, sum_by-append xs ys)

  sum_by-Permᴰ : {xs ys : List A} → Permᴰ xs ys → sum_by xs ≡ sum_by ys
  sum_by-Permᴰ Permᴰ.nil = refl
  sum_by-Permᴰ (Permᴰ.cons e p) = omega (arith, ap f e, sum_by-Permᴰ p)
  sum_by-Permᴰ (Permᴰ.swap e e') = omega (arith, ap f e, ap f e')
  sum_by-Permᴰ (Permᴰ.trans p q) = sum_by-Permᴰ p ∙ sum_by-Permᴰ q

  pub sum_by-perm : {xs ys : List A} → Perm xs ys → sum_by xs ≡ sum_by ys
  sum_by-perm p = ∥∥₁_elim p (ℕ_set _ _) sum_by-Permᴰ

-- Membership of a number, as a test.
abbrev pub elem : ℕ → List ℕ → Bool
elem n [] = false
elem n (x ∷ xs) = n == x || elem n xs

-- Membership, as a predicate by recursion.
abbrev pub In : {A : Type 0} → A → List A → Type 0
In x [] = ⊥
In x (y ∷ ys) = (x ≡ y) ⊎ In x ys

-- The lists have the same length, and each item is in the relation with that at its place.
abbrev pub Each : {A B : Type 0} → (A → B → Type 0) → List A → List B → Type 0
Each R [] [] = Unit
Each R [] (_ ∷ _) = ⊥
Each R (_ ∷ _) [] = ⊥
Each R (x ∷ xs) (y ∷ ys) = R x y × Each R xs ys

pub Each-append :
    {A B : Type 0} (R : A → B → Type 0) (xs : List A) (ks : List B) (ys : List A) (ls : List B)
    → Each R xs ks
    → Each R ys ls
    → Each R (xs ++ ys) (ks ++ ls)
Each-append R [] [] ys ls h g = g
Each-append R [] (k ∷ ks) ys ls h g = absurd h
Each-append R (x ∷ xs) [] ys ls h g = absurd h
Each-append R (x ∷ xs) (k ∷ ks) ys ls (p, h) g = (p, Each-append R xs ks ys ls h g)
