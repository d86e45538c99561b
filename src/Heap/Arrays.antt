-- ===== src/Heap/Arrays.antt =====
-- Swaps and truncations of lists, read entry by entry.
use mathlib.Core.List.{perm_middle, append-nil}
use mathlib.Core.List.Perm
use xmidt_agent.Base.{
  ℕ, zero, suc, ◌+◌, ◌<◌, ◌≡◌, refl, ap, List, [], ◌∷◌, ◌++◌, some, Perm, length, get_elem?, get_or,
  set, take, length-set, sum_by, arith, ◌==◌, if◌then◌else◌,
}

module _ {A : Type 0} (d : A) where
  pub get_elem?-get_or : (a : List A) (i : ℕ) → i < length a → get_elem? a i ≡ some (get_or a i d)
  get_elem?-get_or [] i h = absurd (omega arith)
  get_elem?-get_or (x ∷ a) zero h = refl
  get_elem?-get_or (x ∷ a) (suc i) h = get_elem?-get_or a i (omega arith)

  pub get_or-set :
      (a : List A) (i j : ℕ) (v : A)
      → i < length a
      → get_or (set a i v) j d ≡ (if i == j then v else get_or a j d)
  get_or-set [] i j v h = absurd (omega arith)
  get_or-set (x ∷ a) zero zero v h = refl
  get_or-set (x ∷ a) zero (suc j) v h = ground arith
  get_or-set (x ∷ a) (suc i) zero v h = ground arith
  get_or-set (x ∷ a) (suc i) (suc j) v h = ground (arith, get_or-set a i j v)

  -- The same for an entry that is known to exist.
  pub get_or-set_at :
      (a : List A) (i j : ℕ) (v : A)
      → j < length a
      → get_or (set a i v) j d ≡ (if i == j then v else get_or a j d)
  get_or-set_at [] i j v h = absurd (omega arith)
  get_or-set_at (x ∷ a) zero zero v h = refl
  get_or-set_at (x ∷ a) zero (suc j) v h = ground arith
  get_or-set_at (x ∷ a) (suc i) zero v h = ground arith
  get_or-set_at (x ∷ a) (suc i) (suc j) v h = ground (arith, get_or-set_at a i j v)

  -- A sum after an entry is replaced by one that counts nothing.
  pub sum_by-set :
      (f : A → ℕ) (a : List A) (i : ℕ) (v : A)
      → f d ≡ 0
      → f v ≡ 0
      → sum_by f (set a i v) + f (get_or a i d) ≡ sum_by f a
  sum_by-set f [] i v h k = omega arith
  sum_by-set f (x ∷ a) zero v h k = omega arith
  sum_by-set f (x ∷ a) (suc i) v h k = omega (arith, sum_by-set f a i v h k)

  pub get_or-append_left :
      (a b : List A) (i : ℕ) → i < length a → get_or (a ++ b) i d ≡ get_or a i d
  get_or-append_left [] b i h = absurd (omega arith)
  get_or-append_left (x ∷ a) b zero h = refl
  get_or-append_left (x ∷ a) b (suc i) h = get_or-append_left a b i (omega arith)

  pub get_or-take : (n : ℕ) (a : List A) (i : ℕ) → i < n → get_or (take n a) i d ≡ get_or a i d
  get_or-take zero a i h = absurd (omega arith)
  get_or-take (suc n) [] i h = refl
  get_or-take (suc n) (x ∷ a) zero h = refl
  get_or-take (suc n) (x ∷ a) (suc i) h = get_or-take n a i (omega arith)

  pub take-snoc : (n : ℕ) (a : List A) → length a ≡ suc n → take n a ++ get_or a n d ∷ [] ≡ a
  take-snoc zero [] h = absurd (omega arith)
  take-snoc zero (x ∷ []) h = refl
  take-snoc zero (x ∷ y ∷ a) h = absurd (omega arith)
  take-snoc (suc n) [] h = absurd (omega arith)
  take-snoc (suc n) (x ∷ a) h = ap (◌∷◌ x) (take-snoc n a (omega arith))

  -- Writing one entry exchanges it for the new one.
  pub set-perm :
      (a : List A) (i : ℕ) (v : A) → i < length a → Perm (get_or a i d ∷ set a i v) (v ∷ a)
  set-perm [] i v h = absurd (omega arith)
  set-perm (x ∷ a) zero v h = Perm.swap v x a
  set-perm (x ∷ a) (suc i) v h =
      Perm.trans (Perm.swap x _ _)
        (Perm.trans (Perm.cons x (set-perm a i v (omega arith))) (Perm.swap v x a))

  pub snoc-perm : (a : List A) (x : A) → Perm (a ++ x ∷ []) (x ∷ a)
  snoc-perm a x = rw (append-nil a) at (perm_middle {a = x} a [])

  abbrev pub swapped : List A → ℕ → ℕ → List A
  swapped a i j = set (set a i (get_or a j d)) j (get_or a i d)

  pub length-swapped : (a : List A) (i j : ℕ) → length (swapped a i j) ≡ length a
  length-swapped a i j = simp length-set

  module _ (a : List A) (i j : ℕ) (hi : i < length a) (hj : j < length a) where
    pub get_or-swapped :
        (c : ℕ)
        → get_or (swapped a i j) c d
          ≡ (if j == c then get_or a i d else if i == c then get_or a j d else get_or a c d)
    get_or-swapped c = rw (
      get_or-set (set a i (get_or a j d)) j c (get_or a i d) (rw length-set hj),
      get_or-set a i c (get_or a j d) hi,
    )

    pub swapped-perm : Perm (swapped a i j) a
    swapped-perm =
        let once = set a i (get_or a j d) in
        let same : get_or once j d ≡ get_or a j d =
          ground (arith, get_or-set a i j (get_or a j d)) in
        let again = rw same at (set-perm once j (get_or a i d) (rw length-set hj)) in
        Perm.cons_inv (Perm.trans again (set-perm a i (get_or a j d) hi))
