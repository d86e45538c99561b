-- ===== src/Heap/Sift.antt =====
-- The sift loops end within their fuel, stay in range and restore the heap order.
use mathlib.Core.List.Perm
use xmidt_agent.Base.{
  ℕ, zero, suc, ◌+◌, ◌-◌, ◌*◌, ◌<◌, ◌≤◌, ◌≡◌, ◌≢◌, ◌⊎◌, refl, Bool, true, false, List, ◌∙◌, some,
  Perm, length, get_or, arith, ltb, ◌==◌, if◌then◌else◌, Bool-cases, inl, inr,
}
use xmidt_agent.Base.Run.{Yields, yields, Yields-then, Yields-weaken, Yields-branch}
use xmidt_agent.Heap.{less_at, swap_at, up, down, smaller_child, parent}
use xmidt_agent.Heap.Order.{IsStrictWeak, IsHeap}
use xmidt_agent.Heap.Arrays.{
  get_elem?-get_or, swapped, length-swapped, get_or-swapped, swapped-perm,
}

side : (i c : ℕ) → 0 < c → parent c ≡ i → (c ≡ 2 * i + 1) ⊎ (c ≡ 2 * i + 2)
side i c p e = ground arith

module _ {A : Type 0} (less : A → A → Bool) (d : A) (w : IsStrictWeak less) where
  less_at-in_range :
      (a : List A) (i j : ℕ)
      → i < length a
      → j < length a
      → less_at less a i j ≡ some (less (get_or a i d) (get_or a j d))
  unfolding less_at
  less_at-in_range a i j hi hj = rw (get_elem?-get_or d a i hi, get_elem?-get_or d a j hj)

  pub swap_at-in_range :
      (a : List A) (i j : ℕ)
      → i < length a
      → j < length a
      → swap_at less a i j ≡ some (swapped d a i j)
  unfolding swap_at
  swap_at-in_range a i j hi hj = rw (get_elem?-get_or d a i hi, get_elem?-get_or d a j hj)

  -- Only the edge above `j` may be out of order.
  pub record UpInv (a : List A) (j : ℕ) : Type 0 where
    pub inside : j < length a
    pub edges :
        (c : ℕ) → 0 < c → c < length a → c ≢ j → less (get_or a c d) (get_or a (parent c) d) ≡ false
    pub bridged :
        (c : ℕ)
        → 0 < c
        → c < length a
        → parent c ≡ j
        → 0 < j
        → less (get_or a c d) (get_or a (parent j) d) ≡ false

  swapped-UpInv :
      (a : List A) (j : ℕ)
      → UpInv a j
      → 0 < j
      → less (get_or a j d) (get_or a (parent j) d) ≡ true
      → UpInv (swapped d a (parent j) j) (parent j)
  swapped-UpInv a j v pos below =
      let size = length-swapped d a (parent j) j in
      let at = get_or-swapped d a (parent j) j (omega (arith, v.inside)) v.inside in
      let x = λ (c : ℕ). get_or a c d in
      let asym = w.asym (x j) (x (parent j)) below in
      record {
        inside = omega (arith, v.inside);
        edges = λ c p q r. ground (
          arith,
          at c,
          at (parent c),
          v.edges c,
          v.bridged c,
          asym,
          w.negtrans (x c) (x (parent j)) (x j),
        );
        bridged = λ c p q r s. ground (
          arith,
          at c,
          at (parent (parent j)),
          v.edges c,
          v.edges (parent j),
          w.negtrans (x c) (x (parent j)) (x (parent (parent j))),
        );
      }

  -- A heap up to `n` of the same entries, with those from `n` on where they were.
  pub record Sifted (a : List A) (n : ℕ) (b : List A) : Type 0 where
    pub heap : IsHeap less d b n
    pub same : Perm b a
    pub rest : (c : ℕ) → n ≤ c → get_or b c d ≡ get_or a c d

  Sifted-swapped :
      {a b : List A} {n i j : ℕ}
      → n ≤ length a
      → i < n
      → j < n
      → Sifted (swapped d a i j) n b
      → Sifted a n b
  Sifted-swapped {a} {b} {n} {i} {j} h hi hj s =
      let at = get_or-swapped d a i j (omega arith) (omega arith) in
      record {
        heap = s.heap;
        same = Perm.trans s.same (swapped-perm d a i j (omega arith) (omega arith));
        rest = λ c le. s.rest c le ∙ ground (arith, at c);
      }

  pub up_lem :
      (f : ℕ) (a : List A) (j : ℕ)
      → j < f
      → UpInv a j
      → Yields (Sifted a (length a)) (up less f a j)
  unfolding up
  up_lem zero a j h v = absurd (omega arith)
  up_lem (suc f) a j h v =
      let hp : parent j < length a = omega (arith, v.inside) in
      rw (less_at-in_range a j (parent j) v.inside hp, swap_at-in_range a (parent j) j hp v.inside)
        (Yields-branch (parent j == j)
          (λ root. yields (record {
            heap = λ c p q. v.edges c p q (ground arith);
            same = Perm.rfl;
            rest = λ c _. refl;
          }))
          (λ inner.
            Yields-branch (less (get_or a j d) (get_or a (parent j) d))
              (λ below.
                let pos : 0 < j = ground arith in
                let size = length-swapped d a (parent j) j in
                Yields-weaken
                  (up_lem f (swapped d a (parent j) j) (parent j) (omega arith)
                    (swapped-UpInv a j v pos below))
                  (λ b s. Sifted-swapped (omega arith) hp v.inside (rw size at s)))
              (λ settled. yields (record {
                heap = λ c p q. ground (arith, v.edges c);
                same = Perm.rfl;
                rest = λ c _. refl;
              }))))

  -- Only the edges below `i` may be out of order.
  pub record DownInv (a : List A) (i n : ℕ) : Type 0 where
    pub inside : n ≤ length a
    pub edges :
        (c : ℕ) → 0 < c → c < n → parent c ≢ i → less (get_or a c d) (get_or a (parent c) d) ≡ false
    pub bridged :
        (c : ℕ)
        → 0 < c
        → c < n
        → parent c ≡ i
        → 0 < i
        → less (get_or a c d) (get_or a (parent i) d) ≡ false

  record IsFirstChild (a : List A) (i n m : ℕ) : Type 0 where
    inside : m < n
    child : (m ≡ 2 * i + 1) ⊎ (m ≡ 2 * i + 2)
    first : (c : ℕ) → 0 < c → c < n → parent c ≡ i → less (get_or a c d) (get_or a m d) ≡ false

  irrefl : (x : A) → less x x ≡ false
  irrefl x = ground (arith, w.asym x x)

  first_of_two :
      (a : List A) (i n : ℕ)
      → 2 * i + 2 < n
      → IsFirstChild a i n
          (if less (get_or a (2 * i + 2) d) (get_or a (2 * i + 1) d) then 2 * i + 2 else 2 * i + 1)
  first_of_two a i n two =
      let l = get_or a (2 * i + 1) d in
      let r = get_or a (2 * i + 2) d in
      elim (Bool-cases (less r l)) [
        | inl right ↦ rw right (record {
          inside = two;
          child = inr refl;
          first = λ c p q e. elim (side i c p e) [
            | inl o ↦ rw o (w.asym r l right)
            | inr o ↦ rw o (irrefl r)
          ];
        })
        | inr left ↦ rw left (record {
          inside = omega arith;
          child = inl refl;
          first = λ c p q e. elim (side i c p e) [ inl o ↦ rw o (irrefl l) | inr o ↦ rw o left ];
        })
      ]

  smaller_child_lem :
      (a : List A) (i n : ℕ)
      → n ≤ length a
      → 2 * i + 1 < n
      → Yields (IsFirstChild a i n) (smaller_child less a i n)
  unfolding smaller_child
  smaller_child_lem a i n h l =
      Yields-branch (ltb (2 * i + 2) n)
        (λ two.
          rw (less_at-in_range a (2 * i + 2) (2 * i + 1) (ground arith) (omega arith))
            (yields (first_of_two a i n (ground arith))))
        (λ one. yields (record {
          inside = l;
          child = inl refl;
          first = λ c p q e. let o : c ≡ 2 * i + 1 = ground arith in rw o (irrefl _);
        }))

  swapped-DownInv :
      (a : List A) (i n m : ℕ)
      → DownInv a i n
      → IsFirstChild a i n m
      → less (get_or a m d) (get_or a i d) ≡ true
      → DownInv (swapped d a i m) m n
  swapped-DownInv a i n m v s below =
      let hi : i < length a = omega (arith, v.inside, s.inside, s.child) in
      let hm : m < length a = omega (arith, v.inside, s.inside) in
      let up_of : parent m ≡ i = omega (arith, s.child) in
      let at = get_or-swapped d a i m hi hm in
      let asym = w.asym (get_or a m d) (get_or a i d) below in
      record {
        inside = rw (length-swapped d a i m) v.inside;
        edges = λ c p q r. ground (
          arith,
          at c,
          at (parent c),
          v.edges c,
          v.bridged m,
          v.bridged c,
          s.first c,
          asym,
          s.child,
        );
        bridged = λ c p q r t. ground (arith, at c, at (parent m), v.edges c, s.child);
      }

  pub down_lem :
      (f : ℕ) (a : List A) (i n : ℕ)
      → n - i < f
      → DownInv a i n
      → Yields (Sifted a n) (down less f a i n)
  unfolding down
  down_lem zero a i n h v = absurd (omega arith)
  down_lem (suc f) a i n h v =
      Yields-branch (ltb (2 * i + 1) n)
        (λ deeper. Yields-then (smaller_child_lem a i n v.inside (ground arith)) λ m s.
          let hi : i < length a = omega (arith, v.inside, s.inside, s.child) in
          let hm : m < length a = omega (arith, v.inside, s.inside) in
          rw (less_at-in_range a m i hm hi) (
            Yields-branch (less (get_or a m d) (get_or a i d))
              (λ below. rw (swap_at-in_range a i m hi hm) (
                Yields-weaken
                  (down_lem f (swapped d a i m) m n (omega (arith, s.child, s.inside))
                    (swapped-DownInv a i n m v s below))
                  (λ b t. Sifted-swapped v.inside (omega (arith, s.child, s.inside)) s.inside t)))
              (λ settled. yields (record {
                heap = λ c p q. ground (
                  arith,
                  v.edges c,
                  s.first c,
                  w.negtrans (get_or a c d) (get_or a m d) (get_or a i d),
                );
                same = Perm.rfl;
                rest = λ c _. refl;
              }))))
        (λ leaf. yields (record {
          heap = λ c p q. ground (arith, v.edges c);
          same = Perm.rfl;
          rest = λ c _. refl;
        }))

  -- No entry of a heap comes before its root.
  root_first :
      (k : ℕ) (a : List A) (n i : ℕ)
      → IsHeap less d a n
      → i < k
      → i < n
      → less (get_or a i d) (get_or a 0 d) ≡ false
  root_first zero a n i h p q = absurd (omega arith)
  root_first (suc k) a n zero h p q = irrefl _
  root_first (suc k) a n (suc i) h p q =
      w.negtrans _ _ _ (h (suc i) (omega arith) q)
        (root_first k a n (parent (suc i)) h (omega arith) (omega arith))

  pub root_lem :
      (a : List A) (n i : ℕ)
      → IsHeap less d a n
      → i < n
      → less (get_or a i d) (get_or a 0 d) ≡ false
  root_lem a n i h q = root_first (suc i) a n i h (omega arith) q
