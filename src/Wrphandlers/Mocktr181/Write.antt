-- ===== src/Wrphandlers/Mocktr181/Write.antt =====
-- SET changes all the parameters that it names, or none.
use xmidt_agent.Base.{
  ℕ, zero, suc, ◌≡◌, inl, inr, refl, sym, ap, ◌∙◌, true, Option, some, none, List, [], ◌∷◌, map,
  Text, eq_text, get_elem?, set, elem, In, if◌then◌else◌, ◌==◌, arith, Bool-cases, Option-cases,
}
use xmidt_agent.Wrphandlers.Mocktr181.{MockParameter, Parameter, assign, write_at, write, write_all}

module _ {Value : Type 0} where
  -- A request's effect on one parameter, by name.
  abbrev pub updated : Parameter Value → MockParameter Value → MockParameter Value
  updated r p = if eq_text p.name r.name then assign p r else p

  abbrev pub updated_by : List (Parameter Value) → MockParameter Value → MockParameter Value
  updated_by [] p = p
  updated_by (r ∷ rs) p = updated_by rs (updated r p)

  -- Every parameter of that name stands at a position of the list.
  abbrev pub IsSelected : Text → List ℕ → List (MockParameter Value) → Type 0
  IsSelected name writable ps =
      (i : ℕ) (p : MockParameter Value)
      → get_elem? ps i ≡ some p
      → eq_text p.name name ≡ true
      → elem i writable ≡ true

  get_elem?-ext :
      (xs ys : List (MockParameter Value)) → ((i : ℕ) → get_elem? xs i ≡ get_elem? ys i) → xs ≡ ys
  get_elem?-ext [] [] h = refl
  get_elem?-ext [] (y ∷ ys) h = cc (h 0)
  get_elem?-ext (x ∷ xs) [] h = cc (h 0)
  get_elem?-ext (x ∷ xs) (y ∷ ys) h = cc (h 0, get_elem?-ext xs ys (λ i. h (suc i)))

  get_elem?-set :
      (xs : List (MockParameter Value)) (i j : ℕ) (x v : MockParameter Value)
      → get_elem? xs i ≡ some x
      → get_elem? (set xs i v) j ≡ (if i == j then some v else get_elem? xs j)
  get_elem?-set [] i j x v h = cc
  get_elem?-set (y ∷ xs) zero zero x v h = refl
  get_elem?-set (y ∷ xs) zero (suc j) x v h = ground arith
  get_elem?-set (y ∷ xs) (suc i) zero x v h = ground arith
  get_elem?-set (y ∷ xs) (suc i) (suc j) x v h = ground (arith, get_elem?-set xs i j x v h)

  abbrev update_at : Parameter Value → Option (MockParameter Value) → Option (MockParameter Value)
  update_at r none = none
  update_at r (some p) = some (updated r p)

  write_at-get :
      (r : Parameter Value) (i j : ℕ) (ps : List (MockParameter Value))
      → get_elem? (write_at r i ps).0 j
        ≡ (if i == j then update_at r (get_elem? ps j) else get_elem? ps j)
  unfolding write_at
  write_at-get r i j ps = elim (Option-cases (get_elem? ps i)) [
    | inl e ↦ rw (e, write_at) (ground arith)
    | inr (p, e) ↦ elim (Bool-cases (eq_text p.name r.name)) [
      | inl hit ↦ ground (arith, get_elem?-set ps i j p (assign p r) e)
      | inr miss ↦ ground arith
    ]
  ]

  update_at_idem :
      (r : Parameter Value) (o : Option (MockParameter Value))
      → update_at r (update_at r o) ≡ update_at r o
  unfolding assign
  update_at_idem r none = refl
  update_at_idem r (some p) = elim (Bool-cases (eq_text p.name r.name)) [
    | inl hit ↦ simp hit
    | inr miss ↦ simp miss
  ]

  write-get :
      (r : Parameter Value) (writable : List ℕ) (j : ℕ) (ps : List (MockParameter Value))
      → get_elem? (write r writable ps).0 j
        ≡ (if elem j writable then update_at r (get_elem? ps j) else get_elem? ps j)
  unfolding write
  write-get r [] j ps = refl
  write-get r (i ∷ writable) j ps = ground (
    arith,
    write-get r writable j (write_at r i ps).0,
    write_at-get r i j ps,
    update_at_idem r (get_elem? ps j),
  )

  get_elem?-map :
      (r : Parameter Value) (ps : List (MockParameter Value)) (j : ℕ)
      → get_elem? (map (updated r) ps) j ≡ update_at r (get_elem? ps j)
  get_elem?-map r [] j = refl
  get_elem?-map r (p ∷ ps) zero = refl
  get_elem?-map r (p ∷ ps) (suc j) = get_elem?-map r ps j

  write-map :
      (r : Parameter Value) (writable : List ℕ) (ps : List (MockParameter Value))
      → IsSelected r.name writable ps
      → (write r writable ps).0 ≡ map (updated r) ps
  write-map r writable ps all =
      get_elem?-ext _ _ λ j. write-get r writable j ps ∙ pointwise j ∙ sym (get_elem?-map r ps j)
    where
      pointwise :
          (j : ℕ)
          → (if elem j writable then update_at r (get_elem? ps j) else get_elem? ps j)
            ≡ update_at r (get_elem? ps j)
      pointwise j = elim (Option-cases (get_elem? ps j)) [
        | inl e ↦ rw e (ground arith)
        | inr (p, e) ↦ rw e (ground (arith, all j p e))
      ]

  updated-name : (r : Parameter Value) (p : MockParameter Value) → (updated r p).name ≡ p.name
  unfolding assign
  updated-name r p = ground arith

  update_at-inv :
      (r : Parameter Value) (o : Option (MockParameter Value)) (q : MockParameter Value)
      → update_at r o ≡ some q
      → (p : MockParameter Value) × (o ≡ some p) × (q ≡ updated r p)
  update_at-inv r none q h = cc
  update_at-inv r (some p) q h = (p, refl, cc)

  IsSelected-map :
      (r : Parameter Value) (name : Text) (writable : List ℕ) (ps : List (MockParameter Value))
      → IsSelected name writable ps
      → IsSelected name writable (map (updated r) ps)
  IsSelected-map r name writable ps all i q e m =
      let (p, at, same) = update_at-inv r (get_elem? ps i) q (sym (get_elem?-map r ps i) ∙ e) in
      all i p at (rw (← updated-name r p, ← same) m)

  map-updated :
      (r : Parameter Value) (rs : List (Parameter Value)) (ps : List (MockParameter Value))
      → map (updated_by rs) (map (updated r) ps) ≡ map (updated_by (r ∷ rs)) ps
  map-updated r rs [] = refl
  map-updated r rs (p ∷ ps) = ap (◌∷◌ (updated_by rs (updated r p))) (map-updated r rs ps)

  map-none : (ps : List (MockParameter Value)) → map (updated_by []) ps ≡ ps
  map-none [] = refl
  map-none (p ∷ ps) = ap (◌∷◌ p) (map-none ps)

  pub write_all-map :
      (writable : List ℕ) (rs : List (Parameter Value)) (ps : List (MockParameter Value))
      → ((r : Parameter Value) → In r rs → IsSelected r.name writable ps)
      → (write_all writable rs ps).0 ≡ map (updated_by rs) ps
  unfolding write_all
  write_all-map writable [] ps all = sym (map-none ps)
  write_all-map writable (r ∷ rs) ps all =
      let qs = (write r writable ps).0 in
      let once = write-map r writable ps (all r (inl refl)) in
      write_all-map writable rs qs
        (λ s at. rw once (IsSelected-map r s.name writable ps (all s (inr at))))
      ∙ ap (map (updated_by rs)) once
      ∙ map-updated r rs ps

  pub write_all-none :
      (rs : List (Parameter Value)) (ps : List (MockParameter Value))
      → write_all [] rs ps ≡ (ps, [])
  unfolding write_all write
  write_all-none [] ps = refl
  write_all-none (r ∷ rs) ps = rw (write_all-none rs ps)
