-- ===== src/Wrphandlers/Mocktr181/Select.antt =====
-- The first pass of SET: which requests are accepted, and where their parameters stand.
use xmidt_agent.Base.{
  ℕ, zero, suc, ◌+◌, ◌≡◌, ◌⊎◌, inl, inr, refl, ◌∙◌, true, ◌||◌, some, List, [], ◌∷◌, ◌++◌, map,
  Text, codes, eq_text, get_elem?, elem, In, All, if◌then◌else◌, arith, Bool-cases,
}
use xmidt_agent.Wrphandlers.Mocktr181.{
  MockParameter, Parameter, Tr181Payload, select, select_all, set_parameters, is_writable, is_nil,
  failure, status_accepted, status_failed,
}
use xmidt_agent.Wrphandlers.Mocktr181.Write.{IsSelected, updated_by, write_all-map, write_all-none}

elem-append : (i : ℕ) (xs ys : List ℕ) → elem i (xs ++ ys) ≡ (elem i xs || elem i ys)
elem-append i [] ys = refl
elem-append i (x ∷ xs) ys = ground (arith, elem-append i xs ys)

append-eq_nil {ℓ} : {A : Type ℓ} (xs ys : List A) → xs ++ ys ≡ [] → (xs ≡ []) × (ys ≡ [])
append-eq_nil [] ys h = (refl, h)
append-eq_nil (x ∷ xs) ys h = cc

is_nil→eq : {A : Type 0} (xs : List A) → is_nil xs ≡ true → xs ≡ []
is_nil→eq [] h = refl
is_nil→eq (x ∷ xs) h = cc

module _ {Value : Type 0} where
  -- A name can be set if a parameter has it, and all the parameters that have it are writable.
  abbrev pub CanSet : List (MockParameter Value) → Text → Type 0
  CanSet ps name =
      ((p : MockParameter Value) × In p ps × (eq_text p.name name ≡ true))
      × ((p : MockParameter Value) → In p ps → eq_text p.name name ≡ true → is_writable p ≡ true)

  -- Without a failure the positions of all the parameters of the name are selected.
  select-selected :
      (name : Text) (i j k : ℕ) (ps : List (MockParameter Value)) (p : MockParameter Value)
      → k ≡ i + j
      → (select name i ps).2 ≡ []
      → get_elem? ps j ≡ some p
      → eq_text p.name name ≡ true
      → elem k (select name i ps).1 ≡ true
  unfolding select
  select-selected name i j k [] p e f at m = cc
  select-selected name i zero k (q ∷ ps) p e f at m = ground arith
  select-selected name i (suc j) k (q ∷ ps) p e f at m =
      ground (arith, select-selected name (suc i) j k ps p (omega arith))

  module _ (name : Text) where
    select-found :
        (i : ℕ) (ps : List (MockParameter Value))
        → (select name i ps).0 ≡ true
        → (p : MockParameter Value) × In p ps × (eq_text p.name name ≡ true)
    unfolding select
    select-found i [] h = cc
    select-found i (q ∷ ps) h = elim (Bool-cases (eq_text q.name name)) [
      | inl m ↦ (q, inl refl, m)
      | inr n ↦ let (p, at, m) = select-found (suc i) ps (ground arith) in (p, inr at, m)
    ]

    AllWritable : List (MockParameter Value) → Type 0
    AllWritable ps =
        (p : MockParameter Value) → In p ps → eq_text p.name name ≡ true → is_writable p ≡ true

    select-writable :
        (i : ℕ) (ps : List (MockParameter Value)) → (select name i ps).2 ≡ [] → AllWritable ps
    unfolding select AllWritable
    select-writable i [] h p at m = absurd at
    select-writable i (q ∷ ps) h p (inl e) m =
        let m' : eq_text q.name name ≡ true = rw (← e) m in rw e (ground arith)
    select-writable i (q ∷ ps) h p (inr at) m = select-writable (suc i) ps (ground arith) p at m

    AllWritable-failed :
        (i : ℕ) (ps : List (MockParameter Value)) → AllWritable ps → (select name i ps).2 ≡ []
    unfolding select AllWritable
    AllWritable-failed i [] h = refl
    AllWritable-failed i (q ∷ ps) h =
        ground (arith, h q (inl refl), AllWritable-failed (suc i) ps (λ p at. h p (inr at)))

    AllWritable-found :
        (i : ℕ) (ps : List (MockParameter Value)) (p : MockParameter Value)
        → AllWritable ps
        → In p ps
        → eq_text p.name name ≡ true
        → (select name i ps).0 ≡ true
    unfolding select AllWritable
    AllWritable-found i [] p h at m = absurd at
    AllWritable-found i (q ∷ ps) p h (inl e) m =
        let m' : eq_text q.name name ≡ true = rw (← e) m in ground (arith, h q (inl refl))
    AllWritable-found i (q ∷ ps) p h (inr at) m =
        let rest = AllWritable-found (suc i) ps p (λ r in_ps. h r (inr in_ps)) at m in
        ground (arith, h q (inl refl))

  -- What it means for the first pass that nothing failed.
  select_all-nil :
      (ps : List (MockParameter Value)) (r : Parameter Value) (rs : List (Parameter Value))
      → (select_all ps (r ∷ rs)).1 ≡ []
      → ((select r.name 0 ps).0 ≡ true)
        × ((select r.name 0 ps).2 ≡ [])
        × ((select_all ps rs).1 ≡ [])
  unfolding select_all
  select_all-nil ps r rs h =
      let missing =
        if (select r.name 0 ps).0
        then []
        else failure r.name (codes "Invalid parameter name") ∷ [] in
      let others = (select_all ps rs).1 in
      let (first, rest) = append-eq_nil (select r.name 0 ps).2 (missing ++ others) h in
      let (second, third) = append-eq_nil missing others rest in (ground arith, first, third)

  select_all-CanSet :
      (ps : List (MockParameter Value)) (rs : List (Parameter Value))
      → (select_all ps rs).1 ≡ []
      → All (λ r. CanSet ps r.name) rs
  unfolding AllWritable
  select_all-CanSet ps [] h = tt
  select_all-CanSet ps (r ∷ rs) h =
      let (found, fine, rest) = select_all-nil ps r rs h in
      (
        (select-found r.name 0 ps found, select-writable r.name 0 ps fine),
        select_all-CanSet ps rs rest,
      )

  CanSet-select_all :
      (ps : List (MockParameter Value)) (rs : List (Parameter Value))
      → All (λ r. CanSet ps r.name) rs
      → (select_all ps rs).1 ≡ []
  unfolding select_all AllWritable
  CanSet-select_all ps [] h = refl
  CanSet-select_all ps (r ∷ rs) (((p, at, m), all), rest) = rw (
    AllWritable-failed r.name 0 ps all,
    AllWritable-found r.name 0 ps p all at m,
    CanSet-select_all ps rs rest,
  )

  select_all-IsSelected :
      (ps : List (MockParameter Value)) (rs : List (Parameter Value))
      → (select_all ps rs).1 ≡ []
      → (r : Parameter Value) → In r rs
      → IsSelected r.name (select_all ps rs).0 ps
  unfolding select_all
  select_all-IsSelected ps [] h r at i p got m = absurd at
  select_all-IsSelected ps (s ∷ rs) h r (inl e) i p got m =
      let (found, fine, rest) = select_all-nil ps s rs h in
      let m' : eq_text p.name s.name ≡ true = rw (← e) m in
      let here = select-selected s.name 0 i i ps p (omega arith) fine got m' in
      elem-append i (select s.name 0 ps).1 (select_all ps rs).0 ∙ rw here
  select_all-IsSelected ps (s ∷ rs) h r (inr at) i p got m =
      let (found, fine, rest) = select_all-nil ps s rs h in
      let later = select_all-IsSelected ps rs rest r at i p got m in
      elem-append i (select s.name 0 ps).1 (select_all ps rs).0 ∙ ground (arith, later)

  -- SET is all or nothing. If each of its requests names parameters that can be set, its status is
  -- 202 and each parameter is updated by every request for its name, in order. If not, its status is
  -- 520 and no parameter changes.
  pub set_parameters_atomic :
      (ps : List (MockParameter Value)) (request : Tr181Payload Value)
      → let (qs, result) = set_parameters ps request in
        ((All (λ r. CanSet ps r.name) request.parameters)
          × (result.status_code ≡ status_accepted)
          × (qs ≡ map (updated_by request.parameters) ps))
        ⊎ ((¬ All (λ r. CanSet ps r.name) request.parameters)
            × (result.status_code ≡ status_failed)
            × (qs ≡ ps))
  unfolding set_parameters
  set_parameters_atomic ps request =
      let rs = request.parameters in
      let (writable, failed) = select_all ps rs in
      elim (Bool-cases (is_nil failed)) [
        | inl ok ↦
            let fine : failed ≡ [] = is_nil→eq failed ok in
            inl (
              select_all-CanSet ps rs fine,
              rw ok,
              rw ok (write_all-map writable rs ps (select_all-IsSelected ps rs fine)),
            )
        | inr ko ↦ inr (
          (λ all. ground (arith, CanSet-select_all ps rs all)),
          rw ko,
          rw (ko, write_all-none rs ps),
        )
      ]
