-- ===== src/Wrphandlers/Mocktr181/Read.antt =====
-- GET answers with all that it was asked for, or with an error.
use xmidt_agent.Base.{
  ◌≡◌, ◌↔◌, ◌⊎◌, inl, inr, refl, Bool, true, false, not, ◌&&◌, List, [], ◌∷◌, ◌++◌, Text, codes,
  is_empty, has_prefix, In, All, if◌then◌else◌, arith, Bool-cases,
}
use xmidt_agent.Wrphandlers.Mocktr181.{
  MockParameter, Parameter, Tr181Payload, scan, scan_all, get, success, failure, is_readable,
  is_wildcard, is_nil, status_ok, status_failed, spaced,
}

-- The name asks for the parameter.
abbrev pub asks : {Value : Type 0} → Text → MockParameter Value → Bool
asks name p = not (is_empty name) && has_prefix p.name name

module _ {Value : Type 0} (name : Text) where
  -- A name can be got if it asks for a readable parameter and, unless it is a wildcard, all the
  -- parameters that it asks for are readable.
  abbrev pub CanGet : List (MockParameter Value) → Type 0
  CanGet ps =
      ((p : MockParameter Value) × In p ps × (asks name p ≡ true) × (is_readable p ≡ true))
      × ((p : MockParameter Value)
          → In p ps
          → asks name p ≡ true
          → is_wildcard name ≡ false
          → is_readable p ≡ true)

  scan-found :
      (ps : List (MockParameter Value))
      → (scan name ps).0 ≡ true
      → (p : MockParameter Value) × In p ps × (asks name p ≡ true) × (is_readable p ≡ true)
  unfolding scan
  scan-found [] h = cc
  scan-found (q ∷ ps) h = elim (Bool-cases (asks name q && is_readable q)) [
    | inl e ↦ (q, inl refl, ground arith, ground arith)
    | inr n ↦ let (p, at, a, r) = scan-found ps (ground arith) in (p, inr at, a, r)
  ]

  scan-readable :
      (ps : List (MockParameter Value)) (p : MockParameter Value)
      → (scan name ps).2 ≡ []
      → In p ps
      → asks name p ≡ true
      → is_wildcard name ≡ false
      → is_readable p ≡ true
  unfolding scan
  scan-readable [] p h at a w = absurd at
  scan-readable (q ∷ ps) p h (inl e) a w =
      let a' : asks name q ≡ true = rw (← e) a in rw e (ground arith)
  scan-readable (q ∷ ps) p h (inr at) a w = scan-readable ps p (ground arith) at a w

  CanGet-found :
      (ps : List (MockParameter Value)) (p : MockParameter Value)
      → In p ps
      → asks name p ≡ true
      → is_readable p ≡ true
      → (scan name ps).0 ≡ true
  unfolding scan
  CanGet-found [] p at a r = absurd at
  CanGet-found (q ∷ ps) p (inl e) a r =
      let a' : asks name q ≡ true = rw (← e) a in
      let r' : is_readable q ≡ true = rw (← e) r in ground arith
  CanGet-found (q ∷ ps) p (inr at) a r = let rest = CanGet-found ps p at a r in ground arith

  CanGet-failed :
      (ps : List (MockParameter Value))
      → ((p : MockParameter Value)
          → In p ps
          → asks name p ≡ true
          → is_wildcard name ≡ false
          → is_readable p ≡ true)
      → (scan name ps).2 ≡ []
  unfolding scan
  CanGet-failed [] h = refl
  CanGet-failed (q ∷ ps) h = ground (arith, h q (inl refl), CanGet-failed ps (λ p at. h p (inr at)))

  -- What the reply holds for the name.
  abbrev pub Answers : List (MockParameter Value) → Parameter Value → Type 0
  Answers ps e =
      (p : MockParameter Value) × In p ps
      × (asks name p ≡ true)
      × (is_readable p ≡ true)
      × (e ≡ success p)

  scan-reply :
      (q : MockParameter Value) (ps : List (MockParameter Value))
      → (scan name (q ∷ ps)).1
        ≡ (if asks name q && is_readable q then success q ∷ (scan name ps).1 else (scan name ps).1)
  unfolding scan
  scan-reply q ps = ground arith

  scan-Answers :
      (ps : List (MockParameter Value)) (e : Parameter Value) → In e (scan name ps).1 → Answers ps e
  unfolding scan
  scan-Answers [] e at = absurd at
  scan-Answers (q ∷ ps) e at = elim (Bool-cases (asks name q && is_readable q)) [
    | inl a ↦ elim (rw (scan-reply q ps, a) at at) [
      | inl same ↦ (q, inl refl, ground arith, ground arith, same)
      | inr later ↦
          let (p, in_ps, asked, r, same) = scan-Answers ps e later in (p, inr in_ps, asked, r, same)
    ]
    | inr n ↦
        let (p, in_ps, asked, r, same) = scan-Answers ps e (rw (scan-reply q ps, n) at at) in
        (p, inr in_ps, asked, r, same)
  ]

  Answers-scan :
      (ps : List (MockParameter Value)) (p : MockParameter Value) (e : Parameter Value)
      → In p ps
      → asks name p ≡ true
      → is_readable p ≡ true
      → e ≡ success p
      → In e (scan name ps).1
  unfolding scan
  Answers-scan [] p e at a r same = absurd at
  Answers-scan (q ∷ ps) p e (inl here) a r same =
      let both : (asks name q && is_readable q) ≡ true = rw (← here) (ground arith) in
      rw (scan-reply q ps, both) (inl (rw (← here) same))
  Answers-scan (q ∷ ps) p e (inr at) a r same =
      let later = Answers-scan ps p e at a r same in
      elim (Bool-cases (asks name q && is_readable q)) [
        | inl t ↦ rw (scan-reply q ps, t) (inr later)
        | inr f ↦ rw (scan-reply q ps, f) later
      ]

In-append_left : {A : Type 0} (x : A) (xs ys : List A) → In x xs → In x (xs ++ ys)
In-append_left x [] ys at = absurd at
In-append_left x (y ∷ xs) ys (inl e) = inl e
In-append_left x (y ∷ xs) ys (inr at) = inr (In-append_left x xs ys at)

In-append_right : {A : Type 0} (x : A) (xs ys : List A) → In x ys → In x (xs ++ ys)
In-append_right x [] ys at = at
In-append_right x (y ∷ xs) ys at = inr (In-append_right x xs ys at)

In-append : {A : Type 0} (x : A) (xs ys : List A) → In x (xs ++ ys) → In x xs ⊎ In x ys
In-append x [] ys at = inr at
In-append x (y ∷ xs) ys (inl e) = inl (inl e)
In-append x (y ∷ xs) ys (inr at) = elim (In-append x xs ys at) [
  | inl l ↦ inl (inr l)
  | inr r ↦ inr r
]

append-nil_inv : {A : Type 0} (xs ys : List A) → xs ++ ys ≡ [] → (xs ≡ []) × (ys ≡ [])
append-nil_inv [] ys h = (refl, h)
append-nil_inv (x ∷ xs) ys h = cc

nil_of : {A : Type 0} (xs : List A) → is_nil xs ≡ true → xs ≡ []
nil_of [] h = refl
nil_of (x ∷ xs) h = cc

module _ {Value : Type 0} (ps : List (MockParameter Value)) where
  scan_all-nil :
      (name : Text) (names : List Text)
      → (scan_all ps (name ∷ names)).1 ≡ []
      → ((scan name ps).0 ≡ true) × ((scan name ps).2 ≡ []) × ((scan_all ps names).1 ≡ [])
  unfolding scan_all
  scan_all-nil name names h =
      let missing : List Text = if (scan name ps).0 then [] else name ∷ [] in
      let others = (scan_all ps names).1 in
      let (first, rest) = append-nil_inv (scan name ps).2 (missing ++ others) h in
      let (second, third) = append-nil_inv missing others rest in (ground arith, first, third)

  scan_all-CanGet :
      (names : List Text) → (scan_all ps names).1 ≡ [] → All (λ name. CanGet name ps) names
  scan_all-CanGet [] h = tt
  scan_all-CanGet (name ∷ names) h =
      let (found, fine, rest) = scan_all-nil name names h in
      ((scan-found name ps found, λ p. scan-readable name ps p fine), scan_all-CanGet names rest)

  CanGet-scan_all :
      (names : List Text) → All (λ name. CanGet name ps) names → (scan_all ps names).1 ≡ []
  unfolding scan_all
  CanGet-scan_all [] h = refl
  CanGet-scan_all (name ∷ names) (((p, at, a, r), all), rest) =
      rw (CanGet-failed name ps all, CanGet-found name ps p at a r, CanGet-scan_all names rest)

  -- The entry answers one of the names.
  abbrev pub AnswersAny : List Text → Parameter Value → Type 0
  AnswersAny names e = (name : Text) × In name names × Answers name ps e

  scan_all-AnswersAny :
      (names : List Text) (e : Parameter Value) → In e (scan_all ps names).0 → AnswersAny names e
  unfolding scan_all
  scan_all-AnswersAny [] e at = absurd at
  scan_all-AnswersAny (name ∷ names) e at =
      elim (In-append e (scan name ps).1 (scan_all ps names).0 at) [
        | inl here ↦ (name, inl refl, scan-Answers name ps e here)
        | inr later ↦
            let (n, in_names, a) = scan_all-AnswersAny names e later in (n, inr in_names, a)
      ]

  AnswersAny-scan_all :
      (names : List Text) (name : Text) (e : Parameter Value)
      → In name names
      → Answers name ps e
      → In e (scan_all ps names).0
  unfolding scan_all
  AnswersAny-scan_all [] name e at a = absurd at
  AnswersAny-scan_all (n ∷ names) name e (inl same) (p, in_ps, a, r, q) =
      In-append_left e (scan n ps).1 (scan_all ps names).0
        (rw same at (Answers-scan name ps p e in_ps a r q))
  AnswersAny-scan_all (n ∷ names) name e (inr at) a =
      In-append_right e (scan n ps).1 (scan_all ps names).0 (AnswersAny-scan_all names name e at a)

  -- GET is all or nothing. If every name can be got, the status is 200 and the reply has exactly the
  -- readable parameters that the names ask for. If not, the status is 520 and the reply has one entry
  -- alone, which is no parameter's.
  pub get_atomic :
      (request : Tr181Payload Value)
      → ((All (λ name. CanGet name ps) request.names)
          × ((get ps request).status_code ≡ status_ok)
          × ((e : Parameter Value) → In e (get ps request).parameters ↔ AnswersAny request.names e))
        ⊎ ((¬ All (λ name. CanGet name ps) request.names)
            × ((get ps request).status_code ≡ status_failed)
            × ((message : Text) × ((get ps request).parameters ≡ failure [] message ∷ [])))
  unfolding get
  get_atomic request =
      let names = request.names in
      let (readable, failed) = scan_all ps names in
      elim (Bool-cases (is_nil failed)) [
        | inl ok ↦ inl (
          scan_all-CanGet names (nil_of failed ok),
          rw ok,
          λ e.
              rw ok (
                scan_all-AnswersAny names e,
                λ (name, at, a). AnswersAny-scan_all names name e at a,
              ),
        )
        | inr ko ↦ inr (
          (λ all. ground (arith, CanGet-scan_all names all)),
          rw ko,
          (codes "Invalid parameter names: [" ++ spaced failed ++ codes "]", rw ko),
        )
      ]
