-- ===== src/Setup.antt =====
-- The functional options with which the packages credentials, websocket and jwtxt build their objects:
-- New applies the caller's options and then its own checks, and stops at the first error.
pub mod Passes
use xmidt_agent.Base.{
  ◌≡◌, ◌↔◌, inl, inr, refl, sym, ap, ◌∙◌, Bool, true, false, ◌||◌, Option, some, none, List, [],
  ◌∷◌, ◌++◌, arith, Bool-cases, if◌then◌else◌,
}
use xmidt_agent.Wrp.{Error}

-- What an option makes of the object `C`.
pub data Applied (C : Type 0) : Type 0 where
  applied : C → Applied C
  rejected : Error → Applied C
  panicked : Applied C

-- Option: what apply does.
abbrev pub Setting : Type 0 → Type 0
Setting C = C → Applied C

module _ {C : Type 0} where
  abbrev pub then_apply : Applied C → Setting C → Applied C
  then_apply (applied c) f = f c
  then_apply (rejected e) f = rejected e
  then_apply panicked f = panicked

  -- the loop of New; a nil option is `none`
  unfoldable pub apply_all : List (Option (Setting C)) → Setting C
  apply_all [] c = applied c
  apply_all (none ∷ opts) c = apply_all opts c
  apply_all (some opt ∷ opts) c = then_apply (opt c) (apply_all opts)

  -- a check, which leaves the object as it is
  abbrev pub reject_if : Error → (C → Bool) → Setting C
  reject_if e test c = if test c then rejected e else applied c

  abbrev pub reject_each : Error → List (C → Bool) → List (Option (Setting C))
  reject_each e [] = []
  reject_each e (test ∷ tests) = some (reject_if e test) ∷ reject_each e tests

  abbrev pub some_holds : List (C → Bool) → C → Bool
  some_holds [] c = false
  some_holds (test ∷ tests) c = test c || some_holds tests c

  then_apply_assoc :
      (r : Applied C) (f g h : Setting C)
      → ((c : C) → h c ≡ then_apply (f c) g)
      → then_apply r h ≡ then_apply (then_apply r f) g
  then_apply_assoc (applied c) f g h p = p c
  then_apply_assoc (rejected e) f g h p = refl
  then_apply_assoc panicked f g h p = refl

  pub apply_all-append :
      (xs ys : List (Option (Setting C))) (c : C)
      → apply_all (xs ++ ys) c ≡ then_apply (apply_all xs c) (apply_all ys)
  unfolding apply_all
  apply_all-append [] ys c = refl
  apply_all-append (none ∷ xs) ys c = apply_all-append xs ys c
  apply_all-append (some x ∷ xs) ys c =
      then_apply_assoc (x c) (apply_all xs) (apply_all ys) (apply_all (xs ++ ys))
        (apply_all-append xs ys)

  pub apply_all-reject_each :
      (e : Error) (tests : List (C → Bool)) (c : C)
      → apply_all (reject_each e tests) c ≡ (if some_holds tests c then rejected e else applied c)
  unfolding apply_all
  apply_all-reject_each e [] c = refl
  apply_all-reject_each e (test ∷ tests) c = elim (Bool-cases (test c)) [
    | inl p ↦ rw p refl
    | inr p ↦ rw p (apply_all-reject_each e tests c)
  ]

  pub applied-inj : (b c : C) → applied b ≡ applied c → b ≡ c
  applied-inj b c p = cc

  passed :
      (e : Error) (tests : List (C → Bool)) (b c : C) (x : Bool)
      → some_holds tests b ≡ x
      → ((if x then rejected e else applied b) ≡ applied c)
        ↔ (applied b ≡ applied c) × (some_holds tests c ≡ false)
  passed e tests b c true p = (
    λ h. ground (arith, h),
    λ (q, f). ground (arith, p, f, ap (some_holds tests) (applied-inj b c q)),
  )
  passed e tests b c false p =
      (λ h. (h, sym (ap (some_holds tests) (applied-inj b c h)) ∙ p), λ (q, f). q)

  end_checks :
      (e : Error) (tests : List (C → Bool)) (c : C) (r : Applied C)
      → (then_apply r (apply_all (reject_each e tests)) ≡ applied c)
        ↔ (r ≡ applied c) × (some_holds tests c ≡ false)
  end_checks e tests c (rejected f) = (λ p. ground (arith, p), λ (p, q). ground (arith, p))
  end_checks e tests c panicked = (λ p. ground (arith, p), λ (p, q). ground (arith, p))
  end_checks e tests c (applied b) =
      rw (apply_all-reject_each e tests b) (passed e tests b c (some_holds tests b) refl)

  -- If the checks come last, the object that is built is what the options make, and passes them all.
  pub checked :
      (e : Error) (tests : List (C → Bool)) (opts : List (Option (Setting C))) (start c : C)
      → apply_all (opts ++ reject_each e tests) start ≡ applied c
        ↔ (apply_all opts start ≡ applied c) × (some_holds tests c ≡ false)
  checked e tests opts start c =
      rw (apply_all-append opts (reject_each e tests) start)
        (end_checks e tests c (apply_all opts start))
