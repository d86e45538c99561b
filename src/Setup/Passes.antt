-- ===== src/Setup/Passes.antt =====
-- Options that test their argument: what a list of them makes of an object, test by test.
use xmidt_agent.Base.{
  ◌≡◌, refl, Bool, true, false, ◌||◌, Option, some, List, [], ◌∷◌, ◌++◌, if◌then◌else◌,
}
use xmidt_agent.Wrp.{Error}
use xmidt_agent.Setup.{
  Applied, applied, rejected, Setting, then_apply, apply_all, reject_each, some_holds,
  apply_all-append, apply_all-reject_each,
}

-- The result is an error where the test `b` holds, and the object `c` otherwise.
pub data Passes {C : Type 0} (b : Bool) (c : C) (r : Applied C) : Type 0 where
  refused : b ≡ true → (e : Error) → r ≡ rejected e → Passes b c r
  passed : b ≡ false → r ≡ applied c → Passes b c r

-- One of the tests holds.
abbrev pub any_holds : List Bool → Bool
any_holds [] = false
any_holds (b ∷ bs) = b || any_holds bs

-- The options refuse the object `start` where one of the tests holds, and make `c` of it otherwise.
pub record PassesAll {C : Type 0} (bs : List Bool) (c start : C) (opts : List (Option (Setting C)))
    : Type 0 where
  pub result : Passes (any_holds bs) c (apply_all opts start)

module _ {C : Type 0} where
  pub Passes-if : (e : Error) (b : Bool) {c : C} → Passes b c (if b then rejected e else applied c)
  Passes-if e true = refused refl e refl
  Passes-if e false = passed refl refl

  pub Passes-then :
      {b b' : Bool} {c' c : C} {r : Applied C} (f : Setting C)
      → Passes b c' r
      → Passes b' c (f c')
      → Passes (b || b') c (then_apply r f)
  Passes-then f (refused p e q) h = refused (rw p refl) e (rw q refl)
  Passes-then f (passed p q) h = rw (p, q) h

  pub PassesAll-nil : {c : C} → PassesAll [] c c []
  unfolding apply_all
  PassesAll-nil = record { result = passed refl refl }

  -- an option with a test
  pub PassesAll-test :
      {b : Bool} {bs : List Bool} {start c' c : C} {opt : Setting C}
      {opts : List (Option (Setting C))}
      → Passes b c' (opt start)
      → PassesAll bs c c' opts
      → PassesAll (b ∷ bs) c start (some opt ∷ opts)
  unfolding apply_all
  PassesAll-test {opts} h k = record { result = Passes-then (apply_all opts) h k.result }

  -- and one without
  pub PassesAll-set :
      {bs : List Bool} {start c' c : C} {opt : Setting C} {opts : List (Option (Setting C))}
      → opt start ≡ applied c'
      → PassesAll bs c c' opts
      → PassesAll bs c start (some opt ∷ opts)
  unfolding apply_all
  PassesAll-set h k = record { result = rw h k.result }

  checks-Passes :
      (e : Error) (tests : List (C → Bool)) (c : C)
      → Passes (some_holds tests c) c (apply_all (reject_each e tests) c)
  checks-Passes e tests c = rw (apply_all-reject_each e tests c) (Passes-if e (some_holds tests c))

  -- New, which applies its checks after the options
  pub new-Passes :
      {bs : List Bool} {start c : C} (e : Error) (tests : List (C → Bool))
      (opts : List (Option (Setting C)))
      → PassesAll bs c start opts
      → Passes
          (any_holds bs || some_holds tests c)
          c
          (apply_all (opts ++ reject_each e tests) start)
  new-Passes {start} {c} e tests opts h =
      rw (apply_all-append opts (reject_each e tests) start)
        (Passes-then (apply_all (reject_each e tests)) h.result (checks-Passes e tests c))
