-- ===== src/Base/Run.antt =====
-- Calls that may panic or, in the model, run out of fuel: `none` is either.
use mathlib.Core.Path.{◌≡◌, refl}
use mathlib.Core.Bool.{Bool, true, false}
use mathlib.Core.Option.{Option, none, some}
use xmidt_agent.Base.Tests.{if◌then◌else◌}

infixl 5 ◌>>=◌
abbrev pub ◌>>=◌ {ℓ κ} : {A : Type ℓ} {B : Type κ} → Option A → (A → Option B) → Option B
none >>= f = none
some a >>= f = f a

-- The call comes back, with a value that satisfies `P`.
pub data Yields {ℓ κ} {A : Type ℓ} (P : A → Type κ) : Option A → Type (ℓ ⊔ κ) where
  yields : {a : A} → P a → Yields P (some a)

module _ {ℓ κ} {A : Type ℓ} {P : A → Type κ} where
  pub Yields-then {ℓ' κ'} :
      {B : Type ℓ'} {Q : B → Type κ'} {r : Option A} {f : A → Option B}
      → Yields P r
      → ((a : A) → P a → Yields Q (f a))
      → Yields Q (r >>= f)
  Yields-then (yields p) k = k _ p

  pub Yields-weaken {κ'} :
      {Q : A → Type κ'} {r : Option A} → Yields P r → ((a : A) → P a → Q a) → Yields Q r
  Yields-weaken (yields p) k = yields (k _ p)

  pub Yields-branch :
      {x y : Option A} (b : Bool)
      → (b ≡ true → Yields P x)
      → (b ≡ false → Yields P y)
      → Yields P (if b then x else y)
  Yields-branch true p q = p refl
  Yields-branch false p q = q refl

  pub Yields-value : {r : Option A} → Yields P r → (a : A) × (r ≡ some a) × P a
  Yields-value (yields p) = (_, refl, p)
