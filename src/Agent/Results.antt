-- ===== src/Agent/Results.antt =====
-- What the result of a provider tells of what it was made of.
use xmidt_agent.Base.{
  ◌≡◌, ◌↔◌, ◌⊎◌, ◌≢◌, sym, ◌∙◌, inl, inr, refl, ap, Bool, true, false, if◌then◌else◌,
}
use xmidt_agent.Wrp.{Error}
use xmidt_agent.Fs.{ok}
use xmidt_agent.Setup.{Applied, applied, rejected, panicked, applied-inj}
use xmidt_agent.Setup.Passes.{Passes, refused, passed}
use xmidt_agent.Agent.{◌>>=◌, join_first}

pub Applied-cases :
    {A : Type 0} (r : Applied A)
    → ((a : A) × (r ≡ applied a)) ⊎ ((e : Error) × (r ≡ rejected e)) ⊎ (r ≡ panicked)
Applied-cases (applied a) = inl (a, refl)
Applied-cases (rejected e) = inr (inl (e, refl))
Applied-cases panicked = inr (inr refl)

pub ok-inj : {A : Type 0} (a b : A) → ok a ≡ ok b → a ≡ b
ok-inj a b p = cc

-- A test that turns the object back, or lets it pass.
pub guarded :
    {A : Type 0} (b : Bool) (e : Error) (x y : A)
    → (if b then rejected e else applied x) ≡ applied y
    → (b ≡ false) × (x ≡ y)
guarded true e x y p = absurd (cc)
guarded false e x y p = (refl, cc)

-- What follows the building of an object, and keeps it, tells what was built.
pub bind_iff :
    {A B : Type 0} (f : A → B)
    → ((a b : A) → f a ≡ f b → a ≡ b)
    → (m : Applied A) (a : A) → ((m >>= λ x. applied (f x)) ≡ applied (f a)) ↔ (m ≡ applied a)
bind_iff f inj (applied x) a =
    (λ p. ap applied (inj x a (applied-inj _ _ p)), λ p. ap applied (ap f (applied-inj x a p)))
bind_iff f inj (rejected e) a = (λ p. absurd (cc p), λ p. absurd (cc p))
bind_iff f inj panicked a = (λ p. absurd (cc p), λ p. absurd (cc p))

-- A provider that builds an object with New, joins an error, and hands the object on: it does not
-- panic, and builds exactly the object that passes the tests.
abbrev pub Hands : {A B : Type 0} → (A → B) → Bool → A → Applied B → Type 0
Hands {A} f t a r = (r ≢ panicked) × ((b : A) → (r ≡ applied (f b)) ↔ (t ≡ false) × (b ≡ a))

pub Hands-provider :
    {A B : Type 0} (f : A → B)
    → ((a b : A) → f a ≡ f b → a ≡ b)
    → (e : Error) {t : Bool} {a : A} {r : Applied A} → Passes t a r
    → Hands f t a (join_first e r >>= λ x. applied (f x))
Hands-provider f inj e (refused p d q) =
    rw q (λ h. cc h, λ b. (λ h. absurd (cc h), λ (n, _). absurd (cc (sym p ∙ n))))
Hands-provider f inj e {a} (passed p q) = rw q (
  λ h. cc h,
  λ b. (λ h. (p, sym (inj a b (applied-inj (f a) (f b) h))), λ (_, n). ap applied (ap f (sym n))),
)

-- A chain of calls that builds something: what its first has built, and the rest of the chain.
pub bind_inversion :
    {A B : Type 0} (m : Applied A) (f : A → Applied B) (b : B)
    → (m >>= f) ≡ applied b
    → (a : A) × (m ≡ applied a) × (f a ≡ applied b)
bind_inversion (applied a) f b p = (a, refl, p)
bind_inversion (rejected e) f b p = absurd (cc p)
bind_inversion panicked f b p = absurd (cc p)

pub join_first-applied :
    {A : Type 0} (e : Error) (r : Applied A) (a : A) → join_first e r ≡ applied a → r ≡ applied a
join_first-applied e (applied b) a p = p
join_first-applied e (rejected f) a p = absurd (cc p)
join_first-applied e panicked a p = absurd (cc p)
