-- ===== src/Libparodus/Reach.antt =====
-- What holds of the registered services in every state that the adapter comes to.
use xmidt_agent.Base.{
  some-inj, ℕ, zero, suc, ◌≡◌, subst, refl, sym, ◌∙◌, inl, inr, Bool, true, false, Option, some,
  none, List, [], ◌∷◌, Text, eq_text, eq_text_iff, arith, ◌==◌, ==_iff, Bool-cases,
}
use xmidt_agent.Base.Dict.{Dict, lookup-insert, lookup-delete}
use xmidt_agent.Base.Dict
use xmidt_agent.Libparodus.{
  Adapter, Opening, no_socket, undialed, unsubscribed, opened, change, cancel, cancel_if,
  new_external, register, beat, cancel_each, cancel_late, Late, stop, keys,
}
use xmidt_agent.Libparodus.Live.{
  IsLive, AllLive, IsLive-same, terminate-AllLive, change-other, cancel_if-AllLive, beat-AllLive,
  cancel-other,
}

abbrev pub empty : Adapter
empty = record {
  sub_services = [];
  externals =
      λ i. record { name = []; is_open = false; is_subscribed = false; keeps_alive = false };
  made = 0;
}

-- The steps of the adapter and of the goroutines of its externals.
pub data Step (a : Adapter) : Adapter → Type 0 where
  registers : (name : Text) (opening : Opening) → Step a (register name opening a).1
  beats : (i : ℕ) (taken : Bool) → Step a (beat i taken a)
  stops : (late : Option Late) → Step a (stop late a)

pub data Reach : Adapter → Type 0 where
  starts : Reach empty
  later : {a b : Adapter} → Reach a → Step a b → Reach b

-- The adapter after newExternal, which has the new external but has not registered it.
abbrev pub with_new : Text → Adapter → Adapter
with_new name a = record a {
  externals =
      change a.made
        (record { name = name; is_open = true; is_subscribed = true; keeps_alive = true })
        a.externals;
  made = suc a.made;
}

with_new-AllLive : (name : Text) (a : Adapter) → AllLive a → AllLive (with_new name a)
with_new-AllLive name a all other j h =
    let live = all other j h in
    IsLive-same other j a (with_new name a)
      (change-other a.made j _ a.externals (grind (arith, live.made))) (omega arith) live

with_new-IsLive : (name : Text) (a : Adapter) → IsLive name a.made (with_new name a)
with_new-IsLive name a =
    let same : (a.made == a.made) ≡ true = (==_iff a.made a.made).1 refl in
    record {
      made = omega arith;
      named = rw same refl;
      is_open = rw same refl;
      is_subscribed = rw same refl;
      keeps_alive = rw same refl;
    }

-- The external that is replaced is another than the new one.
pub replaced-IsLive :
    (name : Text) (prev : Option ℕ) (a : Adapter)
    → AllLive a
    → Dict.lookup name a.sub_services ≡ prev
    → IsLive name a.made (cancel_if prev (with_new name a))
replaced-IsLive name none a all h = with_new-IsLive name a
replaced-IsLive name (some i) a all h =
    let live = all name i h in
    let (same, made) = cancel-other i a.made (with_new name a) (grind (arith, live.made)) in
    IsLive-same name a.made (with_new name a) (cancel i (with_new name a)) same
      (omega (arith, made)) (with_new-IsLive name a)

insert-AllLive :
    (name : Text) (i : ℕ) (a : Adapter)
    → AllLive a
    → IsLive name i a
    → AllLive (record a { sub_services = Dict.insert name i a.sub_services })
insert-AllLive name i a all live other j h =
    let b : Adapter = record a { sub_services = Dict.insert name i a.sub_services } in
    let found = sym (lookup-insert name other i a.sub_services) ∙ h in
    elim (Bool-cases (eq_text name other)) [
      | inl same ↦
          let moved : IsLive other i a =
            subst (λ n. IsLive n i a) ((eq_text_iff name other).0 same) live in
          IsLive-same other j a b refl (omega arith)
            (subst (λ k. IsLive other k a) (some-inj i j (rw same at found)) moved)
      | inr apart ↦ IsLive-same other j a b refl (omega arith) (all other j (rw apart at found))
    ]

pub register-AllLive :
    (name : Text) (opening : Opening) (a : Adapter)
    → AllLive a
    → AllLive (register name opening a).1
unfolding register new_external
register-AllLive name (no_socket e) a all = all
register-AllLive name (undialed e) a all = terminate-AllLive name a all
register-AllLive name (unsubscribed e) a all = terminate-AllLive name a all
register-AllLive name opened a all =
    let prev = Dict.lookup name a.sub_services in
    insert-AllLive name a.made (cancel_if prev (with_new name a))
      (cancel_if-AllLive prev (with_new name a) (with_new-AllLive name a all))
      (replaced-IsLive name prev a all refl)

cancel_each-AllLive : (names : List Text) (a : Adapter) → AllLive a → AllLive (cancel_each names a)
unfolding cancel_each
cancel_each-AllLive [] a all = all
cancel_each-AllLive (name ∷ names) a all =
    let prev = Dict.lookup name a.sub_services in
    cancel_each-AllLive names (cancel_if prev a) (cancel_if-AllLive prev a all)

cancel_late-AllLive :
    (late : Late) (n : ℕ) (names : List Text) (a : Adapter)
    → AllLive a
    → AllLive (cancel_late late n names a)
unfolding cancel_late
cancel_late-AllLive late zero names a all =
    cancel_each-AllLive _ (register late.name late.opening a).1
      (register-AllLive late.name late.opening a all)
cancel_late-AllLive late (suc n) [] a all = cancel_late-AllLive late n [] a all
cancel_late-AllLive late (suc n) (name ∷ names) a all =
    let prev = Dict.lookup name a.sub_services in
    cancel_late-AllLive late n names (cancel_if prev a) (cancel_if-AllLive prev a all)

Step-AllLive : (a b : Adapter) → Step a b → AllLive a → AllLive b
unfolding stop
Step-AllLive a b (Step.registers name opening) all = register-AllLive name opening a all
Step-AllLive a b (Step.beats i taken) all = beat-AllLive i taken a all
Step-AllLive a b (Step.stops none) all = cancel_each-AllLive (keys a.sub_services) a all
Step-AllLive a b (Step.stops (some late)) all =
    cancel_late-AllLive late late.rounds (keys a.sub_services) a all

-- In every state that registrations, keepalive messages and Stop lead to, in whatever order and with
-- whatever answers of the sockets, a service that is registered has an external of this name that is
-- open, subscribed to the pubsub and kept alive.
pub Reach-AllLive :
    (a : Adapter) (r : Reach a) (name : Text) (i : ℕ)
    → Dict.lookup name a.sub_services ≡ some i
    → IsLive name i a
Reach-AllLive a Reach.starts name i h = ground (arith, h)
Reach-AllLive b (Reach.later r s) name i h = Step-AllLive _ b s (Reach-AllLive _ r) name i h
