-- ===== src/Libparodus/Replaced.antt =====
-- What registering a service again comes to, and to whom a message is sent.
use xmidt_agent.Base.{
  ℕ, ◌≡◌, ◌<◌, refl, ap, subst, ◌∙◌, Bool, true, false, ◌&&◌, some, none, Text, eq_text_refl, arith,
  ◌==◌, ==_iff, if◌then◌else◌,
}
use xmidt_agent.Base.Dict.{Dict, lookup-insert, lookup-delete}
use xmidt_agent.Base.Dict
use xmidt_agent.Libparodus.{
  External, Adapter, opened, change, terminate, cancel, cancel_if, new_external, register, beat,
}
use xmidt_agent.Libparodus.Live.{IsLive, cancel-other, change-name, change-other}
use xmidt_agent.Libparodus.Reach.{Reach, later, registers, Reach-AllLive, with_new}

pub cancel_self :
    (i : ℕ) (a : Adapter)
    → (cancel i a).externals i ≡ record (a.externals i) { is_open = false; is_subscribed = false }
unfolding cancel terminate
cancel_self i a = let same : (i == i) ≡ true = (==_iff i i).1 refl in rw same refl

cancel-lookup :
    (i : ℕ) (a : Adapter) → Dict.lookup (a.externals i).name (cancel i a).sub_services ≡ none
unfolding cancel terminate
cancel-lookup i a =
    lookup-delete (a.externals i).name (a.externals i).name a.sub_services
    ∙ rw (eq_text_refl (a.externals i).name) refl

-- The state in which a goroutine has ended, before it cancels the external.
abbrev pub without_alive : ℕ → Adapter → Adapter
without_alive i a = record a {
  externals = change i (record (a.externals i) { keeps_alive = false }) a.externals;
}

pub beat_ended :
    (i : ℕ) (taken : Bool) (a : Adapter)
    → (a.externals i).keeps_alive ≡ true
    → (a.externals i).is_open ≡ false
    → beat i taken a ≡ cancel i (without_alive i a)
unfolding beat
beat_ended i taken a runs closed =
    let b = without_alive i a in
    ap (λ k. if k then (if (a.externals i).is_open && taken then a else cancel i b) else a) runs
    ∙ ap (λ o. if o && taken then a else cancel i b) closed

-- A keepalive goroutine whose socket is closed ends, and removes the service of its name.
beat-closed :
    (name : Text) (i : ℕ) (taken : Bool) (a : Adapter)
    → (a.externals i).name ≡ name
    → (a.externals i).keeps_alive ≡ true
    → (a.externals i).is_open ≡ false
    → (Dict.lookup name (beat i taken a).sub_services ≡ none)
      × ((j : ℕ) → (j == i) ≡ false → (beat i taken a).externals j ≡ a.externals j)
beat-closed name i taken a named runs closed =
    let x : External = record (a.externals i) { keeps_alive = false } in
    let b : Adapter = record a { externals = change i x a.externals } in
    let all_named = change-name i i x a.externals refl ∙ named in
    let ended = beat_ended i taken a runs closed in
    (
      ap (λ (a : Adapter). Dict.lookup name a.sub_services) ended
          ∙ subst (λ n. Dict.lookup n (cancel i b).sub_services ≡ none) all_named
              (cancel-lookup i b),
      λ j other.
          ap (λ (a : Adapter). a.externals j) ended
          ∙ (cancel-other i j b other).0
          ∙ change-other i j x a.externals other,
    )

-- The state after a service is registered again.
abbrev again : Text → ℕ → Adapter → Adapter
again name i a =
    let c = cancel i (with_new name a) in
    record c { sub_services = Dict.insert name a.made c.sub_services }

register-again :
    (name : Text) (i : ℕ) (a : Adapter)
    → Dict.lookup name a.sub_services ≡ some i
    → (register name opened a).1 ≡ again name i a
unfolding register new_external
register-again name i a h =
    ap
      (λ p.
        let c = cancel_if p (with_new name a) in
        record c { sub_services = Dict.insert name a.made c.sub_services })
      h

below : (i n : ℕ) → i < n → (i == n) ≡ false
below i n h = ground arith

again-external :
    (name : Text) (i : ℕ) (a : Adapter)
    → IsLive name i a
    → (again name i a).externals i
      ≡ record (a.externals i) { is_open = false; is_subscribed = false }
again-external name i a live =
    cancel_self i (with_new name a)
    ∙ ap (λ (x : External). record x { is_open = false; is_subscribed = false })
        (change-other a.made i _ a.externals (below i a.made live.made))

above : (i n : ℕ) → i < n → (n == i) ≡ false
above i n h = ground arith

-- When a service that is registered registers again, the new registration is found under its name.
-- But the keepalive goroutine of the old one still runs, its next message fails on the closed socket,
-- and it ends by removing the name: the new external is open and subscribed to the pubsub, and its
-- service is no longer found.
pub replaced-removed :
    (a : Adapter) (name : Text) (i : ℕ) (taken : Bool)
    → Reach a
    → Dict.lookup name a.sub_services ≡ some i
    → let b = (register name opened a).1 in
      let c = beat i taken b in
      (Dict.lookup name b.sub_services ≡ some a.made)
      × (Dict.lookup name c.sub_services ≡ none)
      × ((c.externals a.made).is_open ≡ true)
      × ((c.externals a.made).is_subscribed ≡ true)
replaced-removed a name i taken r h =
    let live = Reach-AllLive a r name i h in
    let b = (register name opened a).1 in
    let found =
      lookup-insert name name a.made (cancel i (with_new name a)).sub_services
      ∙ rw (eq_text_refl name) refl in
    let there =
      ap (λ (b : Adapter). Dict.lookup name b.sub_services) (register-again name i a h) ∙ found in
    let old =
      ap (λ (b : Adapter). b.externals i) (register-again name i a h)
      ∙ again-external name i a live in
    let (gone, others) =
      beat-closed name i taken b (ap (λ (x : External). x.name) old ∙ live.named)
        (ap (λ (x : External). x.keeps_alive) old ∙ live.keeps_alive)
        (ap (λ (x : External). x.is_open) old) in
    let fresh = Reach-AllLive b (later r (registers name opened)) name a.made there in
    let same = others a.made (above i a.made live.made) in
    (
      there,
      gone,
      ap (λ (x : External). x.is_open) same ∙ fresh.is_open,
      ap (λ (x : External). x.is_subscribed) same ∙ fresh.is_subscribed,
    )
