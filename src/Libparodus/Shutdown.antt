-- ===== src/Libparodus/Shutdown.antt =====
-- What New guarantees, and what Stop leaves.
pub mod Late
pub mod Ends
use xmidt_agent.Base.{
  ℕ, ◌≡◌, ◌↔◌, refl, sym, subst, ◌∙◌, ◌⊎◌, inl, inr, false, Option, some, none, List, [], ◌∷◌, Text,
  eq_text, eq_text_iff, arith, Bool-cases, In,
}
use xmidt_agent.Base.Dict.{Dict, lookup-delete}
use xmidt_agent.Base.Dict
use xmidt_agent.Wrp.{sentinel, invalid_input}
use xmidt_agent.Setup.{applied, Setting, apply_all, checked}
use xmidt_agent.Libparodus.{
  Adapter, Config, terminate, cancel, cancel_if, cancel_each, stop, keys, lacks_pubsub,
  lacks_service_url, start, new,
}
use xmidt_agent.Libparodus.Live.{AllLive, cancel_if-AllLive}
use xmidt_agent.Libparodus.Reach.{Reach, Reach-AllLive}

cancel-lookup-none :
    (i : ℕ) (name : Text) (a : Adapter)
    → Dict.lookup name a.sub_services ≡ none
    → Dict.lookup name (cancel i a).sub_services ≡ none
unfolding cancel terminate
cancel-lookup-none i name a h =
    lookup-delete (a.externals i).name name a.sub_services ∙ ground (arith, h)

pub cancel_if-lookup-none :
    (i : Option ℕ) (name : Text) (a : Adapter)
    → Dict.lookup name a.sub_services ≡ none
    → Dict.lookup name (cancel_if i a).sub_services ≡ none
cancel_if-lookup-none none name a h = h
cancel_if-lookup-none (some i) name a h = cancel-lookup-none i name a h

-- A round of the loop removes its name.
pub cancel_if-lookup :
    (found : Option ℕ) (name : Text) (a : Adapter)
    → AllLive a
    → Dict.lookup name a.sub_services ≡ found
    → Dict.lookup name (cancel_if found a).sub_services ≡ none
unfolding cancel terminate
cancel_if-lookup none name a all h = h
cancel_if-lookup (some i) name a all h =
    let live = all name i h in
    lookup-delete (a.externals i).name name a.sub_services
    ∙ rw ((eq_text_iff (a.externals i).name name).1 live.named) refl

pub cancel_each-kept :
    (names : List Text) (name : Text) (a : Adapter)
    → Dict.lookup name a.sub_services ≡ none
    → Dict.lookup name (cancel_each names a).sub_services ≡ none
unfolding cancel_each
cancel_each-kept [] name a h = h
cancel_each-kept (n ∷ names) name a h =
    let found = Dict.lookup n a.sub_services in
    cancel_each-kept names name (cancel_if found a) (cancel_if-lookup-none found name a h)

pub cancel_each-lookup :
    (names : List Text) (name : Text) (a : Adapter)
    → AllLive a
    → In name names
    → Dict.lookup name (cancel_each names a).sub_services ≡ none
unfolding cancel_each
cancel_each-lookup [] name a all h = absurd h
cancel_each-lookup (n ∷ names) name a all (inl same) =
    let found = Dict.lookup n a.sub_services in
    cancel_each-kept names name (cancel_if found a) (
      subst (λ m. Dict.lookup m (cancel_if found a).sub_services ≡ none) (sym same)
        (cancel_if-lookup found n a all refl))
cancel_each-lookup (n ∷ names) name a all (inr h) =
    let found = Dict.lookup n a.sub_services in
    cancel_each-lookup names name (cancel_if found a) (cancel_if-AllLive found a all) h

pub lookup-keys : (name : Text) (m : Dict ℕ) → (Dict.lookup name m ≡ none) ⊎ In name (keys m)
lookup-keys name [] = inl refl
lookup-keys name ((k, v) ∷ m) = elim (Bool-cases (eq_text k name)) [
  | inl same ↦ inr (inl (sym ((eq_text_iff k name).0 same)))
  | inr apart ↦ rw apart (elim (lookup-keys name m) [ inl h ↦ inl h | inr h ↦ inr (inr h) ])
]

-- Whatever the options, New builds an adapter exactly if every option is applied without an error and
-- there is a pubsub and a service URL.
pub new_iff :
    {S : Type 0} (url : Text) (pubsub : Option S) (opts : List (Option (Setting (Config S))))
    (c : Config S)
    → (new url pubsub opts ≡ applied c)
      ↔ (apply_all opts (start url pubsub) ≡ applied c)
        × (lacks_pubsub c ≡ false)
        × (lacks_service_url c ≡ false)
unfolding new
new_iff url pubsub opts c =
    let (there, back) =
      checked (sentinel invalid_input) (lacks_pubsub ∷ lacks_service_url ∷ []) opts
        (start url pubsub) c in
    (
      λ h. ((there h).0, ground (arith, (there h).1), ground (arith, (there h).1)),
      λ (p, q, r). back (p, ground (arith, q, r)),
    )
