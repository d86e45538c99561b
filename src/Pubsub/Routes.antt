-- ===== src/Pubsub/Routes.antt =====
-- Whom a message is given to, after a subscription and after its cancel.
use xmidt_agent.Base.{
  ◌≡◌, ◌↔◌, ◌⊎◌, inl, inr, refl, ap, ◌∙◌, Bool, true, false, Option, some, none, List, [], ◌∷◌,
  ◌++◌, Text, codes, ℕ, drop, In, eq_text, eq_text_iff, arith, Bool-cases, subst, if◌then◌else◌,
}
use xmidt_agent.Base.Dict.{Dict, lookup-insert}
use xmidt_agent.Base.Dict
use xmidt_agent.Pubsub.{
  PubSub, Result, ok, Locator, service_route, event_route, egress_route, validate_string, routes_of,
  eventor_at, targets, subscribe, subscribe_service, normalize, publish,
}
use xmidt_agent.Wrp.{Message, Error}

In-append : {A : Type 0} (x : A) (xs ys : List A) → In x (xs ++ ys) ↔ In x xs ⊎ In x ys
In-append x [] ys = (inr, λ s. elim s [ inl e ↦ absurd e | inr e ↦ e ])
In-append x (y ∷ xs) ys = grind (arith, In-append x xs ys)

abbrev head_or : Text → ℕ
head_or [] = 0
head_or (b ∷ _) = b

service_route_injective : (s t : Text) → service_route s ≡ service_route t → s ≡ t
unfolding service_route
service_route_injective s t e = ap (drop 8) e

service_route_event : (s t : Text) → ¬ (service_route s ≡ event_route t)
unfolding service_route event_route
service_route_event s t e = absurd (omega (arith, ap head_or e))

pub service_route_egress : (s : Text) → ¬ (service_route s ≡ egress_route)
unfolding service_route egress_route
service_route_egress s e = absurd (omega (arith, ap head_or e))

-- The messages that a service's route is among the routes of.
pub In-routes_of :
    (self s : Text) (dest : Locator)
    → In (service_route s) (routes_of self dest)
      ↔ (dest.device ≡ self) × ((s ≡ dest.service) ⊎ (s ≡ codes "*"))
unfolding routes_of
In-routes_of self s dest =
    let device = eq_text_iff dest.device self in
    elim (Bool-cases (eq_text dest.device self)) [
      | inl here ↦ rw here (
          grind (
            arith,
            device.0 here,
            service_route_injective s dest.service,
            service_route_injective s (codes "*"),
          ))
      | inr away ↦
          let apart : ¬ (dest.device ≡ self) = λ p. ground (arith, device.1 p) in
          rw away (elim (Bool-cases (eq_text dest.scheme (codes "event"))) [
            | inl event ↦ rw event (
                grind (
                  arith,
                  apart,
                  service_route_event s dest.authority,
                  service_route_event s (codes "*"),
                  service_route_egress s,
                ))
            | inr other ↦ rw other (grind (arith, apart, service_route_egress s))
          ])
    ]

eventor_at-insert :
    {Eventor : Type 0} (fresh e : Eventor) (route r : Text) (routes : Dict Eventor)
    → eventor_at fresh r (Dict.insert route e routes)
      ≡ (if eq_text route r then e else eventor_at fresh r routes)
unfolding eventor_at
eventor_at-insert {Eventor} fresh e route r routes =
    ap (λ (found : Option Eventor). elim found [ none ↦ fresh | some e ↦ e ])
      (lookup-insert route r e routes)
    ∙ by_test (eq_text route r)
  where
    by_test :
        (b : Bool)
        → (elim (if b then some e else Dict.lookup r routes) [ none ↦ fresh | some e ↦ e ])
          ≡ (if b then e else elim (Dict.lookup r routes) [ none ↦ fresh | some e ↦ e ])
    by_test true = refl
    by_test false = refl

module _ {Handler Eventor Key : Type 0} (fresh : Eventor) (add : Handler → Eventor → Key × Eventor)
    (visit : Eventor → List Handler) (visit-fresh : (h : Handler) → ¬ In h (visit fresh))
    (visit-add : (g h : Handler) (e : Eventor)
      → In g (visit (add h e).1) ↔ (g ≡ h) ⊎ In g (visit e)) where
  -- A handler is given what comes on a route if it is among those that `visit` shows there.
  targets_iff :
      (g : Handler) (routes : Dict Eventor) (r : Text) (rs : List Text)
      → In g (targets visit routes (r ∷ rs))
        ↔ In g (visit (eventor_at fresh r routes)) ⊎ In g (targets visit routes rs)
  unfolding targets eventor_at
  targets_iff g routes r rs = by_lookup (Dict.lookup r routes)
    where
      by_lookup :
          (found : Option Eventor)
          → In g (elim found [
            | none ↦ targets visit routes rs
            | some e ↦ visit e ++ targets visit routes rs
          ])
            ↔ In g (visit (elim found [ none ↦ fresh | some e ↦ e ]))
              ⊎ In g (targets visit routes rs)
      by_lookup none = (inr, λ s. elim s [ inl e ↦ absurd (visit-fresh g e) | inr e ↦ e ])
      by_lookup (some e) = In-append g (visit e) (targets visit routes rs)

  visit-insert :
      (g h : Handler) (route r : Text) (routes : Dict Eventor)
      → let e = (add h (eventor_at fresh route routes)).1 in
        In g (visit (eventor_at fresh r (Dict.insert route e routes)))
        ↔ In g (visit (eventor_at fresh r routes)) ⊎ (g ≡ h) × (route ≡ r)
  visit-insert g h route r routes =
      let e = (add h (eventor_at fresh route routes)).1 in
      elim (Bool-cases (eq_text route r)) [
        | inl same ↦
            let path = (eq_text_iff route r).0 same in
            rw (eventor_at-insert fresh e route r routes, same)
              (subst
                (λ q.
                  In g (visit e) ↔ In g (visit (eventor_at fresh q routes)) ⊎ (g ≡ h) × (route ≡ q))
                path (grind (arith, visit-add g h (eventor_at fresh route routes))))
        | inr other ↦
            let apart : ¬ (route ≡ r) = λ p. ground (arith, (eq_text_iff route r).1 p) in
            rw (eventor_at-insert fresh e route r routes, other)
              (inl, λ s. elim s [ inl i ↦ i | inr (_, p) ↦ absurd (apart p) ])
      ]

  pub targets-insert :
      (g h : Handler) (route : Text) (routes : Dict Eventor) (rs : List Text)
      → let e = (add h (eventor_at fresh route routes)).1 in
        In g (targets visit (Dict.insert route e routes) rs)
        ↔ In g (targets visit routes rs) ⊎ (g ≡ h) × In route rs
  unfolding targets
  targets-insert g h route routes [] = (inl, λ s. elim s [ inl i ↦ i | inr (_, i) ↦ absurd i ])
  targets-insert g h route routes (r ∷ rs) =
      let e = (add h (eventor_at fresh route routes)).1 in
      grind (
        arith,
        visit-insert g h route r routes,
        targets-insert g h route routes rs,
        targets_iff g (Dict.insert route e routes) r rs,
        targets_iff g routes r rs,
      )

  module _ {N : Type 0} (remove : Key → Eventor → Eventor)
      (required : Text → Message → Option Error × Message)
      (desired : List N → Message → Option Error × Message) (parse_locator : Text → Locator) where
    abbrev published : PubSub Eventor N → Message → Result (Message × List Handler)
    published = publish fresh add remove visit required desired parse_locator

    -- A handler subscribes to a service whose name is allowed. A message that passes the normifiers,
    -- as `sent` with the destination `dest`, is then given to the handlers that it was given to before,
    -- and to this one exactly if `dest` is this device and the service, or any service if the name is
    -- `*`. This needs of the eventor that a new one shows no handler, and one to which a handler is
    -- added shows this one and those it showed before.
    pub service_subscribed :
        (s : Text) (h : Handler) (ps : PubSub Eventor N) (msg sent : Message) (dest : Locator)
        → validate_string s ≡ none
        → normalize fresh add remove visit required desired parse_locator ps msg ≡ ok (sent, dest)
        → let ps' = (subscribe_service fresh add remove visit s (some h) ps).1 in
          (before after : List Handler) × (published ps msg ≡ ok (sent, before))
          × (published ps' msg ≡ ok (sent, after))
          × ((g : Handler)
              → In g after
                ↔ In g before
                  ⊎ (g ≡ h) × (dest.device ≡ ps.self) × ((s ≡ dest.service) ⊎ (s ≡ codes "*")))
    unfolding subscribe_service subscribe publish normalize
    service_subscribed s h ps msg sent dest valid n =
        let rs = routes_of ps.self dest in
        let e = (add h (eventor_at fresh (service_route s) ps.routes)).1 in
        let routes' = Dict.insert (service_route s) e ps.routes in
        let ps' : PubSub Eventor N = record ps { routes = routes' } in
        let at : (subscribe_service fresh add remove visit s (some h) ps).1 ≡ ps' =
          rw (valid, subscribe_service) in
        let before = targets visit ps.routes rs in
        let after = targets visit routes' rs in
        let given : published ps msg ≡ ok (sent, before) = rw (n, publish) in
        let given' : published ps' msg ≡ ok (sent, after) = rw (n, publish) in
        (
          before,
          after,
          given,
          ap (λ q. published q msg) at ∙ given',
          λ g. grind (
            arith,
            targets-insert g h (service_route s) ps.routes rs,
            In-routes_of ps.self s dest,
          ),
        )
