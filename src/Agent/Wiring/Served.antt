-- ===== src/Agent/Wiring/Served.antt =====
-- Whom the pubsub of an agent gives a message to.
use xmidt_agent.Base.{
  ◌≡◌, ◌↔◌, ◌⊎◌, inl, inr, refl, sym, ◌∙◌, ℕ, true, Option, List, [], ◌∷◌, Text, codes, In, eq_text,
  eq_text_iff, arith, Bool-cases,
}
use xmidt_agent.Base.Dict.{Dict}
use xmidt_agent.Base.Dict
use xmidt_agent.Wrp.{Message, Error}
use xmidt_agent.Setup.{Applied, applied}
use xmidt_agent.Pubsub.{
  ok, Locator, egress_route, service_route, routes_of, targets, eventor_at, normalize, publish,
}
use xmidt_agent.Pubsub.Routes.{targets-insert, In-routes_of, service_route_egress}
use xmidt_agent.Wrphandlers.Mocktr181.Build.{File}
use xmidt_agent.Agent.Wiring.{AgentIn, Parts, provide_parts}
use xmidt_agent.Agent.Wiring.Subscribed.{parts_routes}

-- The messages that go to the egress: those for other devices.
In-egress :
    (self : Text) (dest : Locator) → In egress_route (routes_of self dest) ↔ ¬ (dest.device ≡ self)
unfolding routes_of
In-egress self dest = elim (Bool-cases (eq_text dest.device self)) [
  | inl here ↦
      let there = (eq_text_iff dest.device self).0 here in
      rw here
        (grind (arith, there, service_route_egress dest.service, service_route_egress (codes "*")))
  | inr away ↦
      let apart : ¬ (dest.device ≡ self) =
        λ p. ground (arith, (eq_text_iff dest.device self).1 p, away) in
      rw away (elim (Bool-cases (eq_text dest.scheme (codes "event"))) [
        | inl event ↦ rw event (λ _. apart, λ _. ground arith)
        | inr other ↦ rw other (λ _. apart, λ _. inl refl)
      ])
]

module _ {Handler Eventor Key N Value : Type 0} (debug_level : ℕ) (fresh : Eventor)
    (add : Handler → Eventor → Key × Eventor) (remove : Key → Eventor → Eventor)
    (visit : Eventor → List Handler) (open_file : Text → File Value) (egress mock : Handler) where
  abbrev pub parts : AgentIn → Applied (Parts Eventor N Value)
  parts = provide_parts debug_level fresh add remove visit open_file egress mock

  module _ (visit-fresh : (h : Handler) → ¬ In h (visit fresh))
      (visit-add : (g h : Handler) (e : Eventor)
        → In g (visit (add h e).1) ↔ (g ≡ h) ⊎ In g (visit e))
      (required : Text → Message → Option Error × Message)
      (desired : List N → Message → Option Error × Message) (parse_locator : Text → Locator) where
    targets-none : (g : Handler) (rs : List Text) → ¬ In g (targets visit [] rs)
    unfolding targets
    targets-none g [] h = h
    targets-none g (r ∷ rs) h = targets-none g rs h

    abbrev alone : Dict Eventor
    alone = Dict.insert egress_route (add egress (eventor_at fresh egress_route [])).1 []

    abbrev given : (service : Text) → Dict Eventor
    given service =
        Dict.insert (service_route service)
          (add mock (eventor_at fresh (service_route service) alone)).1 alone

    alone_iff :
        (g : Handler) (self : Text) (dest : Locator)
        → In g (targets visit alone (routes_of self dest)) ↔ (g ≡ egress) × ¬ (dest.device ≡ self)
    alone_iff g self dest =
        let rs = routes_of self dest in
        let step =
          targets-insert fresh add visit visit-fresh visit-add g egress egress_route [] rs in
        let other = In-egress self dest in
        (
          λ m. elim (step.0 m) [
            | inl none_there ↦ absurd (targets-none g rs none_there)
            | inr (e, on) ↦ (e, other.0 on)
          ],
          λ (e, away). step.1 (inr (e, other.1 away)),
        )

    given_iff :
        (g : Handler) (self service : Text) (dest : Locator)
        → In g (targets visit (given service) (routes_of self dest))
          ↔ (g ≡ egress) × ¬ (dest.device ≡ self)
            ⊎ (g ≡ mock) × (dest.device ≡ self) × ((service ≡ dest.service) ⊎ (service ≡ codes "*"))
    given_iff g self service dest =
        let rs = routes_of self dest in
        let step =
          targets-insert fresh add visit visit-fresh visit-add g mock (service_route service) alone
            rs in
        let here = In-routes_of self service dest in
        (
          λ m. elim (step.0 m) [
            | inl before ↦ inl ((alone_iff g self dest).0 before)
            | inr (e, on) ↦ let (a, b) = here.0 on in inr (e, a, b)
          ],
          λ s. step.1 (elim s [
            | inl away ↦ inl ((alone_iff g self dest).1 away)
            | inr (e, a, b) ↦ inr (e, here.1 (a, b))
          ]),
        )

    -- Whom a message for `dest` is for, in an agent of this configuration.
    abbrev pub Recipient : AgentIn → Locator → Handler → Type 0
    Recipient i dest g =
        (g ≡ egress) × ¬ (dest.device ≡ i.identity.device_id)
        ⊎ (g ≡ mock)
          × (i.mock_tr181.enabled ≡ true)
          × (dest.device ≡ i.identity.device_id)
          × ((i.mock_tr181.service_name ≡ dest.service) ⊎ (i.mock_tr181.service_name ≡ codes "*"))

    targets-Recipient :
        (i : AgentIn) (p : Parts Eventor N Value) (dest : Locator) (g : Handler)
        → parts i ≡ applied p
        → In g (targets visit p.pubsub.routes (routes_of p.pubsub.self dest)) ↔ Recipient i dest g
    targets-Recipient i p dest g h =
        let (self, cases) =
          parts_routes debug_level fresh add remove visit open_file egress mock i p h in
        elim cases [
          | inl (off, routes) ↦
              let (there, back) = alone_iff g i.identity.device_id dest in
              rw (routes, self)
                (
                  λ m. inl (there m),
                  λ r. elim r [
                    | inl away ↦ back away
                    | inr (_, on, _, _) ↦ absurd (cc (sym off ∙ on))
                  ],
                )
          | inr (on, routes) ↦
              let (there, back) = given_iff g i.identity.device_id i.mock_tr181.service_name dest in
              rw (routes, self)
                (
                  λ m. elim (there m) [ inl away ↦ inl away | inr (e, a, b) ↦ inr (e, on, a, b) ],
                  λ r. back (elim r [ inl away ↦ inl away | inr (e, _, a, b) ↦ inr (e, a, b) ]),
                )
        ]

    -- The pubsub of an agent that is built gives a message that passes the normifiers, as `sent` with
    -- the destination `dest`, to the egress exactly if it is for another device, to the mock of TR-181
    -- exactly if it is for this device, the mock is enabled and its service is that of the message or
    -- `*`, and to no other handler: for this device, no other service is there. This needs of the
    -- eventor that a new one shows no handler, and one to which a handler is added shows this one and
    -- those it showed before.
    pub agent_serves :
        (i : AgentIn) (p : Parts Eventor N Value) (msg sent : Message) (dest : Locator)
        → parts i ≡ applied p
        → normalize fresh add remove visit required desired parse_locator p.pubsub msg
          ≡ ok (sent, dest)
        → (handlers : List Handler) × (publish fresh add remove visit required desired parse_locator
              p.pubsub msg
            ≡ ok (sent, handlers))
          × ((g : Handler) → In g handlers ↔ Recipient i dest g)
    unfolding publish
    agent_serves i p msg sent dest h n = (
      targets visit p.pubsub.routes (routes_of p.pubsub.self dest),
      rw (n, publish) refl,
      λ g. targets-Recipient i p dest g h,
    )
