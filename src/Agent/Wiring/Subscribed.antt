-- ===== src/Agent/Wiring/Subscribed.antt =====
-- Which handlers have subscribed to the pubsub of an agent that is built.
use xmidt_agent.Base.{
  ◌≡◌, ◌⊎◌, inl, inr, sym, ap, ◌∙◌, ℕ, Bool, true, false, Option, List, [], ◌∷◌, Text, arith,
  Bool-cases, if◌then◌else◌,
}
use xmidt_agent.Base.Dict.{Dict}
use xmidt_agent.Base.Dict
use xmidt_agent.Setup.{Applied, applied, applied-inj}
use xmidt_agent.Pubsub.{
  PubSub, egress_route, service_route, eventor_at, new, apply_all, apply, subscribe_egress,
  subscribe, subscribe_service,
}
use xmidt_agent.Wrphandlers.Logging
use xmidt_agent.Wrphandlers.Mocktr181.Build.{Mock, File}
use xmidt_agent.Wrphandlers.Mocktr181.Build as Build
use xmidt_agent.Agent.{join_first}
use xmidt_agent.Agent.Results.{bind_inversion}
use xmidt_agent.Agent.Config.{Identity, Pubsub, MockTr181}
use xmidt_agent.Agent.Handlers.{
  handler_config, of_mock, provide_qos_handler, provide_pubsub_handler, provide_lib_parodus,
  provide_missing_handler, provide_auth_handler, provide_mock_tr181_handler, subscribe_handler,
}
use xmidt_agent.Agent.Wiring.{AgentIn, Parts, provide_parts}

then_branch :
    {A : Type 0} (b : Bool) (x y : A) {z : A} → b ≡ true → (if b then x else y) ≡ z → x ≡ z
then_branch true x y p h = h
then_branch false x y p h = absurd (cc p)

else_branch :
    {A : Type 0} (b : Bool) (x y : A) {z : A} → b ≡ false → (if b then x else y) ≡ z → y ≡ z
else_branch false x y p h = h
else_branch true x y p h = absurd (cc p)

module _ {Handler Eventor Key N Value : Type 0} (debug_level : ℕ) (fresh : Eventor)
    (add : Handler → Eventor → Key × Eventor) (remove : Key → Eventor → Eventor)
    (visit : Eventor → List Handler) (open_file : Text → File Value) (egress mock : Handler) where
  -- The pubsub that is built has the egress alone.
  pubsub_built :
      (id : Identity) (c : Pubsub) (ps : PubSub Eventor N)
      → provide_pubsub_handler debug_level fresh add remove visit egress id c ≡ applied ps
      → (ps.self ≡ id.device_id) × (ps.routes ≡ (egress_route, (add egress fresh).1) ∷ [])
  unfolding provide_pubsub_handler Logging.new new apply_all apply subscribe_egress subscribe
      eventor_at
  pubsub_built id c ps h = ground (arith, h)

  abbrev with_service : Text → PubSub Eventor N → PubSub Eventor N
  with_service service ps = record ps {
    routes =
        Dict.insert (service_route service)
          (add mock (eventor_at fresh (service_route service) ps.routes)).1 ps.routes;
  }

  subscribe_handler-routes :
      (service : Text) (ps ps' : PubSub Eventor N)
      → subscribe_handler debug_level fresh add remove visit service mock ps ≡ applied ps'
      → ps' ≡ with_service service ps
  unfolding subscribe_service subscribe
  subscribe_handler-routes service ps ps' h = ground (arith, h)

  mock_subscribed :
      (id : Identity) (c : MockTr181) (ps ps' : PubSub Eventor N) (m : Option (Mock Value))
      → c.enabled ≡ true
      → provide_mock_tr181_handler debug_level fresh add remove visit open_file mock id c ps
        ≡ applied (m, ps')
      → ps' ≡ with_service c.service_name ps
  unfolding provide_mock_tr181_handler Logging.new
  mock_subscribed id c ps ps' m p h =
      let built : Applied (Mock Value) = join_first handler_config (
        of_mock (
          Build.new open_file false id.device_id
            (Build.file_path c.file_path ∷ Build.enabled c.enabled ∷ []))) in
      let (made, _, k) = bind_inversion built _ _ (then_branch c.enabled _ _ p h) in
      let (ps'', q, r) =
        bind_inversion (subscribe_handler debug_level fresh add remove visit c.service_name mock ps)
          _ _ k in
      ap (λ (x : Option (Mock Value) × PubSub Eventor N). x.1) (sym (applied-inj _ _ r))
      ∙ subscribe_handler-routes c.service_name ps ps'' q

  mock_left :
      (id : Identity) (c : MockTr181) (ps ps' : PubSub Eventor N) (m : Option (Mock Value))
      → c.enabled ≡ false
      → provide_mock_tr181_handler debug_level fresh add remove visit open_file mock id c ps
        ≡ applied (m, ps')
      → ps' ≡ ps
  unfolding provide_mock_tr181_handler
  mock_left id c ps ps' m p h =
      ap (λ (x : Option (Mock Value) × PubSub Eventor N). x.1)
        (sym (applied-inj _ _ (else_branch c.enabled _ _ p h)))

  abbrev pub parts : AgentIn → Applied (Parts Eventor N Value)
  parts = provide_parts debug_level fresh add remove visit open_file egress mock

  -- The pubsub of the agent, with the egress and the mock if it is enabled.
  pub parts_routes :
      (i : AgentIn) (p : Parts Eventor N Value)
      → parts i ≡ applied p
      → let alone = Dict.insert egress_route (add egress (eventor_at fresh egress_route [])).1 [] in
        let service = service_route i.mock_tr181.service_name in
        let both = Dict.insert service (add mock (eventor_at fresh service alone)).1 alone in
        (p.pubsub.self ≡ i.identity.device_id)
        × ((i.mock_tr181.enabled ≡ false) × (p.pubsub.routes ≡ alone)
            ⊎ (i.mock_tr181.enabled ≡ true) × (p.pubsub.routes ≡ both))
  unfolding provide_parts eventor_at
  parts_routes i p h =
      let (q, _, h₁) = bind_inversion (provide_qos_handler debug_level i.qos) _ p h in
      let (ps, at, h₂) =
        bind_inversion
          (provide_pubsub_handler debug_level fresh add remove visit egress i.identity i.pubsub) _ p
          h₁ in
      let (l, _, h₃) = bind_inversion (provide_lib_parodus debug_level i.lib_parodus tt) _ p h₂ in
      let (m, _, h₄) = bind_inversion (provide_missing_handler debug_level i.identity) _ p h₃ in
      let (a, _, h₅) = bind_inversion (provide_auth_handler debug_level i.identity) _ p h₄ in
      let ((mocked, ps'), after, h₆) =
        bind_inversion
          (provide_mock_tr181_handler debug_level fresh add remove visit open_file mock i.identity
            i.mock_tr181 ps)
          _ p h₅ in
      let (self, routes) = pubsub_built i.identity i.pubsub ps at in
      let last : p.pubsub ≡ ps' =
        ap (λ (p : Parts Eventor N Value). p.pubsub) (sym (applied-inj _ _ h₆)) in
      elim (Bool-cases i.mock_tr181.enabled) [
        | inl on ↦
            let now : p.pubsub ≡ with_service i.mock_tr181.service_name ps =
              last ∙ mock_subscribed i.identity i.mock_tr181 ps ps' mocked on after in
            (
              ap (λ (s : PubSub Eventor N). s.self) now ∙ self,
              inr (
                on,
                ap (λ (s : PubSub Eventor N). s.routes) now
                    ∙ ap
                        (λ (r : Dict Eventor).
                          (with_service i.mock_tr181.service_name
                            (record ps { routes = r })).routes)
                        routes,
              ),
            )
        | inr off ↦
            let now : p.pubsub ≡ ps =
              last ∙ mock_left i.identity i.mock_tr181 ps ps' mocked off after in
            (
              ap (λ (s : PubSub Eventor N). s.self) now ∙ self,
              inl (off, ap (λ (s : PubSub Eventor N). s.routes) now ∙ routes),
            )
      ]
