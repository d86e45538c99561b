-- ===== src/Agent/Wiring/Disabled.antt =====
-- A disabled websocket is nil, and adding a listener to it panics.
use xmidt_agent.Base.{◌≡◌, refl, true, ℕ, Option, List, Text}
use xmidt_agent.Wrp.{Error}
use xmidt_agent.Fs.{Result}
use xmidt_agent.Setup.{Applied, applied, panicked}
use xmidt_agent.Wrphandlers.Mocktr181.Build.{File}
use xmidt_agent.Wrphandlers.Logging
use xmidt_agent.Agent.Results.{bind_inversion}
use xmidt_agent.Agent.Handlers.{provide_adapter}
use xmidt_agent.Agent.Websocket.{WsIn, WsOut, Ws, provide_ws}
use xmidt_agent.Agent.Wiring.{AgentIn, Parts, Agent, provide_parts, provide_agent}

-- The same configuration with the websocket disabled
abbrev pub disable : {G Q X D : Type 0} → WsIn G Q X D → WsIn G Q X D
disable w = record w { websocket = record w.websocket { disable = true } }

module _ {Handler Eventor Key N Value : Type 0} (debug_level : ℕ) (fresh : Eventor)
    (add : Handler → Eventor → Key × Eventor) (remove : Key → Eventor → Eventor)
    (visit : Eventor → List Handler) (open_file : Text → File Value) (egress mock : Handler) where
  abbrev parts : AgentIn → Applied (Parts Eventor N Value)
  parts = provide_parts debug_level fresh add remove visit open_file egress mock

  module _ {G Q X D K L : Type 0} (join_path : Text → Text → Result Text)
      (new_client : G → Option Error) (single : G → G) (canonical : Text → Text) (time_now : K)
      (empty_decorator : D) (default_config : G)
      (log_message log_connect log_disconnect log_heartbeat ingress : L) where
    abbrev pub agent : AgentIn → WsIn G Q X D → Applied (Agent (Ws G Q X D K L) Eventor N Value)
    agent =
        provide_agent debug_level fresh add remove visit open_file egress mock join_path new_client
          single canonical time_now empty_decorator default_config log_message log_connect
          log_disconnect log_heartbeat ingress

    -- If an agent can be built of a configuration, then the building panics when the websocket is
    -- disabled in it.
    pub disabled_panics :
        (i : AgentIn) (w : WsIn G Q X D) (a : Agent (Ws G Q X D K L) Eventor N Value)
        → agent i w ≡ applied a
        → agent i (disable w) ≡ panicked
    unfolding provide_agent provide_ws provide_adapter Logging.new
    disabled_panics i w a h =
        let websocket : Applied (WsOut (Ws G Q X D K L)) =
          provide_ws join_path new_client single canonical time_now empty_decorator default_config
            log_message log_connect log_disconnect log_heartbeat w in
        let (out, _, p) = bind_inversion websocket _ a h in
        let (ps, q, _) = bind_inversion (parts i) _ a p in rw q refl
