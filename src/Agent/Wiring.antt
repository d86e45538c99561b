-- ===== src/Agent/Wiring.antt =====
-- How lifeCycle of cmd/xmidt-agent/main.go gets its parts: each provider that it needs, directly or
-- through another, is called once, with what those before it have built. None needs the CRUD handler.
-- Parameters are those of Handlers. A file system, a logger and the like are always there.
pub mod Disabled
pub mod Subscribed
pub mod Served
use xmidt_agent.Base.{ℕ, Option, List, Text}
use xmidt_agent.Setup.{Applied, applied, rejected, panicked}
use xmidt_agent.Pubsub.{PubSub}
use xmidt_agent.Qos.Options as QosOptions
use xmidt_agent.Wrphandlers.Auth.{Auth}
use xmidt_agent.Wrphandlers.Mocktr181.Build.{Mock, File}
use xmidt_agent.Libparodus
use xmidt_agent.Websocket.Options.{Config}
use xmidt_agent.Agent.{◌>>=◌}
use xmidt_agent.Fs.{Result}
use xmidt_agent.Wrp.{Error}
use xmidt_agent.Agent.Websocket.{WsIn, Ws, provide_ws}
use xmidt_agent.Agent.Config.{Identity, Qos, Pubsub, MockTr181, LibParodus}
use xmidt_agent.Agent.Handlers.{
  provide_qos_handler, provide_pubsub_handler, provide_lib_parodus, provide_missing_handler,
  provide_auth_handler, provide_mock_tr181_handler, provide_adapter,
}

-- The configuration that the handlers are built from.
pub record AgentIn : Type 0 where
  pub identity : Identity
  pub qos : Qos
  pub pubsub : Pubsub
  pub lib_parodus : LibParodus
  pub mock_tr181 : MockTr181

-- What is built of it; the missing handler is its source.
pub record Parts (Eventor N Value : Type 0) : Type 0 where
  pub qos : QosOptions.Config
  pub pubsub : PubSub Eventor N
  pub lib_parodus : Libparodus.Config (Unit {0})
  pub missing : Text
  pub auth : Auth
  pub mock : Option (Mock Value)

pub record Agent (W Eventor N Value : Type 0) : Type 0 where
  pub parts : Parts Eventor N Value
  pub ws : W

module _ {Handler Eventor Key N Value : Type 0} (debug_level : ℕ) (fresh : Eventor)
    (add : Handler → Eventor → Key × Eventor) (remove : Key → Eventor → Eventor)
    (visit : Eventor → List Handler) (open_file : Text → File Value) (egress mock : Handler) where
  unfoldable pub provide_parts : AgentIn → Applied (Parts Eventor N Value)
  provide_parts i = do
    qos ← provide_qos_handler debug_level i.qos
    pubsub ← provide_pubsub_handler debug_level fresh add remove visit egress i.identity i.pubsub
    lib_parodus ← provide_lib_parodus debug_level i.lib_parodus tt
    missing ← provide_missing_handler debug_level i.identity
    auth ← provide_auth_handler debug_level i.identity
    mocked ←
        provide_mock_tr181_handler debug_level fresh add remove visit open_file mock i.identity
          i.mock_tr181 pubsub
    applied (record {
      qos = qos;
      pubsub = mocked.1;
      lib_parodus = lib_parodus;
      missing = missing;
      auth = auth;
      mock = mocked.0;
    })

  module _ {G Q X D K L : Type 0} (join_path : Text → Text → Result Text)
      (new_client : G → Option Error) (single : G → G) (canonical : Text → Text) (time_now : K)
      (empty_decorator : D) (default_config : G)
      (log_message log_connect log_disconnect log_heartbeat ingress : L) where
    -- The websocket, the other parts, and then the way from the websocket to the handlers.
    unfoldable pub provide_agent :
        AgentIn → WsIn G Q X D → Applied (Agent (Ws G Q X D K L) Eventor N Value)
    provide_agent i w = do
      out ←
          provide_ws join_path new_client single canonical time_now empty_decorator default_config
            log_message log_connect log_disconnect log_heartbeat w
      parts ← provide_parts i
      ws ← provide_adapter debug_level ingress out.ws
      applied (record { parts = parts; ws = ws })
