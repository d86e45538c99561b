-- ===== src/Agent/Handlers.antt =====
-- cmd/xmidt-agent/wrphandlers.go and libparodus.go: the message handlers from the configuration.
-- A handler that the code has just built is not nil, and an interface that holds a nil *Websocket is not
-- nil either, so that the checks of New on its handlers and loggers find nothing. `debug_level` is
-- zapcore.DebugLevel. Those of the pubsub are its parameters; `egress` and `mock` are the handlers that
-- subscribe to it.
use xmidt_agent.Base.{ℕ, false, Option, some, none, List, [], ◌∷◌, ◌++◌, Text, if◌then◌else◌}
use xmidt_agent.Wrp.{Error, sentinel, wrp_handler_config}
use xmidt_agent.Setup.{Applied, applied, rejected, panicked}
use xmidt_agent.Pubsub.{PubSub, with_publish_timeout, with_egress_handler, subscribe_service}
use xmidt_agent.Pubsub
use xmidt_agent.Qos.Options as QosOptions
use xmidt_agent.Wrphandlers.Logging
use xmidt_agent.Wrphandlers.Missing
use xmidt_agent.Wrphandlers.Auth.{Auth}
use xmidt_agent.Wrphandlers.Auth
use xmidt_agent.Wrphandlers.Mocktr181.Build.{Mock, File}
use xmidt_agent.Wrphandlers.Mocktr181.Build as Build
use xmidt_agent.Libparodus
use xmidt_agent.Websocket.Options.{Config}
use xmidt_agent.Agent.{◌>>=◌, join_first}
use xmidt_agent.Agent.Config.{Identity, Qos, Pubsub, MockTr181, LibParodus, XmidtAgentCrud}

abbrev pub handler_config : Error
handler_config = sentinel wrp_handler_config

abbrev pub of_logging : Logging.Built → Applied ℕ
of_logging (Logging.built l) = applied l
of_logging (Logging.failed e) = rejected e

abbrev pub of_qos : QosOptions.Built → Applied QosOptions.Config
of_qos (QosOptions.built h) = applied h
of_qos (QosOptions.failed e) = rejected e

abbrev pub of_missing : Missing.Built → Applied Text
of_missing (Missing.built t) = applied t
of_missing (Missing.failed e) = rejected e

abbrev pub of_auth : Auth.Built → Applied Auth
of_auth (Auth.built a) = applied a
of_auth (Auth.failed e) = rejected e

abbrev pub of_mock : {A : Type 0} → Build.Result A → Applied A
of_mock (Build.ok a) = applied a
of_mock (Build.err e) = rejected e

abbrev pub of_pubsub : {A : Type 0} → Pubsub.Result A → Applied A
of_pubsub (Pubsub.ok a) = applied a
of_pubsub (Pubsub.failed e) = rejected e

module _ (debug_level : ℕ) where
  -- loghandler.New on a handler and a logger that are there
  abbrev pub new_logging : Applied ℕ
  new_logging = of_logging (Logging.new debug_level false false [])

  abbrev pub qos_settings : Qos → List QosOptions.Setting
  qos_settings q =
      QosOptions.max_queue_bytes q.max_queue_bytes
      ∷ QosOptions.max_message_bytes q.max_message_bytes
      ∷ QosOptions.priority q.priority
      ∷ QosOptions.low_expires q.low_expires
      ∷ QosOptions.medium_expires q.medium_expires
      ∷ QosOptions.high_expires q.high_expires
      ∷ QosOptions.critical_expires q.critical_expires
      ∷ []

  -- provideQOSHandler
  unfoldable pub provide_qos_handler : Qos → Applied QosOptions.Config
  provide_qos_handler q = new_logging >>= λ level. of_qos (QosOptions.new false (qos_settings q))

  -- provideMissingHandler
  unfoldable pub provide_missing_handler : Identity → Applied Text
  provide_missing_handler id =
      join_first handler_config (of_missing (Missing.new false false id.device_id))

  -- provideAuthHandler
  unfoldable pub provide_auth_handler : Identity → Applied Auth
  provide_auth_handler id = new_logging >>= λ level.
      join_first handler_config (of_auth (Auth.new false false id.device_id (id.partner_id ∷ [])))

  -- provideWSEventorToHandlerAdapter: the listener is added to those of the websocket, which panics
  -- if the websocket is nil.
  unfoldable pub provide_adapter :
      {U D G K Q L : Type 0} → L → Option (Config U D G K Q L) → Applied (Config U D G K Q L)
  provide_adapter ingress none = new_logging >>= λ level. panicked
  provide_adapter ingress (some ws) = new_logging >>= λ level.
      applied (record ws { msg_listeners = ws.msg_listeners ++ ingress ∷ [] })

  -- provideLibParodus
  unfoldable pub provide_lib_parodus : {S : Type 0} → LibParodus → S → Applied (Libparodus.Config S)
  provide_lib_parodus c pubsub = join_first handler_config (
      Libparodus.new c.parodus_service_url (some pubsub) (
        some (Libparodus.set_keepalive_interval c.keep_alive_interval)
        ∷ some (Libparodus.set_receive_timeout c.receive_timeout)
        ∷ some (Libparodus.set_send_timeout c.send_timeout)
        ∷ []))

  module _ {Handler Eventor Key N : Type 0} (fresh : Eventor)
      (add : Handler → Eventor → Key × Eventor) (remove : Key → Eventor → Eventor)
      (visit : Eventor → List Handler) where
    -- providePubSubHandler
    unfoldable pub provide_pubsub_handler : Handler → Identity → Pubsub → Applied (PubSub Eventor N)
    provide_pubsub_handler egress id c = new_logging >>= λ level. join_first handler_config (
        of_pubsub (
          Pubsub.new fresh add remove visit id.device_id (
            some (with_publish_timeout c.publish_timeout)
            ∷ some (with_egress_handler (some egress))
            ∷ [])))

    -- SubscribeService of a handler that is there, on the pubsub
    abbrev pub subscribe_handler : Text → Handler → PubSub Eventor N → Applied (PubSub Eventor N)
    subscribe_handler service h ps =
        let (key, ps') = subscribe_service fresh add remove visit service (some h) ps in
        join_first handler_config (of_pubsub key) >>= λ _. applied ps'

    -- provideCrudHandler, on the pubsub; New of the handler only stores its arguments.
    unfoldable pub provide_crud_handler :
        Handler → XmidtAgentCrud → PubSub Eventor N → Applied (PubSub Eventor N)
    provide_crud_handler crud c ps = subscribe_handler c.service_name crud ps

    -- provideMockTr181Handler, on the pubsub; a disabled mock is not built.
    unfoldable pub provide_mock_tr181_handler :
        {Value : Type 0}
        → (Text → File Value)
        → Handler
        → Identity
        → MockTr181
        → PubSub Eventor N
        → Applied (Option (Mock Value) × PubSub Eventor N)
    provide_mock_tr181_handler {Value} open_file mock id c ps =
        let built = join_first handler_config (
          of_mock (
            Build.new open_file false id.device_id
              (Build.file_path c.file_path ∷ Build.enabled c.enabled ∷ []))) in
        let subscribed = λ (m : Mock Value). new_logging >>= λ level.
        subscribe_handler c.service_name mock ps >>= λ ps'. applied (some m, ps') in
        if c.enabled then new_logging >>= (λ level. built >>= subscribed) else applied (none, ps)
