-- ===== src/Tests/Wiring.antt =====
-- How the command builds the agent, on a small configuration.
use xmidt_agent.Base.{
  ℕ, ◌+◌, ◌≡◌, ◌≢◌, ◌⊎◌, ◌↔◌, refl, Bool, true, false, Option, some, none, List, [], ◌∷◌, ◌++◌,
  Text, codes, In, ltb, ◌==◌, is_empty,
}
use xmidt_agent.Base.Int.{pos}
use xmidt_agent.Wrp.{Error, Message, blank}
use xmidt_agent.Fs.{Result, ok}
use xmidt_agent.Setup.{Applied, applied, panicked, rejected}
use xmidt_agent.Qos.Priority.{newest_type}
use xmidt_agent.Wrphandlers.Mocktr181.Build.{File, holds}
use xmidt_agent.Credentials.Settings
use xmidt_agent.Credentials.Settings.Complete.{IsComplete}
use xmidt_agent.Agent.Config.{Identity}
use xmidt_agent.Agent.Credentials.{CredsIn, no_credentials}
use xmidt_agent.Agent.Credentials.Carried.{
  is_out_of_range, configured, provided, built, provide_credentials_correct,
}
use xmidt_agent.Agent.Websocket.{WsIn, Ws, provide_ws}
use xmidt_agent.Agent.Websocket.Configured.{IsAccepted}
use xmidt_agent.Agent.Websocket.Ready
use xmidt_agent.Agent.Wiring.{AgentIn, Parts, Agent, provide_parts, provide_agent}
use xmidt_agent.Agent.Wiring.Served.{agent_serves}
use xmidt_agent.Agent.Wiring.Disabled.{disable, disabled_panics}
use xmidt_agent.Agent.Handlers.{
  provide_qos_handler, provide_pubsub_handler, provide_lib_parodus, provide_missing_handler,
  provide_auth_handler, provide_mock_tr181_handler, provide_adapter,
}
use xmidt_agent.Wrphandlers.Logging
use xmidt_agent.Pubsub.{Locator, publish, normalize}
use xmidt_agent.Pubsub
use xmidt_agent.Qos.Options as QosOptions
use xmidt_agent.Qos.Item.{priority_newest_msg}
use xmidt_agent.Setup
use xmidt_agent.Libparodus
use xmidt_agent.Wrphandlers.Auth
use xmidt_agent.Wrphandlers.Missing
use xmidt_agent.Wrphandlers.Mocktr181.Build
use xmidt_agent.Websocket.Settings as WsSettings
use xmidt_agent.Websocket.Options

abbrev pub identity : Identity
identity = record {
  device_id = codes "mac:1";
  serial_number = codes "2";
  hardware_model = codes "m";
  hardware_manufacturer = codes "h";
  firmware_version = codes "v";
  partner_id = codes "p";
}

-- Clients, percentages, listeners and the like are numbers.
abbrev creds_in : CredsIn ℕ ℕ ℕ ℕ
creds_in = record {
  creds = record {
    url = codes "u";
    http_client = 1;
    refetch_percent = 0;
    file_name = codes "f";
    file_permissions = 384;
    wait_until_fetched = pos 5;
  };
  id = identity;
  ops = record { last_reboot_reason = codes "r"; boot_time = 0; webpa_interface_used = [] };
  durable = some 8;
}

abbrev client_of : ℕ → Result ℕ
client_of g = ok (g + 1)

abbrev is_zero : ℕ → Bool
is_zero n = n == 0

abbrev creds : Settings.Config ℕ ℕ ℕ ℕ ℕ
creds = configured 3 90 is_zero 4 creds_in 2

provide_credentials_correct_example :
    let service = provided {K = ℕ} {L = ℕ} 0 3 0 100 90 ltb is_zero client_of 4 creds_in in
    ((service ≡ applied no_credentials) ↔ (is_empty (codes "u") ≡ true))
    × ((service ≡ built 0 3 0 100 90 ltb is_zero client_of 4 creds_in creds)
        ↔ (is_empty (codes "u") ≡ false)
          × ((client : ℕ) × (client_of 1 ≡ ok client)
              × (is_out_of_range 0 100 ltb 0 ≡ false)
              × IsComplete creds
              × (creds ≡ configured 3 90 is_zero 4 creds_in client)))
provide_credentials_correct_example =
    provide_credentials_correct 0 3 0 100 90 ltb is_zero client_of 4 creds_in creds

abbrev websocket : WsIn ℕ ℕ ℕ ℕ
websocket = record {
  identity = identity;
  dev = false;
  instructions = none;
  cred_decorate = some 1;
  convey_decorate = 2;
  websocket = record {
    disable = false;
    url_path = codes "api";
    back_up_url = codes "wss";
    additional_headers = [];
    fetch_url_timeout = pos 1;
    inactivity_timeout = pos 2;
    ping_write_timeout = pos 3;
    send_timeout = pos 4;
    http_client = 5;
    keep_alive_interval = pos 6;
    max_message_bytes = pos 7;
    disable_v4 = true;
    disable_v6 = false;
    retry_policy = 8;
    once = false;
  };
}

abbrev join_path : Text → Text → Result Text
join_path base path = ok (base ++ path)

abbrev no_error : ℕ → Option Error
no_error g = none

abbrev single : ℕ → ℕ
single g = g

abbrev canonical : Text → Text
canonical t = t

provide_ws_correct_example :
    let ws =
      Ready.provided {K = ℕ} {L = ℕ} join_path no_error single canonical 9 10 11 12 13 14 15
        websocket in
    (ws ≢ panicked)
    × ((c : Ws ℕ ℕ ℕ ℕ ℕ ℕ)
        → (ws
            ≡ applied
                (Ready.out join_path no_error single canonical 9 10 11 12 13 14 15 websocket c))
          ↔ (websocket.websocket.disable ≡ false)
            × IsAccepted no_error websocket
            × (c
                ≡ Ready.configured join_path no_error single canonical 9 10 11 12 13 14 15
                    websocket))
provide_ws_correct_example =
    Ready.provide_ws_correct join_path no_error single canonical 9 10 11 12 13 14 15 websocket

abbrev add : ℕ → List ℕ → ℕ × List ℕ
add h e = (h, h ∷ e)

abbrev remove : ℕ → List ℕ → List ℕ
remove k e = e

abbrev visit : List ℕ → List ℕ
visit e = e

abbrev open_mock : Text → File ℕ
open_mock path = holds []

abbrev config : AgentIn
config = record {
  identity = identity;
  qos = record {
    max_queue_bytes = pos 100;
    max_message_bytes = pos 50;
    priority = newest_type;
    low_expires = pos 1;
    medium_expires = pos 2;
    high_expires = pos 3;
    critical_expires = pos 4;
  };
  pubsub = record { publish_timeout = pos 9 };
  lib_parodus = record {
    parodus_service_url = codes "tcp";
    keep_alive_interval = pos 1;
    receive_timeout = pos 2;
    send_timeout = pos 3;
  };
  mock_tr181 = record { file_path = codes "f"; enabled = true; service_name = codes "config" };
}

abbrev built_parts : Parts (List ℕ) ℕ ℕ
built_parts = record {
  qos = record {
    priority = newest_type;
    tie_breaker = some (λ i j. ltb j.expires i.expires);
    max_queue_bytes = 100;
    max_message_bytes = 50;
    low_expires = 1;
    medium_expires = 2;
    high_expires = 3;
    critical_expires = 4;
  };
  pubsub = record {
    self = codes "mac:1";
    desired_opts = [];
    routes = (codes "egress:*", 20 ∷ []) ∷ (codes "service:config", 21 ∷ []) ∷ [];
    publish_timeout = 9;
  };
  lib_parodus = record {
    parodus_service_url = codes "tcp";
    keepalive_interval = pos 1;
    recv_timeout = pos 2;
    send_timeout = pos 3;
    pubsub = some tt;
  };
  missing = codes "mac:1";
  auth = record { source = codes "mac:1"; partners = codes "p" ∷ [] };
  mock =
      some
        (record { source = codes "mac:1"; file_path = codes "f"; parameters = []; enabled = true });
}

parts_built : provide_parts 0 [] add remove visit open_mock 20 21 config ≡ applied built_parts
unfolding provide_parts provide_qos_handler provide_pubsub_handler provide_lib_parodus
    provide_missing_handler provide_auth_handler provide_mock_tr181_handler Logging.new
    Logging.first_level QosOptions.new QosOptions.apply_all QosOptions.max_queue_bytes
    QosOptions.max_message_bytes QosOptions.priority QosOptions.tie_breaker_of
    QosOptions.low_expires QosOptions.medium_expires QosOptions.high_expires
    QosOptions.critical_expires QosOptions.validate_queue_constraints QosOptions.validate_priority
    QosOptions.validate_tie_breaker priority_newest_msg Pubsub.new Pubsub.apply_all Pubsub.apply
    Pubsub.subscribe_egress Pubsub.subscribe_service Pubsub.subscribe Pubsub.eventor_at
    Pubsub.egress_route Pubsub.service_route Pubsub.validate_string Libparodus.new Setup.apply_all
    Auth.new Auth.trimmed_partners Missing.new Build.new Build.apply_all Build.apply Build.load_file
parts_built = refl

abbrev ws : Ws ℕ ℕ ℕ ℕ ℕ ℕ
ws = Ready.configured join_path no_error single canonical 9 10 11 12 13 14 15 websocket

ws_built :
    provide_ws join_path no_error single canonical 9 10 11 12 13 14 15 websocket
    ≡ applied (record { ws = some ws; cancels = false })
unfolding provide_ws Setup.apply_all WsSettings.new Options.credentials_decorator Options.device_id
    Options.fetch_url_timeout Options.fetch_url Options.inactivity_timeout
    Options.ping_write_timeout Options.send_timeout Options.keep_alive_interval
    Options.http_client_with_force_sets Options.http_client Options.max_message_bytes
    Options.convey_decorator Options.additional_headers Options.add_values Options.now_func
    Options.retry_policy
ws_built = refl

abbrev passes : {A : Type 0} → A → Message → Option Error × Message
passes _ msg = (none, msg)

abbrev locator : Text → Locator
locator t = record {
  scheme = codes "mac";
  authority = t;
  service = codes "config";
  device = codes "mac:1";
}

agent_serves_example :
    (handlers : List ℕ) × (publish [] add remove visit passes passes locator built_parts.pubsub
        blank
      ≡ Pubsub.ok (blank, handlers))
    × ((g : ℕ)
        → In g handlers
          ↔ (g ≡ 20) × ¬ (codes "mac:1" ≡ codes "mac:1")
            ⊎ (g ≡ 21)
              × (true ≡ true)
              × (codes "mac:1" ≡ codes "mac:1")
              × ((codes "config" ≡ codes "config") ⊎ (codes "config" ≡ codes "*")))
unfolding normalize
agent_serves_example =
    agent_serves 0 [] add remove visit open_mock 20 21 (λ h i. i) (λ g h e. ((λ i. i), (λ i. i)))
      passes passes locator config built_parts blank blank (locator []) parts_built refl

abbrev agent_of : AgentIn → WsIn ℕ ℕ ℕ ℕ → Applied (Agent (Ws ℕ ℕ ℕ ℕ ℕ ℕ) (List ℕ) ℕ ℕ)
agent_of =
    provide_agent 0 [] add remove visit open_mock 20 21 join_path no_error single canonical 9 10 11
      12 13 14 15 16

abbrev agent : Agent (Ws ℕ ℕ ℕ ℕ ℕ ℕ) (List ℕ) ℕ ℕ
agent = record { parts = built_parts; ws = record ws { msg_listeners = 16 ∷ [] } }

agent_built : agent_of config websocket ≡ applied agent
unfolding provide_agent provide_adapter Logging.new Logging.first_level
agent_built = rw (provide_agent, ws_built, parts_built) refl

disabled_panics_example : agent_of config (disable websocket) ≡ panicked
disabled_panics_example =
    disabled_panics 0 [] add remove visit open_mock 20 21 join_path no_error single canonical 9 10
      11 12 13 14 15 16 config websocket agent agent_built
