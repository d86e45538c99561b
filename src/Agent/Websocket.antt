-- ===== src/Agent/Websocket.antt =====
-- cmd/xmidt-agent/ws.go: the websocket from the configuration.
-- Parameters are those of Websocket/Options. `X` is what a call of the URL fetcher finds around it: the
-- time and the answer of the resolver. `instructions` is Endpoint of the instructions, `cred_decorate`
-- Decorate of the credentials, and `convey_decorate` that of the metadata; `log_message` and the three
-- after it are the listeners of the development mode. The retry policy of the configuration is never nil.
pub mod Configured
pub mod Ready
use xmidt_agent.Base.{
  Bool, true, false, not, Option, some, none, List, [], ◌∷◌, ◌++◌, Text, if◌then◌else◌,
}
use xmidt_agent.Wrp.{Error, sentinel, websocket_config}
use xmidt_agent.Fs.{Result}
use xmidt_agent.Setup.{Applied, applied, rejected, panicked, Setting}
use xmidt_agent.Websocket.Url.{fetch_endpoint}
use xmidt_agent.Websocket.Options.{
  Config, device_id, fetch_url, fetch_url_timeout, credentials_decorator, convey_decorator,
  inactivity_timeout, ping_write_timeout, keep_alive_interval, with_ipv4, with_ipv6, send_timeout,
  http_client_with_force_sets, additional_headers, set_once, now_func, retry_policy,
  max_message_bytes, add_message_listener, add_connect_listener, add_disconnect_listener,
  add_heartbeat_listener,
}
use xmidt_agent.Websocket.Settings.{new}
use xmidt_agent.Agent.{◌>>=◌, join_first}
use xmidt_agent.Agent.Config.{Identity, Websocket}

-- wsIn, without the logger
pub record WsIn (G Q X D : Type 0) : Type 0 where
  pub identity : Identity
  pub dev : Bool
  pub instructions : Option (X → Result Text)
  pub cred_decorate : Option D
  pub convey_decorate : D
  pub websocket : Websocket G Q

-- wsOut: the websocket, which is the egress too, and how many cancels there are; a disabled one is nil.
pub record WsOut (C : Type 0) : Type 0 where
  pub ws : Option C
  pub cancels : Bool

-- fetchURL; a call of what it gives
unfoldable pub fetch_at :
    {X : Type 0}
    → (Text → Text → Result Text)
    → Text
    → Text
    → Option (X → Result Text)
    → X
    → Result Text
fetch_at join_path path backup none x = fetch_endpoint join_path path backup none
fetch_at join_path path backup (some f) x = fetch_endpoint join_path path backup (some (f x))

module _ {U D G K Q L : Type 0} where
  abbrev pub cred_options : Option D → List (Option (Setting (Config U D G K Q L)))
  cred_options none = []
  cred_options (some d) = some (credentials_decorator (some d)) ∷ []

  -- the listeners of the development mode
  abbrev pub listener_options : L → L → L → L → Bool → List (Option (Setting (Config U D G K Q L)))
  listener_options message connect disconnect heartbeat false = []
  listener_options message connect disconnect heartbeat true =
      some (add_message_listener message)
      ∷ some (add_connect_listener connect)
      ∷ some (add_disconnect_listener disconnect)
      ∷ some (add_heartbeat_listener heartbeat)
      ∷ []

-- the configuration of the agent's websocket
abbrev pub Ws : Type 0 → Type 0 → Type 0 → Type 0 → Type 0 → Type 0 → Type 0
Ws G Q X D K L = Config (X → Result Text) D G K Q L

module _ {G Q X D K L : Type 0} (join_path : Text → Text → Result Text)
    (new_client : G → Option Error) (single : G → G) (canonical : Text → Text) (time_now : K) where
  abbrev pub config_options : WsIn G Q X D → List (Option (Setting (Ws G Q X D K L)))
  config_options i =
      some (device_id i.identity.device_id)
      ∷ some (fetch_url_timeout i.websocket.fetch_url_timeout)
      ∷ some (
          fetch_url
            (some (fetch_at join_path i.websocket.url_path i.websocket.back_up_url i.instructions)))
      ∷ some (inactivity_timeout i.websocket.inactivity_timeout)
      ∷ some (ping_write_timeout i.websocket.ping_write_timeout)
      ∷ some (send_timeout i.websocket.send_timeout)
      ∷ some (keep_alive_interval i.websocket.keep_alive_interval)
      ∷ some (http_client_with_force_sets new_client single i.websocket.http_client)
      ∷ some (max_message_bytes i.websocket.max_message_bytes)
      ∷ some (convey_decorator (some i.convey_decorate))
      ∷ some (additional_headers canonical i.websocket.additional_headers)
      ∷ some (now_func (some time_now))
      ∷ some (with_ipv6 (not i.websocket.disable_v6 ∷ []))
      ∷ some (with_ipv4 (not i.websocket.disable_v4 ∷ []))
      ∷ some (set_once (i.websocket.once ∷ []))
      ∷ some (retry_policy (some i.websocket.retry_policy))
      ∷ []

  module _ (empty_decorator : D) (default_config : G)
      (log_message log_connect log_disconnect log_heartbeat : L) where
    abbrev pub ws_options : WsIn G Q X D → List (Option (Setting (Ws G Q X D K L)))
    ws_options i =
        cred_options i.cred_decorate
        ++ config_options i
        ++ listener_options log_message log_connect log_disconnect log_heartbeat i.dev

    unfoldable pub provide_ws : WsIn G Q X D → Applied (WsOut (Ws G Q X D K L))
    provide_ws i =
        if i.websocket.disable
        then applied (record { ws = none; cancels = false })
        else join_first (sentinel websocket_config)
            (new empty_decorator default_config (ws_options i))
          >>= λ ws. applied (record { ws = some ws; cancels = i.dev })
