-- ===== src/Websocket/Settings.antt =====
-- internal/websocket/internal_options.go and New of ws.go: the checks, the defaults and New.
pub mod Sound
use xmidt_agent.Base.{
  ℕ, Bool, true, false, ◌&&◌, not, Option, some, none, List, [], ◌∷◌, ◌++◌, Text, codes, is_empty,
  if◌then◌else◌,
}
use xmidt_agent.Base.Int.{ℤ, pos, negsuc, ltb_ℤ}
use xmidt_agent.Base.Dict.{Dict}
use xmidt_agent.Base.Dict
use xmidt_agent.Wrp.{Error, sentinel, joined, misconfigured_ws}
use xmidt_agent.Setup.{
  Applied, applied, rejected, panicked, Setting, then_apply, apply_all, reject_each,
}
use xmidt_agent.Websocket.Options.{Config, misconfigured, is_nil}

module _ {U D G K Q L : Type 0} where
  -- internal_options.go: what each check rejects
  abbrev pub lacks_device_id : Config U D G K Q L → Bool
  lacks_device_id c = is_empty c.id

  abbrev pub lacks_url : Config U D G K Q L → Bool
  lacks_url c = is_nil c.url_fetcher

  abbrev pub lacks_ip_mode : Config U D G K Q L → Bool
  lacks_ip_mode c = not c.with_ipv4 && not c.with_ipv6

  abbrev pub lacks_fetch_url : Config U D G K Q L → Bool
  lacks_fetch_url c = is_nil c.url_fetcher

  abbrev pub lacks_credentials_decorator : Config U D G K Q L → Bool
  lacks_credentials_decorator c = is_nil c.cred_decorator

  abbrev pub lacks_convey_decorator : Config U D G K Q L → Bool
  lacks_convey_decorator c = is_nil c.convey_decorator

  abbrev pub lacks_now_func : Config U D G K Q L → Bool
  lacks_now_func c = is_nil c.now_func

  abbrev pub lacks_retry_policy : Config U D G K Q L → Bool
  lacks_retry_policy c = is_nil c.retry_policy_factory

  abbrev pub validators : List (Config U D G K Q L → Bool)
  validators =
      lacks_device_id ∷ lacks_url ∷ lacks_ip_mode ∷ lacks_fetch_url ∷ lacks_credentials_decorator
      ∷ lacks_convey_decorator ∷ lacks_now_func ∷ lacks_retry_policy ∷ []

  -- The defaults of New, with emptyDecorator and the default client's configuration.
  abbrev pub defaults : D → G → Config U D G K Q L
  defaults empty_decorator default_config = record {
    id = [];
    url_fetcher = none;
    url_fetching_timeout = pos 0;
    cred_decorator = some empty_decorator;
    convey_decorator = some empty_decorator;
    inactivity_timeout = pos 60000000000;
    ping_write_timeout = pos 0;
    send_timeout = pos 0;
    keep_alive_interval = pos 0;
    http_client_config = default_config;
    additional_headers = none;
    max_message_bytes = pos 0;
    with_ipv4 = false;
    with_ipv6 = false;
    connect_listeners = [];
    disconnect_listeners = [];
    heartbeat_listeners = [];
    msg_listeners = [];
    now_func = none;
    retry_policy_factory = none;
    once = false;
  }

  unfoldable pub new :
      D → G → List (Option (Setting (Config U D G K Q L))) → Applied (Config U D G K Q L)
  new empty_decorator default_config opts =
      apply_all (opts ++ reject_each misconfigured validators)
        (defaults empty_decorator default_config)
