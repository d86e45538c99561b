-- ===== src/Websocket/Options.antt =====
-- internal/websocket/options.go: the options of the websocket and what each of them sets.
-- Parameters: `U` for the URL fetchers, `D` for the decorators, `G` for arrangehttp.ClientConfig, `K`
-- for clocks, `Q` for the policy factories and `L` for the listeners. A nil value of these is `none`,
-- and so are nil headers. A duration is a number of nanoseconds.
use xmidt_agent.Base.{
  Bool, true, false, Option, some, none, List, [], ◌∷◌, ◌++◌, Text, codes, is_empty, if◌then◌else◌,
}
use xmidt_agent.Base.Int.{ℤ, pos, ltb_ℤ}
use xmidt_agent.Base.Dict.{Dict}
use xmidt_agent.Base.Dict
use xmidt_agent.Wrp.{Error, sentinel, joined, misconfigured_ws}
use xmidt_agent.Setup.{applied, rejected, panicked, Setting, then_apply}

-- The fields of Websocket that New and the options set.
pub record Config (U D G K Q L : Type 0) : Type 0 where
  pub id : Text
  pub url_fetcher : Option U
  pub url_fetching_timeout : ℤ
  pub cred_decorator : Option D
  pub convey_decorator : Option D
  pub inactivity_timeout : ℤ
  pub ping_write_timeout : ℤ
  pub send_timeout : ℤ
  pub keep_alive_interval : ℤ
  pub http_client_config : G
  pub additional_headers : Option (Dict (List Text))
  pub max_message_bytes : ℤ
  pub with_ipv4 : Bool
  pub with_ipv6 : Bool
  pub connect_listeners : List L
  pub disconnect_listeners : List L
  pub heartbeat_listeners : List L
  pub msg_listeners : List L
  pub now_func : Option K
  pub retry_policy_factory : Option Q
  pub once : Bool

-- `append(with, true)[0]`
abbrev pub first_or_true : List Bool → Bool
first_or_true [] = true
first_or_true (b ∷ _) = b

abbrev pub misconfigured : Error
misconfigured = sentinel misconfigured_ws

abbrev pub is_negative : ℤ → Bool
is_negative d = ltb_ℤ d (pos 0)

abbrev pub or_empty : {A : Type 0} → Option (List A) → List A
or_empty none = []
or_empty (some l) = l

abbrev pub is_nil : {A : Type 0} → Option A → Bool
is_nil none = true
is_nil (some a) = false

-- http.Header.Add, by the canonical form of a key; on a nil map it panics.
abbrev pub add_header :
    (Text → Text) → Text → Text → Option (Dict (List Text)) → Option (Dict (List Text))
add_header canonical k v none = none
add_header canonical k v (some h) =
    some (Dict.insert (canonical k) (or_empty (Dict.lookup (canonical k) h) ++ v ∷ []) h)

module _ {U D G K Q L : Type 0} where
  unfoldable pub device_id : Text → Setting (Config U D G K Q L)
  device_id id c =
      if is_empty id
      then rejected misconfigured
      else applied (record c {
        id = id;
        additional_headers =
            some
              (Dict.insert (codes "X-Webpa-Device-Name") (id ∷ []) (or_empty c.additional_headers));
      })

  -- URL; the fetcher gives the URL itself.
  unfoldable pub url : (Text → U) → Text → Setting (Config U D G K Q L)
  url constant t c =
      if is_empty t
      then rejected misconfigured
      else applied (record c { url_fetcher = some (constant t) })

  unfoldable pub fetch_url : Option U → Setting (Config U D G K Q L)
  fetch_url none c = rejected misconfigured
  fetch_url (some f) c = applied (record c { url_fetcher = some f })

  unfoldable pub fetch_url_timeout : ℤ → Setting (Config U D G K Q L)
  fetch_url_timeout d c =
      if is_negative d
      then rejected misconfigured
      else applied (record c { url_fetching_timeout = d })

  unfoldable pub credentials_decorator : Option D → Setting (Config U D G K Q L)
  credentials_decorator none c = rejected misconfigured
  credentials_decorator (some f) c = applied (record c { cred_decorator = some f })

  unfoldable pub convey_decorator : Option D → Setting (Config U D G K Q L)
  convey_decorator none c = rejected misconfigured
  convey_decorator (some f) c = applied (record c { convey_decorator = some f })

  unfoldable pub inactivity_timeout : ℤ → Setting (Config U D G K Q L)
  inactivity_timeout d c =
      if is_negative d
      then rejected misconfigured
      else applied (record c { inactivity_timeout = d })

  unfoldable pub ping_write_timeout : ℤ → Setting (Config U D G K Q L)
  ping_write_timeout d c =
      if is_negative d
      then rejected misconfigured
      else applied (record c { ping_write_timeout = d })

  unfoldable pub keep_alive_interval : ℤ → Setting (Config U D G K Q L)
  keep_alive_interval d c =
      if is_negative d
      then rejected misconfigured
      else applied (record c { keep_alive_interval = d })

  abbrev pub with_ipv4 : List Bool → Setting (Config U D G K Q L)
  with_ipv4 bs c = applied (record c { with_ipv4 = first_or_true bs })

  abbrev pub with_ipv6 : List Bool → Setting (Config U D G K Q L)
  with_ipv6 bs c = applied (record c { with_ipv6 = first_or_true bs })

  unfoldable pub send_timeout : ℤ → Setting (Config U D G K Q L)
  send_timeout d c =
      if is_negative d then rejected misconfigured else applied (record c { send_timeout = d })

  -- HTTPClient; the first argument is the error of NewClient.
  unfoldable pub http_client : (G → Option Error) → G → Setting (Config U D G K Q L)
  http_client new_client config c = elim (new_client config) [
    | some e ↦ rejected (joined e misconfigured)
    | none ↦ applied (record c { http_client_config = config })
  ]

  -- HTTPClientWithForceSets; `single` sets the three limits of the transport to 1.
  unfoldable pub http_client_with_force_sets :
      (G → Option Error) → (G → G) → G → Setting (Config U D G K Q L)
  http_client_with_force_sets new_client single config c =
      then_apply (http_client new_client config c)
        (λ c'. applied (record c' { http_client_config = single c'.http_client_config }))

  -- the inner loop of AdditionalHeaders, for the values of a key
  unfoldable pub add_values : (Text → Text) → Text → List Text → Setting (Config U D G K Q L)
  add_values canonical k [] c = applied c
  add_values canonical k (v ∷ vs) c = elim (add_header canonical k v c.additional_headers) [
    | none ↦ panicked
    | some h ↦ add_values canonical k vs (record c { additional_headers = some h })
  ]

  unfoldable pub additional_headers :
      (Text → Text) → Dict (List Text) → Setting (Config U D G K Q L)
  additional_headers canonical [] c = applied c
  additional_headers canonical ((k, vs) ∷ headers) c =
      then_apply (add_values canonical k vs c) (additional_headers canonical headers)

  abbrev pub set_once : List Bool → Setting (Config U D G K Q L)
  set_once bs c = applied (record c { once = first_or_true bs })

  unfoldable pub now_func : Option K → Setting (Config U D G K Q L)
  now_func none c = rejected misconfigured
  now_func (some f) c = applied (record c { now_func = some f })

  unfoldable pub retry_policy : Option Q → Setting (Config U D G K Q L)
  retry_policy none c = rejected misconfigured
  retry_policy (some f) c = applied (record c { retry_policy_factory = some f })

  unfoldable pub max_message_bytes : ℤ → Setting (Config U D G K Q L)
  max_message_bytes n c =
      if is_negative n then rejected misconfigured else applied (record c { max_message_bytes = n })

  abbrev pub add_message_listener : L → Setting (Config U D G K Q L)
  add_message_listener l c = applied (record c { msg_listeners = c.msg_listeners ++ l ∷ [] })

  abbrev pub add_connect_listener : L → Setting (Config U D G K Q L)
  add_connect_listener l c =
      applied (record c { connect_listeners = c.connect_listeners ++ l ∷ [] })

  abbrev pub add_disconnect_listener : L → Setting (Config U D G K Q L)
  add_disconnect_listener l c =
      applied (record c { disconnect_listeners = c.disconnect_listeners ++ l ∷ [] })

  abbrev pub add_heartbeat_listener : L → Setting (Config U D G K Q L)
  add_heartbeat_listener l c =
      applied (record c { heartbeat_listeners = c.heartbeat_listeners ++ l ∷ [] })
