-- ===== src/Agent/Websocket/Configured.antt =====
-- What the options for the configuration make of a websocket, and the tests on their way.
use xmidt_agent.Base.{
  ◌≡◌, inl, inr, refl, ap, ◌∙◌, ◌||◌, ◌++◌, not, Bool, true, false, Option, some, none, List, [],
  ◌∷◌, Text, codes, is_empty, Option-cases,
}
use xmidt_agent.Base.Dict.{Dict}
use xmidt_agent.Base.Dict
use xmidt_agent.Wrp.{Error}
use xmidt_agent.Fs.{Result}
use xmidt_agent.Setup.{applied, Setting}
use xmidt_agent.Setup.Passes.{
  Passes, refused, passed, PassesAll, Passes-if, PassesAll-test, PassesAll-set,
}
use xmidt_agent.Websocket.Options.{
  Config, device_id, fetch_url, fetch_url_timeout, convey_decorator, inactivity_timeout,
  ping_write_timeout, keep_alive_interval, send_timeout, http_client, http_client_with_force_sets,
  add_values, additional_headers, now_func, retry_policy, max_message_bytes, is_negative, or_empty,
  misconfigured,
}
use xmidt_agent.Agent.Websocket.{WsIn, Ws, fetch_at, config_options}

-- The headers with the values added to those of their keys.
abbrev pub add_each : (Text → Text) → Text → List Text → Dict (List Text) → Dict (List Text)
add_each canonical k [] h = h
add_each canonical k (v ∷ vs) h =
    add_each canonical k vs
      (Dict.insert (canonical k) (or_empty (Dict.lookup (canonical k) h) ++ v ∷ []) h)

abbrev pub merge : (Text → Text) → Dict (List Text) → Dict (List Text) → Dict (List Text)
merge canonical [] h = h
merge canonical ((k, vs) ∷ headers) h = merge canonical headers (add_each canonical k vs h)

module _ {U D G K Q L : Type 0} (canonical : Text → Text) where
  abbrev with_headers : Config U D G K Q L → Dict (List Text) → Config U D G K Q L
  with_headers c h = record c { additional_headers = some h }

  add_values-add_each :
      (k : Text) (vs : List Text) (c : Config U D G K Q L) (h : Dict (List Text))
      → add_values canonical k vs (with_headers c h)
        ≡ applied (with_headers c (add_each canonical k vs h))
  unfolding add_values
  add_values-add_each k [] c h = refl
  add_values-add_each k (v ∷ vs) c h = add_values-add_each k vs c _

  additional_headers-merge :
      (headers : Dict (List Text)) (c : Config U D G K Q L) (h : Dict (List Text))
      → additional_headers canonical headers (with_headers c h)
        ≡ applied (with_headers c (merge canonical headers h))
  unfolding additional_headers
  additional_headers-merge [] c h = refl
  additional_headers-merge ((k, vs) ∷ headers) c h =
      rw (add_values-add_each k vs c h) (additional_headers-merge headers c _)

  additional_headers-set :
      (headers : Dict (List Text)) (c : Config U D G K Q L) (h : Dict (List Text))
      → c.additional_headers ≡ some h
      → additional_headers canonical headers c
        ≡ applied (with_headers c (merge canonical headers h))
  additional_headers-set headers c h e =
      ap (additional_headers canonical headers) (λ i. record c { additional_headers = e i })
      ∙ additional_headers-merge headers c h

abbrev pub is_some : {A : Type 0} → Option A → Bool
is_some none = false
is_some (some _) = true

-- What the configuration must have for a websocket.
pub record IsAccepted {G Q X D : Type 0} (new_client : G → Option Error) (i : WsIn G Q X D)
    : Type 0 where
  pub device_id : is_empty i.identity.device_id ≡ false
  pub fetch_url_timeout : is_negative i.websocket.fetch_url_timeout ≡ false
  pub inactivity_timeout : is_negative i.websocket.inactivity_timeout ≡ false
  pub ping_write_timeout : is_negative i.websocket.ping_write_timeout ≡ false
  pub send_timeout : is_negative i.websocket.send_timeout ≡ false
  pub keep_alive_interval : is_negative i.websocket.keep_alive_interval ≡ false
  pub http_client : new_client i.websocket.http_client ≡ none
  pub max_message_bytes : is_negative i.websocket.max_message_bytes ≡ false
  pub ip_mode : (not i.websocket.disable_v4 || not i.websocket.disable_v6) ≡ true

-- The tests of the options, in their order.
abbrev pub tests : {G Q X D : Type 0} → (G → Option Error) → WsIn G Q X D → List Bool
tests new_client i =
    is_empty i.identity.device_id
    ∷ is_negative i.websocket.fetch_url_timeout
    ∷ is_negative i.websocket.inactivity_timeout
    ∷ is_negative i.websocket.ping_write_timeout
    ∷ is_negative i.websocket.send_timeout
    ∷ is_negative i.websocket.keep_alive_interval
    ∷ is_some (new_client i.websocket.http_client)
    ∷ is_negative i.websocket.max_message_bytes
    ∷ []

module _ {G Q X D K L : Type 0} (join_path : Text → Text → Result Text)
    (new_client : G → Option Error) (single : G → G) (canonical : Text → Text) (time_now : K) where
  abbrev pub config_opts : WsIn G Q X D → List (Option (Setting (Ws G Q X D K L)))
  config_opts = config_options join_path new_client single canonical time_now

  -- What the options for the configuration make of a websocket.
  abbrev pub set_config : WsIn G Q X D → Ws G Q X D K L → Ws G Q X D K L
  set_config i c = record c {
    id = i.identity.device_id;
    url_fetching_timeout = i.websocket.fetch_url_timeout;
    url_fetcher =
        some (fetch_at join_path i.websocket.url_path i.websocket.back_up_url i.instructions);
    inactivity_timeout = i.websocket.inactivity_timeout;
    ping_write_timeout = i.websocket.ping_write_timeout;
    send_timeout = i.websocket.send_timeout;
    keep_alive_interval = i.websocket.keep_alive_interval;
    http_client_config = single i.websocket.http_client;
    max_message_bytes = i.websocket.max_message_bytes;
    convey_decorator = some i.convey_decorate;
    additional_headers = some (
        merge canonical i.websocket.additional_headers (
          Dict.insert (codes "X-Webpa-Device-Name") (i.identity.device_id ∷ [])
            (or_empty c.additional_headers)));
    now_func = some time_now;
    with_ipv6 = not i.websocket.disable_v6;
    with_ipv4 = not i.websocket.disable_v4;
    once = i.websocket.once;
    retry_policy_factory = some i.websocket.retry_policy;
  }

  http_client-Passes :
      (config : G) (c : Ws G Q X D K L)
      → Passes
          (is_some (new_client config))
          (record c { http_client_config = single config })
          (http_client_with_force_sets new_client single config c)
  unfolding http_client_with_force_sets http_client
  http_client-Passes config c = elim (Option-cases (new_client config)) [
    | inl p ↦ rw (p, http_client) (passed refl refl)
    | inr (e, p) ↦ rw (p, http_client) (refused refl _ refl)
  ]

  module _ (listeners : List (Option (Setting (Ws G Q X D K L)))) (i : WsIn G Q X D)
      (c end : Ws G Q X D K L) (rest : PassesAll [] end (set_config i c) listeners) where
    pub config_opts-PassesAll : PassesAll (tests new_client i) end c (config_opts i ++ listeners)
    unfolding device_id fetch_url_timeout fetch_url inactivity_timeout ping_write_timeout
        send_timeout keep_alive_interval max_message_bytes convey_decorator now_func retry_policy
    config_opts-PassesAll = PassesAll-test (Passes-if misconfigured _) (
        PassesAll-test (Passes-if misconfigured _) (
          PassesAll-set refl (
            PassesAll-test (Passes-if misconfigured _) (
              PassesAll-test (Passes-if misconfigured _) (
                PassesAll-test (Passes-if misconfigured _) (
                  PassesAll-test (Passes-if misconfigured _) (
                    PassesAll-test (http_client-Passes i.websocket.http_client _) (
                      PassesAll-test (Passes-if misconfigured _) (
                        PassesAll-set refl (
                          PassesAll-set
                            (additional_headers-set canonical i.websocket.additional_headers _ _
                              refl)
                            (PassesAll-set refl (
                              PassesAll-set refl (
                                PassesAll-set refl
                                  (PassesAll-set refl (PassesAll-set refl rest)))))))))))))))
