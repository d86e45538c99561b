-- ===== src/Agent/Websocket/Ready.antt =====
-- Which websocket the configuration gives, and that it never panics on the way.
use xmidt_agent.Base.{
  ◌≡◌, ◌↔◌, ◌≢◌, inl, inr, refl, sym, ap, ◌∙◌, ◌||◌, ◌&&◌, ◌++◌, not, Bool, true, false, Option,
  some, none, List, [], ◌∷◌, Text, is_empty, arith, Bool-cases, some-inj,
}
use xmidt_agent.Wrp.{Error, sentinel, websocket_config}
use xmidt_agent.Fs.{Result}
use xmidt_agent.Setup.{Applied, applied, panicked, Setting, applied-inj, some_holds}
use xmidt_agent.Setup.Passes.{PassesAll, any_holds, PassesAll-nil, PassesAll-set, new-Passes}
use xmidt_agent.Websocket.Options.{credentials_decorator, misconfigured}
use xmidt_agent.Websocket.Settings.{defaults, new, validators}
use xmidt_agent.Agent.Results.{Hands, Hands-provider}
use xmidt_agent.Agent.Websocket.{
  WsIn, WsOut, Ws, cred_options, listener_options, ws_options, provide_ws,
}
use xmidt_agent.Agent.Websocket.Configured.{
  IsAccepted, tests, config_opts, set_config, config_opts-PassesAll,
}

module _ {G Q X D K L : Type 0} (join_path : Text → Text → Result Text)
    (new_client : G → Option Error) (single : G → G) (canonical : Text → Text) (time_now : K)
    (empty_decorator : D) (default_config : G)
    (log_message log_connect log_disconnect log_heartbeat : L) where
  abbrev with_config : WsIn G Q X D → Ws G Q X D K L → Ws G Q X D K L
  with_config = set_config join_path new_client single canonical time_now

  abbrev all_options : WsIn G Q X D → List (Option (Setting (Ws G Q X D K L)))
  all_options =
      ws_options join_path new_client single canonical time_now empty_decorator default_config
        log_message log_connect log_disconnect log_heartbeat

  abbrev start : Ws G Q X D K L
  start = defaults empty_decorator default_config

  -- Decorate of the credentials, if there are any
  abbrev pub set_decorator : Option D → Ws G Q X D K L → Ws G Q X D K L
  set_decorator none c = c
  set_decorator (some d) c = record c { cred_decorator = some d }

  -- and the listeners, in the development mode
  abbrev pub set_listeners : Bool → Ws G Q X D K L → Ws G Q X D K L
  set_listeners false c = c
  set_listeners true c = record c {
    msg_listeners = log_message ∷ [];
    connect_listeners = log_connect ∷ [];
    disconnect_listeners = log_disconnect ∷ [];
    heartbeat_listeners = log_heartbeat ∷ [];
  }

  -- The websocket of the configuration.
  abbrev pub configured : WsIn G Q X D → Ws G Q X D K L
  configured i = set_listeners i.dev (with_config i (set_decorator i.cred_decorate start))

  listeners-PassesAll :
      (dev : Bool) (i : WsIn G Q X D) (cred : Option D)
      → let c = with_config i (set_decorator cred start) in
        PassesAll []
          (set_listeners dev c)
          c
          (listener_options log_message log_connect log_disconnect log_heartbeat dev)
  listeners-PassesAll false i none = PassesAll-nil
  listeners-PassesAll false i (some d) = PassesAll-nil
  listeners-PassesAll true i none =
      PassesAll-set refl
        (PassesAll-set refl (PassesAll-set refl (PassesAll-set refl PassesAll-nil)))
  listeners-PassesAll true i (some d) =
      PassesAll-set refl
        (PassesAll-set refl (PassesAll-set refl (PassesAll-set refl PassesAll-nil)))

  all_options-PassesAll :
      (cred : Option D) (i : WsIn G Q X D)
      → PassesAll
          (tests new_client i)
          (set_listeners i.dev (with_config i (set_decorator cred start)))
          start
          (cred_options cred
            ++ config_opts join_path new_client single canonical time_now i
            ++ listener_options log_message log_connect log_disconnect log_heartbeat i.dev)
  unfolding credentials_decorator
  all_options-PassesAll none i =
      config_opts-PassesAll join_path new_client single canonical time_now _ i start _
        (listeners-PassesAll i.dev i none)
  all_options-PassesAll (some d) i = PassesAll-set refl (
      config_opts-PassesAll join_path new_client single canonical time_now _ i
        (set_decorator (some d) start) _ (listeners-PassesAll i.dev i (some d)))

  abbrev checks : WsIn G Q X D → Bool
  checks i = any_holds (tests new_client i) || some_holds validators (configured i)

  -- Of the checks of New, those of the device id and of the IP mode can still fail.
  abbrev late_checks : WsIn G Q X D → Bool
  late_checks i =
      is_empty i.identity.device_id
      || not (not i.websocket.disable_v4) && not (not i.websocket.disable_v6)

  validators_lem :
      (dev : Bool) (cred : Option D) (i : WsIn G Q X D)
      → some_holds validators (set_listeners dev (with_config i (set_decorator cred start)))
        ≡ late_checks i
  validators_lem false none i = ground arith
  validators_lem false (some d) i = ground arith
  validators_lem true none i = ground arith
  validators_lem true (some d) i = ground arith

  checks_lem : (i : WsIn G Q X D) → checks i ≡ (any_holds (tests new_client i) || late_checks i)
  checks_lem i =
      ap (λ b. any_holds (tests new_client i) || b) (validators_lem i.dev i.cred_decorate i)

  checks-IsAccepted : (i : WsIn G Q X D) → (checks i ≡ false) ↔ IsAccepted new_client i
  checks-IsAccepted i = rw (checks_lem i) (
    λ h. record {
      device_id = ground (arith, h);
      fetch_url_timeout = ground (arith, h);
      inactivity_timeout = ground (arith, h);
      ping_write_timeout = ground (arith, h);
      send_timeout = ground (arith, h);
      keep_alive_interval = ground (arith, h);
      http_client = ground (arith, h);
      max_message_bytes = ground (arith, h);
      ip_mode = ground (arith, h);
    },
    λ a. ground (
      arith, a.device_id, a.fetch_url_timeout, a.inactivity_timeout, a.ping_write_timeout,
      a.send_timeout, a.keep_alive_interval, a.http_client, a.max_message_bytes, a.ip_mode,
    ),
  )

  abbrev pub provided : WsIn G Q X D → Applied (WsOut (Ws G Q X D K L))
  provided =
      provide_ws join_path new_client single canonical time_now empty_decorator default_config
        log_message log_connect log_disconnect log_heartbeat

  abbrev pub out : WsIn G Q X D → Ws G Q X D K L → WsOut (Ws G Q X D K L)
  out i c = record { ws = some c; cancels = i.dev }

  out-inj : (i : WsIn G Q X D) (b c : Ws G Q X D K L) → out i b ≡ out i c → b ≡ c
  out-inj i b c p = some-inj b c (ap (λ (o : WsOut (Ws G Q X D K L)). o.ws) p)

  enabled-Hands :
      (i : WsIn G Q X D)
      → i.websocket.disable ≡ false
      → Hands (out i) (checks i) (configured i) (provided i)
  unfolding provide_ws new
  enabled-Hands i p = rw p (
      Hands-provider (out i) (out-inj i) (sentinel websocket_config) (
        new-Passes misconfigured validators (all_options i)
          (all_options-PassesAll i.cred_decorate i)))

  disabled :
      (i : WsIn G Q X D)
      → i.websocket.disable ≡ true
      → provided i ≡ applied (record { ws = none; cancels = false })
  unfolding provide_ws
  disabled i p = rw p refl

  none-out :
      (i : WsIn G Q X D) (c : Ws G Q X D K L)
      → applied (record { ws = none; cancels = false }) ≡ applied (out i c)
      → ⊥
  none-out i c h = cc (ap (λ (o : WsOut (Ws G Q X D K L)). o.ws) (applied-inj _ _ h))

  -- Building the websocket never panics, whatever the configuration. A websocket that is not disabled
  -- is built exactly if there is a device id, an IP mode is allowed, no duration nor limit is negative
  -- and the HTTP client can be made; and it is then the one that is configured.
  pub provide_ws_correct :
      (i : WsIn G Q X D)
      → (provided i ≢ panicked)
        × ((c : Ws G Q X D K L)
            → (provided i ≡ applied (out i c))
              ↔ (i.websocket.disable ≡ false) × IsAccepted new_client i × (c ≡ configured i))
  unfolding provide_ws
  provide_ws_correct i = elim (Bool-cases i.websocket.disable) [
    | inl p ↦ (
      λ h. absurd (cc (sym (disabled i p) ∙ h)),
      λ c. (
        λ h. absurd (none-out i c (sym (disabled i p) ∙ h)),
        λ (q, _, _). absurd (cc (sym p ∙ q)),
      ),
    )
    | inr p ↦
        let (calm, hands) = enabled-Hands i p in
        (
          calm,
          λ c. (
            λ h. let (a, b) = (hands c).0 h in (p, (checks-IsAccepted i).0 a, b),
            λ (_, a, b). (hands c).1 ((checks-IsAccepted i).1 a, b),
          ),
        )
  ]
