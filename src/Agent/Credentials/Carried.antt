-- ===== src/Agent/Credentials/Carried.antt =====
-- Which credentials service the configuration gives, and when there is none.
use xmidt_agent.Base.{
  ◌≡◌, ◌↔◌, ◌⊎◌, inl, inr, refl, sym, ap, ◌∙◌, ◌||◌, ◌++◌, Bool, true, false, Option, some, none,
  List, [], ◌∷◌, is_empty, arith, Bool-cases, some-inj, if◌then◌else◌,
}
use xmidt_agent.Base.Int.{pos}
use xmidt_agent.Wrp.{Error, sentinel, invalid_input}
use xmidt_agent.Fs.{Result, ok, failed, Result-cases}
use xmidt_agent.Setup.{Applied, applied, rejected, Setting, apply_all}
use xmidt_agent.Credentials.Settings.{Config, defaults, new, refetch_percent}
use xmidt_agent.Credentials.Settings.Complete.{IsComplete, new-IsComplete}
use xmidt_agent.Agent.Config.{XmidtCredentials}
use xmidt_agent.Agent.{◌>>=◌}
use xmidt_agent.Agent.Results.{Applied-cases, ok-inj, guarded, bind_iff}
use xmidt_agent.Agent.Credentials.{
  CredsIn, CredsOut, no_credentials, second, xmidt_protocol_name, storage_options, device_options,
  options, provide_with, provide_credentials,
}

module _ {F : Type 0} (zero_f hundred_f : F) (lt_f : F → F → Bool) where
  abbrev pub is_out_of_range : F → Bool
  is_out_of_range percent = lt_f percent zero_f || lt_f hundred_f percent

-- The service with the storage, if there is a durable file system.
abbrev pub store_in :
    {G F H S K L : Type 0} → Option S → XmidtCredentials G F → Config F H S K L → Config F H S K L
store_in none creds c = c
store_in (some fs) creds c = record c {
  fs = some fs;
  filename = creds.file_name;
  perm = creds.file_permissions;
}

module _ {G F H S K L T : Type 0} (time_now : K) (ninety_f : F) (is_zero_f : F → Bool)
    (log_fetch : L) where
  -- The service without storage: what it tells the server is what is configured of the device.
  abbrev pub without_storage : CredsIn G F S T → H → Config F H S K L
  without_storage i client = record {
    url = i.creds.url;
    refetch_percent =
        if is_zero_f i.creds.refetch_percent then ninety_f else i.creds.refetch_percent;
    assumed_lifetime = pos 0;
    ignore_body = false;
    required = false;
    fs = none;
    filename = [];
    perm = 0;
    client = client;
    mac_address = i.id.device_id;
    serial_number = i.id.serial_number;
    hardware_model = i.id.hardware_model;
    hardware_manufacturer = i.id.hardware_manufacturer;
    firmware_version = i.id.firmware_version;
    last_reboot_reason = i.ops.last_reboot_reason;
    xmidt_protocol = xmidt_protocol_name;
    boot_retry_wait = second;
    last_reconnect_reason = λ n. [];
    partner_id = λ n. i.id.partner_id;
    now_func = time_now;
    fetch_listeners = log_fetch ∷ [];
    decorate_listeners = [];
  }

  abbrev pub configured : CredsIn G F S T → H → Config F H S K L
  configured i client = store_in i.durable i.creds (without_storage i client)

module _ {G F H S K L T : Type 0} (default_client : H) (time_now : K)
    (zero_f hundred_f ninety_f : F) (lt_f : F → F → Bool) (is_zero_f : F → Bool)
    (new_client : G → Result H) (log_fetch : L) where
  abbrev device : CredsIn G F S T → H → List (Option (Setting (Config F H S K L)))
  device =
      device_options default_client time_now zero_f hundred_f ninety_f lt_f is_zero_f new_client
        log_fetch

  stored-configured :
      (i : CredsIn G F S T) (client : H) (durable : Option S)
      → apply_all
          (device i client ++ storage_options i.creds durable)
          (defaults default_client time_now ninety_f)
        ≡ (if is_out_of_range zero_f hundred_f lt_f i.creds.refetch_percent
            then rejected (sentinel invalid_input)
            else applied (
                store_in durable i.creds
                  (without_storage time_now ninety_f is_zero_f log_fetch i client)))
  unfolding apply_all refetch_percent
  stored-configured i client none =
      elim (Bool-cases (is_out_of_range zero_f hundred_f lt_f i.creds.refetch_percent)) [
        | inl p ↦ rw (p, refetch_percent) refl
        | inr p ↦ rw (p, refetch_percent) refl
      ]
  stored-configured i client (some fs) =
      elim (Bool-cases (is_out_of_range zero_f hundred_f lt_f i.creds.refetch_percent)) [
        | inl p ↦ rw (p, refetch_percent) refl
        | inr p ↦ rw (p, refetch_percent) refl
      ]

  abbrev pub provided : CredsIn G F S T → Applied (CredsOut (Config F H S K L))
  provided =
      provide_credentials default_client time_now zero_f hundred_f ninety_f lt_f is_zero_f
        new_client log_fetch

  abbrev pub out : CredsIn G F S T → Config F H S K L → CredsOut (Config F H S K L)
  out i c = record { creds = some c; wait_until_fetched = i.creds.wait_until_fetched }

  abbrev pub built : CredsIn G F S T → Config F H S K L → Applied (CredsOut (Config F H S K L))
  built i c = applied (out i c)

  out-inj : (i : CredsIn G F S T) (b c : Config F H S K L) → out i b ≡ out i c → b ≡ c
  out-inj i b c p = some-inj b c (ap (λ (o : CredsOut (Config F H S K L)). o.creds) p)

  -- What is built of the options, once there is a client.
  abbrev given : CredsIn G F S T → H → Applied (CredsOut (Config F H S K L))
  given i client =
      new default_client time_now ninety_f (device i client ++ storage_options i.creds i.durable)
      >>= λ c. built i c

  provided_cases :
      (i : CredsIn G F S T)
      → (is_empty i.creds.url ≡ true) × (provided i ≡ applied no_credentials)
        ⊎ (is_empty i.creds.url ≡ false)
          × (((e : Error) × (new_client i.creds.http_client ≡ failed e) × (provided i ≡ rejected e))
              ⊎ ((client : H) × (new_client i.creds.http_client ≡ ok client)
                  × (provided i ≡ given i client)))
  unfolding provide_credentials options provide_with
  provided_cases i = elim (Bool-cases (is_empty i.creds.url)) [
    | inl p ↦ inl (p, rw (provide_credentials, options, p) refl)
    | inr p ↦ inr (
      p,
      elim (Result-cases (new_client i.creds.http_client)) [
        | inl (e, q) ↦ inl (e, q, rw (provide_credentials, options, p, q) refl)
        | inr (client, q) ↦ inr (client, q, rw (provide_credentials, options, p, q) refl)
      ],
    )
  ]

  given_iff :
      (i : CredsIn G F S T) (client : H) (c : Config F H S K L)
      → (given i client ≡ built i c)
        ↔ (is_out_of_range zero_f hundred_f lt_f i.creds.refetch_percent ≡ false)
          × IsComplete c
          × (c ≡ configured time_now ninety_f is_zero_f log_fetch i client)
  given_iff i client c =
      let opts = device i client ++ storage_options i.creds i.durable in
      let (there, back) = new-IsComplete default_client time_now ninety_f opts c in
      let (wrapped, unwrapped) =
        bind_iff (out i) (out-inj i) (new default_client time_now ninety_f opts) c in
      let made = stored-configured i client i.durable in
      (
        λ h.
            let (a, g) = there (wrapped h) in
            let (p, q) = guarded _ _ _ _ (sym made ∙ a) in (p, g, sym q),
        λ (p, g, q). unwrapped (back (made ∙ rw p (ap applied (sym q)), g)),
      )

  given-nil : (i : CredsIn G F S T) (client : H) → given i client ≡ applied no_credentials → ⊥
  given-nil i client h =
      elim (Applied-cases (
        new default_client time_now ninety_f
          (device i client ++ storage_options i.creds i.durable))) [
            | inl (c, p) ↦ ground (arith, h, p)
            | inr (inl (e, p)) ↦ ground (arith, h, p)
            | inr (inr p) ↦ ground (arith, h, p)
          ]

  -- There is no credentials service, and no error, exactly if no URL is configured. A service is built
  -- exactly if there is a URL, the HTTP client can be made, the percentage is in range, and nothing is
  -- empty of what the service tells the server of the device; it is then the one with the configured
  -- device, the storage if there is a durable file system, and 90 percent in place of zero.
  pub provide_credentials_correct :
      (i : CredsIn G F S T) (c : Config F H S K L)
      → ((provided i ≡ applied no_credentials) ↔ (is_empty i.creds.url ≡ true))
        × ((provided i ≡ built i c)
            ↔ (is_empty i.creds.url ≡ false)
              × ((client : H) × (new_client i.creds.http_client ≡ ok client)
                  × (is_out_of_range zero_f hundred_f lt_f i.creds.refetch_percent ≡ false)
                  × IsComplete c
                  × (c ≡ configured time_now ninety_f is_zero_f log_fetch i client)))
  provide_credentials_correct i c = elim (provided_cases i) [
    | inl (p, q) ↦
        ((λ _. p, λ _. q), (λ h. absurd (cc (sym q ∙ h)), λ (r, _). absurd (cc (sym p ∙ r))))
    | inr (p, inl (e, q, r)) ↦ (
      (λ h. absurd (cc (sym r ∙ h)), λ h. absurd (cc (sym p ∙ h))),
      (λ h. absurd (cc (sym r ∙ h)), λ (_, (client, s, _, _, _)). absurd (cc (sym q ∙ s))),
    )
    | inr (p, inr (client, q, r)) ↦ (
      (λ h. absurd (given-nil i client (sym r ∙ h)), λ h. absurd (cc (sym p ∙ h))),
      (
        λ h. let (a, g, b) = (given_iff i client c).0 (sym r ∙ h) in (p, (client, q, a, g, b)),
        λ (_, (client', q', a, g, b)).
            r
            ∙ (given_iff i client c).1 (
              a,
              g,
              b
                  ∙ ap (configured time_now ninety_f is_zero_f log_fetch i)
                      (ok-inj client' client (sym q' ∙ q)),
            ),
      ),
    )
  ]
