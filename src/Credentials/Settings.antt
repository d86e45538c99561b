-- ===== src/Credentials/Settings.antt =====
-- internal/credentials/options.go, internal_options.go and New of credentials.go: the configuration.
-- Parameters: `F` with `lt_f`, `is_zero_f`, `zero_f`, `hundred_f` and `ninety_f` for float64; `H`, `S`, `K` and
-- `L` for the HTTP clients, file systems, clocks and listeners, with the defaults of net/http and
-- time. A nil client, clock or function is `none`. A call of a function may give another text each
-- time: the number is that of the call.
pub mod Complete
use xmidt_agent.Base.{
  ℕ, zero, suc, Bool, true, false, ◌||◌, Option, some, none, List, [], ◌∷◌, ◌++◌, Text, is_empty,
  if◌then◌else◌,
}
use xmidt_agent.Base.Int.{ℤ, pos, negsuc}
use xmidt_agent.Wrp.{sentinel, invalid_input}
use xmidt_agent.Setup.{Applied, applied, rejected, Setting, apply_all, reject_each}

abbrev pub or_default : {A : Type 0} → A → Option A → A
or_default d none = d
or_default d (some a) = a

-- `d == 0` on a time.Duration
abbrev pub is_zero_duration : ℤ → Bool
is_zero_duration (pos zero) = true
is_zero_duration _ = false

-- The fields of Credentials that New and the options set.
pub record Config (F H S K L : Type 0) : Type 0 where
  pub url : Text
  pub refetch_percent : F
  pub assumed_lifetime : ℤ
  pub ignore_body : Bool
  pub required : Bool
  pub fs : Option S
  pub filename : Text
  pub perm : ℕ
  pub client : H
  pub mac_address : Text
  pub serial_number : Text
  pub hardware_model : Text
  pub hardware_manufacturer : Text
  pub firmware_version : Text
  pub last_reboot_reason : Text
  pub xmidt_protocol : Text
  pub boot_retry_wait : ℤ
  pub last_reconnect_reason : ℕ → Text
  pub partner_id : ℕ → Text
  pub now_func : K
  pub fetch_listeners : List L
  pub decorate_listeners : List L

module _ {F H S K L : Type 0} where
  abbrev pub url : Text → Setting (Config F H S K L)
  url t c = applied (record c { url = t })

  abbrev pub assumed_lifetime : ℤ → Setting (Config F H S K L)
  assumed_lifetime d c = applied (record c { assumed_lifetime = d })

  abbrev pub ignore_body : Setting (Config F H S K L)
  ignore_body c = applied (record c { ignore_body = true })

  abbrev pub required : Setting (Config F H S K L)
  required c = applied (record c { required = true })

  abbrev pub local_storage : Option S → Text → ℕ → Setting (Config F H S K L)
  local_storage fs filename perm c =
      applied (record c { fs = fs; filename = filename; perm = perm })

  abbrev pub mac_address : Text → Setting (Config F H S K L)
  mac_address t c = applied (record c { mac_address = t })

  abbrev pub serial_number : Text → Setting (Config F H S K L)
  serial_number t c = applied (record c { serial_number = t })

  abbrev pub hardware_model : Text → Setting (Config F H S K L)
  hardware_model t c = applied (record c { hardware_model = t })

  abbrev pub hardware_manufacturer : Text → Setting (Config F H S K L)
  hardware_manufacturer t c = applied (record c { hardware_manufacturer = t })

  abbrev pub firmware_version : Text → Setting (Config F H S K L)
  firmware_version t c = applied (record c { firmware_version = t })

  abbrev pub last_reboot_reason : Text → Setting (Config F H S K L)
  last_reboot_reason t c = applied (record c { last_reboot_reason = t })

  abbrev pub xmidt_protocol : Text → Setting (Config F H S K L)
  xmidt_protocol t c = applied (record c { xmidt_protocol = t })

  abbrev pub boot_retry_wait : ℤ → Setting (Config F H S K L)
  boot_retry_wait d c = applied (record c { boot_retry_wait = d })

  abbrev pub last_reconnect_reason : Option (ℕ → Text) → Setting (Config F H S K L)
  last_reconnect_reason f c = applied (record c { last_reconnect_reason = or_default (λ n. []) f })

  abbrev pub partner_id : Option (ℕ → Text) → Setting (Config F H S K L)
  partner_id f c = applied (record c { partner_id = or_default (λ n. []) f })

  abbrev pub add_fetch_listener : L → Setting (Config F H S K L)
  add_fetch_listener l c = applied (record c { fetch_listeners = c.fetch_listeners ++ l ∷ [] })

  abbrev pub add_decorate_listener : L → Setting (Config F H S K L)
  add_decorate_listener l c =
      applied (record c { decorate_listeners = c.decorate_listeners ++ l ∷ [] })

  -- internal_options.go: what each check rejects
  abbrev pub lacks_url : Config F H S K L → Bool
  lacks_url c = is_empty c.url

  abbrev pub lacks_mac_address : Config F H S K L → Bool
  lacks_mac_address c = is_empty c.mac_address

  abbrev pub lacks_serial_number : Config F H S K L → Bool
  lacks_serial_number c = is_empty c.serial_number

  abbrev pub lacks_hardware_model : Config F H S K L → Bool
  lacks_hardware_model c = is_empty c.hardware_model

  abbrev pub lacks_hardware_manufacturer : Config F H S K L → Bool
  lacks_hardware_manufacturer c = is_empty c.hardware_manufacturer

  abbrev pub lacks_firmware_version : Config F H S K L → Bool
  lacks_firmware_version c = is_empty c.firmware_version

  abbrev pub lacks_last_reboot_reason : Config F H S K L → Bool
  lacks_last_reboot_reason c = is_empty c.last_reboot_reason

  abbrev pub lacks_xmidt_protocol : Config F H S K L → Bool
  lacks_xmidt_protocol c = is_empty c.xmidt_protocol

  abbrev pub lacks_boot_retry_wait : Config F H S K L → Bool
  lacks_boot_retry_wait c = is_zero_duration c.boot_retry_wait

  -- the checks that New requires, in order
  abbrev pub validators : List (Config F H S K L → Bool)
  validators =
      lacks_url ∷ lacks_mac_address ∷ lacks_serial_number ∷ lacks_hardware_model
      ∷ lacks_hardware_manufacturer ∷ lacks_firmware_version ∷ lacks_last_reboot_reason
      ∷ lacks_xmidt_protocol ∷ lacks_boot_retry_wait ∷ []

  abbrev pub http_client : H → Option H → Setting (Config F H S K L)
  http_client default_client client c =
      applied (record c { client = or_default default_client client })

  abbrev pub now_func : K → Option K → Setting (Config F H S K L)
  now_func time_now f c = applied (record c { now_func = or_default time_now f })

  module _ (zero_f hundred_f ninety_f : F) (lt_f : F → F → Bool) (is_zero_f : F → Bool) where
    unfoldable pub refetch_percent : F → Setting (Config F H S K L)
    refetch_percent percent c =
        if lt_f percent zero_f || lt_f hundred_f percent
        then rejected (sentinel invalid_input)
        else applied
            (record c { refetch_percent = if is_zero_f percent then ninety_f else percent })

  module _ (default_client : H) (time_now : K) (ninety_f : F) where
    abbrev pub defaults : Config F H S K L
    defaults = record {
      url = [];
      refetch_percent = ninety_f;
      assumed_lifetime = pos 0;
      ignore_body = false;
      required = false;
      fs = none;
      filename = [];
      perm = 0;
      client = default_client;
      mac_address = [];
      serial_number = [];
      hardware_model = [];
      hardware_manufacturer = [];
      firmware_version = [];
      last_reboot_reason = [];
      xmidt_protocol = [];
      boot_retry_wait = pos 0;
      last_reconnect_reason = λ n. [];
      partner_id = λ n. [];
      now_func = time_now;
      fetch_listeners = [];
      decorate_listeners = [];
    }

    unfoldable pub new : List (Option (Setting (Config F H S K L))) → Applied (Config F H S K L)
    new opts = apply_all (opts ++ reject_each (sentinel invalid_input) validators) defaults
