-- ===== src/Agent/Credentials.antt =====
-- cmd/xmidt-agent/credentials.go: the credentials service from the configuration.
-- Parameters are those of Credentials/Settings, `new_client` for NewClient of arrangehttp, and `log_fetch`
-- for the listener that logs each fetch.
pub mod Carried
use xmidt_agent.Base.{
  ℕ, Bool, Option, some, none, List, [], ◌∷◌, ◌++◌, Text, codes, is_empty, if◌then◌else◌,
}
use xmidt_agent.Base.Int.{ℤ, pos}
use xmidt_agent.Fs.{Result, ok, failed}
use xmidt_agent.Setup.{Applied, applied, rejected, panicked, Setting}
use xmidt_agent.Credentials.Settings.{
  Config, url, http_client, mac_address, serial_number, hardware_model, hardware_manufacturer,
  firmware_version, partner_id, last_reboot_reason, xmidt_protocol, boot_retry_wait,
  refetch_percent, add_fetch_listener, local_storage, new,
}
use xmidt_agent.Agent.{◌>>=◌, of_result}
use xmidt_agent.Agent.Config.{XmidtCredentials, Identity, OperationalState}

abbrev pub xmidt_protocol_name : Text
xmidt_protocol_name = codes "protocol"

abbrev pub second : ℤ
second = pos 1000000000

-- credsIn, without the logger and the lifecycle; no durable file system is `none`.
pub record CredsIn (G F S T : Type 0) : Type 0 where
  pub creds : XmidtCredentials G F
  pub id : Identity
  pub ops : OperationalState T
  pub durable : Option S

-- credsOut; the hooks that start and stop the service are added exactly if there is one.
pub record CredsOut (C : Type 0) : Type 0 where
  pub creds : Option C
  pub wait_until_fetched : ℤ

abbrev pub no_credentials : {C : Type 0} → CredsOut C
no_credentials = record { creds = none; wait_until_fetched = pos 0 }

module _ {G F H S K L : Type 0} where
  -- the options for a durable file system
  abbrev pub storage_options :
      XmidtCredentials G F → Option S → List (Option (Setting (Config F H S K L)))
  storage_options creds none = []
  storage_options creds (some fs) =
      some (local_storage (some fs) creds.file_name creds.file_permissions) ∷ []

module _ {G F H S K L T : Type 0} (default_client : H) (time_now : K)
    (zero_f hundred_f ninety_f : F) (lt_f : F → F → Bool) (is_zero_f : F → Bool)
    (new_client : G → Result H) (log_fetch : L) where
  abbrev pub device_options : CredsIn G F S T → H → List (Option (Setting (Config F H S K L)))
  device_options i client =
      some (url i.creds.url)
      ∷ some (http_client default_client (some client))
      ∷ some (mac_address i.id.device_id)
      ∷ some (serial_number i.id.serial_number)
      ∷ some (hardware_model i.id.hardware_model)
      ∷ some (hardware_manufacturer i.id.hardware_manufacturer)
      ∷ some (firmware_version i.id.firmware_version)
      ∷ some (partner_id (some (λ n. i.id.partner_id)))
      ∷ some (last_reboot_reason i.ops.last_reboot_reason)
      ∷ some (xmidt_protocol xmidt_protocol_name)
      ∷ some (boot_retry_wait second)
      ∷ some (refetch_percent zero_f hundred_f ninety_f lt_f is_zero_f i.creds.refetch_percent)
      ∷ some (add_fetch_listener log_fetch)
      ∷ []

  -- Options; without a URL the slice is nil.
  unfoldable pub options :
      CredsIn G F S T → Result (Option (List (Option (Setting (Config F H S K L)))))
  options i = if is_empty i.creds.url then ok none else elim (new_client i.creds.http_client) [
    | failed e ↦ failed e
    | ok client ↦ ok (some (device_options i client ++ storage_options i.creds i.durable))
  ]

  -- what provideCredentials does with the options
  unfoldable pub provide_with :
      CredsIn G F S T
      → Option (List (Option (Setting (Config F H S K L))))
      → Applied (CredsOut (Config F H S K L))
  provide_with i none = applied no_credentials
  provide_with i (some opts) = do
    creds ← new default_client time_now ninety_f opts
    applied (record { creds = some creds; wait_until_fetched = i.creds.wait_until_fetched })

  unfoldable pub provide_credentials : CredsIn G F S T → Applied (CredsOut (Config F H S K L))
  provide_credentials i = of_result (options i) >>= provide_with i
