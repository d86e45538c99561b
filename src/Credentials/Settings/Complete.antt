-- ===== src/Credentials/Settings/Complete.antt =====
-- What New guarantees of the credentials service that it builds.
use xmidt_agent.Base.{◌≡◌, ◌↔◌, false, Option, List, is_empty, arith}
use xmidt_agent.Wrp.{sentinel, invalid_input}
use xmidt_agent.Setup.{applied, Setting, apply_all, some_holds, checked}
use xmidt_agent.Credentials.Settings.{Config, is_zero_duration, validators, defaults, new}

-- All that the requests tell the server of the device is there.
pub record IsComplete {F H S K L : Type 0} (c : Config F H S K L) : Type 0 where
  pub url : is_empty c.url ≡ false
  pub mac_address : is_empty c.mac_address ≡ false
  pub serial_number : is_empty c.serial_number ≡ false
  pub hardware_model : is_empty c.hardware_model ≡ false
  pub hardware_manufacturer : is_empty c.hardware_manufacturer ≡ false
  pub firmware_version : is_empty c.firmware_version ≡ false
  pub last_reboot_reason : is_empty c.last_reboot_reason ≡ false
  pub xmidt_protocol : is_empty c.xmidt_protocol ≡ false
  pub boot_retry_wait : is_zero_duration c.boot_retry_wait ≡ false

module _ {F H S K L : Type 0} where
  validators-IsComplete : (c : Config F H S K L) → (some_holds validators c ≡ false) ↔ IsComplete c
  validators-IsComplete c = (
    λ h. record {
      url = ground (arith, h);
      mac_address = ground (arith, h);
      serial_number = ground (arith, h);
      hardware_model = ground (arith, h);
      hardware_manufacturer = ground (arith, h);
      firmware_version = ground (arith, h);
      last_reboot_reason = ground (arith, h);
      xmidt_protocol = ground (arith, h);
      boot_retry_wait = ground (arith, h);
    },
    λ g. ground (
      arith, g.url, g.mac_address, g.serial_number, g.hardware_model, g.hardware_manufacturer,
      g.firmware_version, g.last_reboot_reason, g.xmidt_protocol, g.boot_retry_wait,
    ),
  )

  -- Whatever the options, New builds a service exactly if every option is applied without an error and
  -- what they make of the defaults is complete; and it is this that New builds.
  pub new-IsComplete :
      (client : H) (clock : K) (ninety_f : F) (opts : List (Option (Setting (Config F H S K L))))
      (c : Config F H S K L)
      → (new client clock ninety_f opts ≡ applied c)
        ↔ (apply_all opts (defaults client clock ninety_f) ≡ applied c) × IsComplete c
  unfolding new
  new-IsComplete client clock ninety_f opts c =
      let start = defaults client clock ninety_f in
      let (there, back) = checked (sentinel invalid_input) validators opts start c in
      (
        λ h. ((there h).0, (validators-IsComplete c).0 (there h).1),
        λ (p, g). back (p, (validators-IsComplete c).1 g),
      )
