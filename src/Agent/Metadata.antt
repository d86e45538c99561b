-- ===== src/Agent/Metadata.antt =====
-- cmd/xmidt-agent/metadata.go and network_service.go: the metadata from the configuration.
-- `interfaces` is what the system's network interfaces are, `print_time` the String of a time.Time, and
-- `seconds` as in Metadata.
use xmidt_agent.Base.{Option, some, List, [], ◌∷◌, Text}
use xmidt_agent.Base.Int.{ℤ}
use xmidt_agent.Net.{Result, ok, failed, Interface, get_interface_names}
use xmidt_agent.Setup.{Applied, applied, rejected}
use xmidt_agent.Metadata.{
  MetadataProvider, Setting, network_service_opt, fields_opt, serial_number_opt, hardware_model_opt,
  manufacturer_opt, firmware_opt, last_reboot_reason_opt, xmidt_protocol_opt, boot_time_opt,
  boot_retry_wait_opt, interface_used_opt, new,
}
use xmidt_agent.Agent.Config.{Identity, OperationalState, Metadata, NetworkService}
use xmidt_agent.Agent.Credentials.{xmidt_protocol_name, second}

-- metadataIn, without the network service
pub record MetadataIn (T : Type 0) : Type 0 where
  pub id : Identity
  pub ops : OperationalState T
  pub metadata : Metadata

-- provideNetworkService: what GetInterfaceNames of the service returns
unfoldable pub provide_network_service :
    NetworkService → Result (List Interface) → Result (List Text)
provide_network_service c interfaces = get_interface_names c.allowed_interfaces interfaces

abbrev pub of_metadata : {A : Type 0} → Result A → Applied A
of_metadata (ok a) = applied a
of_metadata (failed e) = rejected e

module _ {T : Type 0} (seconds : ℤ → Text) (print_time : T → Text) where
  abbrev pub metadata_options : Result (List Text) → MetadataIn T → List (Option Setting)
  metadata_options names i =
      some (network_service_opt (some names))
      ∷ some (fields_opt i.metadata.fields)
      ∷ some (serial_number_opt i.id.serial_number)
      ∷ some (hardware_model_opt i.id.hardware_model)
      ∷ some (manufacturer_opt i.id.hardware_manufacturer)
      ∷ some (firmware_opt i.id.firmware_version)
      ∷ some (last_reboot_reason_opt i.ops.last_reboot_reason)
      ∷ some (xmidt_protocol_opt xmidt_protocol_name)
      ∷ some (boot_time_opt (print_time i.ops.boot_time))
      ∷ some (boot_retry_wait_opt second)
      ∷ some (interface_used_opt i.ops.webpa_interface_used)
      ∷ []

  unfoldable pub provide_metadata_provider :
      Result (List Text) → MetadataIn T → Applied MetadataProvider
  provide_metadata_provider names i = of_metadata (new seconds (metadata_options names i))
