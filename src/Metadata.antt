-- ===== src/Metadata.antt =====
-- internal/metadata/metadata.go and options.go: what the agent tells of the device, in a header and
-- in the metadata of messages.
-- `interface_names` is what GetInterfaceNames of the network service returns; a nil service is `none`,
-- and the call of its method panics. `marshal` is json.Marshal, `encode` is base64's EncodeToString, and
-- `seconds` prints a duration's seconds. A header is a map from names to texts, of which http.Header.Set
-- replaces one; it is not nil.
pub mod Fields
use xmidt_agent.Base.{
  ℕ, Bool, true, false, ◌||◌, not, Option, some, none, List, [], ◌∷◌, Text, codes, eq_text,
  if◌then◌else◌,
}
use xmidt_agent.Base.Int.{ℤ}
use xmidt_agent.Base.Dict.{Dict}
use xmidt_agent.Base.Dict
use xmidt_agent.Base.Run.{◌>>=◌}
use xmidt_agent.Wrp.{Message, Error, sentinel, invalid_input}
use xmidt_agent.Net.{Result, ok, failed}
use xmidt_agent.Wrphandlers.Auth.{join_text}

abbrev pub header_name : Text
header_name = codes "X-Webpa-Convey"

-- the names of the fields
abbrev pub firmware_field : Text
firmware_field = codes "fw-name"

abbrev pub hardware_field : Text
hardware_field = codes "hw-model"

abbrev pub manufacturer_field : Text
manufacturer_field = codes "hw-manufacturer"

abbrev pub serial_number_field : Text
serial_number_field = codes "hw-serial-number"

abbrev pub last_reboot_reason_field : Text
last_reboot_reason_field = codes "hw-last-reboot-reason"

abbrev pub protocol_field : Text
protocol_field = codes "webpa-protocol"

abbrev pub boot_time_field : Text
boot_time_field = codes "boot-time"

abbrev pub boot_time_retry_delay_field : Text
boot_time_retry_delay_field = codes "boot-time-retry-wait"

abbrev pub interface_used_field : Text
interface_used_field = codes "webpa-interface-used"

abbrev pub interfaces_available_field : Text
interfaces_available_field = codes "interfaces-available"

abbrev pub valid_fields : List Text
valid_fields =
    firmware_field ∷ hardware_field ∷ serial_number_field ∷ manufacturer_field
    ∷ last_reboot_reason_field ∷ protocol_field ∷ boot_time_field ∷ boot_time_retry_delay_field
    ∷ interface_used_field ∷ interfaces_available_field ∷ []

pub record MetadataProvider : Type 0 where
  pub interface_names : Option (Result (List Text))
  pub fields : List Text
  pub firmware : Text
  pub hardware : Text
  pub manufacturer : Text
  pub serial_number : Text
  pub last_reboot_reason : Text
  pub protocol : Text
  pub boot_time : Text
  pub boot_time_retry_delay : Text
  pub interface_used : Text

pub data Setting : Type 0 where
  network_service_opt : Option (Result (List Text)) → Setting
  fields_opt : List Text → Setting
  serial_number_opt hardware_model_opt firmware_opt manufacturer_opt : Text → Setting
  last_reboot_reason_opt xmidt_protocol_opt boot_time_opt : Text → Setting
  boot_retry_wait_opt : ℤ → Setting
  interface_used_opt : Text → Setting

abbrev is_field : List Text → Text → Bool
is_field [] field = false
is_field (f ∷ fs) field = eq_text field f || is_field fs field

-- the loop of FieldsOpt
unfoldable pub are_valid : List Text → Bool
are_valid [] = true
are_valid (field ∷ fields) =
    let rest = are_valid fields in if not (is_field valid_fields field) then false else rest

module _ (seconds : ℤ → Text) where
  unfoldable pub apply : Setting → MetadataProvider → Option Error × MetadataProvider
  apply (network_service_opt none) c = (some (sentinel invalid_input), c)
  apply (network_service_opt (some names)) c = (none, record c { interface_names = some names })
  apply (fields_opt fields) c =
      if are_valid fields
      then (none, record c { fields = fields })
      else (some (sentinel invalid_input), c)
  apply (serial_number_opt t) c = (none, record c { serial_number = t })
  apply (hardware_model_opt t) c = (none, record c { hardware = t })
  apply (firmware_opt t) c = (none, record c { firmware = t })
  apply (manufacturer_opt t) c = (none, record c { manufacturer = t })
  apply (last_reboot_reason_opt t) c = (none, record c { last_reboot_reason = t })
  apply (xmidt_protocol_opt t) c = (none, record c { protocol = t })
  apply (boot_time_opt t) c = (none, record c { boot_time = t })
  apply (boot_retry_wait_opt d) c = (none, record c { boot_time_retry_delay = seconds d })
  apply (interface_used_opt t) c = (none, record c { interface_used = t })

  unfoldable pub apply_all : List (Option Setting) → MetadataProvider → Result MetadataProvider
  apply_all [] c = ok c
  apply_all (none ∷ opts) c = apply_all opts c
  apply_all (some opt ∷ opts) c =
      let (err, c') = apply opt c in
      let rest = apply_all opts c' in elim err [ some e ↦ failed e | none ↦ rest ]

  -- New
  unfoldable pub new : List (Option Setting) → Result MetadataProvider
  new opts = apply_all opts (record {
    interface_names = none;
    fields = [];
    firmware = [];
    hardware = [];
    manufacturer = [];
    serial_number = [];
    last_reboot_reason = [];
    protocol = [];
    boot_time = [];
    boot_time_retry_delay = [];
    interface_used = [];
  })

-- What the switch of GetMetadata sets for a field: a text, or nothing. A `none` is a panic.
unfoldable pub value_of : MetadataProvider → Text → Option (Option Text)
value_of c field =
    if eq_text firmware_field field
    then some (some c.firmware)
    else if eq_text hardware_field field
    then some (some c.hardware)
    else if eq_text manufacturer_field field
    then some (some c.manufacturer)
    else if eq_text serial_number_field field
    then some (some c.serial_number)
    else if eq_text last_reboot_reason_field field
    then some (some c.last_reboot_reason)
    else if eq_text protocol_field field
    then some (some c.protocol)
    else if eq_text boot_time_field field
    then some (some c.boot_time)
    else if eq_text boot_time_retry_delay_field field
    then some (some c.boot_time_retry_delay)
    else if eq_text interface_used_field field
    then some (some c.interface_used)
    else if eq_text interfaces_available_field field
    then (elim c.interface_names [
      | none ↦ none
      | some (failed e) ↦ some none
      | some (ok names) ↦ some (some (join_text (codes ",") names))
    ])
    else some none

abbrev pub set_field : Text → Option Text → Dict Text → Dict Text
set_field field none header = header
set_field field (some v) header = Dict.insert field v header

-- the loop of GetMetadata
unfoldable pub collect : MetadataProvider → List Text → Dict Text → Option (Dict Text)
collect c [] header = some header
collect c (field ∷ fields) header =
    value_of c field >>= λ v. collect c fields (set_field field v header)

unfoldable pub get_metadata : MetadataProvider → Option (Dict Text)
get_metadata c = collect c c.fields []

-- Decorate, on the headers
unfoldable pub decorate :
    (Dict Text → Result Text)
    → (Text → Text)
    → MetadataProvider
    → Dict Text
    → Option (Option Error × Dict Text)
decorate marshal encode c headers = get_metadata c >>= λ header. (elim (marshal header) [
  | failed e ↦ some (some e, headers)
  | ok bytes ↦ some (none, Dict.insert header_name (encode bytes) headers)
])

-- the loop of DecorateMsg
unfoldable pub copy_all : Dict Text → Dict Text → Dict Text
copy_all [] metadata = metadata
copy_all ((key, value) ∷ header) metadata = copy_all header (Dict.insert key value metadata)

-- DecorateMsg, which always returns nil
unfoldable pub decorate_msg : MetadataProvider → Message → Option Message
decorate_msg c msg =
    get_metadata c >>= λ header. some (record msg { metadata = copy_all header msg.metadata })
