-- ===== src/Agent/Config.antt =====
-- cmd/xmidt-agent/config.go and the CLI of main.go: the configuration records.
-- Parameters: `G` for arrangehttp.ClientConfig, `Q` for retry.Config, `F` for float64, `T` for
-- time.Time. A duration is a number of nanoseconds. A slice whose being nil matters is an option.
use xmidt_agent.Base.{ℕ, Bool, Option, List, Text}
use xmidt_agent.Base.Int.{ℤ}
use xmidt_agent.Base.Dict.{Dict}
use xmidt_agent.Net.{AllowedInterface}
use xmidt_agent.Qos.Priority.{PriorityType}

pub record Cli : Type 0 where
  pub dev : Bool
  pub show : Bool
  pub default : Text
  pub graph : Text
  pub files : List Text

pub record LibParodus : Type 0 where
  pub parodus_service_url : Text
  pub keep_alive_interval : ℤ
  pub receive_timeout : ℤ
  pub send_timeout : ℤ

pub record Qos : Type 0 where
  pub max_queue_bytes : ℤ
  pub max_message_bytes : ℤ
  pub priority : PriorityType
  pub low_expires : ℤ
  pub medium_expires : ℤ
  pub high_expires : ℤ
  pub critical_expires : ℤ

pub record Pubsub : Type 0 where
  pub publish_timeout : ℤ

pub record Websocket (G Q : Type 0) : Type 0 where
  pub disable : Bool
  pub url_path : Text
  pub back_up_url : Text
  pub additional_headers : Dict (List Text)
  pub fetch_url_timeout : ℤ
  pub inactivity_timeout : ℤ
  pub ping_write_timeout : ℤ
  pub send_timeout : ℤ
  pub http_client : G
  pub keep_alive_interval : ℤ
  pub max_message_bytes : ℤ
  pub disable_v4 : Bool
  pub disable_v6 : Bool
  pub retry_policy : Q
  pub once : Bool

pub record Identity : Type 0 where
  pub device_id : Text
  pub serial_number : Text
  pub hardware_model : Text
  pub hardware_manufacturer : Text
  pub firmware_version : Text
  pub partner_id : Text

pub record OperationalState (T : Type 0) : Type 0 where
  pub last_reboot_reason : Text
  pub boot_time : T
  pub webpa_interface_used : Text

pub record XmidtCredentials (G F : Type 0) : Type 0 where
  pub url : Text
  pub http_client : G
  pub refetch_percent : F
  pub file_name : Text
  pub file_permissions : ℕ
  pub wait_until_fetched : ℤ

pub record Backoff : Type 0 where
  pub min_delay : ℤ
  pub max_delay : ℤ

pub record JwtTxtRedirector : Type 0 where
  pub allowed_algorithms : List Text
  pub timeout : ℤ
  pub pems : Option (List Text)
  pub pem_files : Option (List Text)

pub record XmidtService : Type 0 where
  pub url : Text
  pub backoff : Backoff
  pub jwt_txt_redirector : JwtTxtRedirector

pub record XmidtAgentCrud : Type 0 where
  pub service_name : Text

pub record Storage : Type 0 where
  pub temporary : Text
  pub durable : Text

pub record MockTr181 : Type 0 where
  pub file_path : Text
  pub enabled : Bool
  pub service_name : Text

pub record Metadata : Type 0 where
  pub fields : List Text

pub record NetworkService : Type 0 where
  pub allowed_interfaces : Dict AllowedInterface
