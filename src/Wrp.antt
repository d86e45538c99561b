-- ===== src/Wrp.antt =====
-- The WRP messages that every part of the agent passes on, the errors that its functions return, and
-- the interface of its message handlers (internal/wrpkit/handler.go).
-- The type wrp.Message is that of the package wrp-go: the record has the fields that the agent reads
-- or writes. An absent pointer, such as a nil Status, is `none`, and a nil slice is the empty one.
use xmidt_agent.Base.{ℕ, Bool, true, false, ◌||◌, Option, none, some, List, [], ◌∷◌, Text}
use xmidt_agent.Base.Dict.{Dict}

-- The message types that the agent's code names; `other` holds all the rest.
pub data MessageType : Type 0 where
  invalid0 invalid1 authorization service_registration service_alive update : MessageType
  other : ℕ → MessageType

pub record Message : Type 0 where
  pub msg_type : MessageType
  pub source : Text
  pub destination : Text
  pub transaction_uuid : Text
  pub content_type : Text
  pub partner_ids : List Text
  pub path : Text
  pub service_name : Text
  pub url : Text
  pub metadata : Dict Text
  pub payload : Text
  pub status : Option ℕ
  pub request_delivery_response : Option ℕ
  pub quality_of_service : ℕ

-- The error values that the agent's packages declare.
pub data Sentinel : Type 0 where
  not_handled invalid_input unauthorized : Sentinel
  max_message_bytes misconfigured_qos qos_has_shutdown priority_type_invalid : Sentinel
  publish_timeout no_service : Sentinel
  invalid_file_input unable_to_read_file invalid_response_payload : Sentinel
  not_directory invalid_sha is_dir : Sentinel
  not_exist permission invalid : Sentinel
  no_token token_expired nil_request fetch_failed fetch_not_attempted : Sentinel
  invalid_jwt unsupported_alg closed invalid_msg_type misconfigured_ws : Sentinel
  closed_pipe eof websocket_config wrp_handler_config invalid_config : Sentinel

-- A non-nil error: one of the above, one of code outside the agent, or several joined. The text
-- that fmt.Errorf wraps around an error is left out.
pub data Error : Type 0 where
  sentinel : Sentinel → Error
  foreign : ℕ → Error
  joined : Error → Error → Error

-- errors.Join of two errors, either of which may be nil
abbrev pub join : Option Error → Option Error → Option Error
join none f = f
join (some e) none = some e
join (some e) (some f) = some (joined e f)

abbrev pub is_not_handled_sentinel : Sentinel → Bool
is_not_handled_sentinel not_handled = true
is_not_handled_sentinel _ = false

-- errors.Is(err, wrpkit.ErrNotHandled)
abbrev pub is_not_handled : Error → Bool
is_not_handled (sentinel s) = is_not_handled_sentinel s
is_not_handled (foreign n) = false
is_not_handled (joined e f) = is_not_handled e || is_not_handled f

-- wrpkit.Handler: it may change the world `W` around it, and returns an error or nil.
abbrev pub Handler : Type 0 → Type 0
Handler W = Message → W → Option Error × W

-- A handler that records what it is given, and answers by `f`.
abbrev pub recorder : (Message → Option Error) → Handler (List Message)
recorder f m w = (f m, m ∷ w)

abbrev pub blank : Message
blank = record {
  msg_type = MessageType.other 3;
  source = [];
  destination = [];
  transaction_uuid = [];
  content_type = [];
  partner_ids = [];
  path = [];
  service_name = [];
  url = [];
  metadata = [];
  payload = [];
  status = none;
  request_delivery_response = none;
  quality_of_service = 0;
}
