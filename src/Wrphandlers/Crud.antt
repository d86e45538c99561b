-- ===== src/Wrphandlers/Crud.antt =====
-- internal/wrphandlers/xmidt_agent_crud/handler.go: requests that change the agent's log level.
-- Parameters are what the code takes from elsewhere: `unmarshal_json` is json.Unmarshal into a map
-- of texts, `error_text` the Error method, `parse_duration` time.ParseDuration (a negative duration,
-- whose timer fires at once, is 0), and `unmarshal_level` zap's UnmarshalText.
pub mod Report
use xmidt_agent.Base.{
  ℕ, ◌*◌, Bool, true, false, Option, some, none, ◌++◌, Text, codes, eq_text, ◌==◌, if◌then◌else◌,
}
use xmidt_agent.Base.Dict.{Dict}
use xmidt_agent.Base.Dict
use xmidt_agent.Wrp.{Message, MessageType, update, Handler, Error}
use xmidt_agent.Loglevel.{LogLevelService, Unmarshalled, set_level}

abbrev pub default_log_level_change_duration : ℕ
default_log_level_change_duration = 30 * (60 * 1000000000)

abbrev pub status_ok : ℕ
status_ok = 200

abbrev pub bad_request : ℕ
bad_request = 400

abbrev pub internal_server_error : ℕ
internal_server_error = 500

pub data Decoded : Type 0 where
  decoded : Dict Text → Decoded
  undecodable : Error → Decoded

pub record Environment (Level : Type 0) : Type 0 where
  pub unmarshal_json : Text → Decoded
  pub error_text : Error → Text
  pub parse_duration : Text → Option ℕ
  pub unmarshal_level : Text → Unmarshalled Level

-- a missing key of a map reads as the empty text
unfoldable pub text_at : Text → Dict Text → Text
text_at k m = elim (Dict.lookup k m) [ none ↦ codes "" | some v ↦ v ]

abbrev pub is_update : MessageType → Bool
is_update update = true
is_update _ = false

module _ {Level : Type 0} (env : Environment Level) where
  -- changeLogLevel
  unfoldable pub change_log_level :
      ℕ → LogLevelService Level → Dict Text → Option Error × LogLevelService Level
  change_log_level now s payload =
      let duration : ℕ = elim (env.parse_duration (text_at (codes "duration") payload)) [
        | none ↦ default_log_level_change_duration
        | some d ↦ d
      ] in
      set_level env.unmarshal_level now s (text_at (codes "loglevel") payload) duration

  -- update: the status, the error and the log level service
  unfoldable pub update_path :
      ℕ → LogLevelService Level → Text → Dict Text → ℕ × Option Error × LogLevelService Level
  update_path now s path payload =
      let (err, s') = change_log_level now s payload in
      if eq_text path (codes "loglevel")
      then (elim err [ some e ↦ (bad_request, some e, s') | none ↦ (status_ok, none, s') ])
      else (bad_request, none, s)

  unfoldable pub body : Text → Option Error → Text
  body status err =
      codes "{statusCode: "
      ++ status
      ++ codes ", message: \""
      ++ (elim err [ none ↦ codes "" | some e ↦ env.error_text e ])
      ++ codes "\"}"

  abbrev pub digits : ℕ → Text
  digits status = if status == status_ok then codes "200" else codes "400"

  -- the request's status, error and log level service, before the response is made
  unfoldable pub serve :
      ℕ → LogLevelService Level → Message → Dict Text → ℕ × Option Error × LogLevelService Level
  serve now s msg payload =
      let updated = update_path now s msg.path payload in
      if is_update msg.msg_type then updated else (bad_request, none, s)

  unfoldable pub response : Text → Message → ℕ → Text → Message
  response source msg status payload = record msg {
    destination = msg.source;
    source = source;
    content_type = codes "application/json";
    status = some status;
    payload = payload;
  }

  -- the status and the payload of the response, and the log level service
  unfoldable pub answer : ℕ → LogLevelService Level → Message → ℕ × Text × LogLevelService Level
  answer now s msg = elim (env.unmarshal_json msg.payload) [
    | undecodable e ↦ (internal_server_error, body (codes "500") (some e), s)
    | decoded payload ↦
        let (status, err, s') = serve now s msg payload in (status, body (digits status) err, s')
  ]

  -- HandleWrp: both of its calls of the egress send the response.
  unfoldable pub handle_wrp :
      {W : Type 0}
      → ℕ
      → Text
      → Handler W
      → LogLevelService Level
      → Message
      → W
      → Option Error × LogLevelService Level × W
  handle_wrp now source egress s msg w =
      let (status, payload, s') = answer now s msg in
      let (sent, w') = egress (response source msg status payload) w in (sent, s', w')
