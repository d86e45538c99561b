-- ===== src/Wrphandlers/Logging.antt =====
-- internal/wrphandlers/logging/handler.go: a message is logged and passed on. The fields of the log
-- entry are modelled, their rendering by zap is not.
use xmidt_agent.Base.{
  ℕ, Bool, Option, some, none, List, [], ◌∷◌, Text, is_empty, length, if◌then◌else◌, ◌||◌,
}
use xmidt_agent.Wrp.{Message, MessageType, Handler, Error, sentinel, invalid_input}

-- A level of zapcore, by its number; zapcore.DebugLevel is the argument `debug_level` of `new`.
pub record Entry : Type 0 where
  pub level : ℕ
  pub msg_type : MessageType
  pub source : Text
  pub dest : Text
  pub partner_ids : List Text
  pub payload_size : ℕ
  pub transaction_uuid : Option Text

pub data Built : Type 0 where
  built : ℕ → Built
  failed : Error → Built

-- `level = append(level, zapcore.DebugLevel)` and `level[0]`
unfoldable pub first_level : ℕ → List ℕ → ℕ
first_level debug_level [] = debug_level
first_level debug_level (l ∷ ls) = l

-- New, given whether the next handler and the logger are nil
unfoldable pub new : ℕ → Bool → Bool → List ℕ → Built
new debug_level next_is_nil logger_is_nil levels =
    if next_is_nil || logger_is_nil
    then failed (sentinel invalid_input)
    else built (first_level debug_level levels)

unfoldable pub entry : ℕ → Message → Entry
entry level msg = record {
  level = level;
  msg_type = msg.msg_type;
  source = msg.source;
  dest = msg.destination;
  partner_ids = msg.partner_ids;
  payload_size = length msg.payload;
  transaction_uuid = if is_empty msg.transaction_uuid then none else some msg.transaction_uuid;
}

-- HandleWrp: `log` appends an entry to the world's log.
unfoldable pub handle_wrp : {W : Type 0} → (Entry → W → W) → ℕ → Handler W → Handler W
handle_wrp log level next msg w = next msg (log (entry level msg) w)
