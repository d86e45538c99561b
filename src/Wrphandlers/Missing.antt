-- ===== src/Wrphandlers/Missing.antt =====
-- internal/wrphandlers/missing/handler.go: a response for a message that no handler took.
-- `requires_transaction` is the method MessageType.RequiresTransaction of wrp-go.
use xmidt_agent.Base.{ℕ, Bool, ◌||◌, not, some, none, Text, codes, is_empty, if◌then◌else◌}
use xmidt_agent.Wrp.{
  Message, MessageType, Handler, Error, sentinel, join, is_not_handled, invalid_input,
}

abbrev pub status_code : ℕ
status_code = 531

pub data Built : Type 0 where
  built : Text → Built
  failed : Error → Built

-- New, given whether the next handler and the egress are nil; the handler is its source.
unfoldable pub new : Bool → Bool → Text → Built
new next_is_nil egress_is_nil source =
    if next_is_nil || egress_is_nil || is_empty source
    then failed (sentinel invalid_input)
    else built source

unfoldable pub response : Text → Message → Message
response source msg = record msg {
  destination = msg.source;
  source = source;
  content_type = codes "application/json";
  status = some status_code;
  payload = codes "{statusCode: 531}";
}

-- HandleWrp
unfoldable pub handle_wrp :
    {W : Type 0} → (MessageType → Bool) → Text → Handler W → Handler W → Handler W
handle_wrp requires_transaction source next egress msg w =
    let (err, w') = next msg w in
    elim err [
      | none ↦ (none, w')
      | some e ↦
          if not (requires_transaction msg.msg_type)
          then (some e, w')
          else if not (is_not_handled e)
          then (some e, w')
          else (let (sent, w'') = egress (response source msg) w' in (join none sent, w''))
    ]
