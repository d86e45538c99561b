-- ===== src/Wrphandlers/Mocktr181/Handle.antt =====
-- HandleWrp and proccessCommand (internal/wrphandlers/mocktr181/handler.go).
use xmidt_agent.Base.{
  ℕ, Option, some, none, List, ◌++◌, Text, codes, eq_text, is_empty, if◌then◌else◌,
}
use xmidt_agent.Wrp.{
  Message, Handler, Error, sentinel, joined, not_handled, invalid_response_payload,
}
use xmidt_agent.Wrphandlers.Mocktr181.{
  status_failed, get, set_parameters, MockParameter, Tr181Payload,
}

-- json.Unmarshal of a request into a pointer, which the text "null" makes nil
pub data Unmarshalled (Value : Type 0) : Type 0 where
  request : Tr181Payload Value → Unmarshalled Value
  null_request : Unmarshalled Value
  malformed : Error → Unmarshalled Value

pub data Rendered : Type 0 where
  text : Text → Rendered
  unrenderable : Error → Rendered

pub record Json (Value : Type 0) : Type 0 where
  pub unmarshal : Text → Unmarshalled Value
  pub marshal : Tr181Payload Value → Rendered

-- The status and payload of a command, its error, or a panic.
pub data Reply : Type 0 where
  reply : ℕ → Text → Reply
  fails : Error → Reply
  panics : Reply

module _ {Value : Type 0} (json : Json Value) where
  -- the end of get and of set
  unfoldable pub render : Tr181Payload Value → Reply
  render result = elim (json.marshal result) [
    | text t ↦ reply result.status_code t
    | unrenderable e ↦ fails (joined (sentinel invalid_response_payload) e)
  ]

  -- proccessCommand, with the parameters after it
  unfoldable pub process_command :
      List (MockParameter Value) → Text → List (MockParameter Value) × Reply
  process_command ps payload =
      let run : List (MockParameter Value) × Reply = elim (json.unmarshal payload) [
        | malformed e ↦ (ps, fails e)
        | null_request ↦ (ps, panics)
        | request r ↦
            let (qs, result) = set_parameters ps r in
            if eq_text r.command (codes "GET")
            then (ps, render (get ps r))
            else if eq_text r.command (codes "SET")
            then (qs, render result)
            else (
              ps,
              reply status_failed (
                  codes "{\"message\": \"command '"
                  ++ r.command
                  ++ codes "' is not supported\", \"statusCode\": 520}"),
            )
      ] in
      if is_empty payload
      then (
        ps,
        reply status_failed
            (codes "{\"message\": \"\"Invalid Input Command\"\", \"statusCode\": 520}"),
      )
      else run

  unfoldable pub response : Text → Message → ℕ → Text → Message
  response source msg status payload = record msg {
    destination = msg.source;
    source = source;
    content_type = codes "application/json";
    payload = payload;
    status = some status;
  }

  -- an error is joined with ErrNotHandled
  abbrev pub not_handled_too : Option Error → Option Error
  not_handled_too none = none
  not_handled_too (some e) = some (joined e (sentinel not_handled))

  -- HandleWrp; `none` is a panic.
  unfoldable pub handle_wrp :
      {W : Type 0}
      → Text
      → Handler W
      → List (MockParameter Value)
      → Message
      → W
      → Option (Option Error × List (MockParameter Value) × W)
  handle_wrp source egress ps msg w =
      let (qs, r) = process_command ps msg.payload in
      elim r [
        | fails e ↦ some (not_handled_too (some e), qs, w)
        | panics ↦ none
        | reply status payload ↦
            let (sent, w') = egress (response source msg status payload) w in
            some (not_handled_too sent, qs, w')
      ]
