-- ===== src/Wrphandlers/Ingress/Replies.antt =====
-- Which messages are answered on the way in, and how often.
use xmidt_agent.Base.{
  ℕ, ◌≡◌, Bool, false, not, Option, some, none, List, [], ◌∷◌, Text, arith, if◌then◌else◌,
}
use xmidt_agent.Wrp.{Message, MessageType, Handler, Error, is_not_handled}
use xmidt_agent.Wrphandlers.Auth.{Auth, is_authorized, refusal}
use xmidt_agent.Wrphandlers.Auth
use xmidt_agent.Wrphandlers.Missing.{response}
use xmidt_agent.Wrphandlers.Missing
use xmidt_agent.Wrphandlers.Logging
use xmidt_agent.Wrphandlers.Ingress.{ingress, auth_handler, missing_handler}

abbrev is_unhandled : Option Error → Bool
is_unhandled none = false
is_unhandled (some e) = is_not_handled e

-- What the agent itself answers: nothing if the message wants no answer or was handled, and
-- otherwise one message.
abbrev pub replies : (MessageType → Bool) → Auth → Text → Option Error → Message → List Message
replies requires_transaction auth device_id outcome msg =
    if not (requires_transaction msg.msg_type)
    then []
    else if not (is_authorized auth.partners msg.partner_ids)
    then refusal auth msg ∷ []
    else if is_unhandled outcome
    then response device_id msg ∷ []
    else []

-- What the pubsub and the egress have been given.
abbrev pub Seen : Type 0
Seen = List Message × List Message

abbrev pub pubsub_of : (Message → Option Error) → Handler Seen
pubsub_of outcome m (inside, outside) = (outcome m, (m ∷ inside, outside))

abbrev pub egress_of : (Message → Option Error) → Handler Seen
egress_of sent m (inside, outside) = (sent m, (inside, m ∷ outside))

-- With a pubsub and an egress that record what they are given, and answer by `outcome` and `sent`,
-- the pubsub gets the message if its partner is allowed and nothing otherwise. The egress gets
-- nothing for a message that requires no transaction; for another it gets the refusal alone if the
-- partner is not allowed, the answer of the missing handler alone if the pubsub did not handle the
-- message, and nothing otherwise.
pub ingress-replies :
    (requires_transaction : MessageType → Bool) (level : ℕ) (auth : Auth) (device_id : Text)
    (outcome sent : Message → Option Error) (msg : Message)
    → (ingress requires_transaction
        (λ _ w. w)
        level
        auth
        device_id
        (pubsub_of outcome)
        (egress_of sent)
        msg
        ([], [])).1
      ≡ (
        if is_authorized auth.partners msg.partner_ids then msg ∷ [] else [],
        replies requires_transaction auth device_id (outcome msg) msg,
      )
unfolding ingress auth_handler missing_handler Auth.handle_wrp Missing.handle_wrp Logging.handle_wrp
ingress-replies requires_transaction level auth device_id outcome sent msg = ground arith
