-- ===== src/Wrphandlers/Ingress.antt =====
-- The way of a message from the websocket inwards, as cmd/xmidt-agent/wrphandlers.go puts the
-- handlers together (provideWSEventorToHandlerAdapter, provideAuthHandler, provideMissingHandler):
-- logging, auth, logging, missing, and then pubsub, with the egress queue for responses.
pub mod Replies
use xmidt_agent.Base.{ℕ, Bool, List, ◌∷◌, Option, none, Text}
use xmidt_agent.Wrp.{Message, MessageType, Handler}
use xmidt_agent.Wrphandlers.Auth.{Auth}
use xmidt_agent.Wrphandlers.Auth
use xmidt_agent.Wrphandlers.Missing
use xmidt_agent.Wrphandlers.Logging
use xmidt_agent.Wrphandlers.Logging.{Entry}

module _ {W : Type 0} (requires_transaction : MessageType → Bool) (log : Entry → W → W)
    (level : ℕ) where
  -- provideMissingHandler
  unfoldable pub missing_handler : Text → Handler W → Handler W → Handler W
  missing_handler device_id pubsub egress =
      Missing.handle_wrp requires_transaction device_id pubsub egress

  -- provideAuthHandler
  unfoldable pub auth_handler : Auth → Handler W → Handler W → Handler W
  auth_handler auth missing egress =
      Auth.handle_wrp requires_transaction auth (Logging.handle_wrp log level missing) egress

  -- provideWSEventorToHandlerAdapter
  unfoldable pub ingress : Auth → Text → Handler W → Handler W → Handler W
  ingress auth device_id pubsub egress =
      Logging.handle_wrp log level
        (auth_handler auth (missing_handler device_id pubsub egress) egress)
