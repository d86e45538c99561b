-- ===== src/Agent/Hooks/Ends.antt =====
-- What is left to go on after the hooks of a start and of a stop.
use xmidt_agent.Base.{ℕ, ◌≡◌, Bool, true, false, Option, some, none, List, [], ◌∷◌}
use xmidt_agent.Wrp.{Error}
use xmidt_agent.Lifecycle.{Service}
use xmidt_agent.Agent.Hooks.{Running}

abbrev pub present : {C : Type 0} → List (Option C) → List C
present [] = []
present (none ∷ cancels) = present cancels
present (some c ∷ cancels) = c ∷ present cancels

-- How many goroutines of run a part has whose context is not cancelled.
abbrev pub goroutines : Option Service → ℕ
goroutines none = 0
goroutines (some s) = s.uncancelled

-- What goes on: the goroutines of the credentials, the websocket and the adapter whose context is not
-- cancelled, and the QoS handler, if its channel is open.
pub record GoesOn {C : Type 0} (credentials websocket adapter : ℕ) (qos : Bool) (s : Running C)
    : Type 0 where
  pub in_credentials : goroutines s.credentials ≡ credentials
  pub in_websocket : goroutines s.websocket ≡ websocket
  pub in_adapter : s.adapter.uncancelled ≡ adapter
  pub in_qos : s.qos ≡ qos

abbrev pub one_if : Bool → ℕ
one_if true = 1
one_if false = 0

abbrev pub one_unless : Option Error → ℕ
one_unless none = 1
one_unless (some e) = 0
