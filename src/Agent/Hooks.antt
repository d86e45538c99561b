-- ===== src/Agent/Hooks.antt =====
-- onStart, onStop and lifeCycle of cmd/xmidt-agent/main.go, and the hooks of credentials.go: which parts
-- of the agent have been told to start and to end. A part is the `Service` of Lifecycle, and the QoS handler goes on while its channel is open. WaitUntilFetched, for which onStart waits, changes nothing. `C` is for the cancel functions, of
-- which a nil one is `none`.
pub mod Ends
pub mod Sound
use xmidt_agent.Base.{Bool, true, false, Option, some, none, List, [], ◌∷◌, ◌++◌}
use xmidt_agent.Wrp.{Error}
use xmidt_agent.Lifecycle.{Service, start, stop, start_adapter, stop_adapter}

-- A part that is nil is `none`; `cancelled` are the cancel functions that were called.
pub record Running (C : Type 0) : Type 0 where
  pub credentials : Option Service
  pub websocket : Option Service
  pub adapter : Service
  pub qos : Bool
  pub cancelled : List C

abbrev pub map_service : (Service → Service) → Option Service → Option Service
map_service f none = none
map_service f (some s) = some (f s)

module _ {C : Type 0} where
  -- onStart, given the error of the context and what Start of the adapter finds
  unfoldable pub on_start : Option Error → Option Error → Running C → Option Error × Running C
  on_start (some e) listening s = (some e, s)
  on_start none listening s = elim s.websocket [
    | none ↦ (none, s)
    | some ws ↦
        let (err, adapter) = start_adapter listening s.adapter in
        (err, record s { websocket = some (start ws); adapter = adapter; qos = true })
  ]

  -- the loop over the cancels
  unfoldable pub cancel_each : List (Option C) → List C → List C
  cancel_each [] called = called
  cancel_each (none ∷ cancels) called = cancel_each cancels called
  cancel_each (some c ∷ cancels) called = cancel_each cancels (called ++ c ∷ [])

  -- onStop
  unfoldable pub on_stop : List (Option C) → Running C → Option Error × Running C
  on_stop cancels s = elim s.websocket [
    | none ↦ (none, s)
    | some ws ↦ (
      none,
      record s {
        websocket = some (stop ws);
        adapter = stop_adapter s.adapter;
        qos = false;
        cancelled = cancel_each cancels s.cancelled;
      },
    )
  ]

  -- the hooks of provideCredentials, which are there if the credentials are
  unfoldable pub credentials_on_start : Running C → Running C
  credentials_on_start s = record s { credentials = map_service start s.credentials }

  unfoldable pub credentials_on_stop : Running C → Running C
  credentials_on_stop s = record s { credentials = map_service stop s.credentials }
