-- ===== src/Lifecycle.antt =====
-- Start and Stop of internal/credentials/credentials.go, internal/websocket/ws.go and
-- internal/adapters/libparodus/libparodus.go: which goroutines of run or receive they leave with a
-- context that is not cancelled. That is all they are asked: when such a goroutine ends is not
-- modelled. Stop waits for those that have come to wg.Add, which is in the goroutine itself, so one
-- that was just started may end after Stop; the keepalive goroutines of the adapter and serviceQOS
-- are in no wait group.
pub mod Single
use xmidt_agent.Base.{
  ℕ, zero, suc, Bool, true, false, Option, some, none, List, [], ◌∷◌, if◌then◌else◌,
}
use xmidt_agent.Wrp.{Error}

-- Whether `shutdown` is set, and how many goroutines of run or receive have a context that is not cancelled.
pub record Service : Type 0 where
  pub has_shutdown : Bool
  pub uncancelled : ℕ

abbrev pub unstarted : Service
unstarted = record { has_shutdown = false; uncancelled = 0 }

-- Start of the credentials and of the websocket
unfoldable pub start : Service → Service
start s =
    if s.has_shutdown then s else record { has_shutdown = true; uncancelled = suc s.uncancelled }

-- Stop of the two: it cancels the context, and does not reset shutdown.
unfoldable pub stop : Service → Service
stop s = if s.has_shutdown then record s { uncancelled = 0 } else s

-- Start of the adapter, with what the goroutine of receive says of its socket
unfoldable pub start_adapter : Option Error → Service → Option Error × Service
start_adapter listening s = if s.has_shutdown then (none, s) else (
  listening,
  record {
    has_shutdown = true;
    uncancelled = elim listening [ some e ↦ s.uncancelled | none ↦ suc s.uncancelled ];
  },
)

-- Stop of the adapter
unfoldable pub stop_adapter : Service → Service
stop_adapter s = record {
  has_shutdown = false;
  uncancelled = if s.has_shutdown then 0 else s.uncancelled;
}

pub data Call : Type 0 where
  starts : Option Error → Call
  stops : Call

-- The calls, in order, on the adapter
unfoldable pub call_adapter : List Call → Service → Service
call_adapter [] s = s
call_adapter (starts listening ∷ calls) s = call_adapter calls (start_adapter listening s).1
call_adapter (stops ∷ calls) s = call_adapter calls (stop_adapter s)

-- The calls, in order, on the credentials or the websocket
unfoldable pub call : List Call → Service → Service
call [] s = s
call (starts _ ∷ calls) s = call calls (start s)
call (stops ∷ calls) s = call calls (stop s)
