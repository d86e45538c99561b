-- ===== src/Lifecycle/Single.antt =====
-- However Start and Stop are called, at most one goroutine is left with a context that is not cancelled.
use xmidt_agent.Base.{◌≤◌, ◌≡◌, ◌⊎◌, inl, inr, true, Option, List, [], ◌∷◌, arith}
use xmidt_agent.Wrp.{Error}
use xmidt_agent.Lifecycle.{
  Service, start, stop, start_adapter, stop_adapter, Call, starts, stops, call, call_adapter,
}

-- At most one goroutine has a context that is not cancelled, and none where shutdown is not set.
pub record IsSingle (s : Service) : Type 0 where
  pub one : s.uncancelled ≤ 1
  pub shutdown : (s.has_shutdown ≡ true) ⊎ (s.uncancelled ≡ 0)

pub start_adapter-IsSingle :
    (listening : Option Error) (s : Service) → IsSingle s → IsSingle (start_adapter listening s).1
unfolding start_adapter
start_adapter-IsSingle listening s h = record {
  one = ground (arith, h.one, h.shutdown);
  shutdown = inl (ground (arith, h.one));
}

pub stop_adapter-IsSingle : (s : Service) → IsSingle s → IsSingle (stop_adapter s)
unfolding stop_adapter
stop_adapter-IsSingle s h = record {
  one = ground (arith, h.one);
  shutdown = inr (ground (arith, h.shutdown));
}

pub start-IsSingle : (s : Service) → IsSingle s → IsSingle (start s)
unfolding start
start-IsSingle s h = record {
  one = ground (arith, h.one, h.shutdown);
  shutdown = inl (ground (arith, h.one));
}

pub stop-IsSingle : (s : Service) → IsSingle s → IsSingle (stop s)
unfolding stop
stop-IsSingle s h = record { one = ground (arith, h.one); shutdown = ground (arith, h.shutdown) }

-- However Start and Stop of the adapter are called and whether or not its sockets listen, at most one
-- goroutine of receive has a context that is not cancelled, and none where shutdown is not set.
pub call_adapter-IsSingle :
    (calls : List Call) (s : Service) → IsSingle s → IsSingle (call_adapter calls s)
unfolding call_adapter
call_adapter-IsSingle [] s h = h
call_adapter-IsSingle (starts listening ∷ calls) s h =
    call_adapter-IsSingle calls (start_adapter listening s).1 (start_adapter-IsSingle listening s h)
call_adapter-IsSingle (stops ∷ calls) s h =
    call_adapter-IsSingle calls (stop_adapter s) (stop_adapter-IsSingle s h)

-- However Start and Stop of the credentials or of the websocket are called, at most one goroutine of
-- run has a context that is not cancelled, and none where shutdown is not set.
pub call-IsSingle : (calls : List Call) (s : Service) → IsSingle s → IsSingle (call calls s)
unfolding call
call-IsSingle [] s h = h
call-IsSingle (starts e ∷ calls) s h = call-IsSingle calls (start s) (start-IsSingle s h)
call-IsSingle (stops ∷ calls) s h = call-IsSingle calls (stop s) (stop-IsSingle s h)

-- It was started and stopped.
abbrev IsOver : Service → Type 0
IsOver s = (s.has_shutdown ≡ true) × (s.uncancelled ≡ 0)

start-IsOver : (s : Service) → IsOver s → IsOver (start s)
unfolding start
start-IsOver s (p, q) = (ground (arith, p), ground (arith, p, q))

stop-IsOver : (s : Service) → IsOver s → IsOver (stop s)
unfolding stop
stop-IsOver s (p, q) = (ground (arith, p), ground (arith, p, q))

started-IsOver : (s : Service) → IsOver (stop (start s))
unfolding start stop
started-IsOver s = (ground arith, ground arith)

call-IsOver : (calls : List Call) (s : Service) → IsOver s → IsOver (call calls s)
unfolding call
call-IsOver [] s h = h
call-IsOver (starts e ∷ calls) s h = call-IsOver calls (start s) (start-IsOver s h)
call-IsOver (stops ∷ calls) s h = call-IsOver calls (stop s) (stop-IsOver s h)

-- Once the credentials or the websocket have been started and stopped, no goroutine has a context that is not cancelled, however Start
-- and Stop are called after that.
pub stopped_for_good :
    (calls : List Call) (s : Service) → (call calls (stop (start s))).uncancelled ≡ 0
stopped_for_good calls s = (call-IsOver calls (stop (start s)) (started-IsOver s)).1
