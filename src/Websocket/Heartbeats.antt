-- ===== src/Websocket/Heartbeats.antt =====
-- internal/websocket/ws.go: the listeners for pings and pongs, and the goroutine that watches for
-- inactivity during one call of Reader. `timeout` is inactivityTimeout.
-- The channel `activity` has no buffer, so that its length is always zero, and a send to it waits until
-- the goroutine receives.
pub mod Idle
use xmidt_agent.Base.{
  ℕ, ◌+◌, Bool, true, false, ◌||◌, not, Option, some, none, List, [], ◌∷◌, ◌++◌, leb, if◌then◌else◌,
}
use xmidt_agent.Base.Run.{◌>>=◌}

-- HeartbeatType and Heartbeat of the package event
pub data HeartbeatType : Type 0 where
  ping pong : HeartbeatType

pub record Heartbeat : Type 0 where
  pub at : ℕ
  pub kind : HeartbeatType

-- The goroutine: it waits for the context, for activity and for an instant; the context is done; or it
-- has cancelled the context at an instant.
pub data Watch : Type 0 where
  watching : ℕ → Watch
  over : Watch
  expired : ℕ → Watch

-- What is told to the heartbeat listeners, and whether the ping listener waits in its send, with no
-- goroutine to receive.
pub record Reading : Type 0 where
  pub watch : Watch
  pub is_blocked : Bool
  pub heartbeats : List Heartbeat

pub data Happening : Type 0 where
  -- a ping or a pong: whether its context has an error, and when
  pinged ponged : Bool → ℕ → Happening
  -- the timer fires
  elapses : ℕ → Happening
  -- the context is done
  ends : Happening

abbrev pub told : HeartbeatType → ℕ → Reading → Reading
told kind t r = record r { heartbeats = r.heartbeats ++ record { at = t; kind = kind } ∷ [] }

abbrev pub finish : Watch → Watch
finish (watching d) = over
finish over = over
finish (expired t) = expired t

module _ (timeout : ℕ) where
  -- the send to `activity`
  unfoldable pub report : ℕ → Reading → Reading
  report t r = elim r.watch [
    | watching d ↦ record r { watch = watching (t + timeout) }
    | over ↦ record r { is_blocked = true }
    | expired d ↦ record r { is_blocked = true }
  ]

  -- the timer: it cannot fire before its instant, nor when the goroutine has ended.
  unfoldable pub elapse : ℕ → Reading → Option Reading
  elapse t r = elim r.watch [
    | watching d ↦ if leb d t then some (record r { watch = expired t }) else none
    | over ↦ none
    | expired d ↦ none
  ]

  -- One thing that happens; `none` if it cannot. Nothing is read while the listener waits.
  unfoldable pub happen : Happening → Reading → Option Reading
  happen (pinged has_error t) r =
      if r.is_blocked then none else if has_error then some r else some (report t (told ping t r))
  happen (ponged has_error t) r =
      if r.is_blocked then none else if has_error then some r else some (told pong t r)
  happen (elapses t) r = elapse t r
  happen ends r = some (record r { watch = finish r.watch })

  unfoldable pub happen_all : List Happening → Reading → Option Reading
  happen_all [] r = some r
  happen_all (h ∷ hs) r = happen h r >>= happen_all hs

  -- the begin of a call of Reader
  abbrev pub begin : ℕ → Reading
  begin now = record { watch = watching (now + timeout); is_blocked = false; heartbeats = [] }
