-- ===== src/Qos/Service.antt =====
-- The handler's goroutine serviceQOS, with HandleWrp, Start, Stop and wrpHandler
-- (internal/wrphandlers/qos/qos.go). The loop is a step function over the events that its select
-- receives, in any order that the goroutines around it produce. A delivery that wrpHandler starts is
-- named by the number of deliveries before it; its goroutine runs apart, and ends with an event. The
-- loop holds the channels of one delivery, so it sees the end of that one alone.
pub mod Behaviour
pub mod Arrival
use xmidt_agent.Base.{
  ℕ, Bool, true, false, List, [], ◌∷◌, ◌++◌, Option, none, some, length, get_elem?, ◌==◌,
  if◌then◌else◌,
}
use xmidt_agent.Base.Run.{◌>>=◌}
use xmidt_agent.Wrp.{Message, Error, sentinel, qos_has_shutdown}
use xmidt_agent.Qos.Priority.{unknown_type}
use xmidt_agent.Qos.Item.{TieBreaker}
use xmidt_agent.Qos.Options.{Config}
use xmidt_agent.Qos.Queue.{PriorityQueue, QosLevel, enqueue, dequeue}

pub record Service : Type 0 where
  pub pq : PriorityQueue
  pub awaited : Option ℕ
  pub deliveries : List Message
  pub stopped : Bool

-- The queue that serviceQOS makes: of the handler's settings it copies these three.
unfoldable pub service_queue : Config → TieBreaker → PriorityQueue
service_queue h tie_breaker = record {
  queue = [];
  priority = unknown_type;
  tie_breaker = tie_breaker;
  max_queue_bytes = h.max_queue_bytes;
  max_message_bytes = h.max_message_bytes;
  size_bytes = 0;
  low_expires = 0;
  medium_expires = 0;
  high_expires = 0;
  critical_expires = 0;
}

unfoldable pub start : Config → TieBreaker → Service
start h t = record { pq = service_queue h t; awaited = none; deliveries = []; stopped = false }

-- The clock is read when an item is pushed and when the queue is trimmed.
pub record Clock : Type 0 where
  pub pushed : ℕ
  pub trimmed : ℕ

pub data Event : Type 0 where
  -- a message from the channel of HandleWrp
  arrives : Message → Clock → Event
  -- the channel was closed by Stop
  closes : Event
  -- the goroutine of a delivery ends; whether next.HandleWrp failed
  finishes : ℕ → Bool → Clock → Event

-- wrpHandler: a new delivery, whose channels replace those that the loop held
unfoldable pub deliver : Service → Message → Service
deliver s msg = record s {
  awaited = some (length s.deliveries);
  deliveries = s.deliveries ++ msg ∷ [];
}

-- the end of the loop's body
unfoldable pub deliver_top : Service → Option Service
deliver_top s = dequeue s.pq >>= λ (top, pq).
    let rest = record s { pq = pq } in some (elim top [ none ↦ rest | some msg ↦ deliver rest msg ])

unfoldable pub requeue : (ℕ → QosLevel) → Clock → Service → Message → Option Service
requeue level c s msg =
    enqueue level c.pushed c.trimmed s.pq msg >>= λ (_, pq). some (record s { pq = pq })

-- the case of `ready`, for the delivery whose channels the loop holds
unfoldable pub finished : (ℕ → QosLevel) → Clock → Service → ℕ → Bool → Option Service
finished level c s id failed =
    let back = get_elem? s.deliveries id >>= requeue level c s in
    (if failed then back else some s) >>= λ s'. deliver_top (record s' { awaited = none })

abbrev pub is_awaited : Service → ℕ → Bool
is_awaited s id = elim s.awaited [ none ↦ false | some d ↦ d == id ]

unfoldable pub step : (ℕ → QosLevel) → Service → Event → Option Service
step level s (arrives msg c) =
    let next = requeue level c s msg >>= deliver_top in if s.stopped then some s else next
step level s closes = some (record s { stopped = true })
step level s (finishes id failed c) =
    let next = finished level c s id failed in
    if s.stopped then some s else if is_awaited s id then next else some s

unfoldable pub run : (ℕ → QosLevel) → Service → List Event → Option Service
run level s [] = some s
run level s (e ∷ es) = step level s e >>= λ s'. run level s' es

-- HandleWrp, Start and Stop on the handler's channel: `none` is the nil channel. HandleWrp sends
-- the message to the loop, or refuses it.
pub data Sent : Type 0 where
  refused : Error → Sent
  sends : Message → Sent

unfoldable pub handle_wrp : Option (Unit {0}) → Message → Sent
handle_wrp none msg = refused (sentinel qos_has_shutdown)
handle_wrp (some ch) msg = sends msg

unfoldable pub stop : Option (Unit {0}) → Option (Unit {0}) × List Event
stop none = (none, [])
stop (some ch) = (none, closes ∷ [])
