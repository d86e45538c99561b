-- ===== src/Qos/Queue.antt =====
-- The methods of priorityQueue (internal/wrphandlers/qos/priority_queue.go), with container/heap
-- under them. A read of the clock is an argument; sizes are unbounded numbers, as the source notes
-- that an int64 is not exceeded. The order in which slices.SortFunc leaves equal items is open in
-- Go; here it is that of a stable sort. `none` would be an index out of range.
pub mod Laws
pub mod Dequeue
pub mod Discard
pub mod Trim
pub mod Evict
pub mod Enqueue
use mathlib.Core.Option
use xmidt_agent.Base.{
  ℕ, zero, suc, ◌+◌, ◌-◌, Bool, true, false, not, ◌&&◌, ◌||◌, Option, some, none, List, [], ◌∷◌,
  ◌++◌, length, get_elem?, get_or, set, take, ltb, leb, ◌==◌, if◌then◌else◌,
}
use xmidt_agent.Base.Run.{◌>>=◌}
use xmidt_agent.Heap.{swap_at, up, down}
use xmidt_agent.Wrp.{Message, Error, sentinel, Sentinel}
use xmidt_agent.Qos.Priority.{PriorityType, newest_type}
use xmidt_agent.Qos.Item.{
  Item, no_item, payload_size, dispose, TieBreaker, item_less, message_is_too_large,
}

-- What wrp.QOSValue.Level of wrp-go may answer: the four levels that Push names, or another.
pub data QosLevel : Type 0 where
  qos_low qos_medium qos_high qos_critical qos_other : QosLevel

pub record PriorityQueue : Type 0 where
  pub queue : List Item
  pub priority : PriorityType
  pub tie_breaker : TieBreaker
  pub max_queue_bytes : ℕ
  pub max_message_bytes : ℕ
  pub size_bytes : ℕ
  pub low_expires : ℕ
  pub medium_expires : ℕ
  pub high_expires : ℕ
  pub critical_expires : ℕ

abbrev pub less : PriorityQueue → Item → Item → Bool
less pq = item_less pq.tie_breaker

-- the switch of Push
unfoldable pub qos_expires : PriorityQueue → QosLevel → ℕ
qos_expires pq qos_low = pq.low_expires
qos_expires pq qos_medium = pq.medium_expires
qos_expires pq qos_high = pq.high_expires
qos_expires pq qos_critical = pq.critical_expires
qos_expires pq qos_other = 0

abbrev pub new_item : (ℕ → QosLevel) → ℕ → PriorityQueue → Message → Item
new_item level now pq msg = record {
  msg = msg;
  expires = now + qos_expires pq (level msg.quality_of_service);
  discard = false;
}

-- Push
unfoldable pub push : (ℕ → QosLevel) → ℕ → PriorityQueue → Message → PriorityQueue
push level now pq msg = record pq {
  queue = pq.queue ++ new_item level now pq msg ∷ [];
  size_bytes = pq.size_bytes + length msg.payload;
}

-- Pop; `none` is its nil.
unfoldable pub pop : PriorityQueue → Option Item × PriorityQueue
pop pq =
    let last = length pq.queue - 1 in
    elim (get_elem? pq.queue last) [
      | none ↦ (none, pq)
      | some itm ↦ (
        some itm,
        record pq { size_bytes = pq.size_bytes - payload_size itm; queue = take last pq.queue },
      )
    ]

-- heap.Push
unfoldable pub heap_push : (ℕ → QosLevel) → ℕ → PriorityQueue → Message → Option PriorityQueue
heap_push level now pq msg =
    let grown = push level now pq msg in
    up (less pq) (length grown.queue) grown.queue (length grown.queue - 1) >>= λ a.
    some (record grown { queue = a })

-- heap.Pop
unfoldable pub heap_pop : PriorityQueue → Option (Option Item × PriorityQueue)
heap_pop pq =
    let n = length pq.queue - 1 in
    swap_at (less pq) pq.queue 0 n >>= λ a.
    down (less pq) (suc n) a 0 n >>= λ b. some (pop (record pq { queue = b }))

-- Dequeue: the message, if there is one
unfoldable pub dequeue : PriorityQueue → Option (Option Message × PriorityQueue)
dequeue pq =
    let top = heap_pop pq >>= λ (r, rest).
    some (Option.map {B = Message} (λ (itm : Item). itm.msg) r, rest) in
    if length pq.queue == 0 then some (none, pq) else top

-- Whether the first loop of trim discards the item.
abbrev pub expired : ℕ → Item → Bool
expired now itm = not itm.discard && ltb itm.expires now

-- The first loop of trim, from position `i` on: the items, the size, and the positions that are
-- kept in itemsCache.
unfoldable pub mark_expired : ℕ → ℕ → List Item → ℕ → List Item × ℕ × List ℕ
mark_expired now i [] size = ([], size, [])
mark_expired now i (itm ∷ q) size =
    let gone = expired now itm in
    let (q', size', cache) =
      mark_expired now (suc i) q (if gone then size - payload_size itm else size) in
    (
      (if gone then (dispose itm).1 else itm) ∷ q',
      size',
      if itm.discard || gone then cache else i ∷ cache,
    )

-- The comparison of trim's sort is negative.
unfoldable pub trimmed_before : PriorityType → Item → Item → Bool
trimmed_before p i j =
    let iqos = i.msg.quality_of_service in
    let jqos = j.msg.quality_of_service in
    if ltb iqos jqos
    then true
    else if ltb jqos iqos
    then false
    else elim p [ newest_type ↦ ltb i.expires j.expires | _ ↦ ltb j.expires i.expires ]

-- slices.SortFunc on positions of the queue `q`
unfoldable pub insert_position : PriorityType → List Item → ℕ → List ℕ → List ℕ
insert_position p q i [] = i ∷ []
insert_position p q i (j ∷ cache) =
    if trimmed_before p (get_or q j no_item) (get_or q i no_item)
    then j ∷ insert_position p q i cache
    else i ∷ j ∷ cache

unfoldable pub sort_positions : PriorityType → List Item → List ℕ → List ℕ
sort_positions p q [] = []
sort_positions p q (i ∷ cache) = insert_position p q i (sort_positions p q cache)

-- `pq.sizeBytes -= itm.dispose()` for the item at a position
unfoldable pub dispose_at : PriorityQueue → ℕ → PriorityQueue
dispose_at pq i =
    let (size, itm) = dispose (get_or pq.queue i no_item) in
    record pq { queue = set pq.queue i itm; size_bytes = pq.size_bytes - size }

-- The second loop of trim.
unfoldable pub trim_loop : List ℕ → PriorityQueue → PriorityQueue
trim_loop [] pq = pq
trim_loop (i ∷ cache) pq =
    let rest = trim_loop cache (dispose_at pq i) in
    if leb pq.size_bytes pq.max_queue_bytes then pq else rest

-- The queue and itemsCache after the first loop.
unfoldable pub marked : ℕ → PriorityQueue → PriorityQueue × List ℕ
marked now pq =
    let (q, size, cache) = mark_expired now 0 pq.queue pq.size_bytes in
    (record pq { queue = q; size_bytes = size }, cache)

unfoldable pub trim : ℕ → PriorityQueue → PriorityQueue
trim now pq =
    let (pq', cache) = marked now pq in
    if leb pq.size_bytes pq.max_queue_bytes
    then pq
    else trim_loop (sort_positions pq'.priority pq'.queue cache) pq'

-- The check of Enqueue against maxMessageBytes, which 0 switches off.
unfoldable pub is_too_large : PriorityQueue → Message → Bool
is_too_large pq msg =
    not (pq.max_message_bytes == 0) && ltb pq.max_message_bytes (length msg.payload)

abbrev pub without_payload : Message → Message
without_payload msg = record msg {
  payload = [];
  request_delivery_response = some message_is_too_large;
}

-- Enqueue, with the clock read by Push and then by trim
unfoldable pub enqueue :
    (ℕ → QosLevel) → ℕ → ℕ → PriorityQueue → Message → Option (Option Error × PriorityQueue)
enqueue level pushed trimmed pq msg =
    let large = is_too_large pq msg in
    let err = if large then some (sentinel Sentinel.max_message_bytes) else none in
    heap_push level pushed pq (if large then without_payload msg else msg) >>= λ pq'.
    some (err, trim trimmed pq')
