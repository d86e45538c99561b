-- ===== src/Qos/Service/Arrival.antt =====
-- What the delivery of a message that arrives holds.
use xmidt_agent.Base.{
  ℕ, ◌+◌, ◌-◌, ◌≤◌, ◌<◌, ◌≡◌, ◌≢◌, ◌∙◌, ◌⊎◌, inl, inr, refl, sym, ap, true, false, Option, [], ◌∷◌,
  ◌++◌, some, none, length, ltb, leb, arith, Bool-cases, if◌then◌else◌,
}
use xmidt_agent.Base.Run.{◌>>=◌}
use xmidt_agent.Heap.{up, down, swap_at}
use xmidt_agent.Wrp.{Message, Error, sentinel, Sentinel}
use xmidt_agent.Qos.Item.{Item, payload_size, dispose, higher_priority_message_took_the_spot}
use xmidt_agent.Qos.Queue.{
  PriorityQueue, QosLevel, new_item, enqueue, dequeue, trim, trim_loop, marked, mark_expired,
  sort_positions, insert_position, dispose_at, heap_push, heap_pop, push, pop, is_too_large,
  without_payload,
}
use xmidt_agent.Qos.Service.{Service, Clock, arrives, deliver, deliver_top, requeue, step}
use xmidt_agent.Qos.Service.Behaviour.{IsIdle}

-- The queue that holds `x` alone.
abbrev holding : PriorityQueue → Item → PriorityQueue
holding pq x = record pq { queue = x ∷ []; size_bytes = payload_size x }

abbrev emptied : PriorityQueue → PriorityQueue
emptied pq = record pq { queue = []; size_bytes = 0 }

trim-fitting :
    (now : ℕ) (pq : PriorityQueue) → pq.size_bytes ≤ pq.max_queue_bytes → trim now pq ≡ pq
unfolding trim
trim-fitting now pq h = ground arith

abbrev disposed : Item → Item
disposed x = (dispose x).1

trim-overflowing :
    (now expires : ℕ) (pq : PriorityQueue) (msg : Message)
    → pq.max_queue_bytes < length msg.payload
    → let x : Item = record { msg = msg; expires = expires; discard = false } in
      trim now (holding pq x) ≡ holding pq (disposed x)
unfolding trim marked mark_expired trim_loop sort_positions insert_position dispose_at dispose
trim-overflowing now expires pq msg over =
    let no_fit : leb (length msg.payload) pq.max_queue_bytes ≡ false = ground arith in
    let none_left : length msg.payload - length msg.payload ≡ 0 = omega arith in
    elim (Bool-cases (ltb expires now)) [
      | inl gone ↦ rw no_fit (rw gone (rw none_left refl))
      | inr stays ↦ rw no_fit (rw stays (rw no_fit (rw none_left refl)))
    ]

-- An enqueue into an empty queue leaves the item that trim makes of the new one.
enqueue_small :
    (level : ℕ → QosLevel) (a b : ℕ) (pq : PriorityQueue) (msg : Message)
    → is_too_large (emptied pq) msg ≡ false
    → enqueue level a b (emptied pq) msg
      ≡ some (none, trim b (holding pq (new_item level a (emptied pq) msg)))
unfolding enqueue heap_push push up
enqueue_small level a b pq msg small =
    let size : 0 + length msg.payload ≡ length msg.payload = omega arith in rw small (rw size refl)

enqueue_large :
    (level : ℕ → QosLevel) (a b : ℕ) (pq : PriorityQueue) (msg : Message)
    → is_too_large (emptied pq) msg ≡ true
    → enqueue level a b (emptied pq) msg
      ≡ some (
        some (sentinel Sentinel.max_message_bytes),
        trim b (holding pq (new_item level a (emptied pq) (without_payload msg))),
      )
unfolding enqueue heap_push push up
enqueue_large level a b pq msg large = rw large refl

dequeue_last :
    (pq : PriorityQueue) (x : Item) → dequeue (holding pq x) ≡ some (some x.msg, emptied pq)
unfolding dequeue heap_pop pop down swap_at
dequeue_last pq x =
    let none_left : payload_size x - payload_size x ≡ 0 = omega arith in rw none_left refl

-- What is sent of a message that reaches the empty queue.
abbrev pub Sent : PriorityQueue → Message → Message → Type 0
Sent pq msg sent =
    ((pq.max_message_bytes ≡ 0) ⊎ (length msg.payload ≤ pq.max_message_bytes))
      × ((length msg.payload ≤ pq.max_queue_bytes) × (sent ≡ msg)
          ⊎ (pq.max_queue_bytes < length msg.payload)
            × (sent ≡ record msg {
              payload = [];
              request_delivery_response = some higher_priority_message_took_the_spot;
            }))
    ⊎ (pq.max_message_bytes ≢ 0)
      × (pq.max_message_bytes < length msg.payload)
      × (sent ≡ without_payload msg)

module _ (level : ℕ → QosLevel) (c : Clock) (pq : PriorityQueue) (msg : Message) where
  -- What the enqueue leaves: one item, with the message that is sent.
  abbrev Leaves : Type 0
  Leaves =
      (err : Option Error) × (x : Item) × Sent pq msg x.msg
      × (enqueue level c.pushed c.trimmed (emptied pq) msg ≡ some (err, holding pq x))

  small-Leaves :
      is_too_large (emptied pq) msg ≡ false
      → ((pq.max_message_bytes ≡ 0) ⊎ (length msg.payload ≤ pq.max_message_bytes))
      → Leaves
  unfolding dispose
  small-Leaves small within =
      let item = new_item level c.pushed (emptied pq) msg in
      let done = enqueue_small level c.pushed c.trimmed pq msg small in
      elim (Bool-cases (leb (length msg.payload) pq.max_queue_bytes)) [
        | inl fits ↦ (
          none,
          item,
          inl (within, inl (ground (arith, fits), refl)),
          done
              ∙ ap (λ r. some (none, r))
                  (trim-fitting c.trimmed (holding pq item) (ground (arith, fits))),
        )
        | inr over ↦ (
          none,
          disposed item,
          inl (within, inr (ground (arith, over), refl)),
          done
              ∙ ap (λ r. some (none, r))
                  (trim-overflowing c.trimmed item.expires pq msg (ground (arith, over))),
        )
      ]

  enqueue-Leaves : Leaves
  unfolding is_too_large
  enqueue-Leaves = elim (Bool-cases (is_too_large (emptied pq) msg)) [
    | inl large ↦
        let item = new_item level c.pushed (emptied pq) (without_payload msg) in
        (
          some (sentinel Sentinel.max_message_bytes),
          item,
          inr (ground (arith, large), ground (arith, large), refl),
          enqueue_large level c.pushed c.trimmed pq msg large
              ∙ ap (λ r. some (some (sentinel Sentinel.max_message_bytes), r))
                  (trim-fitting c.trimmed (holding pq item) (omega arith)),
        )
    | inr small ↦ small-Leaves small (ground (arith, small))
  ]

module _ (level : ℕ → QosLevel) (s : Service) (msg : Message) (c : Clock) (h : IsIdle s) where
  pq-emptied : s.pq ≡ emptied s.pq
  pq-emptied =
      let empty : s.pq.size_bytes ≡ 0 = h.valid.sized ∙ rw h.nothing_queued in
      λ i. record (s.pq) { queue = h.nothing_queued i; size_bytes = empty i }

  requeue-emptied :
      (err : Option Error) (x : Item)
      → enqueue level c.pushed c.trimmed (emptied s.pq) msg ≡ some (err, holding s.pq x)
      → requeue level c s msg ≡ some (record s { pq = holding s.pq x })
  unfolding requeue
  requeue-emptied err x done =
      ap (λ p. enqueue level c.pushed c.trimmed p msg >>= λ (_, q). some (record s { pq = q }))
        pq-emptied
      ∙ ap (λ r. r >>= λ (_, q). some (record s { pq = q })) done

  deliver-holding :
      (x : Item)
      → deliver_top (record s { pq = holding s.pq x })
        ≡ some (deliver (record s { pq = emptied s.pq }) x.msg)
  unfolding deliver_top
  deliver-holding x = rw (dequeue_last s.pq x)

-- A message that arrives at a running service with an empty queue starts exactly one delivery at
-- once, which is the one that the service awaits from then on, and changes nothing else. The message
-- that is delivered is the one that came, unchanged, if it is within both limits. One over the limit
-- of a message goes without its payload, marked as too large, and one over the limit of the queue
-- alone without its payload, marked as having lost its place to a message of a higher priority.
pub arrival_delivered :
    (level : ℕ → QosLevel) (s : Service) (msg : Message) (c : Clock)
    → IsIdle s
    → s.stopped ≡ false
    → (sent : Message) × Sent s.pq msg sent
      × (step level s (arrives msg c)
          ≡ some (record s {
            awaited = some (length s.deliveries);
            deliveries = s.deliveries ++ sent ∷ [];
          }))
unfolding step deliver
arrival_delivered level s msg c h on =
    let (err, x, what, done) = enqueue-Leaves level c s.pq msg in
    (
      x.msg,
      what,
      ap (λ b. if b then some s else (requeue level c s msg >>= deliver_top)) on
          ∙ ap (λ r. r >>= deliver_top) (requeue-emptied level s msg c h err x done)
          ∙ deliver-holding level s msg c h x
          ∙ ap (λ p. some (deliver (record s { pq = p }) x.msg)) (sym (pq-emptied level s msg c h)),
    )
