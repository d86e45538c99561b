-- ===== src/Qos/Queue/Enqueue.antt =====
-- Enqueue adds the message, and keeps the invariant and the bound.
use mathlib.Core.List.Perm
use xmidt_agent.Base.{
  ℕ, suc, ◌-◌, ◌≤◌, ◌≡◌, refl, sym, List, [], ◌∷◌, ◌++◌, some, none, Perm, length, sum_by,
  sum_by-perm, length-append, length-perm, arith, if◌then◌else◌,
}
use xmidt_agent.Base.Run.{Yields, yields, Yields-then}
use xmidt_agent.Heap.{parent}
use xmidt_agent.Heap.Arrays.{get_or-append_left, snoc-perm}
use xmidt_agent.Heap.Sift.{UpInv, up_lem}
use xmidt_agent.Wrp.{Message, sentinel, Sentinel}
use xmidt_agent.Qos.Item.{Item, no_item, payload_size, discarded_size}
use xmidt_agent.Qos.Queue.{
  PriorityQueue, QosLevel, less, new_item, push, heap_push, enqueue, is_too_large, without_payload,
}
use xmidt_agent.Qos.Queue.Laws.{IsTieBreaker, IsValid}
use xmidt_agent.Qos.Queue.Discard.{IsTrimmed}
use xmidt_agent.Qos.Queue.Trim.{trim-IsTrimmed, trim-IsValid, trim-kept, trim_fits}

module _ (level : ℕ → QosLevel) (now : ℕ) (pq : PriorityQueue) (t : IsTieBreaker pq.tie_breaker)
    (v : IsValid pq) (msg : Message) where
  abbrev grown : List Item
  grown = pq.queue ++ new_item level now pq msg ∷ []

  length-grown : length grown ≡ suc (length pq.queue)
  length-grown = omega (arith, length-append pq.queue (new_item level now pq msg ∷ []))

  grown-UpInv : UpInv (less pq) no_item t.ordered grown (length grown - 1)
  grown-UpInv = record {
    inside = omega (arith, length-grown);
    edges = λ c p q r. ground (
      arith,
      length-grown,
      v.heap c,
      get_or-append_left no_item pq.queue (new_item level now pq msg ∷ []) c,
      get_or-append_left no_item pq.queue (new_item level now pq msg ∷ []) (parent c),
    );
    bridged = λ c p q r s. absurd (omega (arith, length-grown));
  }

  -- heap.Push adds exactly one new item.
  pub record Pushed (r : PriorityQueue) : Type 0 where
    pub valid : IsValid r
    pub same : Perm r.queue (new_item level now pq msg ∷ pq.queue)
    pub kept :
        (r.max_queue_bytes ≡ pq.max_queue_bytes)
        × (r.max_message_bytes ≡ pq.max_message_bytes)
        × (r.tie_breaker ≡ pq.tie_breaker)

  pub heap_push_correct : Yields Pushed (heap_push level now pq msg)
  unfolding heap_push push
  heap_push_correct =
      Yields-then
        (up_lem (less pq) no_item t.ordered (length grown) grown (length grown - 1)
          (omega (arith, length-grown)) grown-UpInv)
        λ a s.
          let same = Perm.trans s.same (snoc-perm no_item pq.queue (new_item level now pq msg)) in
          yields (record {
            valid = record {
              heap = rw (sym (length-perm s.same)) at s.heap;
              sized = omega (arith, sum_by-perm payload_size same, v.sized);
              blanked = omega (arith, sum_by-perm discarded_size same, v.blanked);
            };
            same = same;
            kept = (refl, refl, refl);
          })

-- The queue that an Enqueue of `msg` at the instant `pushed` leaves: a valid queue within its
-- limit, whose items are those of `pq` and the new one, some of them disposed of. The new item has
-- lost its payload if and only if the message was too large.
pub record Enqueued (level : ℕ → QosLevel) (pushed : ℕ) (pq : PriorityQueue) (msg : Message)
    (r : PriorityQueue) : Type 0 where
  pub valid : IsValid r
  pub fits : sum_by payload_size r.queue ≤ pq.max_queue_bytes
  pub before : List Item
  pub same : Perm before (
      new_item level pushed pq (if is_too_large pq msg then without_payload msg else msg)
      ∷ pq.queue)
  pub trimmed : IsTrimmed before r.queue
  pub limits :
      (r.max_queue_bytes ≡ pq.max_queue_bytes)
      × (r.max_message_bytes ≡ pq.max_message_bytes)
      × (r.tie_breaker ≡ pq.tie_breaker)

-- An Enqueue into a valid queue, whose tie breaker orders the expiries, always comes back, with an
-- error exactly if the message was too large, and with a valid queue within its limit that holds the
-- old items and the new one, of which trim may have disposed of some. The new item has lost its
-- payload before that exactly if the message was too large.
pub enqueue_correct :
    (level : ℕ → QosLevel) (pushed trimmed : ℕ) (pq : PriorityQueue) (msg : Message)
    → IsTieBreaker pq.tie_breaker
    → IsValid pq
    → Yields
        (λ (err, r).
          Enqueued level pushed pq msg r
          × (err
              ≡ (if is_too_large pq msg then some (sentinel Sentinel.max_message_bytes) else none)))
        (enqueue level pushed trimmed pq msg)
unfolding enqueue
enqueue_correct level pushed trimmed pq msg t v =
    let sent = if is_too_large pq msg then without_payload msg else msg in
    Yields-then (heap_push_correct level pushed pq t v sent) λ r p.
      let t' : IsTieBreaker r.tie_breaker = rw p.kept.2 t in
      yields (
        record {
          valid = trim-IsValid trimmed r t' p.valid;
          fits = omega (arith, trim_fits trimmed r t' p.valid, p.kept.0);
          before = r.queue;
          same = p.same;
          trimmed = trim-IsTrimmed trimmed r;
          limits = ground (arith, trim-kept trimmed r, p.kept);
        },
        refl,
      )
