-- ===== src/Tests/Queue.antt =====
-- The priority queue (internal/wrphandlers/qos) on small inputs.
use xmidt_agent.Base.{
  ℕ, zero, suc, ◌-◌, ◌/◌, ◌<◌, ◌≡◌, ◌≤◌, refl, false, some, [], ◌∷◌, get_or, sum_by, Text, codes,
  arith,
}
use xmidt_agent.Base.Run.{Yields}
use xmidt_agent.Wrp.{Message, Sentinel, sentinel, blank}
use xmidt_agent.Qos.Priority.{newest_type}
use xmidt_agent.Qos.Item.{Item, no_item, payload_size, priority_newest_msg, item_less, dispose}
use xmidt_agent.Qos.Queue.{
  QosLevel, qos_low, less, PriorityQueue, dequeue, enqueue, is_too_large, trim, trimmed_before,
  marked, mark_expired, sort_positions, insert_position, trim_loop, dispose_at,
}
use xmidt_agent.Qos.Queue.Laws.{IsValid, newest-IsTieBreaker}
use xmidt_agent.Qos.Queue.Dequeue.{Dequeued, dequeue_correct}
use xmidt_agent.Qos.Queue.Enqueue.{Enqueued, enqueue_correct}
use xmidt_agent.Qos.Queue.Trim.{trim_fits}
use xmidt_agent.Qos.Queue.Evict.{RanksNoHigher, trim_lowest_first}

abbrev levels : ℕ → QosLevel
levels n = qos_low

abbrev message : ℕ → Text → Message
message quality payload = record blank { quality_of_service = quality; payload = payload }

abbrev item : ℕ → Text → ℕ → Item
item quality payload expires = record {
  msg = message quality payload;
  expires = expires;
  discard = false;
}

-- Three items of three, two and four bytes, and room for seven bytes.
abbrev sample : PriorityQueue
sample = record {
  queue = item 75 (codes "abc") 30 ∷ item 50 (codes "de") 20 ∷ item 25 (codes "fghi") 40 ∷ [];
  priority = newest_type;
  tie_breaker = priority_newest_msg;
  max_queue_bytes = 7;
  max_message_bytes = 5;
  size_bytes = 9;
  low_expires = 10;
  medium_expires = 20;
  high_expires = 30;
  critical_expires = 40;
}

sample_heap :
    (c : ℕ)
    → 0 < c
    → c < 3
    → less sample (get_or sample.queue c no_item) (get_or sample.queue ((c - 1) / 2) no_item)
      ≡ false
unfolding item_less
sample_heap zero p q = absurd (omega arith)
sample_heap (suc zero) p q = refl
sample_heap (suc (suc zero)) p q = refl
sample_heap (suc (suc (suc c))) p q = absurd (omega arith)

sample-IsValid : IsValid sample
sample-IsValid = record { heap = sample_heap; sized = refl; blanked = refl }

dequeue_correct_example :
    Yields
      (λ (r, rest). (itm : Item) × (r ≡ some itm.msg) × Dequeued sample itm rest)
      (dequeue sample)
dequeue_correct_example = dequeue_correct sample newest-IsTieBreaker sample-IsValid (omega arith)

enqueue_correct_example :
    Yields
      (λ (err, r).
        Enqueued levels 5 sample (message 90 (codes "too long")) r
        × (err ≡ some (sentinel Sentinel.max_message_bytes)))
      (enqueue levels 5 6 sample (message 90 (codes "too long")))
unfolding is_too_large
enqueue_correct_example =
    enqueue_correct levels 5 6 sample (message 90 (codes "too long")) newest-IsTieBreaker
      sample-IsValid

trim_fits_example : sum_by payload_size (trim 0 sample).queue ≤ 7
trim_fits_example = trim_fits 0 sample newest-IsTieBreaker sample-IsValid

trim_lowest_first_example :
    RanksNoHigher newest_type (get_or sample.queue 2 no_item) (get_or sample.queue 0 no_item)
unfolding trim marked mark_expired sort_positions insert_position trimmed_before trim_loop
    dispose_at dispose
trim_lowest_first_example =
    trim_lowest_first 0 sample 2 0 (omega arith) (omega arith) refl refl refl refl
