-- ===== src/Qos/Queue/Laws.antt =====
-- The invariant of the priority queue, and what it needs of the tie breaker.
use xmidt_agent.Base.{◌≡◌, length, sum_by}
use xmidt_agent.Heap.Order.{IsStrictWeak, IsHeap}
use xmidt_agent.Qos.Item.{
  Item, no_item, payload_size, TieBreaker, item_less, priority_newest_msg, priority_oldest_msg,
  newest-IsStrictWeak, oldest-IsStrictWeak, discarded_size,
}
use xmidt_agent.Qos.Queue.{PriorityQueue, less}

-- The tie breaker reads the expiries alone, and orders them.
pub record IsTieBreaker (t : TieBreaker) : Type 0 where
  pub ordered : IsStrictWeak (item_less t)
  pub by_expiry :
      (x y x' y' : Item) → x.expires ≡ x'.expires → y.expires ≡ y'.expires → t x y ≡ t x' y'

pub newest-IsTieBreaker : IsTieBreaker priority_newest_msg
unfolding priority_newest_msg
newest-IsTieBreaker = record {
  ordered = newest-IsStrictWeak;
  by_expiry = λ x y x' y' p q. rw (p, q);
}

pub oldest-IsTieBreaker : IsTieBreaker priority_oldest_msg
unfolding priority_oldest_msg
oldest-IsTieBreaker = record {
  ordered = oldest-IsStrictWeak;
  by_expiry = λ x y x' y' p q. rw (p, q);
}

-- What the queue keeps true: the heap order, sizeBytes as the sum of the payloads, and no payload
-- in an item that is marked to be discarded.
pub record IsValid (pq : PriorityQueue) : Type 0 where
  pub heap : IsHeap (less pq) no_item pq.queue (length pq.queue)
  pub sized : pq.size_bytes ≡ sum_by payload_size pq.queue
  pub blanked : sum_by discarded_size pq.queue ≡ 0
