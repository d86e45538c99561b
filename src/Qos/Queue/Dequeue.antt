-- ===== src/Qos/Queue/Dequeue.antt =====
-- Dequeue takes the first item of the order, and keeps the invariant.
use mathlib.Core.List.Perm
use xmidt_agent.Base.{
  ℕ, suc, ◌-◌, ◌<◌, ◌≡◌, refl, false, List, ◌∷◌, some, Perm, length, get_or, take, sum_by-perm,
  length-perm, ◌==◌, arith, ◌∙◌,
}
use xmidt_agent.Base.Run.{Yields, yields, Yields-then, Yields-branch, Yields-value}
use xmidt_agent.Heap.{parent}
use xmidt_agent.Heap.Arrays.{
  swapped, length-swapped, get_or-swapped, swapped-perm, get_or-take, take-snoc, snoc-perm,
  get_elem?-get_or,
}
use xmidt_agent.Heap.Sift.{Sifted, DownInv, down_lem, root_lem, swap_at-in_range}
use xmidt_agent.Qos.Item.{Item, no_item, payload_size, discarded_size}
use xmidt_agent.Qos.Queue.{PriorityQueue, less, pop, heap_pop, dequeue}
use xmidt_agent.Qos.Queue.Laws.{IsTieBreaker, IsValid}

-- The message and the queue that a Dequeue of `pq` leaves.
pub record Dequeued (pq : PriorityQueue) (itm : Item) (rest : PriorityQueue) : Type 0 where
  pub valid : IsValid rest
  pub same : Perm (itm ∷ rest.queue) pq.queue
  pub first : (i : ℕ) → i < length pq.queue → less pq (get_or pq.queue i no_item) itm ≡ false
  pub limits :
      (rest.max_queue_bytes ≡ pq.max_queue_bytes)
      × (rest.max_message_bytes ≡ pq.max_message_bytes)
      × (rest.tie_breaker ≡ pq.tie_breaker)

pop_last :
    (pq : PriorityQueue) (n : ℕ)
    → length pq.queue ≡ suc n
    → let itm = get_or pq.queue n no_item in
      pop pq ≡ (
        some itm,
        record pq { size_bytes = pq.size_bytes - payload_size itm; queue = take n pq.queue },
      )
unfolding pop
pop_last pq n size =
    let at : length pq.queue - 1 ≡ n = omega arith in
    rw (at, get_elem?-get_or no_item pq.queue n (omega arith), pop) (rw at)

module _ (pq : PriorityQueue) (t : IsTieBreaker pq.tie_breaker) (v : IsValid pq) (n : ℕ)
    (size : length pq.queue ≡ suc n) where
  abbrev top : Item
  top = get_or pq.queue 0 no_item

  swapped-DownInv : DownInv (less pq) no_item t.ordered (swapped no_item pq.queue 0 n) 0 n
  swapped-DownInv =
      let at = get_or-swapped no_item pq.queue 0 n (omega arith) (omega arith) in
      record {
        inside = omega (arith, length-swapped no_item pq.queue 0 n);
        edges = λ c p q r. ground (arith, at c, at (parent c), v.heap c);
        bridged = λ c p q r s. absurd (omega arith);
      }

  -- What is left when the last item of the sifted list is cut off.
  abbrev cut : List Item → PriorityQueue
  cut b = record pq { size_bytes = pq.size_bytes - payload_size top; queue = take n b }

  module _ (b : List Item)
      (s : Sifted (less pq) no_item t.ordered (swapped no_item pq.queue 0 n) n b) where
    length-sifted : length b ≡ suc n
    length-sifted = length-perm s.same ∙ length-swapped no_item pq.queue 0 n ∙ size

    last-sifted : get_or b n no_item ≡ top
    last-sifted =
        s.rest n (omega arith)
        ∙ ground (arith, get_or-swapped no_item pq.queue 0 n (omega arith) (omega arith) n)

    cut-same : Perm (top ∷ take n b) pq.queue
    cut-same =
        let snoc = Perm.symm (snoc-perm no_item (take n b) (get_or b n no_item)) in
        let whole = rw (take-snoc no_item n b length-sifted) at snoc in
        rw last-sifted at (
          Perm.trans whole
            (Perm.trans s.same (swapped-perm no_item pq.queue 0 n (omega arith) (omega arith))))

    cut-Dequeued : Dequeued pq top (cut b)
    cut-Dequeued =
        let kept = sum_by-perm payload_size cut-same in
        let blank = sum_by-perm discarded_size cut-same in
        record {
          valid = record {
            heap = λ c p q. ground (
              arith,
              s.heap c,
              get_or-take no_item n b c,
              get_or-take no_item n b (parent c),
              length-perm cut-same,
            );
            sized = omega (arith, v.sized);
            blanked = omega (arith, v.blanked);
          };
          same = cut-same;
          first = λ i p. root_lem (less pq) no_item t.ordered pq.queue (length pq.queue) i v.heap p;
          limits = (refl, refl, refl);
        }

-- heap.Pop on a queue of `n + 1` items.
pub heap_pop_correct :
    (pq : PriorityQueue) (n : ℕ)
    → IsTieBreaker pq.tie_breaker
    → IsValid pq
    → length pq.queue ≡ suc n
    → Yields
        (λ (r, rest).
          (r ≡ some (get_or pq.queue 0 no_item)) × Dequeued pq (get_or pq.queue 0 no_item) rest)
        (heap_pop pq)
unfolding heap_pop
heap_pop_correct pq n t v size =
    let at : length pq.queue - 1 ≡ n = omega arith in
    let (b, e, s) = Yields-value (
      down_lem (less pq) no_item t.ordered (suc n) (swapped no_item pq.queue 0 n) 0 n (omega arith)
        (swapped-DownInv pq t v n size)) in
    let long : length b ≡ suc n = length-sifted pq t v n size b s in
    rw
      (
        at,
        swap_at-in_range (less pq) no_item t.ordered pq.queue 0 n (omega arith) (omega arith),
        e,
        pop_last (record pq { queue = b }) n long,
        last-sifted pq t v n size b s,
      )
      (yields (refl, cut-Dequeued pq t v n size b s))

-- A Dequeue of a valid queue that is not empty, and whose tie breaker orders the expiries, comes back
-- with the message of an item which no other item of the queue comes before, and with a valid queue of
-- all the others.
pub dequeue_correct :
    (pq : PriorityQueue)
    → IsTieBreaker pq.tie_breaker
    → IsValid pq
    → 0 < length pq.queue
    → Yields (λ (r, rest). (itm : Item) × (r ≡ some itm.msg) × Dequeued pq itm rest) (dequeue pq)
unfolding dequeue
dequeue_correct pq t v h =
    Yields-branch (length pq.queue == 0) (λ e. absurd (ground arith))
      λ _.
        Yields-then (heap_pop_correct pq (length pq.queue - 1) t v (omega arith))
          λ (r, rest) (e, d). yields (get_or pq.queue 0 no_item, rw e, d)
