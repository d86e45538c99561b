-- ===== src/Qos/Queue/Trim.antt =====
-- trim: the bound on the queue's size, and whom it costs.
use xmidt_agent.Base.{
  ℕ, suc, ◌≤◌, ◌<◌, ◌≡◌, refl, ◌∙◌, true, false, List, [], ◌∷◌, length, get_or, sum_by, elem, leb,
  ◌==◌, ◌||◌, arith, Bool-cases, inl, inr,
}
use xmidt_agent.Heap.Arrays.{get_or-set_at}
use xmidt_agent.Qos.Priority.{PriorityType}
use xmidt_agent.Qos.Item.{Item, no_item, payload_size, discarded_size, dispose}
use xmidt_agent.Qos.Queue.{
  PriorityQueue, expired, insert_position, sort_positions, dispose_at, trim_loop, marked, trim,
}
use xmidt_agent.Qos.Queue.Laws.{IsTieBreaker, IsValid}
use xmidt_agent.Qos.Queue.Discard.{
  IsTrimmed, IsTrimmed-refl, IsTrimmed-trans, IsTrimmed-discard, IsTrimmed-IsHeap,
  dispose_at-IsTrimmed, dispose_at-IsValid, dispose_at-queue, mark-IsTrimmed, mark-sized,
  mark-blanked, mark-cache, mark-expired,
}

pub elem-insert :
    (p : PriorityType) (q : List Item) (i m : ℕ) (l : List ℕ)
    → elem m (insert_position p q i l) ≡ (m == i || elem m l)
unfolding insert_position
elem-insert p q i m [] = refl
elem-insert p q i m (j ∷ l) = ground (arith, elem-insert p q i m l)

pub elem-sort :
    (p : PriorityType) (q : List Item) (m : ℕ) (l : List ℕ)
    → elem m (sort_positions p q l) ≡ elem m l
unfolding sort_positions
elem-sort p q m [] = refl
elem-sort p q m (i ∷ l) = elem-insert p q i m (sort_positions p q l) ∙ rw (elem-sort p q m l)

-- The second loop.
pub loop-IsTrimmed : (l : List ℕ) (pq : PriorityQueue) → IsTrimmed pq.queue (trim_loop l pq).queue
unfolding trim_loop
loop-IsTrimmed [] pq = IsTrimmed-refl pq.queue
loop-IsTrimmed (i ∷ l) pq = elim (Bool-cases (leb pq.size_bytes pq.max_queue_bytes)) [
  | inl fits ↦ rw fits (IsTrimmed-refl pq.queue)
  | inr over ↦
      rw over (IsTrimmed-trans (dispose_at-IsTrimmed pq i) (loop-IsTrimmed l (dispose_at pq i)))
]

loop-kept :
    (l : List ℕ) (pq : PriorityQueue)
    → ((trim_loop l pq).max_queue_bytes ≡ pq.max_queue_bytes)
      × ((trim_loop l pq).max_message_bytes ≡ pq.max_message_bytes)
      × ((trim_loop l pq).tie_breaker ≡ pq.tie_breaker)
unfolding trim_loop dispose_at
loop-kept [] pq = (refl, refl, refl)
loop-kept (i ∷ l) pq = ground (arith, loop-kept l (dispose_at pq i))

loop-IsValid :
    (l : List ℕ) (pq : PriorityQueue)
    → IsTieBreaker pq.tie_breaker
    → IsValid pq
    → IsValid (trim_loop l pq)
unfolding trim_loop
loop-IsValid [] pq t v = v
loop-IsValid (i ∷ l) pq t v = elim (Bool-cases (leb pq.size_bytes pq.max_queue_bytes)) [
  | inl fits ↦ rw fits v
  | inr over ↦
      rw over
        (loop-IsValid l (dispose_at pq i) (unfold dispose_at in t) (dispose_at-IsValid pq i t v))
]

-- Every item that is not yet discarded is still to come in the list.
abbrev pub IsCovered : List Item → List ℕ → Type 0
IsCovered q l = (j : ℕ) → j < length q → (get_or q j no_item).discard ≡ false → elem j l ≡ true

all_discarded : (q : List Item) → IsCovered q [] → sum_by payload_size q ≡ sum_by discarded_size q
all_discarded [] c = refl
all_discarded (x ∷ q) c =
    ground (arith, c 0 (omega arith), all_discarded q (λ j h d. c (suc j) (omega arith) d))

dispose_at-IsCovered :
    (pq : PriorityQueue) (i : ℕ) (l : List ℕ)
    → IsCovered pq.queue (i ∷ l)
    → IsCovered (dispose_at pq i).queue l
unfolding dispose
dispose_at-IsCovered pq i l c j h d =
    let s = dispose_at-IsTrimmed pq i in
    let at =
      get_or-set_at no_item pq.queue i j (dispose (get_or pq.queue i no_item)).1
        (omega (arith, s.size)) in
    ground (arith, at, dispose_at-queue pq i, c j, s.size, IsTrimmed-discard s j)

loop_fits :
    (l : List ℕ) (pq : PriorityQueue)
    → IsTieBreaker pq.tie_breaker
    → IsValid pq
    → IsCovered pq.queue l
    → (trim_loop l pq).size_bytes ≤ pq.max_queue_bytes
unfolding trim_loop dispose_at
loop_fits [] pq t v c = omega (arith, v.sized, v.blanked, all_discarded pq.queue c)
loop_fits (i ∷ l) pq t v c =
    let rest =
      loop_fits l (dispose_at pq i) t (dispose_at-IsValid pq i t v)
        (dispose_at-IsCovered pq i l c) in
    elim (Bool-cases (leb pq.size_bytes pq.max_queue_bytes)) [
      | inl fits ↦ rw fits (ground arith)
      | inr over ↦ rw over rest
    ]

pub marked-IsTrimmed : (now : ℕ) (pq : PriorityQueue) → IsTrimmed pq.queue (marked now pq).0.queue
unfolding marked
marked-IsTrimmed now pq = mark-IsTrimmed now 0 pq.queue pq.size_bytes

marked-IsValid :
    (now : ℕ) (pq : PriorityQueue)
    → IsTieBreaker pq.tie_breaker
    → IsValid pq
    → IsValid (marked now pq).0
unfolding marked
marked-IsValid now pq t v = record {
  heap = IsTrimmed-IsHeap t (mark-IsTrimmed now 0 pq.queue pq.size_bytes) v.heap;
  sized = mark-sized now 0 pq.queue pq.size_bytes 0 (omega (arith, v.sized)) ∙ omega arith;
  blanked = mark-blanked now 0 pq.queue pq.size_bytes v.blanked;
}

marked-IsCovered :
    (now : ℕ) (pq : PriorityQueue) → IsCovered (marked now pq).0.queue (marked now pq).1
unfolding marked
marked-IsCovered now pq j h =
    mark-cache now 0 j j pq.queue pq.size_bytes
      (omega (arith, (mark-IsTrimmed now 0 pq.queue pq.size_bytes).size)) (omega arith)

pub sorted-IsCovered :
    (now : ℕ) (pq : PriorityQueue)
    → let (pq', cache) = marked now pq in
      IsCovered pq'.queue (sort_positions pq'.priority pq'.queue cache)
sorted-IsCovered now pq j h d =
    let (pq', cache) = marked now pq in
    elem-sort pq'.priority pq'.queue j cache ∙ marked-IsCovered now pq j h d

pub marked-kept :
    (now : ℕ) (pq : PriorityQueue)
    → ((marked now pq).0.max_queue_bytes ≡ pq.max_queue_bytes)
      × ((marked now pq).0.max_message_bytes ≡ pq.max_message_bytes)
      × ((marked now pq).0.tie_breaker ≡ pq.tie_breaker)
      × ((marked now pq).0.priority ≡ pq.priority)
unfolding marked
marked-kept now pq = (refl, refl, refl, refl)

-- The two cases of trim: the queue fits, or the loops run.
pub trim_cases {ℓ} :
    (P : PriorityQueue → Type ℓ) (now : ℕ) (pq : PriorityQueue)
    → (pq.size_bytes ≤ pq.max_queue_bytes → P pq)
    → (pq.max_queue_bytes < pq.size_bytes
        → let (pq', cache) = marked now pq in
          P (trim_loop (sort_positions pq'.priority pq'.queue cache) pq'))
    → P (trim now pq)
unfolding trim
trim_cases P now pq fits over = elim (Bool-cases (leb pq.size_bytes pq.max_queue_bytes)) [
  | inl e ↦ rw e (fits (ground arith))
  | inr e ↦ rw e (over (ground arith))
]

pub trim-IsTrimmed : (now : ℕ) (pq : PriorityQueue) → IsTrimmed pq.queue (trim now pq).queue
trim-IsTrimmed now pq =
    trim_cases (λ r. IsTrimmed pq.queue r.queue) now pq (λ _. IsTrimmed-refl pq.queue)
      (λ _. IsTrimmed-trans (marked-IsTrimmed now pq) (loop-IsTrimmed _ _))

pub trim-IsValid :
    (now : ℕ) (pq : PriorityQueue)
    → IsTieBreaker pq.tie_breaker
    → IsValid pq
    → IsValid (trim now pq)
unfolding marked
trim-IsValid now pq t v =
    trim_cases IsValid now pq (λ _. v)
      (λ _. loop-IsValid _ (marked now pq).0 t (marked-IsValid now pq t v))

pub trim-kept :
    (now : ℕ) (pq : PriorityQueue)
    → ((trim now pq).max_queue_bytes ≡ pq.max_queue_bytes)
      × ((trim now pq).max_message_bytes ≡ pq.max_message_bytes)
      × ((trim now pq).tie_breaker ≡ pq.tie_breaker)
unfolding marked
trim-kept now pq =
    trim_cases
      (λ r.
        (r.max_queue_bytes ≡ pq.max_queue_bytes)
        × (r.max_message_bytes ≡ pq.max_message_bytes)
        × (r.tie_breaker ≡ pq.tie_breaker))
      now pq (λ _. (refl, refl, refl)) (λ _. loop-kept _ (marked now pq).0)

-- After trim the payloads of a valid queue, whose tie breaker orders the expiries, fit in
-- maxQueueBytes.
pub trim_fits :
    (now : ℕ) (pq : PriorityQueue)
    → IsTieBreaker pq.tie_breaker
    → IsValid pq
    → sum_by payload_size (trim now pq).queue ≤ pq.max_queue_bytes
unfolding marked
trim_fits now pq t v =
    let fits =
      trim_cases (λ r. r.size_bytes ≤ pq.max_queue_bytes) now pq (λ h. h)
        (λ _.
          loop_fits _ (marked now pq).0 t (marked-IsValid now pq t v) (sorted-IsCovered now pq)) in
    omega (arith, fits, (trim-IsValid now pq t v).sized)

-- A queue over its limit loses every item that has expired.
pub trim-expired :
    (now : ℕ) (pq : PriorityQueue) (i : ℕ)
    → pq.max_queue_bytes < pq.size_bytes
    → i < length pq.queue
    → expired now (get_or pq.queue i no_item) ≡ true
    → (get_or (trim now pq).queue i no_item).discard ≡ true
unfolding marked
trim-expired now pq i over h e =
    let s = marked-IsTrimmed now pq in
    trim_cases (λ r. (get_or r.queue i no_item).discard ≡ true) now pq
      (λ fits. absurd (omega arith))
      (λ _.
        IsTrimmed-discard (loop-IsTrimmed _ _) i (omega (arith, s.size))
          (mark-expired now 0 i pq.queue pq.size_bytes h e))
