-- ===== src/Qos/Queue/Discard.antt =====
-- Items that are disposed of: what changes in the queue, and what stays.
use xmidt_agent.Base.{
  ℕ, zero, suc, ◌+◌, ◌-◌, ◌<◌, ◌≡◌, ◌⊎◌, inl, inr, refl, ap, ◌∙◌, true, false, List, [], ◌∷◌,
  length, get_or, set, sum_by, length-set, elem, if◌then◌else◌, arith, Bool-cases,
}
use xmidt_agent.Heap.{parent}
use xmidt_agent.Heap.Order.{IsHeap}
use xmidt_agent.Heap.Arrays.{get_or-set_at, sum_by-set}
use xmidt_agent.Qos.Item.{
  Item, no_item, payload_size, discarded_size, dispose, TieBreaker, item_less,
}
use xmidt_agent.Qos.Queue.{PriorityQueue, expired, mark_expired, dispose_at}
use xmidt_agent.Qos.Queue.Laws.{IsTieBreaker, IsValid}

-- Each item of `q'` is the item of `q` at its place, or that item disposed of.
pub record IsTrimmed (q q' : List Item) : Type 0 where
  pub size : length q' ≡ length q
  pub each :
      (i : ℕ)
      → i < length q
      → (get_or q' i no_item ≡ get_or q i no_item)
        ⊎ (get_or q' i no_item ≡ (dispose (get_or q i no_item)).1)

pub IsTrimmed-refl : (q : List Item) → IsTrimmed q q
IsTrimmed-refl q = record { size = refl; each = λ i h. inl refl }

dispose_idem : (x : Item) → (dispose (dispose x).1).1 ≡ (dispose x).1
unfolding dispose
dispose_idem x = refl

pub IsTrimmed-trans : {p q r : List Item} → IsTrimmed p q → IsTrimmed q r → IsTrimmed p r
IsTrimmed-trans {p} {q} {r} s t = record {
  size = t.size ∙ s.size;
  each = λ i h. ground (arith, s.size, s.each i h, t.each i, dispose_idem (get_or p i no_item));
}

-- Disposing keeps what the order reads, and discards for good.
module _ {q q' : List Item} (s : IsTrimmed q q') (i : ℕ) (h : i < length q) where
  pub IsTrimmed-qos :
      (get_or q' i no_item).msg.quality_of_service ≡ (get_or q i no_item).msg.quality_of_service
  unfolding dispose
  IsTrimmed-qos = elim (s.each i h) [ inl e ↦ rw e | inr e ↦ rw e ]

  pub IsTrimmed-expires : (get_or q' i no_item).expires ≡ (get_or q i no_item).expires
  unfolding dispose
  IsTrimmed-expires = elim (s.each i h) [ inl e ↦ rw e | inr e ↦ rw e ]

  pub IsTrimmed-discard : (get_or q i no_item).discard ≡ true → (get_or q' i no_item).discard ≡ true
  unfolding dispose
  IsTrimmed-discard p = elim (s.each i h) [ inl e ↦ rw e p | inr e ↦ rw e ]

item_less_keys :
    (t : TieBreaker)
    → IsTieBreaker t
    → (x y x' y' : Item) → x'.msg.quality_of_service ≡ x.msg.quality_of_service
    → x'.expires ≡ x.expires
    → y'.msg.quality_of_service ≡ y.msg.quality_of_service
    → y'.expires ≡ y.expires
    → item_less t x' y' ≡ item_less t x y
unfolding item_less
item_less_keys t laws x y x' y' p p' q q' = rw (laws.by_expiry x' y' x y p' q', p, q)

pub IsTrimmed-IsHeap :
    {t : TieBreaker} {q q' : List Item}
    → IsTieBreaker t
    → IsTrimmed q q'
    → IsHeap (item_less t) no_item q (length q)
    → IsHeap (item_less t) no_item q' (length q')
IsTrimmed-IsHeap {t} {q} {q'} laws s h c p l =
    let hc : c < length q = omega (arith, s.size) in
    let hp : parent c < length q = omega arith in
    item_less_keys t laws (get_or q c no_item) (get_or q (parent c) no_item) _ _
      (IsTrimmed-qos s c hc) (IsTrimmed-expires s c hc) (IsTrimmed-qos s (parent c) hp)
      (IsTrimmed-expires s (parent c) hp)
    ∙ h c p hc

pub set-IsTrimmed : (q : List Item) (i : ℕ) → IsTrimmed q (set q i (dispose (get_or q i no_item)).1)
set-IsTrimmed q i = record {
  size = length-set q i _;
  each = λ j h. ground (arith, get_or-set_at no_item q i j (dispose (get_or q i no_item)).1 h);
}

dispose-sizes :
    (x : Item)
    → ((dispose x).0 ≡ payload_size x)
      × (payload_size (dispose x).1 ≡ 0)
      × (discarded_size (dispose x).1 ≡ 0)
unfolding dispose
dispose-sizes x = (refl, refl, refl)

pub dispose_at-queue :
    (pq : PriorityQueue) (i : ℕ)
    → (dispose_at pq i).queue ≡ set pq.queue i (dispose (get_or pq.queue i no_item)).1
unfolding dispose_at
dispose_at-queue pq i = refl

pub dispose_at-IsTrimmed : (pq : PriorityQueue) (i : ℕ) → IsTrimmed pq.queue (dispose_at pq i).queue
unfolding dispose_at
dispose_at-IsTrimmed pq i = set-IsTrimmed pq.queue i

pub dispose_at-IsValid :
    (pq : PriorityQueue) (i : ℕ)
    → IsTieBreaker pq.tie_breaker
    → IsValid pq
    → IsValid (dispose_at pq i)
unfolding dispose_at
dispose_at-IsValid pq i t v =
    let x = get_or pq.queue i no_item in
    let sizes = dispose-sizes x in
    let total = sum_by-set no_item payload_size pq.queue i (dispose x).1 refl sizes.1 in
    let blank = sum_by-set no_item discarded_size pq.queue i (dispose x).1 refl sizes.2 in
    record {
      heap = IsTrimmed-IsHeap t (set-IsTrimmed pq.queue i) v.heap;
      sized = omega (arith, v.sized, total, sizes.0);
      blanked = omega (arith, v.blanked, blank);
    }

-- The first loop of trim.
pub mark-IsTrimmed :
    (now i : ℕ) (q : List Item) (size : ℕ) → IsTrimmed q (mark_expired now i q size).0
unfolding mark_expired
mark-IsTrimmed now i [] size = IsTrimmed-refl []
mark-IsTrimmed now i (x ∷ q) size =
    let rest =
      mark-IsTrimmed now (suc i) q (if expired now x then size - payload_size x else size) in
    record {
      size = ap suc rest.size;
      each = elim [ zero ↦ λ h. ground arith | suc j ↦ λ h. rest.each j (omega arith) ];
    }

-- It takes what it disposes of off the size.
pub mark-sized :
    (now i : ℕ) (q : List Item) (size rest : ℕ)
    → size ≡ rest + sum_by payload_size q
    → (mark_expired now i q size).1 ≡ rest + sum_by payload_size (mark_expired now i q size).0
unfolding mark_expired
mark-sized now i [] size rest h = h
mark-sized now i (x ∷ q) size rest h = elim (Bool-cases (expired now x)) [
  | inl gone ↦ rw gone (
      omega (
        arith,
        (dispose-sizes x).1,
        mark-sized now (suc i) q (size - payload_size x) rest (omega arith),
      ))
  | inr stays ↦
      rw stays (omega (arith, mark-sized now (suc i) q size (rest + payload_size x) (omega arith)))
]

pub mark-blanked :
    (now i : ℕ) (q : List Item) (size : ℕ)
    → sum_by discarded_size q ≡ 0
    → sum_by discarded_size (mark_expired now i q size).0 ≡ 0
unfolding mark_expired
mark-blanked now i [] size h = refl
mark-blanked now i (x ∷ q) size h =
    let size' = if expired now x then size - payload_size x else size in
    let rest = mark-blanked now (suc i) q size' (omega arith) in
    elim (Bool-cases (expired now x)) [
      | inl gone ↦ rw gone (omega (arith, (dispose-sizes x).2, rw gone at rest))
      | inr stays ↦ rw stays (omega (arith, rw stays at rest))
    ]

-- The items that it leaves undiscarded are in the cache,
pub mark-cache :
    (now i j k : ℕ) (q : List Item) (size : ℕ)
    → j < length q
    → k ≡ i + j
    → (get_or (mark_expired now i q size).0 j no_item).discard ≡ false
    → elem k (mark_expired now i q size).2 ≡ true
unfolding mark_expired dispose
mark-cache now i j k [] size h e = absurd (omega arith)
mark-cache now i zero k (x ∷ q) size h e = λ d. ground arith
mark-cache now i (suc j) k (x ∷ q) size h e = λ d. ground (
  arith,
  mark-cache now (suc i) j k q (if expired now x then size - payload_size x else size) (omega arith)
      (omega arith) d,
)

-- and those that had expired are discarded.
pub mark-expired :
    (now i j : ℕ) (q : List Item) (size : ℕ)
    → j < length q
    → expired now (get_or q j no_item) ≡ true
    → (get_or (mark_expired now i q size).0 j no_item).discard ≡ true
unfolding mark_expired dispose
mark-expired now i j [] size h e = absurd (omega arith)
mark-expired now i zero (x ∷ q) size h e = rw e
mark-expired now i (suc j) (x ∷ q) size h e = mark-expired now (suc i) j q _ (omega arith) e

pub mark-unexpired :
    (now i j : ℕ) (q : List Item) (size : ℕ)
    → j < length q
    → expired now (get_or q j no_item) ≡ false
    → get_or (mark_expired now i q size).0 j no_item ≡ get_or q j no_item
unfolding mark_expired
mark-unexpired now i j [] size h e = absurd (omega arith)
mark-unexpired now i zero (x ∷ q) size h e = rw e
mark-unexpired now i (suc j) (x ∷ q) size h e = mark-unexpired now (suc i) j q _ (omega arith) e
