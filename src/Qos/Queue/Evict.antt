-- ===== src/Qos/Queue/Evict.antt =====
-- trim: whom the bound on the size costs.
use xmidt_agent.Base.{
  ◌⊎◌, ℕ, ◌≤◌, ◌<◌, ◌≡◌, sym, ◌∙◌, true, false, List, [], ◌∷◌, length, get_or, elem, leb, arith,
  Bool-cases, inl, inr,
}
use xmidt_agent.Heap.Order.{IsStrictWeak}
use xmidt_agent.Heap.Arrays.{get_or-set_at}
use xmidt_agent.Qos.Priority.{PriorityType, newest_type}
use xmidt_agent.Qos.Item.{Item, no_item, dispose}
use xmidt_agent.Qos.Queue.{
  PriorityQueue, expired, trimmed_before, insert_position, sort_positions, dispose_at, trim_loop,
  marked, trim,
}
use xmidt_agent.Qos.Queue.Discard.{
  IsTrimmed-qos, IsTrimmed-expires, IsTrimmed-discard, dispose_at-IsTrimmed, dispose_at-queue,
  mark-unexpired,
}
use xmidt_agent.Qos.Queue.Trim.{
  elem-insert, loop-IsTrimmed, marked-IsTrimmed, sorted-IsCovered, marked-kept, trim_cases,
}

trimmed_before-IsStrictWeak : (p : PriorityType) → IsStrictWeak (trimmed_before p)
unfolding trimmed_before
trimmed_before-IsStrictWeak newest_type = record {
  asym = λ x y h. ground arith;
  negtrans = λ x y z h k. ground arith;
}
trimmed_before-IsStrictWeak _ = record {
  asym = λ x y h. ground arith;
  negtrans = λ x y z h k. ground arith;
}

trimmed_before_keys :
    (p : PriorityType) (x y x' y' : Item)
    → x'.msg.quality_of_service ≡ x.msg.quality_of_service
    → x'.expires ≡ x.expires
    → y'.msg.quality_of_service ≡ y.msg.quality_of_service
    → y'.expires ≡ y.expires
    → trimmed_before p x' y' ≡ trimmed_before p x y
unfolding trimmed_before
trimmed_before_keys newest_type x y x' y' a b c e = simp (a, b, c, e)
trimmed_before_keys _ x y x' y' a b c e = simp (a, b, c, e)

-- No position of the list holds an item that the sort places before those further left.
abbrev IsSorted : PriorityType → List Item → List ℕ → Type 0
IsSorted p q [] = Unit {0}
IsSorted p q (k ∷ l) =
    ((m : ℕ) → elem m l ≡ true → trimmed_before p (get_or q m no_item) (get_or q k no_item) ≡ false)
    × IsSorted p q l

insert-IsSorted :
    (p : PriorityType) (q : List Item) (i : ℕ) (l : List ℕ)
    → IsSorted p q l
    → IsSorted p q (insert_position p q i l)
unfolding insert_position
insert-IsSorted p q i [] s = (λ m e. cc, tt)
insert-IsSorted p q i (j ∷ l) s =
    let w = trimmed_before-IsStrictWeak p in
    let at : ℕ → Item = λ m. get_or q m no_item in
    elim (Bool-cases (trimmed_before p (at j) (at i))) [
      | inl after ↦ rw after (
        (λ m e. ground (arith, elem-insert p q i m l, s.0 m, w.asym (at j) (at i))),
        insert-IsSorted p q i l s.1,
      )
      | inr before ↦ rw before ((λ m e. ground (arith, s.0 m, w.negtrans (at m) (at j) (at i))), s)
    ]

sort-IsSorted :
    (p : PriorityType) (q : List Item) (l : List ℕ) → IsSorted p q (sort_positions p q l)
unfolding sort_positions
sort-IsSorted p q [] = tt
sort-IsSorted p q (i ∷ l) = insert-IsSorted p q i _ (sort-IsSorted p q l)

-- What the loop discards is placed by the sort before all that it keeps.
loop_order :
    (p : PriorityType) (q : List Item) (l : List ℕ) (pq : PriorityQueue) (i j : ℕ)
    → IsSorted p q l
    → i < length pq.queue
    → j < length pq.queue
    → (get_or pq.queue i no_item).discard ≡ false
    → (get_or (trim_loop l pq).queue i no_item).discard ≡ true
    → (get_or (trim_loop l pq).queue j no_item).discard ≡ false
    → elem j l ≡ true
    → trimmed_before p (get_or q j no_item) (get_or q i no_item) ≡ false
unfolding trim_loop dispose
loop_order p q [] pq i j s hi hj d = λ d' e m. cc
loop_order p q (k ∷ l) pq i j s hi hj d =
    let next = dispose_at pq k in
    let once = dispose_at-IsTrimmed pq k in
    let hi' : i < length next.queue = omega (arith, once.size) in
    let hj' : j < length next.queue = omega (arith, once.size) in
    let ih = loop_order p q l next i j s.1 hi' hj' in
    let x = (dispose (get_or pq.queue k no_item)).1 in
    elim (Bool-cases (leb pq.size_bytes pq.max_queue_bytes)) [
      | inl fits ↦ rw fits (λ d' e m. cc)
      | inr over ↦ rw over (λ d' e m. ground (
        arith,
        ih,
        s.0 j,
        dispose_at-queue pq k,
        get_or-set_at no_item pq.queue k i x hi,
        get_or-set_at no_item pq.queue k j x hj,
        IsTrimmed-discard (loop-IsTrimmed l next) j hj',
      ))
    ]

marked-unexpired :
    (now : ℕ) (pq : PriorityQueue) (i : ℕ)
    → i < length pq.queue
    → expired now (get_or pq.queue i no_item) ≡ false
    → get_or (marked now pq).0.queue i no_item ≡ get_or pq.queue i no_item
unfolding marked
marked-unexpired now pq i = mark-unexpired now 0 i pq.queue pq.size_bytes

marked_order :
    (now : ℕ) (pq : PriorityQueue) (i j : ℕ)
    → i < length pq.queue
    → j < length pq.queue
    → (get_or pq.queue i no_item).discard ≡ false
    → expired now (get_or pq.queue i no_item) ≡ false
    → let (pq', cache) = marked now pq in
      let l = sort_positions pq'.priority pq'.queue cache in
      (get_or (trim_loop l pq').queue i no_item).discard ≡ true
      → (get_or (trim_loop l pq').queue j no_item).discard ≡ false
      → trimmed_before pq'.priority (get_or pq'.queue j no_item) (get_or pq'.queue i no_item)
        ≡ false
marked_order now pq i j hi hj d e d' k =
    let (pq', cache) = marked now pq in
    let l = sort_positions pq'.priority pq'.queue cache in
    let s = marked-IsTrimmed now pq in
    let hi' : i < length pq'.queue = omega (arith, s.size) in
    let hj' : j < length pq'.queue = omega (arith, s.size) in
    let stays : (get_or pq'.queue j no_item).discard ≡ false =
      ground (arith, k, IsTrimmed-discard (loop-IsTrimmed l pq') j hj') in
    loop_order pq'.priority pq'.queue l pq' i j (sort-IsSorted pq'.priority pq'.queue cache) hi' hj'
      (rw (marked-unexpired now pq i hi e) d) d' k (sorted-IsCovered now pq j hj' stays)

discarded_not_before :
    (now : ℕ) (pq : PriorityQueue) (i j : ℕ)
    → i < length pq.queue
    → j < length pq.queue
    → (get_or pq.queue i no_item).discard ≡ false
    → expired now (get_or pq.queue i no_item) ≡ false
    → (get_or (trim now pq).queue i no_item).discard ≡ true
    → (get_or (trim now pq).queue j no_item).discard ≡ false
    → trimmed_before pq.priority (get_or pq.queue j no_item) (get_or pq.queue i no_item) ≡ false
discarded_not_before now pq i j hi hj d e =
    trim_cases
      (λ r.
        (get_or r.queue i no_item).discard ≡ true
        → (get_or r.queue j no_item).discard ≡ false
        → trimmed_before pq.priority (get_or pq.queue j no_item) (get_or pq.queue i no_item)
          ≡ false)
      now pq (λ _ d' k. cc)
      (λ _ d' k.
        let s = marked-IsTrimmed now pq in
        sym (
          trimmed_before_keys pq.priority (get_or pq.queue j no_item) (get_or pq.queue i no_item) _
            _ (IsTrimmed-qos s j hj) (IsTrimmed-expires s j hj) (IsTrimmed-qos s i hi)
            (IsTrimmed-expires s i hi))
        ∙ rw (marked-kept now pq).3 at (marked_order now pq i j hi hj d e d' k))

-- Of two instants, the first loses the tie or is the same.
abbrev pub LosesTie : PriorityType → ℕ → ℕ → Type 0
LosesTie newest_type x y = x ≤ y
LosesTie _ x y = y ≤ x

-- `x` is not of a higher quality of service than `y`; where they are of the same, `x` expires no later
-- than `y` if the newest messages have priority, and no earlier otherwise.
abbrev pub RanksNoHigher : PriorityType → Item → Item → Type 0
RanksNoHigher p x y =
    (x.msg.quality_of_service < y.msg.quality_of_service)
    ⊎ (x.msg.quality_of_service ≡ y.msg.quality_of_service) × LosesTie p x.expires y.expires

not_before-RanksNoHigher :
    (p : PriorityType) (x y : Item) → trimmed_before p y x ≡ false → RanksNoHigher p x y
unfolding trimmed_before
not_before-RanksNoHigher newest_type x y h = ground (arith, h)
not_before-RanksNoHigher _ x y h = ground (arith, h)

-- Of two items, the one that trim discards though it had not expired ranks no higher than the one
-- that trim keeps: it is of a lower quality of service, or of the same and on the losing side of the
-- tie.
pub trim_lowest_first :
    (now : ℕ) (pq : PriorityQueue) (i j : ℕ)
    → i < length pq.queue
    → j < length pq.queue
    → (get_or pq.queue i no_item).discard ≡ false
    → expired now (get_or pq.queue i no_item) ≡ false
    → (get_or (trim now pq).queue i no_item).discard ≡ true
    → (get_or (trim now pq).queue j no_item).discard ≡ false
    → RanksNoHigher pq.priority (get_or pq.queue i no_item) (get_or pq.queue j no_item)
trim_lowest_first now pq i j hi hj d e d' k =
    not_before-RanksNoHigher pq.priority _ _ (discarded_not_before now pq i j hi hj d e d' k)
