-- ===== src/Qos/Service/Behaviour.antt =====
-- What serviceQOS does with the messages that reach it.
use xmidt_agent.Base.{
  ℕ, zero, suc, ◌<◌, ◌≡◌, refl, ap, Bool, true, false, List, [], ◌∷◌, ◌++◌, none, some, length,
  length-append, length-perm, get_elem?, arith, Bool-cases, inl, inr,
}
use xmidt_agent.Base.Run.{Yields, yields, Yields-then, Yields-branch, Yields-weaken, Yields-value}
use xmidt_agent.Wrp.{Message}
use xmidt_agent.Qos.Item.{TieBreaker}
use xmidt_agent.Qos.Options.{Config}
use xmidt_agent.Qos.Queue.{PriorityQueue, QosLevel, dequeue}
use xmidt_agent.Qos.Queue.Laws.{IsTieBreaker, IsValid}
use xmidt_agent.Qos.Queue.Enqueue.{enqueue_correct}
use xmidt_agent.Qos.Queue.Dequeue.{dequeue_correct}
use xmidt_agent.Qos.Service.{
  Service, Clock, Event, arrives, closes, finishes, service_queue, start, deliver, deliver_top,
  requeue, finished, is_awaited, step, run,
}

empty_of_length {ℓ} : {A : Type ℓ} (xs : List A) → length xs ≡ 0 → xs ≡ []
empty_of_length [] h = refl
empty_of_length (x ∷ xs) h = absurd (omega arith)

-- Between two events the queue is valid and holds nothing, and the delivery that is awaited exists.
pub record IsIdle (s : Service) : Type 0 where
  pub ties : IsTieBreaker s.pq.tie_breaker
  pub valid : IsValid s.pq
  pub nothing_queued : s.pq.queue ≡ []
  pub known : (d : ℕ) → s.awaited ≡ some d → d < length s.deliveries

record IsLoaded (s : Service) : Type 0 where
  ties : IsTieBreaker s.pq.tie_breaker
  valid : IsValid s.pq
  one_queued : length s.pq.queue ≡ 1

requeue-IsLoaded :
    (level : ℕ → QosLevel) (c : Clock) (s : Service) (msg : Message)
    → IsIdle s
    → Yields (λ s'. IsLoaded s' × (s'.deliveries ≡ s.deliveries)) (requeue level c s msg)
unfolding requeue
requeue-IsLoaded level c s msg h =
    Yields-then (enqueue_correct level c.pushed c.trimmed s.pq msg h.ties h.valid)
      λ (err, pq) (q, _). yields (
        record {
          ties = rw q.limits.2 h.ties;
          valid = q.valid;
          one_queued =
              omega
                (arith, q.trimmed.size, length-perm q.same, ap (length {A = _}) h.nothing_queued);
        },
        refl,
      )

-- A loaded service starts one delivery, and is idle again.
abbrev pub Delivers : Service → Service → Type 0
Delivers s s' =
    IsIdle s'
    × (s'.awaited ≡ some (length s.deliveries))
    × ((msg : Message) × (s'.deliveries ≡ s.deliveries ++ msg ∷ []))

deliver-IsLoaded : (s : Service) → IsLoaded s → Yields (Delivers s) (deliver_top s)
unfolding deliver_top deliver
deliver-IsLoaded s h =
    Yields-then (dequeue_correct s.pq h.ties h.valid (omega (arith, h.one_queued)))
      λ (top, rest) (itm, e, d). rw e (
        yields (
          record {
            ties = rw d.limits.2 h.ties;
            valid = d.valid;
            nothing_queued =
                empty_of_length rest.queue (omega (arith, h.one_queued, length-perm d.same));
            known = λ k q. ground (arith, length-append s.deliveries (itm.msg ∷ []));
          },
          refl,
          (itm.msg, refl),
        ))

-- An idle service has nothing to deliver.
dequeue-empty : (pq : PriorityQueue) → pq.queue ≡ [] → dequeue pq ≡ some (none, pq)
unfolding dequeue
dequeue-empty pq h = ground (arith, ap (length {A = _}) h)

deliver_idle : (s : Service) → IsIdle s → deliver_top s ≡ some s
unfolding deliver_top
deliver_idle s h = rw (dequeue-empty s.pq h.nothing_queued)

get_elem?-known {ℓ} :
    {A : Type ℓ} (xs : List A) (i : ℕ) → i < length xs → (x : A) × (get_elem? xs i ≡ some x)
get_elem?-known [] i h = absurd (omega arith)
get_elem?-known (x ∷ xs) zero h = (x, refl)
get_elem?-known (x ∷ xs) (suc i) h = get_elem?-known xs i (omega arith)

forgotten : Service → Service
forgotten s = record s { awaited = none }

forgotten-IsIdle : (s : Service) → IsIdle s → IsIdle (forgotten s)
unfolding forgotten
forgotten-IsIdle s h = record {
  ties = h.ties;
  valid = h.valid;
  nothing_queued = h.nothing_queued;
  known = λ d e. cc;
}

-- The end of a delivery that the loop awaits: a failed one is started again.
finished-IsIdle :
    (level : ℕ → QosLevel) (c : Clock) (s : Service) (id : ℕ) (failed : Bool)
    → IsIdle s
    → id < length s.deliveries
    → Yields IsIdle (finished level c s id failed)
unfolding finished forgotten
finished-IsIdle level c s id false h known =
    rw (deliver_idle (forgotten s) (forgotten-IsIdle s h)) (yields (forgotten-IsIdle s h))
finished-IsIdle level c s id true h known =
    let (msg, e) = get_elem?-known s.deliveries id known in
    rw e (
      Yields-then (requeue-IsLoaded level c s msg h) λ s' (l, _).
        Yields-weaken
          (deliver-IsLoaded (forgotten s')
            (record { ties = l.ties; valid = l.valid; one_queued = l.one_queued }))
          λ r d. d.0)

step-IsIdle :
    (level : ℕ → QosLevel) (s : Service) (e : Event) → IsIdle s → Yields IsIdle (step level s e)
unfolding step
step-IsIdle level s (arrives msg c) h =
    Yields-branch s.stopped (λ _. yields h)
      λ _.
        Yields-then (requeue-IsLoaded level c s msg h)
          λ s' (l, _). Yields-weaken (deliver-IsLoaded s' l) λ r d. d.0
step-IsIdle level s closes h =
    yields (record {
      ties = h.ties;
      valid = h.valid;
      nothing_queued = h.nothing_queued;
      known = h.known;
    })
step-IsIdle level s (finishes id failed c) h =
    Yields-branch s.stopped (λ _. yields h)
      λ _.
        Yields-branch (is_awaited s id)
          (λ a. finished-IsIdle level c s id failed h (h.known id (ground arith))) (λ _. yields h)

start-IsIdle : (h : Config) (t : TieBreaker) → IsTieBreaker t → IsIdle (start h t)
unfolding start service_queue
start-IsIdle h t laws = record {
  ties = laws;
  valid = record { heap = λ c p q. absurd (omega arith); sized = refl; blanked = refl };
  nothing_queued = refl;
  known = λ d e. cc;
}

run-IsIdle :
    (level : ℕ → QosLevel) (s : Service) (es : List Event)
    → IsIdle s
    → Yields IsIdle (run level s es)
unfolding run
run-IsIdle level s [] h = yields h
run-IsIdle level s (e ∷ es) h =
    let (s', q, h') = Yields-value (step-IsIdle level s e h) in rw q (run-IsIdle level s' es h')

-- Whatever reaches serviceQOS and in whatever order, with a tie breaker that orders the expiries, no
-- index goes out of range and the priority queue is empty after the events: no message ever waits in
-- it.
pub run_queue_empty :
    (level : ℕ → QosLevel) (h : Config) (t : TieBreaker) (es : List Event)
    → IsTieBreaker t
    → Yields (λ s. s.pq.queue ≡ []) (run level (start h t) es)
run_queue_empty level h t es laws =
    Yields-weaken (run-IsIdle level (start h t) es (start-IsIdle h t laws)) λ s q. q.nothing_queued

-- A message that arrives at a running service with an empty queue starts a delivery at once, which is
-- the one that the service awaits from then on, whatever it awaited before; the queue is empty again.
pub arrival_starts_delivery :
    (level : ℕ → QosLevel) (s : Service) (msg : Message) (c : Clock)
    → IsIdle s
    → s.stopped ≡ false
    → Yields (Delivers s) (step level s (arrives msg c))
unfolding step
arrival_starts_delivery level s msg c h on =
    Yields-branch s.stopped (λ off. cc)
      λ _.
        (Yields-then (requeue-IsLoaded level c s msg h) λ s' (l, same).
          Yields-weaken (deliver-IsLoaded s' l)
            λ r d. (d.0, rw same at d.1, (d.2.0, rw same at d.2.1)))

-- The end of another delivery than the awaited one passes unseen.
finishes_unawaited :
    (level : ℕ → QosLevel) (r : Service) (id : ℕ) (failed : Bool) (c : Clock) {d : ℕ}
    → id < d
    → r.awaited ≡ some d
    → step level r (finishes id failed c) ≡ some r
unfolding step
finishes_unawaited level r id failed c lt e =
    let other : is_awaited r id ≡ false = ground arith in
    elim (Bool-cases r.stopped) [ inl off ↦ simp (off, other) | inr on ↦ simp (on, other) ]

-- The loss: when a message arrives at a running service with an empty queue while a delivery is under
-- way, the failure of that delivery has no effect any more, and its message is not queued again.
pub overtaken_failure_lost :
    (level : ℕ → QosLevel) (s : Service) (msg : Message) (c c' : Clock) (id : ℕ)
    → IsIdle s
    → s.stopped ≡ false
    → s.awaited ≡ some id
    → Yields (λ r. step level r (finishes id true c') ≡ some r) (step level s (arrives msg c))
overtaken_failure_lost level s msg c c' id h on a =
    Yields-weaken (arrival_starts_delivery level s msg c h on)
      λ r d. finishes_unawaited level r id true c' (omega (arith, h.known id a)) d.1
