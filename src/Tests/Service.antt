-- ===== src/Tests/Service.antt =====
-- The QoS handler, its options and the log level on small inputs.
use xmidt_agent.Base.{
  length, ◌++◌, ℕ, ◌≡◌, inl, refl, Bool, true, false, some, [], ◌∷◌, Text, codes, arith, eq_text,
  if◌then◌else◌,
}
use xmidt_agent.Base.Run.{Yields}
use xmidt_agent.Wrp.{Message, blank, sentinel, invalid_input}
use xmidt_agent.Qos.Priority.{newest_type}
use xmidt_agent.Qos.Item.{priority_newest_msg}
use xmidt_agent.Qos.Queue.{QosLevel, qos_low}
use xmidt_agent.Qos.Queue.Laws.{newest-IsTieBreaker}
use xmidt_agent.Qos.Options.{Config, defaults}
use xmidt_agent.Qos.Service.{Service, Clock, arrives, closes, finishes, start, step, run}
use xmidt_agent.Qos.Service.Behaviour.{IsIdle, run_queue_empty, overtaken_failure_lost}
use xmidt_agent.Qos.Service.Arrival.{Sent, arrival_delivered}
use xmidt_agent.Loglevel.{
  LogLevelService, Unmarshalled, level, bad, set_level, fire, unmarshal_text,
}
use xmidt_agent.Loglevel.Restore.{set_level_restored}

abbrev levels : ℕ → QosLevel
levels n = qos_low

abbrev hello : Message
hello = record blank { payload = codes "hello" }

abbrev clock : Clock
clock = record { pushed = 3; trimmed = 4 }

abbrev config : Config
config = record defaults { max_queue_bytes = 100; priority = newest_type }

run_queue_empty_example :
    Yields
      (λ s. s.pq.queue ≡ [])
      (run levels (start config priority_newest_msg) (
        arrives hello clock
        ∷ arrives hello clock
        ∷ finishes 0 true clock
        ∷ finishes 1 true clock
        ∷ closes
        ∷ []))
run_queue_empty_example = run_queue_empty levels config priority_newest_msg _ newest-IsTieBreaker

-- A service that has started one delivery, and awaits it.
abbrev busy : Service
busy = record {
  pq = record {
    queue = [];
    priority = newest_type;
    tie_breaker = priority_newest_msg;
    max_queue_bytes = 100;
    max_message_bytes = 50;
    size_bytes = 0;
    low_expires = 0;
    medium_expires = 0;
    high_expires = 0;
    critical_expires = 0;
  };
  awaited = some 0;
  deliveries = blank ∷ [];
  stopped = false;
}

busy-IsIdle : IsIdle busy
busy-IsIdle = record {
  ties = newest-IsTieBreaker;
  valid = record { heap = λ c p q. absurd (omega arith); sized = refl; blanked = refl };
  nothing_queued = refl;
  known = λ d e. ground (arith, e);
}

arrival_delivered_example :
    (sent : Message) × Sent busy.pq hello sent
    × (step levels busy (arrives hello clock)
        ≡ some (record busy {
          awaited = some (length busy.deliveries);
          deliveries = busy.deliveries ++ sent ∷ [];
        }))
arrival_delivered_example = arrival_delivered levels busy hello clock busy-IsIdle refl

overtaken_failure_lost_example :
    Yields
      (λ r. step levels r (finishes 0 true clock) ≡ some r)
      (step levels busy (arrives hello clock))
overtaken_failure_lost_example =
    overtaken_failure_lost levels busy hello clock clock 0 busy-IsIdle refl refl

abbrev read_level : Text → Unmarshalled Bool
read_level t =
    if eq_text t (codes "debug")
    then level true
    else if eq_text t (codes "info")
    then level false
    else bad (sentinel invalid_input)

abbrev quiet : LogLevelService Bool
quiet = record { current = false; orig_level = codes "info"; timers = [] }

set_level_restored_example :
    (fire read_level 12 (set_level read_level 2 quiet (codes "DEBUG") 10).1).current ≡ false
unfolding set_level unmarshal_text
set_level_restored_example =
    set_level_restored read_level false 2 12 quiet (codes "DEBUG") 10 refl refl (inl (omega arith))
