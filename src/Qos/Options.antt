-- ===== src/Qos/Options.antt =====
-- The configuration of the handler (internal/wrphandlers/qos/options.go, internal_options.go, and New
-- of qos.go). The source's signed numbers are integers here; an option that refuses a negative one
-- leaves a natural number in the handler. The next handler is left out of the record; New's check
-- that it is not nil is the first argument of `new`.
pub mod Laws
use xmidt_agent.Base.{
  ℕ, zero, suc, ◌*◌, Bool, true, false, Option, none, some, List, [], ◌∷◌, ◌++◌, ltb, if◌then◌else◌,
  not,
}
use xmidt_agent.Base.Int.{ℤ, pos, negsuc}
use xmidt_agent.Wrp.{
  Error, sentinel, joined, join, misconfigured_qos, priority_type_invalid, invalid_input,
}
use xmidt_agent.Qos.Priority.{PriorityType, unknown_type, oldest_type, newest_type, last_type}
use xmidt_agent.Qos.Item.{TieBreaker, priority_newest_msg, priority_oldest_msg}

abbrev pub default_max_queue_bytes : ℕ
default_max_queue_bytes = 1 * 1024 * 1024

abbrev pub minute : ℕ
minute = 60 * 1000000000

abbrev pub default_low_expires : ℕ
default_low_expires = minute * 15

abbrev pub default_medium_expires : ℕ
default_medium_expires = minute * 20

abbrev pub default_high_expires : ℕ
default_high_expires = minute * 25

abbrev pub default_critical_expires : ℕ
default_critical_expires = minute * 30

pub record Config : Type 0 where
  pub priority : PriorityType
  pub tie_breaker : Option TieBreaker
  pub max_queue_bytes : ℕ
  pub max_message_bytes : ℕ
  pub low_expires : ℕ
  pub medium_expires : ℕ
  pub high_expires : ℕ
  pub critical_expires : ℕ

-- An option changes the handler, and may return an error beside the change.
abbrev pub Setting : Type 0
Setting = Config → Option Error × Config

abbrev pub misconfigured : Option Error
misconfigured = some (sentinel misconfigured_qos)

abbrev pub invalid_priority : Option Error
invalid_priority = some (joined (sentinel priority_type_invalid) (sentinel misconfigured_qos))

unfoldable pub max_queue_bytes : ℤ → Setting
max_queue_bytes (negsuc n) h = (misconfigured, h)
max_queue_bytes (pos zero) h = (none, record h { max_queue_bytes = default_max_queue_bytes })
max_queue_bytes (pos (suc n)) h = (none, record h { max_queue_bytes = suc n })

unfoldable pub max_message_bytes : ℤ → Setting
max_message_bytes (negsuc n) h = (misconfigured, h)
max_message_bytes (pos n) h = (none, record h { max_message_bytes = n })

-- the lower-case priority function: the tie breaker of a kind
unfoldable pub tie_breaker_of : PriorityType → Option TieBreaker × Option Error
tie_breaker_of newest_type = (some priority_newest_msg, none)
tie_breaker_of oldest_type = (some priority_oldest_msg, none)
tie_breaker_of unknown_type = (none, invalid_priority)
tie_breaker_of last_type = (none, invalid_priority)

-- Priority assigns both fields, also on an error.
unfoldable pub priority : PriorityType → Setting
priority p h = let (t, err) = tie_breaker_of p in (err, record h { tie_breaker = t; priority = p })

unfoldable pub low_expires : ℤ → Setting
low_expires (negsuc n) h = (misconfigured, h)
low_expires (pos n) h = (none, record h { low_expires = n })

unfoldable pub medium_expires : ℤ → Setting
medium_expires (negsuc n) h = (misconfigured, h)
medium_expires (pos n) h = (none, record h { medium_expires = n })

unfoldable pub high_expires : ℤ → Setting
high_expires (negsuc n) h = (misconfigured, h)
high_expires (pos n) h = (none, record h { high_expires = n })

unfoldable pub critical_expires : ℤ → Setting
critical_expires (negsuc n) h = (misconfigured, h)
critical_expires (pos n) h = (none, record h { critical_expires = n })

unfoldable pub validate_queue_constraints : Setting
validate_queue_constraints h =
    if ltb h.max_queue_bytes h.max_message_bytes then (misconfigured, h) else (none, h)

-- `h.priority <= UnknownType || h.priority >= lastType`
unfoldable pub validate_priority : Setting
validate_priority h = elim h.priority [
  | unknown_type ↦ (invalid_priority, h)
  | last_type ↦ (invalid_priority, h)
  | _ ↦ (none, h)
]

unfoldable pub validate_tie_breaker : Setting
validate_tie_breaker h = elim h.tie_breaker [ none ↦ (invalid_priority, h) | some t ↦ (none, h) ]

-- the loop of New, which applies every option and joins the errors
unfoldable pub apply_all : List Setting → Option Error → Config → Option Error × Config
apply_all [] errs h = (errs, h)
apply_all (opt ∷ opts) errs h = let (err, h') = opt h in apply_all opts (join errs err) h'

abbrev pub defaults : Config
defaults = record {
  priority = unknown_type;
  tie_breaker = none;
  max_queue_bytes = 0;
  max_message_bytes = 0;
  low_expires = default_low_expires;
  medium_expires = default_medium_expires;
  high_expires = default_high_expires;
  critical_expires = default_critical_expires;
}

abbrev pub validators : List Setting
validators = validate_queue_constraints ∷ validate_priority ∷ validate_tie_breaker ∷ []

pub data Built : Type 0 where
  failed : Error → Built
  built : Config → Built

-- New, given whether the next handler is nil; nil options are dropped from the list.
unfoldable pub new : Bool → List Setting → Built
new next_is_nil opts =
    let (errs, h) = apply_all (opts ++ validators) none defaults in
    if next_is_nil
    then failed (sentinel invalid_input)
    else elim errs [ none ↦ built h | some e ↦ failed e ]
