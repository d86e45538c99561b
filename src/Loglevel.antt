-- ===== src/Loglevel.antt =====
-- internal/loglevel/loglevel.go: the log level, which a request changes for a while. The level of zap
-- and its UnmarshalText are not the agent's: `unmarshal` reads the name of a level, or fails. A timer
-- that SetLevel starts is an entry of `timers`, the instant at which it fires.
pub mod Restore
use xmidt_agent.Base.{
  ℕ, ◌+◌, ◌≤◌, Bool, true, false, Option, some, none, List, [], ◌∷◌, map, Text, to_lower_byte, leb,
  if◌then◌else◌,
}
use xmidt_agent.Wrp.{Error}

pub data Unmarshalled (Level : Type 0) : Type 0 where
  level : Level → Unmarshalled Level
  bad : Error → Unmarshalled Level

pub record LogLevelService (Level : Type 0) : Type 0 where
  pub current : Level
  -- New's MarshalText of the level at that time
  pub orig_level : Text
  pub timers : List ℕ

module _ {Level : Type 0} (unmarshal : Text → Unmarshalled Level) where
  -- New, given the text that MarshalText makes of the level
  unfoldable pub new : (Level → Text) → Level → LogLevelService Level
  new marshal l = record { current = l; orig_level = marshal l; timers = [] }

  -- l.level.UnmarshalText: a text that is no level leaves the level as it was.
  unfoldable pub unmarshal_text :
      LogLevelService Level → Text → Option Error × LogLevelService Level
  unmarshal_text s t = elim (unmarshal t) [
    | level l ↦ (none, record s { current = l })
    | bad e ↦ (some e, s)
  ]

  -- SetLevel, at the instant `now`
  unfoldable pub set_level :
      ℕ → LogLevelService Level → Text → ℕ → Option Error × LogLevelService Level
  set_level now s name duration =
      let (err, s') = unmarshal_text s (map to_lower_byte name) in
      elim err [
        | some e ↦ (some e, s')
        | none ↦ (none, record s' { timers = (now + duration) ∷ s'.timers })
      ]

  -- The goroutines whose timers have fired by `now` restore the level.
  unfoldable pub fired : ℕ → List ℕ → Bool
  fired now [] = false
  fired now (t ∷ ts) = let rest = fired now ts in if leb t now then true else rest

  unfoldable pub pending : ℕ → List ℕ → List ℕ
  pending now [] = []
  pending now (t ∷ ts) = let rest = pending now ts in if leb t now then rest else t ∷ rest

  unfoldable pub fire : ℕ → LogLevelService Level → LogLevelService Level
  fire now s =
      let restored = (unmarshal_text s s.orig_level).1 in
      let next = if fired now s.timers then restored else s in
      record next { timers = pending now s.timers }
