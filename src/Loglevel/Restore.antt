-- ===== src/Loglevel/Restore.antt =====
-- The log level goes back to the original one.
use xmidt_agent.Base.{ℕ, ◌+◌, ◌≤◌, ◌≡◌, ◌≢◌, true, none, List, ◌∷◌, Text, arith, inl, inr, ◌⊎◌}
use xmidt_agent.Loglevel.{
  Unmarshalled, level, LogLevelService, unmarshal_text, set_level, fired, fire,
}

-- A name that is no level is refused: nothing changes, and no timer is started.
pub set_level_refused :
    {Level : Type 0} (unmarshal : Text → Unmarshalled Level) (now : ℕ) (s : LogLevelService Level)
    (name : Text) (duration : ℕ)
    → (set_level unmarshal now s name duration).0 ≢ none
    → (set_level unmarshal now s name duration).1 ≡ s
unfolding set_level unmarshal_text
set_level_refused unmarshal now s name duration refused = ground arith

-- Once any timer has fired, the level is the original one.
fire-fired :
    {Level : Type 0} (unmarshal : Text → Unmarshalled Level) (original : Level) (later : ℕ)
    (s : LogLevelService Level)
    → unmarshal s.orig_level ≡ level original
    → fired unmarshal later s.timers ≡ true
    → (fire unmarshal later s).current ≡ original
unfolding fire unmarshal_text
fire-fired unmarshal original later s u f = rw (f, u, unmarshal_text)

fired-later :
    {Level : Type 0} (unmarshal : Text → Unmarshalled Level) (later t : ℕ) (ts : List ℕ)
    → t ≤ later
    → fired unmarshal later (t ∷ ts) ≡ true
unfolding fired
fired-later unmarshal later t ts h = ground arith

-- What an accepted change leaves.
set_level_accepted :
    {Level : Type 0} (unmarshal : Text → Unmarshalled Level) (now : ℕ) (s : LogLevelService Level)
    (name : Text) (duration : ℕ)
    → (set_level unmarshal now s name duration).0 ≡ none
    → ((set_level unmarshal now s name duration).1.timers ≡ (now + duration) ∷ s.timers)
      × ((set_level unmarshal now s name duration).1.orig_level ≡ s.orig_level)
unfolding set_level unmarshal_text
set_level_accepted unmarshal now s name duration ok = (ground arith, ground arith)

-- If the text of the original level can be read, then after an accepted change of the level the
-- original level is back by the time its duration has passed. It is back as soon as a timer of an earlier change fires, though the duration of the later
-- one has not passed.
pub set_level_restored :
    {Level : Type 0} (unmarshal : Text → Unmarshalled Level) (original : Level) (now later : ℕ)
    (s : LogLevelService Level) (name : Text) (duration : ℕ)
    → unmarshal s.orig_level ≡ level original
    → (set_level unmarshal now s name duration).0 ≡ none
    → (now + duration ≤ later) ⊎ (fired unmarshal later s.timers ≡ true)
    → (fire unmarshal later (set_level unmarshal now s name duration).1).current ≡ original
unfolding fired
set_level_restored unmarshal original now later s name duration u ok due =
    let (timers, orig) = set_level_accepted unmarshal now s name duration ok in
    let s' = (set_level unmarshal now s name duration).1 in
    fire-fired unmarshal original later s' (rw orig u) (rw timers (due_now due))
  where
    due_now :
        (now + duration ≤ later) ⊎ (fired unmarshal later s.timers ≡ true)
        → fired unmarshal later ((now + duration) ∷ s.timers) ≡ true
    due_now (inl h) = fired-later unmarshal later (now + duration) s.timers h
    due_now (inr h) = ground arith
