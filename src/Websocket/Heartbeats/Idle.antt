-- ===== src/Websocket/Heartbeats/Idle.antt =====
-- When a connection counts as inactive.
use xmidt_agent.Base.{
  ℕ, In, some-inj, subst, ◌≡◌, ◌≤◌, inl, inr, refl, sym, ap, ◌∙◌, ◌+◌, Bool, true, false, Option,
  some, List, [], ◌∷◌, ◌++◌, leb, leb→le, arith, Bool-cases, All,
}
use mathlib.Core.List.{append-nil, append_assoc}
use xmidt_agent.Websocket.Heartbeats.{
  Heartbeat, ping, pong, Watch, watching, over, expired, Reading, Happening, pinged, ponged,
  elapses, ends, told, report, elapse, happen, happen_all, begin, finish,
}

-- The instants of the pings that count, and what of a list is told.
abbrev pub pings : List Happening → List ℕ
pings [] = []
pings (pinged false t ∷ hs) = t ∷ pings hs
pings (_ ∷ hs) = pings hs

abbrev pub beats : List Happening → List Heartbeat
beats [] = []
beats (pinged false t ∷ hs) = record { at = t; kind = ping } ∷ beats hs
beats (ponged false t ∷ hs) = record { at = t; kind = pong } ∷ beats hs
beats (_ ∷ hs) = beats hs

-- Each ping comes no earlier than the one before it, the first no earlier than `from`.
abbrev pub IsOrdered : ℕ → List ℕ → Type 0
IsOrdered from [] = Unit
IsOrdered from (t ∷ ts) = (from ≤ t) × IsOrdered t ts

-- The timer fires once nothing has come for the time of `timeout`.
abbrev pub IsIdle : ℕ → ℕ → ℕ → List Happening → Type 0
IsIdle timeout now t hs =
    (before : List Happening) × (after : List Happening) × (hs ≡ before ++ elapses t ∷ after)
    × (now + timeout ≤ t)
    × All (λ a. a + timeout ≤ t) (pings before)

-- How a goroutine that began at `now` has ended, if it has.
abbrev pub Outcome : ℕ → ℕ → List Happening → Watch → Bool → Type 0
Outcome timeout now hs (watching d) is_blocked = is_blocked ≡ false
Outcome timeout now hs over is_blocked = In ends hs
Outcome timeout now hs (expired t) is_blocked = IsIdle timeout now t hs

module _ (timeout : ℕ) where
  abbrev reading : Watch → Bool → List Heartbeat → Reading
  reading w b beats = record { watch = w; is_blocked = b; heartbeats = beats }

  abbrev all : List Happening → Reading → Option Reading
  all = happen_all timeout

  elapse_late :
      (t d : ℕ) (b : Bool) (told : List Heartbeat) (hs : List Happening)
      → leb d t ≡ true
      → all (elapses t ∷ hs) (reading (watching d) b told) ≡ all hs (reading (expired t) b told)
  unfolding happen_all happen elapse
  elapse_late t d b told hs late = rw (elapse, late) refl

  elapse_early :
      (t d : ℕ) (b : Bool) (told : List Heartbeat) (hs : List Happening) (r : Reading)
      → leb d t ≡ false
      → ¬ (all (elapses t ∷ hs) (reading (watching d) b told) ≡ some r)
  unfolding happen_all happen elapse
  elapse_early t d b told hs r early p = ground (arith, early, p)

  -- A happening is told to the listeners, whatever the goroutine does.
  told_beats :
      (hs : List Happening) (w : Watch) (b : Bool) (told : List Heartbeat) (r : Reading)
      → all hs (reading w b told) ≡ some r
      → r.heartbeats ≡ told ++ beats hs
  unfolding happen_all happen report elapse
  told_beats [] w b told r p =
      ap (λ (r : Reading). r.heartbeats) (sym (some-inj _ _ p)) ∙ sym (append-nil told)
  told_beats (pinged c t ∷ hs) w true told r p = absurd (cc p)
  told_beats (pinged true t ∷ hs) w false told r p = told_beats hs w false told r p
  told_beats (pinged false t ∷ hs) (watching d) false told r p =
      told_beats hs (watching (t + timeout)) false (told ++ record { at = t; kind = ping } ∷ []) r p
      ∙ append_assoc told (record { at = t; kind = ping } ∷ []) (beats hs)
  told_beats (pinged false t ∷ hs) over false told r p =
      told_beats hs over true (told ++ record { at = t; kind = ping } ∷ []) r p
      ∙ append_assoc told (record { at = t; kind = ping } ∷ []) (beats hs)
  told_beats (pinged false t ∷ hs) (expired d) false told r p =
      told_beats hs (expired d) true (told ++ record { at = t; kind = ping } ∷ []) r p
      ∙ append_assoc told (record { at = t; kind = ping } ∷ []) (beats hs)
  told_beats (ponged c t ∷ hs) w true told r p = absurd (cc p)
  told_beats (ponged true t ∷ hs) w false told r p = told_beats hs w false told r p
  told_beats (ponged false t ∷ hs) w false told r p =
      told_beats hs w false (told ++ record { at = t; kind = pong } ∷ []) r p
      ∙ append_assoc told (record { at = t; kind = pong } ∷ []) (beats hs)
  told_beats (elapses t ∷ hs) (watching d) b told r p = elim (Bool-cases (leb d t)) [
    | inl late ↦ told_beats hs (expired t) b told r (sym (elapse_late t d b told hs late) ∙ p)
    | inr early ↦ absurd (elapse_early t d b told hs r early p)
  ]
  told_beats (elapses t ∷ hs) over b told r p = absurd (cc p)
  told_beats (elapses t ∷ hs) (expired d) b told r p = absurd (cc p)
  told_beats (ends ∷ hs) w b told r p = told_beats hs (finish w) b told r p

  -- A goroutine that has ended stays so.
  done :
      (hs : List Happening) (w : Watch) (b : Bool) (told : List Heartbeat) (r : Reading)
      → finish w ≡ w
      → all hs (reading w b told) ≡ some r
      → r.watch ≡ w
  unfolding happen_all happen report elapse
  done [] w b told r q p = ap (λ (r : Reading). r.watch) (sym (some-inj _ _ p))
  done (h ∷ hs) (watching d) b told r q p = absurd (cc q)
  done (pinged c t ∷ hs) w true told r q p = absurd (cc p)
  done (pinged true t ∷ hs) w false told r q p = done hs w false told r q p
  done (pinged false t ∷ hs) over false told r q p =
      done hs over true (told ++ record { at = t; kind = ping } ∷ []) r q p
  done (pinged false t ∷ hs) (expired d) false told r q p =
      done hs (expired d) true (told ++ record { at = t; kind = ping } ∷ []) r q p
  done (ponged c t ∷ hs) w true told r q p = absurd (cc p)
  done (ponged true t ∷ hs) w false told r q p = done hs w false told r q p
  done (ponged false t ∷ hs) w false told r q p =
      done hs w false (told ++ record { at = t; kind = pong } ∷ []) r q p
  done (elapses t ∷ hs) over b told r q p = absurd (cc p)
  done (elapses t ∷ hs) (expired d) b told r q p = absurd (cc p)
  done (ends ∷ hs) over b told r q p = done hs over b told r q p
  done (ends ∷ hs) (expired d) b told r q p = done hs (expired d) b told r q p

  -- Another happening before those after which a goroutine has ended
  Outcome-cons :
      (now : ℕ) (h : Happening) (hs : List Happening) (w : Watch) (b : Bool)
      → ((before : List Happening) → pings (h ∷ before) ≡ pings before)
      → Outcome timeout now hs w b
      → Outcome timeout now (h ∷ hs) w b
  Outcome-cons now h hs (watching d) b q o = o
  Outcome-cons now h hs over b q o = inr o
  Outcome-cons now h hs (expired t) b q (before, after, p, late, old) = (
    h ∷ before,
    after,
    ap (λ (l : List Happening). h ∷ l) p,
    late,
    subst (All (λ a. a + timeout ≤ t)) (sym (q before)) old,
  )

  -- and a ping, which puts the instant off.
  Outcome-ping :
      (now t : ℕ) (hs : List Happening) (w : Watch) (b : Bool)
      → now ≤ t
      → Outcome timeout t hs w b
      → Outcome timeout now (pinged false t ∷ hs) w b
  Outcome-ping now t hs (watching d) b h o = o
  Outcome-ping now t hs over b h o = inr o
  Outcome-ping now t hs (expired end) b h (before, after, p, late, old) = (
    pinged false t ∷ before,
    after,
    ap (λ (l : List Happening). pinged false t ∷ l) p,
    omega arith,
    (late, old),
  )

  outcome :
      (hs : List Happening) (now : ℕ) (told : List Heartbeat) (r : Reading)
      → IsOrdered now (pings hs)
      → all hs (reading (watching (now + timeout)) false told) ≡ some r
      → Outcome timeout now hs r.watch r.is_blocked
  unfolding happen_all happen report elapse
  outcome [] now told r o p =
      subst (λ (r : Reading). Outcome timeout now [] r.watch r.is_blocked) (some-inj _ _ p) refl
  outcome (pinged true t ∷ hs) now told r o p =
      Outcome-cons now (pinged true t) hs r.watch r.is_blocked (λ l. refl)
        (outcome hs now told r o p)
  outcome (pinged false t ∷ hs) now told r (h, o) p =
      Outcome-ping now t hs r.watch r.is_blocked h
        (outcome hs t (told ++ record { at = t; kind = ping } ∷ []) r o p)
  outcome (ponged true t ∷ hs) now told r o p =
      Outcome-cons now (ponged true t) hs r.watch r.is_blocked (λ l. refl)
        (outcome hs now told r o p)
  outcome (ponged false t ∷ hs) now told r o p =
      Outcome-cons now (ponged false t) hs r.watch r.is_blocked (λ l. refl)
        (outcome hs now (told ++ record { at = t; kind = pong } ∷ []) r o p)
  outcome (elapses t ∷ hs) now told r o p = elim (Bool-cases (leb (now + timeout) t)) [
    | inl late ↦
        let same =
          done hs (expired t) false told r refl
            (sym (elapse_late t (now + timeout) false told hs late) ∙ p) in
        subst (λ (w : Watch). Outcome timeout now (elapses t ∷ hs) w r.is_blocked) (sym same)
          ([], hs, refl, leb→le (now + timeout) t late, tt)
    | inr early ↦ absurd (elapse_early t (now + timeout) false told hs r early p)
  ]
  outcome (ends ∷ hs) now told r o p =
      subst (λ (w : Watch). Outcome timeout now (ends ∷ hs) w r.is_blocked)
        (sym (done hs over false told r refl p)) (inl refl)

  -- During a call of Reader that began at `now`, with its pings in the order of time: the heartbeat
  -- listeners are told of each ping and pong whose context has no error, in order. The context is
  -- cancelled for inactivity only at an instant by which the whole timeout has passed since the call
  -- began and since each such ping before that instant. Otherwise the goroutine that watches ends only
  -- with the context, and until it ends no ping is left waiting in its listener.
  pub watch_correct :
      (now : ℕ) (hs : List Happening) (r : Reading)
      → IsOrdered now (pings hs)
      → happen_all timeout hs (begin timeout now) ≡ some r
      → (r.heartbeats ≡ beats hs) × Outcome timeout now hs r.watch r.is_blocked
  watch_correct now hs r o p =
      (told_beats hs (watching (now + timeout)) false [] r p, outcome hs now [] r o p)
