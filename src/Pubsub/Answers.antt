-- ===== src/Pubsub/Answers.antt =====
-- What the select of HandleWrp may return, by the answers of the handlers so far.
use xmidt_agent.Base.{
  ℕ, suc, ◌+◌, ◌-◌, ◌≤◌, ◌<◌, ◌≡◌, ◌↔◌, Bool, true, false, not, Option, some, none, List, [], ◌∷◌,
  length, arith, ltb, ◌||◌, ◌&&◌, if◌then◌else◌,
}
use xmidt_agent.Wrp.{Error, is_not_handled}
use xmidt_agent.Pubsub.{Wait, finish, finish_all, handled, done, is_ready}

-- Whether the handler took the message.
abbrev pub took : Option Error → Bool
took none = true
took (some e) = not (is_not_handled e)

-- How many of the answers took the message.
abbrev pub takers : List (Option Error) → ℕ
takers [] = 0
takers (a ∷ answers) = let n = takers answers in if took a then suc n else n

finish-full : (a : Option Error) (w : Wait) → (finish a w).full ≡ (took a || w.full)
unfolding finish
finish-full none w = ground arith
finish-full (some e) w = ground arith

finish-unfinished :
    (a : Option Error) (w : Wait)
    → (finish a w).unfinished ≡ (if took a && w.full then w.unfinished else w.unfinished - 1)
unfolding finish
finish-unfinished none w = ground arith
finish-unfinished (some e) w = ground arith

finish_all-full :
    (answers : List (Option Error)) (w : Wait)
    → (finish_all answers w).full ≡ (w.full || ltb 0 (takers answers))
unfolding finish_all
finish_all-full [] w = ground arith
finish_all-full (a ∷ answers) w =
    ground (arith, finish_all-full answers (finish a w), finish-full a w)

finish_all-unfinished :
    (answers : List (Option Error)) (w : Wait)
    → length answers ≤ w.unfinished
    → (finish_all answers w).unfinished + length answers
      ≡ w.unfinished + (if w.full then takers answers else takers answers - 1)
unfolding finish_all
finish_all-unfinished [] w h = ground arith
finish_all-unfinished (a ∷ answers) w h =
    ground
      (arith, finish_all-unfinished answers (finish a w), finish-full a w, finish-unfinished a w)

-- Of `n` handlers, those with the answers `answers` have come back. HandleWrp may return nil exactly
-- if one of them took the message. It may return ErrNotHandled exactly if all have come back and at
-- most one of them took the message.
pub choices_by_answers :
    (n : ℕ) (answers : List (Option Error))
    → length answers ≤ n
    → let w = finish_all answers (record { unfinished = n; full = false }) in
      (is_ready w handled ≡ true ↔ 0 < takers answers)
      × (is_ready w done ≡ true ↔ (length answers ≡ n) × (takers answers ≤ 1))
unfolding is_ready
choices_by_answers n answers h =
    let w : Wait = record { unfinished = n; full = false } in
    let f = finish_all-full answers w in
    let u = finish_all-unfinished answers w h in
    let bound = takers_bound answers in
    (
      ((λ e. ground (arith, f, e)), (λ e. ground (arith, f))),
      (
        (λ e. (ground (arith, u, bound, e), ground (arith, u, bound, e))),
        (λ (e, k). ground (arith, u, e, k)),
      ),
    )
  where
    takers_bound : (answers : List (Option Error)) → takers answers ≤ length answers
    takers_bound [] = omega arith
    takers_bound (a ∷ answers) = ground (arith, takers_bound answers)
