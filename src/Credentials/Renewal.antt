-- ===== src/Credentials/Renewal.antt =====
-- internal/credentials/credentials.go: run, the loop that keeps the token valid, round by round.
pub mod Outcomes
pub mod Waits
use xmidt_agent.Base.{
  ℕ, zero, suc, ◌+◌, ◌-◌, ◌*◌, ◌%◌, Bool, true, false, ◌&&◌, not, Option, some, none, List, [], ◌∷◌,
  ◌++◌, Text, codes, is_empty, ltb, ◌==◌, if◌then◌else◌,
}
use xmidt_agent.Base.Int.{ℤ, pos, negsuc, ltb_ℤ}
use xmidt_agent.Base.Dict.{Dict}
use xmidt_agent.Base.Dict
use xmidt_agent.Wrp.{
  Error, sentinel, join, no_token, token_expired, nil_request, fetch_failed, fetch_not_attempted,
}
use xmidt_agent.Fs.{
  Result, ok, failed, FileSystem, operate, with_path, write_file_with_sha256, read_file_with_sha256,
}
use xmidt_agent.Credentials.{Token, Answer, Fetched, second}
use xmidt_agent.Credentials.Stored.{Storage, store, load}

-- The variables of run, and what it changes in the service.
pub record Loop (S : Type 0) : Type 0 where
  -- c.token
  pub held : Option Token
  -- whether the channels `fetched` and `valid` are closed
  pub fetched : Bool
  pub valid : Bool
  pub from_disc : Bool
  -- the token that was loaded, for the first round
  pub loaded : Option Token
  pub disc : S

-- The wait that is assumed: `max(time.Second, retryIn)`
abbrev pub retry_wait : ℤ → ℕ
retry_wait (negsuc n) = second
retry_wait (pos n) = if ltb second n then n else second

-- What ends the select at the end of a round.
pub data Wake : Type 0 where
  marked_invalid timed_out cancelled : Wake

pub record Round : Type 0 where
  -- the clock when the answer has come, and when the wait is computed
  pub answered : ℕ
  pub stored : ℕ
  pub answer : Answer
  pub wake : Wake

-- the start of run
unfoldable pub start : {S : Type 0} → (Text → Result Token) → Option (Storage S) → S → Loop S
start decode storage s =
    let (got, s') = load decode storage s in
    let loaded : Option Token = elim got [ failed e ↦ none | ok t ↦ t ] in
    record {
      held = none;
      fetched = false;
      valid = false;
      from_disc = elim loaded [ none ↦ false | some t ↦ true ];
      loaded = loaded;
      disc = s';
    }

-- the select; `none` ends the loop
unfoldable pub wake_up : {S : Type 0} → Wake → Loop S → Option (Loop S)
wake_up marked_invalid c = some (record c { valid = false })
wake_up timed_out c = some c
wake_up cancelled c = none

module _ {S : Type 0} (encode : Token → Result Text) (storage : Option (Storage S))
    -- the part of a duration that RefetchPercent says
    (portion : ℕ → ℕ) where
  -- `if err == nil && token != nil`: the token is kept, until the wait is over.
  unfoldable pub keep : ℕ → Token → ℕ → Loop S → ℕ × Loop S
  keep now t wait c = (
    if ltb now t.expires_at then portion (t.expires_at - now) else wait,
    record c {
      held = some t;
      valid = true;
      disc = if c.from_disc then c.disc else (store encode storage t c.disc).1;
    },
  )

  -- what follows a fetch
  unfoldable pub settle : ℕ → Fetched → Loop S → ℕ × Loop S
  settle now f c =
      let wait = retry_wait f.retry_in in
      let fresh : Loop S = record c { from_disc = false } in
      elim f.error [
        | some e ↦ (wait, c)
        | none ↦ elim f.token [ none ↦ (wait, fresh) | some t ↦ keep now t wait fresh ]
      ]

  module _ (fetch_token : ℕ → Answer → Fetched) where
    -- The body of the loop up to the select: the wait, and the loop.
    unfoldable pub attempt : ℕ → ℕ → Answer → Loop S → ℕ × Loop S
    attempt answered now answer c =
        let c' : Loop S = record c { fetched = true; loaded = none } in
        elim c.loaded [
          | none ↦ settle now (fetch_token answered answer) c'
          | some t ↦ keep now t (retry_wait (pos 0)) c'
        ]

    -- The rounds of run, until one is cancelled or the list ends: the last state.
    unfoldable pub run : List Round → Loop S → Loop S
    run [] c = c
    run (r ∷ rounds) c =
        let c' = (attempt r.answered r.stored r.answer c).1 in
        let stopped = c' in elim (wake_up r.wake c') [ none ↦ stopped | some c'' ↦ run rounds c'' ]
