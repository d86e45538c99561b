-- ===== src/Credentials/Renewal/Waits.antt =====
-- What a round of run makes of the server's answer, and how long it waits for the next.
use xmidt_agent.Base.{
  ℕ, ◌<◌, ◌≤◌, ◌-◌, ◌*◌, ◌≡◌, refl, sym, ap, ◌⊎◌, ◌∙◌, inl, inr, true, false, Option, some, none,
  Text, ltb, arith, Bool-cases, ◌==◌, ==_iff, if◌then◌else◌,
}
use xmidt_agent.Base.Int.{ℤ, pos, negsuc}
use xmidt_agent.Wrp.{Error, sentinel, joined, fetch_failed}
use xmidt_agent.Fs.{Result, ok}
use xmidt_agent.Fs.Checksum.{Result-cases}
use xmidt_agent.Credentials.{
  Token, Answer, unrequested, unnamed, unanswered, answers, Response, second, seconds_of,
  determine_expiration, fetch, failure,
}
use xmidt_agent.Credentials.Stored.{Storage, store}
use xmidt_agent.Credentials.Renewal.{Loop, retry_wait, settle, keep, attempt}

retry_wait_bound : (w : ℤ) → second ≤ retry_wait w
retry_wait_bound (pos n) = ground arith
retry_wait_bound (negsuc n) = ground arith

retry_wait-seconds_of :
    (n : ℕ) → 0 < n → n ≤ 9223372036 → retry_wait (seconds_of (pos n)) ≡ n * second
unfolding seconds_of
retry_wait-seconds_of n h k = ground arith

-- The answer has the status 200 and a body that can be read.
abbrev pub Answered : Response → Answer → Text → Type 0
Answered resp answer body =
    (answer ≡ answers resp) × (resp.status_code ≡ 200) × (resp.body ≡ ok body)

answers-inj : (a b : Response) → answers a ≡ answers b → a ≡ b
answers-inj a b p = cc

not_status : (r : Response) → (r.status_code == 200) ≡ false → ¬ (r.status_code ≡ 200)
not_status r other p = ground (arith, other, p)

-- It has not.
abbrev pub Unanswered : Answer → Type 0
Unanswered answer = (resp : Response) (body : Text) → ¬ Answered resp answer body

module _ (atoi : Text → Option ℤ) (parse_time : Text → Option ℕ) (assumed_lifetime : ℤ) where
  fetch_cases :
      (now : ℕ) (answer : Answer)
      → let f = fetch atoi parse_time assumed_lifetime now answer in
        ((resp : Response) × (body : Text) × Answered resp answer body
          × (f ≡ record {
            token = some (record {
              token = body;
              expires_at = determine_expiration parse_time assumed_lifetime now resp;
            });
            retry_in = pos 0;
            error = none;
          }))
        ⊎ Unanswered answer × ((e : Error) × (f.error ≡ some e))
  unfolding fetch determine_expiration
  fetch_cases now (unrequested e) = inr ((λ resp body (p, _, _). absurd (cc p)), (_, refl))
  fetch_cases now (unnamed e) = inr ((λ resp body (p, _, _). absurd (cc p)), (_, refl))
  fetch_cases now (unanswered e) = inr ((λ resp body (p, _, _). absurd (cc p)), (_, refl))
  fetch_cases now (answers resp) = elim (Bool-cases (resp.status_code == 200)) [
    | inr other ↦ inr (
      λ r body (p, q, _).
          not_status resp other (ap (λ (x : Response). x.status_code) (answers-inj resp r p) ∙ q),
      (sentinel fetch_failed, rw (fetch, other) refl),
    )
    | inl same ↦ elim (Result-cases resp.body) [
      | inl (e, bad) ↦ inr (
        λ r body (p, _, q).
            absurd (cc (sym bad ∙ ap (λ (x : Response). x.body) (answers-inj resp r p) ∙ q)),
        (joined e (sentinel fetch_failed), rw (fetch, same, bad) refl),
      )
      | inr (body, good) ↦ inl (
        resp,
        body,
        (refl, (==_iff resp.status_code 200).0 same, good),
        rw (fetch, same, good) refl,
      )
    ]
  ]

  fetch_limited :
      (now : ℕ) (n : ℤ) (resp : Response)
      → resp.status_code ≡ 429
      → atoi resp.retry_after ≡ some n
      → fetch atoi parse_time assumed_lifetime now (answers resp)
        ≡ failure (sentinel fetch_failed) (seconds_of n)
  unfolding fetch
  fetch_limited now n resp status after = rw (fetch, status, after) refl

  module _ {S : Type 0} (encode : Token → Result Text) (storage : Option (Storage S))
      (portion : ℕ → ℕ) where
    abbrev round : ℕ → ℕ → Answer → Loop S → ℕ × Loop S
    round = attempt encode storage portion (fetch atoi parse_time assumed_lifetime)

    attempt-fetch :
        (answered now : ℕ) (answer : Answer) (c : Loop S)
        → c.loaded ≡ none
        → round answered now answer c
          ≡ settle encode storage portion now
              (fetch atoi parse_time assumed_lifetime answered answer)
              (record c { fetched = true; loaded = none })
    unfolding attempt
    attempt-fetch answered now answer c h = rw (attempt, h) refl

    -- What a round does without a token from the disc. If the server answers with the status 200 and a
    -- body that can be read, the body becomes the token, with the expiry that the answer gives, it is
    -- stored, WaitUntilValid returns, and the loop waits for a portion of the time that is left, or a
    -- second if none is. If there is no such answer, the token, its validity and the disc stay as they
    -- are, and the loop waits for a second or longer. In both cases WaitUntilFetched returns.
    pub attempt_correct :
        (answered now : ℕ) (answer : Answer) (c : Loop S)
        → c.loaded ≡ none
        → ((resp : Response) × (body : Text) × Answered resp answer body
            × (let expires = determine_expiration parse_time assumed_lifetime answered resp in
                let t : Token = record { token = body; expires_at = expires } in
                round answered now answer c ≡ (
                  (if ltb now expires then portion (expires - now) else second),
                  record {
                    held = some t;
                    fetched = true;
                    valid = true;
                    from_disc = false;
                    loaded = none;
                    disc = (store encode storage t c.disc).1;
                  },
                )))
          ⊎ Unanswered answer
            × ((wait : ℕ) × (second ≤ wait)
                × (round answered now answer c
                    ≡ (wait, record c { fetched = true; loaded = none })))
    unfolding settle keep
    attempt_correct answered now answer c h = elim (fetch_cases answered answer) [
      | inl (resp, body, a, p) ↦ inl (
        resp,
        body,
        a,
        attempt-fetch answered now answer c h
            ∙ ap
                (λ f.
                  settle encode storage portion now f (record c { fetched = true; loaded = none }))
                p,
      )
      | inr (no_answer, (e, p)) ↦ inr (
        no_answer,
        (
          retry_wait (fetch atoi parse_time assumed_lifetime answered answer).retry_in,
          retry_wait_bound (fetch atoi parse_time assumed_lifetime answered answer).retry_in,
          attempt-fetch answered now answer c h ∙ rw (settle, p) refl,
        ),
      )
    ]

    -- The Retry-After of a status 429 is the wait, if it is a number of seconds of at least one that
    -- fits a duration.
    pub attempt-retry_after :
        (answered now n : ℕ) (resp : Response) (c : Loop S)
        → c.loaded ≡ none
        → resp.status_code ≡ 429
        → atoi resp.retry_after ≡ some (pos n)
        → 0 < n
        → n ≤ 9223372036
        → round answered now (answers resp) c
          ≡ (n * second, record c { fetched = true; loaded = none })
    unfolding settle
    attempt-retry_after answered now n resp c h status after low high =
        attempt-fetch answered now (answers resp) c h
        ∙ ap (λ f. settle encode storage portion now f (record c { fetched = true; loaded = none }))
            (fetch_limited answered (pos n) resp status after)
        ∙ ap (λ w. (w, record c { fetched = true; loaded = none }))
            (retry_wait-seconds_of n low high)
