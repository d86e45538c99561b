-- ===== src/Jwtxt/Cache.antt =====
-- Endpoint: when it asks the resolver, and what it keeps.
use xmidt_agent.Base.{
  ℕ, ◌≤◌, ◌<◌, ◌≡◌, refl, ◌⊎◌, some, none, List, Option, Text, false, ltb, arith, inl, inr,
  Bool-cases,
}
use xmidt_agent.Jwtxt.{
  Token, Parsed, token, bad, TxtAnswer, lines, unresolved, Instructions, Endpoint, FetchEvent,
  reassemble, validate, fetch, found, failed, panicked, endpoint,
}
use xmidt_agent.Wrp.{Error}

-- There is no record, or it is not a valid JWT.
abbrev pub Missing : (ℕ → Text → Parsed) → ℕ → TxtAnswer → Type 0
Missing parse now answer =
    ((e : Error) × (answer ≡ unresolved e))
    ⊎ ((ls : List Text) × (e : Error) × (answer ≡ lines ls) × (parse now (reassemble ls) ≡ bad e))

-- The record is a valid JWT that says `t`.
abbrev pub Says : (ℕ → Text → Parsed) → ℕ → TxtAnswer → Token → Type 0
Says parse now answer t =
    (ls : List Text) × (answer ≡ lines ls) × (parse now (reassemble ls) ≡ token t)

-- The instructions that last until the token `t` expires, with its payload and the endpoint `ep`.
abbrev pub until : Token → Text → Instructions
until t ep = record { valid_until = t.expiration; endpoint = ep; payload = t.payload }

-- What a call after the expiration gives, by the resolver's answer.
abbrev pub Refreshed :
    (ℕ → Text → Parsed)
    → ℕ
    → TxtAnswer
    → Instructions
    → Endpoint × Instructions × Option FetchEvent
    → Type 0
Refreshed parse now answer ins (result, ins', event) =
    Missing parse now answer × ((e : Error) × (result ≡ failed e)) × (ins' ≡ ins)
    ⊎ ((t : Token) × (ep : Text) × Says parse now answer t
        × (t.endpoint ≡ some ep)
        × (result ≡ found ep)
        × (ins' ≡ until t ep))
    ⊎ ((t : Token) × Says parse now answer t
        × (t.endpoint ≡ none)
        × (result ≡ panicked)
        × (ins' ≡ until t ins.endpoint)
        × (event ≡ none))

Parsed-cases : (p : Parsed) → ((e : Error) × (p ≡ bad e)) ⊎ ((t : Token) × (p ≡ token t))
Parsed-cases (bad e) = inl (e, refl)
Parsed-cases (token t) = inr (t, refl)

claim-cases : (o : Option Text) → (o ≡ none) ⊎ ((ep : Text) × (o ≡ some ep))
claim-cases none = inl refl
claim-cases (some ep) = inr (ep, refl)

late-Refreshed :
    (parse : ℕ → Text → Parsed) (now : ℕ) (answer : TxtAnswer) (ins : Instructions)
    → ltb now ins.valid_until ≡ false
    → Refreshed parse now answer ins (endpoint parse now answer ins)
unfolding endpoint fetch validate
late-Refreshed parse now (unresolved e) ins late =
    rw (endpoint, late) (inl (inl (e, refl), (e, refl), refl))
late-Refreshed parse now (lines ls) ins late = elim (Parsed-cases (parse now (reassemble ls))) [
  | inl (e, q) ↦
      rw (endpoint, late, fetch, validate, q) (inl (inr (ls, e, refl, q), (_, refl), refl))
  | inr (t, q) ↦ elim (claim-cases t.endpoint) [
    | inl p ↦
        rw (endpoint, late, fetch, validate, q, p)
          (inr (inr (t, (ls, refl, q), p, refl, refl, refl)))
    | inr (ep, p) ↦
        rw (endpoint, late, fetch, validate, q, p)
          (inr (inl (t, ep, (ls, refl, q), p, rw (fetch, validate, q, p) refl, refl)))
  ]
]

-- A call before the instructions expire gives the endpoint that is kept, without a fetch and whatever
-- the resolver would answer. A later call follows the answer. Where there is no record, or one that
-- is not a valid JWT, it gives an error, never the endpoint that is out of date, and keeps the
-- instructions as they are. Where the record is a valid JWT with a text as its endpoint, it gives
-- that endpoint, and keeps it with the token's expiration and payload. Where the endpoint of a valid
-- JWT is not a text, it panics with no event, and leaves the token's expiration and payload with the
-- old endpoint.
pub endpoint_cached :
    (parse : ℕ → Text → Parsed) (now : ℕ) (answer : TxtAnswer) (ins : Instructions)
    → let (result, ins', event) = endpoint parse now answer ins in
      (now < ins.valid_until) × (result ≡ found ins.endpoint) × (ins' ≡ ins) × (event ≡ none)
      ⊎ (ins.valid_until ≤ now) × Refreshed parse now answer ins (result, ins', event)
unfolding endpoint
endpoint_cached parse now answer ins = elim (Bool-cases (ltb now ins.valid_until)) [
  | inl early ↦ inl (
    grind (arith, early),
    rw (endpoint, early) refl,
    rw (endpoint, early) refl,
    rw (endpoint, early) refl,
  )
  | inr late ↦ inr (grind (arith, late), late-Refreshed parse now answer ins late)
]
