-- ===== src/Jwtxt.antt =====
-- internal/jwtxt/token.go: instructions that are fetched as a DNS TXT record. The record's lines are put
-- together to a JWT, and what a valid one says is kept until it expires.
-- `parse` stands for the libraries jwt and jws: whether a text is a valid JWT at an instant under the
-- key set, its claims and its payload. `lookup_txt` is the resolver's answer.
pub mod Reassemble
pub mod Cache
pub mod Settings
use xmidt_agent.Base.{
  ℕ, zero, suc, ◌+◌, ◌/◌, ◌%◌, Bool, true, false, Option, some, none, List, [], ◌∷◌, ◌++◌, Text,
  codes, length, ltb, ◌==◌, if◌then◌else◌,
}
use xmidt_agent.Base.Dict.{Dict}
use xmidt_agent.Base.Dict
use xmidt_agent.Wrp.{Error, sentinel, joined, invalid_jwt}

-- strings.Split at a single byte
unfoldable pub split : ℕ → Text → List Text
split c [] = [] ∷ []
split c (b ∷ s) =
    let rest = split c s in
    if b == c
    then [] ∷ rest
    else elim rest [ [] ↦ (b ∷ []) ∷ [] | part ∷ parts ↦ (b ∷ part) ∷ parts ]

-- `parts[segments[0]] = segments[1]` for a line with exactly two segments
unfoldable pub add_segments : List Text → Dict Text → Dict Text
add_segments (key ∷ value ∷ []) parts = Dict.insert key value parts
add_segments _ parts = parts

unfoldable pub add_lines : List Text → Dict Text → Dict Text
add_lines [] parts = parts
add_lines (line ∷ lines) parts = add_lines lines (add_segments (split b':' line) parts)

abbrev pub digit : ℕ → ℕ
digit n = b'0' + n

-- A number in decimal; the fuel `i + 1` is enough for `i`.
unfoldable pub decimal : ℕ → ℕ → Text
decimal zero i = []
decimal (suc f) i =
    let rest = decimal f (i / 10) in if ltb i 10 then digit i ∷ [] else rest ++ digit (i % 10) ∷ []

-- fmt.Sprintf("%0.2d", i): at least two digits
unfoldable pub index_string : ℕ → Text
index_string i = if ltb i 10 then b'0' ∷ digit i ∷ [] else decimal (suc i) i

-- the last loop of reassemble, from index `i` on, with `n` rounds left
unfoldable pub concat_from : ℕ → ℕ → Dict Text → Text
concat_from zero i parts = []
concat_from (suc n) i parts =
    let rest = concat_from n (suc i) parts in
    elim (Dict.lookup (index_string i) parts) [ none ↦ [] | some value ↦ value ++ rest ]

unfoldable pub reassemble : List Text → Text
reassemble lines =
    let parts = add_lines lines ((codes "00", codes "") ∷ []) in concat_from (length parts) 0 parts

-- What the JWT libraries say of a text. The claim endpoint is required, of whatever type: `none` is
-- one that is not a string.
pub record Token : Type 0 where
  pub expiration : ℕ
  pub endpoint : Option Text
  pub payload : Text

pub data Parsed : Type 0 where
  token : Token → Parsed
  bad : Error → Parsed

pub data TxtAnswer : Type 0 where
  lines : List Text → TxtAnswer
  unresolved : Error → TxtAnswer

pub record Instructions : Type 0 where
  pub valid_until : ℕ
  pub endpoint : Text
  pub payload : Text

-- The event of a fetch; its durations and the details of a DNS error are left out.
pub record FetchEvent : Type 0 where
  pub prior_expiration : ℕ
  pub found : Bool
  pub error : Option Error
  pub expiration : ℕ
  pub endpoint : Text
  pub payload : Text

-- How validate and fetch end: without an error, with one, or in the panic of `ep.(string)`.
pub data Verdict : Type 0 where
  valid : Verdict
  refused : Error → Verdict
  panics : Verdict

pub data Endpoint : Type 0 where
  found : Text → Endpoint
  failed : Error → Endpoint
  panicked : Endpoint

module _ (parse : ℕ → Text → Parsed) where
  -- validate, at the instant `now`. A panic comes after the payload and the expiration are set.
  unfoldable pub validate : ℕ → Text → Instructions → Verdict × Instructions
  validate now input ins = elim (parse now input) [
    | bad e ↦ (refused (joined e (sentinel invalid_jwt)), ins)
    | token t ↦ elim t.endpoint [
      | none ↦ (
        panics,
        record { valid_until = t.expiration; endpoint = ins.endpoint; payload = t.payload },
      )
      | some ep ↦ (valid, record { valid_until = t.expiration; endpoint = ep; payload = t.payload })
    ]
  ]

  -- fetch dispatches an event in each case but that of a panic.
  unfoldable pub fetch : ℕ → TxtAnswer → Instructions → Verdict × Instructions × Option FetchEvent
  fetch now (unresolved e) ins = (
    refused e,
    ins,
    some (record {
      prior_expiration = ins.valid_until;
      found = false;
      error = some e;
      expiration = 0;
      endpoint = [];
      payload = [];
    }),
  )
  fetch now (lines ls) ins =
      let (verdict, ins') = validate now (reassemble ls) ins in
      let event : Option FetchEvent = elim verdict [
        | panics ↦ none
        | refused e ↦ some (record {
          prior_expiration = ins.valid_until;
          found = true;
          error = some e;
          expiration = 0;
          endpoint = [];
          payload = [];
        })
        | valid ↦ some (record {
          prior_expiration = ins.valid_until;
          found = true;
          error = none;
          expiration = ins'.valid_until;
          endpoint = ins'.endpoint;
          payload = ins'.payload;
        })
      ] in
      (verdict, ins', event)

  -- Endpoint: the endpoint, an error or the panic, the instructions after it, and the event if there
  -- is one.
  unfoldable pub endpoint :
      ℕ → TxtAnswer → Instructions → Endpoint × Instructions × Option FetchEvent
  endpoint now answer ins =
      let (verdict, ins', event) = fetch now answer ins in
      if ltb now ins.valid_until then (found ins.endpoint, ins, none) else (
        (elim verdict [ valid ↦ found ins'.endpoint | refused e ↦ failed e | panics ↦ panicked ]),
        ins',
        event,
      )
