-- ===== src/Websocket/Dials.antt =====
-- The IP modes that run dials with, over all its rounds.
use xmidt_agent.Base.{
  ℕ, zero, suc, ◌≡◌, refl, ap, ◌∙◌, inl, inr, Bool, true, false, ◌||◌, List, [], ◌∷◌, ◌++◌, Text,
  arith, if◌then◌else◌,
}
use xmidt_agent.Base.Dict.{Dict}
use xmidt_agent.Wrp.{Error}
use xmidt_agent.Fs.Checksum.{Result-cases}
use xmidt_agent.Websocket.{
  IpMode, ipv4, ipv6, next_mode, Session, message, cancelled, unread, not_binary, undecoded, Event,
  dialed, connected, unconnected, received, closes, disconnected, serve, Loop, Round, start,
  not_connected, use_connection, attempt, run,
}

-- The modes of the dials among the events.
abbrev pub dial_modes : {C : Type 0} → List (Event C) → List IpMode
dial_modes [] = []
dial_modes (dialed mode headers ∷ events) = mode ∷ dial_modes events
dial_modes (connected mode ∷ events) = dial_modes events
dial_modes (unconnected mode e wait ∷ events) = dial_modes events
dial_modes (received m ∷ events) = dial_modes events
dial_modes (closes conn reason ∷ events) = dial_modes events
dial_modes (disconnected e ∷ events) = dial_modes events

-- Both modes in turn, from the given one.
abbrev pub in_turn : ℕ → IpMode → List IpMode
in_turn zero mode = []
in_turn (suc n) ipv4 = ipv4 ∷ in_turn n ipv6
in_turn (suc n) ipv6 = ipv6 ∷ in_turn n ipv4

abbrev pub always : ℕ → IpMode → List IpMode
always zero mode = []
always (suc n) mode = mode ∷ always n mode

-- The modes of n dials: in turn, IPv4 first, if both are allowed, and otherwise the one that is.
abbrev pub planned : Bool → Bool → ℕ → List IpMode
planned true true n = in_turn n ipv4
planned true false n = always n ipv4
planned false _ n = always n ipv6

-- How many rounds run makes.
abbrev pub rounds_made : {C : Type 0} → Bool → List (Round C) → ℕ
rounds_made once [] = 0
rounds_made once (r ∷ rounds) =
    if once then 1 else if r.stopped then 1 else suc (rounds_made once rounds)

dial_modes-append :
    {C : Type 0} (xs ys : List (Event C)) → dial_modes (xs ++ ys) ≡ dial_modes xs ++ dial_modes ys
dial_modes-append [] ys = refl
dial_modes-append (dialed mode headers ∷ xs) ys = ap (λ l. mode ∷ l) (dial_modes-append xs ys)
dial_modes-append (connected mode ∷ xs) ys = dial_modes-append xs ys
dial_modes-append (unconnected mode e wait ∷ xs) ys = dial_modes-append xs ys
dial_modes-append (received m ∷ xs) ys = dial_modes-append xs ys
dial_modes-append (closes conn reason ∷ xs) ys = dial_modes-append xs ys
dial_modes-append (disconnected e ∷ xs) ys = dial_modes-append xs ys

serve-dial_modes :
    {C : Type 0} (describe : Error → Text) (conn : C) (session : Session)
    → dial_modes (serve describe conn session) ≡ []
unfolding serve
serve-dial_modes describe conn (message m rest) = serve-dial_modes describe conn rest
serve-dial_modes describe conn cancelled = refl
serve-dial_modes describe conn (unread e) = refl
serve-dial_modes describe conn not_binary = refl
serve-dial_modes describe conn (undecoded e) = refl

-- The modes from a round on, by that of the round before.
abbrev from_mode : Bool → Bool → ℕ → IpMode → List IpMode
from_mode with_ipv4 with_ipv6 zero mode = []
from_mode with_ipv4 with_ipv6 (suc n) mode =
    let mode' = next_mode with_ipv4 with_ipv6 mode in mode' ∷ from_mode with_ipv4 with_ipv6 n mode'

-- The events that a round and the rest come to, by whether it is the last.
last_or_more :
    {C L : Type 0} (once stopped : Bool) (mode : IpMode) (modes : List IpMode)
    (events later : List (Event C)) (l end : L)
    → dial_modes events ≡ mode ∷ []
    → dial_modes later ≡ modes
    → let r : List (Event C) × L =
        if once then (events, l) else if stopped then (events, l) else (events ++ later, end) in
      dial_modes r.0 ≡ mode ∷ (if once then [] else if stopped then [] else modes)
last_or_more true stopped mode modes events later l end p q = p
last_or_more false true mode modes events later l end p q = p
last_or_more false false mode modes events later l end p q =
    dial_modes-append events later ∙ rw (p, q) refl

from_mode-made :
    (with_ipv4 with_ipv6 once stopped : Bool) (n : ℕ) (mode : IpMode)
    → (let mode' = next_mode with_ipv4 with_ipv6 mode in
        mode'
        ∷ (if once then [] else if stopped then [] else from_mode with_ipv4 with_ipv6 n mode'))
      ≡ from_mode with_ipv4 with_ipv6 (if once then 1 else if stopped then 1 else suc n) mode
from_mode-made with_ipv4 with_ipv6 true stopped n mode = refl
from_mode-made with_ipv4 with_ipv6 false true n mode = refl
from_mode-made with_ipv4 with_ipv6 false false n mode = refl

from_mode-in_turn :
    (n : ℕ)
    → (from_mode true true n ipv6 ≡ in_turn n ipv4) × (from_mode true true n ipv4 ≡ in_turn n ipv6)
unfolding next_mode
from_mode-in_turn zero = (refl, refl)
from_mode-in_turn (suc n) =
    (ap (λ l. ipv4 ∷ l) (from_mode-in_turn n).1, ap (λ l. ipv6 ∷ l) (from_mode-in_turn n).0)

from_mode-always :
    (n : ℕ)
    → (from_mode true false n ipv4 ≡ always n ipv4) × (from_mode false true n ipv6 ≡ always n ipv6)
unfolding next_mode
from_mode-always zero = (refl, refl)
from_mode-always (suc n) =
    (ap (λ l. ipv4 ∷ l) (from_mode-always n).0, ap (λ l. ipv6 ∷ l) (from_mode-always n).1)

from_mode-planned :
    (with_ipv4 with_ipv6 : Bool) (n : ℕ)
    → (with_ipv4 || with_ipv6) ≡ true
    → from_mode with_ipv4 with_ipv6 n (next_mode with_ipv4 with_ipv6 ipv4)
      ≡ planned with_ipv4 with_ipv6 n
unfolding next_mode
from_mode-planned true true n h = (from_mode-in_turn n).0
from_mode-planned true false n h = (from_mode-always n).0
from_mode-planned false true n h = (from_mode-always n).1
from_mode-planned false false n h = cc

module _ {C P : Type 0} (once : Bool) (next : P → ℕ × P) (describe : Error → Text) (new_policy : P)
    (with_ipv4 with_ipv6 : Bool) where
  abbrev made : Round C → Loop C P → List (Event C) × Loop C P
  made = attempt once next describe new_policy with_ipv4 with_ipv6

  not_connected-dial_modes :
      (mode : IpMode) (e : Error) (l : Loop C P)
      → (dial_modes (not_connected once next mode e l).0 ≡ [])
        × ((not_connected once next mode e l).1.mode ≡ l.mode)
  unfolding not_connected
  not_connected-dial_modes mode e l = (ground arith, refl)

  -- Each round dials once, with the mode after the one before.
  attempt-dial_modes :
      (r : Round C) (l : Loop C P)
      → let mode = next_mode with_ipv4 with_ipv6 l.mode in
        (dial_modes (made r l).0 ≡ mode ∷ []) × ((made r l).1.mode ≡ mode)
  unfolding attempt use_connection
  attempt-dial_modes r l =
      let mode = next_mode with_ipv4 with_ipv6 l.mode in
      let headers = (r.convey_decorator (r.cred_decorator l.headers).1).1 in
      let l' : Loop C P = record l { mode = mode; headers = headers } in
      elim (Result-cases (r.dial mode headers)) [
        | inl (e, p) ↦
            rw (attempt, p)
              (
                ap (λ t. mode ∷ t) (not_connected-dial_modes mode e l').0,
                (not_connected-dial_modes mode e l').1,
              )
        | inr (conn, p) ↦
            rw (attempt, p) (ap (λ t. mode ∷ t) (serve-dial_modes describe conn r.session), refl)
      ]

  run-dial_modes :
      (rounds : List (Round C)) (l : Loop C P)
      → dial_modes (run once next describe new_policy with_ipv4 with_ipv6 rounds l).0
        ≡ from_mode with_ipv4 with_ipv6 (rounds_made once rounds) l.mode
  unfolding run
  run-dial_modes [] l = refl
  run-dial_modes (r ∷ rounds) l =
      let (p, q) = attempt-dial_modes r l in
      let l' = (made r l).1 in
      let rest = run once next describe new_policy with_ipv4 with_ipv6 rounds l' in
      let n = rounds_made once rounds in
      last_or_more once r.stopped (next_mode with_ipv4 with_ipv6 l.mode) _ (made r l).0 rest.0 l'
        rest.1 p (run-dial_modes rounds l' ∙ ap (from_mode with_ipv4 with_ipv6 n) q)
      ∙ from_mode-made with_ipv4 with_ipv6 once r.stopped n l.mode

  -- If a mode is allowed, run dials once in each round: always with the one that is allowed, and with
  -- IPv4 first and then in turn if both are, whatever the dials and the connections come to.
  pub run_modes :
      (rounds : List (Round C)) (headers : Dict Text)
      → (with_ipv4 || with_ipv6) ≡ true
      → dial_modes
          (run once next describe new_policy with_ipv4 with_ipv6 rounds
            (start with_ipv4 with_ipv6 new_policy headers)).0
        ≡ planned with_ipv4 with_ipv6 (rounds_made once rounds)
  unfolding start
  run_modes rounds headers allowed =
      run-dial_modes rounds (start with_ipv4 with_ipv6 new_policy headers)
      ∙ from_mode-planned with_ipv4 with_ipv6 (rounds_made once rounds) allowed
