-- ===== src/Websocket.antt =====
-- internal/websocket/ws.go and mode.go: the connection to the cloud. It is dialed in rounds, and in
-- each round what is read from it is passed to the listeners.
-- Parameters: `C` for the connections of the package nhooyr.io/websocket, `H` for the HTTP clients,
-- `P` for the policies of the package retry. What the listeners are given, and what is done to a
-- connection, is a list of events.
pub mod Options
pub mod Settings
pub mod Dials
pub mod Rounds
pub mod Authorization
pub mod Url
pub mod Heartbeats
pub mod Client
use xmidt_agent.Base.{
  ℕ, zero, suc, Bool, true, false, ◌&&◌, Option, some, none, List, [], ◌∷◌, ◌++◌, Text, take,
  length, ltb, if◌then◌else◌,
}
use xmidt_agent.Base.Dict.{Dict}
use xmidt_agent.Wrp.{Error, sentinel, closed, invalid_msg_type, Message}
use xmidt_agent.Fs.{Result, ok, failed}

-- ipMode, which ToEvent maps to the event's mode
pub data IpMode : Type 0 where
  ipv4 ipv6 : IpMode

-- nextMode, by withIPv4 and withIPv6
unfoldable pub next_mode : Bool → Bool → IpMode → IpMode
next_mode with_ipv4 with_ipv6 ipv4 = if with_ipv6 then ipv6 else ipv4
next_mode with_ipv4 with_ipv6 ipv6 = if with_ipv4 then ipv4 else ipv6

unfoldable pub limit : Text → Text
limit s = if ltb 125 (length s) then take 125 s else s

-- Send, on the connection that is stored
unfoldable pub send :
    {C : Type 0} → (C → Message → Option Error) → Option C → Message → Option Error
send write none msg = some (sentinel closed)
send write (some conn) msg = write conn msg

-- What is read from a connection, message by message, until reading ends.
pub data Session : Type 0 where
  message : Message → Session → Session
  -- the context of run is cancelled
  cancelled : Session
  -- Reader fails, or nothing comes for the time of inactivityTimeout
  unread : Error → Session
  not_binary : Session
  undecoded : Error → Session

-- The events; `dialed` has the headers of the request.
pub data Event (C : Type 0) : Type 0 where
  dialed : IpMode → Dict Text → Event C
  connected : IpMode → Event C
  -- with the time after which it is tried again
  unconnected : IpMode → Error → ℕ → Event C
  received : Message → Event C
  closes : C → Text → Event C
  disconnected : Error → Event C

-- The connection after dial: the limits that are set on it
pub record Link (C : Type 0) : Type 0 where
  pub conn : C
  pub read_limit : ℕ
  pub ping_write_timeout : ℕ

-- dial: the URL, the client for the mode and the connection, or the error of the first that fails
unfoldable pub dial :
    {C H : Type 0}
    → ℕ
    → ℕ
    → Result Text
    → (IpMode → Result H)
    → (Text → Dict Text → H → Result C)
    → IpMode
    → Dict Text
    → Result (Link C)
dial max_bytes ping_timeout url new_client dial_url mode headers = elim url [
  | failed e ↦ failed e
  | ok u ↦ elim (new_client mode) [
    | failed e ↦ failed e
    | ok client ↦ elim (dial_url u headers client) [
      | failed e ↦ failed e
      | ok conn ↦
          ok (record { conn = conn; read_limit = max_bytes; ping_write_timeout = ping_timeout })
    ]
  ]
]

-- How reading ended: the error with which the connection is closed, or none if it was cancelled.
unfoldable pub session_error : Session → Option Error
session_error (message m rest) = session_error rest
session_error cancelled = none
session_error (unread e) = some e
session_error not_binary = some (sentinel invalid_msg_type)
session_error (undecoded e) = some e

module _ {C : Type 0} (describe : Error → Text) where
  abbrev pub break_off : C → Error → List (Event C)
  break_off conn e = closes conn (limit (describe e)) ∷ disconnected e ∷ []

  -- the read loop
  unfoldable pub serve : C → Session → List (Event C)
  serve conn (message m rest) = received m ∷ serve conn rest
  serve conn cancelled = []
  serve conn (unread e) = break_off conn e
  serve conn not_binary = break_off conn (sentinel invalid_msg_type)
  serve conn (undecoded e) = break_off conn e

-- The variables of run, and the fields that it changes.
pub record Loop (C P : Type 0) : Type 0 where
  pub mode : IpMode
  pub policy : P
  pub conn : Option C
  pub headers : Dict Text

-- What happens in a round: the decorators, what dial gives, what is read if there is a connection,
-- and whether the select at the end finds the context cancelled.
pub record Round (C : Type 0) : Type 0 where
  pub cred_decorator : Dict Text → Option Error × Dict Text
  pub convey_decorator : Dict Text → Option Error × Dict Text
  pub dial : IpMode → Dict Text → Result C
  pub session : Session
  pub stopped : Bool

-- `next, _ = policy.Next()`, unless `once` ends run before
abbrev pub advance : {P : Type 0} → Bool → (P → ℕ × P) → P → P
advance once next policy = if once then policy else (next policy).1

-- the start of run
unfoldable pub start : {C P : Type 0} → Bool → Bool → P → Dict Text → Loop C P
start with_ipv4 with_ipv6 new_policy headers = record {
  mode = next_mode with_ipv4 with_ipv6 ipv4;
  policy = new_policy;
  conn = none;
  headers = headers;
}

-- `next` is the policy's Next, and `new_policy` what retryPolicyFactory.NewPolicy gives.
module _ {C P : Type 0} (once : Bool) (next : P → ℕ × P) where
  -- what follows a failed dial
  unfoldable pub not_connected : IpMode → Error → Loop C P → List (Event C) × Loop C P
  not_connected mode e l = (
    if once then [] else unconnected mode e (next l.policy).0 ∷ [],
    record l { policy = advance once next l.policy },
  )

  module _ (describe : Error → Text) (new_policy : P) where
    -- what follows a dial that succeeds
    unfoldable pub use_connection : IpMode → C → Session → Loop C P → List (Event C) × Loop C P
    use_connection mode conn session l = (
      connected mode ∷ serve describe conn session,
      record l {
        policy = advance once next new_policy;
        conn = elim (session_error session) [ none ↦ some conn | some e ↦ none ];
      },
    )

    module _ (with_ipv4 with_ipv6 : Bool) where
      -- The body of run's loop up to the select.
      unfoldable pub attempt : Round C → Loop C P → List (Event C) × Loop C P
      attempt r l =
          let mode = next_mode with_ipv4 with_ipv6 l.mode in
          let headers = (r.convey_decorator (r.cred_decorator l.headers).1).1 in
          let l' : Loop C P = record l { mode = mode; headers = headers } in
          let (events, after) : List (Event C) × Loop C P = elim (r.dial mode headers) [
            | failed e ↦ not_connected mode e l'
            | ok conn ↦ use_connection mode conn r.session l'
          ] in
          (dialed mode headers ∷ events, after)

      -- The rounds of run, until `once` or the context ends it, or the list ends.
      unfoldable pub run : List (Round C) → Loop C P → List (Event C) × Loop C P
      run [] l = ([], l)
      run (r ∷ rounds) l =
          let (events, l') = attempt r l in
          let (later, end) = run rounds l' in
          if once then (events, l') else if r.stopped then (events, l') else (events ++ later, end)
