-- ===== src/Websocket/Rounds.antt =====
-- What a round of run comes to: the events for the listeners, in their order, and the connection.
use xmidt_agent.Base.{
  ℕ, zero, suc, ◌≤◌, ◌≡◌, refl, ap, ◌⊎◌, inl, inr, Bool, Option, some, none, List, [], ◌∷◌, ◌++◌,
  Text, arith, map, take, Bool-cases, if◌then◌else◌, length, ltb,
}
use xmidt_agent.Wrp.{Error, Message, sentinel, invalid_msg_type}
use xmidt_agent.Fs.{ok, failed}
use xmidt_agent.Fs.Checksum.{Result-cases}
use xmidt_agent.Websocket.{
  next_mode, limit, Session, message, cancelled, unread, not_binary, undecoded, session_error,
  Event, dialed, connected, unconnected, received, closes, disconnected, serve, Loop, Round,
  advance, not_connected, use_connection, attempt,
}

-- The messages of a session, in order.
abbrev pub messages : Session → List Message
messages (message m rest) = m ∷ messages rest
messages cancelled = []
messages (unread e) = []
messages not_binary = []
messages (undecoded e) = []

-- What follows the messages: nothing after a cancellation; otherwise the connection is closed, with a
-- reason that fits a close frame, and the listeners hear of it.
abbrev pub Ending : {C : Type 0} → C → Session → List (Event C) → Option C → Type 0
Ending conn session events stored =
    (session_error session ≡ none) × (events ≡ []) × (stored ≡ some conn)
    ⊎ ((e : Error) × (reason : Text) × (session_error session ≡ some e)
        × (events ≡ closes conn reason ∷ disconnected e ∷ [])
        × (length reason ≤ 125)
        × (stored ≡ none))

take-bound : {A : Type 0} (n : ℕ) (xs : List A) → length (take n xs) ≤ n
take-bound zero xs = omega arith
take-bound (suc n) [] = omega arith
take-bound (suc n) (x ∷ xs) = omega (arith, take-bound n xs)

limit-bound : (s : Text) → length (limit s) ≤ 125
unfolding limit
limit-bound s = elim (Bool-cases (ltb 125 (length s))) [
  | inl p ↦ rw (limit, p) (take-bound 125 s)
  | inr p ↦ rw (limit, p) (grind (arith, p))
]

module _ {C : Type 0} (describe : Error → Text) where
  ends :
      (conn : C) (session : Session) (e : Error)
      → session_error session ≡ some e
      → Ending conn session (closes conn (limit (describe e)) ∷ disconnected e ∷ []) none
  ends conn session e p = inr (e, limit (describe e), p, refl, limit-bound (describe e), refl)

  -- The events of a session: its messages, and then its ending.
  serve_lem :
      (conn : C) (session : Session)
      → (last : List (Event C)) × (serve describe conn session
          ≡ map received (messages session) ++ last)
        × Ending conn session last
            (elim (session_error session) [ none ↦ some conn | some e ↦ none ])
  unfolding serve session_error
  serve_lem conn (message m rest) =
      let (last, p, q) = serve_lem conn rest in (last, ap (λ l. received m ∷ l) p, q)
  serve_lem conn cancelled = ([], refl, inl (refl, refl, refl))
  serve_lem conn (unread e) = (_, refl, ends conn (unread e) e refl)
  serve_lem conn not_binary = (_, refl, ends conn not_binary (sentinel invalid_msg_type) refl)
  serve_lem conn (undecoded e) = (_, refl, ends conn (undecoded e) e refl)

module _ {C P : Type 0} (once : Bool) (next : P → ℕ × P) (describe : Error → Text) (new_policy : P)
    (with_ipv4 with_ipv6 : Bool) where
  -- A round decorates the headers, first with the credentials, and dials with the next mode. If the
  -- dial fails, nothing is told to the listeners with `once`, and otherwise that it has failed and the wait,
  -- which is the policy's. If it succeeds, the listeners get that it is connected and then each
  -- message that is read, in order; when reading ends other than by the context, the connection is
  -- forgotten and closed, with a reason of at most 125 bytes, and the listeners get the error. The
  -- policy starts anew after a dial that succeeds.
  pub attempt-events :
      (r : Round C) (l : Loop C P)
      → let mode = next_mode with_ipv4 with_ipv6 l.mode in
        let headers = (r.convey_decorator (r.cred_decorator l.headers).1).1 in
        let (events, l') = attempt once next describe new_policy with_ipv4 with_ipv6 r l in
        ((e : Error) × (r.dial mode headers ≡ failed e)
          × (events
              ≡ dialed mode headers
                ∷ (if once then [] else unconnected mode e (next l.policy).0 ∷ []))
          × (l' ≡ record {
            mode = mode;
            policy = advance once next l.policy;
            conn = l.conn;
            headers = headers;
          }))
        ⊎ ((conn : C) × (last : List (Event C)) × (stored : Option C) × (r.dial mode headers
              ≡ ok conn)
            × (events
                ≡ dialed mode headers ∷ connected mode ∷ map received (messages r.session) ++ last)
            × Ending conn r.session last stored
            × (l' ≡ record {
              mode = mode;
              policy = advance once next new_policy;
              conn = stored;
              headers = headers;
            }))
  unfolding attempt not_connected use_connection
  attempt-events r l =
      let mode = next_mode with_ipv4 with_ipv6 l.mode in
      let headers = (r.convey_decorator (r.cred_decorator l.headers).1).1 in
      elim (Result-cases (r.dial mode headers)) [
        | inl (e, p) ↦ inl (e, p, rw (attempt, p) refl, rw (attempt, p) refl)
        | inr (conn, p) ↦
            let (last, q, ending) = serve_lem describe conn r.session in
            inr (
              conn,
              last,
              _,
              p,
              rw (attempt, p) (ap (λ es. dialed mode headers ∷ connected mode ∷ es) q),
              ending,
              rw (attempt, p) refl,
            )
      ]
