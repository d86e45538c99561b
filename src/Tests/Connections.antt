-- ===== src/Tests/Connections.antt =====
-- The websocket, its configuration, that of the instructions, and the libparodus adapter on small
-- inputs.
use xmidt_agent.Base.{
  arith, ◌≤◌, ℕ, ◌+◌, ◌≡◌, ◌⊎◌, refl, true, false, Option, some, none, List, [], ◌∷◌, ◌++◌, Text,
  codes, map,
}
use xmidt_agent.Base.Dict.{Dict}
use xmidt_agent.Base.Dict
use xmidt_agent.Wrp.{Message, Error, sentinel, closed, blank}
use xmidt_agent.Fs.{Result, ok, failed}
use xmidt_agent.Websocket.{
  ipv4, ipv6, next_mode, message, cancelled, undecoded, Event, dialed, connected, unconnected,
  received, Loop, Round, start, attempt, run,
}
use xmidt_agent.Websocket.Dials.{dial_modes, run_modes}
use xmidt_agent.Websocket.Rounds.{messages, Ending, attempt-events}
use xmidt_agent.Websocket.Authorization.{Authorized, dial-Authorized}
use xmidt_agent.Jwtxt.{Parsed, bad, unresolved, Instructions, endpoint}
use xmidt_agent.Websocket.Heartbeats.{
  ping, pong, expired, Reading, Happening, pinged, ponged, elapses, happen, happen_all, report,
  elapse,
}
use xmidt_agent.Websocket.Heartbeats.Idle.{beats, Outcome, watch_correct}
use xmidt_agent.Websocket.Url.{url_for, Found, BacksUp, fetch_endpoint_correct}
use xmidt_agent.Jwtxt
use xmidt_agent.Jwtxt.Cache.{Missing, Says}
use xmidt_agent.Credentials.{Token}
use xmidt_agent.Credentials
use xmidt_agent.Metadata.{MetadataProvider}
use xmidt_agent.Metadata
use xmidt_agent.Net
use xmidt_agent.Libparodus.{Adapter, Late, opened, register, new_external, beat, stop}
use xmidt_agent.Libparodus.Live.{IsLive}
use xmidt_agent.Libparodus.Reach.{starts, later, registers, empty, Reach-AllLive}
use xmidt_agent.Libparodus.Shutdown.Late.{IsClosed}
use xmidt_agent.Libparodus.Shutdown.Ends.{stop-IsClosed}
use xmidt_agent.Libparodus.Replaced.{replaced-removed}

abbrev describe : Error → Text
describe e = codes "broken"

abbrev wait : ℕ → ℕ × ℕ
wait n = (n, n + n)

abbrev unchanged : Dict Text → Option Error × Dict Text
unchanged h = (none, h)

abbrev refused : Round ℕ
refused = record {
  cred_decorator = unchanged;
  convey_decorator = unchanged;
  dial = λ mode h. failed (sentinel closed);
  session = cancelled;
  stopped = false;
}

abbrev served : Round ℕ
served = record {
  cred_decorator = unchanged;
  convey_decorator = unchanged;
  dial = λ mode h. ok 7;
  session = message blank (undecoded (sentinel closed));
  stopped = false;
}

run_modes_example :
    dial_modes
      (run false wait describe 1 true true
        (refused ∷ served ∷ refused ∷ [])
        (start true true 1 [])).0
    ≡ ipv4 ∷ ipv6 ∷ ipv4 ∷ []
run_modes_example =
    run_modes false wait describe 1 true true (refused ∷ served ∷ refused ∷ []) [] refl

abbrev before : Loop ℕ ℕ
before = record { mode = ipv4; policy = 4; conn = none; headers = [] }

attempt-events_example :
    let mode = next_mode true true ipv4 in
    let headers : Dict Text = [] in
    let (events, l') = attempt false wait describe 1 true true served before in
    ((e : Error) × (served.dial mode headers ≡ failed e)
      × (events ≡ dialed mode headers ∷ unconnected mode e 4 ∷ [])
      × (l' ≡ record { mode = mode; policy = 8; conn = none; headers = headers }))
    ⊎ ((conn : ℕ) × (last : List (Event ℕ)) × (stored : Option ℕ) × (served.dial mode headers
          ≡ ok conn)
        × (events
            ≡ dialed mode headers ∷ connected mode ∷ map received (messages served.session) ++ last)
        × Ending conn served.session last stored
        × (l' ≡ record { mode = mode; policy = 2; conn = stored; headers = headers }))
attempt-events_example = attempt-events false wait describe 1 true true served before

abbrev provider : MetadataProvider
provider = record {
  interface_names = none;
  fields = [];
  firmware = [];
  hardware = [];
  manufacturer = [];
  serial_number = [];
  last_reboot_reason = [];
  protocol = [];
  boot_time = [];
  boot_time_retry_delay = [];
  interface_used = [];
}

abbrev credential : Token
credential = record { token = codes "jwt"; expires_at = 50 }

abbrev decorated : Round ℕ
decorated = record served {
  cred_decorator = λ h. (none, Dict.insert (codes "Authorization") (codes "Bearer jwt") h);
  convey_decorator = λ h. (none, Dict.insert (codes "X-Webpa-Convey") (codes "e30") h);
}

dial-Authorized_example :
    (headers : Dict Text) × (rest : List (Event ℕ)) × ((attempt false wait describe 1 true true
        decorated before).0
      ≡ dialed (next_mode true true ipv4) headers ∷ rest)
    × ((attempt false wait describe 1 true true decorated before).1.headers ≡ headers)
    × Authorized 20 (some credential) [] headers
unfolding Credentials.decorate Credentials.decorate_headers Credentials.credentials
    Metadata.decorate Metadata.get_metadata Metadata.collect
dial-Authorized_example =
    dial-Authorized false wait describe 1 true true true 20 (some credential) (λ h. Net.ok [])
      (λ t. codes "e30") provider decorated before refl refl

Reach-AllLive_example : IsLive (codes "iot") 0 (register (codes "iot") opened empty).1
unfolding register new_external
Reach-AllLive_example =
    Reach-AllLive (register (codes "iot") opened empty).1
      (later starts (registers (codes "iot") opened)) (codes "iot") 0 refl

abbrev one : Adapter
one = (register (codes "iot") opened empty).1

replaced-removed_example :
    let b = (register (codes "iot") opened one).1 in
    let c = beat 0 true b in
    (Dict.lookup (codes "iot") b.sub_services ≡ some 1)
    × (Dict.lookup (codes "iot") c.sub_services ≡ none)
    × ((c.externals 1).is_open ≡ true)
    × ((c.externals 1).is_subscribed ≡ true)
unfolding register new_external
replaced-removed_example =
    replaced-removed one (codes "iot") 0 true (later starts (registers (codes "iot") opened)) refl

abbrev to_iot : Message
to_iot = record blank { source = codes "iot" }

-- While Stop runs, another service registers.
abbrev late_one : Option Late
late_one = some (record { name = codes "config"; opening = opened; rounds = 1; is_met = false })

stop-IsClosed_example :
    (Dict.lookup (codes "mesh") (stop late_one one).sub_services ≡ none)
    × IsClosed 0 (stop late_one one)
    × (((beat 0 true (stop late_one one)).externals 0).keeps_alive ≡ false)
unfolding register new_external
stop-IsClosed_example =
    stop-IsClosed late_one one (codes "iot") (codes "mesh") 0 true
      (later starts (registers (codes "iot") opened)) refl refl refl

abbrev join_path : Text → Text → Result Text
join_path base path = ok (base ++ codes "/" ++ path)

abbrev outdated : Instructions
outdated = record { valid_until = 5; endpoint = codes "wss://old"; payload = [] }

abbrev unparsed : ℕ → Text → Parsed
unparsed now t = bad (sentinel closed)

fetch_endpoint_correct_example :
    let answer = unresolved (sentinel closed) in
    let url =
      url_for join_path (codes "api") (codes "wss://b") (endpoint unparsed 9 answer outdated).0 in
    ((base : Text) × Found unparsed 9 answer outdated base
      × (url ≡ some (join_path base (codes "api"))))
    ⊎ (5 ≤ 9)
      × Missing unparsed 9 answer
      × ((r : Result Text) × (url ≡ some r) × BacksUp join_path (codes "api") (codes "wss://b") r)
    ⊎ (5 ≤ 9) × ((t : Jwtxt.Token) × Says unparsed 9 answer t × (t.endpoint ≡ none)) × (url ≡ none)
fetch_endpoint_correct_example =
    fetch_endpoint_correct join_path (codes "api") (codes "wss://b") unparsed 9
      (unresolved (sentinel closed)) outdated

-- A ping at 4, and nothing until 15.
abbrev happenings : List Happening
happenings = pinged false 4 ∷ ponged false 6 ∷ elapses 15 ∷ []

abbrev inactive : Reading
inactive = record {
  watch = expired 15;
  is_blocked = false;
  heartbeats = record { at = 4; kind = ping } ∷ record { at = 6; kind = pong } ∷ [];
}

watch_correct_example :
    (inactive.heartbeats ≡ beats happenings) × Outcome 10 1 happenings (expired 15) false
unfolding happen_all happen report elapse
watch_correct_example = watch_correct 10 1 happenings inactive (omega arith, tt) refl
