-- ===== src/Libparodus.antt =====
-- internal/adapters/libparodus/libparodus.go, external.go and options.go: services outside the agent
-- register, are kept alive, and are given the messages that answer them.
-- Parameters: what the sockets of the package mangos answer, `parse` for wrp.ParseLocator (the
-- service of a source), and `send` for the encoding of a message and its sending to a service.
pub mod Live
pub mod Reach
pub mod Replaced
pub mod Shutdown
use xmidt_agent.Base.{
  ℕ, zero, suc, Bool, true, false, ◌&&◌, Option, some, none, List, [], ◌∷◌, ◌++◌, Text, is_empty,
  ◌==◌, if◌then◌else◌,
}
use xmidt_agent.Base.Int.{ℤ, pos}
use xmidt_agent.Base.Dict.{Dict}
use xmidt_agent.Base.Dict
use xmidt_agent.Wrp.{
  Message, Error, sentinel, invalid_input, no_service, MessageType, invalid0, invalid1,
  service_registration, service_alive,
}
use xmidt_agent.Fs.{Result, ok, failed}
use xmidt_agent.Setup.{Applied, applied, Setting, apply_all, reject_each}

-- external: whether its socket is open, whether it is subscribed to the pubsub, and whether its
-- keepalive goroutine runs
pub record External : Type 0 where
  pub name : Text
  pub is_open : Bool
  pub is_subscribed : Bool
  pub keeps_alive : Bool

-- Adapter: the map subServices holds the numbers of the externals, of which `made` have been made.
pub record Adapter : Type 0 where
  pub sub_services : Dict ℕ
  pub externals : ℕ → External
  pub made : ℕ

-- How newExternal ends: the socket, its Dial or the subscription fails, or all succeed.
pub data Opening : Type 0 where
  no_socket : Error → Opening
  undialed : Error → Opening
  unsubscribed : Error → Opening
  opened : Opening

abbrev pub change : ℕ → External → (ℕ → External) → ℕ → External
change i x externals j = if j == i then x else externals j

-- the function terminate that register passes on
unfoldable pub terminate : Text → Adapter → Adapter
terminate name a = record a { sub_services = Dict.delete name a.sub_services }

-- cancel
unfoldable pub cancel : ℕ → Adapter → Adapter
cancel i a =
    let x : External = record (a.externals i) { is_open = false; is_subscribed = false } in
    terminate x.name (record a { externals = change i x a.externals })

-- newExternal: its error, and the adapter with the new external, which has the number `made`
unfoldable pub new_external : Text → Opening → Adapter → Option Error × Adapter
new_external name (no_socket e) a = (some e, a)
new_external name (undialed e) a = (some e, terminate name a)
new_external name (unsubscribed e) a = (some e, terminate name a)
new_external name opened a =
    let x : External = record {
      name = name;
      is_open = true;
      is_subscribed = true;
      keeps_alive = true;
    } in
    (none, record a { externals = change a.made x a.externals; made = suc a.made })

-- `prev.cancel()`, if there is one
abbrev pub cancel_if : Option ℕ → Adapter → Adapter
cancel_if none a = a
cancel_if (some i) a = cancel i a

-- One step, although newExternal starts the keepalive goroutine before the new external is in the map.
unfoldable pub register : Text → Opening → Adapter → Option Error × Adapter
register name opening a =
    let (err, a') = new_external name opening a in
    let a'' = cancel_if (Dict.lookup name a'.sub_services) a' in
    elim err [
      | some e ↦ (some e, a')
      | none ↦ (none, record a'' { sub_services = Dict.insert name a.made a''.sub_services })
    ]

-- A message that keepalive sends, the first or a later one, where the flag says whether an open socket
-- takes it. The `break` after the context is cancelled only leaves the select, so it is sent all the
-- same.
unfoldable pub beat : ℕ → Bool → Adapter → Adapter
beat i taken a =
    let x = a.externals i in
    let ended =
      cancel i (record a { externals = change i (record x { keeps_alive = false }) a.externals }) in
    if x.keeps_alive then (if x.is_open && taken then a else ended) else a

-- What forward does: the message is published, then sent to an external, and the error.
pub record Forwarded : Type 0 where
  pub published : Message
  pub sent : Option ℕ
  pub error : Option Error

unfoldable pub forward :
    (Text → Result Text) → (ℕ → Message → Option Error) → Message → Adapter → Forwarded
forward parse send msg a = elim (parse msg.source) [
  | failed e ↦ record { published = msg; sent = none; error = some e }
  | ok service ↦ elim (Dict.lookup service a.sub_services) [
    | none ↦ record { published = msg; sent = none; error = some (sentinel no_service) }
    | some i ↦ record { published = msg; sent = some i; error = send i msg }
  ]
]

-- What receive does with a message.
pub data Received : Type 0 where
  registered : Option Error → Received
  dropped : Received
  forwarded : Forwarded → Received

module _ (parse : Text → Result Text) (send : ℕ → Message → Option Error) where
  unfoldable pub dispatch : MessageType → Message → Opening → Adapter → Received × Adapter
  dispatch service_registration msg opening a =
      let (err, a') = register msg.service_name opening a in (registered err, a')
  dispatch invalid0 msg opening a = (dropped, a)
  dispatch invalid1 msg opening a = (dropped, a)
  dispatch service_alive msg opening a = (dropped, a)
  dispatch _ msg opening a = (forwarded (forward parse send msg a), a)

  -- a round of receive, in which a message is decoded
  unfoldable pub receive : Message → Opening → Adapter → Received × Adapter
  receive msg opening a = dispatch msg.msg_type msg opening a

abbrev pub keys : {V : Type 0} → Dict V → List Text
keys [] = []
keys ((k, v) ∷ m) = k ∷ keys m

-- rounds of the loop of Stop; what an earlier round has removed from the map is passed over
unfoldable pub cancel_each : List Text → Adapter → Adapter
cancel_each [] a = a
cancel_each (name ∷ names) a = cancel_each names (cancel_if (Dict.lookup name a.sub_services) a)

-- The registration that receive may still make while the loop of Stop runs: Stop cancels the context,
-- which receive looks at before its next Recv, and waits for it only after the loop, which holds no
-- lock. It comes after `rounds` rounds of the loop, which meets the new key in the map or not. The
-- messages of keepalive goroutines come before the loop or after it.
pub record Late : Type 0 where
  pub name : Text
  pub opening : Opening
  pub rounds : ℕ
  pub is_met : Bool

-- the loop of Stop, with a registration in it
unfoldable pub cancel_late : Late → ℕ → List Text → Adapter → Adapter
cancel_late late zero names a =
    cancel_each (if late.is_met then names ++ late.name ∷ [] else names)
      (register late.name late.opening a).1
cancel_late late (suc n) [] a = cancel_late late n [] a
cancel_late late (suc n) (name ∷ names) a =
    cancel_late late n names (cancel_if (Dict.lookup name a.sub_services) a)

unfoldable pub stop : Option Late → Adapter → Adapter
stop none a = cancel_each (keys a.sub_services) a
stop (some late) a = cancel_late late late.rounds (keys a.sub_services) a

-- The fields of Adapter that New and the options set; a nil pubsub is `none`.
pub record Config (S : Type 0) : Type 0 where
  pub parodus_service_url : Text
  pub keepalive_interval : ℤ
  pub recv_timeout : ℤ
  pub send_timeout : ℤ
  pub pubsub : Option S

module _ {S : Type 0} where
  abbrev pub set_keepalive_interval : ℤ → Setting (Config S)
  set_keepalive_interval d c = applied (record c { keepalive_interval = d })

  abbrev pub set_receive_timeout : ℤ → Setting (Config S)
  set_receive_timeout d c = applied (record c { recv_timeout = d })

  abbrev pub set_send_timeout : ℤ → Setting (Config S)
  set_send_timeout d c = applied (record c { send_timeout = d })

  -- validatePubSub and validateParodusServiceURL
  abbrev pub lacks_pubsub : Config S → Bool
  lacks_pubsub c = elim c.pubsub [ none ↦ true | some s ↦ false ]

  abbrev pub lacks_service_url : Config S → Bool
  lacks_service_url c = is_empty c.parodus_service_url

  abbrev pub start : Text → Option S → Config S
  start url pubsub = record {
    parodus_service_url = url;
    keepalive_interval = pos 0;
    recv_timeout = pos 0;
    send_timeout = pos 0;
    pubsub = pubsub;
  }

  unfoldable pub new : Text → Option S → List (Option (Setting (Config S))) → Applied (Config S)
  new url pubsub opts =
      apply_all
        (opts ++ reject_each (sentinel invalid_input) (lacks_pubsub ∷ lacks_service_url ∷ []))
        (start url pubsub)
