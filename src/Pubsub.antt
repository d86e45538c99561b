-- ===== src/Pubsub.antt =====
-- internal/pubsub/pubsub.go and options.go: which handlers a message is given to, and what HandleWrp
-- returns of their answers.
-- Parameters stand for the code of other packages: `Eventor` with `fresh`, `add`, `remove` and `visit`
-- for the package eventor, and `required`, `desired` and `parse_locator` for the normifiers and
-- ParseLocator of wrp-go. `required` takes the device id for which the normifier is made.
pub mod Routes
pub mod Answers
use xmidt_agent.Base.{
  ℕ, zero, suc, ◌-◌, Bool, true, false, ◌||◌, not, ◌&&◌, Option, some, none, List, [], ◌∷◌, ◌++◌,
  Text, codes, eq_text, is_empty, contains_byte, ◌==◌, if◌then◌else◌,
}
use xmidt_agent.Base.Int.{ℤ, pos, negsuc}
use xmidt_agent.Base.Dict.{Dict}
use xmidt_agent.Base.Dict
use xmidt_agent.Wrp.{
  Message, Error, sentinel, join, is_not_handled, not_handled, invalid_input, publish_timeout,
}

-- The fields of wrp.Locator that the code reads.
pub record Locator : Type 0 where
  pub scheme : Text
  pub authority : Text
  pub service : Text
  pub device : Text

pub data Result (A : Type 0) : Type 0 where
  ok : A → Result A
  failed : Error → Result A

unfoldable pub service_route : Text → Text
service_route service = codes "service:" ++ service

unfoldable pub egress_route : Text
egress_route = codes "egress:*"

unfoldable pub event_route : Text → Text
event_route event = codes "event:" ++ event

-- validateString
unfoldable pub validate_string : Text → Option Error
validate_string s =
    if is_empty s || contains_byte b'/' s then some (sentinel invalid_input) else none

-- the switch of HandleWrp
unfoldable pub routes_of : Text → Locator → List Text
routes_of self dest =
    if eq_text dest.device self
    then service_route dest.service ∷ service_route (codes "*") ∷ []
    else if eq_text dest.scheme (codes "event")
    then event_route dest.authority ∷ event_route (codes "*") ∷ egress_route ∷ []
    else egress_route ∷ []

-- `N` is wrp.NormifierOption.
pub record PubSub (Eventor N : Type 0) : Type 0 where
  pub self : Text
  pub desired_opts : List N
  pub routes : Dict Eventor
  pub publish_timeout : ℕ

unfoldable pub eventor_at : {Eventor : Type 0} → Eventor → Text → Dict Eventor → Eventor
eventor_at fresh route routes = elim (Dict.lookup route routes) [ none ↦ fresh | some e ↦ e ]

-- the handlers that the loop over the routes starts, in its order
unfoldable pub targets :
    {Handler Eventor : Type 0} → (Eventor → List Handler) → Dict Eventor → List Text → List Handler
targets visit routes [] = []
targets visit routes (route ∷ rest) =
    let later = targets visit routes rest in
    elim (Dict.lookup route routes) [ none ↦ later | some e ↦ visit e ++ later ]

-- options.go; the cancel parameter gets the key.
pub data Setting (Handler N : Type 0) : Type 0 where
  normify : List N → Setting Handler N
  with_egress_handler : Option Handler → Setting Handler N
  with_service_handler : Text → Option Handler → Setting Handler N
  with_event_handler : Text → Option Handler → Setting Handler N
  with_publish_timeout : ℤ → Setting Handler N

abbrev error_of : {A S : Type 0} → Result A × S → Option Error × S
error_of (ok _, s) = (none, s)
error_of (failed e, s) = (some e, s)

module _ {Handler Eventor Key N : Type 0} (fresh : Eventor)
    (add : Handler → Eventor → Key × Eventor) (remove : Key → Eventor → Eventor)
    (visit : Eventor → List Handler) where
  -- subscribe; a nil handler is `none`, and the CancelFunc is given by its route and key.
  unfoldable pub subscribe :
      Text → Option Handler → PubSub Eventor N → Result (Text × Key) × PubSub Eventor N
  subscribe route none ps = (failed (sentinel invalid_input), ps)
  subscribe route (some h) ps =
      let (key, e) = add h (eventor_at fresh route ps.routes) in
      (ok (route, key), record ps { routes = Dict.insert route e ps.routes })

  -- what a call of the CancelFunc does
  unfoldable pub cancel : Text × Key → PubSub Eventor N → PubSub Eventor N
  cancel (route, key) ps = record ps {
    routes = Dict.insert route (remove key (eventor_at fresh route ps.routes)) ps.routes;
  }

  unfoldable pub subscribe_egress :
      Option Handler → PubSub Eventor N → Result (Text × Key) × PubSub Eventor N
  subscribe_egress h ps = subscribe egress_route h ps

  unfoldable pub subscribe_service :
      Text → Option Handler → PubSub Eventor N → Result (Text × Key) × PubSub Eventor N
  subscribe_service service h ps = elim (validate_string service) [
    | some e ↦ (failed e, ps)
    | none ↦ subscribe (service_route service) h ps
  ]

  unfoldable pub subscribe_event :
      Text → Option Handler → PubSub Eventor N → Result (Text × Key) × PubSub Eventor N
  subscribe_event event h ps = elim (validate_string event) [
    | some e ↦ (failed e, ps)
    | none ↦ subscribe (event_route event) h ps
  ]

  module _ (required : Text → Message → Option Error × Message)
      (desired : List N → Message → Option Error × Message) (parse_locator : Text → Locator) where
    unfoldable pub normalize : PubSub Eventor N → Message → Result (Message × Locator)
    normalize ps msg =
        let (err, msg') = required ps.self msg in
        let (err', msg'') = desired ps.desired_opts msg' in
        elim err [
          | some e ↦ failed e
          | none ↦
              if eq_text (parse_locator msg'.source).device ps.self
              then (elim err' [
                | some e ↦ failed e
                | none ↦ ok (msg'', parse_locator msg'.destination)
              ])
              else ok (msg', parse_locator msg'.destination)
        ]

    -- HandleWrp up to the select: an error, or the message and the handlers that it is given to.
    unfoldable pub publish : PubSub Eventor N → Message → Result (Message × List Handler)
    publish ps msg = elim (normalize ps msg) [
      | failed e ↦ failed (Error.joined e (sentinel not_handled))
      | ok (normalized, dest) ↦ ok (normalized, targets visit ps.routes (routes_of ps.self dest))
    ]

  unfoldable pub apply : Setting Handler N → PubSub Eventor N → Option Error × PubSub Eventor N
  apply (normify opts) ps = (none, record ps { desired_opts = ps.desired_opts ++ opts })
  apply (with_egress_handler h) ps = error_of (subscribe_egress h ps)
  apply (with_service_handler service h) ps = error_of (subscribe_service service h ps)
  apply (with_event_handler event h) ps = error_of (subscribe_event event h ps)
  apply (with_publish_timeout (negsuc n)) ps = (some (sentinel invalid_input), ps)
  apply (with_publish_timeout (pos n)) ps = (none, record ps { publish_timeout = n })

  unfoldable pub apply_all :
      List (Option (Setting Handler N)) → PubSub Eventor N → Result (PubSub Eventor N)
  apply_all [] ps = ok ps
  apply_all (none ∷ opts) ps = apply_all opts ps
  apply_all (some opt ∷ opts) ps =
      let (err, ps') = apply opt ps in
      let rest = apply_all opts ps' in elim err [ some e ↦ failed e | none ↦ rest ]

  -- New
  unfoldable pub new : Text → List (Option (Setting Handler N)) → Result (PubSub Eventor N)
  new self opts =
      if is_empty self
      then failed (sentinel invalid_input)
      else apply_all opts
          (record { self = self; desired_opts = []; routes = []; publish_timeout = 0 })

-- The goroutines of HandleWrp, until its select ends: how many have not called wg.Done, and
-- whether the channel `handled`, which has room for one, is full.
pub record Wait : Type 0 where
  pub unfinished : ℕ
  pub full : Bool

-- What a handler's goroutine does with the answer: it ends, or waits to send and never ends.
unfoldable pub finish : Option Error → Wait → Wait
finish (some e) w =
    if is_not_handled e
    then record w { unfinished = w.unfinished - 1 }
    else if w.full
    then w
    else record { unfinished = w.unfinished - 1; full = true }
finish none w = if w.full then w else record { unfinished = w.unfinished - 1; full = true }

unfoldable pub finish_all : List (Option Error) → Wait → Wait
finish_all [] w = w
finish_all (answer ∷ answers) w = finish_all answers (finish answer w)

-- The cases of the select, and whether each may be chosen.
pub data Choice : Type 0 where
  handled done timed_out : Choice

unfoldable pub is_ready : Wait → Choice → Bool
is_ready w handled = w.full
is_ready w done = w.unfinished == 0
is_ready w timed_out = true

unfoldable pub outcome : Choice → Option Error
outcome handled = none
outcome done = some (sentinel not_handled)
outcome timed_out = some (sentinel publish_timeout)
