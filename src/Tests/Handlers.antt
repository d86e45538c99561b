-- ===== src/Tests/Handlers.antt =====
-- The message handlers on small inputs.
use xmidt_agent.Base.{
  ℕ, ◌≡◌, ◌≢◌, ◌⊎◌, ◌↔◌, Bool, true, false, Option, some, none, List, [], ◌∷◌, Text, codes, eq_text,
  if◌then◌else◌, All, In, map,
}
use xmidt_agent.Base.Int.{pos}
use xmidt_agent.Wrp.{
  Message, MessageType, update, Error, blank, sentinel, invalid_input, not_handled, recorder,
}
use xmidt_agent.Loglevel.{LogLevelService, level, bad}
use xmidt_agent.Wrphandlers.Auth.{
  Auth, refusal, new, built, trimmed_partners, is_authorized, matches,
}
use xmidt_agent.Wrphandlers.Auth
use xmidt_agent.Wrphandlers.Auth.Rule.{Allows, handle_wrp_correct}
use xmidt_agent.Wrphandlers.Missing.{response}
use xmidt_agent.Wrphandlers.Ingress.{ingress}
use xmidt_agent.Wrphandlers.Ingress.Replies.{pubsub_of, egress_of, ingress-replies}
use xmidt_agent.Wrphandlers.Crud.{Environment, Decoded, decoded, undecodable}
use xmidt_agent.Wrphandlers.Crud
use xmidt_agent.Wrphandlers.Mocktr181.{
  MockParameter, Parameter, Tr181Payload, status_ok, status_accepted, status_failed, set_parameters,
  get, failure,
}
use xmidt_agent.Wrphandlers.Mocktr181.Handle.{Json, Unmarshalled, null_request, text}
use xmidt_agent.Wrphandlers.Mocktr181.Write.{updated_by}
use xmidt_agent.Wrphandlers.Mocktr181.Select.{CanSet, set_parameters_atomic}
use xmidt_agent.Wrphandlers.Mocktr181.Read.{CanGet, AnswersAny, get_atomic}

abbrev transactional : MessageType → Bool
transactional update = true
transactional _ = false

abbrev auth : Auth
auth = record { source = codes "mac:1"; partners = codes "comcast" ∷ [] }

abbrev request : Message
request = record blank {
  msg_type = update;
  source = codes "dns:scytale";
  partner_ids = codes " comcast" ∷ [];
  path = codes "loglevel";
}

abbrev unhandled : Message → Option Error
unhandled _ = some (sentinel not_handled)

abbrev accepts : Message → Option Error
accepts _ = none

abbrev authorized : List Message → Option Error × List Message
authorized = Auth.handle_wrp transactional auth (recorder unhandled) (recorder accepts) request

handle_wrp_correct_example :
    Allows auth.partners request.partner_ids × (authorized [] ≡ recorder unhandled request [])
    ⊎ (¬ Allows auth.partners request.partner_ids)
      × ((authorized []).0 ≢ none)
      × ((authorized []).1 ≡ refusal auth request ∷ [])
handle_wrp_correct_example =
    handle_wrp_correct transactional auth (recorder unhandled) (recorder accepts) request []

ingress-replies_example :
    (ingress transactional
      (λ _ w. w)
      0
      auth
      (codes "mac:1")
      (pubsub_of unhandled)
      (egress_of accepts)
      request
      ([], [])).1
    ≡ (request ∷ [], response (codes "mac:1") request ∷ [])
unfolding is_authorized matches
ingress-replies_example =
    ingress-replies transactional 0 auth (codes "mac:1") unhandled accepts request

abbrev environment : Environment Bool
environment = record {
  unmarshal_json = λ t. decoded ((codes "loglevel", t) ∷ (codes "duration", codes "1m") ∷ []);
  error_text = λ e. [];
  parse_duration = λ t. some 60;
  unmarshal_level =
      λ t. if eq_text t (codes "debug") then level true else bad (sentinel invalid_input);
}

abbrev log_levels : LogLevelService Bool
log_levels = record { current = false; orig_level = codes "info"; timers = [] }

abbrev to_debug : Message
to_debug = record request { payload = codes "debug" }

abbrev parameter : Text → Text → Text → MockParameter ℕ
parameter name value access = record {
  name = name;
  value = value;
  access = access;
  data_type = pos 0;
  attributes = [];
  delay = pos 0;
}

abbrev parameters : List (MockParameter ℕ)
parameters =
    parameter (codes "Device.Name") (codes "box") (codes "rw")
    ∷ parameter (codes "Device.Serial") (codes "17") (codes "r")
    ∷ []

abbrev payload : Tr181Payload ℕ
payload = record {
  command = codes "SET";
  names = codes "Device." ∷ codes "Device.Name" ∷ [];
  parameters =
      (record {
        name = codes "Device.Name";
        value = codes "den";
        data_type = pos 0;
        attributes = [];
        message = [];
        count = pos 0;
      })
      ∷ [];
  status_code = 0;
}

set_parameters_atomic_example :
    let (qs, result) = set_parameters parameters payload in
    ((All (λ r. CanSet parameters r.name) payload.parameters)
      × (result.status_code ≡ status_accepted)
      × (qs ≡ map (updated_by payload.parameters) parameters))
    ⊎ ((¬ All (λ r. CanSet parameters r.name) payload.parameters)
        × (result.status_code ≡ status_failed)
        × (qs ≡ parameters))
set_parameters_atomic_example = set_parameters_atomic parameters payload

get_atomic_example :
    ((All (λ name. CanGet name parameters) payload.names)
      × ((get parameters payload).status_code ≡ status_ok)
      × ((e : Parameter ℕ)
          → In e (get parameters payload).parameters ↔ AnswersAny parameters payload.names e))
    ⊎ ((¬ All (λ name. CanGet name parameters) payload.names)
        × ((get parameters payload).status_code ≡ status_failed)
        × ((message : Text) × ((get parameters payload).parameters ≡ failure [] message ∷ [])))
get_atomic_example = get_atomic parameters payload

abbrev json : Json ℕ
json = record {
  unmarshal = λ t. if eq_text t (codes "null") then null_request else Unmarshalled.request payload;
  marshal = λ r. text r.command;
}

abbrev to_null : Message
to_null = record request { payload = codes "null" }
