-- ===== src/Wrphandlers/Auth.antt =====
-- internal/wrphandlers/auth/handler.go: messages of partners that are not allowed are turned back.
-- `requires_transaction` is the method MessageType.RequiresTransaction of wrp-go.
pub mod Rule
use xmidt_agent.Base.{
  ℕ, Bool, true, false, ◌||◌, not, ◌&&◌, Option, some, none, List, [], ◌∷◌, ◌++◌, Text, codes,
  eq_text, is_empty, trim_space, if◌then◌else◌, length,
}
use xmidt_agent.Wrp.{
  Message, MessageType, Handler, Error, sentinel, join, unauthorized, invalid_input,
}

abbrev pub status_code : ℕ
status_code = 403

abbrev pub wildcard : Text
wildcard = codes "*"

-- The settings; the next handler and the egress are arguments of `handle_wrp`.
pub record Auth : Type 0 where
  pub source : Text
  pub partners : List Text

-- the loop of New over the partners
unfoldable pub trimmed_partners : List Text → List Text
trimmed_partners [] = []
trimmed_partners (p ∷ ps) =
    let rest = trimmed_partners ps in if is_empty (trim_space p) then rest else trim_space p ∷ rest

pub data Built : Type 0 where
  built : Auth → Built
  failed : Error → Built

abbrev is_nil : List Text → Bool
is_nil [] = true
is_nil (_ ∷ _) = false

-- New, given whether the next handler and the egress are nil
unfoldable pub new : Bool → Bool → Text → List Text → Built
new next_is_nil egress_is_nil source partners =
    let allowed = trimmed_partners partners in
    if next_is_nil || egress_is_nil || is_empty source || is_nil allowed
    then failed (sentinel invalid_input)
    else built (record { source = source; partners = allowed })

-- the inner loop: whether one of the message's partners is the allowed one
unfoldable pub matches : Text → List Text → Bool
matches allowed [] = false
matches allowed (got ∷ gots) =
    eq_text allowed (trim_space got) || eq_text allowed wildcard || matches allowed gots

-- the outer loop
unfoldable pub is_authorized : List Text → List Text → Bool
is_authorized [] gots = false
is_authorized (allowed ∷ partners) gots = matches allowed gots || is_authorized partners gots

-- strings.Join
unfoldable pub join_text : Text → List Text → Text
join_text sep [] = []
join_text sep (s ∷ []) = s
join_text sep (s ∷ t ∷ ts) = s ++ sep ++ join_text sep (t ∷ ts)

unfoldable pub refusal : Auth → Message → Message
refusal h msg = record msg {
  destination = msg.source;
  source = h.source;
  content_type = codes "application/json";
  status = some status_code;
  payload =
      codes "{statusCode: 403, message:\"Partner(s) '"
      ++ join_text (codes "','") msg.partner_ids
      ++ codes "' not allowed.  Allowed: '"
      ++ join_text (codes "','") h.partners
      ++ codes "'\"}";
}

-- HandleWrp
unfoldable pub handle_wrp :
    {W : Type 0} → (MessageType → Bool) → Auth → Handler W → Handler W → Handler W
handle_wrp requires_transaction h next egress msg w =
    if is_authorized h.partners msg.partner_ids
    then next msg w
    else if not (requires_transaction msg.msg_type)
    then (some (sentinel unauthorized), w)
    else (let (sent, w') = egress (refusal h msg) w in
        (join (some (sentinel unauthorized)) sent, w'))
