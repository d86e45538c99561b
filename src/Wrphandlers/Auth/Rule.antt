-- ===== src/Wrphandlers/Auth/Rule.antt =====
-- Who passes the auth handler, and what becomes of the others.
use xmidt_agent.Base.{
  ◌≡◌, ◌≢◌, ◌↔◌, ◌⊎◌, inl, inr, refl, sym, Bool, true, false, none, List, [], ◌∷◌, Text, eq_text,
  eq_text_iff, eq_text→eq, is_empty, trim_space, if◌then◌else◌, In, All, arith, Bool-cases,
}
use xmidt_agent.Wrp.{Message, MessageType, Handler}
use xmidt_agent.Wrphandlers.Auth.{
  Auth, wildcard, matches, is_authorized, handle_wrp, refusal, trimmed_partners, new, built,
}

-- One of the allowed partners is the wildcard or, up to white space, one of the message's partners.
-- A message without partners is not allowed, even by the wildcard.
abbrev pub Allows : List Text → List Text → Type 0
Allows partners gots =
    (allowed : Text) × (got : Text) × In allowed partners
    × In got gots
    × ((allowed ≡ trim_space got) ⊎ (allowed ≡ wildcard))

matches→In :
    (allowed : Text) (gots : List Text)
    → matches allowed gots ≡ true
    → (got : Text) × In got gots × ((allowed ≡ trim_space got) ⊎ (allowed ≡ wildcard))
unfolding matches
matches→In allowed [] h = cc
matches→In allowed (got ∷ gots) h = elim (Bool-cases (eq_text allowed (trim_space got))) [
  | inl e ↦ (got, inl refl, inl (eq_text→eq _ _ e))
  | inr n ↦ elim (Bool-cases (eq_text allowed wildcard)) [
    | inl e ↦ (got, inl refl, inr (eq_text→eq _ _ e))
    | inr m ↦ let (g, at, ok) = matches→In allowed gots (ground arith) in (g, inr at, ok)
  ]
]

In→matches :
    (allowed got : Text) (gots : List Text)
    → In got gots
    → (allowed ≡ trim_space got) ⊎ (allowed ≡ wildcard)
    → matches allowed gots ≡ true
unfolding matches
In→matches allowed got [] at ok = absurd at
In→matches allowed got (g ∷ gots) (inr at) ok =
    let ih = In→matches allowed got gots at ok in ground (arith, ih)
In→matches allowed got (g ∷ gots) (inl e) (inl ok) =
    rw ((eq_text_iff allowed (trim_space g)).1 (rw (sym e) ok))
In→matches allowed got (g ∷ gots) (inl e) (inr ok) = ground (arith, eq_text_iff allowed wildcard)

is_authorized→Allows :
    (partners gots : List Text) → is_authorized partners gots ≡ true → Allows partners gots
unfolding is_authorized
is_authorized→Allows [] gots h = cc
is_authorized→Allows (p ∷ ps) gots h = elim (Bool-cases (matches p gots)) [
  | inl e ↦ let (g, at, ok) = matches→In p gots e in (p, g, inl refl, at, ok)
  | inr n ↦
      let (a, g, at, in_gots, ok) = is_authorized→Allows ps gots (ground arith) in
      (a, g, inr at, in_gots, ok)
]

In→is_authorized :
    (a got : Text) (partners gots : List Text)
    → In a partners
    → In got gots
    → (a ≡ trim_space got) ⊎ (a ≡ wildcard)
    → is_authorized partners gots ≡ true
unfolding is_authorized
In→is_authorized a got [] gots at in_gots ok = absurd at
In→is_authorized a got (p ∷ ps) gots (inl e) in_gots ok =
    rw (In→matches p got gots in_gots (rw (sym e) ok))
In→is_authorized a got (p ∷ ps) gots (inr at) in_gots ok =
    let ih = In→is_authorized a got ps gots at in_gots ok in ground (arith, ih)

-- The two loops of HandleWrp decide the rule.
pub is_authorized_iff :
    (partners gots : List Text) → (is_authorized partners gots ≡ true) ↔ Allows partners gots
is_authorized_iff partners gots = (
  is_authorized→Allows partners gots,
  λ (a, g, at, in_gots, ok). In→is_authorized a g partners gots at in_gots ok,
)

-- An allowed message is handed to the next handler as it is. Any other never reaches it: whatever
-- the next handler would do, the result is an error, and the egress gets one refusal if the message
-- requires a transaction and nothing otherwise.
pub handle_wrp_correct :
    {W : Type 0} (requires_transaction : MessageType → Bool) (h : Auth) (next egress : Handler W)
    (msg : Message) (w : W)
    → (Allows h.partners msg.partner_ids
        × (handle_wrp requires_transaction h next egress msg w ≡ next msg w))
      ⊎ ((¬ Allows h.partners msg.partner_ids)
          × ((handle_wrp requires_transaction h next egress msg w).0 ≢ none)
          × ((handle_wrp requires_transaction h next egress msg w).1
              ≡ (if requires_transaction msg.msg_type then (egress (refusal h msg) w).1 else w)))
unfolding handle_wrp
handle_wrp_correct requires_transaction h next egress msg w =
    let rule = is_authorized_iff h.partners msg.partner_ids in
    elim (Bool-cases (is_authorized h.partners msg.partner_ids)) [
      | inl allowed ↦ inl (rule.0 allowed, rw allowed)
      | inr denied ↦ rw denied (inr ((λ ok. ground (arith, rule.1 ok)), ground arith, ground arith))
    ]

-- What New keeps of the partners: trimmed, and none of them empty.
trimmed_partners-All : (ps : List Text) → All (λ p. is_empty p ≡ false) (trimmed_partners ps)
unfolding trimmed_partners
trimmed_partners-All [] = tt
trimmed_partners-All (p ∷ ps) = elim (Bool-cases (is_empty (trim_space p))) [
  | inl e ↦ rw e (trimmed_partners-All ps)
  | inr n ↦ rw n (n, trimmed_partners-All ps)
]

-- A handler that New builds has a source and at least one partner, and no partner is empty, so that
-- an empty partner id of a message never matches.
pub auth_new_sound :
    (next_is_nil egress_is_nil : Bool) (source : Text) (ps : List Text) (h : Auth)
    → new next_is_nil egress_is_nil source ps ≡ built h
    → (h.source ≢ []) × (h.partners ≢ []) × All (λ p. is_empty p ≡ false) h.partners
unfolding new
auth_new_sound a b source ps h e =
    let kept : h.partners ≡ trimmed_partners ps = ground arith in
    (ground arith, ground arith, rw kept (trimmed_partners-All ps))
