-- ===== src/Qos/Options/Laws.antt =====
-- What New guarantees of a handler that it builds.
use xmidt_agent.Base.{
  ◌≤◌, ◌≡◌, ◌≢◌, ◌⊎◌, refl, sym, ap, ◌∙◌, subst, Bool, true, false, Option, none, some, List, [],
  ◌∷◌, ◌++◌, arith,
}
use xmidt_agent.Wrp.{Error, join}
use xmidt_agent.Qos.Priority.{oldest_type, newest_type}
use xmidt_agent.Qos.Options.{
  Config, Setting, apply_all, validators, validate_queue_constraints, validate_priority,
  validate_tie_breaker, new, built, failed, defaults,
}

apply_all-append :
    (xs ys : List Setting) (e : Option Error) (h : Config)
    → apply_all (xs ++ ys) e h ≡ (let (e', h') = apply_all xs e h in apply_all ys e' h')
unfolding apply_all
apply_all-append [] ys e h = refl
apply_all-append (x ∷ xs) ys e h = apply_all-append xs ys (join e (x h).0) (x h).1

built_by :
    (e : Option Error) (c h : Config)
    → (elim e [ none ↦ built c | some f ↦ failed f ]) ≡ built h
    → (e ≡ none) × (c ≡ h)
built_by none c h p = (refl, cc)
built_by (some f) c h p = cc

-- A configuration that passes the three validators.
pub record IsSound (h : Config) : Type 0 where
  pub message_fits : h.max_message_bytes ≤ h.max_queue_bytes
  pub kind : (h.priority ≡ newest_type) ⊎ (h.priority ≡ oldest_type)
  pub breaks_ties : h.tie_breaker ≢ none

-- Each validator leaves the configuration, and returns no error only where it is sound.
validate_queue_constraints_lem :
    (h : Config)
    → ((validate_queue_constraints h).1 ≡ h)
      × ((validate_queue_constraints h).0 ≡ none → h.max_message_bytes ≤ h.max_queue_bytes)
unfolding validate_queue_constraints
validate_queue_constraints_lem h = (ground arith, ground arith)

validate_priority_lem :
    (h : Config)
    → ((validate_priority h).1 ≡ h)
      × ((validate_priority h).0 ≡ none → (h.priority ≡ newest_type) ⊎ (h.priority ≡ oldest_type))
unfolding validate_priority
validate_priority_lem h = (ground arith, ground arith)

validate_tie_breaker_lem :
    (h : Config)
    → ((validate_tie_breaker h).1 ≡ h) × ((validate_tie_breaker h).0 ≡ none → h.tie_breaker ≢ none)
unfolding validate_tie_breaker
validate_tie_breaker_lem h = (ground arith, λ p q. ground arith)

join-none : (e f : Option Error) → join e f ≡ none → (e ≡ none) × (f ≡ none)
join-none none f p = (refl, p)
join-none (some e) none p = (p, refl)
join-none (some e) (some f) p = cc

validators-IsSound :
    (e : Option Error) (h h' : Config) → apply_all validators e h ≡ (none, h') → IsSound h'
unfolding apply_all
validators-IsSound e h h' p =
    let q = validate_queue_constraints_lem h in
    let r = validate_priority_lem (validate_queue_constraints h).1 in
    let s = validate_tie_breaker_lem (validate_priority (validate_queue_constraints h).1).1 in
    let err = ap (λ (x : Option Error × Config). x.0) p in
    let (first, third) = join-none _ _ err in
    let (early, second) = join-none _ _ first in
    let (_, one) = join-none _ _ early in
    let same = ap (λ (x : Option Error × Config). x.1) p in
    let c1 = q.0 in
    let c2 = r.0 ∙ c1 in
    let c3 = s.0 ∙ c2 in
    let end : h ≡ h' = sym c3 ∙ same in
    subst IsSound end (record {
      message_fits = q.1 one;
      kind = subst (λ c. (c.priority ≡ newest_type) ⊎ (c.priority ≡ oldest_type)) c1 (r.1 second);
      breaks_ties = subst (λ c. c.tie_breaker ≢ none) c2 (s.1 third);
    })

-- Whatever the options, a handler that New builds allows no message larger than its queue, has one
-- of the two kinds of priority and a tie breaker, and its next handler is not nil.
pub new-IsSound :
    (next_is_nil : Bool) (opts : List Setting) (h : Config)
    → new next_is_nil opts ≡ built h
    → (next_is_nil ≡ false) × IsSound h
unfolding new
new-IsSound true opts h p = cc
new-IsSound false opts h p =
    let r = apply_all (opts ++ validators) none defaults in
    let s = apply_all opts none defaults in
    let known : (r.0 ≡ none) × (r.1 ≡ h) = built_by r.0 r.1 h p in
    (
      refl,
      validators-IsSound s.0 s.1 h
          (sym (apply_all-append opts validators none defaults) ∙ (λ i. (known.0 i, known.1 i))),
    )
