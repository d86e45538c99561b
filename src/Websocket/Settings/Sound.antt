-- ===== src/Websocket/Settings/Sound.antt =====
-- What New guarantees of the websocket that it builds, and where an option panics.
use xmidt_agent.Base.{
  ◌≡◌, ◌↔◌, refl, inl, inr, Bool, true, false, ◌||◌, Option, some, none, List, [], ◌∷◌, Text,
  is_empty, arith, if◌then◌else◌, Option-cases, Bool-cases, ap, sym, ◌∙◌, ◌≢◌,
}
use xmidt_agent.Base.Dict.{Dict}
use xmidt_agent.Setup.{applied, panicked, Setting, then_apply, apply_all, some_holds, checked}
use xmidt_agent.Websocket.Options.{
  Config, is_nil, misconfigured, add_header, add_values, additional_headers,
}
use xmidt_agent.Websocket.Settings.{validators, defaults, new}

-- What run needs.
pub record IsReady {U D G K Q L : Type 0} (c : Config U D G K Q L) : Type 0 where
  pub id : is_empty c.id ≡ false
  pub url_fetcher : is_nil c.url_fetcher ≡ false
  pub ip_mode : (c.with_ipv4 || c.with_ipv6) ≡ true
  pub cred_decorator : is_nil c.cred_decorator ≡ false
  pub convey_decorator : is_nil c.convey_decorator ≡ false
  pub now_func : is_nil c.now_func ≡ false
  pub retry_policy : is_nil c.retry_policy_factory ≡ false

-- Whether a key has a value.
abbrev pub has_value : Dict (List Text) → Bool
has_value [] = false
has_value ((k, []) ∷ headers) = has_value headers
has_value ((k, v ∷ vs) ∷ headers) = true

applied-panicked : {A : Type 0} (c : A) → applied c ≢ panicked
applied-panicked c p = cc

module _ {U D G K Q L : Type 0} where
  validators-IsReady : (c : Config U D G K Q L) → (some_holds validators c ≡ false) ↔ IsReady c
  validators-IsReady c = (
    λ h. record {
      id = ground (arith, h);
      url_fetcher = ground (arith, h);
      ip_mode = ground (arith, h);
      cred_decorator = ground (arith, h);
      convey_decorator = ground (arith, h);
      now_func = ground (arith, h);
      retry_policy = ground (arith, h);
    },
    λ g. ground (
      arith, g.id, g.url_fetcher, g.ip_mode, g.cred_decorator, g.convey_decorator, g.now_func,
      g.retry_policy,
    ),
  )

  -- Whatever the options, New builds a websocket exactly if every option is applied without an error
  -- and what they make of the defaults has all that run needs, an allowed IP mode among it; and it is
  -- this that New builds.
  pub new-IsReady :
      (empty_decorator : D) (default_config : G)
      (opts : List (Option (Setting (Config U D G K Q L)))) (c : Config U D G K Q L)
      → (new empty_decorator default_config opts ≡ applied c)
        ↔ (apply_all opts (defaults empty_decorator default_config) ≡ applied c) × IsReady c
  unfolding new
  new-IsReady empty_decorator default_config opts c =
      let (there, back) =
        checked misconfigured validators opts (defaults empty_decorator default_config) c in
      (
        λ h. ((there h).0, (validators-IsReady c).0 (there h).1),
        λ (p, g). back (p, (validators-IsReady c).1 g),
      )

  add_values-there :
      (canonical : Text → Text) (k : Text) (vs : List Text) (c : Config U D G K Q L)
      → is_nil c.additional_headers ≡ false
      → (c' : Config U D G K Q L) × (add_values canonical k vs c ≡ applied c')
        × (is_nil c'.additional_headers ≡ false)
  unfolding add_values
  add_values-there canonical k [] c h = (c, refl, h)
  add_values-there canonical k (v ∷ vs) c h = elim (Option-cases c.additional_headers) [
    | inl p ↦ ground (arith, h, p)
    | inr (g, p) ↦
        let (c', q, there) =
          add_values-there canonical k vs
            (record c { additional_headers = add_header canonical k v (some g) }) refl in
        (c', rw (add_values, p) q, there)
  ]

  additional_headers-there :
      (canonical : Text → Text) (headers : Dict (List Text)) (c : Config U D G K Q L)
      → is_nil c.additional_headers ≡ false
      → (c' : Config U D G K Q L) × (additional_headers canonical headers c ≡ applied c')
  unfolding additional_headers
  additional_headers-there canonical [] c h = (c, refl)
  additional_headers-there canonical ((k, vs) ∷ headers) c h =
      let (c', p, there) = add_values-there canonical k vs c h in
      let (c'', q) = additional_headers-there canonical headers c' there in
      (c'', ap (λ r. then_apply r (additional_headers canonical headers)) p ∙ q)

  additional_headers-missing :
      (canonical : Text → Text) (headers : Dict (List Text)) (c : Config U D G K Q L)
      → c.additional_headers ≡ none
      → additional_headers canonical headers c ≡ (if has_value headers then panicked else applied c)
  unfolding additional_headers add_values
  additional_headers-missing canonical [] c h = refl
  additional_headers-missing canonical ((k, []) ∷ headers) c h =
      additional_headers-missing canonical headers c h
  additional_headers-missing canonical ((k, v ∷ vs) ∷ headers) c h = rw (add_values, h) refl

  -- AdditionalHeaders panics exactly if there is no map of headers yet, which DeviceID makes, and one
  -- of its headers has a value.
  pub additional_headers-panicked :
      (canonical : Text → Text) (headers : Dict (List Text)) (c : Config U D G K Q L)
      → (additional_headers canonical headers c ≡ panicked)
        ↔ (c.additional_headers ≡ none) × (has_value headers ≡ true)
  additional_headers-panicked canonical headers c = elim (Option-cases c.additional_headers) [
    | inr (g, p) ↦
        let (c', q) = additional_headers-there canonical headers c (rw p refl) in
        (λ h. absurd (applied-panicked c' (sym q ∙ h)), λ (h, v). ground (arith, h, p))
    | inl p ↦ elim (Bool-cases (has_value headers)) [
      | inl v ↦ (λ h. (p, v), λ _. additional_headers-missing canonical headers c p ∙ rw v refl)
      | inr v ↦ (
        λ h. absurd (
            applied-panicked c
              (sym (additional_headers-missing canonical headers c p ∙ rw v refl) ∙ h)),
        λ (_, w). ground (arith, v, w),
      )
    ]
  ]
