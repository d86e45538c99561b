-- ===== src/Jwtxt/Settings/Sound.antt =====
-- What New guarantees of the instructions that it builds.
use xmidt_agent.Base.{
  ◌≡◌, ◌↔◌, refl, sym, ap, ◌∙◌, inl, inr, Bool, true, false, Option, some, List, [], ◌∷◌, ◌++◌,
  codes, Text, is_empty, arith, Bool-cases,
}
use xmidt_agent.Base.Dict.{Dict}
use xmidt_agent.Wrp.{sentinel, invalid_input}
use xmidt_agent.Setup.{
  Applied, applied, rejected, panicked, Setting, then_apply, apply_all, apply_all-append,
  reject_each, some_holds, checked, applied-inj,
}
use xmidt_agent.Jwtxt.Settings.{
  Config, is_none, or_nil, shares, some_unsupported, add_keys, lacks_algs, validators, make_set,
  name_domain, defaults, new,
}

-- Every one of the keys has an algorithm that is in the set.
abbrev pub AllSupported : {Y : Type 0} → (Y → Option (List Text)) → List Y → Dict Bool → Type 0
AllSupported algorithms_for [] algs = true ≡ true
AllSupported algorithms_for (key ∷ keys) algs =
    (shares (or_nil (algorithms_for key)) algs ≡ true) × AllSupported algorithms_for keys algs

pub record IsUsable {Y J V K L : Type 0} (algorithms_for : Y → Option (List Text))
    (c : Config Y J V K L) : Type 0 where
  pub algorithms : is_none c.algorithms ≡ false
  pub public_keys : is_none c.public_keys ≡ false
  pub supported : AllSupported algorithms_for c.public_keys c.algorithms
  pub base_url : is_empty c.base_url ≡ false
  pub id : is_empty c.id ≡ false

some_unsupported-AllSupported :
    {Y : Type 0} (algorithms_for : Y → Option (List Text)) (keys : List Y) (algs : Dict Bool)
    → (some_unsupported algorithms_for keys algs ≡ false) ↔ AllSupported algorithms_for keys algs
unfolding some_unsupported
some_unsupported-AllSupported algorithms_for [] algs = (λ _. refl, λ _. refl)
some_unsupported-AllSupported algorithms_for (key ∷ keys) algs =
    let (there, back) = some_unsupported-AllSupported algorithms_for keys algs in
    elim (Bool-cases (shares (or_nil (algorithms_for key)) algs)) [
      | inl p ↦ rw p (λ h. (refl, there h), λ (_, h). back h)
      | inr p ↦ rw p (λ h. ground (arith, h), λ (h, _). ground (arith, h))
    ]

module _ {Y J V K L : Type 0} (algorithms_for : Y → Option (List Text)) where
  validators-IsUsable :
      (c : Config Y J V K L)
      → (some_holds (validators algorithms_for) c ≡ false) ↔ IsUsable algorithms_for c
  unfolding lacks_algs
  validators-IsUsable c =
      let (there, back) = some_unsupported-AllSupported algorithms_for c.public_keys c.algorithms in
      (
        λ h. record {
          algorithms = ground (arith, h);
          public_keys = ground (arith, h);
          supported = there (ground (arith, h));
          base_url = ground (arith, h);
          id = ground (arith, h);
        },
        λ g. ground (arith, g.algorithms, g.public_keys, back g.supported, g.base_url, g.id),
      )

  -- What New adds to a configuration that it has checked.
  abbrev pub finished : J → (Y → J → J) → Config Y J V K L → Config Y J V K L
  finished new_set add_key c = record c {
    set = some (add_keys add_key c.public_keys new_set);
    fqdn = c.id ++ codes "." ++ c.base_url;
  }

  after_checks :
      (new_set : J) (add_key : Y → J → J) (c : Config Y J V K L) (r : Applied (Config Y J V K L))
      → (then_apply (then_apply r (apply_all (some (make_set new_set add_key) ∷ []))) name_domain
          ≡ applied c)
        ↔ (c' : Config Y J V K L) × (r ≡ applied c') × (c ≡ finished new_set add_key c')
  unfolding apply_all
  after_checks new_set add_key c (applied c') = (
    λ h. (c', refl, sym (applied-inj _ c h)),
    λ (b, p, q).
        ap (λ b. applied (finished new_set add_key b)) (applied-inj c' b p) ∙ ap applied (sym q),
  )
  after_checks new_set add_key c (rejected e) =
      (λ h. ground (arith, h), λ (b, p, q). ground (arith, p))
  after_checks new_set add_key c panicked = (λ h. ground (arith, h), λ (b, p, q). ground (arith, p))

  -- Whatever the options, New builds instructions exactly if every option is applied without an error
  -- and what they make of the defaults has an algorithm, a key, an algorithm in the set for every
  -- key, a base URL and an ID; and New builds it with the set of the keys and the domain name, which
  -- is the ID, a dot and the base URL.
  pub new-IsUsable :
      (new_set : J) (add_key : Y → J → J) (time_now : K) (resolver : V)
      (opts : List (Option (Setting (Config Y J V K L)))) (c : Config Y J V K L)
      → (new algorithms_for new_set add_key time_now resolver opts ≡ applied c)
        ↔ (c' : Config Y J V K L) × (apply_all opts (defaults time_now resolver) ≡ applied c')
          × IsUsable algorithms_for c'
          × (c ≡ finished new_set add_key c')
  unfolding new
  new-IsUsable new_set add_key time_now resolver opts c =
      let start = defaults time_now resolver in
      let tests = validators algorithms_for in
      let full = opts ++ reject_each (sentinel invalid_input) tests in
      let last = some (make_set new_set add_key) ∷ [] in
      let split = ap (λ r. then_apply r name_domain) (apply_all-append full last start) in
      let (there, back) = after_checks new_set add_key c (apply_all full start) in
      (
        λ h.
            let (c', p, q) = there (sym split ∙ h) in
            let (ok, fine) = (checked (sentinel invalid_input) tests opts start c').0 p in
            (c', ok, (validators-IsUsable c').0 fine, q),
        λ (c', p, usable, q).
            split
            ∙ back (
              c',
              (checked (sentinel invalid_input) tests opts start c').1
                  (p, (validators-IsUsable c').1 usable),
              q,
            ),
      )
