-- ===== src/Jwtxt/Settings/Added.antt =====
-- Which keys the options of the instructions add to those that are trusted.
use xmidt_agent.Base.{
  ◌≡◌, inl, inr, refl, sym, ap, ◌∙◌, Option, some, List, [], ◌∷◌, ◌++◌, Text, arith, Bool-cases,
  Option-cases, Each, Each-append, zero, suc,
}
use mathlib.Core.List.{append-nil, append_assoc}
use xmidt_agent.Base.Int.{ℤ, pos, negsuc}
use xmidt_agent.Setup.{
  Applied, applied, rejected, panicked, Setting, then_apply, apply_all, applied-inj,
}
use xmidt_agent.Jwtxt.Settings.{
  Config, base_url, device_id, algorithms, timeout, with_fetch_listener, with_pems, all_allowed,
}

then_inversion :
    {A : Type 0} (r : Applied A) (f : Setting A) (b : A)
    → then_apply r f ≡ applied b
    → (a : A) × (r ≡ applied a) × (f a ≡ applied b)
then_inversion (applied a) f b p = (a, refl, p)
then_inversion (rejected e) f b p = absurd (cc p)
then_inversion panicked f b p = absurd (cc p)

-- The text is that of the key.
abbrev pub IsParsed : {Y : Type 0} → (Text → Option Y) → Text → Y → Type 0
IsParsed parse_key pem key = parse_key pem ≡ some key

module _ {Y J V K L : Type 0} (algorithms_for : Y → Option (List Text))
    (parse_key : Text → Option Y) where
  -- An option, or options, that add the keys of these texts to those that are trusted.
  abbrev pub Adds : Setting (Config Y J V K L) → List Text → Type 0
  Adds f pems =
      (c d : Config Y J V K L)
      → f c ≡ applied d
      → (keys : List Y) × Each (IsParsed parse_key) pems keys
        × (d.public_keys ≡ c.public_keys ++ keys)

  pub Adds-none :
      (f : Setting (Config Y J V K L))
      → ((c d : Config Y J V K L) → f c ≡ applied d → d.public_keys ≡ c.public_keys)
      → Adds f []
  Adds-none f h c d p = ([], tt, h c d p ∙ sym (append-nil c.public_keys))

  pub Adds-then :
      (f g : Setting (Config Y J V K L)) (ps qs : List Text)
      → Adds f ps
      → Adds g qs
      → Adds (λ c. then_apply (f c) g) (ps ++ qs)
  Adds-then f g ps qs h k c d p =
      let (b, q, r) = then_inversion (f c) g d p in
      let (keys, parsed, more) = h c b q in
      let (keys', parsed', more') = k b d r in
      (
        keys ++ keys',
        Each-append (IsParsed parse_key) ps keys qs keys' parsed parsed',
        more' ∙ ap (λ l. l ++ keys') more ∙ append_assoc c.public_keys keys keys',
      )

  pub Adds-nil : Adds (apply_all []) []
  unfolding apply_all
  Adds-nil =
      Adds-none (apply_all [])
        (λ c d p. ap (λ (c : Config Y J V K L). c.public_keys) (sym (applied-inj c d p)))

  pub Adds-option :
      (f : Setting (Config Y J V K L)) (opts : List (Option (Setting (Config Y J V K L))))
      (ps qs : List Text)
      → Adds f ps
      → Adds (apply_all opts) qs
      → Adds (apply_all (some f ∷ opts)) (ps ++ qs)
  unfolding apply_all
  Adds-option f opts ps qs h k = Adds-then f (apply_all opts) ps qs h k

  pub with_pems-Adds : (pems : List Text) → Adds (with_pems algorithms_for parse_key pems) pems
  unfolding with_pems
  with_pems-Adds [] c d p = (
    [],
    tt,
    ap (λ (c : Config Y J V K L). c.public_keys) (sym (applied-inj c d p))
        ∙ sym (append-nil c.public_keys),
  )
  with_pems-Adds (pem ∷ pems) c d p = elim (Option-cases (parse_key pem)) [
    | inl bad ↦ absurd (ground (arith, bad, p))
    | inr (key, q) ↦ elim (Option-cases (algorithms_for key)) [
      | inl bad ↦ absurd (ground (arith, q, bad, p))
      | inr (algs, r) ↦ elim (Bool-cases (all_allowed algs)) [
        | inr bad ↦ absurd (ground (arith, q, r, bad, p))
        | inl fine ↦
            let (keys, parsed, more) =
              with_pems-Adds pems (record c { public_keys = c.public_keys ++ key ∷ [] }) d
                (rw (with_pems, q, r, fine) at p) in
            (key ∷ keys, (q, parsed), more ∙ append_assoc c.public_keys (key ∷ []) keys)
      ]
    ]
  ]

  -- The options that are not keys add none.
  pub base_url-Adds :
      (parse_url : Text → Option Text) (url : Text) → Adds (base_url parse_url url) []
  unfolding base_url
  base_url-Adds parse_url url = Adds-none (base_url parse_url url) (λ c d p.
      elim (Option-cases (parse_url url)) [
        | inl bad ↦ absurd (ground (arith, bad, p))
        | inr (name, q) ↦ ground (arith, q, p)
      ])

  pub device_id-Adds : (parse_id : Text → Option Text) (id : Text) → Adds (device_id parse_id id) []
  unfolding device_id
  device_id-Adds parse_id id = Adds-none (device_id parse_id id) (λ c d p.
      elim (Option-cases (parse_id id)) [
        | inl bad ↦ absurd (ground (arith, bad, p))
        | inr (name, q) ↦ ground (arith, q, p)
      ])

  pub algorithms-Adds : (names : List Text) → Adds (algorithms names) []
  unfolding algorithms
  algorithms-Adds names = Adds-none (algorithms names) (λ c d p.
      elim (Bool-cases (all_allowed names)) [
        | inl fine ↦ ground (arith, fine, p)
        | inr bad ↦ absurd (ground (arith, bad, p))
      ])

  pub timeout-Adds : (t : ℤ) → Adds (timeout t) []
  unfolding timeout
  timeout-Adds (negsuc n) = Adds-none (timeout (negsuc n)) (λ c d p. ground (arith, p))
  timeout-Adds (pos zero) = Adds-none (timeout (pos zero)) (λ c d p. ground (arith, p))
  timeout-Adds (pos (suc n)) = Adds-none (timeout (pos (suc n))) (λ c d p. ground (arith, p))

  pub with_fetch_listener-Adds : (l : L) → Adds (with_fetch_listener l) []
  with_fetch_listener-Adds l = Adds-none (with_fetch_listener l) (λ c d p. ground (arith, p))
