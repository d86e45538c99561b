-- ===== src/Agent/Instructions/Keys.antt =====
-- Which keys the instructions of the configuration trust.
use xmidt_agent.Base.{
  ◌≡◌, refl, sym, ap, ◌∙◌, false, Option, some, List, [], ◌∷◌, ◌++◌, Text, some-inj, subst, Each,
}
use xmidt_agent.Fs.{Result}
use xmidt_agent.Setup.{Applied, applied, Setting, apply_all, applied-inj}
use xmidt_agent.Jwtxt.Settings.{add_keys, Config, with_pems, new, or_nil, defaults}
use xmidt_agent.Jwtxt.Settings.Sound.{IsUsable, finished, new-IsUsable}
use xmidt_agent.Agent.Results.{bind_inversion}
use xmidt_agent.Agent.Instructions.{
  InstructionsIn, InstructionsOut, is_unused, normal_pems, file_pems, base_options, pems_option,
  file_options, provide_instructions,
}
use xmidt_agent.Agent.Instructions.Pems.{IsNormal, IsRead, normal_pems_lem, file_pems_lem}
use xmidt_agent.Jwtxt.Settings.Added.{
  IsParsed, Adds, Adds-nil, Adds-option, with_pems-Adds, base_url-Adds, device_id-Adds,
  algorithms-Adds, timeout-Adds, with_fetch_listener-Adds,
}

module _ {B : Type 0} (decode : Text → Option B × Text) (encode : B → Option Text)
    (read : Text → Result Text) {Y J V K L : Type 0} (algorithms_for : Y → Option (List Text))
    (new_set : J) (add_key : Y → J → J) (time_now : K) (default_resolver : V)
    (parse_url parse_id : Text → Option Text) (parse_key : Text → Option Y) (log_fetch : L) where
  abbrev Added : List (Option (Setting (Config Y J V K L))) → List Text → Type 0
  Added opts = Adds algorithms_for parse_key (apply_all opts)

  abbrev from_files : List Text → List (Option (Setting (Config Y J V K L)))
  from_files =
      file_options decode encode read algorithms_for new_set add_key time_now default_resolver
        parse_url parse_id parse_key log_fetch

  abbrev from_pems : List Text → List (Option (Setting (Config Y J V K L)))
  from_pems =
      pems_option decode encode read algorithms_for new_set add_key time_now default_resolver
        parse_url parse_id parse_key log_fetch

  abbrev base : InstructionsIn → List (Option (Setting (Config Y J V K L)))
  base =
      base_options decode encode read algorithms_for new_set add_key time_now default_resolver
        parse_url parse_id parse_key log_fetch

  abbrev trust : List Text → Setting (Config Y J V K L)
  trust = with_pems algorithms_for parse_key

  files-Added : (files : List Text) → Added (from_files files) files
  files-Added [] = Adds-nil algorithms_for parse_key
  files-Added (pem ∷ files) =
      Adds-option algorithms_for parse_key (trust (pem ∷ [])) (from_files files) (pem ∷ []) files
        (with_pems-Adds algorithms_for parse_key (pem ∷ [])) (files-Added files)

  pems-Added : (pems files : List Text) → Added (from_pems pems ++ from_files files) (pems ++ files)
  pems-Added [] files = files-Added files
  pems-Added (pem ∷ pems) files =
      Adds-option algorithms_for parse_key (trust (pem ∷ pems)) (from_files files) (pem ∷ pems)
        files (with_pems-Adds algorithms_for parse_key (pem ∷ pems)) (files-Added files)

  -- an option that adds no key, before others
  besides :
      (f : Setting (Config Y J V K L)) (opts : List (Option (Setting (Config Y J V K L))))
      (pems : List Text)
      → Adds algorithms_for parse_key f []
      → Added opts pems
      → Added (some f ∷ opts) pems
  besides f opts pems h k = Adds-option algorithms_for parse_key f opts [] pems h k

  all-Added :
      (i : InstructionsIn) (pems files : List Text)
      → Added (base i ++ from_pems pems ++ from_files files) (pems ++ files)
  all-Added i pems files =
      besides _ _ (pems ++ files) (base_url-Adds algorithms_for parse_key parse_url i.service.url) (
        besides _ _ (pems ++ files)
          (device_id-Adds algorithms_for parse_key parse_id i.id.device_id)
          (besides _ _ (pems ++ files)
            (algorithms-Adds algorithms_for parse_key
              i.service.jwt_txt_redirector.allowed_algorithms)
            (besides _ _ (pems ++ files)
              (timeout-Adds algorithms_for parse_key i.service.jwt_txt_redirector.timeout)
              (besides _ _ (pems ++ files)
                (with_fetch_listener-Adds algorithms_for parse_key log_fetch)
                (pems-Added pems files)))))

  abbrev pub provided : InstructionsIn → Applied (InstructionsOut (Config Y J V K L))
  provided =
      provide_instructions decode encode read algorithms_for new_set add_key time_now
        default_resolver parse_url parse_id parse_key log_fetch

  abbrev pub out : InstructionsIn → Config Y J V K L → InstructionsOut (Config Y J V K L)
  out i c = record { jwtxt = some c; device_id = i.id.device_id; partner_id = i.id.partner_id }

  -- The trusted keys are those of the configuration.
  abbrev pub Trusts : InstructionsIn → Config Y J V K L → Type 0
  Trusts i c =
      (pems : List Text) × (files : List Text) × Each (IsNormal decode encode read)
        (or_nil i.service.jwt_txt_redirector.pems) pems
      × Each (IsRead decode encode read) (or_nil i.service.jwt_txt_redirector.pem_files) files
      × Each (IsParsed parse_key) (pems ++ files) c.public_keys
      × (c.set ≡ some (add_keys add_key c.public_keys new_set))
      × IsUsable algorithms_for c

  abbrev make : InstructionsIn → List Text → List Text → Applied (Config Y J V K L)
  make i pems files =
      new algorithms_for new_set add_key time_now default_resolver
        (base i ++ from_pems pems ++ from_files files)

  built_from :
      (i : InstructionsIn) (c : Config Y J V K L)
      → is_unused i.service ≡ false
      → provided i ≡ applied (out i c)
      → (pems : List Text) × (files : List Text) × (normal_pems decode encode read
            (or_nil i.service.jwt_txt_redirector.pems)
          ≡ applied pems)
        × (file_pems decode encode read (or_nil i.service.jwt_txt_redirector.pem_files)
            ≡ applied files)
        × (make i pems files ≡ applied c)
  unfolding provide_instructions
  built_from i c used h =
      let (pems, p, h₁) =
        bind_inversion (normal_pems decode encode read (or_nil i.service.jwt_txt_redirector.pems)) _
          (out i c) (rw (provide_instructions, used) at h) in
      let (files, q, h₂) =
        bind_inversion
          (file_pems decode encode read (or_nil i.service.jwt_txt_redirector.pem_files)) _ (out i c)
          h₁ in
      let (b, r, h₃) = bind_inversion (make i pems files) _ (out i c) h₂ in
      (
        pems,
        files,
        p,
        q,
        r
            ∙ ap applied (
                some-inj b c
                  (ap (λ (o : InstructionsOut (Config Y J V K L)). o.jwtxt) (applied-inj _ _ h₃))),
      )

  finished-Trusts :
      (i : InstructionsIn) (c' : Config Y J V K L) (pems files : List Text)
      → apply_all
          (base i ++ from_pems pems ++ from_files files)
          (defaults time_now default_resolver)
        ≡ applied c'
      → Each (IsNormal decode encode read) (or_nil i.service.jwt_txt_redirector.pems) pems
      → Each (IsRead decode encode read) (or_nil i.service.jwt_txt_redirector.pem_files) files
      → IsUsable algorithms_for c'
      → Trusts i (finished algorithms_for new_set add_key c')
  finished-Trusts i c' pems files p normal are_read usable =
      let (keys, parsed, more) = all-Added i pems files (defaults time_now default_resolver) c' p in
      (
        pems,
        files,
        normal,
        are_read,
        subst (Each (IsParsed parse_key) (pems ++ files)) (sym more) parsed,
        refl,
        record {
          algorithms = usable.algorithms;
          public_keys = usable.public_keys;
          supported = usable.supported;
          base_url = usable.base_url;
          id = usable.id;
        },
      )

  -- If a redirector is configured and instructions are built, then each PEM of the configuration is one
  -- block with nothing but white space after it, each file of PEMs can be read, and the keys that are
  -- trusted are those of the blocks, encoded anew, and then those of the files, in order and no others.
  -- There is at least one key, each has an algorithm that is allowed, and neither the base URL nor the
  -- ID is empty.
  pub keys_configured :
      (i : InstructionsIn) (c : Config Y J V K L)
      → is_unused i.service ≡ false
      → provided i ≡ applied (out i c)
      → Trusts i c
  keys_configured i c used h =
      let (pems, files, p, q, made) = built_from i c used h in
      let opts = base i ++ from_pems pems ++ from_files files in
      let (c', r, usable, e) =
        (new-IsUsable algorithms_for new_set add_key time_now default_resolver opts c).0 made in
      subst (Trusts i) (sym e) (
        finished-Trusts i c' pems files r
          (normal_pems_lem decode encode read (or_nil i.service.jwt_txt_redirector.pems) pems p)
          (file_pems_lem decode encode read (or_nil i.service.jwt_txt_redirector.pem_files) files q)
          usable)
