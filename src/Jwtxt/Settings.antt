-- ===== src/Jwtxt/Settings.antt =====
-- internal/jwtxt/options.go and New of token.go: the configuration of the instructions.
-- Parameters: `Y` for the keys of the package jwk and `J` for its key sets, with `parse_key`,
-- `algorithms_for`, `new_set` and `add_key` for its functions and that of jws; `parse_url` for the host name that
-- url.ParseRequestURI gives and `parse_id` for wrp.ParseDeviceID; `V`, `K` and `L` for the resolvers, clocks and listeners.
-- A signature algorithm is its name.
pub mod Sound
pub mod Added
use xmidt_agent.Base.{
  ℕ, zero, suc, Bool, true, false, ◌||◌, not, Option, some, none, List, [], ◌∷◌, ◌++◌, Text, codes,
  eq_text, is_empty, if◌then◌else◌,
}
use xmidt_agent.Base.Int.{ℤ, pos, negsuc, ltb_ℤ}
use xmidt_agent.Base.Dict.{Dict}
use xmidt_agent.Base.Dict
use xmidt_agent.Wrp.{Error, sentinel, invalid_input, unsupported_alg}
use xmidt_agent.Setup.{
  Applied, applied, rejected, panicked, Setting, then_apply, apply_all, reject_each,
}

-- The fields of Instructions that New and the options set; `algorithms` is a set.
pub record Config (Y J V K L : Type 0) : Type 0 where
  pub base_url : Text
  pub id : Text
  pub fqdn : Text
  pub timeout : ℤ
  pub algorithms : Dict Bool
  pub public_keys : List Y
  pub set : Option J
  pub now : K
  pub resolver : V
  pub fetch_listeners : List L

-- allowedSigningAlgorithms
abbrev pub allowed_signing_algorithms : List Text
allowed_signing_algorithms =
    codes "EdDSA"
    ∷ codes "ES256"
    ∷ codes "ES384"
    ∷ codes "ES512"
    ∷ codes "PS256"
    ∷ codes "PS384"
    ∷ codes "PS512"
    ∷ codes "RS256"
    ∷ codes "RS384"
    ∷ codes "RS512"
    ∷ []

abbrev pub is_member : Text → List Text → Bool
is_member t [] = false
is_member t (s ∷ names) = eq_text s t || is_member t names

abbrev pub all_allowed : List Text → Bool
all_allowed [] = true
all_allowed (t ∷ names) =
    if is_member t allowed_signing_algorithms then all_allowed names else false

abbrev pub is_none : {A : Type 0} → List A → Bool
is_none [] = true
is_none (_ ∷ _) = false

abbrev pub or_nil : {A : Type 0} → Option (List A) → List A
or_nil none = []
or_nil (some l) = l

-- `ins.algorithms[alg] = struct{}{}`, for each
abbrev pub add_algorithms : List Text → Dict Bool → Dict Bool
add_algorithms [] algs = algs
add_algorithms (t ∷ names) algs = add_algorithms names (Dict.insert t true algs)

-- Whether one of the algorithms is in the set.
abbrev pub shares : List Text → Dict Bool → Bool
shares [] algs = false
shares (t ∷ names) algs = elim (Dict.lookup t algs) [ some _ ↦ true | none ↦ shares names algs ]

abbrev pub default_timeout : ℤ
default_timeout = pos 15000000000

-- the last loop of validateAlgs, which takes no algorithms where AlgorithmsForKey fails
unfoldable pub some_unsupported :
    {Y : Type 0} → (Y → Option (List Text)) → List Y → Dict Bool → Bool
some_unsupported algorithms_for [] algs = false
some_unsupported algorithms_for (key ∷ keys) algs =
    if shares (or_nil (algorithms_for key)) algs
    then some_unsupported algorithms_for keys algs
    else true

abbrev pub add_keys : {Y J : Type 0} → (Y → J → J) → List Y → J → J
add_keys add_key [] set = set
add_keys add_key (key ∷ keys) set = add_keys add_key keys (add_key key set)

module _ {Y J V K L : Type 0} where
  abbrev pub with_fetch_listener : L → Setting (Config Y J V K L)
  with_fetch_listener l c = applied (record c { fetch_listeners = c.fetch_listeners ++ l ∷ [] })

  abbrev pub use_resolver : V → Setting (Config Y J V K L)
  use_resolver resolver c = applied (record c { resolver = resolver })

  abbrev pub use_now_func : K → Setting (Config Y J V K L)
  use_now_func now c = applied (record c { now = now })

  -- Algorithms, and the apply of what it gives
  unfoldable pub algorithms : List Text → Setting (Config Y J V K L)
  algorithms algs c =
      if all_allowed algs
      then applied (record c { algorithms = add_algorithms algs c.algorithms })
      else rejected (sentinel unsupported_alg)

  unfoldable pub timeout : ℤ → Setting (Config Y J V K L)
  timeout (negsuc n) c = rejected (sentinel invalid_input)
  timeout (pos zero) c = applied (record c { timeout = default_timeout })
  timeout (pos (suc n)) c = applied (record c { timeout = pos (suc n) })

  -- BaseURL
  unfoldable pub base_url : (Text → Option Text) → Text → Setting (Config Y J V K L)
  base_url parse_url url c = elim (parse_url url) [
    | none ↦ rejected (sentinel invalid_input)
    | some hostname ↦ applied (record c { base_url = hostname })
  ]

  unfoldable pub device_id : (Text → Option Text) → Text → Setting (Config Y J V K L)
  device_id parse_id id c = elim (parse_id id) [
    | none ↦ rejected (sentinel invalid_input)
    | some parsed ↦ applied (record c { id = parsed })
  ]

  -- validateBase and validateTheID
  abbrev pub lacks_base : Config Y J V K L → Bool
  lacks_base c = is_empty c.base_url

  abbrev pub lacks_id : Config Y J V K L → Bool
  lacks_id c = is_empty c.id

  module _ (algorithms_for : Y → Option (List Text)) where
    -- WithPEMs
    unfoldable pub with_pems : (Text → Option Y) → List Text → Setting (Config Y J V K L)
    with_pems parse_key [] c = applied c
    with_pems parse_key (single ∷ pems) c = elim (parse_key single) [
      | none ↦ rejected (sentinel invalid_input)
      | some key ↦ elim (algorithms_for key) [
        | none ↦ rejected (sentinel invalid_input)
        | some algs ↦
            if all_allowed algs
            then with_pems parse_key pems (record c { public_keys = c.public_keys ++ key ∷ [] })
            else rejected (sentinel invalid_input)
      ]
    ]

    unfoldable pub lacks_algs : Config Y J V K L → Bool
    lacks_algs c =
        is_none c.algorithms
        || is_none c.public_keys
        || some_unsupported algorithms_for c.public_keys c.algorithms

    abbrev pub validators : List (Config Y J V K L → Bool)
    validators = lacks_algs ∷ lacks_base ∷ lacks_id ∷ []

  -- makeSet
  abbrev pub make_set : J → (Y → J → J) → Setting (Config Y J V K L)
  make_set new_set add_key c =
      applied (record c { set = some (add_keys add_key c.public_keys new_set) })

  -- `ins.fqdn = ins.id + "." + ins.baseURL`
  abbrev pub name_domain : Setting (Config Y J V K L)
  name_domain c = applied (record c { fqdn = c.id ++ codes "." ++ c.base_url })

  abbrev pub defaults : K → V → Config Y J V K L
  defaults time_now default_resolver = record {
    base_url = [];
    id = [];
    fqdn = [];
    timeout = default_timeout;
    algorithms = [];
    public_keys = [];
    set = none;
    now = time_now;
    resolver = default_resolver;
    fetch_listeners = [];
  }

  unfoldable pub new :
      (Y → Option (List Text))
      → J
      → (Y → J → J)
      → K
      → V
      → List (Option (Setting (Config Y J V K L)))
      → Applied (Config Y J V K L)
  new algorithms_for new_set add_key time_now default_resolver opts =
      then_apply
        (apply_all
          ((opts ++ reject_each (sentinel invalid_input) (validators algorithms_for))
            ++ some (make_set new_set add_key) ∷ [])
          (defaults time_now default_resolver))
        name_domain
