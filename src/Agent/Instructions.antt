-- ===== src/Agent/Instructions.antt =====
-- cmd/xmidt-agent/instructions.go: the instructions from the configuration.
-- Parameters are those of Jwtxt/Settings; `decode` is pem.Decode, which gives a block, if there is one,
-- and the rest, `encode` is pem.EncodeToMemory, of which a nil result is `none`, and `read` is
-- os.ReadFile. `log_fetch` is the listener that logs each fetch.
pub mod Keys
pub mod Pems
use xmidt_agent.Base.{
  Bool, true, false, ◌||◌, ◌&&◌, not, Option, some, none, List, [], ◌∷◌, ◌++◌, Text, is_empty,
  trim_space, if◌then◌else◌,
}
use xmidt_agent.Wrp.{sentinel, invalid_input}
use xmidt_agent.Fs.{Result}
use xmidt_agent.Setup.{Applied, applied, rejected, Setting}
use xmidt_agent.Jwtxt.Settings.{
  Config, base_url, device_id, algorithms, timeout, with_fetch_listener, with_pems, new, or_nil,
}
use xmidt_agent.Agent.{◌>>=◌, of_result}
use xmidt_agent.Agent.Config.{XmidtService, Identity}

pub record InstructionsIn : Type 0 where
  pub service : XmidtService
  pub id : Identity

-- instructionsOut; JWTXT is nil where the redirector is not used.
pub record InstructionsOut (C : Type 0) : Type 0 where
  pub jwtxt : Option C
  pub device_id : Text
  pub partner_id : Text

abbrev pub no_instructions : {C : Type 0} → InstructionsOut C
no_instructions = record { jwtxt = none; device_id = []; partner_id = [] }

abbrev is_nil : {A : Type 0} → Option A → Bool
is_nil none = true
is_nil (some _) = false

-- the test that leaves the redirector out
unfoldable pub is_unused : XmidtService → Bool
is_unused s =
    is_empty s.url || is_nil s.jwt_txt_redirector.pem_files && is_nil s.jwt_txt_redirector.pems

module _ {B : Type 0} (decode : Text → Option B × Text) (encode : B → Option Text)
    (read : Text → Result Text) where
  -- the loop over PEMs: each item holds one block and nothing after it, and is encoded anew.
  unfoldable pub normal_pems : List Text → Applied (List Text)
  normal_pems [] = applied []
  normal_pems (item ∷ items) =
      let later = normal_pems items in
      let (block, rest) = decode item in
      elim block [
        | none ↦ rejected (sentinel invalid_input)
        | some b ↦
            if not (is_empty (trim_space rest))
            then rejected (sentinel invalid_input)
            else (elim (encode b) [
              | none ↦ rejected (sentinel invalid_input)
              | some buf ↦ later >>= λ pems. applied (buf ∷ pems)
            ])
      ]

  -- the loop over PEMFiles, whose contents are passed on as they are
  unfoldable pub file_pems : List Text → Applied (List Text)
  file_pems [] = applied []
  file_pems (file ∷ files) =
      let later = file_pems files in
      of_result (read file) >>= λ contents. later >>= λ pems. applied (contents ∷ pems)

  module _ {Y J V K L : Type 0} (algorithms_for : Y → Option (List Text)) (new_set : J)
      (add_key : Y → J → J) (time_now : K) (default_resolver : V)
      (parse_url parse_id : Text → Option Text) (parse_key : Text → Option Y) (log_fetch : L) where
    abbrev pub base_options : InstructionsIn → List (Option (Setting (Config Y J V K L)))
    base_options i =
        some (base_url parse_url i.service.url)
        ∷ some (device_id parse_id i.id.device_id)
        ∷ some (algorithms i.service.jwt_txt_redirector.allowed_algorithms)
        ∷ some (timeout i.service.jwt_txt_redirector.timeout)
        ∷ some (with_fetch_listener log_fetch)
        ∷ []

    -- one option for all PEMs, if there are any
    abbrev pub pems_option : List Text → List (Option (Setting (Config Y J V K L)))
    pems_option [] = []
    pems_option (pem ∷ pems) = some (with_pems algorithms_for parse_key (pem ∷ pems)) ∷ []

    -- and one for each file
    abbrev pub file_options : List Text → List (Option (Setting (Config Y J V K L)))
    file_options [] = []
    file_options (pem ∷ pems) =
        some (with_pems algorithms_for parse_key (pem ∷ [])) ∷ file_options pems

    unfoldable pub provide_instructions :
        InstructionsIn → Applied (InstructionsOut (Config Y J V K L))
    provide_instructions i = if is_unused i.service then applied no_instructions else do
      let redirector = i.service.jwt_txt_redirector
      pems ← normal_pems (or_nil redirector.pems)
      files ← file_pems (or_nil redirector.pem_files)
      jwtxt ←
          new algorithms_for new_set add_key time_now default_resolver
            (base_options i ++ pems_option pems ++ file_options files)
      applied
          (record { jwtxt = some jwtxt; device_id = i.id.device_id; partner_id = i.id.partner_id })
