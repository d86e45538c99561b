-- ===== src/Tests/Redirector.antt =====
-- The instructions that the command builds, on a small configuration.
use xmidt_agent.Base.{ℕ, refl, true, Option, some, List, [], ◌∷◌, ◌++◌, Text, codes}
use xmidt_agent.Base.Int.{pos}
use xmidt_agent.Fs.{Result, ok}
use xmidt_agent.Setup.{Applied, applied, panicked, rejected}
use xmidt_agent.Agent.Instructions.{
  InstructionsIn, is_unused, provide_instructions, normal_pems, file_pems,
}
use xmidt_agent.Agent.Instructions.Keys.{Trusts, keys_configured}
use xmidt_agent.Jwtxt.Settings as TxtSettings
use xmidt_agent.Setup
use xmidt_agent.Tests.Wiring.{identity}

-- A block and a key are the text itself.
abbrev block_of : Text → Option Text × Text
block_of item = (some item, codes "  ")

abbrev encoded : Text → Option Text
encoded block = some block

abbrev file_of : Text → Result Text
file_of name = ok name

abbrev algorithms_of : Text → Option (List Text)
algorithms_of key = some (codes "ES256" ∷ [])

abbrev put_key : Text → List Text → List Text
put_key key set = set ++ key ∷ []

abbrev valid : Text → Option Text
valid t = some t

abbrev redirected : InstructionsIn
redirected = record {
  id = identity;
  service = record {
    url = codes "u";
    backoff = record { min_delay = pos 1; max_delay = pos 2 };
    jwt_txt_redirector = record {
      allowed_algorithms = codes "ES256" ∷ [];
      timeout = pos 7;
      pems = some (codes "a" ∷ []);
      pem_files = some (codes "b" ∷ []);
    };
  };
}

abbrev trusted : TxtSettings.Config Text (List Text) ℕ ℕ ℕ
trusted = record {
  base_url = codes "u";
  id = codes "mac:1";
  fqdn = codes "mac:1.u";
  timeout = pos 7;
  algorithms = (codes "ES256", true) ∷ [];
  public_keys = codes "a" ∷ codes "b" ∷ [];
  set = some (codes "a" ∷ codes "b" ∷ []);
  now = 1;
  resolver = 2;
  fetch_listeners = 3 ∷ [];
}

keys_configured_example :
    Trusts block_of encoded file_of algorithms_of [] put_key 1 2 valid valid valid 3 redirected
      trusted
unfolding is_unused provide_instructions normal_pems file_pems TxtSettings.new TxtSettings.base_url
    TxtSettings.device_id TxtSettings.algorithms TxtSettings.timeout TxtSettings.with_pems
    TxtSettings.lacks_algs TxtSettings.some_unsupported Setup.apply_all
keys_configured_example =
    keys_configured block_of encoded file_of algorithms_of [] put_key 1 2 valid valid valid 3
      redirected trusted refl refl
