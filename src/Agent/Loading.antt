-- ===== src/Agent/Loading.antt =====
-- cmd/xmidt-agent/config.go and main.go: provideConfig and provideLogger.
-- Parameters: `Gs` for the configurations of goschtalt. `compile` is New on the standard layout with the
-- files of the command line, `apply_externals` is Apply (Configuration), `unmarshal` what Unmarshal of the whole finds, and `write` what os.WriteFile
-- of the default configuration does. What is printed is left out.
use xmidt_agent.Base.{
  ℕ, Bool, true, Option, some, none, List, [], ◌∷◌, ◌++◌, Text, codes, is_empty, if◌then◌else◌,
}
use xmidt_agent.Wrp.{Error}
use xmidt_agent.Fs.{Result, ok, failed}
use xmidt_agent.Agent.Config.{Cli}

-- It returns, or the process ends with a status.
pub data Loaded (A : Type 0) : Type 0 where
  returns : Result A → Loaded A
  exits : ℕ → Loaded A

module _ {Gs : Type 0} (compile : List Text → Result Gs) (apply_externals : Gs → Option Error)
    (write : Text → Option Error) (unmarshal : Gs → Option Error) where
  -- os.Exit(-1) is the status 255.
  unfoldable pub provide_config : Cli → Loaded Gs
  provide_config cli = elim (compile cli.files) [
    | failed e ↦ returns (failed e)
    | ok gs ↦ elim (apply_externals gs) [
      | some e ↦ returns (failed e)
      | none ↦
          if is_empty cli.default
          then (if cli.show
              then exits 0
              else (elim (unmarshal gs) [ some e ↦ exits 0 | none ↦ returns (ok gs) ]))
          else (elim (write (codes "./" ++ cli.default)) [ some e ↦ exits 255 | none ↦ exits 0 ])
    ]
  ]

-- The part of sallust.Config that provideLogger changes.
pub record LoggerConfig : Type 0 where
  pub encode_level : Text
  pub encode_time : Text
  pub level : Text
  pub development : Bool
  pub encoding : Text
  pub output_paths : List Text
  pub error_output_paths : List Text

unfoldable pub development_mode : LoggerConfig → LoggerConfig
development_mode c = record {
  encode_level = codes "capitalColor";
  encode_time = codes "RFC3339";
  level = codes "DEBUG";
  development = true;
  encoding = codes "console";
  output_paths = c.output_paths ++ codes "stderr" ∷ [];
  error_output_paths = c.error_output_paths ++ codes "stderr" ∷ [];
}

-- provideLogger, with NewZapConfig and Build of sallust
unfoldable pub provide_logger :
    {L Z : Type 0}
    → (LoggerConfig → Result L)
    → (LoggerConfig → Result Z)
    → Cli
    → LoggerConfig
    → Result (L × Z)
provide_logger zap_level build cli c =
    let cfg = if cli.dev then development_mode c else c in
    elim (zap_level cfg) [
      | failed e ↦ failed e
      | ok level ↦ elim (build cfg) [ failed e ↦ failed e | ok logger ↦ ok (level, logger) ]
    ]
