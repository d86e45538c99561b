-- ===== src/Agent/Storage.antt =====
-- cmd/xmidt-agent/fs.go: the file systems for what is temporary and what is durable.
use xmidt_agent.Base.{Bool, Option, some, none, Text, is_empty, if◌then◌else◌}
use xmidt_agent.Wrp.{Error, joined}
use xmidt_agent.Fs.{ok, failed, FileSystem}
use xmidt_agent.Fs.Os
use xmidt_agent.Agent.Config.{Storage}

-- `errors.Join(errs, err)`
abbrev pub join_errors : Option Error → Option Error → Option Error
join_errors none err = err
join_errors (some e) none = some e
join_errors (some e) (some f) = some (joined e f)

module _ {S : Type 0} (join_path : Text → Text → Text) (is_abs : Text → Bool)
    (os : FileSystem S) where
  -- One of the two: its base if it is configured, or the error of New, which stops the agent.
  unfoldable pub provide_one : Text → S → (Option Text × Option Error) × S
  provide_one base s =
      let (made, s') = Os.new join_path os is_abs base s in
      if is_empty base
      then ((none, none), s)
      else (elim made [ ok kept ↦ ((some kept, none), s') | failed e ↦ ((none, some e), s') ])

  -- the function of fsProvide: the bases of the temporary and of the durable file system
  unfoldable pub provide_storage : Storage → S → (Option Text × Option Text × Option Error) × S
  provide_storage c s =
      let ((temporary, err), s') = provide_one c.temporary s in
      let ((durable, err'), s'') = provide_one c.durable s' in
      ((temporary, durable, join_errors err err'), s'')
