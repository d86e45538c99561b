-- ===== src/Agent.antt =====
-- cmd/xmidt-agent: the configuration, and how the command builds the parts of the agent from it. A
-- provider returns what it builds or an error, or it panics.
pub mod Config
pub mod Results
pub mod Credentials
pub mod Instructions
pub mod Websocket
pub mod Handlers
pub mod Wiring
pub mod Hooks
pub mod Metadata
pub mod Storage
pub mod Loading
use xmidt_agent.Wrp.{Error, joined}
use xmidt_agent.Setup.{Applied, applied, rejected, panicked}
use xmidt_agent.Fs.{Result, ok, failed}

infixl 5 ◌>>=◌
abbrev pub ◌>>=◌ : {A B : Type 0} → Applied A → (A → Applied B) → Applied B
applied a >>= f = f a
rejected e >>= f = rejected e
panicked >>= f = panicked

abbrev pub of_result : {A : Type 0} → Result A → Applied A
of_result (ok a) = applied a
of_result (failed e) = rejected e

-- `errors.Join(sentinel, err)` on the error of a call
abbrev pub join_first : {A : Type 0} → Error → Applied A → Applied A
join_first e (applied a) = applied a
join_first e (rejected f) = rejected (joined e f)
join_first e panicked = panicked
