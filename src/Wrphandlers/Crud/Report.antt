-- ===== src/Wrphandlers/Crud/Report.antt =====
-- What the answer to a request says of the log level.
use xmidt_agent.Base.{ℕ, ◌≡◌, ◌≢◌, ◌⊎◌, true, none, Text, codes, eq_text}
use xmidt_agent.Base.Dict.{Dict}
use xmidt_agent.Wrp.{Message}
use xmidt_agent.Loglevel.{LogLevelService}
use xmidt_agent.Wrphandlers.Crud.{Environment, decoded, is_update, change_log_level, status_ok}

-- The request could be read, was an update of "loglevel", and the change made `s'` of the service.
abbrev pub Changes :
    {Level : Type 0}
    → Environment Level
    → ℕ
    → LogLevelService Level
    → Message
    → LogLevelService Level
    → Type 0
Changes env now s msg s' =
    (payload : Dict Text) × (env.unmarshal_json msg.payload ≡ decoded payload)
    × (is_update msg.msg_type ≡ true)
    × (eq_text msg.path (codes "loglevel") ≡ true)
    × (change_log_level env now s payload ≡ (none, s'))

-- Nothing is made of the service, since the request could not be read or is another, or the change is
-- refused.
abbrev pub Keeps :
    {Level : Type 0} → Environment Level → ℕ → LogLevelService Level → Message → Type 0
Keeps {Level} env now s msg = (t : LogLevelService Level) → ¬ Changes env now s msg t

-- Status 200 tells of a change; any other tells that none was possible.
abbrev Told :
    {Level : Type 0}
    → Environment Level
    → ℕ
    → LogLevelService Level
    → Message
    → ℕ
    → LogLevelService Level
    → Type 0
Told env now s msg status s' =
    ((status ≡ status_ok) × Changes env now s msg s')
    ⊎ ((status ≢ status_ok) × Keeps env now s msg × (s' ≡ s))
