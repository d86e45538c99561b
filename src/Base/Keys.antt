-- ===== src/Base/Keys.antt =====
-- Maps whose keys differ, and copying one into another.
use mathlib.Core.Path.{◌≡◌, refl, ◌∙◌}
use mathlib.Core.Logic.{inl, inr}
use mathlib.Core.Option.{none}
use mathlib.Core.List.{[], ◌∷◌}
use native.Mathlib.Omega.{arith}
use xmidt_agent.Base.Tests.{Bool-cases}
use xmidt_agent.Base.Bytes.{Text, eq_text, eq_text_iff}
use xmidt_agent.Base.Dict.{Dict, lookup-insert}
use xmidt_agent.Base.Dict

module _ {V : Type 0} where
  -- No key stands twice.
  abbrev pub HasUniqueKeys : Dict V → Type 0
  HasUniqueKeys [] = Unit {0}
  HasUniqueKeys ((k, v) ∷ m) = (Dict.lookup k m ≡ none) × HasUniqueKeys m

  pub HasUniqueKeys-insert :
      (k : Text) (v : V) (m : Dict V) → HasUniqueKeys m → HasUniqueKeys (Dict.insert k v m)
  HasUniqueKeys-insert k v [] h = (refl, tt)
  HasUniqueKeys-insert k v ((j, w) ∷ m) (new, h) = elim (Bool-cases (eq_text j k)) [
    | inl e ↦ rw e (rw ((eq_text_iff j k).0 e) at new, h)
    | inr e ↦ rw e (
      (lookup-insert k j v m ∙ ground (arith, eq_text_iff k j, eq_text_iff j k, new)),
      HasUniqueKeys-insert k v m h,
    )
  ]
