-- ===== src/Wrphandlers/Mocktr181/Build.antt =====
-- New, its options and loadFile (internal/wrphandlers/mocktr181/handler.go, options.go). `open` is what
-- os.Open, io.ReadAll and json.Unmarshal make of the file at a path.
use xmidt_agent.Base.{Bool, false, ◌||◌, List, [], ◌∷◌, Text, is_empty, if◌then◌else◌}
use xmidt_agent.Wrp.{
  Error, sentinel, joined, invalid_input, invalid_file_input, unable_to_read_file,
}
use xmidt_agent.Wrphandlers.Mocktr181.{MockParameter}

pub record Mock (Value : Type 0) : Type 0 where
  pub source : Text
  pub file_path : Text
  pub parameters : List (MockParameter Value)
  pub enabled : Bool

pub data File (Value : Type 0) : Type 0 where
  unopened : Error → File Value
  garbled : Error → File Value
  holds : List (MockParameter Value) → File Value

pub data Setting : Type 0 where
  file_path : Text → Setting
  enabled : Bool → Setting

pub data Result {ℓ} (A : Type ℓ) : Type ℓ where
  ok : A → Result A
  err : Error → Result A

infixl 5 ◌>>=◌
abbrev ◌>>=◌ : {A B : Type 0} → Result A → (A → Result B) → Result B
ok a >>= f = f a
err e >>= f = err e

module _ {Value : Type 0} (open_file : Text → File Value) where
  -- FilePath and Enabled
  unfoldable pub apply : Setting → Mock Value → Result (Mock Value)
  apply (file_path path) h =
      if is_empty path
      then err (sentinel invalid_file_input)
      else ok (record h { file_path = path })
  apply (enabled b) h = ok (record h { enabled = b })

  unfoldable pub apply_all : List Setting → Mock Value → Result (Mock Value)
  apply_all [] h = ok h
  apply_all (s ∷ ss) h = apply s h >>= apply_all ss

  unfoldable pub load_file : Mock Value → Result (List (MockParameter Value))
  load_file h = elim (open_file h.file_path) [
    | unopened e ↦ err (joined (sentinel unable_to_read_file) e)
    | garbled e ↦ err (joined (sentinel invalid_file_input) e)
    | holds ps ↦ ok ps
  ]

  -- an error of loadFile is joined with ErrUnableToReadFile
  abbrev unreadable : {A : Type 0} → Result A → Result A
  unreadable (ok a) = ok a
  unreadable (err e) = err (joined (sentinel unable_to_read_file) e)

  unfoldable pub new : Bool → Text → List Setting → Result (Mock Value)
  new egress_is_nil source opts = do
    h ←
        apply_all opts
          (record { source = source; file_path = []; parameters = []; enabled = false })
    ps ← unreadable (load_file h)
    if egress_is_nil || is_empty source
        then err (sentinel invalid_input)
        else ok (record h { parameters = ps })
