-- ===== src/Credentials/Stored.antt =====
-- internal/credentials/credentials.go: store and load, the token in the local file system.
-- Parameters: `encode` and `decode` for the msgpack codec.
pub mod Trip
use xmidt_agent.Base.{ℕ, Bool, Option, some, none, [], ◌∷◌, Text}
use xmidt_agent.Wrp.{Error, sentinel, fetch_failed}
use xmidt_agent.Fs.{
  Result, ok, failed, FileSystem, operate, with_path, write_file_with_sha256, read_file_with_sha256,
}
use xmidt_agent.Credentials.{Token}

-- The file system with its settings, if LocalStorage is used.
pub record Storage (S : Type 0) : Type 0 where
  pub fs : FileSystem S
  pub filename : Text
  pub perm : ℕ
  pub join_path : Text → Text → Text
  pub is_abs : Text → Bool
  pub dir_of : Text → Text
  pub base : Text → Text
  pub sum : Text → Text

module _ {S : Type 0} where
  abbrev pub make_path : Storage S → S → Option Error × S
  make_path st = with_path st.fs st.join_path st.is_abs st.dir_of st.filename st.perm

  unfoldable pub store : (Token → Result Text) → Option (Storage S) → Token → S → Option Error × S
  store encode none t s = (none, s)
  store encode (some st) t s = elim (encode t) [
    | failed e ↦ (some e, s)
    | ok buf ↦
        operate
          (some (make_path st)
            ∷ some (write_file_with_sha256 st.fs st.sum st.base st.filename buf st.perm)
            ∷ [])
          s
  ]

  -- load: the token, if there is one, or an error
  unfoldable pub load : (Text → Result Token) → Option (Storage S) → S → Result (Option Token) × S
  load decode none s = (ok none, s)
  load decode (some st) s =
      let (err, s') = make_path st s in
      let read : Result (Option Token) =
        elim (read_file_with_sha256 st.fs st.sum st.base st.filename s') [
          | failed e ↦ failed (Error.joined e (sentinel fetch_failed))
          | ok buf ↦ elim (decode buf) [
            | failed e ↦ failed (Error.joined e (sentinel fetch_failed))
            | ok t ↦ ok (some t)
          ]
        ] in
      elim err [
        | some e ↦ (failed (Error.joined e (sentinel fetch_failed)), s')
        | none ↦ (read, s')
      ]
