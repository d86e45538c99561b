-- ===== src/Fs.antt =====
-- internal/fs/fs.go and options.go: operations on a file system that are applied in order.
-- `Join`, `Dir`, `Base` and `IsAbs` of path/filepath and `sum`, the SHA-256 digest in hexadecimal, are
-- parameters. The text that fmt.Errorf wraps around an error is left out.
pub mod Mem
pub mod Checksum
pub mod Os
use xmidt_agent.Base.{
  ◌≡◌, ◌⊎◌, inl, inr, refl, ℕ, Bool, true, false, ◌||◌, Option, some, none, List, [], ◌∷◌, ◌++◌,
  Text, codes, eq_text, trim_space, if◌then◌else◌,
}
use xmidt_agent.Wrp.{Error, Sentinel, sentinel, joined, not_exist, not_directory, invalid_sha}
use xmidt_agent.Jwtxt.{split}

pub data Result (A : Type 0) : Type 0 where
  ok : A → Result A
  failed : Error → Result A

-- To split on what a call gives.
pub Result-cases :
    {A : Type 0} (r : Result A) → ((e : Error) × (r ≡ failed e)) ⊎ ((a : A) × (r ≡ ok a))
Result-cases (failed e) = inl (e, refl)
Result-cases (ok a) = inr (a, refl)

-- The interface FS over a state `S`. `open` gives what Stat of the opened file says of IsDir.
pub record FileSystem (S : Type 0) : Type 0 where
  pub open_file : Text → S → Result (Result Bool)
  pub mkdir : Text → ℕ → S → Option Error × S
  pub read_file : Text → S → Result Text
  pub write_file : Text → Text → ℕ → S → Option Error × S

abbrev is_not_exist_sentinel : Sentinel → Bool
is_not_exist_sentinel not_exist = true
is_not_exist_sentinel _ = false

-- errors.Is(err, fs.ErrNotExist)
abbrev pub is_not_exist : Error → Bool
is_not_exist (sentinel s) = is_not_exist_sentinel s
is_not_exist (Error.foreign n) = false
is_not_exist (joined e f) = is_not_exist e || is_not_exist f

-- Option: what Apply does. The variable that ReadFileWithSHA256 sets is part of the state.
abbrev pub Setting : Type 0 → Type 0
Setting S = S → Option Error × S

abbrev pub sha_sum_name : Text → Text
sha_sum_name name = name ++ codes ".sha256"

-- The checksum line of the contents, without its end.
abbrev pub sum_line : (Text → Text) → (Text → Text) → Text → Text → Text
sum_line sum base name contents = sum contents ++ codes "  " ++ base name

module _ {S : Type 0} where
  -- Operate; a nil option is `none`.
  unfoldable pub operate : List (Option (Setting S)) → Setting S
  operate [] s = (none, s)
  operate (none ∷ opts) s = operate opts s
  operate (some opt ∷ opts) s =
      let (err, s') = opt s in
      let rest = operate opts s' in elim err [ some e ↦ (some e, s') | none ↦ rest ]

  module _ (fs : FileSystem S) where
    unfoldable pub with_dir : Text → ℕ → Setting S
    with_dir dir perm s = elim (fs.open_file dir s) [
      | failed e ↦ if is_not_exist e then fs.mkdir dir perm s else (some e, s)
      | ok stat ↦ elim stat [
        | failed e ↦ (some e, s)
        | ok is_dir ↦ if is_dir then (none, s) else (some (sentinel not_directory), s)
      ]
    ]

    -- the loop of WithDirs, after the directories in `full`
    unfoldable pub dir_options :
        (Text → Text → Text) → Text → List Text → ℕ → List (Option (Setting S))
    dir_options join_path full [] perm = []
    dir_options join_path full (dir ∷ dirs) perm =
        some (with_dir (join_path full dir) perm)
        ∷ dir_options join_path (join_path full dir) dirs perm

    -- `dirs[0] = "/"`
    abbrev rooted : List Text → List Text
    rooted [] = []
    rooted (_ ∷ dirs) = codes "/" ∷ dirs

    unfoldable pub with_dirs : (Text → Text → Text) → (Text → Bool) → Text → ℕ → Setting S
    with_dirs join_path is_abs path perm =
        let dirs = split b'/' path in
        operate (dir_options join_path [] (if is_abs path then rooted dirs else dirs) perm)

    unfoldable pub with_path :
        (Text → Text → Text) → (Text → Bool) → (Text → Text) → Text → ℕ → Setting S
    with_path join_path is_abs dir_of name perm = with_dirs join_path is_abs (dir_of name) perm

    module _ (sum base : Text → Text) where
      unfoldable pub write_file_with_sha256 : Text → Text → ℕ → Setting S
      write_file_with_sha256 name contents perm s =
          let (err, s') = fs.write_file name contents perm s in
          let line = sum_line sum base name contents ++ codes "\n" in
          let second = fs.write_file (sha_sum_name name) line perm s' in
          elim err [ some e ↦ (some e, s') | none ↦ second ]

      -- the data or an error
      unfoldable pub read_file_with_sha256 : Text → S → Result Text
      read_file_with_sha256 name s = elim (fs.read_file name s) [
        | failed e ↦ failed e
        | ok contents ↦ elim (fs.read_file (sha_sum_name name) s) [
          | failed e ↦ failed e
          | ok sha ↦
              if eq_text (sum_line sum base name contents) (trim_space sha)
              then ok contents
              else failed (sentinel invalid_sha)
        ]
      ]
