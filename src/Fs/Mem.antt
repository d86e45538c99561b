-- ===== src/Fs/Mem.antt =====
-- internal/fs/mem/mem.go: a file system in memory.
-- A file mode is a number, of which the code only looks at the permission bits. `dir_of` is
-- filepath.Dir. A nil map and an empty one are alike here, as their lookups are.
pub mod Dirs
pub mod Opened
pub mod Paths
use xmidt_agent.Base.{
  ℕ, zero, suc, ◌/◌, ◌%◌, Bool, true, false, ◌||◌, ◌&&◌, not, Option, some, none, List, [], ◌∷◌,
  ◌++◌, Text, codes, eq_text, is_empty, has_prefix, ◌==◌, if◌then◌else◌,
}
use xmidt_agent.Base.Dict.{Dict}
use xmidt_agent.Base.Dict
use xmidt_agent.Wrp.{Error, sentinel, not_exist, permission, invalid}
use xmidt_agent.Jwtxt.{split}
use xmidt_agent.Fs.{Result, ok, failed, FileSystem}

-- `m & n != 0` on the lowest bits, as many as the first number says
unfoldable pub share_bits : ℕ → ℕ → ℕ → Bool
share_bits zero m n = false
share_bits (suc w) m n = (m % 2 == 1) && (n % 2 == 1) || share_bits w (m / 2) (n / 2)

-- `m & n != 0` on iofs.FileMode, which is a uint32
abbrev pub allows : ℕ → ℕ → Bool
allows m n = share_bits 32 m n

-- 0111, 0222, 0444 and 0755 in octal
abbrev pub execute : ℕ
execute = 73

abbrev pub writable : ℕ
writable = 146

abbrev pub readable : ℕ
readable = 292

abbrev pub default_mode : ℕ
default_mode = 493

pub record File : Type 0 where
  pub bytes : Text
  pub perm : ℕ

pub record MemFs : Type 0 where
  pub files : Dict File
  pub dirs : Dict ℕ
  pub errs : Dict Error

abbrev refused : Option Error
refused = some (sentinel permission)

-- the part of hasPerms after the directory's mode is known
unfoldable pub mode_perms : ℕ → Text → ℕ → MemFs → Option Error
mode_perms dir name perm fs =
    if not (allows dir execute)
    then refused
    else if not (allows dir perm)
    then refused
    else elim (Dict.lookup name fs.files) [
      | none ↦ none
      | some f ↦ if not (allows f.perm perm) then refused else none
    ]

module _ (dir_of : Text → Text) where
  unfoldable pub has_perms : Text → ℕ → MemFs → Option Error
  has_perms name perm fs =
      if is_empty name then some (sentinel invalid) else elim (Dict.lookup name fs.errs) [
        | some e ↦ some e
        | none ↦ elim (Dict.lookup (dir_of name) fs.dirs) [
          | some dir ↦ mode_perms dir name perm fs
          | none ↦
              if not (eq_text (dir_of name) (codes "."))
              then some (sentinel not_exist)
              else mode_perms default_mode name perm fs
        ]
      ]

  -- Open, and whether Stat says that it is a directory
  unfoldable pub open_file : Text → MemFs → Result (Result Bool)
  open_file name fs = elim (has_perms name writable fs) [
    | some e ↦ failed e
    | none ↦ elim (Dict.lookup name fs.files) [
      | some f ↦ ok (ok false)
      | none ↦ elim (Dict.lookup name fs.dirs) [
        | some dir ↦ ok (ok true)
        | none ↦ failed (sentinel not_exist)
      ]
    ]
  ]

  abbrev make : Text → ℕ → MemFs → MemFs
  make path perm fs = elim (Dict.lookup path fs.dirs) [
    | some dir ↦ fs
    | none ↦ record fs { dirs = Dict.insert path perm fs.dirs }
  ]

  unfoldable pub mkdir : Text → ℕ → MemFs → Option Error × MemFs
  mkdir path perm fs =
      if eq_text path (codes "/")
      then (none, make path perm fs)
      else elim (has_perms path execute fs) [
        | some e ↦ (some e, fs)
        | none ↦ (none, make path perm fs)
      ]

  -- the loop of MkdirAll, after the path `full`
  unfoldable pub mkdir_from : Text → List Text → ℕ → MemFs → Option Error × MemFs
  mkdir_from full [] perm fs = (none, fs)
  mkdir_from full (dir ∷ dirs) perm fs =
      let (err, fs') = mkdir (full ++ dir) perm fs in
      let rest = mkdir_from (full ++ dir ++ codes "/") dirs perm fs' in
      elim err [ some e ↦ (some e, fs') | none ↦ rest ]

  abbrev tail : Text → Text
  tail [] = []
  tail (_ ∷ s) = s

  unfoldable pub mkdir_all : Text → ℕ → MemFs → Option Error × MemFs
  mkdir_all path perm fs =
      if has_prefix path (codes "/")
      then mkdir_from (codes "/") (split b'/' (tail path)) perm fs
      else mkdir_from [] (split b'/' path) perm fs

  unfoldable pub read_file : Text → MemFs → Result Text
  read_file name fs = elim (has_perms name readable fs) [
    | some e ↦ failed e
    | none ↦ elim (Dict.lookup name fs.files) [
      | some f ↦ ok f.bytes
      | none ↦ failed (sentinel not_exist)
    ]
  ]

  unfoldable pub write_file : Text → Text → ℕ → MemFs → Option Error × MemFs
  write_file name contents perm fs = elim (has_perms name writable fs) [
    | some e ↦ (some e, fs)
    | none ↦ (
      none,
      record fs { files = Dict.insert name (record { bytes = contents; perm = perm }) fs.files },
    )
  ]

  abbrev pub mem : FileSystem MemFs
  mem = record {
    open_file = open_file;
    mkdir = mkdir;
    read_file = read_file;
    write_file = write_file;
  }
