-- ===== src/Fs/Mem/Opened.antt =====
-- internal/fs/mem/file.go, and New of mem.go with its options: an opened file, and how a file system is
-- made. A read into a buffer gives the bytes that it writes to it. A mod time is always the zero time.
pub mod Reads
use xmidt_agent.Base.{
  ℕ, zero, suc, ◌+◌, Bool, true, false, Option, some, none, List, [], ◌∷◌, ◌++◌, Text, length, leb,
  take, drop, if◌then◌else◌,
}
use xmidt_agent.Base.Dict.{Dict}
use xmidt_agent.Base.Dict
use xmidt_agent.Base.Run.{◌>>=◌}
use xmidt_agent.Wrp.{Error, sentinel, is_dir, not_exist, closed_pipe, eof}
use xmidt_agent.Fs.{Result, ok, failed}
use xmidt_agent.Fs.Mem.{MemFs, writable, has_perms, mkdir_all, write_file}

-- File, once it is opened
pub record OpenFile : Type 0 where
  pub bytes : Text
  pub perm : ℕ
  pub name : Text
  pub is_dir : Bool
  pub offset : ℕ
  pub closed : Bool

-- fileInfo, without the mod time
pub record FileInfo : Type 0 where
  pub name : Text
  pub size : ℕ
  pub mode : ℕ
  pub is_dir : Bool

-- Open of mem.go
unfoldable pub open_whole : (Text → Text) → Text → MemFs → Result OpenFile
open_whole dir_of name fs = elim (has_perms dir_of name writable fs) [
  | some e ↦ failed e
  | none ↦ elim (Dict.lookup name fs.files) [
    | some f ↦ ok (record {
      bytes = f.bytes;
      perm = f.perm;
      name = name;
      is_dir = false;
      offset = 0;
      closed = false;
    })
    | none ↦ elim (Dict.lookup name fs.dirs) [
      | some dir ↦ ok (record {
        bytes = [];
        perm = dir;
        name = name;
        is_dir = true;
        offset = 0;
        closed = false;
      })
      | none ↦ failed (sentinel not_exist)
    ]
  ]
]

unfoldable pub stat : OpenFile → FileInfo
stat f = record { name = f.name; size = length f.bytes; mode = f.perm; is_dir = f.is_dir }

-- Read, into a buffer of the length `n`
unfoldable pub read : ℕ → OpenFile → Result Text × OpenFile
read n f =
    if f.is_dir
    then (failed (sentinel is_dir), f)
    else if f.closed
    then (failed (sentinel closed_pipe), f)
    else if leb (length f.bytes) f.offset
    then (failed (sentinel eof), f)
    else (let got = take n (drop f.offset f.bytes) in
        (ok got, record f { offset = f.offset + length got }))

unfoldable pub close : OpenFile → Option Error × OpenFile
close f = (none, record f { closed = true })

-- The options of New: WithFile, WithError and WithDir. A `none` is a panic.
pub data Setting : Type 0 where
  with_file : Text → Text → ℕ → Setting
  with_error : Text → Error → Setting
  with_dir : Text → ℕ → Setting

abbrev pub or_panic : Option Error × MemFs → Option MemFs
or_panic (none, fs) = some fs
or_panic (some e, fs) = none

abbrev pub empty : MemFs
empty = record { files = []; dirs = []; errs = [] }

module _ (dir_of : Text → Text) where
  unfoldable pub apply : Setting → MemFs → Option MemFs
  apply (with_file name contents perm) fs = or_panic (write_file dir_of name contents perm fs)
  apply (with_error name e) fs = some (record fs { errs = Dict.insert name e fs.errs })
  apply (with_dir name perm) fs = or_panic (mkdir_all dir_of name perm fs)

  unfoldable pub new_from : List Setting → MemFs → Option MemFs
  new_from [] fs = some fs
  new_from (opt ∷ opts) fs = apply opt fs >>= new_from opts

  unfoldable pub new : List Setting → Option MemFs
  new opts = new_from opts empty
