-- ===== src/Fs/Os.antt =====
-- internal/fs/os/os.go: the file system of the system under a base directory.
-- `os` is what the package os does, and `join_path` filepath.Join.
use xmidt_agent.Base.{Bool, some, none, [], ◌∷◌, Text}
use xmidt_agent.Fs.{Result, ok, failed, FileSystem, operate, with_dirs}

module _ {S : Type 0} (join_path : Text → Text → Text) (os : FileSystem S) where
  -- Open, Mkdir, ReadFile and WriteFile of fs
  unfoldable pub under : Text → FileSystem S
  under base = record {
    open_file = λ name s. os.open_file (join_path base name) s;
    mkdir = λ path perm s. os.mkdir (join_path base path) perm s;
    read_file = λ name s. os.read_file (join_path base name) s;
    write_file = λ name contents perm s. os.write_file (join_path base name) contents perm s;
  }

  -- New: the base is made, with the mode 0755, and kept.
  unfoldable pub new : (Text → Bool) → Text → S → Result Text × S
  new is_abs base s =
      let (err, s') = operate (some (with_dirs (under []) join_path is_abs base 493) ∷ []) s in
      elim err [ some e ↦ (failed e, s') | none ↦ (ok base, s') ]
