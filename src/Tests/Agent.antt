-- ===== src/Tests/Agent.antt =====
-- The command's wiring, its external configuration and the files of the file system in memory, on small
-- inputs.
use xmidt_agent.Base.{
  ℕ, ◌≡◌, ◌⊎◌, refl, Bool, true, false, some, none, List, [], ◌∷◌, Text, codes, take, drop,
}
use xmidt_agent.Wrp.{Error, sentinel, closed_pipe, not_exist}
use xmidt_agent.Fs.{Result, ok, failed}
use xmidt_agent.Fs.Mem.{MemFs, write_file, has_perms, mode_perms, share_bits}
use xmidt_agent.Fs.Mem.Opened.{OpenFile, open_whole, read, close}
use xmidt_agent.Fs.Mem.Opened.Reads.{read_each, total, next, read_back}
use xmidt_agent.Configuration.{External, trim_slash, resolve}
use xmidt_agent.Configuration.Values.{Resolves, resolve_correct}
use xmidt_agent.Agent.Hooks.Sound.{Call, begins, ends}

abbrev here : Text → Text
here _ = codes "."

abbrev none_there : MemFs
none_there = record { files = []; dirs = []; errs = [] }

abbrev stored : MemFs
stored = (write_file here (codes "f") (codes "abcd") 420 none_there).1

read_back_example :
    (f : OpenFile) × (open_whole here (codes "f") stored ≡ ok f)
    × (let (t, last) = read_each (1 ∷ 2 ∷ []) f in
        (t ≡ take (total (1 ∷ 2 ∷ [])) (codes "abcd"))
        × ((read 5 last).0 ≡ next 5 (drop (total (1 ∷ 2 ∷ [])) (codes "abcd")))
        × ((read 5 (close last).1).0 ≡ failed (sentinel closed_pipe)))
unfolding write_file has_perms mode_perms share_bits
read_back_example =
    read_back here (codes "f") (codes "abcd") 420 none_there (1 ∷ 2 ∷ []) 5 stored refl refl

-- The files of a root, as a number, have one value each.
abbrev open_files : Bool → Text → Text → Result ℕ
open_files required file_as file = ok 7

abbrev value : ℕ → Text → Result Text
value gs (b ∷ name) = ok name
value gs [] = failed (sentinel not_exist)

abbrev is_not_found : Error → Bool
is_not_found e = true

abbrev device : External
device = record {
  required = true;
  file = codes "/etc/device";
  file_as = codes "env";
  origin = [];
  remap =
      record { from = codes "xMAC"; to = codes "id"; optional = false }
      ∷ record { from = []; to = codes "id"; optional = true }
      ∷ [];
}

resolve_correct_example :
    ((e : Error) × (open_files true (codes "env") (trim_slash (codes "/etc/device")) ≡ failed e)
      × (resolve open_files value is_not_found device ≡ failed e))
    ⊎ ((gs : ℕ) × (open_files true (codes "env") (trim_slash (codes "/etc/device")) ≡ ok gs)
        × Resolves
            (value gs)
            is_not_found
            device.remap
            []
            (resolve open_files value is_not_found device))
resolve_correct_example = resolve_correct open_files value is_not_found device

abbrev calls : List (Call ℕ)
calls = begins none none ∷ ends [] ∷ begins none (some (sentinel not_exist)) ∷ []
