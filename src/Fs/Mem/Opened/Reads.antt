-- ===== src/Fs/Mem/Opened/Reads.antt =====
-- What is read from an opened file, piece by piece.
use xmidt_agent.Base.{
  ◌≡◌, eq_text_refl, Option-cases, Option, some, none, ap, ◌≢◌, inl, inr, refl, sym, ap, ◌∙◌, ℕ,
  zero, suc, ◌+◌, true, false, Option, some, none, List, [], ◌∷◌, ◌++◌, Text, length, leb, take,
  drop, drop-drop, drop-length-take, take-take, drop-all, drop-nil_length, arith, Bool-cases,
  leb→le,
}
use xmidt_agent.Base.Dict.{lookup-insert}
use xmidt_agent.Base.Dict
use xmidt_agent.Wrp.{Error, sentinel, closed_pipe, eof}
use xmidt_agent.Fs.{Result, ok, failed}
use xmidt_agent.Fs.Mem.{
  MemFs, allows, writable, default_mode, write_file, has_perms, mode_perms, write_file,
}
use xmidt_agent.Fs.Mem.Opened.{OpenFile, open_whole, close, open_whole, read}

-- What reads into buffers of these lengths give together, and the file after them.
abbrev pub got : Result Text → Text
got (ok t) = t
got (failed e) = []

abbrev pub read_each : List ℕ → OpenFile → Text × OpenFile
read_each [] f = ([], f)
read_each (n ∷ ns) f = let (r, f') = read n f in let (t, end) = read_each ns f' in (got r ++ t, end)

abbrev pub total : List ℕ → ℕ
total [] = 0
total (n ∷ ns) = n + total ns

-- What a read gives of what is left: an error exactly if nothing is.
abbrev pub next : ℕ → Text → Result Text
next n [] = failed (sentinel eof)
next n (x ∷ t) = ok (take n (x ∷ t))

-- It is a file that was not closed.
pub record IsReadable (f : OpenFile) : Type 0 where
  pub file : f.is_dir ≡ false
  pub unclosed : f.closed ≡ false

abbrev pub rest : OpenFile → Text
rest f = drop f.offset f.bytes

next-ok : (n : ℕ) (t : Text) → t ≢ [] → next n t ≡ ok (take n t)
next-ok n [] h = absurd (h refl)
next-ok n (x ∷ t) h = refl

got-next : (n : ℕ) (t : Text) → got (next n t) ≡ take n t
got-next zero [] = refl
got-next (suc n) [] = refl
got-next n (x ∷ t) = refl

drop-nil : (n : ℕ) → drop {A = ℕ} n [] ≡ []
drop-nil zero = refl
drop-nil (suc n) = refl

read_lem :
    (n : ℕ) (f : OpenFile)
    → IsReadable f
    → ((read n f).0 ≡ next n (rest f))
      × IsReadable (read n f).1
      × (rest (read n f).1 ≡ drop n (rest f))
unfolding read
read_lem n f h = elim (Bool-cases (leb (length f.bytes) f.offset)) [
  | inl past ↦
      let none_left = drop-all f.offset f.bytes (leb→le (length f.bytes) f.offset past) in
      rw (read, h.file, h.unclosed, past)
        (
          rw none_left refl,
          record { file = refl; unclosed = refl },
          rw none_left (sym (drop-nil n)),
        )
  | inr before ↦
      let left =
        λ (p : rest f ≡ []). absurd (ground (arith, before, drop-nil_length f.offset f.bytes p)) in
      rw (read, h.file, h.unclosed, before)
        (
          sym (next-ok n (rest f) left),
          record { file = refl; unclosed = refl },
          drop-drop f.offset (length (take n (rest f))) f.bytes ∙ drop-length-take n (rest f),
        )
]

read_each_lem :
    (ns : List ℕ) (f : OpenFile)
    → IsReadable f
    → ((read_each ns f).0 ≡ take (total ns) (rest f))
      × IsReadable (read_each ns f).1
      × (rest (read_each ns f).1 ≡ drop (total ns) (rest f))
read_each_lem [] f h = (refl, h, refl)
read_each_lem (n ∷ ns) f h =
    let (r, h', left) = read_lem n f h in
    let (t, h'', left') = read_each_lem ns (read n f).1 h' in
    (
      rw (r, t, left, got-next n (rest f)) (take-take n (total ns) (rest f)),
      h'',
      left' ∙ rw left (sym (drop-drop n (total ns) (rest f))),
    )

read_closed :
    (n : ℕ) (f : OpenFile)
    → f.is_dir ≡ false
    → (read n (close f).1).0 ≡ failed (sentinel closed_pipe)
unfolding read close
read_closed n f h = rw (read, close, h) refl

abbrev written : Text → Text → ℕ → MemFs → MemFs
written name contents perm fs = record fs {
  files = Dict.insert name (record { bytes = contents; perm = perm }) fs.files;
}

module _ (dir_of : Text → Text) (name contents : Text) (perm : ℕ) (fs : MemFs) where
  abbrev fs' : MemFs
  fs' = written name contents perm fs

  found : Dict.lookup name fs'.files ≡ some (record { bytes = contents; perm = perm })
  found = lookup-insert name name _ fs.files ∙ rw (eq_text_refl name) refl

  mode_reopened :
      (dir : ℕ)
      → allows perm writable ≡ true
      → mode_perms dir name writable fs ≡ none
      → mode_perms dir name writable fs' ≡ none
  unfolding mode_perms
  mode_reopened dir g h = rw (mode_perms, found, g) (ground (arith, h))

  reopened :
      allows perm writable ≡ true
      → has_perms dir_of name writable fs ≡ none
      → has_perms dir_of name writable fs' ≡ none
  unfolding has_perms
  reopened g h = elim (Option-cases (Dict.lookup (dir_of name) fs.dirs)) [
    | inl missing ↦ ground (arith, h, missing, mode_reopened default_mode g)
    | inr (dir, there) ↦ ground (arith, h, there, mode_reopened dir g)
  ]

  write_result : (s : MemFs) → Path (Option Error × MemFs) (none, s) (none, fs') → s ≡ fs'
  write_result s p = ap (λ (r : Option Error × MemFs). r.1) p

  written_fine :
      has_perms dir_of name writable fs ≡ none
      → write_file dir_of name contents perm fs ≡ (none, fs')
  unfolding write_file
  written_fine fine = rw (write_file, fine) refl

  write_file_cases :
      (s : MemFs)
      → write_file dir_of name contents perm fs ≡ (none, s)
      → (has_perms dir_of name writable fs ≡ none) × (s ≡ fs')
  unfolding write_file
  write_file_cases s h = elim (Option-cases (has_perms dir_of name writable fs)) [
    | inl fine ↦ (fine, write_result s (sym h ∙ written_fine fine))
    | inr (e, bad) ↦ absurd (ground (arith, h, bad))
  ]

  abbrev opened : OpenFile
  opened = record {
    bytes = contents;
    perm = perm;
    name = name;
    is_dir = false;
    offset = 0;
    closed = false;
  }

  open_written :
      allows perm writable ≡ true
      → has_perms dir_of name writable fs ≡ none
      → open_whole dir_of name fs' ≡ ok opened
  unfolding open_whole
  open_written g h = rw (open_whole, reopened g h, found) refl

  -- A file that was written with a mode that lets it be opened is opened. Reads into buffers of any
  -- lengths then give together as much of the contents as these lengths allow, the next read gives what
  -- follows, or EOF exactly if nothing does, and a read after Close is refused.
  pub read_back :
      (ns : List ℕ) (n : ℕ) (s : MemFs)
      → write_file dir_of name contents perm fs ≡ (none, s)
      → allows perm writable ≡ true
      → (f : OpenFile) × (open_whole dir_of name s ≡ ok f)
        × (let (t, end) = read_each ns f in
            (t ≡ take (total ns) contents)
            × ((read n end).0 ≡ next n (drop (total ns) contents))
            × ((read n (close end).1).0 ≡ failed (sentinel closed_pipe)))
  unfolding close
  read_back ns n s h g =
      let (fine, same) = write_file_cases s h in
      let (t, readable, left) = read_each_lem ns opened (record { file = refl; unclosed = refl }) in
      (
        opened,
        rw same (open_written g fine),
        (
          t,
          (read_lem n (read_each ns opened).1 readable).0 ∙ ap (next n) left,
          read_closed n (read_each ns opened).1 readable.file,
        ),
      )
