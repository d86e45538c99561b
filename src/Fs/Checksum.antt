-- ===== src/Fs/Checksum.antt =====
-- Files with a checksum: what is written is read back, and what is read has its checksum.
use mathlib.Core.List.{reverse, reverse-append}
use xmidt_agent.Base.{
  ◌<◌, ◌≡◌, ◌↔◌, refl, sym, ap, subst, ◌⊎◌, ◌∙◌, false, Option, some, none, ℕ, [], ◌∷◌, ◌++◌, Text,
  codes, eq_text, eq_text_iff, trim_space, trim_left, is_space, arith, Bool-cases, Option-cases,
  eq_text_refl, inl, inr, length, length-append,
}
use xmidt_agent.Base.Dict.{lookup-insert}
use xmidt_agent.Base.Dict
use xmidt_agent.Wrp.{Error}
use xmidt_agent.Fs.{
  FileSystem, Result, ok, failed, sha_sum_name, sum_line, write_file_with_sha256,
  read_file_with_sha256,
}
use xmidt_agent.Fs.Mem.{MemFs, File, readable, writable, has_perms, read_file, write_file, mem}

pub Result-cases :
    {A : Type 0} (r : Result A) → ((e : Error) × (r ≡ failed e)) ⊎ ((a : A) × (r ≡ ok a))
Result-cases (failed e) = inl (e, refl)
Result-cases (ok a) = inr (a, refl)

-- The contents are read exactly if the file has them and the other file, without the space around it,
-- is their checksum line.
pub read_checked :
    {S : Type 0} (fs : FileSystem S) (sum base : Text → Text) (name contents : Text) (s : S)
    → read_file_with_sha256 fs sum base name s ≡ ok contents
      ↔ (fs.read_file name s ≡ ok contents)
        × (sha : Text) × (fs.read_file (sha_sum_name name) s ≡ ok sha)
        × (sum_line sum base name contents ≡ trim_space sha)
unfolding read_file_with_sha256
read_checked fs sum base name contents s = elim (Result-cases (fs.read_file name s)) [
  | inl (e, p) ↦ rw p (grind arith)
  | inr (a, p) ↦ rw p (elim (Result-cases (fs.read_file (sha_sum_name name) s)) [
    | inl (e, q) ↦ rw q (grind arith)
    | inr (sha, q) ↦ rw q (grind (arith, eq_text_iff (sum_line sum base name a) (trim_space sha)))
  ])
]

name_apart : (name suffix : Text) → 0 < length suffix → eq_text (name ++ suffix) name ≡ false
name_apart name suffix h = elim (Bool-cases (eq_text (name ++ suffix) name)) [
  | inl same ↦ absurd (
      omega
        (arith, length-append name suffix, ap length ((eq_text_iff (name ++ suffix) name).0 same)))
  | inr apart ↦ apart
]

pub read_stored :
    (dir_of : Text → Text) (name contents : Text) (f : File) (s : MemFs)
    → has_perms dir_of name readable s ≡ none
    → Dict.lookup name s.files ≡ some f
    → read_file dir_of name s ≡ ok f.bytes
unfolding read_file
read_stored dir_of name contents f s fine there = rw (read_file, fine, there)

write_cases :
    (dir_of : Text → Text) (name contents : Text) (perm : ℕ) (s : MemFs)
    → let r = write_file dir_of name contents perm s in
      ((e : Error) × (r ≡ (some e, s)))
      ⊎ (r ≡ (
        none,
        record s { files = Dict.insert name (record { bytes = contents; perm = perm }) s.files },
      ))
unfolding write_file
write_cases dir_of name contents perm s = elim (Option-cases (has_perms dir_of name writable s)) [
  | inl fine ↦ inr (rw (write_file, fine))
  | inr (e, bad) ↦ inl (e, rw (write_file, bad))
]

-- What the files are after a write of both that returns nil.
abbrev pub Written : (Text → Text) → (Text → Text) → Text → Text → ℕ → Option Error × MemFs → Type 0
Written sum base name contents perm (err, s) =
    err ≡ none
    → (Dict.lookup name s.files ≡ some (record { bytes = contents; perm = perm }))
      × (Dict.lookup (sha_sum_name name) s.files
          ≡ some (record { bytes = sum_line sum base name contents ++ codes "\n"; perm = perm }))

-- The write of both, by the result of the first.
write_both :
    (dir_of sum base : Text → Text) (name contents : Text) (perm : ℕ) (s : MemFs)
    (r : Option Error × MemFs)
    → write_file dir_of name contents perm s ≡ r
    → write_file_with_sha256 (mem dir_of) sum base name contents perm s ≡ elim r.0 [
      | some e ↦ (some e, r.1)
      | none ↦
          write_file dir_of
            (sha_sum_name name)
            (sum_line sum base name contents ++ codes "\n")
            perm
            r.1
    ]
unfolding write_file_with_sha256
write_both dir_of sum base name contents perm s r p =
    ap
      (λ (r : Option Error × MemFs). elim r.0 [
        | some e ↦ (some e, r.1)
        | none ↦
            write_file dir_of (sha_sum_name name) (sum_line sum base name contents ++ codes "\n")
              perm r.1
      ])
      p

pub written :
    (dir_of sum base : Text → Text) (name contents : Text) (perm : ℕ) (s : MemFs)
    → Written sum base name contents perm
        (write_file_with_sha256 (mem dir_of) sum base name contents perm s)
written dir_of sum base name contents perm s =
    let P = Written sum base name contents perm in
    let f : File = record { bytes = contents; perm = perm } in
    let line = sum_line sum base name contents ++ codes "\n" in
    let g : File = record { bytes = line; perm = perm } in
    let s1 : MemFs = record s { files = Dict.insert name f s.files } in
    elim (write_cases dir_of name contents perm s) [
      | inl (e, p) ↦
          subst P (sym (write_both dir_of sum base name contents perm s (some e, s) p))
            (λ h. ground (arith, h))
      | inr p ↦
          subst P (sym (write_both dir_of sum base name contents perm s (none, s1) p))
            (elim (write_cases dir_of (sha_sum_name name) line perm s1) [
              | inl (e, q) ↦ subst P (sym q) (λ h. ground (arith, h))
              | inr q ↦ subst P (sym q) (λ _. (
                lookup-insert (sha_sum_name name) name g s1.files
                    ∙ rw (name_apart name (codes ".sha256") (omega arith))
                        (lookup-insert name name f s.files ∙ rw (eq_text_refl name)),
                lookup-insert (sha_sum_name name) (sha_sum_name name) g s1.files
                    ∙ rw (eq_text_refl (sha_sum_name name)),
              ))
            ])
    ]

trim_left-newline :
    (t : Text)
    → (trim_left t ≡ []) × (trim_left (t ++ codes "\n") ≡ [])
      ⊎ (trim_left (t ++ codes "\n") ≡ trim_left t ++ codes "\n")
trim_left-newline [] = inl (refl, refl)
trim_left-newline (b ∷ t) = elim (Bool-cases (is_space b)) [
  | inl e ↦ rw e (trim_left-newline t)
  | inr e ↦ rw e (inr refl)
]

pub trim-newline : (t : Text) → trim_space (t ++ codes "\n") ≡ trim_space t
trim-newline t = elim (trim_left-newline t) [
  | inl (e, e') ↦ rw (e, e')
  | inr e ↦ rw e (ap (λ r. reverse (trim_left r)) (reverse-append (trim_left t) (codes "\n")))
]

-- On the file system in memory, what is written with its checksum is read back, when the write
-- returns nil, both files may then be read, and the checksum line has no space around it.
pub checksum_round_trip :
    (dir_of sum base : Text → Text) (name contents : Text) (perm : ℕ) (s s' : MemFs)
    → write_file_with_sha256 (mem dir_of) sum base name contents perm s ≡ (none, s')
    → trim_space (sum_line sum base name contents) ≡ sum_line sum base name contents
    → has_perms dir_of name readable s' ≡ none
    → has_perms dir_of (sha_sum_name name) readable s' ≡ none
    → read_file_with_sha256 (mem dir_of) sum base name s' ≡ ok contents
checksum_round_trip dir_of sum base name contents perm s s' done plain first second =
    let (one, two) =
      subst (Written sum base name contents perm) done
        (written dir_of sum base name contents perm s) refl in
    (read_checked (mem dir_of) sum base name contents s').1 (
      read_stored dir_of name contents _ s' first one,
      sum_line sum base name contents ++ codes "\n",
      read_stored dir_of (sha_sum_name name) contents _ s' second two,
      sym (trim-newline (sum_line sum base name contents) ∙ plain),
    )
