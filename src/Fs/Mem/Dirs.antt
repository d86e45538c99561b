-- ===== src/Fs/Mem/Dirs.antt =====
-- WithDir on the file system in memory: when the directory is there after it.
use xmidt_agent.Base.{
  ◌≡◌, refl, sym, subst, ◌⊎◌, ◌∙◌, eq_text_refl, false, Option, some, none, ℕ, Text, codes, eq_text,
  arith, Bool-cases, Option-cases, inl, inr,
}
use xmidt_agent.Base.Dict.{lookup-insert}
use xmidt_agent.Base.Dict
use xmidt_agent.Wrp.{Error, sentinel, not_directory}
use xmidt_agent.Fs.{with_dir, is_not_exist}
use xmidt_agent.Fs.Mem.{MemFs, writable, execute, has_perms, open_file, mkdir, mem}

-- Between the two states at most the directory at `path` is new.
pub record Grown (path : Text) (perm : ℕ) (s s' : MemFs) : Type 0 where
  pub files : s'.files ≡ s.files
  pub errs : s'.errs ≡ s.errs
  pub others : (p : Text) → eq_text path p ≡ false → Dict.lookup p s'.dirs ≡ Dict.lookup p s.dirs
  pub kept : (m : ℕ) → Dict.lookup path s.dirs ≡ some m → Dict.lookup path s'.dirs ≡ some m
  pub made : Dict.lookup path s.dirs ≡ none → Dict.lookup path s'.dirs ≡ some perm

abbrev MkdirPost : Text → ℕ → MemFs → Option Error × MemFs → Type 0
MkdirPost path perm s (none, s') = Grown path perm s s'
MkdirPost path perm s (some e, s') = s' ≡ s

mkdir_made :
    (path : Text) (perm : ℕ) (s : MemFs)
    → Grown path perm s (elim (Dict.lookup path s.dirs) [
      | some dir ↦ s
      | none ↦ record s { dirs = Dict.insert path perm s.dirs }
    ])
mkdir_made path perm s = elim (Option-cases (Dict.lookup path s.dirs)) [
  | inl missing ↦ rw missing (record {
    files = refl;
    errs = refl;
    others = λ p h. lookup-insert path p perm s.dirs ∙ rw h;
    kept = λ m h. ground (arith, h, missing);
    made = λ _. lookup-insert path path perm s.dirs ∙ rw (eq_text_refl path);
  })
  | inr (dir, there) ↦ rw there (record {
    files = refl;
    errs = refl;
    others = λ p h. refl;
    kept = λ m h. h;
    made = λ h. ground (arith, h, there);
  })
]

mkdir_lem :
    (dir_of : Text → Text) (path : Text) (perm : ℕ) (s : MemFs)
    → MkdirPost path perm s (mkdir dir_of path perm s)
unfolding mkdir
mkdir_lem dir_of path perm s = elim (Bool-cases (eq_text path (codes "/"))) [
  | inl root ↦ rw root (mkdir_made path perm s)
  | inr below ↦ rw below (elim (Option-cases (has_perms dir_of path execute s)) [
    | inl fine ↦ rw fine (mkdir_made path perm s)
    | inr (e, bad) ↦ rw bad refl
  ])
]

Grown-refl :
    (path : Text) (perm m : ℕ) (s : MemFs) → Dict.lookup path s.dirs ≡ some m → Grown path perm s s
Grown-refl path perm m s there = record {
  files = refl;
  errs = refl;
  others = λ p h. refl;
  kept = λ m h. h;
  made = λ h. ground (arith, h, there);
}

Grown-there :
    (path : Text) (perm : ℕ) (s s' : MemFs)
    → Grown path perm s s'
    → (m : ℕ) × (Dict.lookup path s'.dirs ≡ some m)
Grown-there path perm s s' g = elim (Option-cases (Dict.lookup path s.dirs)) [
  | inl missing ↦ (perm, g.made missing)
  | inr (m, there) ↦ (m, g.kept m there)
]

-- WithDir gives an error, or calls Mkdir, or finds the directory.
with_dir_cases :
    (dir_of : Text → Text) (path : Text) (perm : ℕ) (s : MemFs)
    → let r = with_dir (mem dir_of) path perm s in
      ((e : Error) × (r ≡ (some e, s)))
      ⊎ (r ≡ mkdir dir_of path perm s)
      ⊎ (r ≡ (none, s)) × ((m : ℕ) × (Dict.lookup path s.dirs ≡ some m))
unfolding with_dir open_file
with_dir_cases dir_of path perm s = elim (Option-cases (has_perms dir_of path writable s)) [
  | inr (e, bad) ↦ elim (Bool-cases (is_not_exist e)) [
    | inl gone ↦ inr (inl (rw (with_dir, open_file, bad, gone)))
    | inr other ↦ inl (e, rw (with_dir, open_file, bad, other))
  ]
  | inl fine ↦ elim (Option-cases (Dict.lookup path s.files)) [
    | inr (f, file) ↦ inl (sentinel not_directory, rw (with_dir, open_file, fine, file))
    | inl no_file ↦ elim (Option-cases (Dict.lookup path s.dirs)) [
      | inr (m, there) ↦ inr (inr (rw (with_dir, open_file, fine, no_file, there), (m, there)))
      | inl missing ↦ inr (inl (rw (with_dir, open_file, fine, no_file, missing)))
    ]
  ]
]

with_dir_lem :
    (dir_of : Text → Text) (path : Text) (perm : ℕ) (s : MemFs)
    → MkdirPost path perm s (with_dir (mem dir_of) path perm s)
with_dir_lem dir_of path perm s = elim (with_dir_cases dir_of path perm s) [
  | inl (e, r) ↦ subst (MkdirPost path perm s) (sym r) refl
  | inr (inl r) ↦ subst (MkdirPost path perm s) (sym r) (mkdir_lem dir_of path perm s)
  | inr (inr (r, (m, there))) ↦
      subst (MkdirPost path perm s) (sym r) (Grown-refl path perm m s there)
]

post_ensures :
    (path : Text) (perm : ℕ) (s : MemFs) (r : Option Error × MemFs)
    → MkdirPost path perm s r
    → (r.0 ≡ none) × Grown path perm s r.1 × ((m : ℕ) × (Dict.lookup path r.1.dirs ≡ some m))
      ⊎ ((e : Error) × (r.0 ≡ some e) × (r.1 ≡ s))
post_ensures path perm s (none, s') g = inl (refl, g, Grown-there path perm s s' g)
post_ensures path perm s (some e, s') g = inr (e, refl, g)

-- Where WithDir returns nil on the file system in memory, the directory is there, it had the mode
-- that it has unless it is new and has the mode `perm`, and nothing else has changed. Where it
-- returns an error, nothing has changed.
pub with_dir_ensures :
    (dir_of : Text → Text) (path : Text) (perm : ℕ) (s : MemFs)
    → let (err, s') = with_dir (mem dir_of) path perm s in
      (err ≡ none) × Grown path perm s s' × ((m : ℕ) × (Dict.lookup path s'.dirs ≡ some m))
      ⊎ ((e : Error) × (err ≡ some e) × (s' ≡ s))
with_dir_ensures dir_of path perm s =
    post_ensures path perm s (with_dir (mem dir_of) path perm s) (with_dir_lem dir_of path perm s)
