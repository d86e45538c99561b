-- ===== src/Fs/Mem/Paths.antt =====
-- WithPath on the file system in memory: the files are not touched.
use xmidt_agent.Base.{
  ◌≡◌, refl, ap, ◌⊎◌, ◌∙◌, inl, inr, Bool, Option, some, ℕ, List, [], ◌∷◌, Text, Option-cases,
}
use xmidt_agent.Wrp.{Error}
use xmidt_agent.Fs.{operate, dir_options, with_dir, with_dirs, with_path}
use xmidt_agent.Fs.Mem.{MemFs, mem}
use xmidt_agent.Fs.Mem.Dirs.{with_dir_ensures}

with_dir-files :
    (dir_of : Text → Text) (path : Text) (perm : ℕ) (s : MemFs)
    → (with_dir (mem dir_of) path perm s).1.files ≡ s.files
with_dir-files dir_of path perm s = elim (with_dir_ensures dir_of path perm s) [
  | inl (e, g, m) ↦ g.files
  | inr (e, p, q) ↦ ap (λ (s : MemFs). s.files) q
]

-- Options that leave the files leave them when they are applied in order.
operate-cons :
    {S : Type 0} (opt : S → Option Error × S) (opts : List (Option (S → Option Error × S))) (s : S)
    → (operate (some opt ∷ opts) s ≡ operate opts (opt s).1)
      ⊎ ((operate (some opt ∷ opts) s).1 ≡ (opt s).1)
unfolding operate
operate-cons opt opts s = elim (Option-cases (opt s).0) [
  | inl p ↦ inl (rw (operate, p) refl)
  | inr (e, p) ↦ inr (rw (operate, p) refl)
]

dir_options-files :
    (dir_of : Text → Text) (join_path : Text → Text → Text) (full : Text) (dirs : List Text)
    (perm : ℕ) (s : MemFs)
    → (operate (dir_options (mem dir_of) join_path full dirs perm) s).1.files ≡ s.files
unfolding operate dir_options
dir_options-files dir_of join_path full [] perm s = refl
dir_options-files dir_of join_path full (dir ∷ dirs) perm s =
    let path = join_path full dir in
    let s' = (with_dir (mem dir_of) path perm s).1 in
    elim (operate-cons (with_dir (mem dir_of) path perm)
      (dir_options (mem dir_of) join_path path dirs perm) s) [
        | inl p ↦
            ap (λ (r : Option Error × MemFs). r.1.files) p
            ∙ dir_options-files dir_of join_path path dirs perm s'
            ∙ with_dir-files dir_of path perm s
        | inr p ↦ ap (λ (s : MemFs). s.files) p ∙ with_dir-files dir_of path perm s
      ]

pub with_path-files :
    (dir_of : Text → Text) (join_path : Text → Text → Text) (is_abs : Text → Bool) (name : Text)
    (perm : ℕ) (s : MemFs)
    → (with_path (mem dir_of) join_path is_abs dir_of name perm s).1.files ≡ s.files
unfolding with_path with_dirs
with_path-files dir_of join_path is_abs name perm s = dir_options-files dir_of join_path [] _ perm s
