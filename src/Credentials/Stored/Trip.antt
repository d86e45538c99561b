-- ===== src/Credentials/Stored/Trip.antt =====
-- store and load on the file system in memory: a token that was stored is loaded again.
use xmidt_agent.Base.{
  ◌≡◌, refl, sym, ap, subst, ◌∙◌, inl, inr, Bool, Option, some, none, ℕ, [], ◌∷◌, ◌++◌, codes, Text,
  trim_space, arith,
}
use xmidt_agent.Base.Dict
use xmidt_agent.Wrp.{Error}
use xmidt_agent.Fs.{
  Result, ok, operate, sum_line, sha_sum_name, write_file_with_sha256, read_file_with_sha256,
}
use xmidt_agent.Fs.Mem.{MemFs, mem, has_perms, readable}
use xmidt_agent.Fs.Mem.Paths.{with_path-files}
use xmidt_agent.Fs.Checksum.{
  Result-cases, Written, written, read_checked, read_stored, trim-newline,
}
use xmidt_agent.Credentials.{Token}
use xmidt_agent.Credentials.Stored.{Storage, make_path, store, load}

-- What returns nil in two steps returned nil in the first.
first_ok :
    {S : Type 0} (r : Option Error × S) (k : S → Option Error × S) (s' : S)
    → elim r.0 [ some e ↦ (some e, r.1) | none ↦ k r.1 ] ≡ (none, s')
    → k r.1 ≡ (none, s')
first_ok (some e, s) k s' h = ground (arith, h)
first_ok (none, s) k s' h = h

last_ok :
    {S : Type 0} (r : Option Error × S) (s' : S)
    → ◌≡◌ {A = Option Error × S}
        (elim r.0 [ some e ↦ (some e, r.1) | none ↦ (none, r.1) ])
        (none, s')
    → r ≡ (none, s')
last_ok (some e, s) s' h = ground (arith, h)
last_ok (none, s) s' h = h

operate_two :
    {S : Type 0} (f g : S → Option Error × S) (s s' : S)
    → operate (some f ∷ some g ∷ []) s ≡ (none, s')
    → g (f s).1 ≡ (none, s')
unfolding operate
operate_two f g s s' h =
    last_ok (g (f s).1) s' (first_ok (f s) (λ s1. operate (some g ∷ []) s1) s' h)

stored :
    {S : Type 0} (encode : Token → Result Text) (st : Storage S) (t : Token) (s s' : S)
    → store encode (some st) t s ≡ (none, s')
    → (buf : Text) × (encode t ≡ ok buf)
      × (write_file_with_sha256 st.fs st.sum st.base st.filename buf st.perm (make_path st s).1
          ≡ (none, s'))
unfolding store
stored encode st t s s' h = elim (Result-cases (encode t)) [
  | inl (e, p) ↦ ground (arith, rw (store, p) at h)
  | inr (buf, p) ↦ (
    buf,
    p,
    operate_two (make_path st) (write_file_with_sha256 st.fs st.sum st.base st.filename buf st.perm)
        s s' (rw (store, p) at h),
  )
]

load_read :
    {S : Type 0} (decode : Text → Result Token) (st : Storage S) (buf : Text) (t : Token) (s s' : S)
    → make_path st s ≡ (none, s')
    → read_file_with_sha256 st.fs st.sum st.base st.filename s' ≡ ok buf
    → decode buf ≡ ok t
    → load decode (some st) s ≡ (ok (some t), s')
unfolding load
load_read decode st buf t s s' made read decoded =
    rw (load, ap (λ r. r.0) made, ap (λ r. r.1) made, read, decoded) refl

module _ (dir_of base sum : Text → Text) (join_path : Text → Text → Text) (is_abs : Text → Bool)
    (name : Text) (perm : ℕ) where
  abbrev pub in_memory : Storage MemFs
  in_memory = record {
    fs = mem dir_of;
    filename = name;
    perm = perm;
    join_path = join_path;
    is_abs = is_abs;
    dir_of = dir_of;
    base = base;
    sum = sum;
  }

  -- On the file system in memory, if store has stored a token and returned nil, then load returns this
  -- token, if decoding undoes encoding, the directories can still be opened, both files may be read,
  -- and no checksum line has space around it.
  pub store-load :
      (encode : Token → Result Text) (decode : Text → Result Token) (t : Token) (s s' s'' : MemFs)
      → ((buf : Text) → encode t ≡ ok buf → decode buf ≡ ok t)
      → ((contents : Text)
          → trim_space (sum_line sum base name contents) ≡ sum_line sum base name contents)
      → store encode (some in_memory) t s ≡ (none, s')
      → make_path in_memory s' ≡ (none, s'')
      → has_perms dir_of name readable s'' ≡ none
      → has_perms dir_of (sha_sum_name name) readable s'' ≡ none
      → load decode (some in_memory) s' ≡ (ok (some t), s'')
  store-load encode decode t s s' s'' inverse plain done made first second =
      let (buf, encoded, wrote) = stored encode in_memory t s s' done in
      let (one, two) =
        subst (Written sum base name buf perm) wrote
          (written dir_of sum base name buf perm (make_path in_memory s).1) refl in
      let same : s''.files ≡ s'.files =
        sym (ap (λ (r : Option Error × MemFs). r.1.files) made)
        ∙ with_path-files dir_of join_path is_abs name perm s' in
      load_read decode in_memory buf t s' s'' made
        ((read_checked (mem dir_of) sum base name buf s'').1 (
          read_stored dir_of name buf _ s'' first (ap (Dict.lookup name) same ∙ one),
          sum_line sum base name buf ++ codes "\n",
          read_stored dir_of (sha_sum_name name) buf _ s'' second
              (ap (Dict.lookup (sha_sum_name name)) same ∙ two),
          sym (trim-newline (sum_line sum base name buf) ∙ plain buf),
        ))
        (inverse buf encoded)
