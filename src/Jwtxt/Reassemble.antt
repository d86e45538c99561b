-- ===== src/Jwtxt/Reassemble.antt =====
-- The lines of a TXT record give back the text that was cut into them, in whatever order they come.
use xmidt_agent.Base.{
  ℕ, zero, suc, ◌+◌, ◌/◌, ◌%◌, ◌<◌, ◌≤◌, ◌≡◌, inl, inr, refl, ap, ◌∙◌, false, Option, some, none,
  List, [], ◌∷◌, ◌++◌, map, Text, codes, eq_text, eq_text_iff, contains_byte, length, ltb, ◌==◌,
  if◌then◌else◌, All, arith, Bool-cases,
}
use xmidt_agent.Base.Dict.{Dict, lookup-insert}
use xmidt_agent.Base.Dict
use xmidt_agent.Jwtxt.{
  split, add_segments, add_lines, digit, decimal, index_string, concat_from, reassemble,
}

-- A line: its index and its chunk.
abbrev pub Line : Type 0
Line = ℕ × Text

abbrev pub line : Line → Text
line (i, chunk) = index_string i ++ b':' ∷ chunk

decimal-digit : (f i : ℕ) → 0 < f → i < 10 → decimal f i ≡ digit i ∷ []
unfolding decimal
decimal-digit zero i p h = absurd (omega arith)
decimal-digit (suc f) i p h = ground arith

index_string-small : (i : ℕ) → i < 100 → index_string i ≡ digit (i / 10) ∷ digit (i % 10) ∷ []
unfolding index_string decimal
index_string-small i h = elim (Bool-cases (ltb i 10)) [
  | inl one ↦ ground arith
  | inr two ↦ rw two (rw (decimal-digit i (i / 10) (ground arith) (omega arith)))
]

split-whole : (s : Text) → contains_byte b':' s ≡ false → split b':' s ≡ s ∷ []
unfolding split
split-whole [] h = refl
split-whole (b ∷ s) h = ground (arith, split-whole s)

split-line :
    (i : ℕ) (chunk : Text)
    → i < 100
    → contains_byte b':' chunk ≡ false
    → split b':' (line (i, chunk)) ≡ index_string i ∷ chunk ∷ []
unfolding split
split-line i chunk h c = rw (index_string-small i h, split-whole chunk c) (ground arith)

index_string-injective :
    (i j : ℕ) → i < 100 → j < 100 → eq_text (index_string i) (index_string j) ≡ (i == j)
index_string-injective i j h k = rw (index_string-small i h, index_string-small j k) (ground arith)

-- No line of the list has the index.
abbrev IsFresh : ℕ → List Line → Type 0
IsFresh i ls = All (λ l. (l.0 == i) ≡ false) ls

-- Every line has an index of its own, below 100, and a chunk without a colon.
abbrev pub AreLines : List Line → Type 0
AreLines [] = Unit {0}
AreLines (l ∷ ls) = (l.0 < 100) × (contains_byte b':' l.1 ≡ false) × IsFresh l.0 ls × AreLines ls

-- The chunk of the line with the index.
abbrev pub find : ℕ → List Line → Option Text
find i [] = none
find i (l ∷ ls) = if l.0 == i then some l.1 else find i ls

find-IsFresh : (i : ℕ) (ls : List Line) → IsFresh i ls → find i ls ≡ none
find-IsFresh i [] h = refl
find-IsFresh i (l ∷ ls) h = ground (arith, find-IsFresh i ls h.1)

add_line :
    (l : Line) (parts : Dict Text)
    → l.0 < 100
    → contains_byte b':' l.1 ≡ false
    → add_segments (split b':' (line l)) parts ≡ Dict.insert (index_string l.0) l.1 parts
unfolding add_segments
add_line (i, chunk) parts h c = rw (split-line i chunk h c)

-- What reassemble reads at an index after all the lines.
lookup-add_lines :
    (ls : List Line) (parts : Dict Text) (i : ℕ)
    → AreLines ls
    → i < 100
    → Dict.lookup (index_string i) (add_lines (map line ls) parts)
      ≡ elim (find i ls) [ none ↦ Dict.lookup (index_string i) parts | some c ↦ some c ]
unfolding add_lines
lookup-add_lines [] parts i h k = refl
lookup-add_lines (l ∷ ls) parts i (small, plain, fresh, h) k =
    let parts' = Dict.insert (index_string l.0) l.1 parts in
    ap (λ p. Dict.lookup (index_string i) (add_lines (map line ls) p))
      (add_line l parts small plain)
    ∙ lookup-add_lines ls parts' i h k
    ∙ ground (
      arith,
      lookup-insert (index_string l.0) (index_string i) l.1 parts,
      index_string-injective l.0 i small k,
      find-IsFresh i ls,
    )

length-insert :
    (k : Text) (v : Text) (parts : Dict Text)
    → Dict.lookup k parts ≡ none
    → length (Dict.insert k v parts) ≡ suc (length parts)
length-insert k v [] h = refl
length-insert k v ((j, w) ∷ parts) h = ground (arith, eq_text_iff j k, length-insert k v parts)

-- No key of the lines is in the map yet.
abbrev AreNew : List Line → Dict Text → Type 0
AreNew ls parts = All (λ l. Dict.lookup (index_string l.0) parts ≡ none) ls

AreNew-insert :
    (l : Line) (ls : List Line) (parts : Dict Text)
    → l.0 < 100
    → AreLines ls
    → IsFresh l.0 ls
    → AreNew ls parts
    → AreNew ls (Dict.insert (index_string l.0) l.1 parts)
AreNew-insert l [] parts small h fresh new = tt
AreNew-insert l (m ∷ ls) parts small (small', _, _, h) (other, fresh) (new, news) = (
  lookup-insert (index_string l.0) (index_string m.0) l.1 parts
      ∙ ground (arith, index_string-injective l.0 m.0 small small'),
  AreNew-insert l ls parts small h fresh news,
)

length-add_lines :
    (ls : List Line) (parts : Dict Text)
    → AreLines ls
    → AreNew ls parts
    → length (add_lines (map line ls) parts) ≡ length parts + length ls
unfolding add_lines
length-add_lines [] parts h new = omega arith
length-add_lines (l ∷ ls) parts (small, plain, fresh, h) (new, news) =
    let parts' = Dict.insert (index_string l.0) l.1 parts in
    ap (λ p. length (add_lines (map line ls) p)) (add_line l parts small plain)
    ∙ omega (
      arith,
      length-add_lines ls parts' h (AreNew-insert l ls parts small h fresh news),
      length-insert (index_string l.0) l.1 parts new,
    )

abbrev pub concat : List Text → Text
concat [] = []
concat (c ∷ cs) = c ++ concat cs

-- The chunks stand in the map under the indices from `i` on.
abbrev Stand : ℕ → List Text → Dict Text → Type 0
Stand i [] parts = Unit {0}
Stand i (c ∷ cs) parts = (Dict.lookup (index_string i) parts ≡ some c) × Stand (suc i) cs parts

concat_from-Stand :
    (i : ℕ) (cs : List Text) (parts : Dict Text)
    → Stand i cs parts
    → concat_from (length cs) i parts ≡ concat cs
unfolding concat_from
concat_from-Stand i [] parts h = refl
concat_from-Stand i (c ∷ cs) parts (h, hs) =
    rw (concat_from, h) (ap (λ t. c ++ t) (concat_from-Stand (suc i) cs parts hs))

-- The lines hold the chunks, with indices from `i` on.
abbrev pub Hold : ℕ → List Text → List Line → Type 0
Hold i [] ls = Unit {0}
Hold i (c ∷ cs) ls = (find i ls ≡ some c) × Hold (suc i) cs ls

Hold-Stand :
    (i : ℕ) (cs : List Text) (ls : List Line) (parts : Dict Text)
    → AreLines ls
    → i + length cs ≤ 100
    → Hold i cs ls
    → Stand i cs (add_lines (map line ls) parts)
Hold-Stand i [] ls parts h k hold = tt
Hold-Stand i (c ∷ cs) ls parts h k (at, hold) = (
  lookup-add_lines ls parts i h (omega arith) ∙ rw at,
  Hold-Stand (suc i) cs ls parts h (omega arith) hold,
)

IsFresh-AreNew :
    (ls : List Line) → AreLines ls → IsFresh 0 ls → AreNew ls ((codes "00", codes "") ∷ [])
IsFresh-AreNew [] h fresh = tt
IsFresh-AreNew (l ∷ ls) (small, _, _, h) (other, fresh) =
    (rw (index_string-small l.0 small) (ground arith), IsFresh-AreNew ls h fresh)

-- Up to 99 chunks without a colon, numbered from 1, are put together again whatever the order of
-- their lines.
pub reassemble_chunks :
    (chunks : List Text) (ls : List Line)
    → AreLines ls
    → IsFresh 0 ls
    → length ls ≡ length chunks
    → length chunks < 100
    → Hold 1 chunks ls
    → reassemble (map line ls) ≡ concat chunks
unfolding reassemble
reassemble_chunks chunks ls h fresh size few hold =
    let start : Dict Text = (codes "00", codes "") ∷ [] in
    let parts = add_lines (map line ls) start in
    let long : length parts ≡ suc (length chunks) =
      omega (arith, length-add_lines ls start h (IsFresh-AreNew ls h fresh)) in
    let first : Dict.lookup (index_string 0) parts ≡ some (codes "") =
      lookup-add_lines ls start 0 h (omega arith) ∙ rw (find-IsFresh 0 ls fresh) (zeroth) in
    rw long (
      concat_from-Stand 0 (codes "" ∷ chunks) parts
        (first, Hold-Stand 1 chunks ls start h (omega arith) hold))
  where
    zeroth : Dict.lookup (index_string 0) ((codes "00", codes "") ∷ []) ≡ some (codes "")
    zeroth = rw (index_string-small 0 (omega arith))
