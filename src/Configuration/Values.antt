-- ===== src/Configuration/Values.antt =====
-- Which remaps are resolved, and what a name stands for after them.
use xmidt_agent.Base.{
  ◌≡◌, ◌⊎◌, inl, inr, refl, ap, ◌∙◌, Bool, true, false, ◌&&◌, Option, some, none, List, [], ◌∷◌,
  Text, eq_text, Bool-cases, if◌then◌else◌,
}
use xmidt_agent.Base.Dict.{Dict, lookup-insert}
use xmidt_agent.Base.Dict
use xmidt_agent.Wrp.{Error, sentinel, invalid_config}
use xmidt_agent.Fs.{Result, ok, failed, Result-cases}
use xmidt_agent.Configuration.{
  Remap, External, is_incomplete, remap_one, remap_all, trim_slash, resolve,
}

module _ (value : Text → Result Text) (is_not_found : Error → Bool) where
  -- What an item gives: a value, nothing, or an error.
  abbrev pub is_fine : Remap → Bool
  is_fine item =
      if is_incomplete item
      then item.optional
      else (elim (value item.from) [ failed e ↦ item.optional && is_not_found e | ok v ↦ true ])

  abbrev pub all_fine : List Remap → Bool
  all_fine [] = true
  all_fine (item ∷ items) = is_fine item && all_fine items

  -- The value that an item gives to a name.
  abbrev pub given : Text → Remap → Option Text
  given k item =
      if is_incomplete item
      then none
      else if eq_text item.to k
      then (elim (value item.from) [ failed e ↦ none | ok v ↦ some v ])
      else none

  -- The last value that the items give to a name, or else the one before.
  abbrev pub last_value : Text → List Remap → Option Text → Option Text
  last_value k [] before = before
  last_value k (item ∷ items) before =
      last_value k items (elim (given k item) [ some v ↦ some v | none ↦ before ])

  abbrev pub Resolves : List Remap → Dict Text → Result (Dict Text) → Type 0
  Resolves items rv r =
      (all_fine items ≡ true)
        × ((rv' : Dict Text) × (r ≡ ok rv')
            × ((k : Text) → Dict.lookup k rv' ≡ last_value k items (Dict.lookup k rv)))
      ⊎ (all_fine items ≡ false) × ((e : Error) × (r ≡ failed e))

  remap_one-cases :
      (item : Remap) (rv : Dict Text)
      → (is_fine item ≡ true)
          × ((rv' : Dict Text) × (remap_one value is_not_found item rv ≡ ok rv')
              × ((k : Text)
                  → Dict.lookup k rv'
                    ≡ (elim (given k item) [ some v ↦ some v | none ↦ Dict.lookup k rv ])))
        ⊎ (is_fine item ≡ false) × ((e : Error) × (remap_one value is_not_found item rv ≡ failed e))
  unfolding remap_one
  remap_one-cases item rv = elim (Bool-cases (is_incomplete item)) [
    | inl p ↦ elim (Bool-cases item.optional) [
      | inl q ↦ inl (rw p q, (rv, rw (remap_one, p, q) refl, λ k. rw p refl))
      | inr q ↦ inr (rw p q, (sentinel invalid_config, rw (remap_one, p, q) refl))
    ]
    | inr p ↦ elim (Result-cases (value item.from)) [
      | inl (e, v) ↦ elim (Bool-cases (item.optional && is_not_found e)) [
        | inl q ↦ inl (
          rw (p, v) q,
          (
            rv,
            rw (remap_one, p, v, q) refl,
            λ k. elim (Bool-cases (eq_text item.to k)) [
              | inl n ↦ rw (p, n, v) refl
              | inr n ↦ rw (p, n) refl
            ],
          ),
        )
        | inr q ↦ inr (rw (p, v) q, (e, rw (remap_one, p, v, q) refl))
      ]
      | inr (t, v) ↦ inl (
        rw (p, v) refl,
        (
          Dict.insert item.to t rv,
          rw (remap_one, p, v) refl,
          λ k. lookup-insert item.to k t rv ∙ (elim (Bool-cases (eq_text item.to k)) [
            | inl n ↦ rw (p, n, v) refl
            | inr n ↦ rw (p, n) refl
          ]),
        ),
      )
    ]
  ]

  -- The remaps are resolved exactly if each of them has both names and the file has its value, or is
  -- optional and lacks a name or its value is not found. A name then stands for the last value that a
  -- remap gives to it.
  remap_all_correct :
      (items : List Remap) (rv : Dict Text)
      → Resolves items rv (remap_all value is_not_found items rv)
  unfolding remap_all
  remap_all_correct [] rv = inl (refl, (rv, refl, λ k. refl))
  remap_all_correct (item ∷ items) rv = elim (remap_one-cases item rv) [
    | inr (bad, (e, q)) ↦ inr (rw bad refl, (e, rw (remap_all, q) refl))
    | inl (good, (rv', q, at)) ↦ elim (remap_all_correct items rv') [
      | inr (bad, (e, r)) ↦ inr (rw (good, bad) refl, (e, rw (remap_all, q) r))
      | inl (fine, (rv'', r, later)) ↦ inl (
        rw (good, fine) refl,
        (rv'', rw (remap_all, q) r, λ k. later k ∙ ap (last_value k items) (at k)),
      )
    ]
  ]

module _ {Gs : Type 0} (open_files : Bool → Text → Text → Result Gs)
    (value : Gs → Text → Result Text) (is_not_found : Error → Bool) where
  abbrev resolved : External → Result (Dict Text)
  resolved = resolve open_files value is_not_found

  -- An external is resolved exactly if its files can be opened and each of its remaps has both names and
  -- the files have its value, or is optional and lacks a name or its value is not found. A name then
  -- stands for the last value that a remap gives to it, and for nothing if none gives one.
  pub resolve_correct :
      (ext : External)
      → ((e : Error) × (open_files ext.required ext.file_as (trim_slash ext.file) ≡ failed e)
          × (resolved ext ≡ failed e))
        ⊎ ((gs : Gs) × (open_files ext.required ext.file_as (trim_slash ext.file) ≡ ok gs)
            × Resolves (value gs) is_not_found ext.remap [] (resolved ext))
  unfolding resolve
  resolve_correct ext =
      elim (Result-cases (open_files ext.required ext.file_as (trim_slash ext.file))) [
        | inl (e, p) ↦ inl (e, p, rw (resolve, p) refl)
        | inr (gs, p) ↦
            inr (gs, p, rw (resolve, p) (remap_all_correct (value gs) is_not_found ext.remap []))
      ]
