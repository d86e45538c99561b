-- ===== src/Configuration.antt =====
-- internal/configuration/external.go: values of external configuration files, under the names that the
-- agent's own configuration uses for them.
-- Parameters: `Gs` for the configurations of goschtalt, with `open_files` for New on the files of a root
-- (the first argument is whether the file must be there) and `value` for Unmarshal into a text, `O` for
-- its ExpandOption, and `is_not_found` for errors.Is with meta.ErrNotFound. A root that is not nil is
-- used in tests alone.
pub mod Values
use xmidt_agent.Base.{
  Bool, true, false, ◌||◌, ◌&&◌, Option, some, none, List, [], ◌∷◌, ◌++◌, Text, codes, is_empty,
  has_prefix, if◌then◌else◌,
}
use xmidt_agent.Base.Dict.{Dict}
use xmidt_agent.Base.Dict
use xmidt_agent.Wrp.{Error, sentinel, invalid_config}
use xmidt_agent.Fs.{Result, ok, failed}

pub record Remap : Type 0 where
  pub from : Text
  pub to : Text
  pub optional : Bool

pub record External : Type 0 where
  pub required : Bool
  pub file : Text
  pub file_as : Text
  pub origin : Text
  pub remap : List Remap

-- `item.From == "" || item.To == ""`
abbrev pub is_incomplete : Remap → Bool
is_incomplete item = is_empty item.from || is_empty item.to

-- the loop of resolve over the remaps, on the map `rv`
module _ (value : Text → Result Text) (is_not_found : Error → Bool) where
  -- what the body does with an item: the map, or the error that is returned
  unfoldable pub remap_one : Remap → Dict Text → Result (Dict Text)
  remap_one item rv =
      if is_incomplete item
      then if item.optional then ok rv else failed (sentinel invalid_config)
      else (elim (value item.from) [
        | failed e ↦ if item.optional && is_not_found e then ok rv else failed e
        | ok v ↦ ok (Dict.insert item.to v rv)
      ])

  unfoldable pub remap_all : List Remap → Dict Text → Result (Dict Text)
  remap_all [] rv = ok rv
  remap_all (item ∷ items) rv = elim (remap_one item rv) [
    | failed e ↦ failed e
    | ok rv' ↦ remap_all items rv'
  ]

-- `strings.TrimPrefix(ext.File, "/")`
abbrev pub trim_slash : Text → Text
trim_slash [] = []
trim_slash (b ∷ s) = if has_prefix (b ∷ s) (codes "/") then s else b ∷ s

module _ {Gs : Type 0} (open_files : Bool → Text → Text → Result Gs)
    (value : Gs → Text → Result Text) (is_not_found : Error → Bool) where
  -- resolve; the expander that it returns is the map that it looks names up in.
  unfoldable pub resolve : External → Result (Dict Text)
  resolve ext = elim (open_files ext.required ext.file_as (trim_slash ext.file)) [
    | failed e ↦ failed e
    | ok gs ↦ remap_all (value gs) is_not_found ext.remap []
  ]

  module _ {O : Type 0} (with_origin : Text → O) where
    abbrev pub origin_of : External → Text
    origin_of ext = if is_empty ext.origin then ext.file else ext.origin

    -- the loop of apply: the expanders with their options, which grow from file to file
    unfoldable pub expansions : List External → List O → Result (List (Dict Text × List O))
    expansions [] opts = ok []
    expansions (ext ∷ exts) opts =
        let opts' = opts ++ with_origin (origin_of ext) ∷ [] in
        let later = expansions exts opts' in
        elim (resolve ext) [
          | failed e ↦ failed e
          | ok rv ↦ elim later [ failed e ↦ failed e | ok rest ↦ ok ((rv, opts') ∷ rest) ]
        ]

    -- Apply and apply, with what Unmarshal of the list of externals gives and `with_all` for gs.With
    unfoldable pub apply :
        (List (Dict Text × List O) → Option Error) → Result (List External) → List O → Option Error
    apply with_all (failed e) opts = some e
    apply with_all (ok exts) opts = elim (expansions exts opts) [
      | failed e ↦ some e
      | ok additional ↦ with_all additional
    ]
