-- ===== src/Metadata/Fields.antt =====
-- What the metadata of a message is after DecorateMsg.
use xmidt_agent.Base.{
  ◌≡◌, refl, subst, ◌∙◌, Bool, true, false, ◌||◌, Option, some, none, List, [], ◌∷◌, Text, codes,
  eq_text, eq_text_iff, if◌then◌else◌, arith, Bool-cases, inl, inr,
}
use xmidt_agent.Base.Dict.{Dict, lookup-insert}
use xmidt_agent.Base.Dict
use xmidt_agent.Base.Keys.{HasUniqueKeys, HasUniqueKeys-insert}
use xmidt_agent.Base.Run.{Yields, yields, Yields-weaken, Yields-then}
use xmidt_agent.Wrp.{Message}
use xmidt_agent.Net.{Result, ok, failed}
use xmidt_agent.Wrphandlers.Auth.{join_text}
use xmidt_agent.Metadata.{
  MetadataProvider, firmware_field, hardware_field, manufacturer_field, serial_number_field,
  last_reboot_reason_field, protocol_field, boot_time_field, boot_time_retry_delay_field, set_field,
  interface_used_field, interfaces_available_field, value_of, collect, get_metadata, copy_all,
  decorate_msg,
}

-- What the provider knows of the device, by field; the interfaces only if they can be listed.
abbrev pub facts : MetadataProvider → Result (List Text) → Dict Text
facts c names =
    (firmware_field, c.firmware)
    ∷ (hardware_field, c.hardware)
    ∷ (manufacturer_field, c.manufacturer)
    ∷ (serial_number_field, c.serial_number)
    ∷ (last_reboot_reason_field, c.last_reboot_reason)
    ∷ (protocol_field, c.protocol)
    ∷ (boot_time_field, c.boot_time)
    ∷ (boot_time_retry_delay_field, c.boot_time_retry_delay)
    ∷ (interface_used_field, c.interface_used)
    ∷ (elim names [
      | failed e ↦ []
      | ok ns ↦ (interfaces_available_field, join_text (codes ",") ns) ∷ []
    ])

abbrev pub is_requested : List Text → Text → Bool
is_requested [] k = false
is_requested (f ∷ fs) k = eq_text f k || is_requested fs k

abbrev pub or_else : Option Text → Option Text → Option Text
or_else none old = old
or_else (some v) old = some v

merge_step :
    (b r : Bool) (x old new last : Option Text)
    → last ≡ (if r then or_else x new else new)
    → new ≡ (if b then or_else x old else old)
    → last ≡ (if b || r then or_else x old else old)
merge_step b r none old new last p q = ground (arith, p, q)
merge_step b r (some v) old new last p q = ground (arith, p, q)

merge_copy :
    (r : Bool) (x old last : Option Text)
    → last ≡ (if r then or_else x none else none)
    → or_else last old ≡ (if r then or_else x old else old)
merge_copy r none old last p = ground (arith, p)
merge_copy r (some v) old last p = ground (arith, p)

lookup-copy_all :
    (k : Text) (header metadata : Dict Text)
    → HasUniqueKeys header
    → Dict.lookup k (copy_all header metadata)
      ≡ or_else (Dict.lookup k header) (Dict.lookup k metadata)
unfolding copy_all
lookup-copy_all k [] metadata h = refl
lookup-copy_all k ((j, v) ∷ header) metadata (new, h) =
    lookup-copy_all k header (Dict.insert j v metadata) h
    ∙ ground (arith, lookup-insert j k v metadata, eq_text_iff j k, new)

if_some :
    (b : Bool) (v : Text) {r : Option (Option Text)} {x : Option Text}
    → r ≡ some x
    → (if b then some (some v) else r) ≡ some (if b then some v else x)
if_some true v p = refl
if_some false v p = p

interfaces_lem :
    (f : Text) (names : Option (Result (List Text))) (r : Result (List Text))
    → names ≡ some r
    → (if eq_text interfaces_available_field f
        then (elim names [
          | none ↦ none
          | some (failed e) ↦ some none
          | some (ok ns) ↦ some (some (join_text (codes ",") ns))
        ])
        else some none)
      ≡ some (
          Dict.lookup f (elim r [
            | failed e ↦ []
            | ok ns ↦ (interfaces_available_field, join_text (codes ",") ns) ∷ []
          ]))
interfaces_lem f none r p = cc
interfaces_lem f (some n) (failed e) p = ground (arith, p)
interfaces_lem f (some n) (ok ns) p = ground (arith, p)

module _ (c : MetadataProvider) (names : Result (List Text))
    (known : c.interface_names ≡ some names) where
  value_of-facts : (f : Text) → value_of c f ≡ some (Dict.lookup f (facts c names))
  unfolding value_of
  value_of-facts f =
      let test = λ (field : Text). eq_text field f in
      if_some (test firmware_field) c.firmware (
        if_some (test hardware_field) c.hardware (
          if_some (test manufacturer_field) c.manufacturer (
            if_some (test serial_number_field) c.serial_number (
              if_some (test last_reboot_reason_field) c.last_reboot_reason (
                if_some (test protocol_field) c.protocol (
                  if_some (test boot_time_field) c.boot_time (
                    if_some (test boot_time_retry_delay_field) c.boot_time_retry_delay (
                      if_some (test interface_used_field) c.interface_used
                        (interfaces_lem f c.interface_names names known)))))))))

  -- Setting a field that is asked for.
  lookup-set_field :
      (f k : Text) (header : Dict Text)
      → Dict.lookup k (set_field f (Dict.lookup f (facts c names)) header) ≡ (
          if eq_text f k
          then or_else (Dict.lookup k (facts c names)) (Dict.lookup k header)
          else Dict.lookup k header)
  lookup-set_field f k header = elim (Bool-cases (eq_text f k)) [
    | inl same ↦
        let path = (eq_text_iff f k).0 same in
        rw same (
          subst
            (λ j.
              Dict.lookup k (set_field f (Dict.lookup f (facts c names)) header)
              ≡ or_else (Dict.lookup j (facts c names)) (Dict.lookup k header))
            path (by_value (Dict.lookup f (facts c names)) same))
    | inr other ↦ rw other (unchanged (Dict.lookup f (facts c names)) other)
  ]
    where
      by_value :
          (o : Option Text)
          → eq_text f k ≡ true
          → Dict.lookup k (set_field f o header) ≡ or_else o (Dict.lookup k header)
      by_value none e = refl
      by_value (some v) e = lookup-insert f k v header ∙ rw e

      unchanged :
          (o : Option Text)
          → eq_text f k ≡ false
          → Dict.lookup k (set_field f o header) ≡ Dict.lookup k header
      unchanged none e = refl
      unchanged (some v) e = lookup-insert f k v header ∙ rw e

  HasUniqueKeys-set_field :
      (f : Text) (o : Option Text) (header : Dict Text)
      → HasUniqueKeys header
      → HasUniqueKeys (set_field f o header)
  HasUniqueKeys-set_field f none header h = h
  HasUniqueKeys-set_field f (some v) header h = HasUniqueKeys-insert f v header h

  -- What GetMetadata has collected.
  abbrev Collected : List Text → Dict Text → Dict Text → Type 0
  Collected fields header h =
      HasUniqueKeys h
      × ((k : Text)
          → Dict.lookup k h ≡ (
              if is_requested fields k
              then or_else (Dict.lookup k (facts c names)) (Dict.lookup k header)
              else Dict.lookup k header))

  collect_lem :
      (fields : List Text) (header : Dict Text)
      → HasUniqueKeys header
      → Yields (Collected fields header) (collect c fields header)
  unfolding collect
  collect_lem [] header u = yields (u, λ k. refl)
  collect_lem (f ∷ fs) header u =
      let o = Dict.lookup f (facts c names) in
      rw (value_of-facts f) (
        Yields-weaken (collect_lem fs (set_field f o header) (HasUniqueKeys-set_field f o header u))
          λ h (u', at). (
            u',
            λ k.
                merge_step (eq_text f k) (is_requested fs k) (Dict.lookup k (facts c names)) _ _ _
                  (at k) (lookup-set_field f k header),
          ))

-- DecorateMsg, with a network service, returns the message with nothing changed but its metadata: a
-- field that the provider was asked for and knows has its value there, and every other key has what
-- it had.
pub decorate_msg_correct :
    (c : MetadataProvider) (names : Result (List Text)) (msg : Message)
    → c.interface_names ≡ some names
    → Yields
        (λ r.
          (record r { metadata = msg.metadata } ≡ msg)
          × ((k : Text)
              → Dict.lookup k r.metadata ≡ (
                  if is_requested c.fields k
                  then or_else (Dict.lookup k (facts c names)) (Dict.lookup k msg.metadata)
                  else Dict.lookup k msg.metadata)))
        (decorate_msg c msg)
unfolding decorate_msg get_metadata
decorate_msg_correct c names msg known =
    Yields-then (collect_lem c names known c.fields [] tt) λ header (u, at). yields (
      refl,
      λ k.
          lookup-copy_all k header msg.metadata u
          ∙ merge_copy (is_requested c.fields k) (Dict.lookup k (facts c names)) _ _ (at k),
    )
