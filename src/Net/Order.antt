-- ===== src/Net/Order.antt =====
-- Which interfaces GetInterfaces returns, and in what order.
use xmidt_agent.Base.{
  ◌≡◌, refl, sym, ◌∙◌, ap, true, false, List, [], ◌∷◌, Perm, map, Text, arith, inl, inr, ◌⊎◌, In,
  Each, All, Bool-cases,
}
use xmidt_agent.Base.Int.{ℤ, pos, negsuc, ltb_ℤ}
use xmidt_agent.Base.Dict.{Dict}
use xmidt_agent.Base.Sort.{
  filter, sort_by, sort_by-perm, sort_by-All, IsSortedBy, sort_by-IsSortedBy,
}
use xmidt_agent.Wrp.{Error}
use xmidt_agent.Net.{
  Interface, AllowedInterface, Result, ok, failed, equal_fold, is_allowed, is_usable, comes_before,
  get_priority, get_interfaces, get_interface_names,
}

ltb_ℤ-asym : (x y : ℤ) → ltb_ℤ x y ≡ true → ltb_ℤ y x ≡ false
ltb_ℤ-asym (pos m) (pos n) h = ground arith
ltb_ℤ-asym (pos m) (negsuc n) h = ground arith
ltb_ℤ-asym (negsuc m) (pos n) h = ground arith
ltb_ℤ-asym (negsuc m) (negsuc n) h = ground arith

ltb_ℤ-negtrans : (x y z : ℤ) → ltb_ℤ x y ≡ false → ltb_ℤ y z ≡ false → ltb_ℤ x z ≡ false
ltb_ℤ-negtrans x y z h k = ground arith

-- The map has the entry `v` under a key that is the name but for upper and lower case.
abbrev pub HasEntry : Dict AllowedInterface → Text → AllowedInterface → Type 0
HasEntry allowed name v = (k : Text) × In (k, v) allowed × (equal_fold name k ≡ true)

-- A name has one entry, so that it does not matter in what order the map is gone through.
abbrev pub IsUnambiguous : Dict AllowedInterface → Type 0
IsUnambiguous allowed =
    (name : Text) (v w : AllowedInterface)
    → HasEntry allowed name v
    → HasEntry allowed name w
    → v ≡ w

-- The interface is running, and has an entry that is enabled.
abbrev pub MayBeUsed : Dict AllowedInterface → Interface → Type 0
MayBeUsed allowed iface =
    (iface.running ≡ true)
    × ((v : AllowedInterface) × HasEntry allowed iface.name v × (v.enabled ≡ true))

-- The priority of an interface is that of its entry.
abbrev pub HasPriority : Dict AllowedInterface → Interface → ℤ → Type 0
HasPriority allowed iface p =
    (v : AllowedInterface) × HasEntry allowed iface.name v × (v.priority ≡ p)

-- The second list is what is left of the first without those that are not `P`.
pub data Selects {A : Type 0} (P : A → Type 0) : List A → List A → Type 0 where
  ends : Selects P [] []
  keeps : {x : A} {xs ys : List A} → P x → Selects P xs ys → Selects P (x ∷ xs) (x ∷ ys)
  drops : {x : A} {xs ys : List A} → ¬ P x → Selects P xs ys → Selects P (x ∷ xs) ys

-- What the two loops over the map find.
entry-cases :
    (allowed : Dict AllowedInterface) (name : Text)
    → ((v : AllowedInterface) × HasEntry allowed name v
        × (is_allowed allowed name ≡ v.enabled)
        × (get_priority allowed name ≡ v.priority))
      ⊎ (is_allowed allowed name ≡ false) × ((v : AllowedInterface) → ¬ HasEntry allowed name v)
unfolding is_allowed get_priority
entry-cases [] name = inr (refl, λ v (k, h, e). absurd h)
entry-cases ((k, v) ∷ allowed) name = elim (Bool-cases (equal_fold name k)) [
  | inl same ↦ inl (v, (k, inl refl, same), rw same refl, rw same refl)
  | inr apart ↦ elim (entry-cases allowed name) [
    | inl (w, (j, h, e), p, q) ↦ inl (w, (j, inr h, e), rw apart p, rw apart q)
    | inr (p, missing) ↦ inr (
      rw apart p,
      λ w (j, h, e). elim h [
        | inl first ↦ absurd (cc (sym apart))
        | inr later ↦ missing w (j, later, e)
      ],
    )
  ]
]

module _ (allowed : Dict AllowedInterface) (one : IsUnambiguous allowed) where
  used : (iface : Interface) → is_usable allowed iface ≡ true → MayBeUsed allowed iface
  used iface h = elim (entry-cases allowed iface.name) [
    | inl (v, e, p, q) ↦ (ground (arith, h), (v, e, ground (arith, h, p)))
    | inr (p, missing) ↦ ground (arith, h, p)
  ]

  unused : (iface : Interface) → is_usable allowed iface ≡ false → ¬ MayBeUsed allowed iface
  unused iface h (running, (w, f, on)) = elim (entry-cases allowed iface.name) [
    | inl (v, e, p, q) ↦
        let on' : v.enabled ≡ true =
          ap (λ (x : AllowedInterface). x.enabled) (one iface.name v w e f) ∙ on in
        ground (arith, h, running, p, on')
    | inr (p, missing) ↦ missing w f
  ]

  filter-Selects :
      (ifaces : List Interface)
      → Selects (MayBeUsed allowed) ifaces (filter (is_usable allowed) ifaces)
        × All (MayBeUsed allowed) (filter (is_usable allowed) ifaces)
  filter-Selects [] = (ends, tt)
  filter-Selects (x ∷ xs) =
      let (rest, all) = filter-Selects xs in
      elim (Bool-cases (is_usable allowed x)) [
        | inl h ↦ rw h (keeps (used x h) rest, (used x h, all))
        | inr h ↦ rw h (drops (unused x h) rest, all)
      ]

  priority-entry :
      (iface : Interface)
      → MayBeUsed allowed iface
      → HasPriority allowed iface (get_priority allowed iface.name)
  priority-entry iface (_, (w, f, _)) = elim (entry-cases allowed iface.name) [
    | inl (v, e, p, q) ↦ (v, e, sym q)
    | inr (p, missing) ↦ absurd (missing w f)
  ]

  abbrev priorities : List Interface → List ℤ
  priorities = map (λ (i : Interface). get_priority allowed i.name)

  priorities-Each :
      (ifaces : List Interface)
      → All (MayBeUsed allowed) ifaces
      → Each (HasPriority allowed) ifaces (priorities ifaces)
  priorities-Each [] h = tt
  priorities-Each (x ∷ xs) (p, h) = (priority-entry x p, priorities-Each xs h)

  priorities-All :
      (x : Interface) (ifaces : List Interface)
      → All (λ y. comes_before allowed y x ≡ false) ifaces
      → All (λ p. ltb_ℤ p (get_priority allowed x.name) ≡ false) (priorities ifaces)
  priorities-All x [] h = tt
  priorities-All x (y ∷ ys) (p, h) = (p, priorities-All x ys h)

  priorities-IsSortedBy :
      (ifaces : List Interface)
      → IsSortedBy (comes_before allowed) ifaces
      → IsSortedBy ltb_ℤ (priorities ifaces)
  priorities-IsSortedBy [] h = tt
  priorities-IsSortedBy (x ∷ xs) (p, h) = (priorities-All x xs p, priorities-IsSortedBy xs h)

-- The names are those of the interfaces.
abbrev pub NamedBy : Result (List Text) → List Interface → Type 0
NamedBy names ifaces = names ≡ ok (map (λ (i : Interface). i.name) ifaces)

-- `sorted` are the interfaces of `all` that may be used, each as often as there, in an order in which
-- none of a lower priority number stands after one of a higher.
abbrev pub IsInUse : Dict AllowedInterface → List Interface → List Interface → Type 0
IsInUse allowed all sorted =
    ((kept : List Interface) × Selects (MayBeUsed allowed) all kept × Perm sorted kept)
    × ((ps : List ℤ) × Each (HasPriority allowed) sorted ps × IsSortedBy ltb_ℤ ps)

-- Where a name has at most one entry in the map: if the system's interfaces cannot be listed, both
-- functions return the error. Otherwise they return the interfaces that are running and have an
-- enabled entry, each as often as the system lists it and no other, or their names; and none stands
-- after one whose entry has a higher priority number.
pub get_interfaces_correct :
    (allowed : Dict AllowedInterface) (interfaces : Result (List Interface))
    → IsUnambiguous allowed
    → ((e : Error) × (interfaces ≡ failed e)
        × (get_interfaces allowed interfaces ≡ failed e)
        × (get_interface_names allowed interfaces ≡ failed e))
      ⊎ ((all : List Interface) × (sorted : List Interface) × (interfaces ≡ ok all)
          × (get_interfaces allowed interfaces ≡ ok sorted)
          × NamedBy (get_interface_names allowed interfaces) sorted
          × IsInUse allowed all sorted)
unfolding get_interfaces get_interface_names
get_interfaces_correct allowed (failed e) one = inl (e, refl, refl, refl)
get_interfaces_correct allowed (ok all) one =
    let less = comes_before allowed in
    let kept = filter (is_usable allowed) all in
    let (selected, usable) = filter-Selects allowed one all in
    let ordered =
      sort_by-IsSortedBy less
        (λ x y. ltb_ℤ-asym (get_priority allowed x.name) (get_priority allowed y.name))
        (λ x y z.
          ltb_ℤ-negtrans (get_priority allowed x.name) (get_priority allowed y.name)
            (get_priority allowed z.name))
        kept in
    inr (
      all,
      sort_by less kept,
      refl,
      refl,
      refl,
      (
        (kept, selected, sort_by-perm less kept),
        (
          priorities allowed one (sort_by less kept),
          priorities-Each allowed one _ (sort_by-All less (MayBeUsed allowed) kept usable),
          priorities-IsSortedBy allowed one (sort_by less kept) ordered,
        ),
      ),
    )
