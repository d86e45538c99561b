-- ===== src/Net.antt =====
-- internal/net/network_service.go: the network interfaces that may be used, in order of priority.
-- `Flags` of net.Interface is read for its running bit alone. The map of allowed interfaces is a list
-- in the order in which Go's range goes through it. Go may take another order in each call of isAllowed
-- and getPriority; the model takes one for all of them, which is the same thing unless a name has
-- several entries under EqualFold that say different things. `interfaces` is what NetworkWrapper.Interfaces returns.
pub mod Order
use xmidt_agent.Base.{
  ℕ, Bool, true, false, ◌&&◌, Option, some, none, List, [], ◌∷◌, map, Text, eq_text, to_lower_byte,
  ltb, if◌then◌else◌,
}
use xmidt_agent.Base.Int.{ℤ, pos, ltb_ℤ}
use xmidt_agent.Base.Dict.{Dict}
use xmidt_agent.Base.Sort.{filter, sort_by}
use xmidt_agent.Wrp.{Error}

pub record Interface : Type 0 where
  pub name : Text
  pub running : Bool

pub record AllowedInterface : Type 0 where
  pub priority : ℤ
  pub enabled : Bool

pub data Result (A : Type 0) : Type 0 where
  ok : A → Result A
  failed : Error → Result A

-- strings.EqualFold on ASCII text
abbrev pub equal_fold : Text → Text → Bool
equal_fold s t = eq_text (map to_lower_byte s) (map to_lower_byte t)

abbrev pub not_found_priority : ℤ
not_found_priority = pos 100

-- isAllowed
unfoldable pub is_allowed : Dict AllowedInterface → Text → Bool
is_allowed [] name = false
is_allowed ((k, v) ∷ allowed) name =
    let rest = is_allowed allowed name in if equal_fold name k then v.enabled else rest

-- getPriority
unfoldable pub get_priority : Dict AllowedInterface → Text → ℤ
get_priority [] name = not_found_priority
get_priority ((k, v) ∷ allowed) name =
    let rest = get_priority allowed name in if equal_fold name k then v.priority else rest

-- the condition of the loop in GetInterfaces
abbrev pub is_usable : Dict AllowedInterface → Interface → Bool
is_usable allowed iface = iface.running && is_allowed allowed iface.name

-- the comparison of sort.Slice
abbrev pub comes_before : Dict AllowedInterface → Interface → Interface → Bool
comes_before allowed i j = ltb_ℤ (get_priority allowed i.name) (get_priority allowed j.name)

-- GetInterfaces
unfoldable pub get_interfaces :
    Dict AllowedInterface → Result (List Interface) → Result (List Interface)
get_interfaces allowed (failed e) = failed e
get_interfaces allowed (ok ifaces) =
    ok (sort_by (comes_before allowed) (filter (is_usable allowed) ifaces))

-- GetInterfaceNames
unfoldable pub get_interface_names :
    Dict AllowedInterface → Result (List Interface) → Result (List Text)
get_interface_names allowed interfaces = elim (get_interfaces allowed interfaces) [
  | failed e ↦ failed e
  | ok ifaces ↦ ok (map (λ (i : Interface). i.name) ifaces)
]
