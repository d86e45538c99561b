-- ===== src/Qos/Priority.antt =====
-- internal/wrphandlers/qos/priority.go: the kinds of priority and their names.
pub mod Names
use xmidt_agent.Base.{
  ℕ, ◌≡◌, refl, Bool, true, false, Option, none, some, map, Text, codes, eq_text, if◌then◌else◌,
  to_lower_byte,
}

pub data PriorityType : Type 0 where
  unknown_type oldest_type newest_type last_type : PriorityType

-- String: a value without a name reads "unknown".
unfoldable pub to_string : PriorityType → Text
to_string unknown_type = codes "unknown"
to_string oldest_type = codes "oldest"
to_string newest_type = codes "newest"
to_string last_type = codes "unknown"

-- the lookup in PriorityTypeUnmarshal
priority_type_unmarshal : Text → Option PriorityType
priority_type_unmarshal s =
    if eq_text s (codes "unknown")
    then some unknown_type
    else if eq_text s (codes "oldest")
    then some oldest_type
    else if eq_text s (codes "newest")
    then some newest_type
    else none

-- UnmarshalText: `none` is the error ErrPriorityTypeInvalid.
unfoldable pub unmarshal_text : Text → Option PriorityType
unfolding priority_type_unmarshal
unmarshal_text b = priority_type_unmarshal (map to_lower_byte b)
