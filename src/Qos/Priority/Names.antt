-- ===== src/Qos/Priority/Names.antt =====
-- The names of the kinds of priority can be read back.
use xmidt_agent.Base.{◌≡◌, ◌≢◌, ◌↔◌, some, map, Text, codes, eq_text_iff, to_lower_byte, arith}
use xmidt_agent.Qos.Priority.{
  PriorityType, last_type, to_string, unmarshal_text, priority_type_unmarshal,
}

-- A text is read as a kind if and only if it spells that kind's name, in letters of either case.
pub unmarshal_text_iff :
    (b : Text) (p : PriorityType)
    → (unmarshal_text b ≡ some p) ↔ ((p ≢ last_type) × (map to_lower_byte b ≡ to_string p))
unfolding unmarshal_text to_string priority_type_unmarshal
unmarshal_text_iff b p =
    let s = map to_lower_byte b in
    let u = eq_text_iff s (codes "unknown") in
    let o = eq_text_iff s (codes "oldest") in
    let n = eq_text_iff s (codes "newest") in (ground (arith, u, o, n), ground (arith, u, o, n))
