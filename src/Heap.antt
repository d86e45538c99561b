-- ===== src/Heap.antt =====
-- Go's container/heap over a slice, as internal/wrphandlers/qos/priority_queue.go uses it through
-- heap.Push and heap.Pop: the sift loops of the standard library, with the order of the queue's
-- Less as the parameter `less`. `none` stands for an index out of range, or for fuel run out.
pub mod Order
pub mod Arrays
pub mod Sift
use xmidt_agent.Base.{
  ℕ, zero, suc, ◌+◌, ◌-◌, ◌*◌, ◌/◌, Bool, true, false, List, Option, none, some, length, get_elem?,
  set, ltb, ◌==◌, if◌then◌else◌, ◌&&◌,
}
use xmidt_agent.Base.Run.{◌>>=◌}

-- Go's (c - 1) / 2 is 0 at c = 0, as here.
abbrev pub parent : ℕ → ℕ
parent c = (c - 1) / 2

module _ {A : Type 0} (less : A → A → Bool) where
  unfoldable pub less_at : List A → ℕ → ℕ → Option Bool
  less_at a i j = do x ← get_elem? a i; y ← get_elem? a j; some (less x y)

  unfoldable pub swap_at : List A → ℕ → ℕ → Option (List A)
  swap_at a i j = do x ← get_elem? a i; y ← get_elem? a j; some (set (set a i y) j x)

  -- heap.up
  unfoldable pub up : ℕ → List A → ℕ → Option (List A)
  up zero a j = none
  up (suc f) a j =
      let rise = swap_at a (parent j) j >>= λ b. up f b (parent j) in
      let step = less_at a j (parent j) >>= λ below. if below then rise else some a in
      if parent j == j then some a else step

  -- the child that heap.down compares with its parent
  unfoldable pub smaller_child : List A → ℕ → ℕ → Option ℕ
  smaller_child a i n =
      let right = 2 * i + 2 in
      let left = 2 * i + 1 in
      let compared = less_at a right left >>= λ b. some (if b then right else left) in
      if ltb right n then compared else some left

  -- heap.down
  unfoldable pub down : ℕ → List A → ℕ → ℕ → Option (List A)
  down zero a i n = none
  down (suc f) a i n =
      let step : Option (List A) = do
        child ← smaller_child a i n
        below ← less_at a child i
        let sink = swap_at a i child >>= λ b. down f b child n
        if below then sink else some a
      in if ltb (2 * i + 1) n then step else some a
