-- ===== src/Heap/Order.antt =====
-- What the sift loops need of the order, and the order of a heap.
use xmidt_agent.Base.{ℕ, ◌<◌, ◌≡◌, Bool, true, false, List, get_or}
use Prim.Native.Nat.{◌-◌, ◌/◌}

-- `less` is the strict part of a total preorder.
pub record IsStrictWeak {A : Type 0} (less : A → A → Bool) : Type 0 where
  pub asym : (x y : A) → less x y ≡ true → less y x ≡ false
  pub negtrans : (x y z : A) → less x y ≡ false → less y z ≡ false → less x z ≡ false

-- No entry comes before its parent. The default `d` is never read.
abbrev pub IsHeap : {A : Type 0} → (A → A → Bool) → A → List A → ℕ → Type 0
IsHeap less d a n = (c : ℕ) → 0 < c → c < n → less (get_or a c d) (get_or a ((c - 1) / 2) d) ≡ false
