-- ===== src/Common/Int.antt =====
-- Go's `int`, where the components only store it and print it.
use Prim.Native.Nat.{ℕ}

-- `negsuc n` is -(n + 1).
pub data ℤ : Type 0 where
  pos : ℕ → ℤ
  negsuc : ℕ → ℤ
