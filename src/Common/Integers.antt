-- ===== src/Common/Integers.antt =====
-- Go's signed integers, over the native numbers.
use Prim.Native.Nat.{ℕ}

pub data ℤ : Type 0 where
  pos negsuc : ℕ → ℤ
