-- ===== src/Base/Int.antt =====
-- Go's signed `int`, for the arguments and counters that can be negative.
use Prim.Native.Nat.{ℕ}

-- `negsuc n` is -(n + 1).
pub data ℤ : Type 0 where
  pos : ℕ → ℤ
  negsuc : ℕ → ℤ
