-- ===== src/Base/Int.antt =====
-- Go's signed integers, where a value can be negative; `negsuc n` is -(n + 1).
use Prim.Native.Nat.{ℕ}

pub data ℤ : Type 0 where
  pos : ℕ → ℤ
  negsuc : ℕ → ℤ
