-- ===== src/Prelude/Int.antt =====
-- Signed numbers, such as the i32 result of a completion. `negsuc n` is -(n + 1).
use Prim.Native.Nat.{ℕ}

pub data ℤ : Type 0 where
  pos : ℕ → ℤ
  negsuc : ℕ → ℤ
