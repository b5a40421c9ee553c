-- ===== src/Base/Int.antt =====
-- Numbers with a sign, over the native ℕ.
use Prim.Native.Nat.{ℕ}

-- `negsuc n` is -(n + 1).
pub data ℤ : Type 0 where
  pos : ℕ → ℤ
  negsuc : ℕ → ℤ
