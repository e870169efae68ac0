-- ===== src/Prelude/Int.antt =====
-- Integers over the native numbers: an `int` that a request may give with a sign.
use Prim.Native.Nat.{ℕ}

-- `negsuc n` is -(n + 1).
pub data ℤ : Type 0 where
  pos : ℕ → ℤ
  negsuc : ℕ → ℤ
