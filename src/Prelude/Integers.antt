-- ===== src/Prelude/Integers.antt =====
-- Python's `int`: a natural number, or minus one less a natural number.
use Prim.Native.Nat.{ℕ}

pub data ℤ : Type 0 where
  pos : ℕ → ℤ
  negsuc : ℕ → ℤ
