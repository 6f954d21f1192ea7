-- ===== src/Prelude/Integers.antt =====
-- The integers of the source: a BigInt, or a number that may be negative.
use Prim.Native.Nat.{ℕ}

pub data ℤ : Type 0 where
  pos : ℕ → ℤ
  negsuc : ℕ → ℤ
