-- ===== src/Prelude/Int.antt =====
-- The integers that the functions return. `negsuc n` is -(n + 1).
use Prim.Native.Nat.{ℕ}

pub data ℤ : Type 0 where
  pos : ℕ → ℤ
  negsuc : ℕ → ℤ

-- The error code of every failing call of the library, -1.
abbrev pub minus_one : ℤ
minus_one = negsuc 0
