-- ===== src/Prelude/Int.antt =====
-- Integers over the native numbers, as Python's `int`.
use Prim.Native.Nat.{ℕ}
use mathlib.Core.Bool.{Bool, false}
use macpony.Prelude.Tests.{◌==◌}

-- `negsuc n` is -(n + 1).
pub data ℤ : Type 0 where
  pos : ℕ → ℤ
  negsuc : ℕ → ℤ

-- Comparison with a natural number, `i == n`.
abbrev pub eq_nat : ℤ → ℕ → Bool
eq_nat (pos m) n = m == n
eq_nat (negsuc m) n = false
