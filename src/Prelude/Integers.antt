-- ===== src/Prelude/Integers.antt =====
-- Integers over the native numbers, and the signed reading of a 32-bit field.
use Prim.Native.Nat.{ℕ, zero, suc, ◌-◌}
use ebpf_upf.Prelude.Tests.{ltb, if◌then◌else◌}

-- `negsuc n` is -(n + 1).
pub data ℤ : Type 0 where
  pos : ℕ → ℤ
  negsuc : ℕ → ℤ

abbrev pub negate : ℤ → ℤ
negate (pos zero) = pos zero
negate (pos (suc n)) = negsuc n
negate (negsuc n) = pos (suc n)

-- Two's complement.
abbrev pub int32 : ℕ → ℤ
int32 x = if ltb x 2147483648 then pos x else negsuc (4294967295 - x)
