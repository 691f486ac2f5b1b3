-- ===== src/Base/Int.antt =====
-- Signed 64-bit values as integers, for the sizes that a package declares.
use Prim.Native.Nat.{ℕ}
use mathlib.Core.Bool.{Bool, true, false}
use terraform_registry.Base.Tests.{ltb, ◌==◌}

-- `negsuc n` is -(n + 1).
pub data ℤ : Type 0 where
  pos : ℕ → ℤ
  negsuc : ℕ → ℤ

-- `size < 0 || size > limit`
abbrev pub out_of_range : ℤ → ℕ → Bool
out_of_range (pos n) limit = ltb limit n
out_of_range (negsuc n) limit = true

-- `int64(n) == size`
abbrev pub int_is : ℕ → ℤ → Bool
int_is n (pos m) = n == m
int_is n (negsuc m) = false
