-- ===== src/Common/Integers.antt =====
-- The integers over the native numbers, with the library's names.
use Prim.Native.Nat.{ℕ, zero, suc}
use mathlib.Core.Bool.{Bool, true, false}

-- `negsuc n` is `- n - 1`.
pub data ℤ : Type 0 where
  pos negsuc : ℕ → ℤ

-- `++`, `--` and `> 0` of an `int` that does not overflow.
unfoldable pub inc : ℤ → ℤ
inc (pos n) = pos (suc n)
inc (negsuc zero) = pos 0
inc (negsuc (suc n)) = negsuc n

unfoldable pub dec : ℤ → ℤ
dec (pos zero) = negsuc 0
dec (pos (suc n)) = pos n
dec (negsuc n) = negsuc (suc n)

unfoldable pub positive : ℤ → Bool
positive (pos (suc n)) = true
positive i = false
