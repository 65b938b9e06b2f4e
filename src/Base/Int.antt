-- ===== src/Base/Int.antt =====
-- Signed integers over the native numbers.
use Prim.Native.Nat.{ℕ, zero, suc, ◌+◌}
use mathlib.Core.Bool.{Bool, true, false}
use ar_app.Base.Tests.{ltb}

-- `negsuc n` is -(n + 1).
pub data ℤ : Type 0 where
  pos negsuc : ℕ → ℤ

-- The number of an integer above 0, and 0 for the others.
abbrev pub pos_part : ℤ → ℕ
pos_part (negsuc n) = 0
pos_part (pos n) = n

-- `n > 0`
abbrev pub is_positive : ℤ → Bool
is_positive i = ltb 0 (pos_part i)

abbrev pub is_natural : ℤ → Bool
is_natural (negsuc n) = false
is_natural (pos n) = true

abbrev pub increment : ℤ → ℤ
increment (pos n) = pos (n + 1)
increment (negsuc zero) = pos 0
increment (negsuc (suc n)) = negsuc n

abbrev pub decrement : ℤ → ℤ
decrement (pos zero) = negsuc 0
decrement (pos (suc n)) = pos n
decrement (negsuc n) = negsuc (n + 1)
