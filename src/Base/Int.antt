-- ===== src/Base/Int.antt =====
-- Signed integers over the native numbers, and the two's complement reading of 32-bit patterns:
-- what C's `long` and `int` are on the 68000 family.
use Prim.Native.Nat.{ℕ, zero, suc, ◌-◌, ◌/◌, ◌%◌, ◌^◌}
use mathlib.Core.Bool.{Bool}
use gogoboot.Base.Tests.{leb, if◌then◌else◌}

-- `negsuc n` is -(n + 1).
pub data ℤ : Type 0 where
  pos : ℕ → ℤ
  negsuc : ℕ → ℤ

-- -n
abbrev pub neg_ℕ : ℕ → ℤ
neg_ℕ zero = pos 0
neg_ℕ (suc n) = negsuc n

-- The sign bit of a 32-bit pattern, and the integer that the pattern stands for.
abbrev pub is_neg32 : ℕ → Bool
is_neg32 w = leb (2 ^ 31) w

abbrev pub signed32 : ℕ → ℤ
signed32 w = if is_neg32 w then negsuc (2 ^ 32 - 1 - w) else pos w

-- C's unary minus on a 32-bit pattern.
abbrev pub neg32 : ℕ → ℕ
neg32 w = (2 ^ 32 - w) % 2 ^ 32

-- C's `/` and `%` on integers: the quotient rounds towards zero, the remainder has the sign of the
-- dividend.
abbrev pub tdiv : ℤ → ℤ → ℤ
tdiv (pos a) (pos b) = pos (a / b)
tdiv (pos a) (negsuc b) = neg_ℕ (a / suc b)
tdiv (negsuc a) (pos b) = neg_ℕ (suc a / b)
tdiv (negsuc a) (negsuc b) = pos (suc a / suc b)

abbrev pub tmod : ℤ → ℤ → ℤ
tmod (pos a) (pos b) = pos (a % b)
tmod (pos a) (negsuc b) = pos (a % suc b)
tmod (negsuc a) (pos b) = neg_ℕ (suc a % b)
tmod (negsuc a) (negsuc b) = neg_ℕ (suc a % suc b)
