-- ===== src/Libgcc/Signed.antt =====
-- `__divsi3` and `__modsi3` divide as C defines it, on the integers that the patterns stand for.
use gogoboot.Base.{
  ℕ, zero, suc, ◌-◌, ◌/◌, ◌^◌, ◌≤◌, ◌<◌, ◌≡◌, ◌≢◌, ◌⊎◌, true, false, some, arith, if◌then◌else◌,
}
use mathlib.Core.Option
use native.Mathlib.Nat.{div-lt_self}
use gogoboot.Base.Int.{signed32, neg32, is_neg32, tdiv, tmod}
use gogoboot.Libgcc.{divsi3, modsi3}
use gogoboot.Libgcc.Unsigned.{udivmodsi4_lem}

-- The magnitude of a pattern's integer, which both functions divide.
abbrev magnitude : ℕ → ℕ
magnitude a = if is_neg32 a then neg32 a else a

-- A quotient reaches 2^31 only in the one case that overflows.
quotient_bound : (a b : ℕ) → a ≤ 2 ^ 31 → 0 < b → (a / b < 2 ^ 31) ⊎ ((a ≡ 2 ^ 31) × (b ≡ 1))
quotient_bound a zero h p = elim p [ ]
quotient_bound a (suc zero) h p = omega arith
quotient_bound zero (suc (suc b)) h p = omega arith
quotient_bound (suc a) (suc (suc b)) h p =
    omega (arith, div-lt_self {n = suc a} {k = suc (suc b)} (omega arith) (omega arith))

-- `__divsi3` is the quotient rounded towards zero; -2^31 / -1 alone has none.
divsi3_lem :
    (a b : ℕ)
    → a < 2 ^ 32
    → b < 2 ^ 32
    → 0 < b
    → (a ≢ 2 ^ 31) ⊎ (b ≢ 2 ^ 32 - 1)
    → Option.map signed32 (divsi3 a b) ≡ some (tdiv (signed32 a) (signed32 b))
unfolding divsi3
divsi3_lem a b ha hb p fits = ground (
  arith,
  udivmodsi4_lem (magnitude a) (magnitude b) false,
  quotient_bound (magnitude a) (magnitude b),
)

-- `__modsi3` is the remainder with the sign of the dividend.
pub modsi3_lem :
    (a b : ℕ)
    → a < 2 ^ 32
    → b < 2 ^ 32
    → 0 < b
    → Option.map signed32 (modsi3 a b) ≡ some (tmod (signed32 a) (signed32 b))
unfolding modsi3
modsi3_lem a b ha hb p = ground (arith, udivmodsi4_lem (magnitude a) (magnitude b) true)
