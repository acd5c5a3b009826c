-- ===== src/Libgcc.antt =====
-- The 32-bit division routines that the compiler calls on processors without a divide instruction:
-- libgcc/udivmodsi4.c, libgcc/udivmod.c and libgcc/divmod.c. A `long` is its 32-bit pattern.
pub mod Unsigned
pub mod Signed
mod Tests
use Prim.Native.Nat.{bit_and, bit_or}
use gogoboot.Base.{
  ℕ, zero, suc, ◌+◌, ◌-◌, ◌*◌, ◌/◌, ◌%◌, ◌^◌, Bool, true, false, not, ◌&&◌, Option, none, some, ltb,
  leb, ◌==◌, if◌then◌else◌,
}
use gogoboot.Base.Int.{is_neg32, neg32}

abbrev word : ℕ
word = 2 ^ 32

-- `den < num && bit && !(den & (1L<<31))`
keep_shifting : ℕ → ℕ → ℕ → Bool
keep_shifting num den bit = ltb den num && (not (bit == 0) && bit_and den (2 ^ 31) == 0)

-- `while (den < num && bit && !(den & (1L<<31))) { den <<= 1; bit <<= 1; }`; gives `(den, bit)`.
pub shift_up : ℕ → ℕ → ℕ → ℕ → Option (ℕ × ℕ)
unfolding keep_shifting
shift_up zero num den bit = none
shift_up (suc fuel) num den bit =
    let rest = shift_up fuel num (den * 2 % word) (bit * 2 % word) in
    if keep_shifting num den bit then rest else some (den, bit)

-- `while (bit) { if (num >= den) { num -= den; res |= bit; } bit >>= 1; den >>= 1; }`; gives
-- `(num, res)`.
pub subtract_down : ℕ → ℕ → ℕ → ℕ → ℕ → Option (ℕ × ℕ)
subtract_down zero num den bit res = none
subtract_down (suc fuel) num den bit res =
    let num' = if leb den num then num - den else num in
    let res' = if leb den num then bit_or res bit else res in
    let rest = subtract_down fuel num' (den / 2) (bit / 2) res' in
    if bit == 0 then some (num, res) else rest

-- The rounds given to each loop. `none` means that a loop has not ended after these.
abbrev pub rounds : ℕ
rounds = 33

unfoldable pub udivmodsi4 : ℕ → ℕ → Bool → Option ℕ
udivmodsi4 num den modwanted = elim (shift_up rounds num den 1) [
  | none ↦ none
  | some (den', bit) ↦ elim (subtract_down rounds num den' bit 0) [
    | none ↦ none
    | some (num', res) ↦ some (if modwanted then num' else res)
  ]
]

unfoldable pub udivsi3 : ℕ → ℕ → Option ℕ
udivsi3 a b = udivmodsi4 a b false

unfoldable pub umodsi3 : ℕ → ℕ → Option ℕ
umodsi3 a b = udivmodsi4 a b true

-- `if (neg) res = -res;`
abbrev pub negate_if : Bool → Option ℕ → Option ℕ
negate_if neg none = none
negate_if neg (some res) = some (if neg then neg32 res else res)

unfoldable pub divsi3 : ℕ → ℕ → Option ℕ
divsi3 a b =
    let neg = if is_neg32 a then true else false in
    let a' = if is_neg32 a then neg32 a else a in
    let neg' = if is_neg32 b then not neg else neg in
    let b' = if is_neg32 b then neg32 b else b in negate_if neg' (udivmodsi4 a' b' false)

unfoldable pub modsi3 : ℕ → ℕ → Option ℕ
modsi3 a b =
    let neg = if is_neg32 a then true else false in
    let a' = if is_neg32 a then neg32 a else a in
    let b' = if is_neg32 b then neg32 b else b in negate_if neg (udivmodsi4 a' b' true)
