-- ===== src/Libgcc/Unsigned.antt =====
-- The two loops of `__udivmodsi4` compute the quotient and the remainder.
use Prim.Native.Nat.{bit_or}
use gogoboot.Base.{
  ℕ, zero, suc, ◌+◌, ◌-◌, ◌*◌, ◌/◌, ◌%◌, ◌^◌, ◌≤◌, ◌<◌, ◌≡◌, refl, sym, ap, ◌⊎◌, Bool, true, false,
  some, inl, inr, arith, ◌==◌, if◌then◌else◌,
}
use native.Mathlib.Decide.{dec_lt}
use native.Mathlib.Nat.{pow-suc, one-le-pow, div-eq_of_lt-le, div-add-mod}
use gogoboot.Base.Bits.{bit_and-two_pow, bit_or-two_pow}
use gogoboot.Libgcc.{keep_shifting, shift_up, subtract_down, udivmodsi4, rounds}

-- The state that the first loop leaves: `bit` is a power of two, `den` is shifted as far, and the
-- quotient has no higher digit.
pub record IsShifted (num den : ℕ) (r : ℕ × ℕ) : Type 0 where
  pub steps : ℕ
  pub steps_lt : steps < 32
  pub bit_eq : r.1 ≡ 2 ^ steps
  pub den_eq : r.0 ≡ den * 2 ^ steps
  pub den_lt : r.0 < 2 ^ 32
  pub num_lt : num < 2 * r.0

bit_le : (den i : ℕ) → 0 < den → 2 ^ i ≤ den * 2 ^ i
bit_le den i p = grind arith

-- The loop's test, for a shifted divisor and bit that are not zero.
shift_test :
    (num d bit : ℕ)
    → num < 2 ^ 32
    → 0 < d
    → d < 2 ^ 32
    → 0 < bit
    → ((keep_shifting num d bit ≡ true) × (d < num) × (d < 2 ^ 31))
      ⊎ ((keep_shifting num d bit ≡ false) × (num < 2 * d))
unfolding keep_shifting
shift_test num d bit n p w b = ground (arith, bit_and-two_pow 31 d)

double_pow : (den i : ℕ) → (den * 2 ^ suc i ≡ den * 2 ^ i * 2) × (2 ^ suc i ≡ 2 ^ i * 2)
double_pow den i = (omega (arith, ap (λ (t : ℕ). den * t) (pow-suc 2 i)), pow-suc 2 i)

i_lt_31 : (den d i : ℕ) → i < 32 → 0 < den → d ≡ den * 2 ^ i → d < 2 ^ 31 → i < 31
i_lt_31 den d i h p e w = elim (dec_lt i 31) [
  | yes q ↦ q
  | no q ↦ let top : i ≡ 31 = omega arith in absurd (omega (arith, ap (λ (t : ℕ). den * 2 ^ t) top))
]

pos_pow : (den i : ℕ) → 0 < den → 0 < den * 2 ^ i
pos_pow den i p = grind (arith, one-le-pow i 2)

shift_up-IsShifted :
    (fuel num den i d bit : ℕ)
    → 32 - i ≤ fuel
    → i < 32
    → num < 2 ^ 32
    → 0 < den
    → d ≡ den * 2 ^ i
    → bit ≡ 2 ^ i
    → d < 2 ^ 32
    → (r : ℕ × ℕ) × (shift_up fuel num d bit ≡ some r) × IsShifted num den r
unfolding shift_up
shift_up-IsShifted zero num den i d bit f h n p e e' w = absurd (omega arith)
shift_up-IsShifted (suc fuel) num den i d bit f h n p e e' w =
    elim (shift_test num d bit n (omega (arith, pos_pow den i p)) w (omega (arith, pos_pow 1 i))) [
      | inl (go, lt, small) ↦
          let j = i_lt_31 den d i h p e small in
          rw go (
            shift_up-IsShifted fuel num den (suc i) (d * 2 % 2 ^ 32) (bit * 2 % 2 ^ 32)
              (omega arith) (omega arith) n p (omega (arith, double_pow den i))
              (omega (arith, double_pow den i, bit_le den i p)) (omega arith))
      | inr (stop, lt) ↦ rw stop (
        (d, bit),
        refl,
        record { steps = i; steps_lt = h; bit_eq = e'; den_eq = e; den_lt = w; num_lt = lt },
      )
    ]

-- What the second loop keeps: the part of the dividend that is taken off is `res` times `den`.
abbrev Divided : ℕ → ℕ → ℕ → ℕ × ℕ → Type 0
Divided den num res r = (r.0 + r.1 * den ≡ num + res * den) × (r.0 < den)

-- One round, as a choice between two next states.
subtract_round :
    (fuel num d bit res : ℕ)
    → 0 < bit
    → ((d ≤ num)
        × (subtract_down (suc fuel) num d bit res
            ≡ subtract_down fuel (num - d) (d / 2) (bit / 2) (bit_or res bit)))
      ⊎ ((num < d)
          × (subtract_down (suc fuel) num d bit res ≡ subtract_down fuel num (d / 2) (bit / 2) res))
unfolding subtract_down
subtract_round fuel num d bit res b = ground arith

subtract_stop : (fuel num d res : ℕ) → subtract_down (suc fuel) num d 0 res ≡ some (num, res)
unfolding subtract_down
subtract_stop fuel num d res = refl

subtract_down-Divided :
    (i fuel den num d bit q res : ℕ)
    → i + 2 ≤ fuel
    → 0 < den
    → d ≡ den * 2 ^ i
    → bit ≡ 2 ^ i
    → res ≡ 2 * (q * 2 ^ i)
    → num < 2 * d
    → (r : ℕ × ℕ) × (subtract_down fuel num d bit res ≡ some r) × Divided den num res r
subtract_down-Divided i zero den num d bit q res f p e e' e'' n = absurd (omega arith)
subtract_down-Divided zero (suc zero) den num d bit q res f p e e' e'' n = absurd (omega arith)
subtract_down-Divided zero (suc (suc fuel)) den num d bit q res f p e e' e'' n =
    let half : bit / 2 ≡ 0 = omega arith in
    elim (subtract_round (suc fuel) num d bit res (omega arith)) [
      | inl (le, eq) ↦
          let or : bit_or res bit ≡ res + 1 = rw (e'', e') (bit_or-two_pow 0 q) in
          rw (eq, half, or, subtract_stop) ((num - d, res + 1), refl, (omega arith, omega arith))
      | inr (lt, eq) ↦ rw (eq, half, subtract_stop) ((num, res), refl, (refl, omega arith))
    ]
subtract_down-Divided (suc i) (suc fuel) den num d bit q res f p e e' e'' n =
    let d2 : d / 2 ≡ den * 2 ^ i = omega (arith, double_pow den i) in
    let b2 : bit / 2 ≡ 2 ^ i = omega (arith, double_pow den i) in
    let q2 : q * 2 ^ suc i ≡ 2 * q * 2 ^ i = omega (arith, ap (λ (t : ℕ). q * t) (pow-suc 2 i)) in
    elim (subtract_round fuel num d bit res (omega (arith, pos_pow 1 (suc i)))) [
      | inl (le, eq) ↦
          let or : bit_or res bit ≡ res + bit = rw (e'', e') (bit_or-two_pow (suc i) q) in
          let moved : (res + bit) * den ≡ res * den + d =
            omega (arith, ap (λ (t : ℕ). t * den) e') in
          let (r, eq', (sum, lt)) =
            subtract_down-Divided i fuel den (num - d) (d / 2) (bit / 2) (2 * q + 1) (res + bit)
              (omega arith) p d2 b2 (omega (arith, double_pow den i))
              (omega (arith, double_pow den i)) in
          rw (eq, or) (r, eq', (omega arith, lt))
      | inr (lt, eq) ↦ rw eq (
          subtract_down-Divided i fuel den num (d / 2) (bit / 2) (2 * q) res (omega arith) p d2 b2
            (omega arith) (omega (arith, double_pow den i)))
    ]

div_mod_unique : (num den q r : ℕ) → r + q * den ≡ num → r < den → (q ≡ num / den) × (r ≡ num % den)
div_mod_unique num den q r e h =
    let quot : num / den ≡ q = div-eq_of_lt-le den (omega arith) (omega arith) in
    (sym quot, omega (arith, div-add-mod num den, ap (λ (t : ℕ). den * t) quot))

-- `__udivmodsi4` ends within its rounds, with the quotient or the remainder, for every divisor but
-- zero.
pub udivmodsi4_lem :
    (num den : ℕ) (modwanted : Bool)
    → num < 2 ^ 32
    → den < 2 ^ 32
    → 0 < den
    → udivmodsi4 num den modwanted ≡ some (if modwanted then num % den else num / den)
unfolding udivmodsi4
udivmodsi4_lem num den modwanted n w p =
    let ((d, bit), up, sh) =
      shift_up-IsShifted rounds num den 0 den 1 (omega arith) (omega arith) n p (omega arith) refl
        w in
    let (r, down, (sum, lt)) =
      subtract_down-Divided sh.steps rounds den num d bit 0 0 (omega (arith, sh.steps_lt)) p
        sh.den_eq sh.bit_eq (omega arith) sh.num_lt in
    let (q, m) = div_mod_unique num den r.1 r.0 (omega arith) lt in
    rw (up, udivmodsi4) (rw down (rw (q, m)))

-- With a divisor of zero it ends too: a quotient of 0 and a remainder of `num`, or 1 and 0 if `num`
-- is zero as well.
pub udivmodsi4-zero :
    (num : ℕ) (modwanted : Bool)
    → udivmodsi4 num 0 modwanted
      ≡ some (if num == 0 then (if modwanted then 0 else 1) else (if modwanted then num else 0))
unfolding udivmodsi4 shift_up subtract_down keep_shifting
udivmodsi4-zero zero true = refl
udivmodsi4-zero zero false = refl
udivmodsi4-zero (suc num) modwanted = ground arith
