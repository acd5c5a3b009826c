-- ===== src/Base/Bits.antt =====
-- Facts about `bit_and` and `bit_or` at variables: what the C operators `&`, `|` and the masks of
-- the program compute, in terms of `/`, `%` and `+`.
use Prim.Native.Nat.{
  ℕ, zero, suc, ◌+◌, ◌-◌, ◌*◌, ◌/◌, ◌%◌, ◌^◌, ◌≤◌, ◌<◌, min, max, bit_and, bit_or, digits,
  bit_and-bitwise, bit_or-bitwise,
}
use mathlib.Core.Path.{◌≡◌, refl, sym, ap, subst, ◌∙◌}
use native.Mathlib.Nat.{
  div-div-eq-div-mul, div-add-mod, pow-suc, one-le-pow, mod-eq_of_lt, div-lt_iff_lt-mul,
}
use native.Mathlib.Omega.{arith}

-- The digit recursion of an operation: `over b` is the result once the first number has run out, and
-- it agrees with the operation on the digit 0.
module _ (over : ℕ → ℕ) (op : ℕ → ℕ → ℕ) where
  abbrev by_digits : ℕ → ℕ → ℕ → ℕ
  by_digits count a b = digits over op count a b

  -- One more digit to go changes nothing, where the count has reached the first number.
  by_digits-suc : (m a b : ℕ) → a ≤ m → by_digits (suc m) a b ≡ by_digits m a b
  by_digits-suc zero zero b h = refl
  by_digits-suc zero (suc a) b h = absurd (omega arith)
  by_digits-suc (suc m) zero b h = refl
  by_digits-suc (suc m) (suc a) b h =
      omega (arith, by_digits-suc m (suc a / 2) (b / 2) (omega arith))

  by_digits-add : (d a b : ℕ) → by_digits (d + a) a b ≡ by_digits a a b
  by_digits-add zero a b = let e : 0 + a ≡ a = omega arith in rw e
  by_digits-add (suc d) a b =
      let e : suc d + a ≡ suc (d + a) = omega arith in
      rw e (by_digits-suc (d + a) a b (omega arith) ∙ by_digits-add d a b)

  -- The lowest digit and the rest.
  by_digits_step :
      (a b : ℕ)
      → over b ≡ over (b / 2) * 2 + op 0 (b % 2)
      → by_digits a a b ≡ by_digits (a / 2) (a / 2) (b / 2) * 2 + op (a % 2) (b % 2)
  by_digits_step zero b h = h
  by_digits_step (suc a) b h =
      let e : a - suc a / 2 + suc a / 2 ≡ a = omega arith in
      let more : by_digits a (suc a / 2) (b / 2) ≡ by_digits (suc a / 2) (suc a / 2) (b / 2) =
        subst (λ n. by_digits n (suc a / 2) (b / 2) ≡ by_digits (suc a / 2) (suc a / 2) (b / 2)) e
          (by_digits-add (a - suc a / 2) (suc a / 2) (b / 2)) in
      ap (λ (t : ℕ). t * 2 + op (suc a % 2) (b % 2)) more

pub bit_and_step : (a b : ℕ) → bit_and a b ≡ bit_and (a / 2) (b / 2) * 2 + min (a % 2) (b % 2)
bit_and_step a b =
    rw (bit_and-bitwise a b, bit_and-bitwise (a / 2) (b / 2))
      (by_digits_step (λ _. 0) min a b (omega arith))

pub bit_or_step : (a b : ℕ) → bit_or a b ≡ bit_or (a / 2) (b / 2) * 2 + max (a % 2) (b % 2)
bit_or_step a b =
    rw (bit_or-bitwise a b, bit_or-bitwise (a / 2) (b / 2))
      (by_digits_step (λ d. d) max a b (omega arith))

halves : (r a : ℕ) → r * a ≡ r * (a / 2) * 2 + r * (a % 2)
halves r a = omega (arith, ap (λ (t : ℕ). r * t) (whole a))
  where
    whole : (n : ℕ) → n ≡ n / 2 * 2 + n % 2
    whole n = omega arith

-- A second number of zero, for a first number up to a bound.
module _ (f : ℕ → ℕ) (r : ℕ) (step : (a : ℕ) → f a ≡ f (a / 2) * 2 + r * (a % 2))
    (start : f 0 ≡ 0) where
  from_step : (bound a : ℕ) → a ≤ bound → f a ≡ r * a
  from_step bound zero h = omega (arith, start)
  from_step zero (suc a) h = absurd (omega arith)
  from_step (suc bound) (suc a) h =
      omega (arith, step (suc a), from_step bound (suc a / 2) (omega arith), halves r (suc a))

pub bit_and-zero : (a : ℕ) → bit_and a 0 ≡ 0
bit_and-zero a = omega (
  arith,
  from_step (λ a. bit_and a 0) 0 (λ a. omega (arith, bit_and_step a 0)) refl a a (omega arith),
)

pub bit_or-zero : (a : ℕ) → bit_or a 0 ≡ a
bit_or-zero a = omega (
  arith,
  from_step (λ a. bit_or a 0) 1 (λ a. omega (arith, bit_or_step a 0)) refl a a (omega arith),
)

-- Both operations work digit by digit, so they commute with doubling.
pub bit_or-double : (a b : ℕ) → bit_or (2 * a) (2 * b) ≡ 2 * bit_or a b
bit_or-double a b =
    let p : 2 * a / 2 ≡ a = omega arith in
    let q : 2 * b / 2 ≡ b = omega arith in
    let h : bit_or (2 * a / 2) (2 * b / 2) ≡ bit_or a b = rw (p, q) in
    omega (arith, bit_or_step (2 * a) (2 * b), h)

pub bit_and-double : (a b : ℕ) → bit_and a (2 * b) ≡ 2 * bit_and (a / 2) b
bit_and-double a b =
    let q : 2 * b / 2 ≡ b = omega arith in
    let h : bit_and (a / 2) (2 * b / 2) ≡ bit_and (a / 2) b = rw q in
    omega (arith, bit_and_step a (2 * b), h)

pow-suc_two : (k : ℕ) → 2 ^ suc k ≡ 2 * 2 ^ k
pow-suc_two k = omega (arith, pow-suc 2 k)

div_pow-suc : (a k : ℕ) → a / 2 / 2 ^ k ≡ a / 2 ^ suc k
div_pow-suc a k = div-div-eq-div-mul a 2 (2 ^ k) ∙ ap (λ (t : ℕ). a / t) (sym (pow-suc_two k))

-- `a | (1 << k)` where the digits of `a` up to `k` are zero.
pub bit_or-two_pow : (k q : ℕ) → bit_or (2 * (q * 2 ^ k)) (2 ^ k) ≡ 2 * (q * 2 ^ k) + 2 ^ k
bit_or-two_pow zero q =
    let p : 2 * (q * 1) / 2 ≡ q = omega arith in
    let h : bit_or (2 * (q * 1) / 2) 0 ≡ q = rw p (bit_or-zero q) in
    omega (arith, bit_or_step (2 * (q * 1)) 1, h)
bit_or-two_pow (suc k) q =
    let p : q * 2 ^ suc k ≡ 2 * (q * 2 ^ k) =
      omega (arith, ap (λ (t : ℕ). q * t) (pow-suc_two k)) in
    rw (p, pow-suc_two k, bit_or-double) (omega (arith, bit_or-two_pow k q))

-- `a & (1 << k)` is the digit `k`.
pub bit_and-two_pow : (k a : ℕ) → bit_and a (2 ^ k) ≡ a / 2 ^ k % 2 * 2 ^ k
bit_and-two_pow zero a = omega (arith, bit_and_step a 1, bit_and-zero (a / 2))
bit_and-two_pow (suc k) a =
    rw (pow-suc_two k, bit_and-double, bit_and-two_pow k (a / 2))
      (rw (div-div-eq-div-mul a 2 (2 ^ k)) (omega arith))

-- The remainder by a power of two, digit by digit.
mod_pow-suc : (a k : ℕ) → a % 2 ^ suc k ≡ 2 * (a / 2 % 2 ^ k) + a % 2
mod_pow-suc a k = omega (
  arith,
  div-add-mod a (2 ^ suc k),
  div-add-mod (a / 2) (2 ^ k),
  ap (λ (t : ℕ). 2 ^ k * t) (div_pow-suc a k),
  ap (λ (t : ℕ). t * (a / 2 ^ suc k)) (pow-suc_two k),
)

-- `a & ((1 << k) - 1)`
pub bit_and-low_mask : (k a : ℕ) → bit_and a (2 ^ k - 1) ≡ a % 2 ^ k
bit_and-low_mask zero a = omega (arith, bit_and-zero a)
bit_and-low_mask (suc k) a =
    let e : 2 ^ suc k - 1 ≡ 2 * (2 ^ k - 1) + 1 =
      omega (arith, pow-suc_two k, one-le-pow k 2 (omega arith)) in
    let p : (2 * (2 ^ k - 1) + 1) / 2 ≡ 2 ^ k - 1 = omega arith in
    let h : bit_and (a / 2) ((2 * (2 ^ k - 1) + 1) / 2) ≡ a / 2 % 2 ^ k =
      rw p (bit_and-low_mask k (a / 2)) in
    rw (e, mod_pow-suc a k) (omega (arith, bit_and_step a (2 * (2 ^ k - 1) + 1), h))

-- `a & (m << k)`
pub bit_and-shifted_mask : (k m a : ℕ) → bit_and a (m * 2 ^ k) ≡ bit_and (a / 2 ^ k) m * 2 ^ k
bit_and-shifted_mask zero m a =
    let p : m * 1 ≡ m = omega arith in let q : a / 1 ≡ a = omega arith in rw (p, q) (omega arith)
bit_and-shifted_mask (suc k) m a =
    let p : m * 2 ^ suc k ≡ 2 * (m * 2 ^ k) =
      omega (arith, ap (λ (t : ℕ). m * t) (pow-suc_two k)) in
    rw (p, bit_and-double, bit_and-shifted_mask k m (a / 2), div_pow-suc a k)
      (omega (arith, ap (λ (t : ℕ). bit_and (a / 2 ^ suc k) m * t) (pow-suc_two k)))

pub two_pow_add : (i k : ℕ) → 2 ^ i * 2 ^ k ≡ 2 ^ (i + k)
two_pow_add zero k = let e : 0 + k ≡ k = omega arith in rw e (omega arith)
two_pow_add (suc i) k =
    let e : suc i + k ≡ suc (i + k) = omega arith in
    rw e (
      omega
        (arith, pow-suc_two (i + k), two_pow_add i k, ap (λ (t : ℕ). t * 2 ^ k) (pow-suc_two i)))

pred-mul : (x p : ℕ) → (x - 1) * p ≡ x * p - p
pred-mul zero p = omega arith
pred-mul (suc x) p = let e : suc x - 1 ≡ x = omega arith in rw e (omega arith)

sub_add : (k : ℕ) → k < 32 → 32 - k + k ≡ 32
sub_add k h = omega arith

-- `a & -(1 << k)` in 32 bits clears the digits below `k`.
pub bit_and-neg_two_pow :
    (k a : ℕ) → k < 32 → a < 2 ^ 32 → bit_and a ((2 ^ 32 - 2 ^ k) % 2 ^ 32) ≡ a / 2 ^ k * 2 ^ k
bit_and-neg_two_pow k a h w =
    let whole : 2 ^ (32 - k) * 2 ^ k ≡ 2 ^ 32 =
      two_pow_add (32 - k) k ∙ ap (λ (t : ℕ). 2 ^ t) (sub_add k h) in
    let pos : 1 ≤ 2 ^ k = one-le-pow k 2 (omega arith) in
    let mask : (2 ^ 32 - 2 ^ k) % 2 ^ 32 ≡ (2 ^ (32 - k) - 1) * 2 ^ k =
      omega (arith, whole, pos, pred-mul (2 ^ (32 - k)) (2 ^ k)) in
    let small : a / 2 ^ k < 2 ^ (32 - k) =
      (div-lt_iff_lt-mul {k = 2 ^ k} pos).1 (omega (arith, whole)) in
    rw (mask, bit_and-shifted_mask k (2 ^ (32 - k) - 1) a, bit_and-low_mask (32 - k) (a / 2 ^ k))
      (ap (λ (t : ℕ). t * 2 ^ k) (mod-eq_of_lt small))

bit_or-zero_left : (a : ℕ) → bit_or 0 a ≡ a
bit_or-zero_left a = omega (
  arith,
  from_step (λ a. bit_or 0 a) 1 (λ a. omega (arith, bit_or_step 0 a)) refl a a (omega arith),
)

-- Numbers with no digit in common are added.
pub bit_or-add : (k a b : ℕ) → a < 2 ^ k → bit_or a (b * 2 ^ k) ≡ a + b * 2 ^ k
bit_or-add zero a b h =
    let none : a ≡ 0 = omega (arith, h) in rw none (omega (arith, bit_or-zero_left (b * 1)))
bit_or-add (suc k) a b h =
    let twice : b * 2 ^ suc k ≡ 2 * (b * 2 ^ k) =
      omega (arith, ap (λ (t : ℕ). b * t) (pow-suc_two k)) in
    let half : 2 * (b * 2 ^ k) / 2 ≡ b * 2 ^ k = omega arith in
    let low : a / 2 < 2 ^ k = omega (arith, h, pow-suc_two k) in
    let step : bit_or (a / 2) (2 * (b * 2 ^ k) / 2) ≡ a / 2 + b * 2 ^ k =
      rw half (bit_or-add k (a / 2) b low) in
    rw twice (omega (arith, bit_or_step a (2 * (b * 2 ^ k)), step))
