-- ===== src/Strtoul/Decimal.antt =====
-- A number that net/tftp.c prints in its request is read back by lib/strtoul.c.
use gogoboot.Base.{
  ℕ, ◌+◌, ◌-◌, ◌*◌, ◌≤◌, ◌<◌, ◌≡◌, refl, ap, ◌∙◌, true, false, ◌||◌, List, [], ◌∷◌, ◌++◌, arith,
  leb, ◌==◌, if◌then◌else◌, All,
}
use gogoboot.Strtoul.{
  rub, ndigit, isspace, skip_spaces, is_minus, skip_sign, detect_radix, fits, read_digits,
  read_number, strtoul, atoi,
}

abbrev pub IsDigit : ℕ → Type 0
IsDigit c = (48 ≤ c) × (c < 58)

-- The value of more digits behind a number.
unfoldable pub digits_value : ℕ → List ℕ → ℕ
digits_value n [] = n
digits_value n (c ∷ l) = digits_value (n * 10 + (c - 48)) l

ndigit-IsDigit : (c : ℕ) → IsDigit c → ndigit c ≡ c - 48
unfolding ndigit
ndigit-IsDigit c (lo, hi) = ground (arith, lo, hi)

digits_value-ge : (n : ℕ) (l : List ℕ) → n ≤ digits_value n l
unfolding digits_value
digits_value-ge n [] = omega arith
digits_value-ge n (c ∷ l) = omega (arith, digits_value-ge (n * 10 + (c - 48)) l)

fits-small : (n e : ℕ) → e < 10 → n * 10 + e < 4294967296 → fits 10 n e ≡ true
fits-small n e lt h = ground (arith, lt, h)

read_digits-step :
    (n c : ℕ) (l : List ℕ)
    → IsDigit c
    → n * 10 + (c - 48) < 4294967296
    → read_digits 10 n 0 (c ∷ l) ≡ read_digits 10 (n * 10 + (c - 48)) 0 l
unfolding read_digits
read_digits-step n c [] (lo, hi) h =
    let e = ndigit-IsDigit c (lo, hi) in
    let digit : c - 48 == rub ≡ false = ground (arith, hi) in
    rw (e, digit, fits-small n (c - 48) (omega (arith, hi)) h)
read_digits-step n c (x ∷ l) (lo, hi) h =
    let e = ndigit-IsDigit c (lo, hi) in
    let digit : c - 48 == rub ≡ false = ground (arith, hi) in
    rw (e, digit, fits-small n (c - 48) (omega (arith, hi)) h)

read_digits-end :
    (n c : ℕ) (l : List ℕ) → ndigit c ≡ rub → read_digits 10 n 0 (c ∷ l) ≡ (n, 0, c ∷ l)
unfolding read_digits
read_digits-end n c [] h = rw h
read_digits-end n c (x ∷ l) h = rw h

-- Digits up to a byte that is none.
read_digits-digits :
    (ds : List ℕ) (n c : ℕ) (l : List ℕ)
    → All IsDigit ds
    → ndigit c ≡ rub
    → digits_value n ds < 4294967296
    → read_digits 10 n 0 (ds ++ c ∷ l) ≡ (digits_value n ds, 0, c ∷ l)
unfolding digits_value
read_digits-digits [] n c l a e h = read_digits-end n c l e
read_digits-digits (x ∷ ds) n c l (p, a) e h =
    read_digits-step n x (ds ++ c ∷ l) p (omega (arith, h, digits_value-ge (n * 10 + (x - 48)) ds))
    ∙ read_digits-digits ds (n * 10 + (x - 48)) c l a e h

skip_spaces-digit : (c : ℕ) (l : List ℕ) → IsDigit c → skip_spaces (c ∷ l) ≡ c ∷ l
unfolding skip_spaces isspace
skip_spaces-digit c l (lo, hi) =
    let not_space : isspace c ≡ false = ground (arith, lo) in rw not_space

detect_radix-decimal :
    (c : ℕ) (l : List ℕ) → 49 ≤ c → c < 58 → detect_radix 0 (c ∷ l) ≡ (10, c - 48, l)
unfolding detect_radix
detect_radix-decimal c l lo hi =
    let e = ndigit-IsDigit c (omega (arith, lo), hi) in
    let positive : c - 48 == 0 ≡ false = ground (arith, lo) in rw (e, positive)

read_number-decimal :
    (start : List ℕ) (n : ℕ) (ds l : List ℕ)
    → n < 10
    → All IsDigit ds
    → digits_value n ds < 4294967296
    → (read_number false start (10, n, ds ++ 0 ∷ l)).0 ≡ digits_value n ds
unfolding read_number ndigit
read_number-decimal start n ds l lt a h =
    let digit : leb 10 n ≡ false = ground (arith, lt) in
    rw digit (ap (λ r. r.0) (read_digits-digits ds n 0 l a refl h))

-- A number without leading zeros.
pub atoi-digits :
    (c : ℕ) (ds l : List ℕ)
    → 49 ≤ c
    → c < 58
    → All IsDigit ds
    → digits_value (c - 48) ds < 4294967296
    → atoi (c ∷ ds ++ 0 ∷ l) ≡ digits_value (c - 48) ds
unfolding atoi strtoul
atoi-digits c ds l lo hi a h =
    let rest = ds ++ 0 ∷ l in
    let start = c ∷ rest in
    let no_minus : is_minus start ≡ false = ground (arith, lo) in
    let no_sign : skip_sign start ≡ start =
      let test : ((c == 45) || (c == 43)) ≡ false = ground (arith, lo) in
      ap (λ b. if b then rest else start) test in
    ap (λ s. (read_number (is_minus s) start (detect_radix 0 (skip_sign s))).0)
      (skip_spaces-digit c rest (omega (arith, lo), hi))
    ∙ (ap (λ b. (read_number b start (detect_radix 0 (skip_sign start))).0) no_minus
        ∙ (ap (λ s. (read_number false start (detect_radix 0 s)).0) no_sign
            ∙ (ap (λ r. (read_number false start r).0) (detect_radix-decimal c rest lo hi)
                ∙ read_number-decimal start (c - 48) ds l (omega (arith, hi)) a h)))

pub atoi-zero : (l : List ℕ) → atoi (48 ∷ 0 ∷ l) ≡ 0
unfolding atoi strtoul read_number detect_radix skip_spaces isspace ndigit read_digits
atoi-zero [] = refl
atoi-zero (x ∷ l) = refl

-- A number in radix 10, up to a byte that is no digit.
pub strtoul-digits :
    (c : ℕ) (ds : List ℕ) (e : ℕ) (l : List ℕ)
    → IsDigit c
    → All IsDigit ds
    → ndigit e ≡ rub
    → digits_value (c - 48) ds < 4294967296
    → strtoul 10 (c ∷ ds ++ e ∷ l) ≡ (digits_value (c - 48) ds, 0, e ∷ l)
unfolding strtoul detect_radix read_number
strtoul-digits c ds e l (lo, hi) a ne h =
    let rest = ds ++ e ∷ l in
    let start = c ∷ rest in
    let no_minus : is_minus start ≡ false = ground (arith, lo) in
    let no_sign : skip_sign start ≡ start =
      let test : ((c == 45) || (c == 43)) ≡ false = ground (arith, lo) in
      ap (λ b. if b then rest else start) test in
    let digit : ndigit c ≡ c - 48 = ndigit-IsDigit c (lo, hi) in
    let small : leb 10 (c - 48) ≡ false = ground (arith, hi) in
    ap (λ s. read_number (is_minus s) start (detect_radix 10 (skip_sign s)))
      (skip_spaces-digit c rest (lo, hi))
    ∙ ap (λ b. read_number b start (detect_radix 10 (skip_sign start))) no_minus
    ∙ ap (λ s. read_number false start (detect_radix 10 s)) no_sign
    ∙ ap (λ d. read_number false start (10, d, rest)) digit
    ∙ ap
        (λ b. if b then (0, 1, start) else (
          (read_digits 10 (c - 48) 0 rest).0,
          (read_digits 10 (c - 48) 0 rest).1,
          (read_digits 10 (c - 48) 0 rest).2,
        ))
        small
    ∙ read_digits-digits ds (c - 48) e l a ne h
