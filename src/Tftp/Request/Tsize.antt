-- ===== src/Tftp/Request/Tsize.antt =====
-- The size that a request of net/tftp.c states, as lib/strtoul.c reads it back from the answer.
use native.Mathlib.Nat.{pow-suc}
use gogoboot.Base.{
  ℕ, zero, suc, ◌+◌, ◌-◌, ◌/◌, ◌%◌, ◌^◌, ◌≤◌, ◌<◌, ◌≡◌, refl, sym, ap, ◌∙◌, inl, inr, Bool-cases,
  if-elim, List, [], ◌∷◌, ◌++◌, arith, ◌==◌, All,
}
use gogoboot.Strtoul.{atoi}
use gogoboot.Strtoul.Decimal.{IsDigit, digits_value, atoi-digits, atoi-zero}
use gogoboot.Tftp.Request.{decimal, digits_max}

-- The digits of a positive number: the first is not 0, and they have its value.
abbrev IsPrinted : ℕ → List ℕ → List ℕ → Type 0
IsPrinted n t s =
    (c : ℕ) × (ds : List ℕ) × (s ≡ c ∷ ds)
    × (49 ≤ c)
    × (c < 58)
    × All IsDigit ds
    × (digits_value (c - 48) ds ≡ digits_value n t)

decimal-IsPrinted :
    (fuel n : ℕ) (t : List ℕ)
    → 0 < n
    → n < 10 ^ fuel
    → All IsDigit t
    → IsPrinted n t (decimal fuel n t)
unfolding decimal digits_value
decimal-IsPrinted zero n t pos lt a = absurd (omega (arith, pos, lt))
decimal-IsPrinted (suc fuel) n t pos lt a =
    if-elim (IsPrinted n t) (n / 10 == 0)
      (λ h.
        let small : n < 10 = ground (arith, h) in
        (
          n % 10 + 48,
          t,
          refl,
          omega (arith, pos, small),
          omega arith,
          a,
          ap (λ k. digits_value k t) (omega (arith, small)),
        ))
      (λ h.
        let more : 0 < n / 10 = ground (arith, h) in
        let (c, ds, e, lo, hi, a', v) =
          decimal-IsPrinted fuel (n / 10) ((n % 10 + 48) ∷ t) more
            (omega (arith, lt, pow-suc 10 fuel)) ((omega arith, omega arith), a) in
        (c, ds, e, lo, hi, a', v ∙ ap (λ k. digits_value k t) (omega arith)))

decimal-zero : decimal digits_max 0 [] ≡ 48 ∷ []
unfolding decimal
decimal-zero = refl

-- Ten digits are enough for a word, and the number that is printed is the number that is read.
pub atoi-decimal :
    (n : ℕ) (l : List ℕ) → n < 4294967296 → atoi (decimal digits_max n [] ++ 0 ∷ l) ≡ n
unfolding digits_value
atoi-decimal n l h = elim (Bool-cases (n == 0)) [
  | inl e ↦
      let none_ : n ≡ 0 = ground (arith, e) in
      ap (λ k. atoi (decimal digits_max k [] ++ 0 ∷ l)) none_
      ∙ (ap (λ x. atoi (x ++ 0 ∷ l)) decimal-zero ∙ (atoi-zero l ∙ sym none_))
  | inr e ↦
      let (c, ds, s, lo, hi, a, v) =
        decimal-IsPrinted 10 n [] (ground (arith, e)) (omega (arith, h)) tt in
      ap (λ x. atoi (x ++ 0 ∷ l)) s ∙ (atoi-digits c ds l lo hi a (omega (arith, v, h)) ∙ v)
]
