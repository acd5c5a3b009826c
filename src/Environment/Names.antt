-- ===== src/Environment/Names.antt =====
-- Names of variables in cli/cli_env.c, whose case does not count.
use gogoboot.Base.{
  leb, if◌then◌else◌, ◌||◌, ◌+◌, ℕ, ◌≡◌, refl, sym, ap, ◌∙◌, Bool, true, false, ◌&&◌, inl, inr,
  Bool-cases, List, [], ◌∷◌, arith, ◌==◌, map,
}
use gogoboot.Environment.{tolower, same_name}

-- Two letters that are the same but for their case: the codes of small and capital letters are 32 apart.
abbrev pub same_letter : ℕ → ℕ → Bool
same_letter a b =
    (a == b)
    || (((leb 65 a && leb a 90) && (b == a + 32)) || ((leb 65 b && leb b 90) && (a == b + 32)))

-- Two texts of the same length that are the same but for the case of letters.
unfoldable pub same_text : List ℕ → List ℕ → Bool
same_text [] [] = true
same_text [] (_ ∷ _) = false
same_text (_ ∷ _) [] = false
same_text (a ∷ s) (b ∷ d) = same_letter a b && same_text s d

tolower-same_letter :
    (a b : ℕ) → (if a == b then true else (tolower a == tolower b)) ≡ same_letter a b
unfolding tolower
tolower-same_letter a b = ground arith

either_then :
    (x y r : Bool) → (if x then r else if y then r else false) ≡ (if x then true else y) && r
either_then true y r = refl
either_then false true r = refl
either_then false false r = refl

pub same_name-same_text : (s d : List ℕ) → same_name s d ≡ same_text s d
unfolding same_name same_text
same_name-same_text [] [] = refl
same_name-same_text [] (b ∷ d) = refl
same_name-same_text (a ∷ s) [] = refl
same_name-same_text (a ∷ s) (b ∷ d) =
    either_then (a == b) (tolower a == tolower b) (same_name s d)
    ∙ (ap (λ x. x && same_name s d) (tolower-same_letter a b)
        ∙ ap (λ x. same_letter a b && x) (same_name-same_text s d))

-- Equality of lists as a test.
unfoldable pub equal : List ℕ → List ℕ → Bool
equal [] [] = true
equal [] (_ ∷ _) = false
equal (_ ∷ _) [] = false
equal (a ∷ s) (b ∷ d) = (a == b) && equal s d

abbrev pub lower : List ℕ → List ℕ
lower s = map tolower s

tolower-tolower : (c : ℕ) → tolower (tolower c) ≡ tolower c
unfolding tolower
tolower-tolower c = ground arith

lower-lower : (s : List ℕ) → lower (lower s) ≡ lower s
lower-lower [] = refl
lower-lower (c ∷ s) =
    ap (λ x. x ∷ lower (lower s)) (tolower-tolower c) ∙ ap (λ l. tolower c ∷ l) (lower-lower s)

same_name-equal : (s d : List ℕ) → same_name s d ≡ equal (lower s) (lower d)
unfolding same_name equal
same_name-equal [] [] = refl
same_name-equal [] (b ∷ d) = refl
same_name-equal (a ∷ s) [] = refl
same_name-equal (a ∷ s) (b ∷ d) =
    let rest = same_name-equal s d in
    elim (Bool-cases (a == b)) [
      | inl e ↦
          let same : a ≡ b = ground (arith, e) in
          let same' : tolower a ≡ tolower b = ap tolower same in
          let t : tolower a == tolower b ≡ true = ground (arith, same') in rw (e, t) rest
      | inr e ↦ elim (Bool-cases (tolower a == tolower b)) [
        | inl t ↦ rw (e, t) rest
        | inr t ↦ rw (e, t)
      ]
    ]

equal-true : (s d : List ℕ) → equal s d ≡ true → s ≡ d
unfolding equal
equal-true [] [] h = refl
equal-true [] (b ∷ d) h = absurd (cc h)
equal-true (a ∷ s) [] h = absurd (cc h)
equal-true (a ∷ s) (b ∷ d) h = elim (Bool-cases (a == b)) [
  | inl e ↦
      let same : a ≡ b = ground (arith, e) in
      let rest : equal s d ≡ true = ap (λ x. x && equal s d) (sym e) ∙ h in
      ap (λ x. x ∷ s) same ∙ ap (λ l. b ∷ l) (equal-true s d rest)
  | inr e ↦ let no : false ≡ true = ap (λ x. x && equal s d) (sym e) ∙ h in absurd (cc no)
]

equal_refl : (s : List ℕ) → equal s s ≡ true
unfolding equal
equal_refl [] = refl
equal_refl (a ∷ s) = let e : a == a ≡ true = ground arith in rw e (equal_refl s)

-- Of two names that are the same, either can stand for the other.
pub same_name-lower :
    (s d name : List ℕ) → same_name s d ≡ true → same_name s name ≡ same_name d name
same_name-lower s d name h =
    let e : lower s ≡ lower d = equal-true (lower s) (lower d) (sym (same_name-equal s d) ∙ h) in
    same_name-equal s name ∙ (ap (λ l. equal l (lower name)) e ∙ sym (same_name-equal d name))

pub same_name_refl : (s : List ℕ) → same_name s s ≡ true
same_name_refl s = same_name-equal s s ∙ equal_refl (lower s)

pub same_name_sym : (s d : List ℕ) → same_name s d ≡ true → same_name d s ≡ true
same_name_sym s d h = sym (same_name-lower s d s h) ∙ same_name_refl s

-- A name is stored in lower case.
pub lower-same_name : (s name : List ℕ) → same_name (lower s) name ≡ same_name s name
lower-same_name s name =
    same_name-equal (lower s) name
    ∙ (ap (λ l. equal l (lower name)) (lower-lower s) ∙ sym (same_name-equal s name))
