-- ===== src/Environment/Map.antt =====
-- The environment of cli/cli_env.c is a map from names, whose case does not count, to values.
use gogoboot.Base.{
  ℕ, ◌≡◌, refl, sym, ap, ◌∙◌, true, false, inl, inr, Bool-cases, if-elim, Option, none, some, List,
  [], ◌∷◌, if◌then◌else◌, All, All-mono,
}
use gogoboot.Environment.{
  Variable, same_name, get_environment_variable, remove_variable, set_environment_variable,
}
use gogoboot.Environment.Names.{
  lower, same_text, same_name-same_text, same_name-lower, same_name_refl, same_name_sym,
  lower-same_name,
}

-- No two entries have the same name.
abbrev HasOther : List ℕ → Variable → Type 0
HasOther name e = same_name e.name name ≡ false

unfoldable pub IsUnique : List Variable → Type 0
IsUnique [] = Unit
IsUnique (e ∷ rest) = All (HasOther e.name) rest × IsUnique rest

HasOther-same :
    (name other x : List ℕ)
    → same_name name other ≡ true
    → same_name x name ≡ false
    → same_name x other ≡ false
HasOther-same name other x h ne = elim (Bool-cases (same_name x other)) [
  | inl hit ↦
      let no : false ≡ true =
        sym ne ∙ (same_name-lower x other name hit ∙ same_name_sym name other h) in
      absurd (cc no)
  | inr miss ↦ miss
]

All-HasOther :
    (name other : List ℕ) (l : List Variable)
    → same_name name other ≡ true
    → All (HasOther name) l
    → All (HasOther other) l
All-HasOther name other l h a = All-mono l (λ e p. HasOther-same name other e.name h p) a

get_environment_variable-HasOther :
    (name : List ℕ) (l : List Variable)
    → All (HasOther name) l
    → get_environment_variable name l ≡ none
unfolding get_environment_variable
get_environment_variable-HasOther name [] a = refl
get_environment_variable-HasOther name (e ∷ l) (p, a) =
    rw p (get_environment_variable-HasOther name l a)

-- The entry that goes out has been the only one of its name.
get-remove_variable :
    (name other : List ℕ) (l : List Variable)
    → IsUnique l
    → get_environment_variable other (remove_variable name l)
      ≡ (if same_name name other then none else get_environment_variable other l)
unfolding get_environment_variable remove_variable IsUnique
get-remove_variable name other [] u =
    if-elim (λ (r : Option (List ℕ)). none ≡ r) (same_name name other) (λ _. refl) (λ _. refl)
get-remove_variable name other (e ∷ l) (a, u) = elim (Bool-cases (same_name e.name name)) [
  | inl hit ↦
      let as_name = same_name-lower e.name name other hit in
      elim (Bool-cases (same_name name other)) [
        | inl asked ↦
            rw (hit, asked)
              (get_environment_variable-HasOther other l
                (All-HasOther e.name other l (as_name ∙ asked) a))
        | inr apart ↦ let far = as_name ∙ apart in rw (hit, apart, far)
      ]
  | inr miss ↦
      let rest = get-remove_variable name other l u in
      elim (Bool-cases (same_name name other)) [
        | inl asked ↦
            let far = HasOther-same name other e.name asked miss in
            rw (miss, asked, far)
              (rest ∙ ap (λ b. if b then none else get_environment_variable other l) asked)
        | inr apart ↦
            rw (miss, apart)
              (ap (λ r. if same_name e.name other then some e.value else r)
                (rest ∙ ap (λ b. if b then none else get_environment_variable other l) apart))
      ]
]

All-remove_variable :
    (P : Variable → Type 0) (name : List ℕ) (l : List Variable)
    → All P l
    → All P (remove_variable name l)
unfolding remove_variable
All-remove_variable P name [] a = tt
All-remove_variable P name (e ∷ l) (p, a) =
    if-elim (All P) (same_name e.name name) (λ _. a) (λ _. (p, All-remove_variable P name l a))

remove_variable-IsUnique :
    (name : List ℕ) (l : List Variable)
    → IsUnique l
    → All (HasOther name) (remove_variable name l) × IsUnique (remove_variable name l)
unfolding remove_variable IsUnique
remove_variable-IsUnique name [] u = (tt, tt)
remove_variable-IsUnique name (e ∷ l) (a, u) =
    if-elim (λ (r : List Variable). All (HasOther name) r × IsUnique r) (same_name e.name name)
      (λ hit. (All-HasOther e.name name l hit a, u))
      (λ miss.
        let (a', u') = remove_variable-IsUnique name l u in
        ((miss, a'), (All-remove_variable (HasOther e.name) name l a, u')))

set_environment_variable-IsUnique :
    (name : List ℕ) (val : Option (List ℕ)) (l : List Variable)
    → IsUnique l
    → IsUnique (set_environment_variable name val l)
unfolding set_environment_variable IsUnique
set_environment_variable-IsUnique name none l u = (remove_variable-IsUnique name l u).1
set_environment_variable-IsUnique name (some val) l u =
    let (a, u') = remove_variable-IsUnique name l u in
    let same = same_name_sym (lower name) name (lower-same_name name name ∙ same_name_refl name) in
    (All-HasOther name (lower name) (remove_variable name l) same a, u')

-- After a change of one name, every name has what it should.
get-set_environment_variable :
    (name other : List ℕ) (val : Option (List ℕ)) (l : List Variable)
    → IsUnique l
    → get_environment_variable other (set_environment_variable name val l)
      ≡ (if same_name name other then val else get_environment_variable other l)
unfolding get_environment_variable set_environment_variable
get-set_environment_variable name other none l u = get-remove_variable name other l u
get-set_environment_variable name other (some val) l u =
    ap (λ b. if b then some val else get_environment_variable other (remove_variable name l))
      (lower-same_name name other)
    ∙ elim (Bool-cases (same_name name other)) [
      | inl asked ↦ rw asked
      | inr apart ↦ rw apart (
          get-remove_variable name other l u
          ∙ ap (λ b. if b then none else get_environment_variable other l) apart)
    ]

-- Changes one after the other: a name, and its value or none.
pub record Change : Type 0 where
  pub name : List ℕ
  pub value : Option (List ℕ)

unfoldable pub set_all : List Change → List Variable → List Variable
set_all [] env = env
set_all (c ∷ l) env = set_all l (set_environment_variable c.name c.value env)

-- The value of the last change whose name is this one, but for its case.
unfoldable pub latest : List ℕ → List Change → Option (List ℕ) → Option (List ℕ)
latest other [] value = value
latest other (c ∷ l) value = latest other l (if same_text c.name other then c.value else value)

get-set_all :
    (l : List Change) (other : List ℕ) (env : List Variable)
    → IsUnique env
    → get_environment_variable other (set_all l env)
      ≡ latest other l (get_environment_variable other env)
unfolding set_all latest
get-set_all [] other env u = refl
get-set_all (c ∷ l) other env u =
    get-set_all l other (set_environment_variable c.name c.value env)
      (set_environment_variable-IsUnique c.name c.value env u)
    ∙ ap (latest other l) (
        get-set_environment_variable c.name other c.value env u
        ∙ ap (λ b. if b then c.value else get_environment_variable other env)
            (same_name-same_text c.name other))

-- After any changes of an empty environment, a name has the value of the last change of it, and none if
-- that removed it or there was no such change; two names are the same if they differ
-- in the case of letters only.
pub get_environment_variable-set_all :
    (l : List Change) (other : List ℕ)
    → get_environment_variable other (set_all l []) ≡ latest other l none
unfolding get_environment_variable IsUnique
get_environment_variable-set_all l other = get-set_all l other [] tt
