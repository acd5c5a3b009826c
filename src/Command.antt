-- ===== src/Command.antt =====
-- The splitting of a command line into its arguments in cli/cli.c. A line is the list of its bytes, without
-- the NUL.
pub mod Words
mod Tests
use gogoboot.Base.{
  ℕ, zero, suc, Bool, true, false, ◌||◌, Option, none, some, List, [], ◌∷◌, ◌==◌, if◌then◌else◌,
  length,
}
use gogoboot.Strtoul.{isspace, skip_spaces}

abbrev pub maxarg : ℕ
maxarg = 40

-- The bytes up to the terminator and those behind it; `none` if it does not come.
pub scan_quoted : ℕ → List ℕ → Option (List ℕ × List ℕ)
scan_quoted term [] = none
scan_quoted term (c ∷ l) =
    let rest = scan_quoted term l in
    if c == term
    then some ([], l)
    else elim rest [ none ↦ none | some (arg, l') ↦ some (c ∷ arg, l') ]

-- The bytes up to a space, which is passed over, or to the end.
pub scan_word : List ℕ → List ℕ × List ℕ
scan_word [] = ([], [])
scan_word (c ∷ l) = let rest = scan_word l in if isspace c then ([], l) else (c ∷ rest.0, rest.1)

abbrev pub one_arg : Option (List ℕ × List ℕ) → Option (List (List ℕ) × List ℕ)
one_arg none = none
one_arg (some (arg, l)) = some (arg ∷ [], l)

-- One argument or none, behind the spaces, and what follows it; `none` for a quoted one that does not end.
pub next_arg : List ℕ → Option (List (List ℕ) × List ℕ)
next_arg [] = some ([], [])
next_arg (c ∷ l) =
    if (c == 34) || (c == 39) then one_arg (scan_quoted c l) else one_arg (some (scan_word (c ∷ l)))

abbrev pub put_first : List (List ℕ) → Option (List (List ℕ)) → Option (List (List ℕ))
put_first [] r = r
put_first (arg ∷ _) none = none
put_first (arg ∷ _) (some args) = some (arg ∷ args)

abbrev pub pass_arg :
    Option (List (List ℕ) × List ℕ) → (List ℕ → Option (List (List ℕ))) → Option (List (List ℕ))
pass_arg none rest = none
pass_arg (some (arg, l)) rest = put_first arg (rest l)

-- The loop, with room for so many arguments; each round but the last takes an argument.
pub split_line : ℕ → List ℕ → Option (List (List ℕ))
split_line zero l = some []
split_line (suc room) [] = some []
split_line (suc room) (c ∷ l) = pass_arg (next_arg (skip_spaces (c ∷ l))) (split_line room)

-- The arguments that `execute_cmd` passes on; `none` if it does not call the command.
pub execute_cmd : List ℕ → Option (List (List ℕ))
execute_cmd linebuffer = split_line maxarg linebuffer
