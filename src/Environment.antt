-- ===== src/Environment.antt =====
-- The environment variables of cli/cli_env.c. The list is the list of its entries, the head first; a string
-- is the list of its bytes, without the NUL.
pub mod Names
pub mod Map
mod Tests
use Prim.Native.Nat.{bit_and}
use gogoboot.Base.{
  ℕ, ◌+◌, Bool, true, false, ◌&&◌, Option, none, some, List, [], ◌∷◌, ◌++◌, leb, ◌==◌,
  if◌then◌else◌, map, get_or,
}
use gogoboot.Strtoul.{strtoul, strtol}

pub record Variable : Type 0 where
  pub name : List ℕ
  pub value : List ℕ

pub tolower : ℕ → ℕ
tolower c = if leb 65 c && leb c 90 then c + 32 else c

-- `strcasecmp(s, d) == 0`
pub same_name : List ℕ → List ℕ → Bool
same_name [] [] = true
same_name [] (_ ∷ _) = false
same_name (_ ∷ _) [] = false
same_name (a ∷ s) (b ∷ d) =
    let rest = same_name s d in
    if a == b then rest else if tolower a == tolower b then rest else false

pub get_environment_variable : List ℕ → List Variable → Option (List ℕ)
get_environment_variable name [] = none
get_environment_variable name (e ∷ rest) =
    let next = get_environment_variable name rest in
    if same_name e.name name then some e.value else next

-- The loop that takes an entry out.
pub remove_variable : List ℕ → List Variable → List Variable
remove_variable name [] = []
remove_variable name (e ∷ rest) =
    let rest' = remove_variable name rest in if same_name e.name name then rest else e ∷ rest'

pub set_environment_variable : List ℕ → Option (List ℕ) → List Variable → List Variable
set_environment_variable name none env = remove_variable name env
set_environment_variable name (some val) env =
    record { name = map tolower name; value = val } ∷ remove_variable name env

-- `strchr(name, c)`
pub contains : ℕ → List ℕ → Bool
contains c [] = false
contains c (x ∷ s) = let rest = contains c s in if x == c then true else rest

-- `set` with a name and a value, with a name only, or with neither; more arguments are as none.
abbrev set_argument : List (List ℕ) → Option (List ℕ)
set_argument (val ∷ []) = some val
set_argument _ = none

pub do_set : List (List ℕ) → List Variable → List Variable
do_set [] env = env
do_set (name ∷ rest) env =
    if contains 61 name then env else set_environment_variable name (set_argument rest) env

-- What the value of a variable is read as; a pattern of 32 bits.
pub int_of : ℕ → Option (List ℕ) → ℕ
int_of default_value none = default_value
int_of default_value (some value) = (strtol 0 (value ++ 0 ∷ [])).0

pub get_environment_variable_int : List ℕ → ℕ → List Variable → ℕ
get_environment_variable_int name default_value env =
    int_of default_value (get_environment_variable name env)

pub get_base : List Variable → ℕ
get_base env = get_environment_variable_int (98 ∷ 97 ∷ 115 ∷ 101 ∷ []) 0 env

-- With a prefix 0x the base of the environment does not count. The string has its NUL.
pub parse_uint32 : List ℕ → List Variable → ℕ × ℕ × List ℕ
parse_uint32 cptr env =
    strtoul
      (if (get_or cptr 0 0 == 48) && (bit_and (get_or cptr 1 0) 0xdf == 88)
        then 0
        else get_base env)
      cptr
