-- ===== src/Environment/Tests.antt =====
-- The theorem about cli/cli_env.c at concrete changes.
use gogoboot.Base.{◌≡◌, none, some, List, [], ◌∷◌}
use gogoboot.Environment.{get_environment_variable}
use gogoboot.Environment.Map.{Change, set_all, latest, get_environment_variable-set_all}

-- set AB 1, set cd 2, set ab 3, and cd is removed.
abbrev changes : List Change
changes =
    record { name = 65 ∷ 66 ∷ []; value = some (49 ∷ []) }
    ∷ record { name = 99 ∷ 100 ∷ []; value = some (50 ∷ []) }
    ∷ record { name = 97 ∷ 98 ∷ []; value = some (51 ∷ []) }
    ∷ record { name = 67 ∷ 100 ∷ []; value = none }
    ∷ []

get_environment_variable-set_all_example :
    get_environment_variable (65 ∷ 98 ∷ []) (set_all changes [])
    ≡ latest (65 ∷ 98 ∷ []) changes none
get_environment_variable-set_all_example = get_environment_variable-set_all changes (65 ∷ 98 ∷ [])
