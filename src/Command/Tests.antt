-- ===== src/Command/Tests.antt =====
-- The theorem about cli/cli.c at a concrete line.
use gogoboot.Base.{◌≡◌, refl, some, List, [], ◌∷◌, map, arith}
use gogoboot.Strtoul.{isspace}
use gogoboot.Command.{execute_cmd}
use gogoboot.Command.Words.{Argument, plain, quoted, text, line, execute_cmd-line}

-- cp "a b" c, and an empty argument.
abbrev arguments : List Argument
arguments = plain (99 ∷ 112 ∷ []) ∷ quoted (97 ∷ 32 ∷ 98 ∷ []) ∷ plain (99 ∷ []) ∷ quoted [] ∷ []

execute_cmd-line_example : execute_cmd (line arguments) ≡ some (map text arguments)
unfolding isspace
execute_cmd-line_example =
    execute_cmd-line arguments (omega arith)
      ((refl, (refl, (refl, tt))), ((refl, (refl, (refl, tt))), ((refl, (refl, tt)), (tt, tt))))
