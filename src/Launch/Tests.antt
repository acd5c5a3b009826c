-- ===== src/Launch/Tests.antt =====
-- A program that is started with two arguments on the small machine of the loader's tests.
use gogoboot.Base.{ℕ, ◌+◌, ◌≤◌, List, [], ◌∷◌, arith}
use gogoboot.Loader.Sample.{loader0, loader0-IsReady}
use gogoboot.Launch.{command_length, execute}
use gogoboot.Launch.Start.{Execution, execute-Execution}

abbrev args : List (List ℕ)
args = (97 ∷ []) ∷ (98 ∷ 99 ∷ []) ∷ []

args_short : command_length 1 args ≤ 2048 + 128
unfolding command_length
args_short = omega arith

execute-Execution_example : Execution 4160 2044 args loader0 (execute 2044 args loader0)
execute-Execution_example =
    execute-Execution 4160 2 2048 2044 args loader0 loader0-IsReady (omega arith) args_short
