-- ===== src/Libgcc/Tests.antt =====
-- The division routines at concrete numbers.
use mathlib.Core.Option
use gogoboot.Base.{◌-◌, ◌/◌, ◌%◌, ◌^◌, ◌≡◌, refl, true, false, some, arith, if◌then◌else◌}
use gogoboot.Base.Int.{negsuc, signed32}
use gogoboot.Libgcc.{shift_up, subtract_down, keep_shifting, udivmodsi4, divsi3}
use gogoboot.Libgcc.Unsigned.{udivmodsi4_lem}

udivmodsi4_runs : udivmodsi4 1000000007 1234 true ≡ some 959
unfolding udivmodsi4 shift_up subtract_down keep_shifting
udivmodsi4_runs = refl

udivmodsi4_lem_example :
    udivmodsi4 1000000007 1234 false ≡ some (if false then 1000000007 % 1234 else 1000000007 / 1234)
udivmodsi4_lem_example =
    udivmodsi4_lem 1000000007 1234 false (omega arith) (omega arith) (omega arith)

-- -7 / 2 is -3, and -7 % 2 is -1.
divsi3_runs : Option.map signed32 (divsi3 (2 ^ 32 - 7) 2) ≡ some (negsuc 2)
unfolding divsi3 udivmodsi4 shift_up subtract_down keep_shifting
divsi3_runs = refl
