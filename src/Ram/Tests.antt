-- ===== src/Ram/Tests.antt =====
-- The theorems about core/mem.c at concrete hardware.
use gogoboot.Base.{◌↔◌, true, ℕ, ◌+◌, ◌%◌, ◌≡◌, Option, none, some, arith}
use gogoboot.Ram.{Bus, Layout, no_problem, check_writable_range}
use gogoboot.Ram.Range.{IsClear, check_writable_range_iff}

-- Two units of 1 MB, which the rest of the address space mirrors.
abbrev mirrored : Bus
mirrored = record { decode = λ a. some (a % 2097152); floating = λ a. 0 }

abbrev cell_number : Option ℕ → ℕ
cell_number none = 0
cell_number (some c) = c

abbrev layout : Layout
layout = record {
  ram_size = 0x200000;
  heap_base = 0x1c0000;
  bounce_below_addr = 0x40000;
  rom_below_addr = 0x400;
}

check_writable_range_iff_example :
    (check_writable_range layout 0x10000 0x20000 true ≡ no_problem)
    ↔ IsClear layout 0x10000 (0x10000 + 0x20000) true
check_writable_range_iff_example =
    check_writable_range_iff layout 0x10000 0x20000 true (omega arith)
