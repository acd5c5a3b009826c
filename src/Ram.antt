-- ===== src/Ram.antt =====
-- The memory map of core/mem.c: how much RAM is fitted, and which ranges may be written. What the
-- hardware makes of an address is a parameter, `Bus`.
pub mod Measure
pub mod Range
mod Tests
use Prim.Native.Nat.{bit_or}
use gogoboot.Base.{
  ℕ, zero, suc, ◌+◌, ◌-◌, ◌*◌, ◌/◌, ◌%◌, ◌^◌, Bool, not, ◌&&◌, Option, none, some, ltb, ◌==◌,
  if◌then◌else◌,
}
use gogoboot.Timer.{word}

-- The cell that an address reaches, and what is read at one that reaches none.
pub record Bus : Type 0 where
  pub decode : ℕ → Option ℕ
  pub floating : ℕ → ℕ

-- The cells that are fitted, a longword each.
abbrev pub Cells : Type 0
Cells = ℕ → ℕ

unfoldable pub store_cell : Option ℕ → ℕ → Cells → Cells
store_cell none v m = m
store_cell (some c) v m = λ a. if a == c then v else m a

unfoldable pub load_cell : ℕ → Option ℕ → Cells → ℕ
load_cell float none m = float
load_cell float (some c) m = m c

pub write_long : Bus → ℕ → ℕ → Cells → Cells
unfolding store_cell
write_long bus addr v m = store_cell (bus.decode addr) v m

pub read_long : Bus → ℕ → Cells → ℕ
unfolding load_cell
read_long bus addr m = load_cell (bus.floating addr) (bus.decode addr) m

-- `UNIT_ADDRESS` and `UNIT_TEST_VALUE`.
unfoldable pub unit_address : ℕ → ℕ → ℕ
unit_address unit_size unit = (unit * unit_size + (word - 4)) % word

pub unit_test_value : ℕ → ℕ
unit_test_value unit = bit_or unit ((word - 1 - unit) * 2 ^ 16 % word)

-- `for(int unit=max_units; unit > 0; unit--)`
pub write_units : Bus → (unit_size unit : ℕ) → Cells → Cells
write_units bus unit_size zero m = m
write_units bus unit_size (suc unit) m =
    write_units bus unit_size unit
      (write_long bus (unit_address unit_size (suc unit)) (unit_test_value (suc unit)) m)

-- `for(int unit=1; unit<=max_units; unit++)`, with the number of units that are left.
pub read_units : Bus → (unit_size left unit ram_size : ℕ) → Cells → ℕ
read_units bus unit_size zero unit ram_size m = ram_size
read_units bus unit_size (suc left) unit ram_size m =
    let rest = read_units bus unit_size left (unit + 1) (unit * unit_size % word) m in
    if read_long bus (unit_address unit_size unit) m == unit_test_value unit then rest else ram_size

-- The two loops of `measure_ram_size`; gives `ram_size`.
pub measure_ram_size : Bus → (max_ram unit_size : ℕ) → Cells → ℕ
measure_ram_size bus max_ram unit_size m =
    let max_units = max_ram / unit_size in
    read_units bus unit_size max_units 1 0 (write_units bus unit_size max_units m)

pub record Layout : Type 0 where
  pub ram_size : ℕ
  pub heap_base : ℕ
  pub bounce_below_addr : ℕ
  pub rom_below_addr : ℕ

-- The messages of `check_writable_range`; `no_problem` is NULL.
pub data RangeProblem : Type 0 where
  past_end_of_ram overlaps_heap overlaps_rom overlaps_gogoboot no_problem : RangeProblem

pub check_writable_range : Layout → (base len : ℕ) → Bool → RangeProblem
check_writable_range l base len can_bounce =
    if ltb l.ram_size ((base + len) % word)
    then past_end_of_ram
    else if ltb l.heap_base ((base + len) % word)
    then overlaps_heap
    else if ltb base l.rom_below_addr
    then overlaps_rom
    else if not can_bounce && ltb base l.bounce_below_addr
    then overlaps_gogoboot
    else no_problem
