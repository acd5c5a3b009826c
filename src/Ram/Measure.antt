-- ===== src/Ram/Measure.antt =====
-- `measure_ram_size` of core/mem.c finds the RAM that is fitted, also where the missing part mirrors it.
use gogoboot.Base.{ℕ, ◌+◌, ◌-◌, ◌*◌, ◌%◌, ◌^◌, ◌≤◌, ◌<◌, ◌≡◌, ◌≢◌, ◌⊎◌, Option, none, arith}
use gogoboot.Base.Bits.{bit_or-add}
use gogoboot.Timer.{word}
use gogoboot.Ram.{Bus, Cells, read_long, unit_address, unit_test_value}

pub unit_test_value_lem : (u : ℕ) → u < 2 ^ 16 → unit_test_value u ≡ u + (65535 - u) * 2 ^ 16
unfolding unit_test_value
unit_test_value_lem u h =
    let high : (word - 1 - u) * 2 ^ 16 % word ≡ (65535 - u) * 2 ^ 16 = omega (arith, h) in
    rw high (bit_or-add 16 u (65535 - u) h)

module _ (bus : Bus) (unit_size : ℕ) where
  -- The cell at the end of a unit.
  abbrev cell_of : ℕ → Option ℕ
  cell_of unit = bus.decode (unit_address unit_size unit)

  abbrev read_unit : ℕ → Cells → ℕ
  read_unit unit m = read_long bus (unit_address unit_size unit) m

  -- The first `fitted` units have cells of their own. The next one has none, and the bus does not float at
  -- its test value, or it mirrors one that is fitted.
  pub record HasFitted (fitted : ℕ) : Type 0 where
    pub reached : (u : ℕ) → 0 < u → u ≤ fitted → cell_of u ≢ none
    pub apart : (u v : ℕ) → 0 < u → u < v → v ≤ fitted → cell_of u ≢ cell_of v
    pub beyond :
        ((cell_of (fitted + 1) ≡ none)
          × (bus.floating (unit_address unit_size (fitted + 1)) ≢ unit_test_value (fitted + 1)))
        ⊎ ((v : ℕ) × (0 < v) × (v ≤ fitted) × (cell_of (fitted + 1) ≡ cell_of v))
