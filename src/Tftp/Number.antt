-- ===== src/Tftp/Number.antt =====
-- The numbers of blocks in net/tftp.c, which are 16 bits wide and start again at 0 or 1.
use gogoboot.Base.{
  ℕ, zero, suc, ◌+◌, ◌-◌, ◌%◌, ◌≤◌, ◌<◌, ◌≡◌, sym, ap, ◌∙◌, Bool, true, false, ◌&&◌, arith, ltb,
  leb, ◌==◌, if◌then◌else◌,
}
use gogoboot.Tftp.{Transfer, expected_block_number}

-- The number behind one, where 0 is left out or not, and the one that many blocks on.
abbrev pub next_block : Bool → ℕ → ℕ
next_block from_one block = if block == 65535 then (if from_one then 1 else 0) else block + 1

unfoldable pub block_after : Bool → ℕ → ℕ → ℕ
block_after from_one block zero = block
block_after from_one block (suc n) = next_block from_one (block_after from_one block n)

-- The number without a loop.
abbrev wrapped_block : Bool → ℕ → ℕ
wrapped_block from_one sum =
    if ltb 0xffff sum then (if from_one then sum - 65535 else sum - 65536) else sum

next_block-wrapped_block :
    (from_one : Bool) (sum : ℕ)
    → sum < 131070
    → next_block from_one (wrapped_block from_one sum) ≡ wrapped_block from_one (sum + 1)
next_block-wrapped_block true sum h = ground arith
next_block-wrapped_block false sum h = ground arith

block_after-wrapped_block :
    (from_one : Bool) (block n : ℕ)
    → block < 65536
    → n ≤ 65535
    → block_after from_one block n ≡ wrapped_block from_one (block + n)
unfolding block_after
block_after-wrapped_block from_one block zero h le =
    let e : block + 0 ≡ block = omega arith in
    let low : ltb 0xffff (block + 0) ≡ false = ground (arith, h) in rw low (sym e)
block_after-wrapped_block from_one block (suc n) h le =
    let e : block + n + 1 ≡ block + suc n = omega arith in
    ap (next_block from_one) (block_after-wrapped_block from_one block n h (omega (arith, le)))
    ∙ (next_block-wrapped_block from_one (block + n) (omega (arith, h, le))
        ∙ ap (wrapped_block from_one) e)

expected-wrapped_block :
    (from_one : Bool) (block n : ℕ)
    → block < 65536
    → n ≤ 65535
    → (if ltb 0xffff (block + n)
        then if leb (block + n - 0x10000) n && from_one
          then (block + n - 0x10000 + 1) % 65536
          else (block + n - 0x10000) % 65536
        else (block + n) % 65536)
      ≡ wrapped_block from_one (block + n)
expected-wrapped_block true block n h le = ground arith
expected-wrapped_block false block n h le = ground arith

-- Up to 65535 blocks on, `expected_block_number` is the number that so many single steps lead to: behind
-- 65535 comes 1 with a rollover value of 1, and 0 with any other.
expected_block_number_lem :
    (t : Transfer) (count : ℕ)
    → t.last_block < 65536
    → count ≤ 65535
    → expected_block_number t count ≡ block_after (t.rollover_value == 1) t.last_block count
unfolding expected_block_number
expected_block_number_lem t count h le =
    let closed = block_after-wrapped_block (t.rollover_value == 1) t.last_block count h le in
    expected-wrapped_block (t.rollover_value == 1) t.last_block count h le ∙ sym closed
