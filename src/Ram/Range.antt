-- ===== src/Ram/Range.antt =====
-- Which ranges `check_writable_range` of core/mem.c lets pass.
use gogoboot.Base.{
  ℕ, ◌+◌, ◌%◌, ◌≤◌, ◌<◌, ◌≡◌, ◌⊎◌, ◌↔◌, refl, Bool, true, false, not, ◌&&◌, inl, inr, arith, ltb,
  if◌then◌else◌, if-elim,
}
use gogoboot.Timer.{word}
use gogoboot.Ram.{
  Layout, RangeProblem, past_end_of_ram, overlaps_heap, overlaps_rom, overlaps_gogoboot, no_problem,
  check_writable_range,
}

-- The end of a range lies in RAM below the heap, its start behind the ROM and, unless the range can be
-- bounced, behind gogoboot.
pub record IsClear (l : Layout) (base end : ℕ) (can_bounce : Bool) : Type 0 where
  pub in_ram : end ≤ l.ram_size
  pub below_heap : end ≤ l.heap_base
  pub behind_rom : l.rom_below_addr ≤ base
  pub behind_gogoboot : (can_bounce ≡ true) ⊎ (l.bounce_below_addr ≤ base)

-- A range that does not wrap past the end of the address space passes exactly if it is clear.
pub check_writable_range_iff :
    (l : Layout) (base len : ℕ) (can_bounce : Bool)
    → base + len < word
    → (check_writable_range l base len can_bounce ≡ no_problem)
      ↔ IsClear l base (base + len) can_bounce
unfolding check_writable_range
check_writable_range_iff l base len b w =
    let same : (base + len) % word ≡ base + len = omega (arith, w) in
    rw same (passes, λ c. clear b c)
  where
    Passes : RangeProblem → Type 0
    Passes r = r ≡ no_problem → IsClear l base (base + len) b

    behind :
        (c : Bool) (t : Bool)
        → t ≡ ltb base l.bounce_below_addr
        → not c && t ≡ false
        → (c ≡ true) ⊎ (l.bounce_below_addr ≤ base)
    behind true t e h = inl refl
    behind false t e h = inr (ground (arith, e, h))

    passes : Passes (
        if ltb l.ram_size (base + len)
        then past_end_of_ram
        else if ltb l.heap_base (base + len)
        then overlaps_heap
        else if ltb base l.rom_below_addr
        then overlaps_rom
        else if not b && ltb base l.bounce_below_addr
        then overlaps_gogoboot
        else no_problem)
    passes =
        if-elim Passes (ltb l.ram_size (base + len)) (λ _ (x : past_end_of_ram ≡ no_problem). cc)
          (λ p.
            if-elim Passes (ltb l.heap_base (base + len)) (λ _ (x : overlaps_heap ≡ no_problem). cc)
              (λ q.
                if-elim Passes (ltb base l.rom_below_addr) (λ _ (x : overlaps_rom ≡ no_problem). cc)
                  (λ r.
                    if-elim Passes (not b && ltb base l.bounce_below_addr)
                      (λ _ (x : overlaps_gogoboot ≡ no_problem). cc)
                      (λ t _. record {
                        in_ram = ground (arith, p);
                        below_heap = ground (arith, q);
                        behind_rom = ground (arith, r);
                        behind_gogoboot = behind b (ltb base l.bounce_below_addr) refl t;
                      }))))

    clear :
        (c : Bool)
        → IsClear l base (base + len) c
        → (if ltb l.ram_size (base + len)
            then past_end_of_ram
            else if ltb l.heap_base (base + len)
            then overlaps_heap
            else if ltb base l.rom_below_addr
            then overlaps_rom
            else if not c && ltb base l.bounce_below_addr
            then overlaps_gogoboot
            else no_problem)
          ≡ no_problem
    clear c h =
        let p : ltb l.ram_size (base + len) ≡ false = ground (arith, h.in_ram) in
        let q : ltb l.heap_base (base + len) ≡ false = ground (arith, h.below_heap) in
        let r : ltb base l.rom_below_addr ≡ false = ground (arith, h.behind_rom) in
        let t : not c && ltb base l.bounce_below_addr ≡ false = elim h.behind_gogoboot [
          | inl x ↦ rw x
          | inr x ↦ ground (arith, x)
        ] in
        rw (p, q, r, t)
