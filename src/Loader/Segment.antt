-- ===== src/Loader/Segment.antt =====
-- `load_data` of core/loader.c: a segment of a file comes to its place, partly by way of the bounce
-- buffer.
use mathlib.Core.Path.{subst}
use gogoboot.Base.{
  ℕ, ◌+◌, ◌-◌, ◌≤◌, ◌<◌, ◌≡◌, ◌⊎◌, refl, true, false, inl, inr, Bool-cases, Option, some, List,
  arith, ltb, ◌==◌, length,
}
use gogoboot.Tinyalloc.{word}
use gogoboot.Ram.{Layout, no_problem, check_writable_range}
use gogoboot.Ram.Range.{IsClear, check_writable_range_iff}
use gogoboot.Loader.{
  FileApi, Loader, load_part, load_bounced, bounced, bounce_address, load_split, bounce_size_of,
  load_data, passes, Loaded, bounce_expand,
}
use gogoboot.Loader.Buffer.{IsReady, Expansion, refused, expanded}
use gogoboot.Loader.Bounce.{bounce_expand-Expansion}
use gogoboot.Loader.Halves.{IsReliable}
use gogoboot.Loader.Direct.{Loading, halted, comes, direct-Comes}
use gogoboot.Loader.Bounced.{bounced-Comes}

module _ {F : Type 0} (api : FileApi F) (IsOpen : F → List ℕ → ℕ → Type 0)
    (law : IsReliable api IsOpen) (content : List ℕ) (start k : ℕ) (lay : Layout)
    (paddr offset file_size size at : ℕ) (fd : F) (l : Loader)
    (r : IsReady start k lay.bounce_below_addr l) (o : IsOpen fd content at)
    (there : 0 < file_size → offset + file_size ≤ length content) (w : length content < word)
    (pos : 0 < size) (clear : IsClear lay paddr (paddr + size) true) (small : paddr + size < word)
    (heap_above : lay.heap_base ≤ start)
    (above : (l.bounce_buffer_size ≡ 0) ⊎ (l.bounce_buffer_target ≤ paddr)) where
  abbrev Result : Option (Loaded F) → Type 0
  Result x = Loading IsOpen start k lay.bounce_below_addr content paddr offset file_size size l x

  load_bounced-Loading :
      (bs ds : ℕ) (x : Option Loader)
      → Expansion start k lay.bounce_below_addr paddr bs l x
      → 0 < bs
      → bs + ds ≡ size
      → (0 < ds → lay.bounce_below_addr ≤ paddr + bs)
      → Result (load_bounced api paddr offset bs ds file_size fd x)
  unfolding load_bounced
  load_bounced-Loading bs ds _ (refused e) p sum low = halted e
  load_bounced-Loading bs ds _ (expanded {l'} x) p sum low =
      subst
        (λ (n : ℕ).
          Loading IsOpen start k lay.bounce_below_addr content paddr offset file_size n l (
            some (
              bounced api paddr offset bs ds l'
                (load_part api offset (bounce_address paddr l') bs file_size fd l'.memory))))
        sum
        (comes (
          bounced-Comes api IsOpen law content start k lay.bounce_below_addr paddr offset bs ds
            file_size l l' r x there w p low (omega (arith, clear.below_heap, heap_above, sum)) at
            fd o))

  split_sizes :
      (bs : ℕ)
      → bounce_size_of lay paddr size ≡ bs
      → ((bs ≡ 0) × (lay.bounce_below_addr ≤ paddr))
        ⊎ ((0 < bs)
            × (bs + (size - bs) ≡ size)
            × (paddr + bs ≤ lay.bounce_below_addr)
            × (0 < size - bs → lay.bounce_below_addr ≤ paddr + bs))
  unfolding bounce_size_of
  split_sizes bs e = elim (Bool-cases (ltb paddr lay.bounce_below_addr)) [
    | inl low ↦ inr (
      ground (arith, e, low, pos),
      ground (arith, e, low),
      ground (arith, e, low),
      λ q. ground (arith, e, low, q),
    )
    | inr high ↦ inl (ground (arith, e, high), ground (arith, high))
  ]

  split-Loading :
      (bs : ℕ)
      → bounce_size_of lay paddr size ≡ bs
      → Result (load_split api paddr offset bs (size - bs) file_size fd l)
  unfolding load_split
  split-Loading bs e = elim (split_sizes bs e) [
    | inl (zero', high) ↦
        let all : size - 0 ≡ size = omega arith in
        rw (zero', all)
          (comes (
            direct-Comes api IsOpen law content start k lay.bounce_below_addr paddr offset size
              file_size at fd l r o there w pos high (omega (arith, clear.below_heap, heap_above))))
    | inr (p, sum, fits, low) ↦
        let test : (bs == 0) ≡ false = ground (arith, p) in
        rw test (
          load_bounced-Loading bs (size - bs) (bounce_expand paddr bs l)
            (bounce_expand-Expansion start k lay.bounce_below_addr paddr bs l r above p fits) p sum
            low)
  ]

  -- A non-empty segment between the ROM and the heap comes to its place: the result is FR_OK, and a
  -- program that runs once the bounce buffer is copied finds the file's bytes and then zeros. What was
  -- loaded elsewhere before is kept, and gogoboot's own memory is not written to. The segment must not
  -- reach below the start of the bounce buffer. The machine halts only if memory for the buffer is
  -- refused.
  pub load_data-Loading :
      Loading IsOpen start k lay.bounce_below_addr content paddr offset file_size size l
        (load_data api lay paddr offset file_size size fd l)
  unfolding load_data passes
  load_data-Loading =
      let clean : check_writable_range lay paddr size true ≡ no_problem =
        (check_writable_range_iff lay paddr size true small).1 clear in
      rw clean (split-Loading (bounce_size_of lay paddr size) refl)
