-- ===== src/Loader/First.antt =====
-- `bounce_expand` of core/loader.c where there is no buffer yet.
use gogoboot.Base.{
  ℕ, ◌+◌, ◌*◌, ◌/◌, ◌%◌, ◌≤◌, ◌<◌, ◌≡◌, refl, false, not, inl, Option, none, some, arith, ◌==◌,
}
use Prim.Native.Nat.{bit_and}
use gogoboot.Base.Int.{neg32}
use gogoboot.Base.Bits.{bit_and-low_mask}
use gogoboot.Tinyalloc.{Block, Heap, block_addr, alloc_block, ta_alloc}
use gogoboot.Loader.{
  Loader, malloc, unless_null, round_longword, make_buffer, make_behind, bounce_expand,
}
use gogoboot.Loader.Buffer.{
  IsHeld, held, IsReady, round_longword_lem, align_down, at_once, behind_scratch, Expanded,
  Expansion, refused, expanded, Allocation, fails, gives, allocation, behind, find_head,
}

-- The first buffer, behind a scratch space.
module _ (start k limit paddr n : ℕ) (l : Loader) (r : IsReady start k limit l)
    (unused_size : l.bounce_buffer_size ≡ 0) (pos : 0 < n) (up : paddr + n ≤ limit) where
  abbrev down : ℕ
  down = paddr / 4 * 4

  abbrev whole : ℕ
  whole = (n + paddr % 4 + 3) / 4 * 4

  whole_fits : (0 < whole) × (down + whole ≤ limit) × (paddr + n ≤ down + whole) × (whole % 4 ≡ 0)
  whole_fits = (omega arith, omega (arith, r.limit_aligned), omega arith, omega arith)

  make_buffer-Expanded :
      (scratch : ℕ) (h h' : Heap) (b b' : Block)
      → alloc_block 128 l.heap ≡ (some b, h)
      → alloc_block whole h ≡ (some b', h')
      → Expanded start k limit paddr n l (record l {
        scratch_space = scratch;
        bounce_buffer_data = b'.addr;
        bounce_buffer_size = whole;
        bounce_buffer_target = down;
        heap = h';
      })
  make_buffer-Expanded scratch h h' b b' e e' =
      let (wpos, fit, reach, walign) = whole_fits in
      let (v1, a1, s1, u1, low1, high1) =
        behind start k 128 (limit + 128) l.heap h b r.valid r.admits (omega arith) (omega arith)
          e in
      let (v2, a2, s2, u2, low2, high2) =
        behind start k whole (limit + 128) h h' b' v1 a1 wpos (omega (arith, fit)) e' in
      let got : IsHeld limit (record l {
        scratch_space = scratch;
        bounce_buffer_data = b'.addr;
        bounce_buffer_size = whole;
        bounce_buffer_target = down;
        heap = h';
      }) =
        record {
          buffer = b';
          others = h.used;
          in_use = find_head b' h' h.used u2;
          data_pos = omega (arith, low2, r.limit_le, r.limit_pos);
          fits = s2;
          size_pos = wpos;
          target_aligned = omega arith;
          size_aligned = walign;
          below_limit = fit;
        } in
      record {
        ready = record {
          valid = v2;
          admits = a2;
          limit_aligned = r.limit_aligned;
          limit_le = r.limit_le;
          limit_pos = r.limit_pos;
          small = r.small;
          state = held got;
        };
        held = got;
        reaches_down = omega arith;
        reaches_up = reach;
        same_start = inl unused_size;
        no_smaller = omega (arith, unused_size);
        keeps_memory = λ a q. refl;
        keeps_buffer = λ i q. absurd (omega (arith, q, unused_size));
      }

  abbrev made : ℕ → Option Block × Heap → Option Loader
  unfolding unless_null
  made scratch x = elim (unless_null (block_addr x.0, x.1)) [
    | none ↦ none
    | some (p, h'') ↦ some (record l {
      scratch_space = scratch;
      bounce_buffer_data = p;
      bounce_buffer_size = whole;
      bounce_buffer_target = down;
      heap = h'';
    })
  ]

  made-Expansion :
      (h : Heap) (b : Block) (x : Option Block × Heap)
      → alloc_block 128 l.heap ≡ (some b, h)
      → Allocation whole h x
      → Expansion start k limit paddr n l (made b.addr x)
  unfolding made unless_null
  made-Expansion h b _ e (fails h' e') =
      let (wpos, fit, reach, walign) = whole_fits in
      refused (behind_scratch whole b h h' (omega (arith, fit)) e e')
  made-Expansion h b _ e (gives b' h' e') = expanded (make_buffer-Expanded b.addr h h' b b' e e')

  make_buffer-Expansion :
      (h : Heap) (b : Block)
      → alloc_block 128 l.heap ≡ (some b, h)
      → Expansion start k limit paddr n l (make_buffer down whole l (b.addr, h))
  unfolding make_buffer malloc ta_alloc made
  make_buffer-Expansion h b e =
      made-Expansion h b (alloc_block whole h) e (allocation whole h (alloc_block whole h) refl)

  first : Option Block × Heap → Option Loader
  first x = make_behind down whole l (unless_null (block_addr x.0, x.1))

  first-Expansion :
      (x : Option Block × Heap)
      → Allocation 128 l.heap x
      → Expansion start k limit paddr n l (first x)
  unfolding first unless_null make_behind
  first-Expansion _ (fails h' e) = refused (at_once 128 h' (omega arith) e)
  first-Expansion _ (gives b h' e) = make_buffer-Expansion h' b e

  pub first_buffer :
      l.bounce_buffer_data ≡ 0 → Expansion start k limit paddr n l (bounce_expand paddr n l)
  unfolding bounce_expand malloc ta_alloc first unless_null
  first_buffer e =
      let test : not (l.bounce_buffer_data == 0) ≡ false = ground (arith, e) in
      let p : bit_and paddr (neg32 4) ≡ down = align_down paddr (omega (arith, up, r.small)) in
      let q : bit_and paddr 3 ≡ paddr % 4 = bit_and-low_mask 2 paddr in
      let w : round_longword (n + paddr % 4) ≡ whole =
        round_longword_lem (n + paddr % 4) (omega (arith, up, r.small)) in
      rw (test, p, q, w)
        (first-Expansion (alloc_block 128 l.heap)
          (allocation 128 l.heap (alloc_block 128 l.heap) refl))
