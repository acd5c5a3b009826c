-- ===== src/Loader/Grow.antt =====
-- `bounce_expand` of core/loader.c where a buffer has to reach further up.
use mathlib.Core.Path.{subst}
use gogoboot.Base.{
  ℕ, ◌+◌, ◌-◌, ◌*◌, ◌/◌, ◌%◌, ◌^◌, ◌≤◌, ◌<◌, ◌≡◌, refl, sym, ap, ◌∙◌, true, false, not, inl, inr,
  Option, some, List, ◌∷◌, arith, leb, ◌==◌, if◌then◌else◌, if-elim,
}
use gogoboot.Tinyalloc.{
  Block, Heap, Mem, word, unlink_first, realloc_into, ta_free, alloc_block, ta_realloc,
}
use gogoboot.Tinyalloc.Disjoint.{ta_free-IsValid, ta_free-Admits}
use gogoboot.Tinyalloc.Realloc.{ta_realloc-content, ta_realloc-frame, ta_realloc_found}
use gogoboot.Loader.{
  Loader, realloc, realloc_done, round_longword, at_least_zero, grow_into, grown_buffer,
  grow_buffer, bounce_expand,
}
use gogoboot.Loader.Buffer.{
  IsHeld, held, IsReady, Admits-smaller, round_longword_lem, at_once, Expanded, Expansion, refused,
  expanded, Allocation, fails, gives, allocation, behind, find_head,
}

-- A buffer that has to reach further up.
module _ (start k limit paddr n : ℕ) (l : Loader) (r : IsReady start k limit l) (g : IsHeld limit l)
    (down : l.bounce_buffer_target ≤ paddr) (pos : 0 < n) (up : paddr + n ≤ limit) where
  abbrev target_end : ℕ
  target_end = l.bounce_buffer_target + l.bounce_buffer_size

  abbrev more : ℕ
  more = (paddr + n - target_end + 3) / 4 * 4

  none_below : round_longword (at_least_zero ((l.bounce_buffer_target + (word - paddr)) % word)) ≡ 0
  unfolding at_least_zero
  none_below =
      let clamped : (if leb (2 ^ 31) ((l.bounce_buffer_target + (word - paddr)) % word)
            then 0
            else (l.bounce_buffer_target + (word - paddr)) % word)
          ≡ 0 =
        ground (arith, down, up, r.small) in
      rw clamped (round_longword_lem 0 (omega arith))

  some_above :
      round_longword (
        at_least_zero
          ((paddr + n + (2 * word - (l.bounce_buffer_target + l.bounce_buffer_size))) % word))
      ≡ more
  unfolding at_least_zero
  some_above =
      let clamped : (if leb (2 ^ 31)
              ((paddr + n + (2 * word - (l.bounce_buffer_target + l.bounce_buffer_size))) % word)
            then 0
            else (paddr + n + (2 * word - (l.bounce_buffer_target + l.bounce_buffer_size))) % word)
          ≡ paddr + n - target_end =
        ground (arith, up, r.small, g.below_limit) in
      rw clamped (round_longword_lem (paddr + n - target_end) (omega (arith, up, r.small)))

  abbrev newsize : ℕ
  newsize = l.bounce_buffer_size + more

  newsize_fits :
      (l.bounce_buffer_target + newsize ≤ limit)
      × (paddr + n ≤ l.bounce_buffer_target + newsize)
      × (newsize % 4 ≡ 0)
  newsize_fits = (
    omega (arith, up, g.below_limit, r.limit_aligned, g.target_aligned, g.size_aligned),
    omega arith,
    omega (arith, g.size_aligned),
  )

  abbrev grown_at : Heap → Mem → ℕ → Loader
  grown_at h mem p = record l {
    bounce_buffer_data = p;
    bounce_buffer_size = newsize;
    heap = h;
    memory = mem;
  }

  grown-IsHeld :
      (h : Heap) (mem : Mem) (b : Block) (others : List Block)
      → unlink_first (λ c. b.addr == c.addr) h.used ≡ some (b, others)
      → 0 < b.addr
      → newsize ≤ b.size
      → IsHeld limit (grown_at h mem b.addr)
  grown-IsHeld h mem b others e q fits =
      let (fit, reach, align) = newsize_fits in
      record {
        buffer = b;
        others = others;
        in_use = e;
        data_pos = q;
        fits = fits;
        size_pos = omega (arith, g.size_pos);
        target_aligned = g.target_aligned;
        size_aligned = align;
        below_limit = fit;
      }

  reallocated :
      ta_realloc l.bounce_buffer_data newsize (l.heap, l.memory)
      ≡ realloc_into l.bounce_buffer_data newsize g.buffer.size l.memory
          (alloc_block newsize l.heap)
  reallocated =
      ta_realloc_found l.bounce_buffer_data newsize l.heap l.memory g.buffer g.others g.in_use
        (omega (arith, g.fits, g.size_pos))

  grown-Expanded :
      (h : Heap) (b : Block)
      → alloc_block newsize l.heap ≡ (some b, h)
      → Expanded start k limit paddr n l (
          grown_at
            (ta_free l.bounce_buffer_data h).1
            (ta_realloc l.bounce_buffer_data newsize (l.heap, l.memory)).2
            b.addr)
  unfolding realloc_into
  grown-Expanded h b e =
      let ptr = l.bounce_buffer_data in
      let (fit, reach, align) = newsize_fits in
      let nonzero : 0 < newsize = omega (arith, g.size_pos) in
      let room : newsize ≤ limit + 128 = omega (arith, fit) in
      let (v1, a1, s1, u1, low, high) =
        behind start k newsize (limit + 128) l.heap h b r.valid r.admits nonzero room e in
      let sized = Admits-smaller nonzero room r.admits in
      let same = reallocated ∙ ap (realloc_into ptr newsize g.buffer.size l.memory) e in
      let content = λ (i : ℕ) (q : i < l.bounce_buffer_size).
        ta_realloc-content start k newsize ptr i l.heap h l.memory g.buffer b g.others sized r.valid
          g.in_use e (omega (arith, q)) (omega (arith, q, g.fits)) in
      let used : (ta_free ptr h).1.used ≡ b ∷ g.others =
        ap (λ (x : Option ℕ × Heap × Mem). x.1.used) (sym same) ∙ (content 0 g.size_pos).1 in
      let got =
        grown-IsHeld (ta_free ptr h).1 (ta_realloc ptr newsize (l.heap, l.memory)).2 b g.others
          (find_head b (ta_free ptr h).1 g.others used)
          (omega (arith, low, r.limit_le, r.limit_pos)) s1 in
      record {
        ready = record {
          valid = ta_free-IsValid start ptr h v1;
          admits = ta_free-Admits k (limit + 128) ptr h a1;
          limit_aligned = r.limit_aligned;
          limit_le = r.limit_le;
          limit_pos = r.limit_pos;
          small = r.small;
          state = held got;
        };
        held = got;
        reaches_down = down;
        reaches_up = reach;
        same_start = inr refl;
        no_smaller = omega arith;
        keeps_memory = λ a q.
            ta_realloc-frame start k newsize ptr a l.heap h l.memory g.buffer b g.others sized
              r.valid g.in_use e (inl (omega (arith, q, low)));
        keeps_buffer = λ i q. (content i q).2;
      }

  grow_by : Option Block × Heap → Option Loader
  grow_by x =
      grow_into 0 newsize l
        (realloc_done (realloc_into l.bounce_buffer_data newsize g.buffer.size l.memory x))

  grow-Expansion :
      (x : Option Block × Heap)
      → Allocation newsize l.heap x
      → Expansion start k limit paddr n l (grow_by x)
  unfolding grow_by realloc_into realloc_done grow_into grown_buffer
  grow-Expansion _ (fails h' e) = refused (at_once newsize h' (omega (arith, newsize_fits)) e)
  grow-Expansion _ (gives b h' e) = expanded (
      subst
        (λ (x : Option ℕ × Heap × Mem).
          Expanded start k limit paddr n l
            (grown_at (ta_free l.bounce_buffer_data h').1 x.2 b.addr))
        (reallocated ∙ ap (realloc_into l.bounce_buffer_data newsize g.buffer.size l.memory) e)
        (grown-Expanded h' b e))

  kept_buffer : more ≡ 0 → Expanded start k limit paddr n l l
  kept_buffer e = record {
    ready = r;
    held = g;
    reaches_down = down;
    reaches_up = omega (arith, e);
    same_start = inr refl;
    no_smaller = omega arith;
    keeps_memory = λ a q. refl;
    keeps_buffer = λ i q. refl;
  }

  held_realloc :
      realloc l.bounce_buffer_data newsize (l.heap, l.memory)
      ≡ realloc_done (
          realloc_into l.bounce_buffer_data newsize g.buffer.size l.memory
            (alloc_block newsize l.heap))
  unfolding realloc
  held_realloc =
      let test : (l.bounce_buffer_data == 0) ≡ false = ground (arith, g.data_pos) in
      rw test (ap realloc_done reallocated)

  grow_buffer-Expansion : Expansion start k limit paddr n l (grow_buffer 0 more l)
  unfolding grow_buffer grow_by
  grow_buffer-Expansion =
      let size : (l.bounce_buffer_size + 0 + more) % word ≡ newsize =
        omega (arith, newsize_fits, r.small) in
      if-elim (λ (o : Option Loader). Expansion start k limit paddr n l o) (more == 0)
        (λ e. expanded (kept_buffer (ground (arith, e))))
        (λ e.
          subst
            (λ (m : ℕ).
              Expansion start k limit paddr n l
                (grow_into 0 m l (realloc l.bounce_buffer_data m (l.heap, l.memory))))
            (sym size)
            (subst
              (λ (x : Option (ℕ × Heap × Mem)).
                Expansion start k limit paddr n l (grow_into 0 newsize l x))
              (sym held_realloc)
              (grow-Expansion (alloc_block newsize l.heap)
                (allocation newsize l.heap (alloc_block newsize l.heap) refl))))

  pub held_buffer : Expansion start k limit paddr n l (bounce_expand paddr n l)
  unfolding bounce_expand
  held_buffer =
      let test : not (l.bounce_buffer_data == 0) ≡ true = ground (arith, g.data_pos) in
      rw (test, none_below, some_above) grow_buffer-Expansion
