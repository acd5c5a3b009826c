-- ===== src/Tinyalloc/Pieces.antt =====
-- The three ways in which `alloc_block` cuts a block to size, as steps of the tiling.
use gogoboot.Base.{ℕ, ◌+◌, ◌-◌, ◌≤◌, ◌<◌, ◌≡◌, ap, List, [], ◌∷◌, All, All-mono, arith, length}
use gogoboot.Tinyalloc.{Block, block, Heap}
use gogoboot.Tinyalloc.Cover.{cover, IsSound}
use gogoboot.Tinyalloc.Tiled.{IsTiled}

-- A block that holds none of the addresses from `low` to `top` ends at or below `low`.
IsSound-of_uncovered :
    (low top : ℕ) (l : List Block)
    → ((a : ℕ) → low ≤ a → a < top → cover a l ≡ 0)
    → All (IsSound top) l
    → All (IsSound low) l
IsSound-of_uncovered low top [] clear h = tt
IsSound-of_uncovered low top (b ∷ l) clear h = (
  (h.0.0, ground (arith, clear (b.addr + b.size - 1))),
  IsSound-of_uncovered low top l (λ a p q. omega (arith, clear a p q)) h.1,
)

module _ {start : ℕ} {h : Heap} where
  -- `ptr->size = num`, and a new block of the rest.
  pub split-IsTiled :
      {ptr s : Block} {fresh' : List Block} (num : ℕ)
      → IsTiled start (ptr ∷ []) h
      → h.fresh ≡ s ∷ fresh'
      → 0 < num
      → num < ptr.size
      → IsTiled start
          (block (ptr.addr + num) (ptr.size - num) ∷ block ptr.addr num ∷ [])
          (record h { fresh = fresh' })
  split-IsTiled {ptr} num v e p q = record {
    tiled = λ a. ground (arith, v.tiled a);
    pending_sound = omega (arith, v.pending_sound);
    free_sound = v.free_sound;
    used_sound = v.used_sound;
    start_le = v.start_le;
    top_le = v.top_le;
    limit_lt = v.limit_lt;
    thresh_pos = v.thresh_pos;
    counted = omega (arith, v.counted, ap length e);
  }

  -- A blank descriptor takes the memory from the top on.
  pub grow-IsTiled :
      {s : Block} {fresh' : List Block} (num : ℕ)
      → IsTiled start [] h
      → h.fresh ≡ s ∷ fresh'
      → 0 < num
      → h.top + num ≤ h.heap_limit
      → IsTiled start (block h.top num ∷ []) (record h { fresh = fresh'; top = h.top + num })
  grow-IsTiled num v e p q = record {
    tiled = λ a. ground (arith, v.tiled a, v.start_le);
    pending_sound = omega (arith);
    free_sound = All-mono h.free (λ b hb. omega arith) v.free_sound;
    used_sound = All-mono h.used (λ b hb. omega arith) v.used_sound;
    start_le = omega (arith, v.start_le);
    top_le = q;
    limit_lt = v.limit_lt;
    thresh_pos = v.thresh_pos;
    counted = omega (arith, v.counted, ap length e);
  }

  -- The block at the top grows or shrinks, and the top with it.
  pub resize-IsTiled :
      {ptr : Block} (num : ℕ)
      → IsTiled start (ptr ∷ []) h
      → h.top ≤ ptr.addr + ptr.size
      → 0 < num
      → ptr.addr + num ≤ h.heap_limit
      → IsTiled start (block ptr.addr num ∷ []) (record h { top = ptr.addr + num })
  resize-IsTiled {ptr} num v e p q = record {
    tiled = λ a. ground (arith, v.tiled a, v.pending_sound, v.tiled ptr.addr);
    pending_sound = omega (arith);
    free_sound =
        IsSound-of_uncovered (ptr.addr + num) h.top h.free
          (λ a lo hi. ground (arith, v.tiled a, v.pending_sound)) v.free_sound;
    used_sound =
        IsSound-of_uncovered (ptr.addr + num) h.top h.used
          (λ a lo hi. ground (arith, v.tiled a, v.pending_sound)) v.used_sound;
    start_le = ground (arith, v.tiled ptr.addr, v.pending_sound);
    top_le = q;
    limit_lt = v.limit_lt;
    thresh_pos = v.thresh_pos;
    counted = omega (arith, v.counted);
  }
