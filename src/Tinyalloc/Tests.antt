-- ===== src/Tinyalloc/Tests.antt =====
-- The allocator at a small heap: four descriptors, and memory from address 4160 on.
use mathlib.Core.Path.{subst}
use gogoboot.Base.{
  ℕ, ◌+◌, ◌≤◌, ◌<◌, ◌≡◌, refl, true, none, some, List, [], ◌∷◌, All, arith, ◌⊎◌, ◌*◌, ◌==◌,
}
use gogoboot.Tinyalloc.{
  Block, block, Heap, ta_init, round_up, insert_block, is_top, serves, unlink_first, split_with,
  grow_with, give_back, compact, compact_run, resize_run, release_blocks, alloc_found,
  alloc_rounded, alloc_block, free_found, ta_free, ta_realloc, ta_check,
}
use gogoboot.Tinyalloc.Cover.{within, covers, cover}
use gogoboot.Tinyalloc.Tiled.{IsValid}
use gogoboot.Tinyalloc.Disjoint.{
  Admits, alloc_block-IsValid, alloc_block-disjoint, alloc_block-none, ta_free-alloc,
}
use gogoboot.Tinyalloc.Realloc.{ta_realloc-content}
use gogoboot.Tinyalloc.History.{run, alloc, free, Request, ta_init-IsValid, run-init}

abbrev blank : List Block
blank = block 0 0 ∷ block 0 0 ∷ block 0 0 ∷ block 0 0 ∷ []

abbrev heap0 : Heap
unfolding ta_init
heap0 = ta_init 4096 8191 blank 16 4

heap0-IsValid : IsValid 4160 heap0
unfolding heap0 ta_init
heap0-IsValid = ta_init-IsValid 4096 8191 blank 16 4 (omega arith) (omega arith) (omega arith)

heap0-Admits : (num : ℕ) → 0 < num → num < 1000000 → Admits 2 num heap0
unfolding heap0
heap0-Admits num p q = record {
  alignment = refl;
  k_lt = omega arith;
  num_pos = p;
  no_wrap = omega arith;
}

-- The first allocation, of 100 bytes.
abbrev block1 : Block
block1 = block 4160 100

abbrev heap1 : Heap
heap1 = record {
  free = [];
  used = block1 ∷ [];
  fresh = block 0 0 ∷ block 0 0 ∷ block 0 0 ∷ [];
  top = 4260;
  heap_limit = 8191;
  heap_split_thresh = 16;
  heap_alignment = 4;
  heap_max_blocks = 4;
}

-- The line names all that an allocation or a release runs.
abbrev running : ℕ
unfolding heap0 ta_init round_up insert_block is_top serves unlink_first split_with grow_with
    give_back compact compact_run resize_run release_blocks alloc_found alloc_rounded alloc_block
    free_found ta_free
running = 0

first_allocation : alloc_block 98 heap0 ≡ (some block1, heap1)
unfolding running
first_allocation = refl

heap1-IsValid : IsValid 4160 heap1
heap1-IsValid =
    subst (λ r. IsValid 4160 r.1) first_allocation
      (alloc_block-IsValid 4160 2 98 heap0 (heap0-Admits 98 (omega arith) (omega arith))
        heap0-IsValid)

heap1-Admits : Admits 2 20 heap1
heap1-Admits = record {
  alignment = refl;
  k_lt = omega arith;
  num_pos = omega arith;
  no_wrap = omega arith;
}

-- A second block, and what growing the first to 20 bytes gives.
abbrev block2 : Block
block2 = block 4260 20

abbrev heap2 : Heap
heap2 = record heap1 { used = block2 ∷ block1 ∷ []; fresh = block 0 0 ∷ block 0 0 ∷ []; top = 4280 }

second_allocation : alloc_block 20 heap1 ≡ (some block2, heap2)
unfolding running
second_allocation = refl

alloc_block-disjoint_example :
    (20 ≤ block2.size)
    × (heap2.used ≡ block2 ∷ heap1.used)
    × ((a : ℕ) → covers block2 a + cover a heap1.used ≤ within 4160 8191 a)
alloc_block-disjoint_example =
    alloc_block-disjoint 4160 2 20 heap1 heap1-Admits heap1-IsValid block2 heap2 second_allocation

too_large : alloc_block 5000 heap0 ≡ (none, heap0)
unfolding running
too_large = refl

alloc_block-none_example :
    (heap0 ≡ heap0)
    × All (λ b. b.size < 5000) heap0.free
    × ((heap0.fresh ≡ []) ⊎ (8191 < heap0.top + 5000))
unfolding heap0 ta_init
alloc_block-none_example =
    alloc_block-none 4160 2 5000 heap0 (heap0-Admits 5000 (omega arith) (omega arith)) heap0-IsValid
      heap0 too_large

ta_free-alloc_example : ((ta_free 4260 heap2).0 ≡ true) × ((ta_free 4260 heap2).1.used ≡ heap1.used)
ta_free-alloc_example =
    ta_free-alloc 4160 2 20 heap1 block2 heap2 heap1-Admits heap1-IsValid second_allocation

-- The block at 4160 moves to 4260.
found_block1 : unlink_first (λ c. 4160 == c.addr) heap1.used ≡ some (block1, [])
unfolding running
found_block1 = refl

ta_realloc-content_example :
    ((ta_realloc 4160 20 (heap1, λ a. a)).0 ≡ some 4260)
    × ((ta_realloc 4160 20 (heap1, λ a. a)).1.used ≡ block2 ∷ [])
    × ((ta_realloc 4160 20 (heap1, λ a. a)).2 (4260 + 7) ≡ 4160 + 7)
ta_realloc-content_example =
    ta_realloc-content 4160 2 20 4160 7 heap1 heap2 (λ a. a) block1 block2 [] heap1-Admits
      heap1-IsValid found_block1 second_allocation (omega arith) (omega arith)

abbrev requests : List Request
requests = alloc 98 ∷ alloc 20 ∷ free 4160 ∷ []

run-init_example :
    (ta_check (run requests (ta_init 4096 8191 blank 16 4)) ≡ true)
    × ((a : ℕ)
        → cover a (run requests (ta_init 4096 8191 blank 16 4)).free
            + cover a (run requests (ta_init 4096 8191 blank 16 4)).used
          ≡ within (4096 + 16 + 12 * 4) (run requests (ta_init 4096 8191 blank 16 4)).top a)
unfolding ta_init
run-init_example =
    run-init 4096 8191 blank 16 4 2 requests (omega arith) (omega arith) (omega arith)
      (fits 98 (omega arith) (omega arith), (fits 20 (omega arith) (omega arith), (tt, tt)))
  where
    fits : (num : ℕ) → 0 < num → num < 1000000 → Admits 2 num (ta_init 4096 8191 blank 16 4)
    fits num p q = record {
      alignment = refl;
      k_lt = omega arith;
      num_pos = p;
      no_wrap = omega arith;
    }
