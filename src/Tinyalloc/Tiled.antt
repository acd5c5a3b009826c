-- ===== src/Tinyalloc/Tiled.antt =====
-- The heap's invariant. The free and the used blocks tile the heap's memory: each address from
-- `start` to `top` lies in exactly one of them, and no other address in any. Between two steps of
-- an operation some blocks are `pending`: on neither list, but part of the tiling.
use gogoboot.Base.{ℕ, ◌+◌, ◌≤◌, ◌<◌, ◌≡◌, List, [], ◌∷◌, All, arith, length}
use gogoboot.Tinyalloc.{Block, Heap, word, insert_block, give_back, use_block}
use gogoboot.Tinyalloc.Cover.{within, cover, IsSound, cover-insert, All-insert, length-insert}
use gogoboot.Tinyalloc.Compact.{compact-cover, compact-IsSound, length-compact}
use gogoboot.Tinyalloc.Unlink.{Unlinked, Unlinked-cover, Unlinked-length, Unlinked-All}

pub record IsTiled (start : ℕ) (pending : List Block) (h : Heap) : Type 0 where
  pub tiled : (a : ℕ) → cover a pending + cover a h.free + cover a h.used ≡ within start h.top a
  pub pending_sound : All (IsSound h.top) pending
  pub free_sound : All (IsSound h.top) h.free
  pub used_sound : All (IsSound h.top) h.used
  pub start_le : start ≤ h.top
  pub top_le : h.top ≤ h.heap_limit
  pub limit_lt : h.heap_limit < word
  pub thresh_pos : 0 < h.heap_split_thresh
  pub counted : length pending + length h.free + length h.used + length h.fresh ≡ h.heap_max_blocks

-- Between operations no block is pending.
abbrev pub IsValid : ℕ → Heap → Type 0
IsValid start h = IsTiled start [] h

module _ {start : ℕ} {p : List Block} {h : Heap} where
  pub give_back-IsTiled : {b : Block} → IsTiled start (b ∷ p) h → IsTiled start p (give_back b h)
  unfolding give_back
  give_back-IsTiled {b} v =
      let below : h.top < word = omega (arith, v.top_le, v.limit_lt) in
      let sound = All-insert (IsSound h.top) b h.free v.pending_sound.0 v.free_sound in
      record {
        tiled = λ a. omega (
          arith,
          v.tiled a,
          cover-insert a b h.free,
          compact-cover h.top a (insert_block b h.free) h.fresh below sound,
        );
        pending_sound = v.pending_sound.1;
        free_sound = compact-IsSound h.top (insert_block b h.free) h.fresh below sound;
        used_sound = v.used_sound;
        start_le = v.start_le;
        top_le = v.top_le;
        limit_lt = v.limit_lt;
        thresh_pos = v.thresh_pos;
        counted = omega (
          arith,
          v.counted,
          length-insert b h.free,
          length-compact (insert_block b h.free) h.fresh,
        );
      }

  pub use_block-IsTiled : {b : Block} → IsTiled start (b ∷ p) h → IsTiled start p (use_block b h).1
  use_block-IsTiled {b} v = record {
    tiled = λ a. omega (arith, v.tiled a);
    pending_sound = v.pending_sound.1;
    free_sound = v.free_sound;
    used_sound = (v.pending_sound.0, v.used_sound);
    start_le = v.start_le;
    top_le = v.top_le;
    limit_lt = v.limit_lt;
    thresh_pos = v.thresh_pos;
    counted = omega (arith, v.counted);
  }

  pub unlink-free-IsTiled :
      {b : Block} {l : List Block}
      → IsTiled start p h
      → Unlinked b h.free l
      → IsTiled start (b ∷ p) (record h { free = l })
  unlink-free-IsTiled {b} {l} v u =
      let (hb, hl) = Unlinked-All (IsSound h.top) u v.free_sound in
      record {
        tiled = λ a. omega (arith, v.tiled a, Unlinked-cover a u);
        pending_sound = (hb, v.pending_sound);
        free_sound = hl;
        used_sound = v.used_sound;
        start_le = v.start_le;
        top_le = v.top_le;
        limit_lt = v.limit_lt;
        thresh_pos = v.thresh_pos;
        counted = omega (arith, v.counted, Unlinked-length u);
      }

  pub unlink-used-IsTiled :
      {b : Block} {l : List Block}
      → IsTiled start p h
      → Unlinked b h.used l
      → IsTiled start (b ∷ p) (record h { used = l })
  unlink-used-IsTiled {b} {l} v u =
      let (hb, hl) = Unlinked-All (IsSound h.top) u v.used_sound in
      record {
        tiled = λ a. omega (arith, v.tiled a, Unlinked-cover a u);
        pending_sound = (hb, v.pending_sound);
        free_sound = v.free_sound;
        used_sound = hl;
        start_le = v.start_le;
        top_le = v.top_le;
        limit_lt = v.limit_lt;
        thresh_pos = v.thresh_pos;
        counted = omega (arith, v.counted, Unlinked-length u);
      }
