-- ===== src/Loader/Buffer.antt =====
-- The bounce buffer of core/loader.c: where it lies, and what a caller of `bounce_expand` is promised.
use mathlib.Core.Path.{subst}
use gogoboot.Base.{
  ℕ, ◌+◌, ◌-◌, ◌*◌, ◌/◌, ◌%◌, ◌^◌, ◌≤◌, ◌<◌, ◌≡◌, ap, ◌∙◌, Option, none, some, List, ◌∷◌, arith,
  ◌==◌, if◌then◌else◌, ◌⊎◌,
}
use Prim.Native.Nat.{bit_and}
use gogoboot.Base.Int.{neg32}
use gogoboot.Base.Bits.{bit_and-neg_two_pow}
use gogoboot.Tinyalloc.{Block, Heap, Mem, word, unlink_first, alloc_block}
use gogoboot.Tinyalloc.Cover.{within, covers, cover}
use gogoboot.Tinyalloc.Tiled.{IsValid}
use gogoboot.Tinyalloc.Disjoint.{
  Admits, alloc_block-disjoint, alloc_block-IsValid, alloc_block-Admits, unlink_first-head,
}
use gogoboot.Tinyalloc.Memory.{inside}
use gogoboot.Loader.{Loader, round_longword}

-- The byte that a running program finds at an address once the bounce buffer is copied into place.
unfoldable pub view : Loader → Mem
view l a =
    if inside l.bounce_buffer_target (l.bounce_buffer_target + l.bounce_buffer_size) a
    then l.memory (l.bounce_buffer_data + (a - l.bounce_buffer_target))
    else l.memory a

-- The buffer is a block in use, whole longwords that end at or below `limit`.
pub record IsHeld (limit : ℕ) (l : Loader) : Type 0 where
  pub buffer : Block
  pub others : List Block
  pub in_use :
      unlink_first (λ c. l.bounce_buffer_data == c.addr) l.heap.used ≡ some (buffer, others)
  pub data_pos : 0 < l.bounce_buffer_data
  pub fits : l.bounce_buffer_size ≤ buffer.size
  pub size_pos : 0 < l.bounce_buffer_size
  pub target_aligned : l.bounce_buffer_target % 4 ≡ 0
  pub size_aligned : l.bounce_buffer_size % 4 ≡ 0
  pub below_limit : l.bounce_buffer_target + l.bounce_buffer_size ≤ limit

-- There is no buffer, or it is held.
pub data Buffer (limit : ℕ) (l : Loader) : Type 0 where
  unused : l.bounce_buffer_data ≡ 0 → l.bounce_buffer_size ≡ 0 → Buffer limit l
  held : IsHeld limit l → Buffer limit l

-- The heap from `start` on is valid, lies behind gogoboot, and admits buffers up to gogoboot's end.
pub record IsReady (start k limit : ℕ) (l : Loader) : Type 0 where
  pub valid : IsValid start l.heap
  pub admits : Admits k (limit + 128) l.heap
  pub limit_aligned : limit % 4 ≡ 0
  pub limit_le : limit ≤ start
  pub limit_pos : 0 < limit
  pub small : limit < 2 ^ 31
  pub state : Buffer limit l

pub Admits-smaller : {k n m : ℕ} {h : Heap} → 0 < m → m ≤ n → Admits k n h → Admits k m h
Admits-smaller p q a = record {
  alignment = a.alignment;
  k_lt = a.k_lt;
  num_pos = p;
  no_wrap = omega (arith, a.no_wrap, q);
}

pub round_longword_lem : (n : ℕ) → n + 3 < word → round_longword n ≡ (n + 3) / 4 * 4
unfolding round_longword
round_longword_lem n h =
    let small : (n + 3) % word ≡ n + 3 = omega arith in
    rw small (bit_and-neg_two_pow 2 (n + 3) (omega arith) h)

pub align_down : (n : ℕ) → n < word → bit_and n (neg32 4) ≡ n / 4 * 4
align_down n h = bit_and-neg_two_pow 2 n (omega arith) h

-- An address of memory outside the heap's is in no block.
pub alone :
    (start : ℕ) (h : Heap) (b : Block) (limit : ℕ)
    → ((a : ℕ) → covers b a + cover a h.used ≤ within start limit a)
    → 0 < b.size
    → (start ≤ b.addr) × (b.addr + b.size ≤ limit)
alone start h b limit own pos =
    (ground (arith, own b.addr, pos), ground (arith, own (b.addr + b.size - 1), pos))

-- A request of at most `room` bytes that the allocator refuses, at once or behind the scratch space.
pub data Refuses (room : ℕ) (h : Heap) : Type 0 where
  at_once : (n : ℕ) (h' : Heap) → n ≤ room → alloc_block n h ≡ (none, h') → Refuses room h
  behind_scratch :
      (n : ℕ) (b : Block) (h' h'' : Heap)
      → n ≤ room
      → alloc_block 128 h ≡ (some b, h')
      → alloc_block n h' ≡ (none, h'')
      → Refuses room h

-- The buffer reaches from `paddr` over `n` bytes, holds what it held, and no byte outside the heap has
-- changed.
pub record Expanded (start k limit paddr n : ℕ) (l l' : Loader) : Type 0 where
  pub ready : IsReady start k limit l'
  pub held : IsHeld limit l'
  pub reaches_down : l'.bounce_buffer_target ≤ paddr
  pub reaches_up : paddr + n ≤ l'.bounce_buffer_target + l'.bounce_buffer_size
  pub same_start : l.bounce_buffer_size ≡ 0 ⊎ (l'.bounce_buffer_target ≡ l.bounce_buffer_target)
  pub no_smaller : l.bounce_buffer_size ≤ l'.bounce_buffer_size
  pub keeps_memory : (a : ℕ) → a < start → l'.memory a ≡ l.memory a
  pub keeps_buffer :
      (i : ℕ)
      → i < l.bounce_buffer_size
      → l'.memory (l'.bounce_buffer_data + i) ≡ l.memory (l.bounce_buffer_data + i)

pub data Expansion (start k limit paddr n : ℕ) (l : Loader) : Option Loader → Type 0 where
  refused : Refuses (limit + 128) l.heap → Expansion start k limit paddr n l none
  expanded :
      {l' : Loader}
      → Expanded start k limit paddr n l l'
      → Expansion start k limit paddr n l (some l')

-- What an allocation gives.
pub data Allocation (n : ℕ) (h : Heap) : Option Block × Heap → Type 0 where
  fails : (h' : Heap) → alloc_block n h ≡ (none, h') → Allocation n h (none, h')
  gives : (b : Block) (h' : Heap) → alloc_block n h ≡ (some b, h') → Allocation n h (some b, h')

pub allocation :
    (n : ℕ) (h : Heap) (r : Option Block × Heap) → alloc_block n h ≡ r → Allocation n h r
allocation n h (none, h') e = fails h' e
allocation n h (some b, h') e = gives b h' e

-- The heap behind an allocation.
module _ (start k n room : ℕ) (h h' : Heap) (b : Block) (v : IsValid start h) (m : Admits k room h)
    (pos : 0 < n) (le : n ≤ room) (e : alloc_block n h ≡ (some b, h')) where
  pub behind :
      IsValid start h'
      × Admits k room h'
      × (n ≤ b.size)
      × (h'.used ≡ b ∷ h.used)
      × (start ≤ b.addr)
      × (b.addr + b.size ≤ h.heap_limit)
  behind =
      let m' = Admits-smaller pos le m in
      let (size, used, own) = alloc_block-disjoint start k n h m' v b h' e in
      let (low, high) = alone start h b h.heap_limit own (omega (arith, size, pos)) in
      (
        subst (λ (r : Option Block × Heap). IsValid start r.1) e
            (alloc_block-IsValid start k n h m' v),
        subst (λ (r : Option Block × Heap). Admits k room r.1) e
            (alloc_block-Admits start k n h m' v room m),
        size,
        used,
        low,
        high,
      )

pub find_head :
    (b : Block) (h : Heap) (l : List Block)
    → h.used ≡ b ∷ l
    → unlink_first (λ c. b.addr == c.addr) h.used ≡ some (b, l)
find_head b h l e = ap (unlink_first (λ c. b.addr == c.addr)) e ∙ unlink_first-head b l
