-- ===== src/Tinyalloc.antt =====
-- The heap allocator of lib/tinyalloc.c, with compaction and splitting, as it is built. A linked
-- list of blocks is the list of its blocks in order; a `size_t` wraps at 2^32. The memory that the
-- blocks describe is a function from addresses to bytes, which only `ta_calloc` and `ta_realloc`
-- write.
pub mod Cover
pub mod Compact
pub mod Unlink
pub mod Tiled
pub mod Pieces
pub mod Alloc
pub mod Disjoint
pub mod Memory
pub mod Realloc
pub mod History
mod Tests
use Prim.Native.Nat.{bit_and}
use gogoboot.Base.{
  ℕ, zero, suc, ◌+◌, ◌-◌, ◌*◌, ◌/◌, ◌%◌, ◌^◌, Bool, true, false, ◌&&◌, ◌||◌, Option, none, some,
  List, [], ◌∷◌, ◌++◌, ltb, leb, ◌==◌, if◌then◌else◌, length,
}
use gogoboot.Base.Int.{neg32}

abbrev pub word : ℕ
word = 2 ^ 32

pub record Block : Type 0 where
  pub addr : ℕ
  pub size : ℕ

abbrev pub block : ℕ → ℕ → Block
block a n = record { addr = a; size = n }

-- The heap's header, and the parameters that `ta_init` stores beside it.
pub record Heap : Type 0 where
  pub free : List Block
  pub used : List Block
  pub fresh : List Block
  pub top : ℕ
  pub heap_limit : ℕ
  pub heap_split_thresh : ℕ
  pub heap_alignment : ℕ
  pub heap_max_blocks : ℕ

-- The first address behind a block.
abbrev pub end_of : Block → ℕ
end_of b = (b.addr + b.size) % word

-- The bytes of memory, and a write.
abbrev pub Mem : Type 0
Mem = ℕ → ℕ

abbrev pub store : Mem → ℕ → ℕ → Mem
store mem p v a = if a == p then v else mem a

unfoldable pub insert_block : Block → List Block → List Block
insert_block b [] = b ∷ []
insert_block b (ptr ∷ rest) =
    if leb b.addr ptr.addr then b ∷ ptr ∷ rest else ptr ∷ insert_block b rest

unfoldable pub release_blocks : List Block → List Block → List Block
release_blocks [] fresh = fresh
release_blocks (scan ∷ rest) fresh = release_blocks rest (block 0 0 ∷ fresh)

-- `ptr` takes the size of the run that ends with `prev`, if the run has other blocks.
unfoldable pub resize_run : Block → Block → List Block → Block
resize_run ptr prev [] = ptr
resize_run ptr prev (m ∷ merged) = record ptr {
  size = (prev.addr + (word - ptr.addr) + prev.size) % word;
}

-- The two loops of `compact` at once: `ptr` begins a run of blocks of which `prev` is the last so
-- far, and `merged` are those behind `ptr`. A run that ends is resized, and its `merged` blocks are
-- released. Gives the free and the fresh list.
unfoldable pub compact_run :
    Block → Block → List Block → List Block → List Block → List Block × List Block
compact_run ptr prev merged [] fresh =
    (resize_run ptr prev merged ∷ [], release_blocks merged fresh)
compact_run ptr prev merged (scan ∷ rest) fresh = elim (end_of prev == scan.addr) [
  | true ↦ compact_run ptr scan (merged ++ scan ∷ []) rest fresh
  | false ↦
      let (free', fresh') = compact_run scan scan [] rest (release_blocks merged fresh) in
      (resize_run ptr prev merged ∷ free', fresh')
]

unfoldable pub compact : List Block → List Block → List Block × List Block
compact [] fresh = ([], fresh)
compact (ptr ∷ rest) fresh = compact_run ptr ptr [] rest fresh

-- The header takes 16 bytes and a descriptor 12. `blocks` is what the descriptors' memory holds; there is at
-- least one, since for none the code's loop would count down from the largest number.
unfoldable pub ta_init : (base limit : ℕ) → List Block → (split_thresh alignment : ℕ) → Heap
ta_init base limit blocks split_thresh alignment = record {
  free = [];
  used = [];
  fresh = blocks;
  top = (base + 16 + 12 * length blocks) % word;
  heap_limit = limit;
  heap_split_thresh = split_thresh;
  heap_alignment = alignment;
  heap_max_blocks = length blocks;
}

-- The first block that passes the test, and the list without it: the search loops of `ta_free` and
-- `alloc_block`, and the relinking around the block that they find.
unfoldable pub unlink_first : (Block → Bool) → List Block → Option (Block × List Block)
unlink_first test [] = none
unlink_first test (ptr ∷ rest) =
    let later = unlink_first test rest in
    if test ptr
    then some (ptr, rest)
    else elim later [ none ↦ none | some (b, rest') ↦ some (b, ptr ∷ rest') ]

-- `insert_block(block); compact();`
unfoldable pub give_back : Block → Heap → Heap
give_back b h =
    let (free', fresh') = compact (insert_block b h.free) h.fresh in
    record h { free = free'; fresh = fresh' }

-- What follows the search of `ta_free` through the used list.
unfoldable pub free_found : Heap → Option (Block × List Block) → Bool × Heap
free_found h none = (false, h)
free_found h (some (b, used')) = (true, give_back b (record h { used = used' }))

unfoldable pub ta_free : ℕ → Heap → Bool × Heap
unfolding free_found
ta_free p h = free_found h (unlink_first (λ b. p == b.addr) h.used)

-- `(num + heap_alignment - 1) & -heap_alignment`
unfoldable pub round_up : ℕ → ℕ → ℕ
round_up alignment num = bit_and ((num + alignment + (word - 1)) % word) (neg32 alignment)

unfoldable pub is_top : ℕ → Heap → Block → Bool
is_top num h ptr = leb h.top (end_of ptr) && leb ((ptr.addr + num) % word) h.heap_limit

-- `is_top || ptr->size >= num`
unfoldable pub serves : ℕ → Heap → Block → Bool
unfolding is_top
serves num h ptr = is_top num h ptr || leb num ptr.size

abbrev use_block : Block → Heap → Option Block × Heap
use_block b h = (some b, record h { used = b ∷ h.used })

-- A free block that is large enough, with the free list behind it already unlinked. The last
-- argument is the fresh list.
unfoldable pub split_with : ℕ → Block → Heap → List Block → Option Block × Heap
split_with num ptr h [] = use_block ptr h
split_with num ptr h (split ∷ fresh') =
    let excess = ptr.size - num in
    if leb h.heap_split_thresh excess
    then use_block (record ptr { size = num })
        (give_back (block ((ptr.addr + num) % word) excess) (record h { fresh = fresh' }))
    else use_block ptr h

-- No free block serves: take a blank one, the head of the fresh list, at the top.
unfoldable pub grow_with : ℕ → Heap → List Block → Option Block × Heap
grow_with num h [] = (none, h)
grow_with num h (ptr ∷ fresh') =
    let new_top = (h.top + num) % word in
    if leb new_top h.heap_limit
    then use_block (block h.top num) (record h { fresh = fresh'; top = new_top })
    else (none, h)

-- What follows the search of `alloc_block` through the free list.
unfoldable pub alloc_found : ℕ → Heap → Option (Block × List Block) → Option Block × Heap
alloc_found num h none = grow_with num h h.fresh
alloc_found num h (some (ptr, free')) =
    let h' = record h { free = free' } in
    if is_top num h ptr
    then use_block (record ptr { size = num }) (record h' { top = (ptr.addr + num) % word })
    else split_with num ptr h' h.fresh

-- `alloc_block` behind the rounding of its argument.
unfoldable pub alloc_rounded : ℕ → Heap → Option Block × Heap
alloc_rounded num h = alloc_found num h (unlink_first (serves num h) h.free)

unfoldable pub alloc_block : ℕ → Heap → Option Block × Heap
alloc_block num h = alloc_rounded (round_up h.heap_alignment num) h

-- `NULL` is `none`.
abbrev pub block_addr : Option Block → Option ℕ
block_addr none = none
block_addr (some b) = some b.addr

unfoldable pub ta_alloc : ℕ → Heap → Option ℕ × Heap
ta_alloc num h = let (b, h') = alloc_block num h in (block_addr b, h')

-- `while (numw--) *ptrw++ = 0;`: four bytes at a time.
pub clear_words : ℕ → ℕ → Mem → Mem
clear_words zero ptrw mem = mem
clear_words (suc numw) ptrw mem =
    clear_words numw (ptrw + 4)
      (store (store (store (store mem ptrw 0) (ptrw + 1) 0) (ptrw + 2) 0) (ptrw + 3) 0)

-- `while (num--) *ptrb++ = 0;`
pub clear_bytes : ℕ → ℕ → Mem → Mem
clear_bytes zero ptrb mem = mem
clear_bytes (suc num) ptrb mem = clear_bytes num (ptrb + 1) (store mem ptrb 0)

pub memclear : ℕ → ℕ → Mem → Mem
memclear ptr num mem =
    let numw = bit_and num (neg32 4) / 4 in
    clear_bytes (bit_and num 3) (ptr + 4 * numw) (clear_words numw ptr mem)

-- What `ta_calloc` does with the result of `alloc_block`.
pub calloc_into : ℕ → Mem → Option Block × Heap → Option ℕ × Heap × Mem
calloc_into num mem (none, h) = (none, h, mem)
calloc_into num mem (some b, h) = (some b.addr, h, memclear b.addr num mem)

pub ta_calloc : ℕ → ℕ → Heap × Mem → Option ℕ × Heap × Mem
unfolding calloc_into
ta_calloc num size (h, mem) =
    let num' = num * size % word in calloc_into num' mem (alloc_block num' h)

-- `for (c = 0; c < ptrsize; c++) *(ptrn + c) = *(ptro + c);`, with `n` rounds left.
unfoldable pub copy_bytes : ℕ → ℕ → ℕ → ℕ → Mem → Mem
copy_bytes zero c ptrn ptro mem = mem
copy_bytes (suc n) c ptrn ptro mem =
    copy_bytes n (c + 1) ptrn ptro (store mem (ptrn + c) (mem (ptro + c)))

unfoldable pub ta_getsize : ℕ → List Block → ℕ
ta_getsize ptr [] = 0
ta_getsize ptr (b ∷ rest) = if ptr == b.addr then b.size else ta_getsize ptr rest

-- What `ta_realloc` does with the result of `alloc_block`.
unfoldable pub realloc_into : ℕ → ℕ → ℕ → Mem → Option Block × Heap → Option ℕ × Heap × Mem
realloc_into ptr num ptrsize mem (none, h) = (none, h, mem)
realloc_into ptr num ptrsize mem (some b, h) =
    let n = if ltb num ptrsize then num else ptrsize in
    (some b.addr, (ta_free ptr h).1, copy_bytes n 0 b.addr ptr mem)

unfoldable pub ta_realloc : ℕ → ℕ → Heap × Mem → Option ℕ × Heap × Mem
unfolding realloc_into
ta_realloc ptr num (h, mem) =
    let ptrsize = ta_getsize ptr h.used in
    if ltb 0 ptrsize then realloc_into ptr num ptrsize mem (alloc_block num h) else (none, h, mem)

-- The loop of `count_blocks_size`, from the size so far.
pub count_blocks_size : ℕ → List Block → ℕ
count_blocks_size size [] = size
count_blocks_size size (ptr ∷ rest) = count_blocks_size ((size + ptr.size) % word) rest

-- `count_blocks` is the length of a list; a heap of less than 2^32 bytes holds no more descriptors.
pub ta_bytes_used : Heap → ℕ
unfolding count_blocks_size
ta_bytes_used h = count_blocks_size 0 h.used

pub ta_check : Heap → Bool
ta_check h = h.heap_max_blocks == length h.free + length h.used + length h.fresh
