-- ===== src/Tinyalloc/Memory.antt =====
-- What `ta_calloc` and `ta_realloc` write: the bytes of the new block, and no others.
use gogoboot.Base.{
  ℕ, zero, suc, ◌+◌, ◌-◌, ◌*◌, ◌/◌, ◌%◌, ◌≤◌, ◌<◌, ◌≡◌, refl, ap, Bool, ◌&&◌, some, arith, leb, ltb,
  if◌then◌else◌, ◌⊎◌,
}
use Prim.Native.Nat.{bit_and}
use gogoboot.Base.Int.{neg32}
use gogoboot.Base.Bits.{bit_and-neg_two_pow, bit_and-low_mask}
use gogoboot.Tinyalloc.{
  Block, Heap, word, Mem, store, clear_words, clear_bytes, memclear, copy_bytes, ta_calloc,
  alloc_block,
}

-- The address lies in the interval.
abbrev pub inside : ℕ → ℕ → ℕ → Bool
inside from to a = leb from a && ltb a to

clear_bytes_lem :
    (n p : ℕ) (mem : Mem) (a : ℕ)
    → clear_bytes n p mem a ≡ (if inside p (p + n) a then 0 else mem a)
unfolding clear_bytes
clear_bytes_lem zero p mem a = ground arith
clear_bytes_lem (suc n) p mem a = ground (arith, clear_bytes_lem n (p + 1) (store mem p 0) a)

clear_words_lem :
    (n p : ℕ) (mem : Mem) (a : ℕ)
    → clear_words n p mem a ≡ (if inside p (p + 4 * n) a then 0 else mem a)
unfolding clear_words
clear_words_lem zero p mem a = ground arith
clear_words_lem (suc n) p mem a = ground (
  arith,
  clear_words_lem n (p + 4) (store (store (store (store mem p 0) (p + 1) 0) (p + 2) 0) (p + 3) 0) a,
)

-- `memclear` clears the `num` bytes from `p` on, by words and then by bytes, and no others.
pub memclear_lem :
    (p num : ℕ) (mem : Mem) (a : ℕ)
    → num < word
    → memclear p num mem a ≡ (if inside p (p + num) a then 0 else mem a)
unfolding memclear
memclear_lem p num mem a w =
    let numw : bit_and num (neg32 4) / 4 ≡ num / 4 =
      omega (arith, bit_and-neg_two_pow 2 num (omega arith) w) in
    let rest : bit_and num 3 ≡ num % 4 = bit_and-low_mask 2 num in
    rw (numw, rest)
      (ground (
        arith,
        clear_bytes_lem (num % 4) (p + 4 * (num / 4)) (clear_words (num / 4) p mem) a,
        clear_words_lem (num / 4) p mem a,
      ))

-- Copying `n` bytes between places that do not overlap.
pub copy_bytes_lem :
    (n c total dst src : ℕ) (mem : Mem) (a : ℕ)
    → c + n ≤ total
    → (dst + total ≤ src) ⊎ (src + total ≤ dst)
    → copy_bytes n c dst src mem a
      ≡ (if inside (dst + c) (dst + c + n) a then mem (src + (a - dst)) else mem a)
unfolding copy_bytes
copy_bytes_lem zero c total dst src mem a f h = ground arith
copy_bytes_lem (suc n) c total dst src mem a f h =
    let at : (dst + c) - dst ≡ c = omega arith in
    ground (
      arith,
      copy_bytes_lem n (c + 1) total dst src (store mem (dst + c) (mem (src + c))) a,
      ap (λ (t : ℕ). mem (src + t)) at,
    )

-- `ta_calloc` clears the bytes of the block that it returns and writes no others, where the product
-- of its arguments does not wrap.
ta_calloc-cleared :
    (num size : ℕ) (h h1 : Heap) (mem : Mem) (b : Block) (a : ℕ)
    → num * size < word
    → alloc_block (num * size) h ≡ (some b, h1)
    → ((ta_calloc num size (h, mem)).0 ≡ some b.addr)
      × ((ta_calloc num size (h, mem)).1 ≡ h1)
      × ((ta_calloc num size (h, mem)).2 a
          ≡ (if inside b.addr (b.addr + num * size) a then 0 else mem a))
unfolding ta_calloc
ta_calloc-cleared num size h h1 mem b a w e =
    let product : num * size % word ≡ num * size = omega arith in
    rw (product, e) (refl, refl, memclear_lem b.addr (num * size) mem a w)
