-- ===== src/Tinyalloc/Alloc.antt =====
-- `alloc_block` keeps the heap's invariant, and what it returns.
use gogoboot.Base.{
  ℕ, ◌+◌, ◌-◌, ◌%◌, ◌≤◌, ◌<◌, ◌≡◌, refl, true, false, inl, inr, Bool-cases, Option, none, some,
  List, [], ◌∷◌, All, arith, leb, ◌⊎◌,
}
use gogoboot.Tinyalloc.{
  Block, Heap, word, is_top, serves, give_back, split_with, grow_with, alloc_found, alloc_rounded,
}
use gogoboot.Tinyalloc.Cover.{IsSound}
use gogoboot.Tinyalloc.Tiled.{
  IsTiled, IsValid, give_back-IsTiled, use_block-IsTiled, unlink-free-IsTiled,
}
use gogoboot.Tinyalloc.Unlink.{Search, absent, found, unlink_first-Search}
use gogoboot.Tinyalloc.Pieces.{split-IsTiled, grow-IsTiled, resize-IsTiled}

-- The allocation gives a block that is large enough, and puts it at the head of the used list.
pub data Granted (num : ℕ) (h : Heap) : Option Block × Heap → Type 0 where
  granted :
      {b : Block} {h' : Heap}
      → num ≤ b.size
      → h'.used ≡ b ∷ h.used
      → h'.heap_limit ≡ h.heap_limit
      → h'.heap_alignment ≡ h.heap_alignment
      → Granted num h (some b, h')

-- How an allocation of `num` bytes ends: granted, or with nothing changed, where no free block
-- serves and the top cannot grow.
pub data Outcome (num : ℕ) (h : Heap) : Option Block × Heap → Type 0 where
  success : {r : Option Block × Heap} → Granted num h r → Outcome num h r
  failure :
      All (λ b. serves num h b ≡ false) h.free
      → (h.fresh ≡ []) ⊎ (h.heap_limit < h.top + num)
      → Outcome num h (none, h)

module _ (start num : ℕ) (p : 0 < num) (h : Heap) (w : h.heap_limit + num < word) where
  grow_with-Outcome :
      (fresh : List Block)
      → h.fresh ≡ fresh
      → IsValid start h
      → All (λ b. serves num h b ≡ false) h.free
      → Outcome num h (grow_with num h fresh) × IsValid start (grow_with num h fresh).1
  unfolding grow_with
  grow_with-Outcome [] e v none' = (failure none' (inl e), v)
  grow_with-Outcome (s ∷ fresh') e v none' =
      let sum : (h.top + num) % word ≡ h.top + num = omega (arith, v.top_le) in
      elim (Bool-cases (leb (h.top + num) h.heap_limit)) [
        | inl fits ↦
            rw (sum, fits)
              (
                success (granted (omega arith) refl refl refl),
                use_block-IsTiled (grow-IsTiled num v e p (ground arith)),
              )
        | inr over ↦ rw (sum, over) (failure none' (inr (ground arith)), v)
      ]

  split_with-Granted :
      (ptr : Block) (fresh : List Block)
      → h.fresh ≡ fresh
      → IsTiled start (ptr ∷ []) h
      → num ≤ ptr.size
      → Granted num h (split_with num ptr h fresh) × IsValid start (split_with num ptr h fresh).1
  unfolding split_with give_back
  split_with-Granted ptr [] e v q = (granted q refl refl refl, use_block-IsTiled v)
  split_with-Granted ptr (s ∷ fresh') e v q =
      let sum : (ptr.addr + num) % word ≡ ptr.addr + num =
        omega (arith, v.pending_sound, v.top_le) in
      elim (Bool-cases (leb h.heap_split_thresh (ptr.size - num))) [
        | inl big ↦
            rw (big, sum)
              (
                granted (omega arith) refl refl refl,
                use_block-IsTiled
                    (give_back-IsTiled (split-IsTiled num v e p (ground (arith, v.thresh_pos)))),
              )
        | inr small ↦ rw small (granted q refl refl refl, use_block-IsTiled v)
      ]

-- A block that serves lies at the top with room above it, or is large enough.
serves-cases :
    (num : ℕ) (h : Heap) (b : Block)
    → serves num h b ≡ true
    → (is_top num h b ≡ true) ⊎ ((is_top num h b ≡ false) × (num ≤ b.size))
unfolding serves
serves-cases num h b t = ground arith

is_top-fits :
    (num : ℕ) (h : Heap) (b : Block)
    → is_top num h b ≡ true
    → h.top < word
    → IsSound h.top b
    → h.top + num < word
    → (h.top ≤ b.addr + b.size)
      × (b.addr + num ≤ h.heap_limit)
      × ((b.addr + num) % word ≡ b.addr + num)
unfolding is_top
is_top-fits num h b t s k w = ground arith

Granted-free :
    {num : ℕ} {h : Heap} {l : List Block} {r : Option Block × Heap}
    → Granted num (record h { free = l }) r
    → Granted num h r
Granted-free (granted q e e' e'') = granted q e e' e''

alloc_found-Outcome :
    (start num : ℕ) (h : Heap) {r : Option (Block × List Block)}
    → 0 < num
    → h.heap_limit + num < word
    → IsValid start h
    → Search (serves num h) h.free r
    → Outcome num h (alloc_found num h r) × IsValid start (alloc_found num h r).1
unfolding alloc_found
alloc_found-Outcome start num h p w v (absent none') =
    grow_with-Outcome start num p h w h.fresh refl v none'
alloc_found-Outcome start num h p w v (found {b} {l'} t u) =
    let v' = unlink-free-IsTiled v u in
    elim (serves-cases num h b t) [
      | inl top ↦
          let (at_top, fits, sum) =
            is_top-fits num h b top (omega (arith, v.top_le)) v'.pending_sound.0
              (omega (arith, v.top_le)) in
          rw (top, sum)
            (
              success (granted (omega arith) refl refl refl),
              use_block-IsTiled (resize-IsTiled num v' at_top p fits),
            )
      | inr (mid, q) ↦ rw mid (
          let (g, v'') =
            split_with-Granted start num p (record h { free = l' }) w b h.fresh refl v' q in
          (success (Granted-free g), v''))
    ]

pub alloc_rounded-Outcome :
    (start num : ℕ) (h : Heap)
    → 0 < num
    → h.heap_limit + num < word
    → IsValid start h
    → Outcome num h (alloc_rounded num h) × IsValid start (alloc_rounded num h).1
unfolding alloc_rounded
alloc_rounded-Outcome start num h p w v =
    alloc_found-Outcome start num h p w v (unlink_first-Search (serves num h) h.free)
