-- ===== src/Tinyalloc/Realloc.antt =====
-- `ta_realloc` moves a block's contents: it reads the old block while the new one is written, which
-- is right because the two do not overlap.
use gogoboot.Base.{
  ℕ, ◌+◌, ◌-◌, ◌≤◌, ◌<◌, ◌≡◌, refl, ap, ◌∙◌, true, false, inl, inr, Bool-cases, Option-cases, some,
  List, [], ◌∷◌, arith, ltb, if◌then◌else◌, ◌⊎◌, ◌==◌,
}
use gogoboot.Tinyalloc.{
  Block, Heap, Mem, unlink_first, ta_getsize, ta_realloc, realloc_into, alloc_block, ta_free,
  free_found, give_back,
}
use gogoboot.Tinyalloc.Cover.{covers, IsSound}
use gogoboot.Tinyalloc.Tiled.{IsValid}
use gogoboot.Tinyalloc.Disjoint.{Admits, alloc_block-disjoint}
use gogoboot.Tinyalloc.Memory.{copy_bytes_lem}
use gogoboot.Tinyalloc.Unlink.{Unlinked-cover, Unlinked-All, unlink_first-some, unlink_first-skip}

-- The size of the block that the search finds.
ta_getsize_lem :
    (p : ℕ) (l : List Block) (b : Block) (l' : List Block)
    → unlink_first (λ c. p == c.addr) l ≡ some (b, l')
    → ta_getsize p l ≡ b.size
unfolding unlink_first ta_getsize
ta_getsize_lem p [] b l' e = cc
ta_getsize_lem p (c ∷ l) b l' e = elim (Bool-cases (p == c.addr)) [
  | inl hit ↦ ground arith
  | inr miss ↦ elim (Option-cases (unlink_first (λ c. p == c.addr) l)) [
    | inl absent ↦ ground arith
    | inr ((b', r), f) ↦ ground (arith, ta_getsize_lem p l b' r f)
  ]
]

ta_free-used :
    (p : ℕ) (h : Heap) (b : Block) (l : List Block)
    → unlink_first (λ c. p == c.addr) h.used ≡ some (b, l)
    → (ta_free p h).1.used ≡ l
unfolding ta_free free_found give_back
ta_free-used p h b l e = rw e

-- Two blocks that are not empty and share no address lie one behind the other.
pub apart :
    (b c : Block)
    → 0 < b.size
    → 0 < c.size
    → ((a : ℕ) → covers b a + covers c a ≤ 1)
    → (b.addr + b.size ≤ c.addr) ⊎ (c.addr + c.size ≤ b.addr)
apart b c p q h = ground (arith, h b.addr, h c.addr)

-- A successful reallocation keeps each of the bytes that both sizes have, and the used list has the
-- new block for the old one.
pub ta_realloc-content :
    (start k num p i : ℕ) (h h1 : Heap) (mem : Mem) (old new : Block) (rest : List Block)
    → Admits k num h
    → IsValid start h
    → unlink_first (λ c. p == c.addr) h.used ≡ some (old, rest)
    → alloc_block num h ≡ (some new, h1)
    → i < num
    → i < old.size
    → ((ta_realloc p num (h, mem)).0 ≡ some new.addr)
      × ((ta_realloc p num (h, mem)).1.used ≡ new ∷ rest)
      × ((ta_realloc p num (h, mem)).2 (new.addr + i) ≡ mem (p + i))
unfolding ta_realloc
ta_realloc-content start k num p i h h1 mem old new rest m v eo en lt lt' =
    let (size, used, own) = alloc_block-disjoint start k num h m v new h1 en in
    let (at, u) = unlink_first-some (λ c. p == c.addr) h.used old rest eo in
    let (old_sound, _) = Unlinked-All (IsSound h.top) u v.used_sound in
    let gap =
      apart new old (omega (arith, size, m.num_pos)) old_sound.0
        (λ a. ground (arith, own a, Unlinked-cover a u)) in
    let addr : p ≡ old.addr = ground arith in
    let other : (p == new.addr) ≡ false = ground (arith, gap) in
    let shift : new.addr + i - new.addr ≡ i = omega arith in
    let positive : ltb 0 old.size ≡ true = ground arith in
    rw (ta_getsize_lem p h.used old rest eo, positive, en)
      (
        refl,
        ta_free-used p h1 old (new ∷ rest) (
            ap (unlink_first (λ c. p == c.addr)) used
            ∙ unlink_first-skip (λ c. p == c.addr) new h.used old rest other eo),
        ground (
          arith,
          copy_bytes_lem (if ltb num old.size then num else old.size) 0
              (if ltb num old.size then num else old.size) new.addr p mem (new.addr + i),
          ap (λ (t : ℕ). mem (p + t)) shift,
          gap,
        ),
      )

-- A reallocation of a block in use depends on what the allocation gives.
pub ta_realloc_found :
    (p num : ℕ) (h : Heap) (mem : Mem) (old : Block) (rest : List Block)
    → unlink_first (λ c. p == c.addr) h.used ≡ some (old, rest)
    → 0 < old.size
    → ta_realloc p num (h, mem) ≡ realloc_into p num old.size mem (alloc_block num h)
unfolding ta_realloc
ta_realloc_found p num h mem old rest e pos =
    let positive : ltb 0 old.size ≡ true = ground arith in
    rw (ta_getsize_lem p h.used old rest e, positive)

-- It writes no byte outside the new block.
pub ta_realloc-frame :
    (start k num p a : ℕ) (h h1 : Heap) (mem : Mem) (old new : Block) (rest : List Block)
    → Admits k num h
    → IsValid start h
    → unlink_first (λ c. p == c.addr) h.used ≡ some (old, rest)
    → alloc_block num h ≡ (some new, h1)
    → (a < new.addr) ⊎ (new.addr + new.size ≤ a)
    → (ta_realloc p num (h, mem)).2 a ≡ mem a
unfolding ta_realloc
ta_realloc-frame start k num p a h h1 mem old new rest m v eo en far =
    let (size, used, own) = alloc_block-disjoint start k num h m v new h1 en in
    let (at, u) = unlink_first-some (λ c. p == c.addr) h.used old rest eo in
    let (old_sound, _) = Unlinked-All (IsSound h.top) u v.used_sound in
    let gap =
      apart new old (omega (arith, size, m.num_pos)) old_sound.0
        (λ a. ground (arith, own a, Unlinked-cover a u)) in
    let addr : p ≡ old.addr = ground arith in
    let positive : ltb 0 old.size ≡ true = ground arith in
    rw (ta_getsize_lem p h.used old rest eo, positive, en)
      (ground (
        arith,
        copy_bytes_lem (if ltb num old.size then num else old.size) 0
            (if ltb num old.size then num else old.size) new.addr p mem a,
        gap,
        far,
      ))
