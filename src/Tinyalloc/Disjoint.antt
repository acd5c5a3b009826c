-- ===== src/Tinyalloc/Disjoint.antt =====
-- What a caller of `ta_alloc` and `ta_free` may rely on: memory that is large enough and its own,
-- a failure that changes nothing, and a heap that stays well formed.
use mathlib.Core.Path.{subst}
use native.Mathlib.Nat.{div-mul-le_self, lt-div-mul-add, one-le-pow}
use gogoboot.Base.{
  ℕ, ◌+◌, ◌-◌, ◌*◌, ◌/◌, ◌%◌, ◌^◌, ◌≤◌, ◌<◌, ◌≡◌, refl, ap, ◌∙◌, Bool, true, false, inl, inr,
  Option, none, some, List, [], ◌∷◌, All, All-mono, arith, ◌⊎◌, ◌==◌,
}
use gogoboot.Base.Bits.{bit_and-neg_two_pow}
use gogoboot.Tinyalloc.{
  Block, Heap, word, round_up, serves, unlink_first, give_back, free_found, ta_free, alloc_block,
}
use gogoboot.Tinyalloc.Cover.{within, covers, cover}
use gogoboot.Tinyalloc.Tiled.{IsValid, give_back-IsTiled, unlink-used-IsTiled}
use gogoboot.Tinyalloc.Unlink.{Search, absent, found, unlink_first-Search}
use gogoboot.Tinyalloc.Alloc.{Outcome, success, failure, granted, alloc_rounded-Outcome}

-- `(num + alignment - 1) & -alignment` for an alignment that is a power of two.
pub round_up_lem :
    (k num : ℕ)
    → k < 32
    → num + 2 ^ k ≤ word
    → round_up (2 ^ k) num ≡ (num + (2 ^ k - 1)) / 2 ^ k * 2 ^ k
unfolding round_up
round_up_lem k num h w =
    let pos : 1 ≤ 2 ^ k = one-le-pow k 2 (omega arith) in
    let sum : (num + 2 ^ k + (word - 1)) % word ≡ num + (2 ^ k - 1) = omega (arith, pos) in
    rw sum (bit_and-neg_two_pow k (num + (2 ^ k - 1)) h (omega (arith, pos)))

-- The rounded size is the least multiple of the alignment that is not below `num`.
pub round_up_bounds :
    (k num : ℕ)
    → k < 32
    → num + 2 ^ k ≤ word
    → (num ≤ round_up (2 ^ k) num) × (round_up (2 ^ k) num < num + 2 ^ k)
round_up_bounds k num h w =
    let pos : 1 ≤ 2 ^ k = one-le-pow k 2 (omega arith) in
    rw (round_up_lem k num h w) (
      omega (
        arith,
        pos,
        div-mul-le_self (num + (2 ^ k - 1)) (2 ^ k),
        lt-div-mul-add {a = num + (2 ^ k - 1)} {b = 2 ^ k} pos,
      ))

-- What `ta_init` fixes and no operation changes: the alignment is a power of two, and a request of
-- `num` bytes does not wrap when it is added to an address of the heap.
pub record Admits (k num : ℕ) (h : Heap) : Type 0 where
  pub alignment : h.heap_alignment ≡ 2 ^ k
  pub k_lt : k < 32
  pub num_pos : 0 < num
  pub no_wrap : h.heap_limit + num + 2 ^ k ≤ word

Outcome-some :
    {n : ℕ} {h h' : Heap} {b : Block}
    → Outcome n h (some b, h')
    → (n ≤ b.size) × (h'.used ≡ b ∷ h.used) × (h'.heap_limit ≡ h.heap_limit)
Outcome-some (success (granted q e e' e'')) = (q, e, e')

Outcome-none :
    {n : ℕ} {h h' : Heap}
    → Outcome n h (none, h')
    → (h' ≡ h)
      × All (λ b. serves n h b ≡ false) h.free
      × ((h.fresh ≡ []) ⊎ (h.heap_limit < h.top + n))
Outcome-none (success g) = elim g [ ]
Outcome-none (failure small full) = (refl, small, full)

too_small : (n : ℕ) (h : Heap) (b : Block) → serves n h b ≡ false → b.size < n
unfolding serves
too_small n h b e = ground arith

Outcome-Admits :
    {k n m : ℕ} {h : Heap} {r : Option Block × Heap} → Outcome n h r → Admits k m h → Admits k m r.1
Outcome-Admits (success (granted q e e' e'')) a = record {
  alignment = e'' ∙ a.alignment;
  k_lt = a.k_lt;
  num_pos = a.num_pos;
  no_wrap = omega (arith, a.no_wrap, e');
}
Outcome-Admits (failure small full) a = a

module _ (start k num : ℕ) (h : Heap) (m : Admits k num h) (v : IsValid start h) where
  alloc_block-Outcome :
      Outcome (round_up (2 ^ k) num) h (alloc_block num h) × IsValid start (alloc_block num h).1
  unfolding alloc_block
  alloc_block-Outcome =
      let b = round_up_bounds k num m.k_lt (omega (arith, m.no_wrap)) in
      let same : round_up h.heap_alignment num ≡ round_up (2 ^ k) num =
        ap (λ (t : ℕ). round_up t num) m.alignment in
      rw same (
        alloc_rounded-Outcome start (round_up (2 ^ k) num) h (omega (arith, b, m.num_pos))
          (omega (arith, b, m.no_wrap)) v)

  pub alloc_block-Admits : (n : ℕ) → Admits k n h → Admits k n (alloc_block num h).1
  alloc_block-Admits n a = Outcome-Admits alloc_block-Outcome.0 a

  -- Every allocation, whether it succeeds or not, keeps the heap's invariant.
  pub alloc_block-IsValid : IsValid start (alloc_block num h).1
  alloc_block-IsValid = alloc_block-Outcome.1

  -- A request of at least one byte that does not wrap at 2^32 when the limit and the alignment, a power of
  -- two, are added to it: a block that is returned holds `num` bytes, is the new head of the used list, and
  -- has its own memory. An address lies in it or in a block that was in use before, in one of them at most,
  -- and only if it lies between `start` and the limit.
  pub alloc_block-disjoint :
      (b : Block) (h' : Heap)
      → alloc_block num h ≡ (some b, h')
      → (num ≤ b.size)
        × (h'.used ≡ b ∷ h.used)
        × ((a : ℕ) → covers b a + cover a h.used ≤ within start h.heap_limit a)
  alloc_block-disjoint b h' e =
      let (o, v') =
        subst (λ r. Outcome (round_up (2 ^ k) num) h r × IsValid start r.1) e alloc_block-Outcome in
      let (size, used, limit) = Outcome-some o in
      (
        omega (arith, size, round_up_bounds k num m.k_lt (omega (arith, m.no_wrap))),
        used,
        λ a. ground (arith, v'.tiled a, ap (cover a) used, v'.top_le, limit),
      )

  -- A request of at least one byte that does not wrap at 2^32 when the limit and the alignment are added to
  -- it, and that fails, changes nothing: no free block has as many bytes as the request, rounded up to
  -- the alignment, and either no descriptor is left or that many bytes do not fit below the limit.
  pub alloc_block-none :
      (h' : Heap)
      → alloc_block num h ≡ (none, h')
      → (h' ≡ h)
        × All (λ b. b.size < (num + (2 ^ k - 1)) / 2 ^ k * 2 ^ k) h.free
        × ((h.fresh ≡ []) ⊎ (h.heap_limit < h.top + (num + (2 ^ k - 1)) / 2 ^ k * 2 ^ k))
  alloc_block-none h' e =
      let (o, v') =
        subst (λ r. Outcome (round_up (2 ^ k) num) h r × IsValid start r.1) e alloc_block-Outcome in
      let (same, small, full) = Outcome-none o in
      let r = round_up_lem k num m.k_lt (omega (arith, m.no_wrap)) in
      (
        same,
        All-mono h.free (λ b t. subst (λ n. b.size < n) r (too_small (round_up (2 ^ k) num) h b t))
            small,
        elim full [ inl e' ↦ inl e' | inr lt ↦ inr (subst (λ n. h.heap_limit < h.top + n) r lt) ],
      )

free_found-IsValid :
    (start : ℕ) (test : Block → Bool) (h : Heap) {r : Option (Block × List Block)}
    → IsValid start h
    → Search test h.used r
    → IsValid start (free_found h r).1
unfolding free_found
free_found-IsValid start test h v (absent none') = v
free_found-IsValid start test h v (found t u) = give_back-IsTiled (unlink-used-IsTiled v u)

free_found-Admits :
    (k n : ℕ) (h : Heap) (r : Option (Block × List Block))
    → Admits k n h
    → Admits k n (free_found h r).1
unfolding free_found give_back
free_found-Admits k n h none a = a
free_found-Admits k n h (some (b, l)) a = record {
  alignment = a.alignment;
  k_lt = a.k_lt;
  num_pos = a.num_pos;
  no_wrap = a.no_wrap;
}

pub ta_free-Admits : (k n p : ℕ) (h : Heap) → Admits k n h → Admits k n (ta_free p h).1
unfolding ta_free
ta_free-Admits k n p h a = free_found-Admits k n h (unlink_first (λ b. p == b.addr) h.used) a

-- `ta_free` keeps the heap's invariant, whatever address it is given.
pub ta_free-IsValid : (start p : ℕ) (h : Heap) → IsValid start h → IsValid start (ta_free p h).1
unfolding ta_free
ta_free-IsValid start p h v =
    free_found-IsValid start (λ b. p == b.addr) h v (unlink_first-Search (λ b. p == b.addr) h.used)

pub unlink_first-head :
    (b : Block) (l : List Block) → unlink_first (λ c. b.addr == c.addr) (b ∷ l) ≡ some (b, l)
unfolding unlink_first
unlink_first-head b l = ground arith

-- Freeing the address of a block that was just allocated succeeds, and the blocks in use are again those
-- from before the allocation, if the request had at least one byte and did not wrap at 2^32.
pub ta_free-alloc :
    (start k num : ℕ) (h : Heap) (b : Block) (h' : Heap)
    → Admits k num h
    → IsValid start h
    → alloc_block num h ≡ (some b, h')
    → ((ta_free b.addr h').0 ≡ true) × ((ta_free b.addr h').1.used ≡ h.used)
unfolding ta_free free_found give_back
ta_free-alloc start k num h b h' m v e =
    let (_, used, _) = alloc_block-disjoint start k num h m v b h' e in
    let hit : unlink_first (λ c. b.addr == c.addr) h'.used ≡ some (b, h.used) =
      ap (unlink_first (λ c. b.addr == c.addr)) used ∙ unlink_first-head b h.used in
    rw hit (refl, refl)
