-- ===== src/Tinyalloc/History.antt =====
-- The allocator from `ta_init` on: whatever its callers do, the heap stays well formed.
use gogoboot.Base.{ℕ, ◌+◌, ◌*◌, ◌%◌, ◌≤◌, ◌<◌, ◌≡◌, true, List, [], ◌∷◌, All, arith, length}
use gogoboot.Tinyalloc.{Block, Heap, word, ta_init, alloc_block, ta_alloc, ta_free, ta_check}
use gogoboot.Tinyalloc.Cover.{within, cover}
use gogoboot.Tinyalloc.Tiled.{IsValid}
use gogoboot.Tinyalloc.Disjoint.{
  Admits, alloc_block-IsValid, alloc_block-Admits, ta_free-IsValid, ta_free-Admits,
}

-- A caller's request.
pub data Request : Type 0 where
  alloc : ℕ → Request
  free : ℕ → Request

pub run : List Request → Heap → Heap
run [] h = h
run (alloc num ∷ rest) h = run rest (ta_alloc num h).1
run (free p ∷ rest) h = run rest (ta_free p h).1

-- Requests of at least one byte that do not wrap when they are added to an address of the heap.
abbrev pub Fits : ℕ → Heap → Request → Type 0
Fits k h (alloc num) = Admits k num h
Fits k h (free p) = Unit

pub ta_init-IsValid :
    (base limit : ℕ) (blocks : List Block) (thresh align : ℕ)
    → base + 16 + 12 * length blocks ≤ limit
    → limit < word
    → 0 < thresh
    → IsValid (base + 16 + 12 * length blocks) (ta_init base limit blocks thresh align)
unfolding ta_init
ta_init-IsValid base limit blocks thresh align p q r =
    let top : (base + 16 + 12 * length blocks) % word ≡ base + 16 + 12 * length blocks =
      omega arith in
    rw top (record {
      tiled = λ a. ground arith;
      pending_sound = tt;
      free_sound = tt;
      used_sound = tt;
      start_le = omega arith;
      top_le = p;
      limit_lt = q;
      thresh_pos = r;
      counted = omega arith;
    })

Fits-Admits :
    (k : ℕ) (h h' : Heap) (l : List Request)
    → ((n : ℕ) → Admits k n h → Admits k n h')
    → All (Fits k h) l
    → All (Fits k h') l
Fits-Admits k h h' [] f a = tt
Fits-Admits k h h' (alloc num ∷ l) f a = (f num a.0, Fits-Admits k h h' l f a.1)
Fits-Admits k h h' (free p ∷ l) f a = (tt, Fits-Admits k h h' l f a.1)

pub run-IsValid :
    (start k : ℕ) (l : List Request) (h : Heap)
    → IsValid start h
    → All (Fits k h) l
    → IsValid start (run l h)
unfolding run ta_alloc
run-IsValid start k [] h v a = v
run-IsValid start k (alloc num ∷ l) h v a =
    run-IsValid start k l (alloc_block num h).1 (alloc_block-IsValid start k num h a.0 v)
      (Fits-Admits k h (alloc_block num h).1 l (alloc_block-Admits start k num h a.0 v) a.1)
run-IsValid start k (free p ∷ l) h v a =
    run-IsValid start k l (ta_free p h).1 (ta_free-IsValid start p h v)
      (Fits-Admits k h (ta_free p h).1 l (λ n. ta_free-Admits k n p h) a.1)

-- After any requests to free, and to allocate at least one byte where the request does not wrap at 2^32 when
-- the limit and the alignment, a power of two, are added to it, `ta_check` holds of a heap that `ta_init` has
-- set up, and its free and used blocks cover every address from behind the descriptors to the top once, and
-- no other address.
pub run-init :
    (base limit : ℕ) (blocks : List Block) (thresh align k : ℕ) (l : List Request)
    → base + 16 + 12 * length blocks ≤ limit
    → limit < word
    → 0 < thresh
    → All (Fits k (ta_init base limit blocks thresh align)) l
    → (ta_check (run l (ta_init base limit blocks thresh align)) ≡ true)
      × ((a : ℕ)
          → cover a (run l (ta_init base limit blocks thresh align)).free
              + cover a (run l (ta_init base limit blocks thresh align)).used
            ≡ within
                (base + 16 + 12 * length blocks)
                (run l (ta_init base limit blocks thresh align)).top
                a)
unfolding ta_check
run-init base limit blocks thresh align k l p q r fits =
    let v =
      run-IsValid (base + 16 + 12 * length blocks) k l (ta_init base limit blocks thresh align)
        (ta_init-IsValid base limit blocks thresh align p q r) fits in
    (ground (arith, v.counted), λ a. omega (arith, v.tiled a))
