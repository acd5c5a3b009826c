-- ===== src/Tinyalloc/Compact.antt =====
-- `compact` of lib/tinyalloc.c: joining free blocks changes no address that they cover, and loses no
-- descriptor.
use gogoboot.Base.{
  ℕ, ◌+◌, ◌-◌, ◌%◌, ◌≤◌, ◌<◌, ◌≡◌, refl, sym, ap, true, false, inl, inr, Bool-cases, List, [], ◌∷◌,
  ◌++◌, All, arith, ◌==◌, length, length-append,
}
use gogoboot.Tinyalloc.{
  Block, word, block, end_of, release_blocks, resize_run, compact_run, compact,
}
use gogoboot.Tinyalloc.Cover.{within, covers, cover, IsSound, cover-append}

pub length-release :
    (l fresh : List Block) → length (release_blocks l fresh) ≡ length l + length fresh
unfolding release_blocks
length-release [] fresh = omega arith
length-release (b ∷ l) fresh = omega (arith, length-release l (block 0 0 ∷ fresh))

-- What the run from `ptr` to `prev` is: its blocks lie end to end.
pub record IsRun (top a : ℕ) (ptr prev : Block) (merged : List Block) : Type 0 where
  pub order : ptr.addr ≤ prev.addr
  pub below : IsSound top prev
  pub ptr_below : IsSound top ptr
  pub covered : covers ptr a + cover a merged ≡ within ptr.addr (prev.addr + prev.size) a

within-split : (p q r a : ℕ) → p ≤ q → q ≤ r → within p q a + within q r a ≡ within p r a
within-split p q r a h k = ground arith

IsRun-single : (top a : ℕ) (b : Block) → IsSound top b → IsRun top a b b []
IsRun-single top a b h = record {
  order = omega arith;
  below = h;
  ptr_below = h;
  covered = omega arith;
}

IsRun-extend :
    {top a : ℕ} {ptr prev : Block} {merged : List Block} (scan : Block)
    → top < word
    → IsRun top a ptr prev merged
    → (end_of prev == scan.addr) ≡ true
    → IsSound top scan
    → IsRun top a ptr scan (merged ++ scan ∷ [])
IsRun-extend {top} {a} {ptr} {prev} {merged} scan t r e h =
    let touch : scan.addr ≡ prev.addr + prev.size = ground (arith, r.below) in
    record {
      order = omega (arith, r.order);
      below = h;
      ptr_below = r.ptr_below;
      covered =
          let shifted : covers scan a ≡ within (prev.addr + prev.size) (scan.addr + scan.size) a =
            ap (λ (t : ℕ). within t (scan.addr + scan.size) a) touch in
          omega (
            arith,
            r.covered,
            cover-append a merged (scan ∷ []),
            shifted,
            within-split ptr.addr (prev.addr + prev.size) (scan.addr + scan.size) a,
            r.order,
          );
    }

resize_run_lem :
    {top a : ℕ} {ptr prev : Block} {merged : List Block}
    → top < word
    → IsRun top a ptr prev merged
    → (covers (resize_run ptr prev merged) a ≡ covers ptr a + cover a merged)
      × IsSound top (resize_run ptr prev merged)
unfolding resize_run
resize_run_lem {merged = []} t r = (omega arith, r.ptr_below)
resize_run_lem {top} {a} {ptr} {prev} {merged = m ∷ ms} t r =
    let size : (prev.addr + (word - ptr.addr) + prev.size) % word
        ≡ prev.addr + prev.size - ptr.addr =
      omega (arith, r.order, r.below, r.ptr_below) in
    let last : ptr.addr + (prev.addr + prev.size - ptr.addr) ≡ prev.addr + prev.size =
      omega (arith, r.order) in
    rw (size, last) (sym r.covered, (omega (arith, r.order, r.below), r.below.1))

-- The two ways on from a block: it touches the run, or it begins the next one.
module _ (ptr prev : Block) (merged : List Block) (scan : Block) (rest fresh : List Block) where
  pub compact_run-touch :
      (end_of prev == scan.addr) ≡ true
      → compact_run ptr prev merged (scan ∷ rest) fresh
        ≡ compact_run ptr scan (merged ++ scan ∷ []) rest fresh
  unfolding compact_run
  compact_run-touch e = rw (e, compact_run)

  abbrev pub after_gap : List Block × List Block
  after_gap = compact_run scan scan [] rest (release_blocks merged fresh)

  pub compact_run-gap :
      (end_of prev == scan.addr) ≡ false
      → compact_run ptr prev merged (scan ∷ rest) fresh
        ≡ (resize_run ptr prev merged ∷ after_gap.0, after_gap.1)
  unfolding compact_run
  compact_run-gap e = rw (e, compact_run)

-- Compaction keeps every address covered as often as before, and every block below `top`.
compact_run-cover :
    {top a : ℕ} (ptr prev : Block) (merged rest fresh : List Block)
    → top < word
    → IsRun top a ptr prev merged
    → All (IsSound top) rest
    → cover a (compact_run ptr prev merged rest fresh).0
      ≡ covers ptr a + cover a merged + cover a rest
unfolding compact_run
compact_run-cover {a} ptr prev merged [] fresh t r h = omega (arith, (resize_run_lem t r).0)
compact_run-cover {top} {a} ptr prev merged (scan ∷ rest) fresh t r h =
    elim (Bool-cases (end_of prev == scan.addr)) [
      | inl e ↦ rw (compact_run-touch ptr prev merged scan rest fresh e) (
          omega (
            arith,
            compact_run-cover ptr scan (merged ++ scan ∷ []) rest fresh t
                (IsRun-extend scan t r e h.0) h.1,
            cover-append a merged (scan ∷ []),
          ))
      | inr e ↦ rw (compact_run-gap ptr prev merged scan rest fresh e) (
          omega (
            arith,
            compact_run-cover scan scan [] rest (release_blocks merged fresh) t
                (IsRun-single top a scan h.0) h.1,
            (resize_run_lem t r).0,
          ))
    ]

compact_run-IsSound :
    {top a : ℕ} (ptr prev : Block) (merged rest fresh : List Block)
    → top < word
    → IsRun top a ptr prev merged
    → All (IsSound top) rest
    → All (IsSound top) (compact_run ptr prev merged rest fresh).0
unfolding compact_run
compact_run-IsSound ptr prev merged [] fresh t r h = ((resize_run_lem t r).1, tt)
compact_run-IsSound {top} {a} ptr prev merged (scan ∷ rest) fresh t r h =
    elim (Bool-cases (end_of prev == scan.addr)) [
      | inl e ↦ rw (compact_run-touch ptr prev merged scan rest fresh e) (
          compact_run-IsSound ptr scan (merged ++ scan ∷ []) rest fresh t
            (IsRun-extend scan t r e h.0) h.1)
      | inr e ↦ rw (compact_run-gap ptr prev merged scan rest fresh e) (
        (resize_run_lem t r).1,
        compact_run-IsSound scan scan [] rest (release_blocks merged fresh) t
            (IsRun-single top a scan h.0) h.1,
      )
    ]

-- The descriptors move between the lists, and none is lost.
compact_run-length :
    (ptr prev : Block) (merged rest fresh : List Block)
    → length (compact_run ptr prev merged rest fresh).0
        + length (compact_run ptr prev merged rest fresh).1
      ≡ 1 + length merged + length rest + length fresh
unfolding compact_run
compact_run-length ptr prev merged [] fresh = omega (arith, length-release merged fresh)
compact_run-length ptr prev merged (scan ∷ rest) fresh =
    elim (Bool-cases (end_of prev == scan.addr)) [
      | inl e ↦ rw (compact_run-touch ptr prev merged scan rest fresh e) (
          omega (
            arith,
            compact_run-length ptr scan (merged ++ scan ∷ []) rest fresh,
            length-append merged (scan ∷ []),
          ))
      | inr e ↦ rw (compact_run-gap ptr prev merged scan rest fresh e) (
          omega (
            arith,
            compact_run-length scan scan [] rest (release_blocks merged fresh),
            length-release merged fresh,
          ))
    ]

pub compact-cover :
    (top a : ℕ) (l fresh : List Block)
    → top < word
    → All (IsSound top) l
    → cover a (compact l fresh).0 ≡ cover a l
unfolding compact
compact-cover top a [] fresh t h = refl
compact-cover top a (p ∷ l) fresh t h =
    omega (arith, compact_run-cover p p [] l fresh t (IsRun-single top a p h.0) h.1)

pub compact-IsSound :
    (top : ℕ) (l fresh : List Block)
    → top < word
    → All (IsSound top) l
    → All (IsSound top) (compact l fresh).0
unfolding compact
compact-IsSound top [] fresh t h = tt
compact-IsSound top (p ∷ l) fresh t h =
    compact_run-IsSound p p [] l fresh t (IsRun-single top 0 p h.0) h.1

pub length-compact :
    (l fresh : List Block)
    → length (compact l fresh).0 + length (compact l fresh).1 ≡ length l + length fresh
unfolding compact
length-compact [] fresh = refl
length-compact (p ∷ l) fresh = omega (arith, compact_run-length p p [] l fresh)
