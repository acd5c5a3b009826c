-- ===== src/Elf/Range.antt =====
-- The first pass of `load_elf_executable` in core/loader.c: the range that it finds covers every segment,
-- so that the test of the range is one of each segment.
use gogoboot.Base.{
  ℕ, ◌+◌, ◌-◌, ◌%◌, ◌≤◌, ◌<◌, ◌≡◌, ◌≢◌, refl, true, inl, ◌||◌, List, [], ◌∷◌, All, arith, ◌==◌,
  if◌then◌else◌, if-elim,
}
use gogoboot.Tinyalloc.{word}
use gogoboot.Ram.{Layout}
use gogoboot.Ram.Range.{IsClear}
use gogoboot.Elf.{
  ProgramHeader, pt_load, pt_dynamic, pt_interp, pt_shlib, Scan, dynamically_linked,
  needs_interpreter, ranged, lower, upper, scan_headers,
}

-- A header of a segment that ends below 2^32 and lies between the two addresses, or of another kind
-- that the loader accepts.
pub record Covered (least most : ℕ) (p : ProgramHeader) : Type 0 where
  pub accepted : (p.kind ≢ pt_shlib) × (p.kind ≢ pt_dynamic) × (p.kind ≢ pt_interp)
  pub from : p.kind ≡ pt_load → least ≤ p.paddr
  pub to : p.kind ≡ pt_load → p.paddr + p.memsz ≤ most

-- No segment wraps.
abbrev pub IsBounded : ProgramHeader → Type 0
IsBounded p = p.paddr + p.memsz < word

lower_lem :
    (p : ProgramHeader) (least : ℕ)
    → (lower p least ≤ least) × (p.kind ≡ pt_load → lower p least ≤ p.paddr)
unfolding lower
lower_lem p least = (ground arith, λ e. ground (arith, e))

upper_lem :
    (p : ProgramHeader) (most : ℕ)
    → IsBounded p
    → (most ≤ upper p most) × (p.kind ≡ pt_load → p.paddr + p.memsz ≤ upper p most)
unfolding upper
upper_lem p most b =
    let same : (p.paddr + p.memsz) % word ≡ p.paddr + p.memsz = omega (arith, b) in
    (ground (arith, same), λ e. ground (arith, same, e))

-- A header that the first pass goes on behind.
module _ (p : ProgramHeader) (least' most' : ℕ) (later : Scan) where
  abbrev step : Scan
  step =
      if (p.kind == pt_shlib) || (p.kind == pt_dynamic)
      then dynamically_linked
      else if p.kind == pt_interp
      then needs_interpreter
      else later

  scan_step :
      step ≡ ranged least' most'
      → ((p.kind ≢ pt_shlib) × (p.kind ≢ pt_dynamic) × (p.kind ≢ pt_interp))
        × (later ≡ ranged least' most')
  scan_step =
      if-elim
        (λ (x : Scan).
          x ≡ ranged least' most'
          → ((p.kind ≢ pt_shlib) × (p.kind ≢ pt_dynamic) × (p.kind ≢ pt_interp))
            × (later ≡ ranged least' most'))
        ((p.kind == pt_shlib) || (p.kind == pt_dynamic))
        (λ _ (x : dynamically_linked ≡ ranged least' most'). absurd (cc x))
        (λ f.
          if-elim
            (λ (x : Scan).
              x ≡ ranged least' most'
              → ((p.kind ≢ pt_shlib) × (p.kind ≢ pt_dynamic) × (p.kind ≢ pt_interp))
                × (later ≡ ranged least' most'))
            (p.kind == pt_interp) (λ _ (x : needs_interpreter ≡ ranged least' most'). absurd (cc x))
            (λ g x. (
              (λ q. ground (arith, f, q), λ q. ground (arith, f, q), λ q. ground (arith, g, q)),
              x,
            )))

-- A first pass that accepts the headers gives a range that covers every segment.
pub scan_headers-Covered :
    (ps : List ProgramHeader) (least most least' most' : ℕ)
    → All IsBounded ps
    → scan_headers ps least most ≡ ranged least' most'
    → (least' ≤ least) × (most ≤ most') × All (Covered least' most') ps
unfolding scan_headers
scan_headers-Covered [] least most least' most' b e =
    let p : least ≡ least' = cc in
    let q : most ≡ most' = cc in (omega (arith, p), omega (arith, q), tt)
scan_headers-Covered (p ∷ ps) least most least' most' b e =
    let (kinds, e') = scan_step p least' most' (scan_headers ps (lower p least) (upper p most)) e in
    let (lo, hi, rest) =
      scan_headers-Covered ps (lower p least) (upper p most) least' most' b.1 e' in
    (
      omega (arith, lo, lower_lem p least),
      omega (arith, hi, upper_lem p most b.0),
      (
        record {
          accepted = kinds;
          from = λ k. omega (arith, lo, (lower_lem p least).1 k);
          to = λ k. omega (arith, hi, (upper_lem p most b.0).1 k);
        },
        rest,
      ),
    )

-- A covered segment lies in what the test of the whole range accepts.
pub Covered-IsClear :
    (lay : Layout) (least most off : ℕ) (p : ProgramHeader)
    → Covered least most p
    → p.kind ≡ pt_load
    → least + off + (most - least) < word
    → IsClear lay (least + off) (most + off) true
    → IsClear lay (off + p.paddr) (off + p.paddr + p.memsz) true
Covered-IsClear lay least most off p c k w h = record {
  in_ram = omega (arith, h.in_ram, c.to k);
  below_heap = omega (arith, h.below_heap, c.to k);
  behind_rom = omega (arith, h.behind_rom, c.from k);
  behind_gogoboot = inl refl;
}
