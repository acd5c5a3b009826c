-- ===== src/Elf/Image.antt =====
-- The second pass of `load_elf_executable` in core/loader.c: all segments come to their places.
use mathlib.Core.Path.{subst}
use gogoboot.Base.{
  ℕ, ◌+◌, ◌%◌, ◌≤◌, ◌<◌, ◌≡◌, ◌⊎◌, ◌≢◌, refl, sym, ap, ◌∙◌, true, false, inl, inr, Option, none,
  some, List, [], ◌∷◌, ◌++◌, All, arith, ◌==◌, length,
}
use gogoboot.Tinyalloc.{word}
use gogoboot.Ram.{Layout}
use gogoboot.Ram.Range.{IsClear}
use gogoboot.Loader.{FileApi, Loader, Loaded, fr_ok, load_data}
use gogoboot.Loader.Buffer.{view, IsReady, Refuses}
use gogoboot.Loader.Halves.{IsReliable, part_byte}
use gogoboot.Loader.View.{IsKept}
use gogoboot.Loader.Direct.{Comes, Loading, halted, comes}
use gogoboot.Loader.Segment.{load_data-Loading}
use gogoboot.Elf.{ProgramHeader, pt_load, after_segment, load_segments}

-- The segments can be loaded at an offset from address `from` on: none is empty, each lies behind those
-- before it, is inside the file and where the loader may write.
unfoldable pub IsLoadable :
    (lay : Layout) (content : List ℕ) (off from : ℕ) → List ProgramHeader → Type 0
IsLoadable lay content off from [] = Unit
IsLoadable lay content off from (p ∷ ps) =
    ((p.kind ≡ pt_load)
      × (from ≤ off + p.paddr)
      × (0 < p.memsz)
      × (off + p.paddr + p.memsz < word)
      × (p.offset + p.filesz ≤ length content)
      × IsClear lay (off + p.paddr) (off + p.paddr + p.memsz) true
      × IsLoadable lay content off (off + p.paddr + p.memsz) ps)
    ⊎ ((p.kind ≢ pt_load) × IsLoadable lay content off from ps)

-- A segment is in its place.
abbrev pub IsPlaced : (content : List ℕ) (off : ℕ) → Loader → ProgramHeader → Type 0
IsPlaced content off l p =
    p.kind ≡ pt_load
    → (i : ℕ) → i < p.memsz
    → view l (off + p.paddr + i) ≡ part_byte content p.offset p.filesz i

-- What a run of the second pass gives.
pub record IsLoaded {F : Type 0} (IsOpen : F → List ℕ → ℕ → Type 0) (start k limit : ℕ)
    (content : List ℕ) (off from : ℕ) (ps : List ProgramHeader) (l : Loader) (r : Loaded F)
    : Type 0 where
  pub okay : r.fresult ≡ fr_ok
  pub placed : All (IsPlaced content off r.loader) ps
  pub kept : (a : ℕ) → IsKept start limit l a → a < from → view r.loader a ≡ view l a
  pub own_memory : (a : ℕ) → a < limit → r.loader.memory a ≡ l.memory a

-- All segments are loaded, or the machine has halted behind the first of them because the allocator
-- refused memory.
pub data Loads {F : Type 0} (api : FileApi F) (IsOpen : F → List ℕ → ℕ → Type 0) (start k : ℕ)
    (lay : Layout) (content : List ℕ) (off from : ℕ) (ps : List ProgramHeader) (fd : F) (l : Loader)
    : Option (Loaded F) → Type 0 where
  refuses :
      {r : Loaded F} (first rest : List ProgramHeader)
      → first ++ rest ≡ ps
      → load_segments api lay off first fd l ≡ some r
      → Refuses (lay.bounce_below_addr + 128) r.loader.heap
      → Loads api IsOpen start k lay content off from ps fd l none
  loads :
      {r : Loaded F}
      → IsLoaded IsOpen start k lay.bounce_below_addr content off from ps l r
      → Loads api IsOpen start k lay content off from ps fd l (some r)

module _ {F : Type 0} (api : FileApi F) (IsOpen : F → List ℕ → ℕ → Type 0) (content : List ℕ)
    (start k : ℕ) (lay : Layout) (off : ℕ) where
  skips :
      (p : ProgramHeader) (ps : List ProgramHeader) (fd : F) (l : Loader)
      → p.kind ≢ pt_load
      → load_segments api lay off (p ∷ ps) fd l ≡ load_segments api lay off ps fd l
  unfolding load_segments
  skips p ps fd l ne = let test : (p.kind == pt_load) ≡ false = ground (arith, ne) in rw test refl

  takes :
      (p : ProgramHeader) (ps : List ProgramHeader) (fd : F) (l : Loader) (x : Option (Loaded F))
      → p.kind ≡ pt_load
      → off + p.paddr < word
      → load_data api lay (off + p.paddr) p.offset p.filesz p.memsz fd l ≡ x
      → load_segments api lay off (p ∷ ps) fd l ≡ after_segment x (load_segments api lay off ps)
  unfolding load_segments
  takes p ps fd l x is small e =
      let test : (p.kind == pt_load) ≡ true = ground (arith, is) in
      let same : (off + p.paddr) % word ≡ off + p.paddr = omega (arith, small) in
      rw (test, same, e) refl

  goes_on :
      (r : Loaded F) (rest : F → Loader → Option (Loaded F))
      → r.fresult ≡ fr_ok
      → after_segment (some r) rest ≡ rest r.file r.loader
  unfolding after_segment
  goes_on r rest okay =
      let test : (r.fresult == fr_ok) ≡ true = ground (arith, okay) in rw test refl

  skipped :
      (from : ℕ) (p : ProgramHeader) (ps : List ProgramHeader) (fd : F) (l : Loader)
      → p.kind ≢ pt_load
      → (x : Option (Loaded F)) → Loads api IsOpen start k lay content off from ps fd l x
      → Loads api IsOpen start k lay content off from (p ∷ ps) fd l x
  skipped from p ps fd l ne _ (refuses first rest e f g) =
      refuses (p ∷ first) rest (ap (λ t. p ∷ t) e) (skips p first fd l ne ∙ f) g
  skipped from p ps fd l ne _ (loads d) = loads (record {
    okay = d.okay;
    placed = (λ is. absurd (ne is), d.placed);
    kept = d.kept;
    own_memory = d.own_memory;
  })

  -- The rest of the pass, behind a segment that has come to its place.
  continued :
      (from : ℕ) (p : ProgramHeader) (ps : List ProgramHeader) (fd : F) (l : Loader) (r : Loaded F)
      → p.kind ≡ pt_load
      → off + p.paddr + p.memsz < word
      → from ≤ off + p.paddr
      → load_data api lay (off + p.paddr) p.offset p.filesz p.memsz fd l ≡ some r
      → Comes IsOpen start k lay.bounce_below_addr content
          (off + p.paddr)
          p.offset
          p.filesz
          p.memsz
          l
          r
      → (x : Option (Loaded F))
      → Loads api IsOpen start k lay content off (off + p.paddr + p.memsz) ps r.file r.loader x
      → Loads api IsOpen start k lay content off from (p ∷ ps) fd l x
  continued from p ps fd l r is small low e c _ (refuses first rest eq f g) =
      refuses (p ∷ first) rest (ap (λ t. p ∷ t) eq)
        (takes p first fd l (some r) is (omega (arith, small)) e
          ∙ goes_on r (load_segments api lay off first) c.okay
          ∙ f)
        g
  continued from p ps fd l r is small low e c _ (loads {r = q} d) = loads (record {
    okay = d.okay;
    placed = (
      λ _ i lt.
          d.kept (off + p.paddr + i)
            (c.keepable (off + p.paddr + i) (omega arith) (omega (arith, lt))) (omega (arith, lt))
          ∙ c.placed (off + p.paddr + i) (omega arith) (omega (arith, lt))
          ∙ ap (λ t. part_byte content p.offset p.filesz t) (omega arith),
      d.placed,
    );
    kept = λ a h lt.
        d.kept a (c.still_kept a h) (omega (arith, lt, low))
        ∙ c.kept a h (inl (omega (arith, lt, low)));
    own_memory = λ a lt. d.own_memory a lt ∙ c.own_memory a lt;
  })

  -- One segment of the pass, with the rest of it.
  one :
      (from : ℕ) (p : ProgramHeader) (ps : List ProgramHeader) (fd : F) (l : Loader)
      → p.kind ≡ pt_load
      → off + p.paddr + p.memsz < word
      → from ≤ off + p.paddr
      → ((r : Loaded F)
          → Comes IsOpen start k lay.bounce_below_addr content
              (off + p.paddr)
              p.offset
              p.filesz
              p.memsz
              l
              r
          → Loads api IsOpen start k lay content off
              (off + p.paddr + p.memsz)
              ps
              r.file
              r.loader
              (load_segments api lay off ps r.file r.loader))
      → (x : Option (Loaded F))
      → load_data api lay (off + p.paddr) p.offset p.filesz p.memsz fd l ≡ x
      → Loading IsOpen start k lay.bounce_below_addr content
          (off + p.paddr)
          p.offset
          p.filesz
          p.memsz
          l
          x
      → Loads api IsOpen start k lay content off from
          (p ∷ ps)
          fd
          l
          (after_segment x (load_segments api lay off ps))
  unfolding load_segments after_segment
  one from p ps fd l is small low later _ e (halted g) = refuses [] (p ∷ ps) refl refl g
  one from p ps fd l is small low later _ e (comes {r = q} c) =
      subst (λ x. Loads api IsOpen start k lay content off from (p ∷ ps) fd l x)
        (sym (goes_on q (load_segments api lay off ps) c.okay))
        (continued from p ps fd l q is small low e c (load_segments api lay off ps q.file q.loader)
          (later q c))

module _ {F : Type 0} (api : FileApi F) (IsOpen : F → List ℕ → ℕ → Type 0)
    (law : IsReliable api IsOpen) (content : List ℕ) (start k : ℕ) (lay : Layout) (off : ℕ)
    (w : length content < word) (heap_above : lay.heap_base ≤ start) where
  -- The second pass over segments that can be loaded puts all of them in their places, keeps what
  -- lay below the first, and leaves gogoboot's own memory alone; it halts only if the allocator refuses
  -- memory for the bounce buffer behind some first segments.
  pub load_segments-Loads :
      (ps : List ProgramHeader) (from at : ℕ) (fd : F) (l : Loader)
      → IsReady start k lay.bounce_below_addr l
      → IsOpen fd content at
      → IsLoadable lay content off from ps
      → (l.bounce_buffer_size ≡ 0) ⊎ (l.bounce_buffer_target ≤ from)
      → Loads api IsOpen start k lay content off from ps fd l (load_segments api lay off ps fd l)
  unfolding load_segments IsLoadable after_segment
  load_segments-Loads [] from at fd l r o h above =
      loads (record { okay = refl; placed = tt; kept = λ a q f. refl; own_memory = λ a q. refl })
  load_segments-Loads (p ∷ ps) from at fd l r o (inr (other, h)) above =
      skipped api IsOpen content start k lay off from p ps fd l other
        (load_segments api lay off (p ∷ ps) fd l)
        (subst (λ x. Loads api IsOpen start k lay content off from ps fd l x)
          (sym (skips api IsOpen content start k lay off p ps fd l other))
          (load_segments-Loads ps from at fd l r o h above))
  load_segments-Loads (p ∷ ps) from at fd l r o (inl (is, low, pos, small, there, clear, h)) above =
      subst (λ x. Loads api IsOpen start k lay content off from (p ∷ ps) fd l x)
        (sym (takes api IsOpen content start k lay off p ps fd l _ is (omega (arith, small)) refl))
        (one api IsOpen content start k lay off from p ps fd l is small low
          (λ q c.
            load_segments-Loads ps (off + p.paddr + p.memsz) c.at q.file q.loader c.ready c.opened h
              (elim c.lies_above [ inl z ↦ inl z | inr le ↦ inr (omega (arith, le)) ]))
          _ refl
          (load_data-Loading api IsOpen law content start k lay (off + p.paddr) p.offset p.filesz
            p.memsz at fd l r o (λ _. there) w pos clear small heap_above
            (elim above [ inl z ↦ inl z | inr le ↦ inr (omega (arith, le, low)) ])))
