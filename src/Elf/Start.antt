-- ===== src/Elf/Start.antt =====
-- Both passes of `load_elf_executable` in core/loader.c: from program headers to a program in its place.
use gogoboot.Base.{
  ℕ, ◌+◌, ◌≤◌, ◌<◌, ◌≡◌, ◌⊎◌, ◌≢◌, Option, none, some, List, [], ◌∷◌, ◌++◌, All, length,
}
use gogoboot.Ram.{Layout}
use gogoboot.Loader.{FileApi, Loader, Loaded}
use gogoboot.Loader.Buffer.{Refuses}
use gogoboot.Elf.{ProgramHeader, pt_load, load_segments, Outcome, enters}
use gogoboot.Elf.Image.{IsPlaced}

-- The segments, from address `from` on and before any offset: none is empty, each lies behind those before
-- it and is inside the file.
unfoldable pub IsSorted : (content : List ℕ) (from : ℕ) → List ProgramHeader → Type 0
IsSorted content from [] = Unit
IsSorted content from (p ∷ ps) =
    ((p.kind ≡ pt_load)
      × (from ≤ p.paddr)
      × (0 < p.memsz)
      × (p.offset + p.filesz ≤ length content)
      × IsSorted content (p.paddr + p.memsz) ps)
    ⊎ ((p.kind ≢ pt_load) × IsSorted content from ps)

-- The program is started with every segment in its place and gogoboot's own memory as it was, or the
-- machine has halted because the allocator refused memory behind some first segments.
pub data Starts {F : Type 0} (api : FileApi F) (lay : Layout) (content : List ℕ) (off entry : ℕ)
    (ps : List ProgramHeader) (fd : F) (l : Loader) : Option (Outcome F) → Type 0 where
  halts :
      {r : Loaded F} (first rest : List ProgramHeader)
      → first ++ rest ≡ ps
      → load_segments api lay off first fd l ≡ some r
      → Refuses (lay.bounce_below_addr + 128) r.loader.heap
      → Starts api lay content off entry ps fd l none
  starts :
      {o : Outcome F}
      → o.verdict ≡ enters entry
      → All (IsPlaced content off o.loader) ps
      → ((a : ℕ) → a < lay.bounce_below_addr → o.loader.memory a ≡ l.memory a)
      → Starts api lay content off entry ps fd l (some o)
