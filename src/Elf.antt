-- ===== src/Elf.antt =====
-- Executables in the ELF format: `load_elf_executable` of core/loader.c with include/elf.h, as it is
-- built for the mini target, which has no Linux boot information to write. Numbers in the file are
-- big-endian. The program headers are kept as they were read, in a block of the heap of their own.
pub mod Range
pub mod Image
pub mod Start
mod Tests
use gogoboot.Base.{
  ℕ, zero, suc, ◌+◌, ◌-◌, ◌*◌, ◌/◌, ◌%◌, ◌^◌, Bool, true, false, not, ◌&&◌, ◌||◌, Option, none,
  some, List, [], ◌∷◌, ltb, ◌==◌, if◌then◌else◌, length,
}
use gogoboot.Tinyalloc.{Heap, Mem, word, ta_free}
use gogoboot.Ram.{Layout, RangeProblem, check_writable_range}
use gogoboot.Loader.{FileApi, Loader, Loaded, fr_ok, malloc, store_bytes, load_data, passes}

-- The fields of `elf32_program_header` that the loader reads.
pub record ProgramHeader : Type 0 where
  pub kind : ℕ
  pub offset : ℕ
  pub paddr : ℕ
  pub filesz : ℕ
  pub memsz : ℕ

abbrev pub pt_load : ℕ
pt_load = 1

abbrev pub pt_dynamic : ℕ
pt_dynamic = 2

abbrev pub pt_interp : ℕ
pt_interp = 3

abbrev pub pt_shlib : ℕ
pt_shlib = 5

unfoldable pub word_in : Mem → ℕ → ℕ
word_in mem a = mem a * 256 + mem (a + 1)

unfoldable pub long_in : Mem → ℕ → ℕ
long_in mem a = word_in mem a * 65536 + word_in mem (a + 2)

unfoldable pub program_header : Mem → ℕ → ProgramHeader
program_header mem a = record {
  kind = long_in mem a;
  offset = long_in mem (a + 4);
  paddr = long_in mem (a + 12);
  filesz = long_in mem (a + 16);
  memsz = long_in mem (a + 20);
}

-- `phnum` headers of `phentsize` bytes each.
unfoldable pub program_headers : Mem → (a phentsize phnum : ℕ) → List ProgramHeader
program_headers mem a phentsize zero = []
program_headers mem a phentsize (suc phnum) =
    program_header mem a ∷ program_headers mem (a + phentsize) phentsize phnum

pub data Scan : Type 0 where
  dynamically_linked needs_interpreter : Scan
  ranged : (min_load_addr max_load_addr : ℕ) → Scan

unfoldable pub lower : ProgramHeader → ℕ → ℕ
lower p min_load_addr =
    if (p.kind == pt_load) && ltb p.paddr min_load_addr then p.paddr else min_load_addr

unfoldable pub upper : ProgramHeader → ℕ → ℕ
upper p max_load_addr =
    if (p.kind == pt_load) && ltb max_load_addr ((p.paddr + p.memsz) % word)
    then (p.paddr + p.memsz) % word
    else max_load_addr

-- The first pass over the headers, from the least and the greatest address so far.
unfoldable pub scan_headers : List ProgramHeader → (min_load_addr max_load_addr : ℕ) → Scan
scan_headers [] least most = ranged least most
scan_headers (p ∷ rest) least most =
    let later = scan_headers rest (lower p least) (upper p most) in
    if (p.kind == pt_shlib) || (p.kind == pt_dynamic)
    then dynamically_linked
    else if p.kind == pt_interp
    then needs_interpreter
    else later

module _ {F : Type 0} where
  -- The pass goes on if the segment was loaded.
  unfoldable pub after_segment :
      Option (Loaded F) → (F → Loader → Option (Loaded F)) → Option (Loaded F)
  after_segment none rest = none
  after_segment (some r) rest = if r.fresult == fr_ok then rest r.file r.loader else some r

  -- The second pass, which loads the segments.
  unfoldable pub load_segments :
      FileApi F → Layout → (load_offset : ℕ) → List ProgramHeader → F → Loader → Option (Loaded F)
  load_segments api lay load_offset [] fd l =
      some (record { fresult = fr_ok; file = fd; loader = l })
  load_segments api lay load_offset (p ∷ rest) fd l =
      if p.kind == pt_load
      then after_segment
          (load_data api lay ((load_offset + p.paddr) % word) p.offset p.filesz p.memsz fd l)
          (load_segments api lay load_offset rest)
      else load_segments api lay load_offset rest fd l

-- What becomes of an executable: one of the refusals, or the start at an entry vector.
pub data Verdict : Type 0 where
  no_header bad_header not_32_bit not_executable not_68000 no_program_headers : Verdict
  linked_dynamically wants_interpreter segment_failed : Verdict
  bad_range : RangeProblem → Verdict
  enters : (entry_vector : ℕ) → Verdict

pub record Outcome (F : Type 0) : Type 0 where
  pub verdict : Verdict
  pub file : F
  pub loader : Loader

unfoldable pub load_offset_of : Layout → (executable_load_address min_load_addr : ℕ) → ℕ
load_offset_of lay executable_load_address least =
    if ltb least lay.rom_below_addr then executable_load_address else 0

module _ {F : Type 0} where
  abbrev outcome : Verdict → F → Loader → Outcome F
  outcome v fd l = record { verdict = v; file = fd; loader = l }

  unfoldable pub segments_done : (entry : ℕ) → Option (Loaded F) → Option (Outcome F)
  segments_done entry none = none
  segments_done entry (some r) =
      some (outcome (if r.fresult == fr_ok then enters entry else segment_failed) r.file r.loader)

  -- What follows the first pass. The offset does not change the length of the range.
  unfoldable pub scanned :
      FileApi F
      → Layout
      → (executable_load_address entry : ℕ) → List ProgramHeader
      → F
      → Loader
      → Scan
      → Option (Outcome F)
  scanned api lay xaddr entry ps fd l dynamically_linked = some (outcome linked_dynamically fd l)
  scanned api lay xaddr entry ps fd l needs_interpreter = some (outcome wants_interpreter fd l)
  scanned api lay xaddr entry ps fd l (ranged least most) =
      let load_offset = load_offset_of lay xaddr least in
      let range =
        check_writable_range lay ((least + load_offset) % word) ((most + (word - least)) % word)
          true in
      if passes range
      then segments_done ((entry + load_offset) % word) (load_segments api lay load_offset ps fd l)
      else some (outcome (bad_range range) fd l)

  unfoldable pub load_image :
      FileApi F
      → Layout
      → (executable_load_address entry : ℕ) → List ProgramHeader
      → F
      → Loader
      → Option (Outcome F)
  load_image api lay xaddr entry ps fd l =
      scanned api lay xaddr entry ps fd l (scan_headers ps (word - 1) 0)

  -- `free(proghead_data)`
  unfoldable pub free_headers : ℕ → Option (Outcome F) → Option (Outcome F)
  free_headers p none = none
  free_headers p (some o) =
      some (record o { loader = record o.loader { heap = (ta_free p o.loader.heap).1 } })

-- `f_read` counts the bytes at the address 0, as the pointer to the count is NULL.
unfoldable pub count_at_null : ℕ → Mem → Mem
count_at_null n mem =
    store_bytes (n / 2 ^ 24 ∷ n / 2 ^ 16 % 256 ∷ n / 256 % 256 ∷ n % 256 ∷ []) 0 mem

-- `sizeof(elf32_header)`
abbrev pub header_size : ℕ
header_size = 52

-- The fields of `elf32_header`, in a header that stands at the address 0.
unfoldable pub has_magic : Mem → Bool
has_magic h = (h 0 == 0x7f) && (h 1 == 69) && (h 2 == 76) && (h 3 == 70) && (h 6 == 1)

unfoldable pub is_32_bit : Mem → Bool
is_32_bit h = (h 4 == 1) && (h 5 == 2) && (h 7 == 0) && (h 8 == 0)

unfoldable pub check_header : Mem → Option Verdict
check_header h =
    if not (has_magic h)
    then some bad_header
    else if not (is_32_bit h)
    then some not_32_bit
    else if not (word_in h 16 == 2)
    then some not_executable
    else if not (word_in h 18 == 4)
    then some not_68000
    else none

module _ {F : Type 0} where
  -- What follows the reading of the program headers into the block `p`.
  unfoldable pub headers_read :
      FileApi F
      → Layout
      → (executable_load_address p : ℕ) → Mem
      → Loader
      → ℕ × List ℕ × F
      → Option (Outcome F)
  headers_read api lay xaddr p h l (fr, bytes, fd) =
      let mem = count_at_null (length bytes) (store_bytes bytes p l.memory) in
      let l' = record l { memory = mem } in
      free_headers p (
        if fr == fr_ok
        then load_image api lay xaddr (long_in h 24)
            (program_headers mem p (word_in h 42) (word_in h 44)) fd l'
        else some (outcome no_program_headers fd l'))

  unfoldable pub headers_sought :
      FileApi F
      → Layout
      → (executable_load_address p : ℕ) → Mem
      → Loader
      → ℕ × F
      → Option (Outcome F)
  headers_sought api lay xaddr p h l (fr, fd) =
      if fr == fr_ok
      then headers_read api lay xaddr p h l (api.f_read fd (word_in h 42 * word_in h 44 % word))
      else free_headers p (some (outcome no_program_headers fd l))

  unfoldable pub headers_allocated :
      FileApi F
      → Layout
      → (executable_load_address : ℕ) → Mem
      → F
      → Loader
      → Option (ℕ × Heap)
      → Option (Outcome F)
  headers_allocated api lay xaddr h fd l none = none
  headers_allocated api lay xaddr h fd l (some (p, heap')) =
      headers_sought api lay xaddr p h (record l { heap = heap' }) (api.f_lseek fd (long_in h 28))

  -- What follows the test of the header.
  unfoldable pub header_checked :
      FileApi F
      → Layout
      → (executable_load_address : ℕ) → Mem
      → F
      → Loader
      → Option Verdict
      → Option (Outcome F)
  header_checked api lay xaddr h fd l (some v) = some (outcome v fd l)
  header_checked api lay xaddr h fd l none =
      headers_allocated api lay xaddr h fd l (malloc (word_in h 42 * word_in h 44 % word) l.heap)

  unfoldable pub header_read :
      FileApi F
      → Layout
      → (executable_load_address : ℕ) → Loader
      → ℕ × List ℕ × F
      → Option (Outcome F)
  header_read api lay xaddr l (fr, bytes, fd) =
      let h = store_bytes bytes 0 (λ _. 0) in
      if (fr == fr_ok) && (length bytes == header_size)
      then header_checked api lay xaddr h fd l (check_header h)
      else some (outcome no_header fd l)

  unfoldable pub load_elf_executable :
      FileApi F → Layout → (executable_load_address : ℕ) → F → Loader → Option (Outcome F)
  load_elf_executable api lay xaddr fd l =
      header_read api lay xaddr l (api.f_read (api.f_lseek fd 0).1 header_size)
