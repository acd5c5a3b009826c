-- ===== src/Elf/Tests.antt =====
-- An executable with a note and two segments that are loaded 1140 bytes behind their addresses, the
-- first of them partly into the bounce buffer.
use gogoboot.Base.{ℕ, List, [], ◌∷◌}
use gogoboot.Ram.{Layout}
use gogoboot.Elf.{ProgramHeader}

abbrev layout : Layout
layout = record {
  ram_size = 8192;
  heap_base = 4096;
  bounce_below_addr = 2048;
  rom_below_addr = 1024;
}

abbrev header : (kind offset paddr filesz memsz : ℕ) → ProgramHeader
header k o p f m = record { kind = k; offset = o; paddr = p; filesz = f; memsz = m }

abbrev headers : List ProgramHeader
headers = header 4 0 0 0 0 ∷ header 1 2 900 6 16 ∷ header 1 8 960 4 4 ∷ []

abbrev content : List ℕ
content = 90 ∷ 91 ∷ 1 ∷ 2 ∷ 3 ∷ 4 ∷ 5 ∷ 6 ∷ 7 ∷ 8 ∷ 9 ∷ 10 ∷ []
