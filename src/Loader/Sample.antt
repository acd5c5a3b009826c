-- ===== src/Loader/Sample.antt =====
-- A file and a machine to try the loader at, one with 8 KB of memory: gogoboot ends at 2048, and the heap begins at 4160.
use gogoboot.Base.{ℕ, ◌+◌, ◌≡◌, refl, ap, List, [], ◌∷◌, arith, length, take, drop}
use gogoboot.Tinyalloc.{Block, block, Heap, ta_init}
use gogoboot.Tinyalloc.History.{ta_init-IsValid}
use gogoboot.Ram.{Layout}
use gogoboot.Loader.{FileApi, Loader}
use gogoboot.Loader.Buffer.{IsReady, unused}
use gogoboot.Loader.Halves.{IsReliable}

-- A file held in memory: its bytes and the position.
abbrev pub MemoryFile : Type 0
MemoryFile = List ℕ × ℕ

abbrev pub memory_api : FileApi MemoryFile
memory_api = record {
  f_lseek = λ fd ofs. (0, (fd.0, ofs));
  f_read =
      λ fd btr. (0, take btr (drop fd.1 fd.0), (fd.0, fd.1 + length (take btr (drop fd.1 fd.0))));
  f_size = λ fd. length fd.0;
}

abbrev pub IsMemory : MemoryFile → List ℕ → ℕ → Type 0
IsMemory fd content at = fd ≡ (content, at)

pub memory_api-IsReliable : IsReliable memory_api IsMemory
memory_api-IsReliable = record {
  seeks = λ fd content at ofs o le. (refl, ap (λ (f : MemoryFile). (f.0, ofs)) o);
  reads = λ fd content at btr o. (
    refl,
    ap (λ (f : MemoryFile). take btr (drop f.1 f.0)) o,
    ap (λ (f : MemoryFile). (f.0, f.1 + length (take btr (drop f.1 f.0)))) o,
  );
}

abbrev blank : List Block
blank = block 0 0 ∷ block 0 0 ∷ block 0 0 ∷ block 0 0 ∷ []

abbrev pub layout : Layout
layout = record { ram_size = 8192; heap_base = 4096; bounce_below_addr = 2048; rom_below_addr = 0 }

abbrev pub heap0 : Heap
heap0 = ta_init 4096 8191 blank 16 4

abbrev pub loader0 : Loader
loader0 = record {
  scratch_space = 0;
  bounce_buffer_data = 0;
  bounce_buffer_size = 0;
  bounce_buffer_target = 0;
  heap = heap0;
  memory = λ a. 7;
}

pub loader0-IsReady : IsReady 4160 2 2048 loader0
unfolding ta_init
loader0-IsReady = record {
  valid = ta_init-IsValid 4096 8191 blank 16 4 (omega arith) (omega arith) (omega arith);
  admits = record {
    alignment = refl;
    k_lt = omega arith;
    num_pos = omega arith;
    no_wrap = omega arith;
  };
  limit_aligned = refl;
  limit_le = omega arith;
  limit_pos = omega arith;
  small = omega arith;
  state = unused refl refl;
}
