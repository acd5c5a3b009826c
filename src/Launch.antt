-- ===== src/Launch.antt =====
-- The start of a loaded program: `execute` and `load_m68k_executable` of core/loader.c, and the copying
-- of the bounce buffer by `machine_execute` (q40/execute.s). The copying routine's own move into the
-- scratch space and the processor's caches are left out. An argument is the list of its bytes, without the NUL.
pub mod CommandLine
pub mod Copying
pub mod Start
mod Tests
use gogoboot.Base.{
  ℕ, zero, suc, ◌+◌, ◌*◌, ◌/◌, ◌%◌, ◌^◌, Bool, Option, none, some, List, [], ◌∷◌, ltb, ◌==◌,
  if◌then◌else◌, length,
}
use gogoboot.Tinyalloc.{Heap, Mem, word, store}
use gogoboot.Ram.{Layout}
use gogoboot.Loader.{FileApi, Loader, Loaded, fr_ok, malloc, memmove, store_bytes, load_data}

-- `cmdlen`
unfoldable pub command_length : ℕ → List (List ℕ) → ℕ
command_length cmdlen [] = cmdlen
command_length cmdlen (arg ∷ rest) = command_length (cmdlen + (length arg + 1)) rest

-- The loop that copies the arguments, from argument `i` and the offset so far; gives the offset.
unfoldable pub copy_args : List (List ℕ) → (i cmdbuf cmdoff : ℕ) → Mem → ℕ × Mem
copy_args [] i cmdbuf cmdoff mem = (cmdoff, mem)
copy_args (arg ∷ rest) i cmdbuf cmdoff mem =
    let mem' = if ltb 0 i then store mem (cmdbuf + cmdoff) 32 else mem in
    let at = if ltb 0 i then cmdoff + 1 else cmdoff in
    copy_args rest (i + 1) cmdbuf (at + length arg) (store_bytes arg (cmdbuf + at) mem')

-- Behind the arguments comes a NUL.
unfoldable pub build_command_line : List (List ℕ) → ℕ → Mem → Mem
build_command_line args cmdbuf mem =
    let (cmdoff, mem') = copy_args args 0 cmdbuf 0 mem in store mem' (cmdbuf + cmdoff) 0

-- `bounce_loop`: `n` longwords.
unfoldable pub copy_longs : (n src dst : ℕ) → Mem → Mem
copy_longs zero src dst mem = mem
copy_longs (suc n) src dst mem = copy_longs n (src + 4) (dst + 4) (memmove dst src 4 mem)

-- What a program starts with: its entry vector, the memory, and the address of the command line or 0.
pub record Entered : Type 0 where
  pub entry_vector : ℕ
  pub command_line : ℕ
  pub memory : Mem

-- `dbra` counts down the low word of the number of longwords.
unfoldable pub machine_execute : (entry_vector cmdline : ℕ) → Loader → Entered
machine_execute entry_vector cmdline l = record {
  entry_vector = entry_vector;
  command_line = cmdline;
  memory =
      if l.bounce_buffer_size == 0
      then l.memory
      else copy_longs ((l.bounce_buffer_size + 3) % word / 4 % 2 ^ 16) l.bounce_buffer_data
          l.bounce_buffer_target l.memory;
}

-- What follows the allocation of `cmdbuf`.
unfoldable pub execute_with :
    (entry_vector : ℕ) → List (List ℕ) → Loader → Option (ℕ × Heap) → Option Entered
execute_with entry_vector args l none = none
execute_with entry_vector args l (some (cmdbuf, h)) = some (
    machine_execute entry_vector cmdbuf
      (record l { heap = h; memory = build_command_line args cmdbuf l.memory }))

unfoldable pub execute : (entry_vector : ℕ) → List (List ℕ) → Loader → Option Entered
execute entry_vector [] l = some (machine_execute entry_vector 0 l)
execute entry_vector (arg ∷ rest) l =
    execute_with entry_vector (arg ∷ rest) l (malloc (command_length 1 (arg ∷ rest)) l.heap)

-- The arguments without the program's name.
unfoldable pub without_name : List (List ℕ) → List (List ℕ)
without_name [] = []
without_name (name ∷ args) = args

abbrev pub load_address : ℕ
load_address = 2048 * 1024

-- What becomes of a raw executable: the result code of a failed load, or the start.
pub data Result : Type 0 where
  cannot_load : (fresult : ℕ) → Result
  entered : Entered → Result

unfoldable pub started : Option Entered → Option Result
started none = none
started (some e) = some (entered e)

module _ {F : Type 0} where
  unfoldable pub m68k_loaded : List (List ℕ) → Option (Loaded F) → Option Result
  m68k_loaded argv none = none
  m68k_loaded argv (some r) =
      if r.fresult == fr_ok
      then started (execute load_address (without_name argv) r.loader)
      else some (cannot_load r.fresult)

  unfoldable pub load_m68k_executable :
      FileApi F → Layout → List (List ℕ) → F → Loader → Option Result
  load_m68k_executable api lay argv fd l =
      m68k_loaded argv (load_data api lay load_address 0 (api.f_size fd) (api.f_size fd) fd l)
