-- ===== src/Loader.antt =====
-- The loader of executables, core/loader.c, with `malloc` and `realloc` of lib/stdlib.c: data goes
-- straight to its address, or into a bounce buffer on the heap where gogoboot itself lies there. All
-- memory, the heap's included, is one function from addresses to bytes. `none` is a machine that has
-- halted for want of memory. The open file, and what FatFs does with it, is a parameter.
pub mod Buffer
pub mod First
pub mod Grow
pub mod Bounce
pub mod Halves
pub mod View
pub mod Direct
pub mod Bounced
pub mod Segment
pub mod Sample
mod Tests
use Prim.Native.Nat.{bit_and}
use gogoboot.Base.{
  ℕ, ◌+◌, ◌-◌, ◌*◌, ◌%◌, ◌^◌, Bool, true, false, not, ◌&&◌, Option, none, some, List, ltb, leb,
  ◌==◌, if◌then◌else◌, length, get_or,
}
use gogoboot.Base.Int.{is_neg32, neg32}
use gogoboot.Tinyalloc.{Heap, Mem, word, ta_alloc, ta_realloc}
use gogoboot.Tinyalloc.Memory.{inside}
use gogoboot.Ram.{Layout, RangeProblem, no_problem, check_writable_range}

abbrev pub fr_ok : ℕ
fr_ok = 0

abbrev pub fr_disk_err : ℕ
fr_disk_err = 1

-- FatFs, for an open file in the state `F`: a result code, the bytes that a read stores, and the file.
pub record FileApi (F : Type 0) : Type 0 where
  pub f_lseek : F → ℕ → ℕ × F
  pub f_read : F → ℕ → ℕ × List ℕ × F
  pub f_size : F → ℕ

-- The static variables, with the heap and the memory.
pub record Loader : Type 0 where
  pub scratch_space : ℕ
  pub bounce_buffer_data : ℕ
  pub bounce_buffer_size : ℕ
  pub bounce_buffer_target : ℕ
  pub heap : Heap
  pub memory : Mem

-- What the C library's memory functions do, where `memmove` takes care of an overlap.
unfoldable pub memset : (s c n : ℕ) → Mem → Mem
memset s c n mem a = if inside s (s + n) a then c else mem a

unfoldable pub memmove : (dest src n : ℕ) → Mem → Mem
memmove dest src n mem a = if inside dest (dest + n) a then mem (src + (a - dest)) else mem a

-- The bytes that `f_read` stores.
unfoldable pub store_bytes : List ℕ → ℕ → Mem → Mem
store_bytes bytes buff mem a =
    if inside buff (buff + length bytes) a then get_or bytes (a - buff) 0 else mem a

unfoldable pub unless_null : Option ℕ × Heap → Option (ℕ × Heap)
unless_null (none, h) = none
unless_null (some p, h) = some (p, h)

unfoldable pub malloc : ℕ → Heap → Option (ℕ × Heap)
malloc size h = unless_null (ta_alloc size h)

unfoldable pub realloc_done : Option ℕ × Heap × Mem → Option (ℕ × Heap × Mem)
realloc_done (none, h, mem) = none
realloc_done (some p, h, mem) = some (p, h, mem)

unfoldable pub with_memory : Mem → Option ℕ × Heap → Option ℕ × Heap × Mem
with_memory mem (p, h) = (p, h, mem)

unfoldable pub realloc : (ptr size : ℕ) → Heap × Mem → Option (ℕ × Heap × Mem)
realloc ptr size (h, mem) =
    realloc_done
      (if ptr == 0 then with_memory mem (ta_alloc size h) else ta_realloc ptr size (h, mem))

-- `(n + 3) & ~3`
unfoldable pub round_longword : ℕ → ℕ
round_longword n = bit_and ((n + 3) % word) (neg32 4)

-- `if(n < 0) n = 0;`
unfoldable pub at_least_zero : ℕ → ℕ
at_least_zero n = if is_neg32 n then 0 else n

-- The bounce buffer is made, behind the scratch space.
unfoldable pub make_buffer : (target size : ℕ) → Loader → ℕ × Heap → Option Loader
make_buffer target size l (scratch, h) = elim (malloc size h) [
  | none ↦ none
  | some (p, h') ↦ some (record l {
    scratch_space = scratch;
    bounce_buffer_data = p;
    bounce_buffer_size = size;
    bounce_buffer_target = target;
    heap = h';
  })
]

unfoldable pub make_behind : (target size : ℕ) → Loader → Option (ℕ × Heap) → Option Loader
make_behind target size l none = none
make_behind target size l (some r) = make_buffer target size l r

-- The buffer after a reallocation to `newsize` that is to make room for `below` bytes in front.
unfoldable pub grown_buffer : (below newsize : ℕ) → Loader → ℕ × Heap × Mem → Loader
grown_buffer below newsize l (p, h, mem) = record l {
  bounce_buffer_data = p;
  bounce_buffer_size = newsize;
  bounce_buffer_target =
      if below == 0
      then l.bounce_buffer_target
      else (l.bounce_buffer_target + (word - below)) % word;
  heap = h;
  memory = if below == 0 then mem else memmove p (p + below) l.bounce_buffer_size mem;
}

unfoldable pub grow_into : (below newsize : ℕ) → Loader → Option (ℕ × Heap × Mem) → Option Loader
grow_into below newsize l none = none
grow_into below newsize l (some r) = some (grown_buffer below newsize l r)

unfoldable pub grow_buffer : (below above : ℕ) → Loader → Option Loader
grow_buffer below above l =
    let newsize = (l.bounce_buffer_size + below + above) % word in
    if (below == 0) && (above == 0)
    then some l
    else grow_into below newsize l (realloc l.bounce_buffer_data newsize (l.heap, l.memory))

-- `below` and `above` are ints.
unfoldable pub bounce_expand : (paddr bounce_size : ℕ) → Loader → Option Loader
bounce_expand paddr bounce_size l =
    if not (l.bounce_buffer_data == 0)
    then grow_buffer
        (round_longword (at_least_zero ((l.bounce_buffer_target + (word - paddr)) % word)))
        (round_longword (
          at_least_zero (
            (paddr + bounce_size + (2 * word - (l.bounce_buffer_target + l.bounce_buffer_size)))
            % word)))
        l
    else make_behind (bit_and paddr (neg32 4)) (round_longword (bounce_size + bit_and paddr 3)) l
        (malloc 128 l.heap)

-- What either half of `load_data` leaves: the result, what is left of `file_size`, file and memory.
pub record Part (F : Type 0) : Type 0 where
  pub fresult : ℕ
  pub file_left : ℕ
  pub file : F
  pub memory : Mem

module _ {F : Type 0} where
  unfoldable pub read_done : (buff load_size pad_size file_size : ℕ) → ℕ × List ℕ × F → Mem → Part F
  read_done buff load_size pad_size file_size (fr, bytes, fd) mem =
      let mem' = store_bytes bytes buff mem in
      if not (fr == fr_ok)
      then record { fresult = fr; file_left = file_size; file = fd; memory = mem' }
      else if not (length bytes == load_size)
      then record { fresult = fr_disk_err; file_left = file_size; file = fd; memory = mem' }
      else record {
        fresult = fr_ok;
        file_left = file_size - load_size;
        file = fd;
        memory = memset (buff + load_size) 0 pad_size mem';
      }

  unfoldable pub seek_done :
      FileApi F → (buff load_size pad_size file_size : ℕ) → ℕ × F → Mem → Part F
  seek_done api buff load_size pad_size file_size (fr, fd) mem =
      if fr == fr_ok
      then read_done buff load_size pad_size file_size (api.f_read fd load_size) mem
      else record { fresult = fr; file_left = file_size; file = fd; memory = mem }

  -- Either half: the file's bytes, then zeros, `part_size` in all.
  unfoldable pub load_part : FileApi F → (offset buff part_size file_size : ℕ) → F → Mem → Part F
  load_part api offset buff part_size file_size fd mem =
      let load_size = if ltb file_size part_size then file_size else part_size in
      let pad_size = if ltb file_size part_size then part_size - file_size else 0 in
      if load_size == 0
      then record {
        fresult = fr_ok;
        file_left = file_size;
        file = fd;
        memory = memset (buff + load_size) 0 pad_size mem;
      }
      else seek_done api buff load_size pad_size file_size (api.f_lseek fd offset) mem

-- `NULL` is the message for a range that passes.
unfoldable pub passes : RangeProblem → Bool
passes no_problem = true
passes _ = false

-- `(char*)loader_bounce_buffer_data + bounce_addr`
unfoldable pub bounce_address : ℕ → Loader → ℕ
bounce_address paddr l = (l.bounce_buffer_data + (paddr + (word - l.bounce_buffer_target))) % word

-- How many bytes go to the bounce buffer.
unfoldable pub bounce_size_of : Layout → (paddr size : ℕ) → ℕ
bounce_size_of lay paddr size =
    if ltb paddr lay.bounce_below_addr
    then (if leb size (lay.bounce_below_addr - paddr) then size else lay.bounce_below_addr - paddr)
    else 0

pub record Loaded (F : Type 0) : Type 0 where
  pub fresult : ℕ
  pub file : F
  pub loader : Loader

module _ {F : Type 0} where
  unfoldable pub part_done : Loader → Part F → Loaded F
  part_done l p = record {
    fresult = p.fresult;
    file = p.file;
    loader = record l { memory = p.memory };
  }

  -- The part that goes straight to its address.
  unfoldable pub load_direct :
      FileApi F → (paddr offset bounce_size direct_size file_size : ℕ) → F → Loader → Loaded F
  load_direct api paddr offset bounce_size direct_size file_size fd l =
      if direct_size == 0
      then record { fresult = fr_ok; file = fd; loader = l }
      else part_done l (
          load_part api ((offset + bounce_size) % word) (paddr + bounce_size) direct_size file_size
            fd l.memory)

  -- What follows the loading of the bounced part.
  unfoldable pub bounced :
      FileApi F → (paddr offset bounce_size direct_size : ℕ) → Loader → Part F → Loaded F
  bounced api paddr offset bounce_size direct_size l p =
      if p.fresult == fr_ok
      then load_direct api paddr offset bounce_size direct_size p.file_left p.file
          (record l { memory = p.memory })
      else part_done l p

  -- What follows `bounce_expand`.
  unfoldable pub load_bounced :
      FileApi F
      → (paddr offset bounce_size direct_size file_size : ℕ) → F
      → Option Loader
      → Option (Loaded F)
  load_bounced api paddr offset bounce_size direct_size file_size fd none = none
  load_bounced api paddr offset bounce_size direct_size file_size fd (some l) = some (
      bounced api paddr offset bounce_size direct_size l
        (load_part api offset (bounce_address paddr l) bounce_size file_size fd l.memory))

  unfoldable pub load_split :
      FileApi F
      → (paddr offset bounce_size direct_size file_size : ℕ) → F
      → Loader
      → Option (Loaded F)
  load_split api paddr offset bounce_size direct_size file_size fd l =
      if bounce_size == 0
      then some (load_direct api paddr offset bounce_size direct_size file_size fd l)
      else load_bounced api paddr offset bounce_size direct_size file_size fd
          (bounce_expand paddr bounce_size l)

  unfoldable pub load_data :
      FileApi F → Layout → (paddr offset file_size size : ℕ) → F → Loader → Option (Loaded F)
  load_data api lay paddr offset file_size size fd l =
      let bounce_size = bounce_size_of lay paddr size in
      if passes (check_writable_range lay paddr size true)
      then load_split api paddr offset bounce_size (size - bounce_size) file_size fd l
      else some (record { fresult = fr_disk_err; file = fd; loader = l })
