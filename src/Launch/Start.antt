-- ===== src/Launch/Start.antt =====
-- `execute` of core/loader.c: what a program that has been loaded finds when it starts.
use gogoboot.Base.{
  ℕ, ◌+◌, ◌-◌, ◌^◌, ◌≤◌, ◌<◌, ◌≡◌, ◌⊎◌, refl, ap, ◌∙◌, false, inl, inr, Option, none, some, List,
  [], ◌∷◌, ◌++◌, arith, ◌==◌, if◌then◌else◌, length, get_or,
}
use gogoboot.Tinyalloc.{Block, Heap, unlink_first, alloc_block, ta_alloc, block_addr}
use gogoboot.Tinyalloc.Memory.{inside}
use gogoboot.Tinyalloc.Disjoint.{alloc_block-disjoint}
use gogoboot.Tinyalloc.Realloc.{apart}
use gogoboot.Tinyalloc.Unlink.{unlink_first-some, unlink_first-skip, Unlinked-cover}
use gogoboot.Loader.{Loader, malloc, unless_null, store_bytes}
use gogoboot.Loader.Buffer.{
  view, IsHeld, Buffer, unused, held, IsReady, Allocation, fails, gives, allocation, behind,
  Admits-smaller,
}
use gogoboot.Loader.View.{Buffer-below}
use gogoboot.Launch.{
  Entered, command_length, build_command_line, machine_execute, execute_with, execute,
}
use gogoboot.Launch.CommandLine.{
  joined, build_command_line-joined, joined-fits, command_length-spaced,
}
use gogoboot.Launch.Copying.{machine_execute-view}

-- What `execute` gives: the program starts at its entry vector, finds in memory what was loaded, and
-- behind the pointer to its command line the arguments with a space between two and a NUL, or no
-- command line if there is none; the machine has halted only if the allocator refused memory for the line.
pub data Execution (start entry : ℕ) (args : List (List ℕ)) (l : Loader)
    : Option Entered → Type 0 where
  halts :
      {h' : Heap}
      → alloc_block (command_length 1 args) l.heap ≡ (none, h')
      → Execution start entry args l none
  runs :
      {e : Entered}
      → e.entry_vector ≡ entry
      → ((a : ℕ) → a < start → e.memory a ≡ view l a)
      → ((args ≡ []) × (e.command_line ≡ 0))
        ⊎ ((i : ℕ)
            → i < length (joined args ++ 0 ∷ [])
            → e.memory (e.command_line + i) ≡ get_or (joined args ++ 0 ∷ []) i 0)
      → Execution start entry args l (some e)

module _ (start k limit entry : ℕ) (arg : List ℕ) (rest : List (List ℕ)) (l : Loader)
    (r : IsReady start k limit l) (small : limit ≤ 2 ^ 18 - 4)
    (fits : command_length 1 (arg ∷ rest) ≤ limit + 128) (h : Heap) (b : Block)
    (e : alloc_block (command_length 1 (arg ∷ rest)) l.heap ≡ (some b, h)) where
  abbrev args : List (List ℕ)
  args = arg ∷ rest

  abbrev filled : Loader
  filled = record l { heap = h; memory = build_command_line args b.addr l.memory }

  abbrev line : List ℕ
  line = joined args ++ 0 ∷ []

  some_length : 0 < command_length 1 args
  some_length = omega (arith, command_length-spaced args 1)

  -- The line's block is not the buffer's.
  line_apart :
      (g : IsHeld limit l)
      → (b.addr + b.size ≤ g.buffer.addr) ⊎ (g.buffer.addr + g.buffer.size ≤ b.addr)
  line_apart g =
      let (size, used, own) =
        alloc_block-disjoint start k (command_length 1 args) l.heap
          (Admits-smaller some_length fits r.admits) r.valid b h e in
      let (at, u) =
        unlink_first-some (λ c. l.bounce_buffer_data == c.addr) l.heap.used g.buffer g.others
          g.in_use in
      apart b g.buffer (omega (arith, size, some_length)) (omega (arith, g.fits, g.size_pos))
        (λ a. ground (arith, own a, Unlinked-cover a u))

  at_buffer : (g : IsHeld limit l) → l.bounce_buffer_data ≡ g.buffer.addr
  at_buffer g =
      let (at, u) =
        unlink_first-some (λ c. l.bounce_buffer_data == c.addr) l.heap.used g.buffer g.others
          g.in_use in
      ground (arith, at)

  filled-IsReady : IsReady start k limit filled
  filled-IsReady =
      let (v, a, size, used, low, high) =
        behind start k (command_length 1 args) (limit + 128) l.heap h b r.valid r.admits some_length
          fits e in
      record {
        valid = v;
        admits = a;
        limit_aligned = r.limit_aligned;
        limit_le = r.limit_le;
        limit_pos = r.limit_pos;
        small = r.small;
        state = kept used size r.state;
      }
    where
      kept :
          h.used ≡ b ∷ l.heap.used
          → command_length 1 args ≤ b.size
          → Buffer limit l
          → Buffer limit filled
      kept used size (unused p q) = unused p q
      kept used size (held g) =
          let other : (l.bounce_buffer_data == b.addr) ≡ false =
            ground (arith, line_apart g, at_buffer g, size, some_length, g.fits, g.size_pos) in
          held (record {
            buffer = g.buffer;
            others = b ∷ g.others;
            in_use =
                ap (unlink_first (λ c. l.bounce_buffer_data == c.addr)) used
                ∙ unlink_first-skip (λ c. l.bounce_buffer_data == c.addr) b l.heap.used g.buffer
                    g.others other g.in_use;
            data_pos = g.data_pos;
            fits = g.fits;
            size_pos = g.size_pos;
            target_aligned = g.target_aligned;
            size_aligned = g.size_aligned;
            below_limit = g.below_limit;
          })

  filled_memory :
      (a : ℕ)
      → (start ≤ b.addr)
        × (length line ≤ b.size)
        × (filled.memory a ≡ (
            if inside b.addr (b.addr + length line) a
            then get_or line (a - b.addr) 0
            else l.memory a))
  unfolding store_bytes
  filled_memory a =
      let (v, m, size, used, low, high) =
        behind start k (command_length 1 args) (limit + 128) l.heap h b r.valid r.admits some_length
          fits e in
      (
        low,
        omega (arith, size, joined-fits arg rest),
        build_command_line-joined args b.addr l.memory a,
      )

  filled-view : (a : ℕ) → a < start → view filled a ≡ view l a
  unfolding view
  filled-view a below = seen r.state
    where
      seen : Buffer limit l → view filled a ≡ view l a
      seen (unused p q) = ground (arith, q, filled_memory a, below)
      seen (held g) = ground (
        arith,
        line_apart g,
        at_buffer g,
        g.fits,
        filled_memory a,
        filled_memory (l.bounce_buffer_data + (a - l.bounce_buffer_target)),
        below,
      )

  line-view : (i : ℕ) → i < length line → view filled (b.addr + i) ≡ get_or line i 0
  unfolding view
  line-view i lt =
      let at : b.addr + i - b.addr ≡ i = omega arith in
      ground (
        arith,
        filled_memory (b.addr + i),
        ap (λ (t : ℕ). get_or line t 0) at,
        lt,
        r.limit_le,
        Buffer-below r r.state,
      )

  entered-Execution : Execution start entry args l (some (machine_execute entry b.addr filled))
  unfolding machine_execute
  entered-Execution =
      runs refl
        (λ a q.
          machine_execute-view start k limit entry b.addr filled a filled-IsReady small
          ∙ filled-view a q)
        (inr (λ i q.
          machine_execute-view start k limit entry b.addr filled (b.addr + i) filled-IsReady small
          ∙ line-view i q))

execute_some :
    (start k limit entry : ℕ) (arg : List ℕ) (rest : List (List ℕ)) (l : Loader)
    → IsReady start k limit l
    → limit ≤ 2 ^ 18 - 4
    → command_length 1 (arg ∷ rest) ≤ limit + 128
    → (x : Option Block × Heap) → Allocation (command_length 1 (arg ∷ rest)) l.heap x
    → Execution start entry
        (arg ∷ rest)
        l
        (execute_with entry (arg ∷ rest) l (unless_null (block_addr x.0, x.1)))
unfolding execute_with unless_null
execute_some start k limit entry arg rest l r small fits _ (fails h' e) = halts e
execute_some start k limit entry arg rest l r small fits _ (gives b h e) =
    entered-Execution start k limit entry arg rest l r small fits h b e

-- A loaded program is started at its entry vector. It finds below the heap what was loaded, the bounced part
-- included, and its command line behind the pointer that it is given; the machine halts only if memory
-- for the line is refused. gogoboot ends below 256 KB, and the line is not longer than gogoboot.
pub execute-Execution :
    (start k limit entry : ℕ) (args : List (List ℕ)) (l : Loader)
    → IsReady start k limit l
    → limit ≤ 2 ^ 18 - 4
    → command_length 1 args ≤ limit + 128
    → Execution start entry args l (execute entry args l)
unfolding execute malloc ta_alloc machine_execute
execute-Execution start k limit entry [] l r small fits =
    runs refl (λ a q. machine_execute-view start k limit entry 0 l a r small) (inl (refl, refl))
execute-Execution start k limit entry (arg ∷ rest) l r small fits =
    execute_some start k limit entry arg rest l r small fits
      (alloc_block (command_length 1 (arg ∷ rest)) l.heap)
      (allocation (command_length 1 (arg ∷ rest)) l.heap
        (alloc_block (command_length 1 (arg ∷ rest)) l.heap) refl)
