-- ===== src/Loader/View.antt =====
-- What a running program finds in memory, and how the loader's writes change it (core/loader.c).
use gogoboot.Base.{ℕ, ◌+◌, ◌-◌, ◌≤◌, ◌<◌, ◌≡◌, ◌⊎◌, ap, inl, inr, arith, ◌==◌, if◌then◌else◌}
use gogoboot.Tinyalloc.{Mem, word}
use gogoboot.Tinyalloc.Memory.{inside}
use gogoboot.Tinyalloc.Unlink.{unlink_first-some, Unlinked-cover}
use gogoboot.Loader.{Loader}
use gogoboot.Loader.Buffer.{view, IsHeld, Buffer, unused, held, IsReady, Expanded}

-- The buffer is memory of the heap.
pub held_at :
    {start k limit : ℕ} {l : Loader}
    → IsReady start k limit l
    → IsHeld limit l
    → (start ≤ l.bounce_buffer_data) × (l.bounce_buffer_data + l.bounce_buffer_size < word)
held_at {start} {k} {limit} {l} r g =
    let (at, u) =
      unlink_first-some (λ c. l.bounce_buffer_data == c.addr) l.heap.used g.buffer g.others
        g.in_use in
    let low = g.buffer.addr in
    let high = g.buffer.addr + g.buffer.size - 1 in
    (
      ground (arith, at, g.fits, g.size_pos, r.valid.tiled low, Unlinked-cover low u),
      ground (
        arith,
        at,
        g.fits,
        g.size_pos,
        r.valid.tiled high,
        Unlinked-cover high u,
        r.valid.top_le,
        r.valid.limit_lt,
      ),
    )

-- What is written to memory does not move the buffer.
abbrev pub stored : Mem → Loader → Loader
stored mem l = record l { memory = mem }

pub IsHeld-stored :
    {limit : ℕ} {l : Loader} (mem : Mem) → IsHeld limit l → IsHeld limit (stored mem l)
IsHeld-stored mem g = record {
  buffer = g.buffer;
  others = g.others;
  in_use = g.in_use;
  data_pos = g.data_pos;
  fits = g.fits;
  size_pos = g.size_pos;
  target_aligned = g.target_aligned;
  size_aligned = g.size_aligned;
  below_limit = g.below_limit;
}

Buffer-stored : {limit : ℕ} {l : Loader} (mem : Mem) → Buffer limit l → Buffer limit (stored mem l)
Buffer-stored mem (unused e f) = unused e f
Buffer-stored mem (held g) = held (IsHeld-stored mem g)

pub IsReady-stored :
    {start k limit : ℕ} {l : Loader} (mem : Mem)
    → IsReady start k limit l
    → IsReady start k limit (stored mem l)
IsReady-stored mem r = record {
  valid = r.valid;
  admits = r.admits;
  limit_aligned = r.limit_aligned;
  limit_le = r.limit_le;
  limit_pos = r.limit_pos;
  small = r.small;
  state = Buffer-stored mem r.state;
}

pub Buffer-above :
    {start k limit : ℕ} {l : Loader}
    → IsReady start k limit l
    → Buffer limit l
    → (l.bounce_buffer_size ≡ 0) ⊎ (start ≤ l.bounce_buffer_data)
Buffer-above r (unused e f) = inl f
Buffer-above r (held g) = inr (held_at r g).0

pub Buffer-below :
    {start k limit : ℕ} {l : Loader}
    → IsReady start k limit l
    → Buffer limit l
    → (l.bounce_buffer_size ≡ 0) ⊎ (l.bounce_buffer_target + l.bounce_buffer_size ≤ limit)
Buffer-below r (unused e f) = inl f
Buffer-below r (held g) = inr g.below_limit

-- A write behind gogoboot and below the heap is seen where it is made.
pub view-direct :
    (start k limit q n : ℕ) (l : Loader) (mem : Mem) (byte : ℕ → ℕ)
    → IsReady start k limit l
    → limit ≤ q
    → q + n ≤ start
    → ((a : ℕ) → mem a ≡ (if inside q (q + n) a then byte a else l.memory a))
    → (a : ℕ) → a < start
    → view (record l { memory = mem }) a ≡ (if inside q (q + n) a then byte a else view l a)
unfolding view
view-direct start k limit q n l mem byte r low high w a below = ground (
  arith,
  Buffer-above r r.state,
  Buffer-below r r.state,
  w a,
  w (l.bounce_buffer_data + (a - l.bounce_buffer_target)),
)

-- A write to the buffer is seen at its target.
pub view-bounced :
    (start k limit p n : ℕ) (l : Loader) (mem : Mem) (byte : ℕ → ℕ)
    → IsReady start k limit l
    → IsHeld limit l
    → l.bounce_buffer_target ≤ p
    → p + n ≤ l.bounce_buffer_target + l.bounce_buffer_size
    → ((a : ℕ)
        → mem a ≡ (
            if inside
              (l.bounce_buffer_data + (p - l.bounce_buffer_target))
              (l.bounce_buffer_data + (p - l.bounce_buffer_target) + n)
              a
            then byte (a - (l.bounce_buffer_data + (p - l.bounce_buffer_target)))
            else l.memory a))
    → (a : ℕ) → a < start
    → view (record l { memory = mem }) a ≡ (if inside p (p + n) a then byte (a - p) else view l a)
unfolding view
view-bounced start k limit p n l mem byte r g low high w a below =
    let back : l.bounce_buffer_target ≤ a
        → byte (
            l.bounce_buffer_data
            + (a - l.bounce_buffer_target)
            - (l.bounce_buffer_data + (p - l.bounce_buffer_target)))
          ≡ byte (a - p) =
      λ (q : l.bounce_buffer_target ≤ a). ap byte (omega (arith, low, q)) in
    ground (
      arith,
      held_at r g,
      w a,
      w (l.bounce_buffer_data + (a - l.bounce_buffer_target)),
      back,
      low,
      high,
    )

-- An address whose contents the loader has to keep: in the buffer, or between gogoboot and the heap.
abbrev pub IsKept : (start limit : ℕ) → Loader → ℕ → Type 0
IsKept start limit l a =
    (a < start)
    × ((limit ≤ a)
        ⊎ ((l.bounce_buffer_target ≤ a) × (a < l.bounce_buffer_target + l.bounce_buffer_size)))

pub view-Expanded :
    (start k limit p n : ℕ) (l l' : Loader)
    → IsReady start k limit l
    → Expanded start k limit p n l l'
    → (a : ℕ) → IsKept start limit l a
    → view l' a ≡ view l a
unfolding view
view-Expanded start k limit p n l l' r x a (below, inl above) =
    ground (arith, Buffer-below r r.state, x.held.below_limit, x.keeps_memory a below, above)
view-Expanded start k limit p n l l' r x a (below, inr (low, high)) = elim x.same_start [
  | inl z ↦ absurd (omega (arith, z, low, high))
  | inr e ↦ ground (
    arith,
    e,
    low,
    high,
    x.no_smaller,
    x.keeps_buffer (a - l.bounce_buffer_target) (omega (arith, low, high)),
    ap (λ (t : ℕ). l'.memory (l'.bounce_buffer_data + (a - t))) e,
  )
]
