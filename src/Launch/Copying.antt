-- ===== src/Launch/Copying.antt =====
-- The copying of the bounce buffer by `machine_execute` (q40/execute.s).
use gogoboot.Base.{ℕ, zero, suc, ◌+◌, ◌-◌, ◌*◌, ◌/◌, ◌%◌, ◌^◌, ◌≤◌, ◌≡◌, ap, arith, if◌then◌else◌}
use gogoboot.Tinyalloc.{Mem, word}
use gogoboot.Tinyalloc.Memory.{inside}
use gogoboot.Loader.{Loader, memmove}
use gogoboot.Loader.Buffer.{view, IsReady, Buffer, unused, held}
use gogoboot.Loader.View.{held_at}
use gogoboot.Launch.{copy_longs, machine_execute}

-- Longwords that are copied down to a place below their own.
copy_longs_lem :
    (n src dst : ℕ) (mem : Mem) (a : ℕ)
    → dst + 4 * n ≤ src
    → copy_longs n src dst mem a
      ≡ (if inside dst (dst + 4 * n) a then mem (src + (a - dst)) else mem a)
unfolding copy_longs memmove
copy_longs_lem zero src dst mem a h = ground arith
copy_longs_lem (suc n) src dst mem a h =
    let at : dst + 4 ≤ a → mem (src + 4 + (a - (dst + 4))) ≡ mem (src + (a - dst)) =
      λ (q : dst + 4 ≤ a). ap mem (omega (arith, q)) in
    ground (
      arith,
      copy_longs_lem n (src + 4) (dst + 4) (memmove dst src 4 mem) a (omega (arith, h)),
      at,
      h,
    )

-- A buffer of less than 256 KB is copied to its target whole, so that a program finds in memory what
-- `view` says.
pub machine_execute-view :
    (start k limit entry cmdline : ℕ) (l : Loader) (a : ℕ)
    → IsReady start k limit l
    → limit ≤ 2 ^ 18 - 4
    → (machine_execute entry cmdline l).memory a ≡ view l a
unfolding machine_execute view
machine_execute-view start k limit entry cmdline l a r small = copied r.state
  where
    copied : Buffer limit l → (machine_execute entry cmdline l).memory a ≡ view l a
    copied (unused e f) = ground (arith, f)
    copied (held g) =
        let n : (l.bounce_buffer_size + 3) % word / 4 % 2 ^ 16 ≡ l.bounce_buffer_size / 4 =
          omega (arith, g.size_aligned, g.below_limit, small) in
        let all : 4 * (l.bounce_buffer_size / 4) ≡ l.bounce_buffer_size =
          omega (arith, g.size_aligned) in
        ground (
          arith,
          copy_longs_lem (l.bounce_buffer_size / 4) l.bounce_buffer_data l.bounce_buffer_target
              l.memory a (omega (arith, all, held_at r g, r.limit_le, g.below_limit)),
          ap (λ (t : ℕ). copy_longs t l.bounce_buffer_data l.bounce_buffer_target l.memory a) n,
          all,
          g.size_pos,
        )
