-- ===== src/Loader/Bounce.antt =====
-- What `bounce_expand` of core/loader.c does.
use gogoboot.Base.{ℕ, ◌+◌, ◌≤◌, ◌<◌, ◌≡◌, inl, inr, arith, ◌⊎◌}
use gogoboot.Loader.{Loader, bounce_expand}
use gogoboot.Loader.Buffer.{Buffer, unused, held, IsReady, Expansion}
use gogoboot.Loader.First.{first_buffer}
use gogoboot.Loader.Grow.{held_buffer}

bounce_state :
    (start k limit paddr n : ℕ) (l : Loader)
    → IsReady start k limit l
    → (l.bounce_buffer_size ≡ 0) ⊎ (l.bounce_buffer_target ≤ paddr)
    → 0 < n
    → paddr + n ≤ limit
    → Buffer limit l
    → Expansion start k limit paddr n l (bounce_expand paddr n l)
bounce_state start k limit paddr n l r d pos up (unused e f) =
    first_buffer start k limit paddr n l r f pos up e
bounce_state start k limit paddr n l r d pos up (held g) = elim d [
  | inl z ↦ absurd (omega (arith, z, g.size_pos))
  | inr le ↦ held_buffer start k limit paddr n l r g le pos up
]

-- A request below gogoboot's end that does not reach below the buffer's start makes `bounce_expand`
-- hand out a buffer for all of it, a block of the heap of whole longwords, and keep what the buffer
-- held and every byte outside the heap; the machine halts only if the allocator refuses a request.
pub bounce_expand-Expansion :
    (start k limit paddr n : ℕ) (l : Loader)
    → IsReady start k limit l
    → (l.bounce_buffer_size ≡ 0) ⊎ (l.bounce_buffer_target ≤ paddr)
    → 0 < n
    → paddr + n ≤ limit
    → Expansion start k limit paddr n l (bounce_expand paddr n l)
bounce_expand-Expansion start k limit paddr n l r d pos up =
    bounce_state start k limit paddr n l r d pos up r.state
