-- ===== src/Timer/Expiry.antt =====
-- A timer runs out when its duration has passed, however the counter wraps meanwhile.
use Prim.Native.Nat.{bit_and}
use gogoboot.Base.{ℕ, ◌+◌, ◌-◌, ◌/◌, ◌%◌, ◌^◌, ◌≤◌, ◌<◌, ◌≡◌, arith, ltb, ◌==◌, not}
use gogoboot.Base.Bits.{bit_and-two_pow}
use gogoboot.Timer.{word, limit_duration, set_timer_ticks, set_timer_ms, timer_expired}

-- The test of the top bit.
pub top_bit : (n : ℕ) → n < word → not (bit_and n 0x80000000 == 0) ≡ not (ltb n 0x80000000)
top_bit n h = ground (arith, bit_and-two_pow 31 n)

pub limit_duration_bounds :
    (d : ℕ) → d < word → (0 < limit_duration d) × (limit_duration d < 2 ^ 31)
unfolding limit_duration
limit_duration_bounds d h = ground (arith, top_bit d h)

pub limit_duration-same : (d : ℕ) → 0 < d → d < 2 ^ 31 → limit_duration d ≡ d
unfolding limit_duration
limit_duration-same d p h = ground (arith, top_bit d)

-- A timer that is set at `now` has run out after `elapsed` more ticks exactly if its limited
-- duration is less than these, as long as no more than 2^31 ticks have passed since it ran out.
pub timer_expired-set_timer_ticks :
    (now duration elapsed : ℕ)
    → now < word
    → duration < word
    → elapsed ≤ limit_duration duration + 2 ^ 31
    → timer_expired ((now + elapsed) % word) (set_timer_ticks now duration)
      ≡ ltb (limit_duration duration) elapsed
unfolding timer_expired set_timer_ticks
timer_expired-set_timer_ticks now d e n w h =
    let left = ((now + limit_duration d) % word + (word - (now + e) % word)) % word in
    ground (arith, top_bit left (omega arith), limit_duration_bounds d w)

-- A delay in milliseconds is rounded up to whole ticks.
pub set_timer_ms_lem :
    (now msec : ℕ)
    → 0 < msec
    → msec < 2 ^ 32 - 4
    → set_timer_ms now msec ≡ (now + (msec + 4) / 5) % word
unfolding set_timer_ms set_timer_ticks
set_timer_ms_lem now msec p h =
    let same : (msec + 4) % word / 5 ≡ (msec + 4) / 5 = omega arith in
    rw (same, limit_duration-same ((msec + 4) / 5) (omega arith) (omega arith))
