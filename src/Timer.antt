-- ===== src/Timer.antt =====
-- The tick counter's timers: core/timer.c and the macros of include/timers.h. A `timer_t` is the
-- 32-bit tick at which the timer runs out. The counter's value is the argument `now`.
pub mod Expiry
use Prim.Native.Nat.{bit_and}
use gogoboot.Base.{ℕ, ◌+◌, ◌-◌, ◌*◌, ◌/◌, ◌%◌, ◌^◌, Bool, not, ◌==◌, if◌then◌else◌}

abbrev pub word : ℕ
word = 2 ^ 32

abbrev pub timer_hz : ℕ
timer_hz = 200

abbrev pub timer_ms_per_tick : ℕ
timer_ms_per_tick = 1000 / timer_hz

-- Very short durations are rounded up, very long ones limited.
unfoldable pub limit_duration : ℕ → ℕ
limit_duration duration_ticks =
    if duration_ticks == 0
    then 1
    else if not (bit_and duration_ticks 0x80000000 == 0)
    then 0x7fffffff
    else duration_ticks

unfoldable pub set_timer_ticks : ℕ → ℕ → ℕ
set_timer_ticks now duration_ticks = (now + limit_duration duration_ticks) % word

unfoldable pub timer_expired : ℕ → ℕ → Bool
timer_expired now timer = not (bit_and ((timer + (word - now)) % word) 0x80000000 == 0)

unfoldable pub set_timer_ms : ℕ → ℕ → ℕ
set_timer_ms now msec =
    set_timer_ticks now ((msec + (timer_ms_per_tick - 1)) % word / timer_ms_per_tick)

unfoldable pub set_timer_sec : ℕ → ℕ → ℕ
set_timer_sec now sec = set_timer_ms now (sec * 1000 % word)
