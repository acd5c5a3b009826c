-- ===== src/Icmp/Throttle.antt =====
-- The rate at which net/icmp.c sends the message that a packet was not wanted.
use gogoboot.Base.{
  ℕ, ◌+◌, ◌%◌, ◌≤◌, ◌<◌, ◌≡◌, refl, ap, ◌∙◌, Bool, true, false, List, [], ◌∷◌, arith, ltb,
  if◌then◌else◌, All,
}
use gogoboot.Timer.{word, limit_duration, set_timer_ms, timer_expired}
use gogoboot.Timer.Expiry.{timer_expired-set_timer_ticks}
use gogoboot.Sink.{Packet}
use gogoboot.Net.{Net, NetInterface, net_tx}
use gogoboot.Ipv4.{Stale}
use gogoboot.Icmp.{unreachable, icmp_send_unreachable}

-- An unwanted packet, `elapsed` ticks after a fixed time, with the memory behind it and the memory that
-- the heap has for the message.
pub record Arrival : Type 0 where
  pub elapsed : ℕ
  pub packet : Packet
  pub behind : List ℕ
  pub stale : Stale

module _ (attempt : Packet → Bool) (now : ℕ) (i : NetInterface) where
  abbrev pub arrive : Arrival → ℕ × Net → ℕ × Net
  arrive a s =
      icmp_send_unreachable attempt ((now + a.elapsed) % word) i a.packet a.behind a.stale s

  abbrev pub arrive_all : List Arrival → ℕ × Net → ℕ × Net
  arrive_all [] s = s
  arrive_all (a ∷ as') s = arrive_all as' (arrive a s)

-- The timer that a message starts runs for twenty ticks of five milliseconds.
expired_at :
    (now e : ℕ)
    → now < word
    → e + 21 < 2147483648
    → timer_expired ((now + e) % word) (set_timer_ms now 100) ≡ ltb 20 e
unfolding set_timer_ms limit_duration
expired_at now e w h = timer_expired-set_timer_ticks now 20 e w (omega arith) (omega (arith, h))

-- While the timer runs nothing happens.
arrive_all-quiet :
    (attempt : Packet → Bool) (now : ℕ) (i : NetInterface) (as' : List Arrival) (n : Net)
    → now < word
    → All (λ a. a.elapsed ≤ 20) as'
    → arrive_all attempt now i as' (set_timer_ms now 100, n) ≡ (set_timer_ms now 100, n)
unfolding icmp_send_unreachable
arrive_all-quiet attempt now i [] n w h = refl
arrive_all-quiet attempt now i (a ∷ as') n w h =
    let at = (now + a.elapsed) % word in
    let running : timer_expired at (set_timer_ms now 100) ≡ false =
      expired_at now a.elapsed w (omega (arith, h.0)) ∙ ground (arith, h.0) in
    ap
      (λ b. arrive_all attempt now i as' (
        if b
        then (
          set_timer_ms at 100,
          net_tx attempt at i (unreachable at i a.packet a.behind a.stale) n,
        )
        else (set_timer_ms now 100, n)))
      running
    ∙ arrive_all-quiet attempt now i as' n w h.1

-- When a message is sent, none of the unwanted packets that come within the next tenth of a second makes
-- another one, however many they are; the first that comes later does, within the counter's range.
pub icmp_send_unreachable-throttle :
    (attempt : Packet → Bool) (now timer : ℕ) (i : NetInterface) (first later : Arrival)
    (more : List Arrival) (n : Net)
    → now < word
    → timer_expired now timer ≡ true
    → All (λ a. a.elapsed ≤ 20) more
    → 20 < later.elapsed
    → later.elapsed + 21 < 2147483648
    → (sent : Net) × (sent
        ≡ net_tx attempt now i (unreachable now i first.packet first.behind first.stale) n)
      × (arrive_all attempt now i more
            (icmp_send_unreachable attempt now i first.packet first.behind first.stale (timer, n))
          ≡ (set_timer_ms now 100, sent))
      × (arrive attempt now i later (set_timer_ms now 100, sent) ≡ (
        set_timer_ms ((now + later.elapsed) % word) 100,
        net_tx attempt
            ((now + later.elapsed) % word)
            i
            (unreachable ((now + later.elapsed) % word) i later.packet later.behind later.stale)
            sent,
      ))
unfolding icmp_send_unreachable
icmp_send_unreachable-throttle attempt now timer i first later more n w e quiet late near =
    let sent = net_tx attempt now i (unreachable now i first.packet first.behind first.stale) n in
    let at = (now + later.elapsed) % word in
    let over : timer_expired at (set_timer_ms now 100) ≡ true =
      expired_at now later.elapsed w near ∙ ground (arith, late) in
    (
      sent,
      refl,
      ap
            (λ b.
              arrive_all attempt now i more
                (if b then (set_timer_ms now 100, sent) else (timer, n)))
            e
          ∙ arrive_all-quiet attempt now i more sent w quiet,
      ap
          (λ b.
            if b
            then (
              set_timer_ms at 100,
              net_tx attempt at i (unreachable at i later.packet later.behind later.stale) sent,
            )
            else (set_timer_ms now 100, sent))
          over,
    )
