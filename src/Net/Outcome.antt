-- ===== src/Net/Outcome.antt =====
-- All that `net_eth_push` of net/net.c can do with a frame.
use mathlib.Core.Path.{subst}
use gogoboot.Timer.{word}
use gogoboot.Base.{
  ℕ, ◌+◌, ◌/◌, ◌%◌, ◌^◌, ◌≡◌, ◌≢◌, ◌⊎◌, refl, sym, ◌∙◌, true, false, inl, inr, Bool-cases, Option,
  none, some, List, [], ◌∷◌, ◌++◌, arith, All, ◌==◌, if-elim,
}
use gogoboot.Sink.{Sink, Packet, sink_matches, enqueue, deliver, push_behind}
use gogoboot.Sink.Deliver.{deliver-hit, deliver-miss, deliver-none}
use gogoboot.Sink.Match.{IsMatch, sink_matches-IsMatch, IsMatch-sink_matches}
use gogoboot.Net.{
  Net, NetInterface, receive, push_delivered, push_received, is_for_us, net_eth_push,
}

-- The first sink that agrees with a packet gets it, or none does.
data Delivery (ip : ℕ) (p : Packet) : List Sink → Option (List Sink) → Type 0 where
  first :
      (before : List Sink) (s : Sink) (after : List Sink)
      → All (λ x. ¬ IsMatch ip p x) before
      → IsMatch ip p s
      → Delivery ip p (before ++ s ∷ after) (some (before ++ enqueue p s ∷ after))
  nobody : {l : List Sink} → All (λ x. ¬ IsMatch ip p x) l → Delivery ip p l none

behind :
    (ip : ℕ) (p : Packet) (s : Sink) (l : List Sink) (r : Option (List Sink))
    → ¬ IsMatch ip p s
    → Delivery ip p l r
    → Delivery ip p (s ∷ l) (push_behind s r)
behind ip p s _ _ no' (first before x after a m) = first (s ∷ before) x after (no', a) m
behind ip p s _ _ no' (nobody a) = nobody (no', a)

deliver-Delivery : (ip : ℕ) (p : Packet) (l : List Sink) → Delivery ip p l (deliver ip p l)
deliver-Delivery ip p [] = subst (Delivery ip p []) (sym (deliver-none ip p [] tt)) (nobody tt)
deliver-Delivery ip p (s ∷ l) = elim (Bool-cases (sink_matches ip p s)) [
  | inl hit ↦
      subst (Delivery ip p (s ∷ l)) (sym (deliver-hit ip p s l hit))
        (first [] s l tt (sink_matches-IsMatch ip p s hit))
  | inr miss ↦ subst (Delivery ip p (s ∷ l)) (sym (deliver-miss ip p s l miss)) (
      behind ip p s l (deliver ip p l)
        (λ m. let both : false ≡ true = sym miss ∙ IsMatch-sink_matches ip p s m in cc both)
        (deliver-Delivery ip p l))
]

-- A frame for another host; one that fails a checksum; one that no sink agrees with; one that the first sink
-- that agrees with it takes. All count as received.
pub data Outcome (i : NetInterface) (p : Packet) (n : Net) : Net → Type 0 where
  for_another :
      p.destination_mac ≢ i.host.macaddr
      → p.destination_mac / 2 ^ 40 % 2 ≢ 1
      → Outcome i p n (record n {
        packet_rx_count = (n.packet_rx_count + 1) % word;
        packet_discard_count = (n.packet_discard_count + 1) % word;
      })
  corrupt :
      (p.destination_mac ≡ i.host.macaddr) ⊎ (p.destination_mac / 2 ^ 40 % 2 ≡ 1)
      → receive i p ≡ none
      → Outcome i p n (record n {
        packet_rx_count = (n.packet_rx_count + 1) % word;
        packet_bad_cksum_count = (n.packet_bad_cksum_count + 1) % word;
      })
  unwanted :
      (q : Packet)
      → (p.destination_mac ≡ i.host.macaddr) ⊎ (p.destination_mac / 2 ^ 40 % 2 ≡ 1)
      → receive i p ≡ some q
      → All (λ s. ¬ IsMatch i.host.ipv4_address q s) n.sinks
      → Outcome i p n (record n {
        packet_rx_count = (n.packet_rx_count + 1) % word;
        packet_discard_count = (n.packet_discard_count + 1) % word;
      })
  queued :
      (q : Packet) (before : List Sink) (s : Sink) (after : List Sink)
      → (p.destination_mac ≡ i.host.macaddr) ⊎ (p.destination_mac / 2 ^ 40 % 2 ≡ 1)
      → receive i p ≡ some q
      → n.sinks ≡ before ++ s ∷ after
      → All (λ x. ¬ IsMatch i.host.ipv4_address q x) before
      → IsMatch i.host.ipv4_address q s
      → Outcome i p n (record n {
        packet_rx_count = (n.packet_rx_count + 1) % word;
        sinks =
            before
            ++ record s {
              queue = s.queue ++ q ∷ [];
              packets_queued = (s.packets_queued + 1) % word;
            }
              ∷ after;
      })

delivered-Outcome :
    (i : NetInterface) (p q : Packet) (n : Net) (l : List Sink) (r : Option (List Sink))
    → (p.destination_mac ≡ i.host.macaddr) ⊎ (p.destination_mac / 2 ^ 40 % 2 ≡ 1)
    → receive i p ≡ some q
    → n.sinks ≡ l
    → Delivery i.host.ipv4_address q l r
    → Outcome i p n
        (push_delivered r (record n { packet_rx_count = (n.packet_rx_count + 1) % word }))
unfolding push_delivered
delivered-Outcome i p q n _ _ us ok e (first before s after a m) =
    queued q before s after us ok e a m
delivered-Outcome i p q n l _ us ok e (nobody a) =
    unwanted q us ok (subst (All (λ s. ¬ IsMatch i.host.ipv4_address q s)) (sym e) a)

received-Outcome :
    (i : NetInterface) (p : Packet) (n : Net) (r : Option Packet)
    → (p.destination_mac ≡ i.host.macaddr) ⊎ (p.destination_mac / 2 ^ 40 % 2 ≡ 1)
    → receive i p ≡ r
    → Outcome i p n
        (push_received i r (record n { packet_rx_count = (n.packet_rx_count + 1) % word }))
unfolding push_received
received-Outcome i p n none us e = corrupt us e
received-Outcome i p n (some q) us e =
    delivered-Outcome i p q n n.sinks (deliver i.host.ipv4_address q n.sinks) us e refl
      (deliver-Delivery i.host.ipv4_address q n.sinks)

is_for_us-true :
    (i : NetInterface) (p : Packet)
    → is_for_us i p ≡ true
    → (p.destination_mac ≡ i.host.macaddr) ⊎ (p.destination_mac / 2 ^ 40 % 2 ≡ 1)
unfolding is_for_us
is_for_us-true i p h = elim (Bool-cases (p.destination_mac == i.host.macaddr)) [
  | inl same ↦ inl (ground (arith, same))
  | inr other ↦ inr (ground (arith, h, other))
]

-- Every frame is counted as received, and then discarded, if it is for another host or no sink agrees with it;
-- dropped for a checksum; or put at the end of the queue of the first sink that agrees with it. Nothing else
-- changes but the counters, which wrap at 2^32.
pub net_eth_push-Outcome :
    (i : NetInterface) (p : Packet) (n : Net) → Outcome i p n (net_eth_push i p n)
unfolding net_eth_push is_for_us
net_eth_push-Outcome i p n =
    if-elim (Outcome i p n) (is_for_us i p)
      (λ us. received-Outcome i p n (receive i p) (is_for_us-true i p us) refl)
      (λ far. for_another (ground (arith, far)) (ground (arith, far)))
