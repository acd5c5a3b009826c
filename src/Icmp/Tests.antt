-- ===== src/Icmp/Tests.antt =====
-- The theorems about net/icmp.c at a concrete request and for concrete packets that are not wanted.
use gogoboot.Base.{ℕ, ◌+◌, ◌%◌, ◌≡◌, refl, true, false, List, [], ◌∷◌, arith}
use gogoboot.Timer.{word, timer_expired, set_timer_ms}
use gogoboot.Sink.{Packet, icmp, ethertype_ipv4}
use gogoboot.Net.{NetInterface, net_init, net_tx, Net}
use gogoboot.Icmp.{icmp_send_unreachable, unreachable}
use gogoboot.Icmp.Throttle.{Arrival, arrive, arrive_all, icmp_send_unreachable-throttle}

abbrev pinged : NetInterface
pinged = record {
  host = record { macaddr = 0x020304050607; ipv4_address = 0xc0a80064; subnet_mask = 0xffffff00 };
  gateway = 0xc0a80001;
  null_byte = 0;
}

-- An echo request from 192.168.0.1, with two bytes of data.
abbrev request_bytes : List ℕ
request_bytes =
    69 ∷ 0 ∷ 0 ∷ 30 ∷ 0 ∷ 1 ∷ 64 ∷ 0 ∷ 64 ∷ 1 ∷ 0 ∷ 0 ∷ 192 ∷ 168 ∷ 0 ∷ 1 ∷ 192 ∷ 168 ∷ 0 ∷ 100 ∷ 8
    ∷ 0 ∷ 0 ∷ 0 ∷ 0 ∷ 7 ∷ 0 ∷ 1 ∷ 65 ∷ 66 ∷ []

abbrev echo_request : Packet
echo_request = record {
  destination_mac = 0x020304050607;
  source_mac = 0x0a0b0c0d0e0f;
  ethertype = ethertype_ipv4;
  payload = request_bytes;
  layer = icmp;
  data_length = 2;
  mac_valid = false;
  ipv4_nexthop = 0;
}

abbrev unwanted_at : ℕ → Arrival
unwanted_at elapsed = record {
  elapsed = elapsed;
  packet = echo_request;
  behind = [];
  stale = record { mac = 0; bytes = [] };
}

icmp_send_unreachable-throttle_example :
    (sent : Net) × (sent
      ≡ net_tx
          (λ _. true)
          1000
          pinged
          (unreachable 1000 pinged echo_request [] (record { mac = 0; bytes = [] }))
          (net_init 5))
    × (arrive_all
          (λ _. true)
          1000
          pinged
          (unwanted_at 3 ∷ unwanted_at 20 ∷ [])
          (icmp_send_unreachable
            (λ _. true)
            1000
            pinged
            echo_request
            []
            (record { mac = 0; bytes = [] })
            (500, net_init 5))
        ≡ (set_timer_ms 1000 100, sent))
    × (arrive (λ _. true) 1000 pinged (unwanted_at 21) (set_timer_ms 1000 100, sent) ≡ (
      set_timer_ms ((1000 + 21) % word) 100,
      net_tx
          (λ _. true)
          ((1000 + 21) % word)
          pinged
          (unreachable ((1000 + 21) % word) pinged echo_request [] (record { mac = 0; bytes = [] }))
          sent,
    ))
unfolding timer_expired
icmp_send_unreachable-throttle_example =
    icmp_send_unreachable-throttle (λ _. true) 1000 500 pinged (unwanted_at 0) (unwanted_at 21)
      (unwanted_at 3 ∷ unwanted_at 20 ∷ []) (net_init 5) (omega arith) refl
      (omega arith, (omega arith, tt)) (omega arith) (omega arith)
