-- ===== src/Net/Tests.antt =====
-- The theorems about net/net.c at a concrete interface, its sinks and frames.
use gogoboot.Timer.{word}
use gogoboot.Sink.Match.{IsMatch, given, fields}
use gogoboot.Base.{
  inl, inr, ◌%◌, ℕ, ◌+◌, ◌≤◌, ◌≡◌, ◌≢◌, All, refl, true, false, List, some, [], ◌∷◌, ◌++◌, arith,
  get_elem?, length,
}
use gogoboot.Arp.{
  Header, packet_create_arp, unresolved, queried, arp_process_packet, find_entry, is_broadcast,
}
use gogoboot.Checksum.{
  checksum_update, fold_carries, checksum_complete, checksum_compute, net_verify_ipv4_checksum,
  net_verify_udp_checksum, udp_checksum_pseudoheader,
}
use gogoboot.Sink.{
  Packet, raw, udp, ethertype_ipv4, Sink, score_sink, insert_sink, has_next, net_add_packet_sink,
}
use gogoboot.Sink.Order.{IsOrdered}
use gogoboot.Net.{
  Net, NetInterface, receive, receive_ipv4, is_for_us, net_eth_push, net_init,
  net_arp_resolver_pump,
}
use gogoboot.Net.Receive.{
  Event, add_sink, remove_sink, frame, handle, handle_all, IsProper, net_init-IsOrdered,
  net_eth_push_best,
}
use gogoboot.Net.Outcome.{Outcome, net_eth_push-Outcome}
use gogoboot.Net.Pending.{net_arp_resolver_pump-reply}

abbrev interface : NetInterface
interface = record {
  host = record { macaddr = 0x020304050607; ipv4_address = 0xc0a80064; subnet_mask = 0xffffff00 };
  gateway = 0xc0a80001;
  null_byte = 0;
}

-- A UDP packet from 192.168.0.1, port 69, to 192.168.0.100, port 8208.
abbrev datagram : List ℕ
datagram =
    69 ∷ 0 ∷ 0 ∷ 30 ∷ 0 ∷ 1 ∷ 64 ∷ 0 ∷ 64 ∷ 17 ∷ 185 ∷ 24 ∷ 192 ∷ 168 ∷ 0 ∷ 1 ∷ 192 ∷ 168 ∷ 0 ∷ 100
    ∷ 0 ∷ 69 ∷ 32 ∷ 16 ∷ 0 ∷ 10 ∷ 93 ∷ 202 ∷ 0 ∷ 5 ∷ []

abbrev received : Packet
received = record {
  destination_mac = 0x020304050607;
  source_mac = 0x0a0b0c0d0e0f;
  ethertype = ethertype_ipv4;
  payload = datagram;
  layer = raw;
  data_length = 0;
  mac_valid = false;
  ipv4_nexthop = 0;
}

abbrev accepted : Packet
accepted = record received { layer = udp; data_length = 2 }

abbrev any_sink : ℕ → Sink
any_sink id = record {
  id = id;
  match_interface_local_ip = false;
  match_local_ip = 0;
  match_remote_ip = 0;
  match_local_port = 0;
  match_remote_port = 0;
  match_ethertype = 0;
  match_ipv4_protocol = 0;
  packets_queued = 0;
  queue = [];
  timer = 0;
}

-- What takes the traffic that nothing else does, and a UDP client.
abbrev unwanted : Sink
unwanted = record (any_sink 1) { match_interface_local_ip = true; match_ethertype = ethertype_ipv4 }

abbrev client : Sink
client = record (any_sink 2) {
  match_interface_local_ip = true;
  match_ipv4_protocol = 17;
  match_remote_ip = 0xc0a80001;
  match_local_port = 8208;
}

abbrev net : Net
net = record (net_init 5) { sinks = client ∷ unwanted ∷ [] }

net-IsOrdered : IsOrdered net.sinks
unfolding net_init IsOrdered score_sink
net-IsOrdered = ((omega arith, tt), (omega arith, tt), (tt, tt, tt))

receive-received : receive interface received ≡ some accepted
unfolding receive receive_ipv4 net_verify_ipv4_checksum net_verify_udp_checksum checksum_update
    fold_carries checksum_complete checksum_compute udp_checksum_pseudoheader
receive-received = refl

unwanted-IsMatch : IsMatch 0xc0a80064 accepted unwanted
unwanted-IsMatch = record {
  ethertype_agrees = inr (refl, refl);
  protocol_agrees = inl refl;
  local_ip_agrees = inl refl;
  own_address = inr (refl, ground arith, refl);
  remote_ip_agrees = inl refl;
  local_port_agrees = inl refl;
  remote_port_agrees = inl refl;
}

net_eth_push_best_example :
    (before : List Sink) × (s : Sink) × (after : List Sink) × (net.sinks ≡ before ++ s ∷ after)
    × (net_eth_push interface received net ≡ record net {
      packet_rx_count = (net.packet_rx_count + 1) % word;
      sinks =
          before
          ++ record s {
            queue = s.queue ++ accepted ∷ [];
            packets_queued = (s.packets_queued + 1) % word;
          }
            ∷ after;
    })
    × IsMatch 0xc0a80064 accepted s
    × (given (fields unwanted) ≤ given (fields s))
unfolding is_for_us net_init
net_eth_push_best_example =
    net_eth_push_best interface received accepted net 1 unwanted net-IsOrdered refl receive-received
      refl unwanted-IsMatch

abbrev events : List Event
events = add_sink unwanted ∷ add_sink client ∷ frame interface received ∷ remove_sink 1 ∷ []

net_init-IsOrdered_example : IsOrdered (handle_all events (net_init 5)).sinks
unfolding IsProper handle net_init net_add_packet_sink has_next insert_sink
net_init-IsOrdered_example = net_init-IsOrdered 5 events (tt, ((omega arith, tt), tt))

-- A packet that waits for the router, and the router's answer.
abbrev waiting : Packet
waiting = record accepted { ipv4_nexthop = 0xc0a80001 }

abbrev parked : Net
parked = record (net_init 5) {
  arp_lookup_list = waiting ∷ [];
  arp_state = record { cache = queried 7 (unresolved 0xc0a80001) ∷ []; timer = 900; sent = [] };
}

abbrev answer : Header
answer =
    packet_create_arp
      (record { macaddr = 0x0a0b0c0d0e0f; ipv4_address = 0xc0a80001; subnet_mask = 0xffffff00 }) 2
      0x020304050607 0xc0a80064

net_arp_resolver_pump-reply_example :
    (j : ℕ) × (get_elem?
        (net_arp_resolver_pump 12 interface (record parked {
          arp_state = arp_process_packet 10 interface.host answer parked.arp_state;
        })).txqueue
        (length parked.txqueue + j)
      ≡ some (record waiting { destination_mac = 0x0a0b0c0d0e0f; mac_valid = true }))
    × All
        (λ q. q.ipv4_nexthop ≢ 0xc0a80001)
        (net_arp_resolver_pump 12 interface (record parked {
          arp_state = arp_process_packet 10 interface.host answer parked.arp_state;
        })).arp_lookup_list
unfolding packet_create_arp find_entry is_broadcast queried
net_arp_resolver_pump-reply_example =
    net_arp_resolver_pump-reply 10 12 interface answer parked 0 waiting refl refl refl refl refl
      refl

-- The packet without its checksums, from a host with the address 192.168.0.1.
abbrev unsummed : List ℕ
unsummed =
    69 ∷ 0 ∷ 0 ∷ 30 ∷ 0 ∷ 1 ∷ 64 ∷ 0 ∷ 64 ∷ 17 ∷ 0 ∷ 0 ∷ 192 ∷ 168 ∷ 0 ∷ 1 ∷ 192 ∷ 168 ∷ 0 ∷ 100 ∷ 0
    ∷ 69 ∷ 32 ∷ 16 ∷ 0 ∷ 10 ∷ 0 ∷ 0 ∷ 0 ∷ 5 ∷ []

abbrev outgoing_packet : Packet
outgoing_packet = record accepted { payload = unsummed; mac_valid = true }

net_eth_push-Outcome_example : Outcome interface received net (net_eth_push interface received net)
net_eth_push-Outcome_example = net_eth_push-Outcome interface received net
