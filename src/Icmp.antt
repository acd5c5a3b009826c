-- ===== src/Icmp.antt =====
-- The ICMP messages of net/icmp.c: the answer to an echo request, and the message that a packet was not
-- wanted, of which one is sent in a tenth of a second at most.
pub mod Echo
pub mod Throttle
mod Tests
use gogoboot.Base.{
  ℕ, ◌+◌, ◌*◌, Bool, true, false, List, [], ◌∷◌, ◌++◌, ◌==◌, if◌then◌else◌, take, drop, get_or,
}
use gogoboot.Timer.{timer_expired, set_timer_ms}
use gogoboot.Sink.{
  Packet, Sink, byte_at, source_ip, ethertype_ipv4, ip_proto_icmp, net_add_packet_sink,
}
use gogoboot.Net.{Net, NetInterface, net_tx}
use gogoboot.Ipv4.{Stale, long_bytes, packet_create_icmp}

-- The four bytes of a field.
abbrev pub long_field : ℕ → List ℕ → List ℕ
long_field at l =
    get_or l at 0 ∷ get_or l (at + 1) 0 ∷ get_or l (at + 2) 0 ∷ get_or l (at + 3) 0 ∷ []

-- An echo request made into its reply.
unfoldable pub echo_reply : NetInterface → Packet → Packet
echo_reply i p = record p {
  destination_mac = p.source_mac;
  source_mac = i.host.macaddr;
  mac_valid = true;
  payload =
      take 12 p.payload
      ++ (long_bytes i.host.ipv4_address ++ (long_field 12 p.payload ++ 0 ∷ drop 21 p.payload));
}

unfoldable pub icmp_received : (Packet → Bool) → (now : ℕ) → NetInterface → Packet → Net → Net
icmp_received attempt now i p n =
    if byte_at 20 p == 8 then net_tx attempt now i (echo_reply i p) n else n

-- The message that the port of a packet cannot be reached. `behind` is what stands in memory behind the
-- packet, should it have less than the 28 bytes that are copied.
unfoldable pub unreachable : (now : ℕ) → NetInterface → Packet → (behind : List ℕ) → Stale → Packet
unreachable now i p behind stale =
    let q = packet_create_icmp now i.host (source_ip p) 28 stale in
    record q {
      destination_mac = p.source_mac;
      mac_valid = true;
      payload =
          take 20 q.payload
          ++ (3 ∷ 3 ∷ [] ++ (take 6 (drop 22 q.payload) ++ take 28 (p.payload ++ behind)));
    }

-- `icmp_throttle_timer` is the first part of the state.
unfoldable pub icmp_send_unreachable :
    (Packet → Bool)
    → (now : ℕ) → NetInterface
    → Packet
    → (behind : List ℕ) → Stale
    → ℕ × Net
    → ℕ × Net
icmp_send_unreachable attempt now i p behind stale (icmp_throttle_timer, n) =
    if timer_expired now icmp_throttle_timer
    then (set_timer_ms now 100, net_tx attempt now i (unreachable now i p behind stale) n)
    else (icmp_throttle_timer, n)

abbrev blank_sink : ℕ → Sink
blank_sink id = record {
  id = id;
  match_interface_local_ip = false;
  match_local_ip = 0;
  match_remote_ip = 0;
  match_local_port = 0;
  match_remote_port = 0;
  match_ethertype = 0;
  match_ipv4_protocol = 0;
  packets_queued = 0;
  queue = [];
  timer = 0;
}

abbrev pub icmp_sink : ℕ → Sink
icmp_sink id = record (blank_sink id) {
  match_interface_local_ip = true;
  match_ethertype = ethertype_ipv4;
  match_ipv4_protocol = ip_proto_icmp;
}

abbrev pub unwanted_ipv4_sink : ℕ → Sink
unwanted_ipv4_sink id = record (blank_sink id) {
  match_interface_local_ip = true;
  match_ethertype = ethertype_ipv4;
}

-- The two sinks, with the addresses that they are allocated at.
unfoldable pub net_icmp_init : (icmp_id unwanted_id : ℕ) → List Sink → List Sink
net_icmp_init icmp_id unwanted_id sinks =
    net_add_packet_sink (unwanted_ipv4_sink unwanted_id)
      (net_add_packet_sink (icmp_sink icmp_id) sinks)
