-- ===== src/Net.antt =====
-- The network core of net/net.c: received frames are checked and queued for a sink, sent packets get
-- their checksums and their next hop, and wait for its Ethernet address where the ARP cache has none.
-- Queues are lists, as net/packet.c keeps them. The driver's `eth_attempt_tx` is the argument
-- `attempt`: whether it takes the packet at once. The address `packet->ipv4` of a packet that has no
-- such header is not looked behind.
-- The counters have 32 bits and wrap. The ARP messages are kept in the state of net/arp.c, and not counted
-- with the packets.
pub mod Receive
pub mod Send
pub mod Message
pub mod Pending
pub mod Outcome
mod Tests
use Prim.Native.Nat.{bit_and}
use gogoboot.Timer.{word}
use gogoboot.Base.{
  ℕ, zero, suc, ◌+◌, ◌-◌, ◌*◌, ◌/◌, ◌%◌, ◌^◌, Bool, true, false, not, ◌&&◌, ◌||◌, Option, none,
  some, List, [], ◌∷◌, ◌++◌, ◌==◌, if◌then◌else◌, take, drop, get_or,
}
use gogoboot.Arp.{
  Arp, Host, Outgoing, ArpResult, arp_okay, arp_wait, arp_fail, net_arp_resolve, net_arp_init,
}
use gogoboot.Checksum.{
  net_verify_ipv4_checksum, net_verify_udp_checksum, net_verify_icmp_checksum,
  net_compute_ipv4_checksum, net_compute_udp_checksum, net_compute_icmp_checksum, UdpPacket,
}
use gogoboot.Sink.{
  Packet, Layer, raw, arp, ipv4, tcp, udp, icmp, has_ipv4, word_at, byte_at, ipv4_protocol,
  source_ip, destination_ip, ethertype_ipv4, ethertype_arp, ip_proto_icmp, ip_proto_tcp,
  ip_proto_udp, Sink, deliver, long_at,
}

pub record Net : Type 0 where
  pub sinks : List Sink
  pub txqueue : List Packet
  pub arp_lookup_list : List Packet
  pub packet_rx_count : ℕ
  pub packet_tx_count : ℕ
  pub packet_discard_count : ℕ
  pub packet_bad_cksum_count : ℕ
  pub arp_state : Arp
  pub transmitted : List Packet

-- The addresses of the interface, and the byte at the address that the code reads through the pointer
-- `packet->tcp` before it sets it.
pub record NetInterface : Type 0 where
  pub host : Host
  pub gateway : ℕ
  pub null_byte : ℕ

-- The parts of an IPv4 packet that the UDP checksum is about.
abbrev pub udp_packet : List ℕ → UdpPacket
udp_packet bytes = record {
  addresses = take 8 (drop 12 bytes);
  protocol = get_or bytes 9 0;
  udp = drop 20 bytes;
}

-- The carry loop's three rounds always suffice, so `none` does not come up.
abbrev verified : Option Bool → Bool
verified none = false
verified (some ok) = ok

-- The `switch` on the protocol of a received IPv4 packet; `none` is `goto bad_cksum`. The TCP checksum
-- always passes.
pub receive_ipv4 : NetInterface → Packet → Option Packet
receive_ipv4 i p =
    if ipv4_protocol p == ip_proto_tcp
    then some (record p {
      layer = tcp;
      data_length = (word_at 2 p + (65536 - bit_and i.null_byte 0x0f * 4)) % 65536;
    })
    else if ipv4_protocol p == ip_proto_udp
    then if verified (net_verify_udp_checksum (udp_packet p.payload))
      then some (record p { layer = udp; data_length = (word_at 24 p + (65536 - 8)) % 65536 })
      else none
    else if ipv4_protocol p == ip_proto_icmp
    then if verified (net_verify_icmp_checksum (word_at 2 p) (drop 20 p.payload))
      then some (record p { layer = icmp; data_length = (word_at 2 p + (65536 - 28)) % 65536 })
      else none
    else some (record p { layer = ipv4 })

-- The `switch` on the type of a received frame.
pub receive : NetInterface → Packet → Option Packet
receive i p =
    if p.ethertype == ethertype_ipv4
    then if verified (net_verify_ipv4_checksum p.payload) then receive_ipv4 i p else none
    else if p.ethertype == ethertype_arp
    then some (record p { layer = arp })
    else some p

abbrev discard : Net → Net
discard n = record n { packet_discard_count = (n.packet_discard_count + 1) % word }

pub push_delivered : Option (List Sink) → Net → Net
push_delivered none n = discard n
push_delivered (some sinks') n = record n { sinks = sinks' }

pub push_received : NetInterface → Option Packet → Net → Net
push_received i none n = record n { packet_bad_cksum_count = (n.packet_bad_cksum_count + 1) % word }
push_received i (some p) n = push_delivered (deliver i.host.ipv4_address p n.sinks) n

-- For our address, or with the multicast bit, the lowest of the first byte.
pub is_for_us : NetInterface → Packet → Bool
is_for_us i p = (p.destination_mac == i.host.macaddr) || (p.destination_mac / 2 ^ 40 % 2 == 1)

pub net_eth_push : NetInterface → Packet → Net → Net
net_eth_push i p n =
    let n' = record n { packet_rx_count = (n.packet_rx_count + 1) % word } in
    if is_for_us i p then push_received i (receive i p) n' else discard n'

-- --- transmit pipe ---

abbrev filled : Option (List ℕ) → List ℕ → List ℕ
filled none bytes = bytes
filled (some bytes') bytes = bytes'

abbrev filled_udp : Option UdpPacket → List ℕ → List ℕ
filled_udp none bytes = bytes
filled_udp (some u) bytes = take 20 bytes ++ u.udp

-- The checksum of what the IPv4 packet carries.
pub compute_inner : List ℕ → List ℕ
compute_inner bytes =
    if get_or bytes 9 0 == ip_proto_udp
    then filled_udp (net_compute_udp_checksum (udp_packet bytes)) bytes
    else if get_or bytes 9 0 == ip_proto_icmp
    then take 20 bytes
      ++ filled
          (net_compute_icmp_checksum (get_or bytes 2 0 * 256 + get_or bytes 3 0) (drop 20 bytes))
          (drop 20 bytes)
    else bytes

pub compute_checksums : Packet → Packet
compute_checksums p =
    if p.ethertype == ethertype_ipv4
    then record p {
      payload = compute_inner (filled (net_compute_ipv4_checksum p.payload) p.payload);
    }
    else p

pub net_ipv4_route : NetInterface → Packet → Packet
net_ipv4_route i p = if not (has_ipv4 p.layer) then p else record p {
  ipv4_nexthop =
      if bit_and (destination_ip p) i.host.subnet_mask
        == bit_and i.host.ipv4_address i.host.subnet_mask
      then destination_ip p
      else i.gateway;
}

abbrev is_udp : Layer → Bool
is_udp udp = true
is_udp _ = false

-- Sent from 0.0.0.0, and not by the DHCP client.
pub has_no_address : Packet → Bool
has_no_address p =
    has_ipv4 p.layer
    && ((source_ip p == 0)
        && not (is_udp p.layer && ((word_at 20 p == 68) && (word_at 22 p == 67))))

-- What `net_arp_resolve` reads of a packet.
abbrev pub outgoing : Packet → Outgoing
outgoing p = record {
  destination_ip = if has_ipv4 p.layer then some (destination_ip p) else none;
  ipv4_nexthop = p.ipv4_nexthop;
}

-- `packet_set_destination_mac`, where the resolution does that.
abbrev pub set_destination_mac : Option ℕ → Packet → Packet
set_destination_mac none p = p
set_destination_mac (some mac) p = record p { destination_mac = mac; mac_valid = true }

pub transmit : (Packet → Bool) → Packet → Net → Net
transmit attempt p n =
    if attempt p
    then record n { transmitted = n.transmitted ++ p ∷ [] }
    else record n { txqueue = n.txqueue ++ p ∷ [] }

pub tx_resolved : (Packet → Bool) → Packet → ArpResult × Option ℕ × Arp → Net → Net
tx_resolved attempt p (arp_okay, mac, a) n =
    transmit attempt (set_destination_mac mac p) (record n { arp_state = a })
tx_resolved attempt p (arp_wait, mac, a) n = record n {
  arp_state = a;
  arp_lookup_list = p ∷ n.arp_lookup_list;
}
tx_resolved attempt p (arp_fail, mac, a) n = record n {
  arp_state = a;
  arp_lookup_list = p ∷ n.arp_lookup_list;
}

-- `net_tx` behind the checksums and the route.
pub tx_routed : (Packet → Bool) → ℕ → NetInterface → Packet → Net → Net
tx_routed attempt now i p n =
    let n' = record n { packet_tx_count = (n.packet_tx_count + 1) % word } in
    if p.mac_valid
    then transmit attempt p n'
    else tx_resolved attempt p (net_arp_resolve now i.host (outgoing p) n.arp_state) n'

pub net_tx : (Packet → Bool) → ℕ → NetInterface → Packet → Net → Net
net_tx attempt now i p n =
    if has_no_address p
    then n
    else tx_routed attempt now i (net_ipv4_route i (compute_checksums p)) n

pub net_eth_pull : Net → Option Packet × Net
net_eth_pull n = elim n.txqueue [
  | [] ↦ (none, n)
  | p ∷ rest ↦ (some p, record n { txqueue = rest })
]

-- The packets that still wait, those that are ready, and the ARP state.
abbrev pub Resolved : Type 0
Resolved = List Packet × List Packet × Arp

-- One packet of the list of those that wait, ahead of the others.
pub resolver_step : Packet → ArpResult × Option ℕ × Arp → (Arp → Resolved) → Resolved
resolver_step p (arp_wait, mac, a) rest =
    let r = rest a in (set_destination_mac mac p ∷ r.0, r.1, r.2)
resolver_step p (arp_okay, mac, a) rest =
    let r = rest a in (r.0, set_destination_mac mac p ∷ r.1, r.2)
resolver_step p (arp_fail, mac, a) rest = rest a

-- The loop of `net_arp_resolver_pump`.
pub resolve_pending : ℕ → Host → List Packet → Arp → Resolved
resolve_pending now host [] a = ([], [], a)
resolve_pending now host (p ∷ rest) a =
    resolver_step p (net_arp_resolve now host (outgoing p) a) (resolve_pending now host rest)

pub net_arp_resolver_pump : ℕ → NetInterface → Net → Net
net_arp_resolver_pump now i n =
    let (waiting, ready, a) = resolve_pending now i.host n.arp_lookup_list n.arp_state in
    record n { arp_lookup_list = waiting; txqueue = n.txqueue ++ ready; arp_state = a }

-- `net_init`, but for the sinks that it adds.
pub net_init : ℕ → Net
net_init now = record {
  sinks = [];
  txqueue = [];
  arp_lookup_list = [];
  packet_rx_count = 0;
  packet_tx_count = 0;
  packet_discard_count = 0;
  packet_bad_cksum_count = 0;
  arp_state = net_arp_init now;
  transmitted = [];
}
