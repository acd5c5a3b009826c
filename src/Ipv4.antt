-- ===== src/Ipv4.antt =====
-- The making of IPv4 packets in net/ipv4.c. What `packet_alloc` gets from the heap, and does not clear, is an
-- argument: the bytes of the Ethernet address and of the payload. The identification is taken from the
-- tick counter `now`.
pub mod Datagram
pub mod Resize
pub mod Address
mod Tests
use gogoboot.Base.{
  ℕ, zero, suc, ◌+◌, ◌-◌, ◌*◌, ◌/◌, ◌%◌, ◌^◌, Bool, true, false, not, ◌||◌, ◌&&◌, Option, none,
  some, List, [], ◌∷◌, ◌++◌, ltb, ◌==◌, if◌then◌else◌, length, take, drop, get_or,
}
use gogoboot.Arp.{Host}
use gogoboot.Timer.{word}
use gogoboot.Strtoul.{strtoul}
use gogoboot.Checksum.{set_word}
use gogoboot.Sink.{
  Packet, Layer, ipv4, udp, icmp, tcp, has_ipv4, ethertype_ipv4, ip_proto_udp, ip_proto_icmp,
  ip_proto_tcp, ipv4_protocol, Sink,
}

-- Memory as the heap hands it out.
pub record Stale : Type 0 where
  pub mac : ℕ
  pub bytes : List ℕ

-- 16 and 32 bits in network order, which is the processor's.
abbrev pub word_bytes : ℕ → List ℕ
word_bytes v = v / 256 % 256 ∷ v % 256 ∷ []

abbrev pub long_bytes : ℕ → List ℕ
long_bytes v = v / 2 ^ 24 % 256 ∷ v / 2 ^ 16 % 256 ∷ v / 256 % 256 ∷ v % 256 ∷ []

abbrev pub default_ttl : ℕ
default_ttl = 64

-- The header's fields in their order; the checksum is left as it was.
unfoldable pub ipv4_header : (now : ℕ) → Host → (dest_ipv4 data_size proto : ℕ) → List ℕ → List ℕ
ipv4_header now host dest_ipv4 data_size proto stale =
    0x45 ∷ 0 ∷ []
    ++ (word_bytes (20 + data_size)
        ++ (word_bytes now
            ++ (word_bytes 0x4000
                ++ (default_ttl ∷ proto ∷ get_or stale 10 0 ∷ get_or stale 11 0 ∷ []
                    ++ (long_bytes host.ipv4_address ++ long_bytes dest_ipv4)))))

unfoldable pub packet_create_ipv4 :
    (now : ℕ) → Host → (dest_ipv4 data_size proto : ℕ) → Stale → Packet
packet_create_ipv4 now host dest_ipv4 data_size proto stale = record {
  destination_mac = stale.mac;
  source_mac = host.macaddr;
  ethertype = ethertype_ipv4;
  payload =
      ipv4_header now host dest_ipv4 data_size proto stale.bytes
      ++ take data_size (drop 20 stale.bytes);
  layer = ipv4;
  data_length = 0;
  mac_valid = false;
  ipv4_nexthop = 0;
}

unfoldable pub packet_create_icmp : (now : ℕ) → Host → (dest_ipv4 data_size : ℕ) → Stale → Packet
packet_create_icmp now host dest_ipv4 data_size stale =
    record (packet_create_ipv4 now host dest_ipv4 (data_size + 8) ip_proto_icmp stale) {
      layer = icmp;
      data_length = data_size % 65536;
    }

-- The protocol that is written is UDP's; the TCP header, of 18 bytes as it is declared, is left as it was.
unfoldable pub packet_create_tcp : (now : ℕ) → Host → (dest_ipv4 data_size : ℕ) → Stale → Packet
packet_create_tcp now host dest_ipv4 data_size stale =
    record (packet_create_ipv4 now host dest_ipv4 (data_size + 18) ip_proto_udp stale) {
      layer = tcp;
      data_length = data_size % 65536;
    }

-- The UDP header's fields in their order; the checksum is left as it was.
unfoldable pub udp_header : (destination_port source_port data_size : ℕ) → List ℕ → List ℕ
udp_header destination_port source_port data_size payload =
    word_bytes source_port
    ++ (word_bytes destination_port
        ++ (word_bytes (8 + data_size) ++ (get_or payload 26 0 ∷ get_or payload 27 0 ∷ [])))

unfoldable pub packet_create_udp :
    (now : ℕ) → Host → (dest_ipv4 destination_port source_port data_size : ℕ) → Stale → Packet
packet_create_udp now host dest_ipv4 destination_port source_port data_size stale =
    let p = packet_create_ipv4 now host dest_ipv4 (data_size + 8) ip_proto_udp stale in
    record p {
      payload =
          take 20 p.payload
          ++ (udp_header destination_port source_port data_size p.payload ++ drop 28 p.payload);
      layer = udp;
      data_length = data_size % 65536;
    }

-- `none` is NULL.
unfoldable pub packet_create_for_sink :
    (now : ℕ) → Host → Sink → (data_size : ℕ) → Stale → Option Packet
packet_create_for_sink now host sink data_size stale =
    if sink.match_ipv4_protocol == ip_proto_udp
    then some (
        packet_create_udp now host sink.match_remote_ip sink.match_remote_port sink.match_local_port
          data_size stale)
    else if sink.match_ipv4_protocol == ip_proto_tcp
    then some (packet_create_tcp now host sink.match_remote_ip data_size stale)
    else none

-- A packet, and the bytes of its buffer behind those that it uses.
pub record Buffered : Type 0 where
  pub packet : Packet
  pub spare : List ℕ

-- `buffer_length_alloc`: the Ethernet header has 14 bytes.
abbrev pub buffer_length_alloc : Buffered → ℕ
buffer_length_alloc b = 14 + length b.packet.payload + length b.spare

-- `len` is a 16-bit number.
unfoldable pub resized : (new_data_length : ℕ) → Buffered → Buffered
resized new_data_length b =
    let len = new_data_length % 65536 in
    let udp_len = (len + 8) % 65536 in
    let ipv4_len = (udp_len + 20) % 65536 in
    let buffer = set_word 1 ipv4_len (set_word 12 udp_len (b.packet.payload ++ b.spare)) in
    record {
      packet = record b.packet {
        payload = take ((ipv4_len + 14) % 65536 - 14) buffer;
        data_length = len;
      };
      spare = drop ((ipv4_len + 14) % 65536 - 14) buffer;
    }

unfoldable pub packet_data_resize : (new_data_length : ℕ) → Buffered → Bool × Buffered
packet_data_resize new_data_length b =
    if not (has_ipv4 b.packet.layer)
    then (false, b)
    else if ipv4_protocol b.packet == ip_proto_udp
    then if ltb (buffer_length_alloc b) (42 + new_data_length)
      then (false, b)
      else (true, resized new_data_length b)
    else (false, b)

-- The rounds of `net_parse_ipv4` from number `i` on, with the rounds that are left; 0 for a text that is
-- no address. A dot is passed over with the number in front of it, and so is what ends the last one.
unfoldable pub parse_octets : (left i result : ℕ) → List ℕ → ℕ
parse_octets zero i result str = result
parse_octets (suc left) i result str =
    let (octet, errno, end) = strtoul 10 str in
    let rest = parse_octets left (i + 1) ((result * 256 + octet) % word) (drop 1 end) in
    if ltb 255 octet || (ltb i 3 && not (get_or end 0 0 == 46)) then 0 else rest

unfoldable pub net_parse_ipv4 : List ℕ → ℕ
net_parse_ipv4 input = parse_octets 4 0 0 input
