-- ===== src/Ipv4/Tests.antt =====
-- The theorems about net/ipv4.c at concrete packets and addresses.
use gogoboot.Base.{
  ℕ, ◌+◌, ◌*◌, ◌≤◌, ◌<◌, ◌≡◌, ◌⊎◌, refl, true, false, List, [], ◌∷◌, ◌++◌, arith, take, drop,
}
use gogoboot.Strtoul.{ndigit}
use gogoboot.Strtoul.Decimal.{digits_value}
use gogoboot.Checksum.Sum.{all_bytes, all_bytes_lem}
use gogoboot.Sink.{udp, ethertype_ipv4}
use gogoboot.Net.{NetInterface}
use gogoboot.Net.Send.{IsDatagram}
use gogoboot.Ipv4.{Stale, Buffered, buffer_length_alloc, packet_data_resize, net_parse_ipv4}
use gogoboot.Ipv4.Resize.{IsResized, packet_data_resize-IsResized}
use gogoboot.Ipv4.Address.{octet, net_parse_ipv4-dotted}

abbrev client : NetInterface
client = record {
  host = record { macaddr = 0x020304050607; ipv4_address = 0xc0a80064; subnet_mask = 0xffffff00 };
  gateway = 0xc0a80001;
  null_byte = 0;
}

-- Memory that held something else before.
abbrev memory : Stale
memory = record { mac = 0x0a0b0c0d0e0f; bytes = 7 ∷ 255 ∷ 3 ∷ [] }

-- A UDP packet with two bytes of data, and four more bytes in its buffer.
abbrev bytes : List ℕ
bytes =
    69 ∷ 0 ∷ 0 ∷ 30 ∷ 0 ∷ 1 ∷ 64 ∷ 0 ∷ 64 ∷ 17 ∷ 0 ∷ 0 ∷ 192 ∷ 168 ∷ 0 ∷ 1 ∷ 192 ∷ 168 ∷ 0 ∷ 100 ∷ 0
    ∷ 69 ∷ 32 ∷ 16 ∷ 0 ∷ 10 ∷ 0 ∷ 0 ∷ 0 ∷ 5 ∷ []

abbrev buffered : Buffered
buffered = record {
  packet = record {
    destination_mac = 0x0a0b0c0d0e0f;
    source_mac = 0x020304050607;
    ethertype = ethertype_ipv4;
    payload = bytes;
    layer = udp;
    data_length = 2;
    mac_valid = false;
    ipv4_nexthop = 0;
  };
  spare = 1 ∷ 2 ∷ 3 ∷ 4 ∷ [];
}

buffered-IsDatagram : IsDatagram buffered.packet
unfolding all_bytes
buffered-IsDatagram = record {
  is_ipv4 = refl;
  every_byte = all_bytes_lem bytes refl;
  header_le = omega arith;
  protocol = refl;
  body = record {
    addresses_byte = all_bytes_lem (take 8 (drop 12 bytes)) refl;
    udp_byte = all_bytes_lem (drop 20 bytes) refl;
    protocol_byte = omega arith;
    length_ge = omega arith;
    length_lt = omega arith;
    length_le = omega arith;
  };
}

packet_data_resize-IsResized_example :
    ((5 + 42 ≤ buffer_length_alloc buffered)
      × ((packet_data_resize 5 buffered).0 ≡ true)
      × IsResized 5 buffered (packet_data_resize 5 buffered).1)
    ⊎ ((buffer_length_alloc buffered < 5 + 42)
        × (packet_data_resize 5 buffered ≡ (false, buffered)))
unfolding all_bytes
packet_data_resize-IsResized_example =
    packet_data_resize-IsResized 5 buffered buffered-IsDatagram refl
      (all_bytes_lem buffered.spare refl) (omega arith)

-- 192.168.0.1 with a space behind it.
net_parse_ipv4-dotted_example :
    net_parse_ipv4 (
      (49 ∷ 57 ∷ 50 ∷ [])
      ++ 46 ∷ ((49 ∷ 54 ∷ 56 ∷ []) ++ 46 ∷ ((48 ∷ []) ++ 46 ∷ ((49 ∷ []) ++ 32 ∷ []))))
    ≡ ((192 * 256 + 168) * 256 + 0) * 256 + 1
unfolding digits_value ndigit
net_parse_ipv4-dotted_example =
    net_parse_ipv4-dotted 192 168 0 1 32 (49 ∷ 57 ∷ 50 ∷ []) (49 ∷ 54 ∷ 56 ∷ []) (48 ∷ []) (49 ∷ [])
      []
      (octet 49 (57 ∷ 50 ∷ []) (omega arith, omega arith)
        ((omega arith, omega arith), ((omega arith, omega arith), tt)) refl (omega arith))
      (octet 49 (54 ∷ 56 ∷ []) (omega arith, omega arith)
        ((omega arith, omega arith), ((omega arith, omega arith), tt)) refl (omega arith))
      (octet 48 [] (omega arith, omega arith) tt refl (omega arith))
      (octet 49 [] (omega arith, omega arith) tt refl (omega arith)) refl
