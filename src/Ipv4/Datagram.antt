-- ===== src/Ipv4/Datagram.antt =====
-- A UDP packet that net/ipv4.c makes, from its maker over net_tx to the host that receives it.
use gogoboot.Base.{
  ℕ, zero, suc, ◌+◌, ◌*◌, ◌/◌, ◌%◌, ◌^◌, ◌<◌, ◌≡◌, refl, true, List, [], ◌∷◌, ◌++◌, arith, All,
  length, take, drop, get_or,
}
use gogoboot.Arp.{Host}
use gogoboot.Timer.{word}
use gogoboot.Checksum.Sum.{IsByte}
use gogoboot.Checksum.Verify.{All-take, All-drop}
use gogoboot.Sink.{Packet, source_port, destination_port}
use gogoboot.Net.{Net}
use gogoboot.Net.Send.{IsDatagram}
use gogoboot.Ipv4.{
  Stale, word_bytes, ipv4_header, udp_header, packet_create_ipv4, packet_create_udp,
}

-- The maker fills in the data and the Ethernet address of the next hop.
abbrev pub with_data : List ℕ → Packet → Packet
with_data data_bytes p = record p { payload = take 28 p.payload ++ data_bytes; mac_valid = true }

abbrev pub made :
    (now : ℕ) → Host → (dest_ipv4 destination_port source_port : ℕ) → Stale → List ℕ → Packet
made now host dest dport sport stale l =
    with_data l (packet_create_udp now host dest dport sport (length l) stale)

-- The bytes of a number are bytes, in front of others.
word_IsByte : (v : ℕ) {P : Type 0} → P → IsByte (v / 256 % 256) × (IsByte (v % 256) × P)
word_IsByte v h = (omega arith, (omega arith, h))

pub long_IsByte :
    (v : ℕ) {P : Type 0}
    → P
    → IsByte (v / 2 ^ 24 % 256)
      × (IsByte (v / 2 ^ 16 % 256) × (IsByte (v / 256 % 256) × (IsByte (v % 256) × P)))
long_IsByte v h = (omega arith, (omega arith, (omega arith, (omega arith, h))))

pub get_or-IsByte : (l : List ℕ) (i : ℕ) → All IsByte l → IsByte (get_or l i 0)
get_or-IsByte [] i h = omega arith
get_or-IsByte (b ∷ l) zero h = h.0
get_or-IsByte (b ∷ l) (suc i) h = get_or-IsByte l i h.1

-- Two bytes are a 16-bit number again, and four a 32-bit number.
pub word_read : (v : ℕ) → v < 65536 → v / 256 % 256 * 256 + v % 256 ≡ v
word_read v h = omega (arith, h)

pub long_read :
    (v : ℕ)
    → v < word
    → (v / 2 ^ 24 % 256 * 256 + v / 2 ^ 16 % 256) * 65536 + (v / 256 % 256 * 256 + v % 256) ≡ v
long_read v h = omega (arith, h)

module _ (now : ℕ) (host : Host) (dest dport sport : ℕ) (stale : Stale) (l : List ℕ)
    (bytes : All IsByte l) (old : All IsByte stale.bytes) (short : length l + 28 < 65536) where
  udp_part : List ℕ
  udp_part =
      word_bytes sport
      ++ (word_bytes dport
          ++ (word_bytes (8 + length l)
              ++ (get_or (take (length l + 8) (drop 20 stale.bytes)) 6 0
                  ∷ get_or (take (length l + 8) (drop 20 stale.bytes)) 7 0
                  ∷ l)))

  udp_part-IsByte : All IsByte udp_part
  unfolding udp_part
  udp_part-IsByte =
      let rest = All-take (length l + 8) (drop 20 stale.bytes) (All-drop 20 stale.bytes old) in
      word_IsByte sport (
        word_IsByte dport
          (word_IsByte (8 + length l) (get_or-IsByte _ 6 rest, (get_or-IsByte _ 7 rest, bytes))))

  pub made-IsDatagram : IsDatagram (made now host dest dport sport stale l)
  unfolding packet_create_udp packet_create_ipv4 ipv4_header udp_header udp_part
  made-IsDatagram = record {
    is_ipv4 = refl;
    every_byte = word_IsByte 0x4500 (
        word_IsByte (20 + (length l + 8)) (
          word_IsByte now (
            word_IsByte 0x4000 (
              omega arith,
              (
                omega arith,
                (
                  get_or-IsByte stale.bytes 10 old,
                  (
                    get_or-IsByte stale.bytes 11 old,
                    long_IsByte host.ipv4_address (long_IsByte dest udp_part-IsByte),
                  ),
                ),
              ),
            ))));
    header_le = omega arith;
    protocol = refl;
    body = record {
      addresses_byte = long_IsByte host.ipv4_address (long_IsByte dest tt);
      udp_byte = udp_part-IsByte;
      protocol_byte = omega arith;
      length_ge = omega (arith, short);
      length_lt = omega (arith, short);
      length_le = omega (arith, short);
    };
  }
