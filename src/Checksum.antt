-- ===== src/Checksum.antt =====
-- The internet checksums of net/ipcsum.c. Headers and data are lists of bytes. The processor is
-- big-endian, so `htons` and `ntohs` are the identity and a word in memory has its high byte first.
pub mod Sum
pub mod Verify
pub mod Udp
mod Tests
use Prim.Native.Nat.{bit_and}
use gogoboot.Base.{
  ℕ, zero, suc, ◌+◌, ◌-◌, ◌*◌, ◌/◌, ◌%◌, ◌^◌, Bool, ◌||◌, Option, none, some, List, [], ◌∷◌, ◌==◌,
  if◌then◌else◌, take, get_or,
}
use gogoboot.Timer.{word}

-- The loop over the words; a byte that is left over is padded.
unfoldable pub checksum_update : ℕ → List ℕ → ℕ
checksum_update sum [] = sum
checksum_update sum (b ∷ []) = (sum + bit_and (b * 256) 0xff00) % word
checksum_update sum (b ∷ c ∷ addr) = checksum_update ((sum + (b * 256 + c)) % word) addr

-- `while (sum>>16)`; a sum of 32 bits leaves it within three tests.
unfoldable pub fold_carries : ℕ → ℕ → Option ℕ
fold_carries zero sum = none
fold_carries (suc fuel) sum =
    let rest = fold_carries fuel ((sum % 65536 + sum / 65536) % word) in
    if sum / 65536 == 0 then some sum else rest

abbrev pub complement : Option ℕ → Option ℕ
complement none = none
complement (some sum) = some ((word - 1 - sum) % 65536)

unfoldable pub checksum_complete : ℕ → Option ℕ
unfolding fold_carries
checksum_complete sum = complement (fold_carries 3 sum)

unfoldable pub checksum_compute : List ℕ → Option ℕ
checksum_compute addr = checksum_complete (checksum_update 0 addr)

-- A 16-bit field is stored: the word at an index counted in words.
unfoldable pub set_word : ℕ → ℕ → List ℕ → List ℕ
set_word i v [] = []
set_word i v (b ∷ []) = b ∷ []
set_word zero v (b ∷ c ∷ rest) = v / 256 ∷ v % 256 ∷ rest
set_word (suc i) v (b ∷ c ∷ rest) = b ∷ c ∷ set_word i v rest

-- The checksum is the sixth word of the IPv4 header, of 20 bytes.
pub net_compute_ipv4_checksum : List ℕ → Option (List ℕ)
net_compute_ipv4_checksum ipv4 =
    let cleared = set_word 5 0 ipv4 in
    elim (checksum_compute (take 20 cleared)) [
      | none ↦ none
      | some cs ↦ some (set_word 5 cs cleared)
    ]

unfoldable pub net_verify_ipv4_checksum : List ℕ → Option Bool
net_verify_ipv4_checksum ipv4 = elim (checksum_compute (take 20 ipv4)) [
  | none ↦ none
  | some cs ↦ some (cs == 0)
]

-- The length that the IPv4 header gives, less that header's. A packet has at least as many bytes.
abbrev pub icmp_length : ℕ → ℕ
icmp_length ip_length = (ip_length + (word - 20)) % word

-- The checksum is the second word of the ICMP header.
pub net_compute_icmp_checksum : ℕ → List ℕ → Option (List ℕ)
net_compute_icmp_checksum ip_length icmp =
    let cleared = set_word 1 0 icmp in
    elim (checksum_compute (take (icmp_length ip_length) cleared)) [
      | none ↦ none
      | some cs ↦ some (set_word 1 cs cleared)
    ]

pub net_verify_icmp_checksum : ℕ → List ℕ → Option Bool
net_verify_icmp_checksum ip_length icmp =
    elim (checksum_compute (take (icmp_length ip_length) icmp)) [
      | none ↦ none
      | some cs ↦ some (cs == 0)
    ]

-- A UDP packet: the two addresses of its IPv4 header, the protocol, and the UDP header with the data.
pub record UdpPacket : Type 0 where
  pub addresses : List ℕ
  pub protocol : ℕ
  pub udp : List ℕ

-- The third and the fourth word of the UDP header.
abbrev pub udp_length : UdpPacket → ℕ
udp_length p = get_or p.udp 4 0 * 256 + get_or p.udp 5 0

abbrev pub udp_checksum : UdpPacket → ℕ
udp_checksum p = get_or p.udp 6 0 * 256 + get_or p.udp 7 0

-- A length beyond the packet's end is summed to its end; the code reads the memory behind it.
unfoldable pub udp_checksum_pseudoheader : UdpPacket → Option ℕ
udp_checksum_pseudoheader p =
    let sum = (checksum_update 0 (take 8 p.addresses) + p.protocol) % word in
    checksum_complete (checksum_update ((sum + udp_length p) % word) (take (udp_length p) p.udp))

unfoldable pub net_verify_udp_checksum : UdpPacket → Option Bool
net_verify_udp_checksum p = elim (udp_checksum_pseudoheader p) [
  | none ↦ none
  | some cs ↦ some ((udp_checksum p == 0) || (cs == 0))
]

pub net_compute_udp_checksum : UdpPacket → Option UdpPacket
net_compute_udp_checksum p =
    let cleared = record p { udp = set_word 3 0 p.udp } in
    elim (udp_checksum_pseudoheader cleared) [
      | none ↦ none
      | some cs ↦
          some (record cleared { udp = set_word 3 (if cs == 0 then 0xffff else cs) cleared.udp })
    ]
