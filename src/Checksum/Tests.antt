-- ===== src/Checksum/Tests.antt =====
-- The theorems about net/ipcsum.c at a concrete header.
use gogoboot.Base.{
  ◌++◌, ◌/◌, ◌%◌, ◌<◌, take, drop, ℕ, ◌≡◌, refl, true, some, List, [], ◌∷◌, arith, All,
}
use gogoboot.Checksum.{net_compute_ipv4_checksum, net_verify_ipv4_checksum}
use gogoboot.Checksum.Sum.{word_sum, all_bytes, all_bytes_lem, IsByte}
use gogoboot.Checksum.Verify.{net_verify-net_compute_ipv4_checksum}

abbrev header : List ℕ
header =
    0x45 ∷ 0 ∷ 0 ∷ 0x73 ∷ 0 ∷ 0 ∷ 0x40 ∷ 0 ∷ 0x40 ∷ 0x11 ∷ 0xb8 ∷ 0x61 ∷ 0xc0 ∷ 0xa8 ∷ 0 ∷ 1 ∷ 0xc0
    ∷ 0xa8 ∷ 0 ∷ 0xc7 ∷ []

header-IsByte : All IsByte header
unfolding all_bytes
header-IsByte = all_bytes_lem header refl

net_verify-net_compute_ipv4_checksum_example :
    (cs : ℕ) × (filled : List ℕ) × (cs < 65536)
    × (filled ≡ take 10 header ++ cs / 256 ∷ cs % 256 ∷ drop 12 header)
    × (net_compute_ipv4_checksum header ≡ some filled)
    × (word_sum (take 20 filled) % 65535 ≡ 0)
    × (0 < word_sum (take 20 filled))
    × (net_verify_ipv4_checksum filled ≡ some true)
net_verify-net_compute_ipv4_checksum_example =
    net_verify-net_compute_ipv4_checksum header header-IsByte (omega arith)
