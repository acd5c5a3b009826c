-- ===== src/Checksum/Udp.antt =====
-- A UDP packet whose checksum net/ipcsum.c has computed passes its verification.
use gogoboot.Base.{
  ℕ, ◌+◌, ◌-◌, ◌%◌, ◌≤◌, ◌<◌, ◌≡◌, ◌≢◌, refl, ap, ◌∙◌, Bool, true, false, ◌||◌, some, List, arith,
  ◌==◌, if◌then◌else◌, length, length-take, take, All,
}
use gogoboot.Timer.{word}
use gogoboot.Checksum.{
  checksum_update, checksum_complete, set_word, UdpPacket, udp_length, udp_checksum,
  udp_checksum_pseudoheader, net_verify_udp_checksum, net_compute_udp_checksum,
}
use gogoboot.Checksum.Sum.{
  word_sum, IsByte, word_sum_le, checksum_update_lem, folded, checksum_complete_lem,
  word_sum-set_word, length-set_word, All-set_word, set_word-twice, get_or-set_word, get_or-stored,
}
use gogoboot.Checksum.Verify.{take-set_word, All-take}

-- Every byte is one, and the length in the UDP header is that of the header and the data at least, and no
-- more than there are bytes.
pub record IsUdp (p : UdpPacket) : Type 0 where
  pub addresses_byte : All IsByte p.addresses
  pub udp_byte : All IsByte p.udp
  pub protocol_byte : p.protocol < 256
  pub length_ge : 8 ≤ udp_length p
  pub length_lt : udp_length p < 65536
  pub length_le : udp_length p ≤ length p.udp

-- What the pseudo-header adds to the sum.
pseudo_sum : UdpPacket → ℕ
pseudo_sum p = word_sum (take 8 p.addresses) + p.protocol + udp_length p

udp_checksum_pseudoheader_lem :
    (p : UdpPacket)
    → IsUdp p
    → udp_checksum_pseudoheader p
      ≡ some (65535 - folded (pseudo_sum p + word_sum (take (udp_length p) p.udp)))
unfolding udp_checksum_pseudoheader pseudo_sum
udp_checksum_pseudoheader_lem p u =
    let n = udp_length p in
    let head = take 8 p.addresses in
    let body = take n p.udp in
    let head_byte : All IsByte head = All-take 8 p.addresses u.addresses_byte in
    let body_byte : All IsByte body = All-take n p.udp u.udp_byte in
    let head_le = word_sum_le head head_byte in
    let body_le = word_sum_le body body_byte in
    let head_sum : checksum_update 0 head ≡ word_sum head = omega (
      arith,
      checksum_update_lem 0 head head_byte (omega arith),
      head_le,
      length-take 8 p.addresses,
    ) in
    let start : ((checksum_update 0 head + p.protocol) % word + n) % word
        ≡ word_sum head + p.protocol + n =
      omega (arith, head_sum, head_le, length-take 8 p.addresses, u.protocol_byte, u.length_lt) in
    let total_lt : word_sum head + p.protocol + n + word_sum body < word = omega (
      arith,
      head_le,
      body_le,
      length-take 8 p.addresses,
      length-take n p.udp,
      u.protocol_byte,
      u.length_lt,
    ) in
    let total : checksum_update (((checksum_update 0 head + p.protocol) % word + n) % word) body
        ≡ word_sum head + p.protocol + n + word_sum body =
      omega (
        arith,
        checksum_update_lem (((checksum_update 0 head + p.protocol) % word + n) % word) body
            body_byte (omega arith),
        start,
        total_lt,
      ) in
    ap checksum_complete total
    ∙ checksum_complete_lem (word_sum head + p.protocol + n + word_sum body) total_lt

-- The packet with a checksum.
abbrev with_checksum : ℕ → UdpPacket → UdpPacket
with_checksum v p = record p { udp = set_word 3 v p.udp }

udp_length-with_checksum : (v : ℕ) (p : UdpPacket) → udp_length (with_checksum v p) ≡ udp_length p
udp_length-with_checksum v p =
    omega
      (arith, get_or-set_word 3 v 4 p.udp (omega arith), get_or-set_word 3 v 5 p.udp (omega arith))

IsUdp-with_checksum : (v : ℕ) (p : UdpPacket) → v < 65536 → IsUdp p → IsUdp (with_checksum v p)
IsUdp-with_checksum v p h u = record {
  addresses_byte = u.addresses_byte;
  udp_byte = All-set_word 3 v p.udp h u.udp_byte;
  protocol_byte = u.protocol_byte;
  length_ge = omega (arith, udp_length-with_checksum v p, u.length_ge);
  length_lt = omega (arith, udp_length-with_checksum v p, u.length_lt);
  length_le = omega (arith, udp_length-with_checksum v p, u.length_le, length-set_word 3 v p.udp);
}

-- The sum of a packet with a checksum.
udp_sum-with_checksum :
    (v : ℕ) (p : UdpPacket)
    → v < 65536
    → IsUdp p
    → pseudo_sum (with_checksum v p)
        + word_sum (take (udp_length (with_checksum v p)) (set_word 3 v p.udp))
      ≡ pseudo_sum p + word_sum (set_word 3 0 (take (udp_length p) p.udp)) + v
unfolding pseudo_sum
udp_sum-with_checksum v p h u =
    let n = udp_length p in
    let same = udp_length-with_checksum v p in
    let body : word_sum (take (udp_length (with_checksum v p)) (set_word 3 v p.udp))
        ≡ word_sum (set_word 3 v (take n p.udp)) =
      ap (λ k. word_sum (take k (set_word 3 v p.udp))) same
      ∙ ap word_sum (take-set_word 3 v n p.udp (omega (arith, u.length_ge))) in
    omega (
      arith,
      same,
      body,
      word_sum-set_word 3 v (take n p.udp)
          (omega (arith, u.length_ge, u.length_le, length-take n p.udp)) h,
    )

-- The same for UDP, where a checksum of 0 is stored as 0xffff.
abbrev stored_checksum : ℕ → ℕ
stored_checksum cs = if cs == 0 then 0xffff else cs

folded_stored : (sum : ℕ) → folded (sum + stored_checksum (65535 - folded sum)) ≡ 65535
folded_stored sum = ground arith

-- The sum of a packet without its checksum.
udp_rest : UdpPacket → ℕ
udp_rest p = pseudo_sum p + word_sum (set_word 3 0 (take (udp_length p) p.udp))

udp_checksum_pseudoheader-with_checksum :
    (v : ℕ) (p : UdpPacket)
    → v < 65536
    → IsUdp p
    → udp_checksum_pseudoheader (with_checksum v p) ≡ some (65535 - folded (udp_rest p + v))
unfolding udp_rest
udp_checksum_pseudoheader-with_checksum v p h u =
    udp_checksum_pseudoheader_lem (with_checksum v p) (IsUdp-with_checksum v p h u)
    ∙ ap (λ (x : ℕ). some (65535 - folded x)) (udp_sum-with_checksum v p h u)

or_true : (b : Bool) → b || true ≡ true
or_true true = refl
or_true false = refl

-- The packet with the checksum that is stored in it.
pub net_compute_udp_checksum-set_word :
    (p : UdpPacket)
    → IsUdp p
    → (cs : ℕ) × (cs < 65536)
      × (net_compute_udp_checksum p ≡ some (record p { udp = set_word 3 cs p.udp }))
      × (udp_checksum (record p { udp = set_word 3 cs p.udp }) ≢ 0)
      × (net_verify_udp_checksum (record p { udp = set_word 3 cs p.udp }) ≡ some true)
unfolding net_compute_udp_checksum net_verify_udp_checksum
net_compute_udp_checksum-set_word p u =
    let cs = 65535 - folded (udp_rest p) in
    let stored = stored_checksum cs in
    let stored_lt : stored < 65536 = ground arith in
    let none_added : udp_rest p + 0 ≡ udp_rest p = omega arith in
    let cleared : udp_checksum_pseudoheader (with_checksum 0 p) ≡ some cs =
      udp_checksum_pseudoheader-with_checksum 0 p (omega arith) u
      ∙ ap (λ (x : ℕ). some (65535 - folded x)) none_added in
    let verified : udp_checksum_pseudoheader (with_checksum stored p) ≡ some 0 =
      udp_checksum_pseudoheader-with_checksum stored p stored_lt u
      ∙ ap (λ (x : ℕ). some (65535 - x)) (folded_stored (udp_rest p)) in
    (
      stored,
      stored_lt,
      rw (net_compute_udp_checksum, cleared)
          (ap (λ (l : List ℕ). some (record p { udp = l })) (set_word-twice 3 stored 0 p.udp)),
      ground (arith, get_or-stored stored p.udp (omega (arith, u.length_ge, u.length_le))),
      rw (net_verify_udp_checksum, verified)
          (ap (λ (b : Bool). some b) (or_true (udp_checksum (with_checksum stored p) == 0))),
    )

-- The checksum of a UDP packet can be computed, it is not stored as 0, and the packet then passes the
-- verification.
net_verify-net_compute_udp_checksum :
    (p : UdpPacket)
    → IsUdp p
    → (filled : UdpPacket) × (net_compute_udp_checksum p ≡ some filled)
      × (udp_checksum filled ≢ 0)
      × (net_verify_udp_checksum filled ≡ some true)
net_verify-net_compute_udp_checksum p u =
    let (cs, _, computed, stored, verified) = net_compute_udp_checksum-set_word p u in
    (with_checksum cs p, computed, stored, verified)
