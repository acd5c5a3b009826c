-- ===== src/Net/Send.antt =====
-- The transmit pipe of net/net.c against its receive pipe: a UDP packet that is sent passes the checks of
-- the host that receives it.
use gogoboot.Timer.{word}
use gogoboot.Base.{
  ℕ, zero, suc, ◌+◌, ◌%◌, ◌≤◌, ◌<◌, ◌≡◌, ◌≢◌, refl, sym, ap, ◌∙◌, Bool, true, false, not, ◌&&◌,
  if-elim, none, some, List, [], ◌∷◌, ◌++◌, arith, ◌==◌, if◌then◌else◌, All, take, drop, get_or,
  length,
}
use Prim.Native.Nat.{bit_and}
use gogoboot.Checksum.{
  set_word, UdpPacket, net_compute_ipv4_checksum, net_verify_ipv4_checksum,
  net_compute_udp_checksum, net_verify_udp_checksum, checksum_compute,
}
use gogoboot.Checksum.Sum.{IsByte, length-set_word, get_or-set_word, drop-set_word}
use gogoboot.Checksum.Verify.{net_compute_ipv4_checksum-set_word}
use gogoboot.Checksum.Udp.{IsUdp, net_compute_udp_checksum-set_word}
use gogoboot.Sink.{Packet, udp, ethertype_ipv4, ip_proto_udp, has_ipv4, source_ip, destination_ip}
use gogoboot.Net.{
  Net, NetInterface, udp_packet, filled, filled_udp, compute_inner, compute_checksums,
  net_ipv4_route, has_no_address, transmit, tx_routed,
}

-- A list with other bytes behind the first `n`.
module _ (x : List ℕ) where
  pub take-replaced :
      (k n : ℕ) (l : List ℕ) → k ≤ n → n ≤ length l → take k (take n l ++ x) ≡ take k l
  take-replaced zero n l h w = refl
  take-replaced (suc k) zero l h w = absurd (omega (arith, h))
  take-replaced (suc k) (suc n) [] h w = absurd (omega (arith, w))
  take-replaced (suc k) (suc n) (b ∷ l) h w =
      ap (λ r. b ∷ r) (take-replaced k n l (omega (arith, h)) (omega (arith, w)))

  pub drop-replaced : (n : ℕ) (l : List ℕ) → n ≤ length l → drop n (take n l ++ x) ≡ x
  drop-replaced zero l w = refl
  drop-replaced (suc n) [] w = absurd (omega (arith, w))
  drop-replaced (suc n) (b ∷ l) w = drop-replaced n l (omega (arith, w))

  pub get_or-replaced :
      (i n : ℕ) (l : List ℕ) → i < n → n ≤ length l → get_or (take n l ++ x) i 0 ≡ get_or l i 0
  get_or-replaced i zero l h w = absurd (omega (arith, h))
  get_or-replaced i (suc n) [] h w = absurd (omega (arith, w))
  get_or-replaced zero (suc n) (b ∷ l) h w = refl
  get_or-replaced (suc i) (suc n) (b ∷ l) h w =
      get_or-replaced i n l (omega (arith, h)) (omega (arith, w))

  take-drop-replaced :
      (k i n : ℕ) (l : List ℕ)
      → i + k ≤ n
      → n ≤ length l
      → take k (drop i (take n l ++ x)) ≡ take k (drop i l)
  take-drop-replaced k zero n l h w = take-replaced k n l (omega (arith, h)) w
  take-drop-replaced k (suc i) zero l h w = absurd (omega (arith, h))
  take-drop-replaced k (suc i) (suc n) [] h w = absurd (omega (arith, w))
  take-drop-replaced k (suc i) (suc n) (b ∷ l) h w =
      take-drop-replaced k i n l (omega (arith, h)) (omega (arith, w))

-- A UDP packet with its headers filled in, but for the checksums.
pub record IsDatagram (p : Packet) : Type 0 where
  pub is_ipv4 : p.ethertype ≡ ethertype_ipv4
  pub every_byte : All IsByte p.payload
  pub header_le : 20 ≤ length p.payload
  pub protocol : get_or p.payload 9 0 ≡ ip_proto_udp
  pub body : IsUdp (udp_packet p.payload)

compute_inner-udp :
    (l : List ℕ)
    → get_or l 9 0 ≡ ip_proto_udp
    → compute_inner l ≡ filled_udp (net_compute_udp_checksum (udp_packet l)) l
unfolding compute_inner
compute_inner-udp l h =
    let test : get_or l 9 0 == ip_proto_udp ≡ true = ground (arith, h) in rw test

abbrev packet_of : List ℕ → ℕ → List ℕ → UdpPacket
packet_of addresses protocol body = record {
  addresses = addresses;
  protocol = protocol;
  udp = body;
}

udp_packet-parts :
    (l : List ℕ) {addresses body : List ℕ} {protocol : ℕ}
    → take 8 (drop 12 l) ≡ addresses
    → get_or l 9 0 ≡ protocol
    → drop 20 l ≡ body
    → udp_packet l ≡ packet_of addresses protocol body
udp_packet-parts l {addresses} {body} {protocol} a p b =
    ap (λ x. packet_of x (get_or l 9 0) (drop 20 l)) a
    ∙ (ap (λ x. packet_of addresses x (drop 20 l)) p ∙ ap (λ x. packet_of addresses protocol x) b)

-- A packet with a checksum in its IPv4 header and one in its UDP header.
abbrev pub summed : (header_sum udp_sum : ℕ) → List ℕ → List ℕ
summed header_sum udp_sum l = take 20 (set_word 5 header_sum l) ++ set_word 3 udp_sum (drop 20 l)

-- The packet with both checksums.
pub compute_checksums-udp :
    (p : Packet)
    → IsDatagram p
    → (header_sum : ℕ) × (udp_sum : ℕ) × (compute_checksums p
        ≡ record p { payload = summed header_sum udp_sum p.payload })
      × (net_verify_ipv4_checksum (summed header_sum udp_sum p.payload) ≡ some true)
      × (get_or (summed header_sum udp_sum p.payload) 9 0 ≡ ip_proto_udp)
      × (net_verify_udp_checksum (udp_packet (summed header_sum udp_sum p.payload)) ≡ some true)
unfolding compute_checksums compute_inner net_verify_ipv4_checksum
compute_checksums-udp p g =
    let l = p.payload in
    let (header_sum, _, computed, verified') =
      net_compute_ipv4_checksum-set_word l g.every_byte g.header_le in
    let (udp_sum, _, computed_udp, _, verified_udp) =
      net_compute_udp_checksum-set_word (udp_packet l) g.body in
    let header = set_word 5 header_sum l in
    let long : 20 ≤ length header = omega (arith, length-set_word 5 header_sum l, g.header_le) in
    let body = set_word 3 udp_sum (drop 20 l) in
    let bytes = take 20 header ++ body in
    let same : udp_packet header ≡ udp_packet l =
      udp_packet-parts header (ap (λ x. take 8 x) (drop-set_word 5 header_sum 12 l (omega arith)))
        (get_or-set_word 5 header_sum 9 l (omega arith))
        (drop-set_word 5 header_sum 20 l (omega arith)) in
    let protocol : get_or bytes 9 0 ≡ get_or l 9 0 =
      get_or-replaced body 9 20 header (omega arith) long
      ∙ get_or-set_word 5 header_sum 9 l (omega arith) in
    let packet : udp_packet bytes ≡ record (udp_packet l) { udp = body } =
      udp_packet-parts bytes
        (take-drop-replaced body 8 12 20 header (omega arith) long
          ∙ ap (λ x. take 8 x) (drop-set_word 5 header_sum 12 l (omega arith)))
        protocol (drop-replaced body 20 header long) in
    let is_ipv4 : p.ethertype == ethertype_ipv4 ≡ true = ground (arith, g.is_ipv4) in
    let inner : compute_inner header ≡ bytes =
      compute_inner-udp header (get_or-set_word 5 header_sum 9 l (omega arith) ∙ g.protocol)
      ∙ (ap (λ u. filled_udp (net_compute_udp_checksum u) header) same
          ∙ ap (λ o. filled_udp o header) computed_udp) in
    (
      header_sum,
      udp_sum,
      ap
            (λ b.
              if b
              then record p { payload = compute_inner (filled (net_compute_ipv4_checksum l) l) }
              else p)
            is_ipv4
          ∙ (ap (λ o. record p { payload = compute_inner (filled o l) }) computed
              ∙ ap (λ x. record p { payload = x }) inner),
      ap (λ h. elim (checksum_compute h) [ none ↦ none | some cs ↦ some (cs == 0) ])
            (take-replaced body 20 20 header (omega arith) long)
          ∙ verified',
      protocol ∙ g.protocol,
      ap net_verify_udp_checksum packet ∙ verified_udp,
    )

pub net_ipv4_route-same :
    (i : NetInterface) (p : Packet)
    → ((net_ipv4_route i p).ethertype ≡ p.ethertype)
      × ((net_ipv4_route i p).payload ≡ p.payload)
      × ((net_ipv4_route i p).mac_valid ≡ p.mac_valid)
unfolding net_ipv4_route
net_ipv4_route-same i p =
    if-elim
      (λ (q : Packet).
        (q.ethertype ≡ p.ethertype) × (q.payload ≡ p.payload) × (q.mac_valid ≡ p.mac_valid))
      (not (has_ipv4 p.layer)) (λ _. (refl, refl, refl)) (λ _. (refl, refl, refl))

-- The next hop is the destination within the own network, and the gateway otherwise.
abbrev pub next_hop : NetInterface → Packet → ℕ
next_hop i p =
    if has_ipv4 p.layer
    then (if bit_and (destination_ip p) i.host.subnet_mask
          == bit_and i.host.ipv4_address i.host.subnet_mask
        then destination_ip p
        else i.gateway)
    else p.ipv4_nexthop

and_false : (b : Bool) → b && false ≡ false
and_false true = refl
and_false false = refl

pub has_no_address-from : (p : Packet) → source_ip p ≢ 0 → has_no_address p ≡ false
unfolding has_no_address
has_no_address-from p from =
    let test : source_ip p == 0 ≡ false = ground (arith, from) in
    rw test (and_false (has_ipv4 p.layer))

pub tx_routed-valid :
    (attempt : Packet → Bool) (now : ℕ) (i : NetInterface) (q : Packet) (n : Net)
    → q.mac_valid ≡ true
    → tx_routed attempt now i q n
      ≡ transmit attempt q (record n { packet_tx_count = (n.packet_tx_count + 1) % word })
unfolding tx_routed
tx_routed-valid attempt now i q n v =
    let n' = record n { packet_tx_count = (n.packet_tx_count + 1) % word } in
    if-elim (λ (m : Net). m ≡ transmit attempt q n') q.mac_valid (λ _. refl)
      (λ h. let no : false ≡ true = sym h ∙ v in absurd (cc no))
