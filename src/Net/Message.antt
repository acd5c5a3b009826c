-- ===== src/Net/Message.antt =====
-- An ICMP message that net/net.c sends passes the checks of the host that receives it.
use gogoboot.Timer.{word}
use gogoboot.Base.{
  ℕ, ◌+◌, ◌-◌, ◌*◌, ◌%◌, ◌≤◌, ◌<◌, ◌≡◌, ◌≢◌, refl, ap, ◌∙◌, Bool, true, false, not, if-elim, none,
  some, List, ◌++◌, arith, ◌==◌, if◌then◌else◌, All, take, drop, get_or, length, length-drop,
}
use gogoboot.Checksum.{
  set_word, net_compute_ipv4_checksum, net_verify_ipv4_checksum, net_compute_icmp_checksum,
  net_verify_icmp_checksum, checksum_compute,
}
use gogoboot.Checksum.Sum.{IsByte, length-set_word, get_or-set_word, drop-set_word}
use gogoboot.Checksum.Verify.{
  net_compute_ipv4_checksum-set_word, net_compute_icmp_checksum-set_word, All-drop,
}
use gogoboot.Sink.{
  Packet, raw, icmp, ethertype_ipv4, ip_proto_icmp, ip_proto_udp, ip_proto_tcp, word_at, source_ip,
  has_ipv4,
}
use gogoboot.Net.{
  Net, NetInterface, receive_ipv4, receive, filled, compute_inner, compute_checksums,
  net_ipv4_route, transmit, tx_routed, net_tx,
}
use gogoboot.Net.Send.{
  take-replaced, drop-replaced, get_or-replaced, net_ipv4_route-same, has_no_address-from,
  tx_routed-valid,
}

-- An ICMP message with its headers filled in, but for the checksums; bytes may stand behind its length.
pub record IsMessage (p : Packet) : Type 0 where
  pub is_ipv4 : p.ethertype ≡ ethertype_ipv4
  pub every_byte : All IsByte p.payload
  pub protocol : get_or p.payload 9 0 ≡ ip_proto_icmp
  pub length_ge : 24 ≤ word_at 2 p
  pub length_le : word_at 2 p ≤ length p.payload

-- With a checksum in the IPv4 header and one in the ICMP header.
abbrev pub summed_message : (header_sum icmp_sum : ℕ) → List ℕ → List ℕ
summed_message header_sum icmp_sum l =
    take 20 (set_word 5 header_sum l) ++ set_word 1 icmp_sum (drop 20 l)

compute_inner-icmp :
    (l : List ℕ)
    → get_or l 9 0 ≡ ip_proto_icmp
    → compute_inner l
      ≡ take 20 l
        ++ filled
            (net_compute_icmp_checksum (get_or l 2 0 * 256 + get_or l 3 0) (drop 20 l))
            (drop 20 l)
unfolding compute_inner
compute_inner-icmp l h =
    let not_udp : get_or l 9 0 == ip_proto_udp ≡ false = ground (arith, h) in
    let test : get_or l 9 0 == ip_proto_icmp ≡ true = ground (arith, h) in rw (not_udp, test)

receive-icmp :
    (i : NetInterface) (q : Packet)
    → q.ethertype ≡ ethertype_ipv4
    → net_verify_ipv4_checksum q.payload ≡ some true
    → get_or q.payload 9 0 ≡ ip_proto_icmp
    → net_verify_icmp_checksum (word_at 2 q) (drop 20 q.payload) ≡ some true
    → receive i q
      ≡ some (record q { layer = icmp; data_length = (word_at 2 q + (65536 - 28)) % 65536 })
unfolding receive receive_ipv4
receive-icmp i q e header protocol body =
    let is_ipv4 : q.ethertype == ethertype_ipv4 ≡ true = ground (arith, e) in
    let not_tcp : get_or q.payload 9 0 == ip_proto_tcp ≡ false = ground (arith, protocol) in
    let not_udp : get_or q.payload 9 0 == ip_proto_udp ≡ false = ground (arith, protocol) in
    let is_icmp : get_or q.payload 9 0 == ip_proto_icmp ≡ true = ground (arith, protocol) in
    rw (is_ipv4, header, not_tcp, not_udp, is_icmp, body)

-- The message with both checksums.
compute_checksums-icmp :
    (p : Packet)
    → IsMessage p
    → word_at 2 p < 65536
    → (header_sum : ℕ) × (icmp_sum : ℕ) × (compute_checksums p
        ≡ record p { payload = summed_message header_sum icmp_sum p.payload })
      × (net_verify_ipv4_checksum (summed_message header_sum icmp_sum p.payload) ≡ some true)
      × (get_or (summed_message header_sum icmp_sum p.payload) 9 0 ≡ ip_proto_icmp)
      × (net_verify_icmp_checksum
            (word_at 2 p)
            (drop 20 (summed_message header_sum icmp_sum p.payload))
          ≡ some true)
unfolding compute_checksums net_verify_ipv4_checksum
compute_checksums-icmp p g w =
    let l = p.payload in
    let n = word_at 2 p in
    let (hs, _, computed, verified') =
      net_compute_ipv4_checksum-set_word l g.every_byte (omega (arith, g.length_ge, g.length_le)) in
    let (cs, _, computed_icmp, verified_icmp) =
      net_compute_icmp_checksum-set_word n (drop 20 l) (All-drop 20 l g.every_byte) g.length_ge w
        (omega (arith, g.length_le, length-drop 20 l)) in
    let header = set_word 5 hs l in
    let long : 20 ≤ length header =
      omega (arith, length-set_word 5 hs l, g.length_ge, g.length_le) in
    let body = set_word 1 cs (drop 20 l) in
    let bytes = take 20 header ++ body in
    let behind : drop 20 header ≡ drop 20 l = drop-set_word 5 hs 20 l (omega arith) in
    let len : get_or header 2 0 * 256 + get_or header 3 0 ≡ n =
      omega
        (arith, get_or-set_word 5 hs 2 l (omega arith), get_or-set_word 5 hs 3 l (omega arith)) in
    let is_ipv4 : p.ethertype == ethertype_ipv4 ≡ true = ground (arith, g.is_ipv4) in
    let inner : compute_inner header ≡ bytes =
      compute_inner-icmp header (get_or-set_word 5 hs 9 l (omega arith) ∙ g.protocol)
      ∙ ap
          (λ m.
            take 20 header
            ++ filled (net_compute_icmp_checksum m (drop 20 header)) (drop 20 header))
          len
      ∙ ap (λ b. take 20 header ++ filled (net_compute_icmp_checksum n b) b) behind
      ∙ ap (λ o. take 20 header ++ filled o (drop 20 l)) computed_icmp in
    (
      hs,
      cs,
      ap
            (λ b.
              if b
              then record p { payload = compute_inner (filled (net_compute_ipv4_checksum l) l) }
              else p)
            is_ipv4
          ∙ (ap (λ o. record p { payload = compute_inner (filled o l) }) computed
              ∙ ap (λ x. record p { payload = x }) inner),
      ap (λ h. elim (checksum_compute h) [ none ↦ none | some cs ↦ some (cs == 0) ])
            (take-replaced body 20 20 header (omega arith) long)
          ∙ verified',
      get_or-replaced body 9 20 header (omega arith) long
          ∙ get_or-set_word 5 hs 9 l (omega arith)
          ∙ g.protocol,
      ap (net_verify_icmp_checksum n) (drop-replaced body 20 header long) ∙ verified_icmp,
    )

net_ipv4_route-addresses :
    (i : NetInterface) (p : Packet)
    → ((net_ipv4_route i p).destination_mac ≡ p.destination_mac)
      × ((net_ipv4_route i p).source_mac ≡ p.source_mac)
unfolding net_ipv4_route
net_ipv4_route-addresses i p =
    if-elim
      (λ (q : Packet). (q.destination_mac ≡ p.destination_mac) × (q.source_mac ≡ p.source_mac))
      (not (has_ipv4 p.layer)) (λ _. (refl, refl)) (λ _. (refl, refl))

-- A message from a host that has an address, and with the Ethernet address of its next hop, is handed to
-- the driver or queued with its checksums; any host that receives it takes it as an ICMP message.
pub net_tx-receive_icmp :
    (attempt : Packet → Bool) (now : ℕ) (sender receiver : NetInterface) (p : Packet) (n : Net)
    → IsMessage p
    → word_at 2 p < 65536
    → source_ip p ≢ 0
    → p.mac_valid ≡ true
    → (header_sum : ℕ) × (icmp_sum : ℕ) × (q : Packet) × (net_tx attempt now sender p n
        ≡ transmit attempt q (record n { packet_tx_count = (n.packet_tx_count + 1) % word }))
      × (receive receiver (record q { layer = raw })
          ≡ some (record q { layer = icmp; data_length = (word_at 2 q + (65536 - 28)) % 65536 }))
      × (q.payload ≡ summed_message header_sum icmp_sum p.payload)
      × (q.destination_mac ≡ p.destination_mac)
      × (q.source_mac ≡ p.source_mac)
unfolding net_tx
net_tx-receive_icmp attempt now sender receiver p n g w from mac =
    let (hs, cs, computed, header, protocol, body) = compute_checksums-icmp p g w in
    let r = record p { payload = summed_message hs cs p.payload } in
    let q = net_ipv4_route sender r in
    let (ethertype', payload', mac') = net_ipv4_route-same sender r in
    let long : 20 ≤ length (set_word 5 hs p.payload) =
      omega (arith, length-set_word 5 hs p.payload, g.length_ge, g.length_le) in
    let body' = set_word 1 cs (drop 20 p.payload) in
    let same = λ (k : ℕ) (h : k < 10).
      ap (λ l. get_or l k 0) payload'
      ∙ get_or-replaced body' k 20 (set_word 5 hs p.payload) (omega (arith, h)) long
      ∙ get_or-set_word 5 hs k p.payload (omega (arith, h)) in
    let len : word_at 2 q ≡ word_at 2 p =
      omega (arith, same 2 (omega arith), same 3 (omega arith)) in
    let (to, from') = net_ipv4_route-addresses sender r in
    (
      hs,
      cs,
      q,
      ap
            (λ b.
              if b
              then n
              else tx_routed attempt now sender (net_ipv4_route sender (compute_checksums p)) n)
            (has_no_address-from p from)
          ∙ (ap (λ x. tx_routed attempt now sender (net_ipv4_route sender x) n) computed
              ∙ tx_routed-valid attempt now sender q n (mac' ∙ mac)),
      receive-icmp receiver (record q { layer = raw }) (ethertype' ∙ g.is_ipv4)
          (ap net_verify_ipv4_checksum payload' ∙ header)
          (ap (λ l. get_or l 9 0) payload' ∙ protocol)
          (ap (λ m. net_verify_icmp_checksum m (drop 20 q.payload)) len
            ∙ ap (λ l. net_verify_icmp_checksum (word_at 2 p) (drop 20 l)) payload'
            ∙ body),
      payload',
      to,
      from',
    )
