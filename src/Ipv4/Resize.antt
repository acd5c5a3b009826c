-- ===== src/Ipv4/Resize.antt =====
-- `packet_data_resize` of net/ipv4.c: a UDP packet that is made shorter or longer within its buffer.
use gogoboot.Base.{
  ℕ, zero, suc, ◌+◌, ◌-◌, ◌*◌, ◌%◌, ◌≤◌, ◌<◌, ◌≡◌, ◌⊎◌, refl, ap, ◌∙◌, true, false, not, inl, inr,
  Bool-cases, List, [], ◌∷◌, ◌++◌, arith, ltb, ◌==◌, All, All-append, length, length-append,
  length-take, take, drop, get_or, get_or-take, get_or-drop, length-drop,
}
use gogoboot.Checksum.{set_word}
use gogoboot.Checksum.Sum.{
  IsByte, length-set_word, All-set_word, get_or-set_word, get_or-set_word_behind,
}
use gogoboot.Checksum.Udp.{IsUdp}
use gogoboot.Checksum.Verify.{All-take, All-drop}
use gogoboot.Sink.{word_at, has_ipv4, ip_proto_udp, ipv4_protocol}
use gogoboot.Net.{udp_packet}
use gogoboot.Net.Send.{IsDatagram}
use gogoboot.Ipv4.{Buffered, buffer_length_alloc, resized, packet_data_resize}

word_at_set :
    (i v : ℕ) (l : List ℕ)
    → 2 * i + 2 ≤ length l
    → get_or (set_word i v l) (2 * i) 0 * 256 + get_or (set_word i v l) (2 * i + 1) 0 ≡ v
unfolding set_word
word_at_set i v [] h = absurd (omega (arith, h))
word_at_set i v (b ∷ []) h = absurd (omega (arith, h))
word_at_set zero v (b ∷ c ∷ l) h = omega arith
word_at_set (suc i) v (b ∷ c ∷ l) h =
    let p : 2 * suc i ≡ suc (suc (2 * i)) = omega arith in
    let q : suc (suc (2 * i)) + 1 ≡ suc (suc (2 * i + 1)) = omega arith in
    rw (p, q) (word_at_set i v l (omega (arith, h)))

-- The buffer with both lengths written, for `n` bytes of data.
abbrev relabelled : (n : ℕ) → List ℕ → List ℕ
relabelled n all = set_word 1 (n + 28) (set_word 12 (n + 8) all)

module _ (n : ℕ) (all : List ℕ) (long : n + 28 ≤ length all) where
  abbrev shown : List ℕ
  shown = take (n + 28) (relabelled n all)

  length-shown : length shown ≡ n + 28
  length-shown = omega (
    arith,
    length-take (n + 28) (relabelled n all),
    length-set_word 1 (n + 28) (set_word 12 (n + 8) all),
    length-set_word 12 (n + 8) all,
    long,
  )

  -- A byte that is not one of the lengths'.
  shown-same :
      (k : ℕ)
      → k < n + 28
      → (k < 2) ⊎ (4 ≤ k)
      → (k < 24) ⊎ (26 ≤ k)
      → get_or shown k 0 ≡ get_or all k 0
  shown-same k lt p q =
      get_or-take (n + 28) k (relabelled n all) 0 lt
      ∙ elim p [
        | inl low ↦ get_or-set_word 1 (n + 28) k (set_word 12 (n + 8) all) low
        | inr high ↦ get_or-set_word_behind 1 (n + 28) k (set_word 12 (n + 8) all) high
      ]
      ∙ elim q [
        | inl low ↦ get_or-set_word 12 (n + 8) k all low
        | inr high ↦ get_or-set_word_behind 12 (n + 8) k all high
      ]

  at_length : (k : ℕ) → 24 ≤ k → k < 26 → get_or shown k 0 ≡ get_or (set_word 12 (n + 8) all) k 0
  at_length k low high =
      get_or-take (n + 28) k (relabelled n all) 0 (omega (arith, high))
      ∙ get_or-set_word_behind 1 (n + 28) k (set_word 12 (n + 8) all) (omega (arith, low))

  shown_length : get_or shown 24 0 * 256 + get_or shown 25 0 ≡ n + 8
  shown_length = omega (
    arith,
    at_length 24 (omega arith) (omega arith),
    at_length 25 (omega arith) (omega arith),
    word_at_set 12 (n + 8) all (omega (arith, long)),
  )

  shown_total : get_or shown 2 0 * 256 + get_or shown 3 0 ≡ n + 28
  shown_total = omega (
    arith,
    get_or-take (n + 28) 2 (relabelled n all) 0 (omega arith),
    get_or-take (n + 28) 3 (relabelled n all) 0 (omega arith),
    word_at_set 1 (n + 28) (set_word 12 (n + 8) all)
        (omega (arith, length-set_word 12 (n + 8) all, long)),
  )

  shown-IsByte : n + 28 < 65536 → All IsByte all → All IsByte shown
  shown-IsByte small a = All-take (n + 28) (relabelled n all) (
      All-set_word 1 (n + 28) (set_word 12 (n + 8) all) small
        (All-set_word 12 (n + 8) all (omega (arith, small)) a))

  shown-IsUdp :
      n + 28 < 65536 → All IsByte all → get_or all 9 0 ≡ ip_proto_udp → IsUdp (udp_packet shown)
  shown-IsUdp small a proto =
      let bytes = shown-IsByte small a in
      let field : get_or (drop 20 shown) 4 0 * 256 + get_or (drop 20 shown) 5 0 ≡ n + 8 =
        omega (arith, get_or-drop 20 4 shown 0, get_or-drop 20 5 shown 0, shown_length) in
      record {
        addresses_byte = All-take 8 (drop 12 shown) (All-drop 12 shown bytes);
        udp_byte = All-drop 20 shown bytes;
        protocol_byte =
            omega
              (arith, shown-same 9 (omega arith) (inr (omega arith)) (inl (omega arith)), proto);
        length_ge = omega (arith, field);
        length_lt = omega (arith, field, small);
        length_le = omega (arith, field, length-drop 20 shown, length-shown);
      }

-- What a successful resize gives: the packet is a UDP packet still, of the new length, and no byte of it but
-- those of the lengths has changed.
pub record IsResized (n : ℕ) (b b' : Buffered) : Type 0 where
  pub datagram : IsDatagram b'.packet
  pub data_length : b'.packet.data_length ≡ n
  pub length_new : length b'.packet.payload ≡ n + 28
  pub ipv4_length : word_at 2 b'.packet ≡ n + 28
  pub udp_length : word_at 24 b'.packet ≡ n + 8
  pub room : buffer_length_alloc b' ≡ buffer_length_alloc b
  pub same_bytes :
      (k : ℕ)
      → k < n + 28
      → (k < 2) ⊎ (4 ≤ k)
      → (k < 24) ⊎ (26 ≤ k)
      → get_or b'.packet.payload k 0 ≡ get_or (b.packet.payload ++ b.spare) k 0

get_or-front : (xs ys : List ℕ) (k : ℕ) → k < length xs → get_or (xs ++ ys) k 0 ≡ get_or xs k 0
get_or-front [] ys k h = absurd (omega (arith, h))
get_or-front (x ∷ xs) ys zero h = refl
get_or-front (x ∷ xs) ys (suc k) h = get_or-front xs ys k (omega (arith, h))

resized-IsResized :
    (n : ℕ) (b : Buffered)
    → IsDatagram b.packet
    → All IsByte b.spare
    → n + 42 < 65536
    → n + 28 ≤ length (b.packet.payload ++ b.spare)
    → IsResized n b (resized n b)
unfolding resized
resized-IsResized n b g s small long =
    let all = b.packet.payload ++ b.spare in
    let bytes = All-append IsByte b.packet.payload b.spare g.every_byte s in
    let len : n % 65536 ≡ n = omega (arith, small) in
    let udp_len : (n + 8) % 65536 ≡ n + 8 = omega (arith, small) in
    let ipv4_len : (n + 8 + 20) % 65536 ≡ n + 28 = omega (arith, small) in
    let used : (n + 28 + 14) % 65536 - 14 ≡ n + 28 = omega (arith, small) in
    let proto : get_or all 9 0 ≡ ip_proto_udp =
      get_or-front b.packet.payload b.spare 9 (omega (arith, g.header_le)) ∙ g.protocol in
    rw (len, udp_len, ipv4_len, used)
      (record {
        datagram = record {
          is_ipv4 = g.is_ipv4;
          every_byte = shown-IsByte n all long (omega (arith, small)) bytes;
          header_le = omega (arith, length-shown n all long);
          protocol =
              shown-same n all long 9 (omega arith) (inr (omega arith)) (inl (omega arith)) ∙ proto;
          body = shown-IsUdp n all long (omega (arith, small)) bytes proto;
        };
        data_length = refl;
        length_new = length-shown n all long;
        ipv4_length = shown_total n all long;
        udp_length = shown_length n all long;
        room = omega (
          arith,
          length-shown n all long,
          length-drop (n + 28) (relabelled n all),
          length-set_word 1 (n + 28) (set_word 12 (n + 8) all),
          length-set_word 12 (n + 8) all,
          length-append b.packet.payload b.spare,
        );
        same_bytes = shown-same n all long;
      })

-- Data that has room in the buffer and does not make the packet longer than 65535 bytes can be given any
-- length: what results is a UDP packet with that length in its headers, fit to be sent, and no other byte of
-- it has changed. Without the room nothing changes.
pub packet_data_resize-IsResized :
    (n : ℕ) (b : Buffered)
    → IsDatagram b.packet
    → has_ipv4 b.packet.layer ≡ true
    → All IsByte b.spare
    → n + 42 < 65536
    → ((n + 42 ≤ buffer_length_alloc b)
        × ((packet_data_resize n b).0 ≡ true)
        × IsResized n b (packet_data_resize n b).1)
      ⊎ ((buffer_length_alloc b < n + 42) × (packet_data_resize n b ≡ (false, b)))
unfolding packet_data_resize
packet_data_resize-IsResized n b g ip s small =
    let test : not (has_ipv4 b.packet.layer) ≡ false = ap not ip in
    let proto : (ipv4_protocol b.packet == ip_proto_udp) ≡ true = ground (arith, g.protocol) in
    elim (Bool-cases (ltb (buffer_length_alloc b) (42 + n))) [
      | inl full ↦ rw (test, proto, full) (inr (ground (arith, full), refl))
      | inr fits ↦
          let room : n + 42 ≤ buffer_length_alloc b = ground (arith, fits) in
          rw (test, proto, fits)
            (inl (
              room,
              refl,
              resized-IsResized n b g s small
                  (omega (arith, room, length-append b.packet.payload b.spare)),
            ))
    ]
