-- ===== src/Sink/Match.antt =====
-- Which packets a sink of net/net.c takes: those that agree with it in each field that it gives.
use gogoboot.Base.{
  ℕ, suc, ◌+◌, List, [], ◌∷◌, if◌then◌else◌, ◌≡◌, ◌≢◌, ◌⊎◌, refl, sym, ap, ◌∙◌, Bool, true, false,
  not, ◌&&◌, ◌||◌, inl, inr, Bool-cases, arith, ◌==◌,
}
use gogoboot.Sink.{
  Packet, Sink, has_ipv4, has_ports, ipv4_protocol, source_ip, destination_ip, source_port,
  destination_port, sink_matches, score_sink, one_if,
}

-- A field that is 0 is not given; another is compared if the packet has such a header.
abbrev pub Agrees : (field : ℕ) → (has_header : Bool) → (value : ℕ) → Type 0
Agrees field has_header value = (field ≡ 0) ⊎ ((has_header ≡ true) × (field ≡ value))

pub record IsMatch (interface_ip : ℕ) (p : Packet) (s : Sink) : Type 0 where
  pub ethertype_agrees : Agrees s.match_ethertype true p.ethertype
  pub protocol_agrees : Agrees s.match_ipv4_protocol (has_ipv4 p.layer) (ipv4_protocol p)
  pub local_ip_agrees : Agrees s.match_local_ip (has_ipv4 p.layer) (destination_ip p)
  pub own_address :
      (s.match_interface_local_ip ≡ false)
      ⊎ ((has_ipv4 p.layer ≡ true) × (interface_ip ≢ 0) × (interface_ip ≡ destination_ip p))
  pub remote_ip_agrees : Agrees s.match_remote_ip (has_ipv4 p.layer) (source_ip p)
  pub local_port_agrees : Agrees s.match_local_port (has_ports p.layer) (destination_port p)
  pub remote_port_agrees : Agrees s.match_remote_port (has_ports p.layer) (source_port p)

and_split : (x y : Bool) → x && y ≡ true → (x ≡ true) × (y ≡ true)
and_split true y h = (refl, h)
and_split false y h = absurd (cc h)

and_join : (x y : Bool) → x ≡ true → y ≡ true → x && y ≡ true
and_join true y p q = q
and_join false y p q = p

or_right : (x y : Bool) → y ≡ true → x || y ≡ true
or_right true y q = refl
or_right false y q = q

abbrev agrees : ℕ → Bool → ℕ → Bool
agrees field has_header value = (field == 0) || (has_header && (field == value))

agrees-Agrees : (f : ℕ) (b : Bool) (v : ℕ) → agrees f b v ≡ true → Agrees f b v
agrees-Agrees f b v h = elim (Bool-cases (f == 0)) [
  | inl z ↦ inl (ground (arith, z))
  | inr some' ↦
      let both : b && (f == v) ≡ true = ap (λ x. x || (b && (f == v))) (sym some') ∙ h in
      let (p, q) = and_split b (f == v) both in inr (p, ground (arith, q))
]

Agrees-agrees : (f : ℕ) (b : Bool) (v : ℕ) → Agrees f b v → agrees f b v ≡ true
Agrees-agrees f b v (inl z) =
    let e : f == 0 ≡ true = ground (arith, z) in ap (λ x. x || (b && (f == v))) e
Agrees-agrees f b v (inr (p, q)) =
    or_right (f == 0) (b && (f == v)) (and_join b (f == v) p (ground (arith, q)))

abbrev own : Bool → Bool → ℕ → ℕ → Bool
own m b ip v = not m || (b && (not (ip == 0) && (ip == v)))

own-split :
    (m b : Bool) (ip v : ℕ) → own m b ip v ≡ true → (m ≡ false) ⊎ ((b ≡ true) × (ip ≢ 0) × (ip ≡ v))
own-split false b ip v h = inl refl
own-split true b ip v h =
    let (p, r) = and_split b (not (ip == 0) && (ip == v)) h in
    let (q, e) = and_split (not (ip == 0)) (ip == v) r in
    inr (p, ground (arith, q), ground (arith, e))

own-join :
    (m b : Bool) (ip v : ℕ) → (m ≡ false) ⊎ ((b ≡ true) × (ip ≢ 0) × (ip ≡ v)) → own m b ip v ≡ true
own-join m b ip v (inl e) = ap (λ x. not x || (b && (not (ip == 0) && (ip == v)))) e
own-join m b ip v (inr (p, q, e)) = or_right (not m) (b && (not (ip == 0) && (ip == v))) (
    and_join b (not (ip == 0) && (ip == v)) p
      (and_join (not (ip == 0)) (ip == v) (ground (arith, q)) (ground (arith, e))))

module _ (ip : ℕ) (p : Packet) (s : Sink) where
  abbrev i4 : Bool
  i4 = has_ipv4 p.layer

  abbrev ports : Bool
  ports = has_ports p.layer

  abbrev test_1 : Bool
  test_1 = agrees s.match_ethertype true p.ethertype

  abbrev test_2 : Bool
  test_2 = agrees s.match_ipv4_protocol i4 (ipv4_protocol p)

  abbrev test_3 : Bool
  test_3 = agrees s.match_local_ip i4 (destination_ip p)

  abbrev test_4 : Bool
  test_4 = own s.match_interface_local_ip i4 ip (destination_ip p)

  abbrev test_5 : Bool
  test_5 = agrees s.match_remote_ip i4 (source_ip p)

  abbrev test_6 : Bool
  test_6 = agrees s.match_local_port ports (destination_port p)

  abbrev test_7 : Bool
  test_7 = agrees s.match_remote_port ports (source_port p)

  abbrev from_3 : Bool
  from_3 = test_3 && (test_4 && (test_5 && (test_6 && test_7)))

  pub sink_matches-IsMatch : sink_matches ip p s ≡ true → IsMatch ip p s
  unfolding sink_matches
  sink_matches-IsMatch h =
      let (t1, r1) = and_split test_1 (test_2 && from_3) h in
      let (t2, r2) = and_split test_2 from_3 r1 in
      let (t3, r3) = and_split test_3 (test_4 && (test_5 && (test_6 && test_7))) r2 in
      let (t4, r4) = and_split test_4 (test_5 && (test_6 && test_7)) r3 in
      let (t5, r5) = and_split test_5 (test_6 && test_7) r4 in
      let (t6, t7) = and_split test_6 test_7 r5 in
      record {
        ethertype_agrees = agrees-Agrees s.match_ethertype true p.ethertype t1;
        protocol_agrees = agrees-Agrees s.match_ipv4_protocol i4 (ipv4_protocol p) t2;
        local_ip_agrees = agrees-Agrees s.match_local_ip i4 (destination_ip p) t3;
        own_address = own-split s.match_interface_local_ip i4 ip (destination_ip p) t4;
        remote_ip_agrees = agrees-Agrees s.match_remote_ip i4 (source_ip p) t5;
        local_port_agrees = agrees-Agrees s.match_local_port ports (destination_port p) t6;
        remote_port_agrees = agrees-Agrees s.match_remote_port ports (source_port p) t7;
      }

  pub IsMatch-sink_matches : IsMatch ip p s → sink_matches ip p s ≡ true
  unfolding sink_matches
  IsMatch-sink_matches m =
      let t1 = Agrees-agrees s.match_ethertype true p.ethertype m.ethertype_agrees in
      let t2 = Agrees-agrees s.match_ipv4_protocol i4 (ipv4_protocol p) m.protocol_agrees in
      let t3 = Agrees-agrees s.match_local_ip i4 (destination_ip p) m.local_ip_agrees in
      let t4 = own-join s.match_interface_local_ip i4 ip (destination_ip p) m.own_address in
      let t5 = Agrees-agrees s.match_remote_ip i4 (source_ip p) m.remote_ip_agrees in
      let t6 = Agrees-agrees s.match_local_port ports (destination_port p) m.local_port_agrees in
      let t7 = Agrees-agrees s.match_remote_port ports (source_port p) m.remote_port_agrees in
      and_join test_1 (test_2 && from_3) t1 (
        and_join test_2 from_3 t2 (
          and_join test_3 (test_4 && (test_5 && (test_6 && test_7))) t3 (
            and_join test_4 (test_5 && (test_6 && test_7)) t4
              (and_join test_5 (test_6 && test_7) t5 (and_join test_6 test_7 t6 t7)))))

-- How many of the fields are given.
abbrev pub given : List ℕ → ℕ
given [] = 0
given (f ∷ l) = if f == 0 then given l else suc (given l)

-- The fields of a sink; the interface's address counts as the local one.
abbrev pub fields : Sink → List ℕ
fields s =
    (if s.match_interface_local_ip then 1 else s.match_local_ip)
    ∷ s.match_remote_ip
    ∷ s.match_local_port
    ∷ s.match_remote_port
    ∷ s.match_ethertype
    ∷ s.match_ipv4_protocol
    ∷ []

one_if-given : (f : ℕ) (l : List ℕ) → one_if (not (f == 0)) + given l ≡ given (f ∷ l)
one_if-given f l = elim (Bool-cases (f == 0)) [
  | inl z ↦ rw z (omega arith)
  | inr k ↦ rw k (omega arith)
]

one_if-local :
    (f : ℕ) (b : Bool) (l : List ℕ)
    → one_if (not (f == 0) || b) + given l ≡ given ((if b then 1 else f) ∷ l)
one_if-local f b l = elim (Bool-cases b) [
  | inr far ↦ elim (Bool-cases (f == 0)) [
    | inl z ↦ rw (far, z) (omega arith)
    | inr k ↦ rw (far, k) (omega arith)
  ]
  | inl near ↦ elim (Bool-cases (f == 0)) [
    | inl z ↦ rw (near, z) (omega arith)
    | inr k ↦ rw (near, k) (omega arith)
  ]
]

-- The score of a sink is the number of fields that it gives.
pub score_sink-given : (s : Sink) → score_sink s ≡ given (fields s)
unfolding score_sink
score_sink-given s = omega (
  arith,
  one_if-local s.match_local_ip s.match_interface_local_ip (
      s.match_remote_ip ∷ s.match_local_port ∷ s.match_remote_port ∷ s.match_ethertype
      ∷ s.match_ipv4_protocol ∷ []),
  one_if-given s.match_remote_ip
      (s.match_local_port ∷ s.match_remote_port ∷ s.match_ethertype ∷ s.match_ipv4_protocol ∷ []),
  one_if-given s.match_local_port
      (s.match_remote_port ∷ s.match_ethertype ∷ s.match_ipv4_protocol ∷ []),
  one_if-given s.match_remote_port (s.match_ethertype ∷ s.match_ipv4_protocol ∷ []),
  one_if-given s.match_ethertype (s.match_ipv4_protocol ∷ []),
  one_if-given s.match_ipv4_protocol [],
)
