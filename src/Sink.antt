-- ===== src/Sink.antt =====
-- Packets and packet sinks (include/net.h) and the list of sinks of net/net.c. A sink's queue is the
-- list of its packets, as net/packet.c keeps them. An Ethernet address is one number.
pub mod Order
pub mod Deliver
pub mod Match
use gogoboot.Timer.{word}
use gogoboot.Base.{
  ℕ, zero, suc, ◌+◌, ◌*◌, ◌/◌, ◌%◌, Bool, true, false, not, ◌&&◌, ◌||◌, Option, none, some, List,
  [], ◌∷◌, ◌++◌, leb, ◌==◌, if◌then◌else◌, get_or,
}

abbrev pub ethertype_ipv4 : ℕ
ethertype_ipv4 = 0x0800

abbrev pub ethertype_arp : ℕ
ethertype_arp = 0x0806

abbrev pub ip_proto_icmp : ℕ
ip_proto_icmp = 1

abbrev pub ip_proto_tcp : ℕ
ip_proto_tcp = 6

abbrev pub ip_proto_udp : ℕ
ip_proto_udp = 17

-- Which of the pointers to headers are set: `eth` always is, and `tcp`, `udp` and `icmp` only together
-- with `ipv4`.
pub data Layer : Type 0 where
  raw arp ipv4 tcp udp icmp : Layer

-- A packet: the Ethernet header, the bytes behind it, and what the code notes about it.
pub record Packet : Type 0 where
  pub destination_mac : ℕ
  pub source_mac : ℕ
  pub ethertype : ℕ
  pub payload : List ℕ
  pub layer : Layer
  pub data_length : ℕ
  pub mac_valid : Bool
  pub ipv4_nexthop : ℕ

abbrev pub has_ipv4 : Layer → Bool
has_ipv4 raw = false
has_ipv4 arp = false
has_ipv4 _ = true

-- `packet->tcp || packet->udp`
abbrev pub has_ports : Layer → Bool
has_ports tcp = true
has_ports udp = true
has_ports _ = false

-- The fields of the headers: a byte, 16 bits and 32 bits at an offset.
abbrev pub byte_at : ℕ → Packet → ℕ
byte_at i p = get_or p.payload i 0

abbrev pub word_at : ℕ → Packet → ℕ
word_at i p = byte_at i p * 256 + byte_at (i + 1) p

abbrev pub long_at : ℕ → Packet → ℕ
long_at i p = word_at i p * 65536 + word_at (i + 2) p

abbrev pub ipv4_protocol : Packet → ℕ
ipv4_protocol p = byte_at 9 p

abbrev pub source_ip : Packet → ℕ
source_ip p = long_at 12 p

abbrev pub destination_ip : Packet → ℕ
destination_ip p = long_at 16 p

abbrev pub source_port : Packet → ℕ
source_port p = if has_ports p.layer then word_at 20 p else 0

abbrev pub destination_port : Packet → ℕ
destination_port p = if has_ports p.layer then word_at 22 p else 0

-- `id` is the structure's address.
pub record Sink : Type 0 where
  pub id : ℕ
  pub match_interface_local_ip : Bool
  pub match_local_ip : ℕ
  pub match_remote_ip : ℕ
  pub match_local_port : ℕ
  pub match_remote_port : ℕ
  pub match_ethertype : ℕ
  pub match_ipv4_protocol : ℕ
  pub packets_queued : ℕ
  pub queue : List Packet
  pub timer : ℕ

abbrev one_if : Bool → ℕ
one_if true = 1
one_if false = 0

unfoldable pub score_sink : Sink → ℕ
score_sink s =
    one_if (not (s.match_local_ip == 0) || s.match_interface_local_ip)
    + one_if (not (s.match_remote_ip == 0))
    + one_if (not (s.match_local_port == 0))
    + one_if (not (s.match_remote_port == 0))
    + one_if (not (s.match_ethertype == 0))
    + one_if (not (s.match_ipv4_protocol == 0))

-- The place of a sink with a score: before the first one whose score is no higher, else at the end.
unfoldable pub insert_sink : Sink → List Sink → List Sink
insert_sink sink [] = sink ∷ []
insert_sink sink (entry ∷ rest) =
    if leb (score_sink entry) (score_sink sink)
    then sink ∷ entry ∷ rest
    else entry ∷ insert_sink sink rest

-- `sink->next` is set: the sink is in the list, and not at its end.
unfoldable pub has_next : ℕ → List Sink → Bool
has_next id [] = false
has_next id (entry ∷ []) = false
has_next id (entry ∷ next ∷ rest) = (entry.id == id) || has_next id (next ∷ rest)

-- A sink that is the last of the list already is not meant to be added: the code, which does not notice it,
-- may tie the list into a ring.
unfoldable pub net_add_packet_sink : Sink → List Sink → List Sink
net_add_packet_sink sink sinks = if has_next sink.id sinks then sinks else insert_sink sink sinks

pub net_remove_packet_sink : ℕ → List Sink → List Sink
net_remove_packet_sink id [] = []
net_remove_packet_sink id (entry ∷ rest) =
    if entry.id == id then rest else entry ∷ net_remove_packet_sink id rest

-- The condition on a sink in `net_eth_push`, with `interface_ipv4_address`.
unfoldable pub sink_matches : ℕ → Packet → Sink → Bool
sink_matches interface_ip p s =
    ((s.match_ethertype == 0) || (s.match_ethertype == p.ethertype))
    && (((s.match_ipv4_protocol == 0)
          || (has_ipv4 p.layer && (s.match_ipv4_protocol == ipv4_protocol p)))
        && (((s.match_local_ip == 0)
              || (has_ipv4 p.layer && (s.match_local_ip == destination_ip p)))
            && ((not s.match_interface_local_ip
                  || (has_ipv4 p.layer
                      && (not (interface_ip == 0) && (interface_ip == destination_ip p))))
                && (((s.match_remote_ip == 0)
                      || (has_ipv4 p.layer && (s.match_remote_ip == source_ip p)))
                    && (((s.match_local_port == 0)
                          || (has_ports p.layer && (s.match_local_port == destination_port p)))
                        && ((s.match_remote_port == 0)
                            || (has_ports p.layer && (s.match_remote_port == source_port p))))))))

abbrev pub enqueue : Packet → Sink → Sink
enqueue p s = record s { queue = s.queue ++ p ∷ []; packets_queued = (s.packets_queued + 1) % word }

abbrev pub push_behind : Sink → Option (List Sink) → Option (List Sink)
push_behind s none = none
push_behind s (some rest) = some (s ∷ rest)

-- The loop over the sinks: the first that matches gets the packet; `none` if none matches.
pub deliver : ℕ → Packet → List Sink → Option (List Sink)
deliver interface_ip p [] = none
deliver interface_ip p (sink ∷ rest) =
    let after = push_behind sink (deliver interface_ip p rest) in
    if sink_matches interface_ip p sink then some (enqueue p sink ∷ rest) else after
