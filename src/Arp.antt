-- ===== src/Arp.antt =====
-- The ARP cache of net/arp.c. The list of entries is the list of their contents, the head first; an
-- Ethernet address is one number. Messages that are handed to `net_tx` are kept, the oldest first.
-- `now` is the tick counter, and the interface's addresses are the argument `host`.
pub mod Cache
pub mod Resolve
pub mod Valid
mod Tests
use Prim.Native.Nat.{bit_or}
use gogoboot.Base.{
  ℕ, zero, suc, ◌+◌, ◌-◌, Bool, true, false, not, ◌&&◌, ◌||◌, Option, none, some, List, [], ◌∷◌,
  ◌++◌, ltb, leb, ◌==◌, if◌then◌else◌,
}
use gogoboot.Timer.{set_timer_sec, set_timer_ms, timer_expired}

abbrev pub cache_timeout : ℕ
cache_timeout = 60

abbrev pub cache_flush_interval : ℕ
cache_flush_interval = 15

abbrev pub max_resolve_attempts : ℕ
max_resolve_attempts = 10

abbrev pub query_interval : ℕ
query_interval = 500

abbrev pub arp_op_request : ℕ
arp_op_request = 1

abbrev pub arp_op_reply : ℕ
arp_op_reply = 2

abbrev pub broadcast_macaddr : ℕ
broadcast_macaddr = 0xffffffffffff

abbrev pub ipv4_broadcast : ℕ
ipv4_broadcast = 0xffffffff

pub data ArpResult : Type 0 where
  arp_okay arp_wait arp_fail : ArpResult

pub record Entry : Type 0 where
  pub ipv4_address : ℕ
  pub mac_address : ℕ
  pub valid : Bool
  pub resolve_attempts : ℕ
  pub next_event : ℕ

pub record Header : Type 0 where
  pub hardware_type : ℕ
  pub protocol_type : ℕ
  pub hardware_length : ℕ
  pub protocol_length : ℕ
  pub operation : ℕ
  pub sender_mac : ℕ
  pub sender_ip : ℕ
  pub target_mac : ℕ
  pub target_ip : ℕ

-- `interface_macaddr`, `interface_ipv4_address` and `interface_subnet_mask`.
pub record Host : Type 0 where
  pub macaddr : ℕ
  pub ipv4_address : ℕ
  pub subnet_mask : ℕ

pub record Arp : Type 0 where
  pub cache : List Entry
  pub timer : ℕ
  pub sent : List Header

-- With the operation and the target, which every caller sets at once.
unfoldable pub packet_create_arp : Host → (operation target_mac target_ip : ℕ) → Header
packet_create_arp host operation target_mac target_ip = record {
  hardware_type = 1;
  protocol_type = 0x800;
  hardware_length = 6;
  protocol_length = 4;
  operation = operation;
  sender_mac = host.macaddr;
  sender_ip = host.ipv4_address;
  target_mac = target_mac;
  target_ip = target_ip;
}

-- The loop that walks the list up to an entry for the address.
unfoldable pub find_entry : ℕ → List Entry → Option Entry
find_entry ip [] = none
find_entry ip (entry ∷ rest) = if entry.ipv4_address == ip then some entry else find_entry ip rest

-- The entry that this loop finds is overwritten.
pub set_entry : ℕ → Entry → List Entry → List Entry
set_entry ip e [] = []
set_entry ip e (entry ∷ rest) =
    if entry.ipv4_address == ip then e ∷ rest else entry ∷ set_entry ip e rest

abbrev pub resolved : ℕ → ℕ → ℕ → Entry
resolved now ip mac = record {
  ipv4_address = ip;
  mac_address = mac;
  valid = true;
  resolve_attempts = 0;
  next_event = set_timer_sec now cache_timeout;
}

-- What `update_arp_cache` does with the entry it found.
pub update_found : ℕ → ℕ → ℕ → Bool → List Entry → Option Entry → List Entry
update_found now ip mac add_entry cache none =
    if add_entry then resolved now ip mac ∷ cache else cache
update_found now ip mac add_entry cache (some _) = set_entry ip (resolved now ip mac) cache

pub update_arp_cache : ℕ → ℕ → ℕ → Bool → List Entry → List Entry
update_arp_cache now ip mac add_entry cache =
    update_found now ip mac add_entry cache (find_entry ip cache)

abbrev transmit : Header → Arp → Arp
transmit p a = record a { sent = a.sent ++ p ∷ [] }

abbrev pub is_ethernet_ipv4 : Header → Bool
is_ethernet_ipv4 p =
    (p.hardware_type == 1)
    && ((p.protocol_type == 0x800) && ((p.hardware_length == 6) && (p.protocol_length == 4)))

-- The update that requests and replies share.
pub learn_sender : ℕ → Header → Bool → Arp → Arp
learn_sender now p add_entry a = record a {
  cache = update_arp_cache now p.sender_ip p.sender_mac add_entry a.cache;
}

-- `who has <ip>?`
pub process_request : ℕ → Host → Header → Arp → Arp
process_request now host p a =
    if not (host.ipv4_address == 0) && (p.target_ip == host.ipv4_address)
    then learn_sender now p true
        (transmit (packet_create_arp host arp_op_reply p.sender_mac p.sender_ip) a)
    else learn_sender now p false a

pub arp_process_packet : ℕ → Host → Header → Arp → Arp
arp_process_packet now host p a =
    if is_ethernet_ipv4 p
    then if p.operation == arp_op_request
      then process_request now host p a
      else if p.operation == arp_op_reply
      then learn_sender now p false a
      else a
    else a

-- Valid but timed out, or never resolved.
abbrev pub dead : ℕ → Entry → Bool
dead now entry =
    (entry.valid && timer_expired now entry.next_event)
    || (not entry.valid && leb max_resolve_attempts entry.resolve_attempts)

pub flush_entries : ℕ → List Entry → List Entry
flush_entries now [] = []
flush_entries now (entry ∷ rest) =
    if dead now entry then flush_entries now rest else entry ∷ flush_entries now rest

pub arp_cache_flush : ℕ → Arp → Arp
arp_cache_flush now a = record a {
  timer = set_timer_sec now cache_flush_interval;
  cache = flush_entries now a.cache;
}

-- The entry with one more attempt.
unfoldable pub queried : ℕ → Entry → Entry
queried now entry = record entry {
  resolve_attempts = entry.resolve_attempts + 1;
  next_event = set_timer_ms now query_interval;
}

pub query_for : Host → Entry → Header
query_for host entry = packet_create_arp host arp_op_request 0 entry.ipv4_address

-- What is read of a packet that is sent: the destination of its IPv4 header, if it has one, and the
-- next hop.
pub record Outgoing : Type 0 where
  pub destination_ip : Option ℕ
  pub ipv4_nexthop : ℕ

unfoldable pub is_broadcast : Host → Option ℕ → Bool
is_broadcast host none = false
is_broadcast host (some ip) =
    (ip == ipv4_broadcast) || (ip == bit_or host.ipv4_address (0xffffffff - host.subnet_mask))

abbrev pub unresolved : ℕ → Entry
unresolved ip = record {
  ipv4_address = ip;
  mac_address = 0;
  valid = false;
  resolve_attempts = 0;
  next_event = 0;
}

-- What `net_arp_resolve` does with the entry that it found. The second result is the Ethernet address
-- that the packet is given.
pub resolve_found : ℕ → Host → ℕ → Option Entry → Arp → ArpResult × Option ℕ × Arp
resolve_found now host ip none a = (
  arp_wait,
  none,
  transmit (query_for host (unresolved ip))
      (record a { cache = queried now (unresolved ip) ∷ a.cache }),
)
resolve_found now host ip (some entry) a =
    if entry.valid
    then (arp_okay, some entry.mac_address, a)
    else if timer_expired now entry.next_event
    then if leb max_resolve_attempts entry.resolve_attempts then (arp_fail, none, a) else (
      arp_wait,
      none,
      transmit (query_for host entry)
          (record a { cache = set_entry ip (queried now entry) a.cache }),
    )
    else (arp_wait, none, a)

pub net_arp_resolve : ℕ → Host → Outgoing → Arp → ArpResult × Option ℕ × Arp
net_arp_resolve now host p a =
    if is_broadcast host p.destination_ip
    then (arp_okay, some broadcast_macaddr, a)
    else resolve_found now host p.ipv4_nexthop (find_entry p.ipv4_nexthop a.cache) a

pub net_arp_init : ℕ → Arp
net_arp_init now = record { cache = []; timer = set_timer_sec now cache_flush_interval; sent = [] }
