-- ===== src/Dhcp.antt =====
-- The DHCP client of net/dhcp.c (constants and the message layout in net/dhcp_internals.h). The
-- state has the file's static variables, the addresses of the interface and the sink's timer, and
-- keeps the messages that were handed to `net_tx`, the oldest first. `now` is the tick counter.
pub mod Machine
pub mod Options
pub mod Lease
mod Tests
use gogoboot.Base.{
  ℕ, zero, suc, ◌+◌, ◌-◌, ◌*◌, ◌/◌, ◌%◌, ◌^◌, Bool, true, false, not, ◌&&◌, ◌||◌, Option, none,
  some, List, [], ◌∷◌, ◌++◌, ltb, leb, ◌==◌, if◌then◌else◌, length, get_or,
}
use gogoboot.Timer.{word, set_timer_sec}

abbrev pub renew_retry_count : ℕ
renew_retry_count = 100

abbrev pub short_wait_time : ℕ
short_wait_time = 5

-- The message types that the client handles.
abbrev pub type_discover : ℕ
type_discover = 1

abbrev pub type_offer : ℕ
type_offer = 2

abbrev pub type_request : ℕ
type_request = 3

abbrev pub type_ack : ℕ
type_ack = 5

abbrev pub type_nack : ℕ
type_nack = 6

pub data State : Type 0 where
  discover select request bound renew : State

-- The `dhcp_offer_*` variables and `dhcp_server_id`.
pub record Offer : Type 0 where
  pub server_id : ℕ
  pub ipv4_address : ℕ
  pub subnet_mask : ℕ
  pub gateway : ℕ
  pub dns_server : ℕ
  pub lease_time : ℕ

-- The `interface_*` variables of net/net.c.
pub record Interface : Type 0 where
  pub ipv4_address : ℕ
  pub subnet_mask : ℕ
  pub gateway : ℕ
  pub dns_server : ℕ

abbrev pub unconfigured : Interface
unconfigured = record { ipv4_address = 0; subnet_mask = 0; gateway = 0; dns_server = 0 }

-- A message to the broadcast address: the transaction number and the bytes of the options.
pub record Message : Type 0 where
  pub xid : ℕ
  pub options : List ℕ

pub record Dhcp : Type 0 where
  pub state : State
  pub offer : Offer
  pub select_wait_time : ℕ
  pub renew_retry_remaining : ℕ
  pub timer : ℕ
  pub interface : Interface
  pub sent : List Message

-- A 32-bit number in network byte order, and back.
abbrev pub bytes32 : ℕ → List ℕ
bytes32 n = n / 2 ^ 24 % 256 ∷ n / 2 ^ 16 % 256 ∷ n / 2 ^ 8 % 256 ∷ n % 256 ∷ []

abbrev pub read32 : List ℕ → ℕ
read32 l = get_or l 0 0 * 2 ^ 24 + get_or l 1 0 * 2 ^ 16 + get_or l 2 0 * 2 ^ 8 + get_or l 3 0

abbrev pub magic_cookie : List ℕ
magic_cookie = 0x63 ∷ 0x82 ∷ 0x53 ∷ 0x63 ∷ []

abbrev always_options : List ℕ
always_options = 0x39 ∷ 2 ∷ 5 ∷ 0x78 ∷ []

abbrev discover_options : List ℕ
discover_options = 0x35 ∷ 1 ∷ type_discover ∷ 0x37 ∷ 4 ∷ 1 ∷ 3 ∷ 6 ∷ 0x0f ∷ []

pub packet_create_dhcp : ℕ → ℕ → List ℕ → Message
packet_create_dhcp now message_type extra_options = record {
  xid = now;
  options =
      magic_cookie ++ (0x35 ∷ 1 ∷ message_type ∷ (always_options ++ (extra_options ++ 0xff ∷ [])));
}

abbrev transmit : Message → Dhcp → Dhcp
transmit m d = record d { sent = d.sent ++ m ∷ [] }

pub dhcp_send_request : ℕ → Dhcp → Dhcp
dhcp_send_request now d =
    transmit
      (packet_create_dhcp now type_request
        (0x32 ∷ 4 ∷ (bytes32 d.offer.ipv4_address ++ 0x36 ∷ 4 ∷ bytes32 d.offer.server_id)))
      d

-- What is read of a received packet. `options` are the bytes behind the fixed part of the message.
pub record Reply : Type 0 where
  pub op : ℕ
  pub yiaddr : ℕ
  pub options : List ℕ

-- The `switch` on an option whose `opt_len` bytes of data are there; `none` is `return false`.
pub process_option : (expected_type opt_code opt_len : ℕ) → List ℕ → Offer → Option Offer
process_option expected_type opt_code opt_len opt_data o =
    if opt_code == 0x35
    then (if not (opt_len == 1) || not (get_or opt_data 0 0 == expected_type) then none else some o)
    else if opt_code == 0x36
    then (if not (opt_len == 4) then none else some (record o { server_id = read32 opt_data }))
    else if opt_code == 1
    then (if not (opt_len == 4) then none else some (record o { subnet_mask = read32 opt_data }))
    else if opt_code == 3
    then (if not (opt_len == 4) then none else some (record o { gateway = read32 opt_data }))
    else if opt_code == 0x33
    then (if not (opt_len == 4) then none else some (record o { lease_time = read32 opt_data }))
    else if opt_code == 6
    then (if ltb opt_len 4 then none else some (record o { dns_server = read32 opt_data }))
    else some o

-- The `while` loop over the options. `skip` counts the bytes of data left to step over. Data that
-- the packet does not hold whole are not looked at. An option code that is the last byte ends the
-- loop, whatever `opt_len` the code reads behind it.
pub process_options : ℕ → ℕ → List ℕ → Offer → Bool × Offer
process_options expected_type skip [] o = (true, o)
process_options expected_type (suc skip) (b ∷ rest) o = process_options expected_type skip rest o
process_options expected_type zero (code ∷ []) o = (true, o)
process_options expected_type zero (code ∷ opt_len ∷ opt_data) o =
    let after_pad = process_options expected_type zero (opt_len ∷ opt_data) o in
    let after = λ (o' : Offer). process_options expected_type opt_len opt_data o' in
    if code == 0xff
    then (true, o)
    else if code == 0
    then after_pad
    else if leb opt_len (length opt_data)
    then elim (process_option expected_type code opt_len opt_data o) [
      | none ↦ (false, o)
      | some o' ↦ after o'
    ]
    else after o

abbrev has_cookie : List ℕ → Bool
has_cookie l =
    ltb 4 (length l)
    && (get_or l 0 0 == 0x63
        && (get_or l 1 0 == 0x82 && (get_or l 2 0 == 0x53 && get_or l 3 0 == 0x63)))

-- The offer as it is reset before the options are read.
abbrev reset_offer : ℕ → Offer
reset_offer yiaddr = record {
  server_id = 0;
  ipv4_address = yiaddr;
  subnet_mask = 0;
  gateway = 0;
  dns_server = 0;
  lease_time = 0;
}

pub process_dhcp_reply : Reply → ℕ → Offer → Bool × Offer
process_dhcp_reply p expected_type o =
    if not (p.op == 2)
    then (false, o)
    else if not (has_cookie p.options)
    then (false, o)
    else process_options expected_type 4 p.options (reset_offer p.yiaddr)

-- `dhcp_enter_state`, a function for each state.
pub enter_select : ℕ → Dhcp → Dhcp
enter_select now d = record d {
  state = select;
  timer = set_timer_sec now d.select_wait_time;
  select_wait_time =
      if ltb d.select_wait_time 120 then d.select_wait_time * 2 else d.select_wait_time;
}

pub enter_discover : ℕ → Dhcp → Dhcp
enter_discover now d = enter_select now (
    transmit (packet_create_dhcp now type_discover discover_options) (record d {
      state = discover;
      offer = record d.offer {
        dns_server = 0;
        gateway = 0;
        lease_time = 0;
        subnet_mask = 0;
        server_id = 0;
      };
      interface = unconfigured;
    }))

pub enter_request : ℕ → Dhcp → Dhcp
enter_request now d = record d { state = request; timer = set_timer_sec now short_wait_time }

-- The lease less the time that the renewal may take, in `uint32_t`.
abbrev bound_time : ℕ → ℕ
bound_time lease_time = (lease_time + (word - renew_retry_count * short_wait_time)) % word

pub enter_bound : ℕ → Dhcp → Dhcp
enter_bound now d = record d {
  state = bound;
  timer = set_timer_sec now (bound_time d.offer.lease_time);
}

pub enter_renew : ℕ → Dhcp → Dhcp
enter_renew now d = dhcp_send_request now (record d {
  state = renew;
  renew_retry_remaining = renew_retry_count;
  timer = set_timer_sec now short_wait_time;
})

-- One more attempt to renew, while there is one left.
pub retry_renew : ℕ → Dhcp → Dhcp
retry_renew now d =
    let remaining = d.renew_retry_remaining - 1 in
    let d' = record d { renew_retry_remaining = remaining } in
    if ltb 0 remaining
    then record (dhcp_send_request now d') { timer = set_timer_sec now short_wait_time }
    else enter_discover now d'

-- The `switch` of `dhcp_timer` on the state.
pub timer_in : State → ℕ → Dhcp → Dhcp
timer_in discover now d = d
timer_in select now d = enter_discover now d
timer_in request now d = enter_discover now d
timer_in bound now d = enter_renew now d
timer_in renew now d = retry_renew now d

-- `net_pump` has set the timer to 0.
pub dhcp_timer : ℕ → Dhcp → Dhcp
dhcp_timer now d = timer_in d.state now d

abbrev unsuitable : Offer → Bool
unsuitable o =
    (o.ipv4_address == 0) || ((o.gateway == 0) || ((o.dns_server == 0) || ltb o.lease_time 180))

-- A packet in the state `select`.
pub select_pump : ℕ → Bool × Offer → Dhcp → Dhcp
select_pump now (false, o) d = record d { offer = o }
select_pump now (true, o) d =
    let d' = record d { offer = o } in
    if unsuitable o
    then d'
    else enter_request now
        (record (dhcp_send_request now d') { select_wait_time = short_wait_time })

-- The interface is set up as the offer says.
abbrev configured : Offer → Interface
configured o = record {
  ipv4_address = o.ipv4_address;
  subnet_mask = o.subnet_mask;
  gateway = o.gateway;
  dns_server = o.dns_server;
}

-- A packet that is no NACK, in the states `request` and `renew`.
pub ack_pump : ℕ → Bool × Offer → Dhcp → Dhcp
ack_pump now (false, o) d = record d { offer = o }
ack_pump now (true, o) d = enter_bound now (record d { offer = o; interface = configured o })

pub nack_pump : ℕ → Reply → Bool × Offer → Dhcp → Dhcp
nack_pump now p (true, o) d = enter_discover now (record d { offer = o })
nack_pump now p (false, o) d =
    ack_pump now (process_dhcp_reply p type_ack o) (record d { offer = o })

-- The `switch` of `dhcp_pump` on the state.
pub pump_in : State → ℕ → Reply → Dhcp → Dhcp
pump_in discover now p d = d
pump_in bound now p d = d
pump_in select now p d = select_pump now (process_dhcp_reply p type_offer d.offer) d
pump_in request now p d = nack_pump now p (process_dhcp_reply p type_nack d.offer) d
pump_in renew now p d = nack_pump now p (process_dhcp_reply p type_nack d.offer) d

pub dhcp_pump : ℕ → Reply → Dhcp → Dhcp
dhcp_pump now p d = pump_in d.state now p d

-- The static variables before `dhcp_init`.
abbrev pub initial : Interface → Dhcp
initial i = record {
  state = discover;
  offer = reset_offer 0;
  select_wait_time = short_wait_time;
  renew_retry_remaining = 0;
  timer = 0;
  interface = i;
  sent = [];
}

pub dhcp_init : ℕ → Interface → Dhcp
dhcp_init now i = enter_discover now (initial i)
