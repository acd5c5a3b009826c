-- ===== src/Tftp/Client.antt =====
-- The callbacks of net/tftp.c, and the state in which a transfer starts.
pub mod Get
pub mod Failing
pub mod GiveUp
pub mod Finish
pub mod Put
pub mod Exchange
use gogoboot.Base.{
  ℕ, zero, suc, ◌+◌, ◌-◌, ◌*◌, ◌%◌, Bool, true, false, not, List, [], ◌∷◌, ltb, ◌==◌, if◌then◌else◌,
  take, drop, get_or,
}
use gogoboot.Timer.{word, set_timer_ms}
use gogoboot.Tftp.{
  Transfer, Disk, send, fail, put_send_data, put_process_ack, get_flush_data_and_ack,
  get_process_data,
}
use gogoboot.Tftp.Request.{create_request}
use gogoboot.Tftp.Options.{process_options_ack}

abbrev pub request_timeout : ℕ
request_timeout = 1500

abbrev pub max_retransmits : ℕ
max_retransmits = 20

abbrev pub op_data : ℕ
op_data = 3

abbrev pub op_ack : ℕ
op_ack = 4

abbrev pub op_options_ack : ℕ
op_options_ack = 6

-- A received packet: its source port and its data, of 4 bytes at least.
pub record Datagram : Type 0 where
  pub source_port : ℕ
  pub bytes : List ℕ

abbrev word_at : ℕ → List ℕ → ℕ
word_at i l = get_or l i 0 * 256 + get_or l (i + 1) 0

-- The sink is moved to the server's port with the first packet.
pub lock_on : Datagram → Transfer → Transfer
lock_on p t = if t.started then t else record t { remote_port = p.source_port; started = true }

pub dispatch : Disk → ℕ → List ℕ → Transfer → Transfer
dispatch d now bytes t =
    let opcode = word_at 0 bytes in
    let block = word_at 2 bytes in
    if opcode == op_options_ack
    then process_options_ack d now (drop 2 bytes) t
    else if opcode == op_ack
    then if t.is_put then put_process_ack d now block t else t
    else if opcode == op_data
    then if t.is_put then t else get_process_data d now block (drop 4 bytes) t
    else fail t

pub client_packet_received : Disk → ℕ → Datagram → Transfer → Transfer
client_packet_received d now p t = dispatch d now p.bytes (lock_on p t)

abbrev pub count_timeout : Transfer → Transfer
count_timeout t = record t {
  timeouts = (t.timeouts + 1) % word;
  retransmits_this_block = (t.retransmits_this_block + 1) % word;
}

-- What is sent again.
pub retransmit : Disk → ℕ → ℕ → Transfer → Transfer
retransmit d rxbuffer_size now t =
    if not t.started
    then send (create_request rxbuffer_size t)
        (record t { timer = set_timer_ms now request_timeout })
    else if t.is_put
    then put_send_data d now 1 t
    else get_flush_data_and_ack d now t

pub client_timer_expired : Disk → ℕ → ℕ → Transfer → Transfer
client_timer_expired d rxbuffer_size now t =
    if ltb max_retransmits t.retransmits_this_block
    then fail t
    else if t.completed
    then t
    else count_timeout (retransmit d rxbuffer_size now t)

-- As `tftp_transfer` sets it up, with the file it has opened.
unfoldable pub new_transfer : Bool → List ℕ → List ℕ → ℕ → Transfer
new_transfer is_put filename file total_size = record {
  data_queue = [];
  file = file;
  is_put = is_put;
  tftp_filename = filename;
  block_size = 512;
  last_block = 0;
  last_ack = 0;
  rollover_value = 0;
  bytes_transferred = 0;
  total_size = total_size;
  window_size = 1;
  started = false;
  completed = false;
  success = false;
  timeouts = 0;
  retransmits_this_block = 0;
  timer = 0;
  remote_port = 0;
  sent = [];
}

-- The request goes out as if a timeout had come, which is not counted.
pub start_transfer : Disk → ℕ → ℕ → Transfer → Transfer
start_transfer d rxbuffer_size now t = record (client_timer_expired d rxbuffer_size now t) {
  timeouts = 0;
  retransmits_this_block = 0;
}
