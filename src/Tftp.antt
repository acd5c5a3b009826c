-- ===== src/Tftp.antt =====
-- The TFTP client of net/tftp.c: its state and both directions of a transfer. The disk file is a list of
-- bytes, behind an interface to the FAT file system; packets that are handed to `net_tx` are kept, the
-- oldest first. An `int` is its 32-bit pattern. `now` is the tick counter.
pub mod Request
pub mod Options
pub mod Client
pub mod Receive
pub mod Reassembly
pub mod Progress
pub mod Send
mod Tests
pub mod Number
pub mod Quiet
use gogoboot.Base.{
  ℕ, zero, suc, ◌+◌, ◌-◌, ◌*◌, ◌/◌, ◌%◌, ◌<◌, Bool, true, false, not, ◌&&◌, ◌||◌, Option, none,
  some, List, [], ◌∷◌, ◌++◌, ltb, leb, ◌==◌, if◌then◌else◌, take, drop, get_or, length,
}
use gogoboot.Base.Int.{is_neg32}
use gogoboot.Timer.{word, set_timer_ms}

abbrev pub data_timeout : ℕ
data_timeout = 250

-- What the code uses of the file system: `f_write` with whether it succeeds and the file after it, and
-- `f_read` of a number of bytes at a position.
pub record Disk : Type 0 where
  pub f_write : List ℕ → List ℕ → Bool × List ℕ
  pub f_read : List ℕ → ℕ → ℕ → Option (List ℕ)

-- What is sent: a request with its options, an acknowledgement of a block, a block of data.
pub data Message : Type 0 where
  request : Bool → List ℕ → Message
  ack : ℕ → Message
  data_block : ℕ → List ℕ → Message

-- With the sink's timer and remote port, and what was sent. The packets of `data_queue` are the data they
-- carry.
pub record Transfer : Type 0 where
  pub data_queue : List (List ℕ)
  pub file : List ℕ
  pub is_put : Bool
  pub tftp_filename : List ℕ
  pub block_size : ℕ
  pub last_block : ℕ
  pub last_ack : ℕ
  pub rollover_value : ℕ
  pub bytes_transferred : ℕ
  pub total_size : ℕ
  pub window_size : ℕ
  pub started : Bool
  pub completed : Bool
  pub success : Bool
  pub timeouts : ℕ
  pub retransmits_this_block : ℕ
  pub timer : ℕ
  pub remote_port : ℕ
  pub sent : List Message

-- `count` is small enough for an `int` to hold the sum.
pub expected_block_number : Transfer → ℕ → ℕ
expected_block_number t count =
    let expected = t.last_block + count in
    let wrapped = expected - 0x10000 in
    if ltb 0xffff expected
    then if leb wrapped count && (t.rollover_value == 1)
      then (wrapped + 1) % 65536
      else wrapped % 65536
    else expected % 65536

abbrev pub send : Message → Transfer → Transfer
send m t = record t { sent = t.sent ++ m ∷ [] }

abbrev pub fail : Transfer → Transfer
fail t = record t { completed = true; success = false }

abbrev pub succeed : Transfer → Transfer
succeed t = record t { completed = true; success = true }

-- --- get ---

-- `tftp_create_ack` is the message and the `last_ack`.
pub get_send_ack : ℕ → Transfer → Transfer
get_send_ack now t = record (send (ack t.last_block) t) {
  last_ack = t.last_block;
  timer = set_timer_ms now data_timeout;
}

abbrev pub written : List ℕ → Bool × List ℕ → Transfer → Transfer
written bytes (ok, file') t =
    let t' = record t {
      file = file';
      bytes_transferred = (t.bytes_transferred + length bytes) % word;
    } in
    if ok then t' else fail t'

-- One packet of the queue is written. The number of bytes that were written is not asked for, though FatFs
-- would store it through the NULL pointer that it is given; that store is left out.
pub flush_packet : Disk → List ℕ → Transfer → Transfer
flush_packet d bytes t =
    if ltb 0 (length bytes) then written bytes (d.f_write t.file bytes) t else t

pub flush_packets : Disk → List (List ℕ) → Transfer → Transfer
flush_packets d [] t = t
flush_packets d (bytes ∷ rest) t = flush_packets d rest (flush_packet d bytes t)

pub get_flush_data_and_ack : Disk → ℕ → Transfer → Transfer
get_flush_data_and_ack d now t =
    let t' = get_send_ack now t in flush_packets d t'.data_queue (record t' { data_queue = [] })

-- The block that was expected.
pub accept_block : Disk → ℕ → ℕ → List ℕ → Transfer → Transfer
accept_block d now rxblock bytes t =
    let t' = record t {
      last_block = rxblock;
      retransmits_this_block = 0;
      data_queue = t.data_queue ++ bytes ∷ [];
    } in
    if not t.completed && ltb (length bytes) t.block_size
    then get_flush_data_and_ack d now (succeed t')
    else t'

-- At the end of a window.
pub ack_window : Disk → ℕ → Transfer → Transfer
ack_window d now t =
    if t.last_block == (t.last_ack + t.window_size) % 65536
    then get_flush_data_and_ack d now t
    else t

-- For a packet with all of its header of 4 bytes.
pub get_process_data : Disk → ℕ → ℕ → List ℕ → Transfer → Transfer
get_process_data d now rxblock bytes t =
    ack_window d now
      (if rxblock == expected_block_number t 1 then accept_block d now rxblock bytes t else t)

-- --- put ---

-- An `int` as a number of rounds.
abbrev pub rounds : ℕ → ℕ
rounds count = if is_neg32 count then 0 else count

-- `a > b` of two patterns.
abbrev pub signed_gt : ℕ → ℕ → Bool
signed_gt a b = ltb ((b + 0x80000000) % word) ((a + 0x80000000) % word)

-- The loop of `tftp_put_send_data`, with `n` and the place of the file that is read next; whether the loop
-- ends without an error. A packet is always made smaller with success.
pub send_blocks : Disk → ℕ → ℕ → ℕ → Transfer → Bool × Transfer
send_blocks d zero n position t = (true, t)
send_blocks d (suc count) n position t = elim (d.f_read t.file position t.block_size) [
  | none ↦ (false, fail t)
  | some bytes ↦
      let t' = send (data_block (expected_block_number t (n + 1)) bytes) t in
      let rest = send_blocks d count (n + 1) (position + length bytes) t' in
      if ltb (length bytes) t.block_size then (true, t') else rest
]

abbrev pub restart_timer : ℕ → Bool × Transfer → Transfer
restart_timer now (ok, t) = if ok then record t { timer = set_timer_ms now data_timeout } else t

pub put_send_data : Disk → ℕ → ℕ → Transfer → Transfer
put_send_data d now count t =
    restart_timer now (send_blocks d (rounds count) 0 t.bytes_transferred t)

-- The loop over the numbers of blocks that the acknowledgement can be about, from the highest down.
pub blocks_acked : Transfer → ℕ → ℕ → Option ℕ
blocks_acked t block zero = if block == expected_block_number t 0 then some 0 else none
blocks_acked t block (suc n) =
    let rest = blocks_acked t block n in
    if block == expected_block_number t (suc n) then some (suc n) else rest

-- Behind the loop.
pub put_acked : Disk → ℕ → ℕ → Option ℕ → Transfer → Transfer
put_acked d now block none t = t
put_acked d now block (some n) t =
    let t' = record t {
      retransmits_this_block = if ltb 0 n then 0 else t.retransmits_this_block;
      last_block = block;
      bytes_transferred = (t.bytes_transferred + t.block_size * n) % word;
    } in
    if signed_gt t'.bytes_transferred t.total_size
    then succeed t'
    else put_send_data d now (if n == t.window_size then t.window_size else 1) t'

pub put_process_ack : Disk → ℕ → ℕ → Transfer → Transfer
put_process_ack d now block t =
    if is_neg32 t.window_size
    then t
    else put_acked d now block (blocks_acked t block t.window_size) t
