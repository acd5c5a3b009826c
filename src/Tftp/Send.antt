-- ===== src/Tftp/Send.antt =====
-- A file that net/tftp.c puts goes out block by block, one for each acknowledgement.
pub mod Acks
use gogoboot.Base.{
  ℕ, suc, ◌+◌, ◌-◌, ◌*◌, ◌%◌, ◌<◌, ◌≡◌, refl, ap, ◌∙◌, Bool, true, if-elim, some, List, arith, ltb,
  ◌==◌, if◌then◌else◌, take, drop, length,
}
use gogoboot.Timer.{word, set_timer_ms}
use gogoboot.Tftp.{
  Transfer, Disk, data_block, data_timeout, expected_block_number, send, succeed, signed_gt,
  send_blocks, put_send_data, blocks_acked, put_acked, restart_timer,
}
use gogoboot.Tftp.Receive.{chunk}
use gogoboot.Tftp.Reassembly.{expected_block_number-next}

-- `f_read` gives the bytes from the position on, as many as it is asked for if there are so many.
abbrev pub Reads : Disk → Type 0
Reads d =
    (file : List ℕ) (position size : ℕ)
    → d.f_read file position size ≡ some (take size (drop position file))

-- A put of the file, in windows of one block, of which so many are acknowledged.
pub record IsSending (size k : ℕ) (bytes : List ℕ) (t : Transfer) : Type 0 where
  pub is_put : t.is_put ≡ true
  pub same_size : t.block_size ≡ size
  pub same_file : t.file ≡ bytes
  pub one_block : t.window_size ≡ 1
  pub total : t.total_size ≡ length bytes
  pub last : t.last_block ≡ k
  pub transferred : t.bytes_transferred ≡ k * size

-- The block that follows goes out.
unfoldable pub sent_next : ℕ → ℕ → List ℕ → ℕ → Transfer → Transfer
sent_next now size bytes k t = record (send (data_block (suc k) (chunk size bytes (suc k))) t) {
  timer = set_timer_ms now data_timeout;
}

pub send_blocks-one :
    (position : ℕ) (l : List ℕ) (d : Disk) (t : Transfer)
    → d.f_read t.file position t.block_size ≡ some l
    → send_blocks d 1 0 position t ≡ (true, send (data_block (expected_block_number t 1) l) t)
unfolding send_blocks
send_blocks-one position l d t h =
    let t' = send (data_block (expected_block_number t 1) l) t in
    rw (send_blocks, h)
      (if-elim (λ (r : Bool × Transfer). r ≡ (true, t')) (ltb (length l) t.block_size) (λ _. refl)
        (λ _. refl))

f_read-chunk :
    (size k : ℕ) (bytes : List ℕ) (d : Disk) (t : Transfer)
    → Reads d
    → IsSending size k bytes t
    → d.f_read t.file t.bytes_transferred t.block_size ≡ some (chunk size bytes (suc k))
f_read-chunk size k bytes d t r s =
    let e : k ≡ suc k - 1 = omega arith in
    r t.file t.bytes_transferred t.block_size
    ∙ (ap (λ n. some (take n (drop t.bytes_transferred t.file))) s.same_size
        ∙ (ap (λ f. some (take size (drop t.bytes_transferred f))) s.same_file
            ∙ ap (λ n. some (take size (drop n bytes))) (s.transferred ∙ ap (λ i. i * size) e)))

pub put_send_data-one :
    (now size k : ℕ) (bytes : List ℕ) (d : Disk) (t : Transfer)
    → Reads d
    → k < 65535
    → IsSending size k bytes t
    → put_send_data d now 1 t ≡ sent_next now size bytes k t
unfolding put_send_data sent_next
put_send_data-one now size k bytes d t r low s =
    let next : expected_block_number t 1 ≡ suc k =
      omega (arith, expected_block_number-next t (omega (arith, s.last, low)), s.last) in
    ap (λ x. restart_timer now x)
      (send_blocks-one t.bytes_transferred (chunk size bytes (suc k)) d t
        (f_read-chunk size k bytes d t r s))
    ∙ ap
        (λ b. record (send (data_block b (chunk size bytes (suc k))) t) {
          timer = set_timer_ms now data_timeout;
        })
        next

-- The acknowledgement of the block that was sent last, where it is not the last one of the file.
blocks_acked-next :
    (t : Transfer) (k : ℕ) → t.last_block ≡ k → k < 65535 → blocks_acked t (suc k) 1 ≡ some 1
unfolding blocks_acked
blocks_acked-next t k e low =
    let same : suc k == expected_block_number t 1 ≡ true =
      ground (arith, expected_block_number-next t (omega (arith, e, low)), e) in
    rw same

-- With one more block acknowledged.
unfoldable pub acked : ℕ → ℕ → Transfer → Transfer
acked size k t = record t {
  retransmits_this_block = 0;
  last_block = suc k;
  bytes_transferred = suc k * size;
}

pub acked-IsSending :
    (size k : ℕ) (bytes : List ℕ) (t : Transfer)
    → IsSending size k bytes t
    → IsSending size (suc k) bytes (acked size k t)
unfolding acked
acked-IsSending size k bytes t s = record {
  is_put = s.is_put;
  same_size = s.same_size;
  same_file = s.same_file;
  one_block = s.one_block;
  total = s.total;
  last = refl;
  transferred = refl;
}

signed_gt-small : (a b : ℕ) → a < 0x80000000 → b < 0x80000000 → signed_gt a b ≡ ltb b a
signed_gt-small a b ha hb =
    let ea : (a + 0x80000000) % word ≡ a + 0x80000000 = omega (arith, ha) in
    let eb : (b + 0x80000000) % word ≡ b + 0x80000000 = omega (arith, hb) in
    rw (ea, eb) (ground arith)

put_acked-next :
    (now size k : ℕ) (bytes : List ℕ) (d : Disk) (t : Transfer)
    → suc k * size < 0x80000000
    → length bytes < 0x80000000
    → IsSending size k bytes t
    → put_acked d now (suc k) (some 1) t ≡ (
        if ltb (length bytes) (suc k * size)
        then succeed (acked size k t)
        else put_send_data d now 1 (acked size k t))
unfolding put_acked acked
put_acked-next now size k bytes d t lt lt' s =
    let step : suc k * size ≡ k * size + size = ground arith in
    let moved : (t.bytes_transferred + t.block_size * 1) % word ≡ suc k * size =
      omega (arith, s.transferred, s.same_size, step, lt) in
    let window : (if 1 == t.window_size then t.window_size else 1) ≡ 1 =
      ground (arith, s.one_block) in
    let test : signed_gt (suc k * size) t.total_size ≡ ltb (length bytes) (suc k * size) =
      ap (λ n. signed_gt (suc k * size) n) s.total
      ∙ signed_gt-small (suc k * size) (length bytes) lt lt' in
    let moved_to = λ (n : ℕ). record t {
      retransmits_this_block = 0;
      last_block = suc k;
      bytes_transferred = n;
    } in
    let one = if 1 == t.window_size then t.window_size else 1 in
    ap
      (λ n.
        if signed_gt n t.total_size
        then succeed (moved_to n)
        else put_send_data d now one (moved_to n))
      moved
    ∙ (ap (λ b. if b then succeed (acked size k t) else put_send_data d now one (acked size k t))
          test
        ∙ ap
            (λ n.
              if ltb (length bytes) (suc k * size)
              then succeed (acked size k t)
              else put_send_data d now n (acked size k t))
            window)
