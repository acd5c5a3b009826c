-- ===== src/Tftp/Send/Acks.antt =====
-- What a put of net/tftp.c answers to the acknowledgements it gets.
use native.Mathlib.Nat.{mul-le-mul_right}
use gogoboot.Base.{
  ℕ, suc, ◌+◌, ◌*◌, ◌%◌, ◌≤◌, ◌<◌, ◌≡◌, refl, ap, ◌∙◌, true, false, some, List, arith, ltb, ◌==◌,
  if◌then◌else◌, length,
}
use gogoboot.Base.Int.{is_neg32}
use gogoboot.Timer.{word}
use gogoboot.Tftp.{
  Transfer, Disk, expected_block_number, succeed, signed_gt, put_send_data, blocks_acked, put_acked,
  put_process_ack,
}
use gogoboot.Tftp.Reassembly.{IsFile, expected_block_number-next}
use gogoboot.Tftp.Send.{
  Reads, IsSending, sent_next, put_send_data-one, acked, acked-IsSending, signed_gt-small,
  blocks_acked-next, put_acked-next,
}

-- The acknowledgement of the request is of block 0.
unfoldable pub first_acked : ℕ → Transfer → Transfer
first_acked size t = record t { last_block = 0; bytes_transferred = 0 * size }

pub first_acked-IsSending :
    (size : ℕ) (bytes : List ℕ) (t : Transfer)
    → IsSending size 0 bytes t
    → IsSending size 0 bytes (first_acked size t)
unfolding first_acked
first_acked-IsSending size bytes t s = record {
  is_put = s.is_put;
  same_size = s.same_size;
  same_file = s.same_file;
  one_block = s.one_block;
  total = s.total;
  last = refl;
  transferred = refl;
}

put_acked-first :
    (now size : ℕ) (bytes : List ℕ) (d : Disk) (t : Transfer)
    → length bytes < 0x80000000
    → IsSending size 0 bytes t
    → put_acked d now 0 (some 0) t ≡ put_send_data d now 1 (first_acked size t)
unfolding put_acked first_acked
put_acked-first now size bytes d t lt s =
    let none_ : 0 * size ≡ 0 = ground arith in
    let moved : (t.bytes_transferred + t.block_size * 0) % word ≡ 0 * size =
      omega (arith, s.transferred, none_) in
    let window : (if 0 == t.window_size then t.window_size else 1) ≡ 1 =
      ground (arith, s.one_block) in
    let test : signed_gt (0 * size) t.total_size ≡ false =
      ap (λ n. signed_gt (0 * size) n) s.total
      ∙ (signed_gt-small (0 * size) (length bytes) (omega (arith, none_)) lt
          ∙ ground (arith, none_)) in
    let moved_to = λ (n : ℕ). record t { last_block = 0; bytes_transferred = n } in
    let one = if 0 == t.window_size then t.window_size else 1 in
    ap
      (λ n.
        if signed_gt n t.total_size
        then succeed (moved_to n)
        else put_send_data d now one (moved_to n))
      moved
    ∙ (ap
          (λ b.
            if b
            then succeed (first_acked size t)
            else put_send_data d now one (first_acked size t))
          test
        ∙ ap (λ n. put_send_data d now n (first_acked size t)) window)

blocks_acked-first : (t : Transfer) → t.last_block ≡ 0 → blocks_acked t 0 1 ≡ some 0
unfolding blocks_acked expected_block_number
blocks_acked-first t e =
    let first : 0 == expected_block_number t 1 ≡ false =
      ground (arith, expected_block_number-next t (omega (arith, e))) in
    let none_ : 0 == expected_block_number t 0 ≡ true = rw e refl in rw (blocks_acked, first, none_)

-- With a window of one block.
put_process_ack-window :
    (now block : ℕ) (d : Disk) (t : Transfer)
    → t.window_size ≡ 1
    → put_process_ack d now block t ≡ put_acked d now block (blocks_acked t block 1) t
unfolding put_process_ack
put_process_ack-window now block d t e =
    ap (λ w. if is_neg32 w then t else put_acked d now block (blocks_acked t block w) t) e

pub put_process_ack-first :
    (now size : ℕ) (bytes : List ℕ) (d : Disk) (t : Transfer)
    → length bytes < 0x80000000
    → Reads d
    → IsSending size 0 bytes t
    → put_process_ack d now 0 t ≡ sent_next now size bytes 0 (first_acked size t)
put_process_ack-first now size bytes d t lt r s =
    put_process_ack-window now 0 d t s.one_block
    ∙ (ap (λ o. put_acked d now 0 o t) (blocks_acked-first t s.last)
        ∙ (put_acked-first now size bytes d t lt s
            ∙ put_send_data-one now size 0 bytes d (first_acked size t) r (omega arith)
                (first_acked-IsSending size bytes t s)))

put_process_ack-one :
    (now size full k : ℕ) (bytes : List ℕ) (d : Disk) (t : Transfer)
    → IsFile size full bytes
    → suc full * size < 0x80000000
    → k ≤ full
    → IsSending size k bytes t
    → put_process_ack d now (suc k) t ≡ (
        if ltb (length bytes) (suc k * size)
        then succeed (acked size k t)
        else put_send_data d now 1 (acked size k t))
put_process_ack-one now size full k bytes d t f lt le s =
    let above : suc k * size ≤ suc full * size = mul-le-mul_right size (omega (arith, le)) in
    put_process_ack-window now (suc k) d t s.one_block
    ∙ (ap (λ o. put_acked d now (suc k) o t)
          (blocks_acked-next t k s.last (omega (arith, le, f.few)))
        ∙ put_acked-next now size k bytes d t (omega (arith, above, lt))
            (omega (arith, f.short, lt)) s)

-- An acknowledgement that is not of the last block.
pub put_process_ack-next :
    (now size full k : ℕ) (bytes : List ℕ) (d : Disk) (t : Transfer)
    → IsFile size full bytes
    → suc full * size < 0x80000000
    → Reads d
    → k < full
    → IsSending size k bytes t
    → put_process_ack d now (suc k) t ≡ sent_next now size bytes (suc k) (acked size k t)
put_process_ack-next now size full k bytes d t f lt r le s =
    let below : suc k * size ≤ full * size = mul-le-mul_right size le in
    let test : ltb (length bytes) (suc k * size) ≡ false = ground (arith, below, f.full_le) in
    put_process_ack-one now size full k bytes d t f lt (omega (arith, le)) s
    ∙ (ap (λ b. if b then succeed (acked size k t) else put_send_data d now 1 (acked size k t)) test
        ∙ put_send_data-one now size (suc k) bytes d (acked size k t) r (omega (arith, le, f.few))
            (acked-IsSending size k bytes t s))

-- The acknowledgement of the last block.
pub put_process_ack-last :
    (now size full : ℕ) (bytes : List ℕ) (d : Disk) (t : Transfer)
    → IsFile size full bytes
    → suc full * size < 0x80000000
    → IsSending size full bytes t
    → put_process_ack d now (suc full) t ≡ succeed (acked size full t)
put_process_ack-last now size full bytes d t f lt s =
    let test : ltb (length bytes) (suc full * size) ≡ true = ground (arith, f.short) in
    put_process_ack-one now size full full bytes d t f lt (omega arith) s
    ∙ ap (λ b. if b then succeed (acked size full t) else put_send_data d now 1 (acked size full t))
        test
