-- ===== src/Tftp/Quiet.antt =====
-- What sending again in net/tftp.c never does: it makes no success, and it does not count for itself.
use gogoboot.Base.{
  ℕ, zero, suc, ◌+◌, ◌≡◌, refl, Bool, false, inl, inr, Option-cases, if-elim, List, [], ◌∷◌, ltb,
  length,
}
use gogoboot.Tftp.{
  Transfer, Disk, flush_packet, flush_packets, get_send_ack, get_flush_data_and_ack, send_blocks,
  rounds, put_send_data, send, data_block, expected_block_number, written, restart_timer,
}

-- Without success, and with that many retransmissions counted.
abbrev pub IsQuiet : ℕ → Transfer → Type 0
IsQuiet r t = (t.success ≡ false) × (t.retransmits_this_block ≡ r)

written-IsQuiet :
    (r : ℕ) (l : List ℕ) (result : Bool × List ℕ) (t : Transfer)
    → IsQuiet r t
    → IsQuiet r (written l result t)
written-IsQuiet r l (ok, file') t q = if-elim (IsQuiet r) ok (λ _. q) (λ _. (refl, q.1))

flush_packets-IsQuiet :
    (r : ℕ) (d : Disk) (l : List (List ℕ)) (t : Transfer)
    → IsQuiet r t
    → IsQuiet r (flush_packets d l t)
unfolding flush_packets flush_packet
flush_packets-IsQuiet r d [] t q = q
flush_packets-IsQuiet r d (x ∷ l) t q = flush_packets-IsQuiet r d l (flush_packet d x t) (
    if-elim (IsQuiet r) (ltb 0 (length x)) (λ _. written-IsQuiet r x (d.f_write t.file x) t q)
      (λ _. q))

pub get_flush_data_and_ack-IsQuiet :
    (r : ℕ) (d : Disk) (now : ℕ) (t : Transfer)
    → IsQuiet r t
    → IsQuiet r (get_flush_data_and_ack d now t)
unfolding get_flush_data_and_ack get_send_ack
get_flush_data_and_ack-IsQuiet r d now t q =
    flush_packets-IsQuiet r d t.data_queue (record (get_send_ack now t) { data_queue = [] }) q

send_blocks-IsQuiet :
    (r : ℕ) (d : Disk) (count n position : ℕ) (t : Transfer)
    → IsQuiet r t
    → IsQuiet r (send_blocks d count n position t).1
unfolding send_blocks
send_blocks-IsQuiet r d zero n position t q = q
send_blocks-IsQuiet r d (suc count) n position t q =
    elim (Option-cases (d.f_read t.file position t.block_size)) [
      | inl e ↦ rw (send_blocks, e) (refl, q.1)
      | inr (l, e) ↦
          let t' = send (data_block (expected_block_number t (n + 1)) l) t in
          rw (send_blocks, e)
            (if-elim (λ (s : Bool × Transfer). IsQuiet r s.1) (ltb (length l) t.block_size) (λ _. q)
              (λ _. send_blocks-IsQuiet r d count (n + 1) (position + length l) t' q))
    ]

restart_timer-IsQuiet :
    (r now : ℕ) (result : Bool × Transfer)
    → IsQuiet r result.1
    → IsQuiet r (restart_timer now result)
restart_timer-IsQuiet r now (ok, t) q = if-elim (IsQuiet r) ok (λ _. q) (λ _. q)

pub put_send_data-IsQuiet :
    (r : ℕ) (d : Disk) (now count : ℕ) (t : Transfer)
    → IsQuiet r t
    → IsQuiet r (put_send_data d now count t)
unfolding put_send_data
put_send_data-IsQuiet r d now count t q =
    restart_timer-IsQuiet r now (send_blocks d (rounds count) 0 t.bytes_transferred t)
      (send_blocks-IsQuiet r d (rounds count) 0 t.bytes_transferred t q)
