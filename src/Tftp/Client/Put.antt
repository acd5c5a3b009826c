-- ===== src/Tftp/Client/Put.antt =====
-- A put of net/tftp.c in windows of one block, and a get that receives what it sends.
use mathlib.Core.Path.{subst}
use gogoboot.Base.{
  ℕ, zero, suc, ◌+◌, ◌*◌, ◌/◌, ◌%◌, ◌<◌, ◌≡◌, refl, sym, ap, ◌∙◌, true, if-elim, List, [], ◌∷◌,
  ◌++◌, arith, if◌then◌else◌,
}
use gogoboot.Tftp.{Transfer, Disk, Message, data_block, put_process_ack}
use gogoboot.Tftp.Receive.{append_nil, append_assoc, chunk}
use gogoboot.Tftp.Reassembly.{IsFile}
use gogoboot.Tftp.Send.{Reads, IsSending, sent_next, acked, acked-IsSending}
use gogoboot.Tftp.Send.Acks.{
  first_acked, first_acked-IsSending, put_process_ack-first, put_process_ack-next,
  put_process_ack-last,
}
use gogoboot.Tftp.Client.{Datagram, lock_on, dispatch, client_packet_received}

abbrev pub ack_packet : ℕ → ℕ → Datagram
ack_packet port k = record { source_port = port; bytes = 0 ∷ 4 ∷ k / 256 ∷ k % 256 ∷ [] }

-- The acknowledgements of so many blocks, from one on.
unfoldable pub receive_acks : Disk → (now port count k : ℕ) → Transfer → Transfer
receive_acks d now port zero k t = t
receive_acks d now port (suc count) k t =
    receive_acks d now port count (suc k) (client_packet_received d now (ack_packet port k) t)

-- So many blocks of the file, from one on.
unfoldable pub blocks : (size : ℕ) → List ℕ → (count j : ℕ) → List Message
blocks size bytes zero j = []
blocks size bytes (suc count) j =
    data_block j (chunk size bytes j) ∷ blocks size bytes count (suc j)

dispatch-ack_packet :
    (d : Disk) (now port k : ℕ) (t : Transfer)
    → t.is_put ≡ true
    → dispatch d now (ack_packet port k).bytes t ≡ put_process_ack d now k t
unfolding dispatch
dispatch-ack_packet d now port k t p =
    let e : k / 256 * 256 + k % 256 ≡ k = omega arith in
    ap (λ b. if b then put_process_ack d now (k / 256 * 256 + k % 256) t else t) p
    ∙ ap (λ i. put_process_ack d now i t) e

lock_on-IsSending :
    (size k : ℕ) (bytes : List ℕ) (p : Datagram) (t : Transfer)
    → IsSending size k bytes t
    → IsSending size k bytes (lock_on p t) × ((lock_on p t).sent ≡ t.sent)
unfolding lock_on
lock_on-IsSending size k bytes p t s =
    if-elim (λ (u : Transfer). IsSending size k bytes u × (u.sent ≡ t.sent)) t.started
      (λ _. (s, refl))
      (λ _. (
        record {
          is_put = s.is_put;
          same_size = s.same_size;
          same_file = s.same_file;
          one_block = s.one_block;
          total = s.total;
          last = s.last;
          transferred = s.transferred;
        },
        refl,
      ))

sent_next-IsSending :
    (now size k : ℕ) (bytes : List ℕ) (t : Transfer)
    → IsSending size k bytes t
    → IsSending size k bytes (sent_next now size bytes k t)
unfolding sent_next
sent_next-IsSending now size k bytes t s = record {
  is_put = s.is_put;
  same_size = s.same_size;
  same_file = s.same_file;
  one_block = s.one_block;
  total = s.total;
  last = s.last;
  transferred = s.transferred;
}

-- The messages that have gone out, and a success.
abbrev HasSent : Transfer → List Message → Type 0
HasSent t l = (t.sent ≡ l) × (t.completed ≡ true) × (t.success ≡ true)

module _ (size full : ℕ) (bytes : List ℕ) (d : Disk) (r : Reads d) (f : IsFile size full bytes)
    (now port : ℕ) (lt : suc full * size < 0x80000000) where
  client_packet_received-ack :
      (k j : ℕ) (t : Transfer)
      → IsSending size k bytes t
      → client_packet_received d now (ack_packet port j) t
        ≡ put_process_ack d now j (lock_on (ack_packet port j) t)
  unfolding client_packet_received
  client_packet_received-ack k j t s =
      let (s', _) = lock_on-IsSending size k bytes (ack_packet port j) t s in
      dispatch-ack_packet d now port j (lock_on (ack_packet port j) t) s'.is_put

  ack-last :
      (t : Transfer)
      → IsSending size full bytes t
      → HasSent (client_packet_received d now (ack_packet port (suc full)) t) t.sent
  unfolding acked
  ack-last t s =
      let t' = lock_on (ack_packet port (suc full)) t in
      let (s', same) = lock_on-IsSending size full bytes (ack_packet port (suc full)) t s in
      subst (λ u. HasSent u t.sent)
        (sym (
          client_packet_received-ack full (suc full) t s
          ∙ put_process_ack-last now size full bytes d t' f lt s'))
        (same, refl, refl)

  -- A block goes out.
  abbrev IsAnswered : (k : ℕ) → Transfer → Transfer → Type 0
  IsAnswered k t u =
      IsSending size k bytes u
      × (u.sent ≡ t.sent ++ data_block (suc k) (chunk size bytes (suc k)) ∷ [])

  ack-next :
      (k : ℕ) (t : Transfer)
      → k < full
      → IsSending size k bytes t
      → IsAnswered (suc k) t (client_packet_received d now (ack_packet port (suc k)) t)
  unfolding acked sent_next
  ack-next k t le s =
      let t' = lock_on (ack_packet port (suc k)) t in
      let (s', same) = lock_on-IsSending size k bytes (ack_packet port (suc k)) t s in
      subst (IsAnswered (suc k) t)
        (sym (
          client_packet_received-ack k (suc k) t s
          ∙ put_process_ack-next now size full k bytes d t' f lt r le s'))
        (
          sent_next-IsSending now size (suc k) bytes (acked size k t')
              (acked-IsSending size k bytes t' s'),
          ap (λ l. l ++ data_block (suc (suc k)) (chunk size bytes (suc (suc k))) ∷ []) same,
        )

  ack-first :
      (t : Transfer)
      → IsSending size 0 bytes t
      → IsAnswered 0 t (client_packet_received d now (ack_packet port 0) t)
  unfolding first_acked sent_next
  ack-first t s =
      let t' = lock_on (ack_packet port 0) t in
      let (s', same) = lock_on-IsSending size 0 bytes (ack_packet port 0) t s in
      subst (IsAnswered 0 t)
        (sym (
          client_packet_received-ack 0 0 t s
          ∙ put_process_ack-first now size bytes d t' (omega (arith, f.short, lt)) r s'))
        (
          sent_next-IsSending now size 0 bytes (first_acked size t')
              (first_acked-IsSending size bytes t' s'),
          ap (λ l. l ++ data_block 1 (chunk size bytes 1) ∷ []) same,
        )

  -- With `k` blocks acknowledged and one more sent.
  receive_acks-rest :
      (count k : ℕ) (t : Transfer)
      → k + count ≡ full
      → IsSending size k bytes t
      → HasSent
          (receive_acks d now port (suc count) (suc k) t)
          (t.sent ++ blocks size bytes count (suc (suc k)))
  unfolding receive_acks blocks
  receive_acks-rest zero k t n s =
      let e : k ≡ full = omega (arith, n) in
      let ended = ack-last t (subst (λ i. IsSending size i bytes t) e s) in
      subst (λ l. HasSent (client_packet_received d now (ack_packet port (suc k)) t) l)
        (sym (append_nil t.sent))
        (subst (λ i. HasSent (client_packet_received d now (ack_packet port (suc i)) t) t.sent)
          (sym e) ended)
  receive_acks-rest (suc count) k t n s =
      let u = client_packet_received d now (ack_packet port (suc k)) t in
      let (s', out) = ack-next k t (omega (arith, n)) s in
      let rest = blocks size bytes count (suc (suc (suc k))) in
      subst (λ l. HasSent (receive_acks d now port (suc count) (suc (suc k)) u) l)
        (ap (λ l. l ++ rest) out
          ∙ append_assoc t.sent (data_block (suc (suc k)) (chunk size bytes (suc (suc k))) ∷ [])
              rest)
        (receive_acks-rest count (suc k) u (omega (arith, n)) s')

  -- The acknowledgements of the request and of every block.
  pub receive_acks-all :
      (t : Transfer)
      → IsSending size 0 bytes t
      → HasSent
          (receive_acks d now port (suc (suc full)) 0 t)
          (t.sent ++ blocks size bytes (suc full) 1)
  unfolding receive_acks blocks
  receive_acks-all t s =
      let u = client_packet_received d now (ack_packet port 0) t in
      let (s', out) = ack-first t s in
      let rest = blocks size bytes full 2 in
      subst (λ l. HasSent (receive_acks d now port (suc full) 1 u) l)
        (ap (λ l. l ++ rest) out
          ∙ append_assoc t.sent (data_block 1 (chunk size bytes 1) ∷ []) rest)
        (receive_acks-rest full 0 u (omega arith) s')
