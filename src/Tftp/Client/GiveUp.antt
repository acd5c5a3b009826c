-- ===== src/Tftp/Client/GiveUp.antt =====
-- A transfer of net/tftp.c whose server falls silent is given up.
use gogoboot.Base.{
  ◌<◌, ◌++◌, ap, take, drop, ℕ, suc, ◌+◌, ◌≤◌, ◌≡◌, refl, sym, ◌∙◌, ◌⊎◌, inl, inr, true, false, not,
  if-elim, List, [], ◌∷◌, arith, ltb, length,
}
use mathlib.Core.Path.{subst}
use gogoboot.Tftp.{Transfer, Disk, put_send_data, restart_timer}
use gogoboot.Tftp.Receive.{Writes, get_flush_data_and_ack_lem}
use gogoboot.Tftp.Send.{Reads, send_blocks-one}
use gogoboot.Tftp.Client.{retransmit, client_timer_expired, max_retransmits}
use gogoboot.Tftp.Quiet.{IsQuiet, get_flush_data_and_ack-IsQuiet, put_send_data-IsQuiet}

-- One timeout after the other, at these times.
unfoldable pub times_out_all : Disk → ℕ → List ℕ → Transfer → Transfer
times_out_all d rxbuffer_size [] t = t
times_out_all d rxbuffer_size (now ∷ l) t =
    times_out_all d rxbuffer_size l (client_timer_expired d rxbuffer_size now t)

retransmit-IsQuiet :
    (r : ℕ) (d : Disk) (rxbuffer_size now : ℕ) (t : Transfer)
    → IsQuiet r t
    → IsQuiet r (retransmit d rxbuffer_size now t)
unfolding retransmit
retransmit-IsQuiet r d rxbuffer_size now t q =
    if-elim (IsQuiet r) (not t.started) (λ _. q)
      (λ _.
        if-elim (IsQuiet r) t.is_put (λ _. put_send_data-IsQuiet r d now 1 t q)
          (λ _. get_flush_data_and_ack-IsQuiet r d now t q))

-- Given up, or with that many retransmissions.
abbrev IsWaiting : ℕ → Transfer → Type 0
IsWaiting r t = (t.success ≡ false) × ((t.completed ≡ true) ⊎ (t.retransmits_this_block ≡ r))

client_timer_expired-IsWaiting :
    (r : ℕ) (d : Disk) (rxbuffer_size now : ℕ) (t : Transfer)
    → r ≤ 20
    → IsWaiting r t
    → IsWaiting (suc r) (client_timer_expired d rxbuffer_size now t)
unfolding client_timer_expired
client_timer_expired-IsWaiting r d rxbuffer_size now t le (s, c) =
    if-elim (IsWaiting (suc r)) (ltb max_retransmits t.retransmits_this_block)
      (λ _. (refl, inl refl))
      (λ _.
        if-elim (IsWaiting (suc r)) t.completed (λ e. (s, inl e))
          (λ e. elim c [
            | inl ended ↦ let no : false ≡ true = sym e ∙ ended in absurd (cc no)
            | inr n ↦
                let q = retransmit-IsQuiet r d rxbuffer_size now t (s, n) in
                (q.0, inr (omega (arith, q.1, le)))
          ]))

-- With 21 retransmissions, or given up already.
client_timer_expired-last :
    (d : Disk) (rxbuffer_size now : ℕ) (t : Transfer)
    → IsWaiting 21 t
    → ((client_timer_expired d rxbuffer_size now t).completed ≡ true)
      × ((client_timer_expired d rxbuffer_size now t).success ≡ false)
unfolding client_timer_expired
client_timer_expired-last d rxbuffer_size now t (s, c) =
    if-elim (λ (u : Transfer). (u.completed ≡ true) × (u.success ≡ false))
      (ltb max_retransmits t.retransmits_this_block) (λ _. (refl, refl))
      (λ few. elim c [ inl ended ↦ rw ended (refl, s) | inr n ↦ absurd (ground (arith, few, n)) ])

times_out_all-IsWaiting :
    (l : List ℕ) (r : ℕ) (d : Disk) (rxbuffer_size : ℕ) (t : Transfer)
    → r + length l ≡ 22
    → r ≤ 21
    → IsWaiting r t
    → ((times_out_all d rxbuffer_size l t).completed ≡ true)
      × ((times_out_all d rxbuffer_size l t).success ≡ false)
unfolding times_out_all
times_out_all-IsWaiting [] r d rxbuffer_size t n le q = absurd (omega (arith, n, le))
times_out_all-IsWaiting (now ∷ []) r d rxbuffer_size t n le q =
    client_timer_expired-last d rxbuffer_size now t
      (subst (λ k. IsWaiting k t) (omega (arith, n)) q)
times_out_all-IsWaiting (now ∷ next ∷ l) r d rxbuffer_size t n le q =
    times_out_all-IsWaiting (next ∷ l) (suc r) d rxbuffer_size
      (client_timer_expired d rxbuffer_size now t) (omega (arith, n)) (omega (arith, n))
      (client_timer_expired-IsWaiting r d rxbuffer_size now t (omega (arith, n)) q)

-- With the twenty-second timeout in a row the transfer is completed without success, whatever the file system
-- does.
times_out_all-failed :
    (l : List ℕ) (d : Disk) (rxbuffer_size : ℕ) (t : Transfer)
    → length l ≡ 22
    → t.success ≡ false
    → t.retransmits_this_block ≡ 0
    → ((times_out_all d rxbuffer_size l t).completed ≡ true)
      × ((times_out_all d rxbuffer_size l t).success ≡ false)
times_out_all-failed l d rxbuffer_size t n s r =
    times_out_all-IsWaiting l 0 d rxbuffer_size t (omega (arith, n)) (omega arith) (s, inr r)

module _ (d : Disk) (rxbuffer_size : ℕ) (w : Writes d) (r : Reads d) where
  -- On a working disk sending again completes nothing.
  retransmit-completed :
      (now : ℕ) (t : Transfer) → (retransmit d rxbuffer_size now t).completed ≡ t.completed
  unfolding retransmit put_send_data
  retransmit-completed now t =
      if-elim (λ (u : Transfer). u.completed ≡ t.completed) (not t.started) (λ _. refl)
        (λ _.
          if-elim (λ (u : Transfer). u.completed ≡ t.completed) t.is_put
            (λ _.
              ap (λ x. (restart_timer now x).completed)
                (send_blocks-one t.bytes_transferred
                  (take t.block_size (drop t.bytes_transferred t.file)) d t
                  (r t.file t.bytes_transferred t.block_size)))
            (λ _. (get_flush_data_and_ack_lem d now t w).1.completed_same))

  client_timer_expired-open :
      (now k : ℕ) (t : Transfer)
      → k ≤ 20
      → t.completed ≡ false
      → IsQuiet k t
      → ((client_timer_expired d rxbuffer_size now t).completed ≡ false)
        × IsQuiet (suc k) (client_timer_expired d rxbuffer_size now t)
  unfolding client_timer_expired
  client_timer_expired-open now k t le c (s, n) =
      if-elim (λ (u : Transfer). (u.completed ≡ false) × IsQuiet (suc k) u)
        (ltb max_retransmits t.retransmits_this_block)
        (λ many. absurd (ground (arith, many, n, le)))
        (λ _.
          if-elim (λ (u : Transfer). (u.completed ≡ false) × IsQuiet (suc k) u) t.completed
            (λ e. let no : false ≡ true = sym c ∙ e in absurd (cc no))
            (λ _.
              let q = retransmit-IsQuiet k d rxbuffer_size now t (s, n) in
              (retransmit-completed now t ∙ c, (q.0, omega (arith, q.1, le)))))

  times_out_all-open :
      (l : List ℕ) (k : ℕ) (t : Transfer)
      → k + length l ≤ 21
      → t.completed ≡ false
      → IsQuiet k t
      → (times_out_all d rxbuffer_size l t).completed ≡ false
  unfolding times_out_all
  times_out_all-open [] k t h c q = c
  times_out_all-open (now ∷ l) k t h c q =
      let (c', q') = client_timer_expired-open now k t (omega (arith, h)) c q in
      times_out_all-open l (suc k) (client_timer_expired d rxbuffer_size now t) (omega (arith, h))
        c' q'

-- A transfer that goes on and has nothing counted yet, get or put, from the request on, and a disk that works:
-- with fewer than twenty-two timeouts in a row it goes on, and with the twenty-second it is completed without
-- success.
pub times_out_all-fails :
    (before after : List ℕ) (d : Disk) (rxbuffer_size : ℕ) (t : Transfer)
    → Writes d
    → Reads d
    → length before < 22
    → length (before ++ after) ≡ 22
    → t.completed ≡ false
    → t.success ≡ false
    → t.retransmits_this_block ≡ 0
    → ((times_out_all d rxbuffer_size before t).completed ≡ false)
      × ((times_out_all d rxbuffer_size (before ++ after) t).completed ≡ true)
      × ((times_out_all d rxbuffer_size (before ++ after) t).success ≡ false)
times_out_all-fails before after d rxbuffer_size t w r few n c s z =
    let (ended, lost) = times_out_all-failed (before ++ after) d rxbuffer_size t n s z in
    (times_out_all-open d rxbuffer_size w r before 0 t (omega (arith, few)) c (s, z), ended, lost)
