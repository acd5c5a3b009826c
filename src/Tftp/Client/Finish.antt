-- ===== src/Tftp/Client/Finish.antt =====
-- A get transfer of net/tftp.c ends with success once the blocks have come in their order.
use mathlib.Core.Path.{subst}
use gogoboot.Base.{
  ℕ, zero, suc, ◌+◌, ◌≤◌, ◌<◌, ◌≡◌, refl, sym, ap, ◌∙◌, ◌⊎◌, inl, inr, true, false, if-elim, List,
  [], ◌∷◌, arith, ◌==◌, if◌then◌else◌, All,
}
use gogoboot.Tftp.{Transfer, Disk}
use gogoboot.Tftp.Client.{Datagram, lock_on, client_packet_received}
use gogoboot.Tftp.Client.Get.{
  data_packet, dispatch-data_packet, Event, arrives, times_out, handle, handle_all, IsBlock,
  IsGetting, lock_on-IsGetting, arrives-IsGetting, IsFresh, fresh-IsGetting, handle_all-whole,
}
use gogoboot.Tftp.Receive.{Writes, chunk}
use gogoboot.Tftp.Reassembly.{IsFile, expected_block_number-next}
use gogoboot.Tftp.Progress.{IsLive, last_block-get_process_data, get_process_data-IsLive}

-- No timeout comes, and the blocks from the one behind `k` to the last stand in this order in the list,
-- with any others before, between and behind them.
unfoldable pub InOrder : ℕ → ℕ → List Event → Type 0
InOrder full k [] = suc full ≤ k
InOrder full k (arrives now port j ∷ l) = InOrder full k l ⊎ ((j ≡ suc k) × InOrder full (suc k) l)
InOrder full k (times_out now rxbuffer_size ∷ l) = ⊥

lock_on-same :
    (p : Datagram) (t : Transfer)
    → ((lock_on p t).last_block ≡ t.last_block)
      × ((lock_on p t).completed ≡ t.completed)
      × ((lock_on p t).success ≡ t.success)
unfolding lock_on
lock_on-same p t =
    if-elim
      (λ (s : Transfer).
        (s.last_block ≡ t.last_block) × (s.completed ≡ t.completed) × (s.success ≡ t.success))
      t.started (λ _. (refl, refl, refl)) (λ _. (refl, refl, refl))

last-le : (j last k n : ℕ) → n ≡ (if j == last + 1 then j else last) → k ≤ last → k ≤ n
last-le j last k n e le = ground (arith, e, le)

last-next :
    (j last k n : ℕ) → n ≡ (if j == last + 1 then j else last) → k ≤ last → j ≡ suc k → suc k ≤ n
last-next j last k n e le h = ground (arith, e, le, h)

module _ (size full : ℕ) (bytes : List ℕ) (d : Disk) (w : Writes d)
    (f : IsFile size full bytes) where
  lock_on-IsLive : (p : Datagram) (t : Transfer) → IsLive full t → IsLive full (lock_on p t)
  lock_on-IsLive p t live =
      let (last, completed', success') = lock_on-same p t in
      record {
        only_success = completed' ∙ (live.only_success ∙ sym success');
        at_end = λ h. success' ∙ live.at_end (sym last ∙ h);
      }

  arrives-IsLive :
      (now port j : ℕ) (t : Transfer)
      → (1 ≤ j) × (j ≤ suc full)
      → IsGetting size full bytes t
      → IsLive full t
      → IsLive full (client_packet_received d now (data_packet port size bytes j) t)
  unfolding client_packet_received
  arrives-IsLive now port zero t (lo, hi) g live = absurd (omega (arith, lo))
  arrives-IsLive now port (suc j) t (lo, hi) g live =
      let p = data_packet port size bytes (suc j) in
      let t' = lock_on p t in
      let g' = lock_on-IsGetting size full bytes d w f p t g in
      subst (IsLive full) (sym (dispatch-data_packet d now port size bytes (suc j) t' g'.0.is_get))
        (get_process_data-IsLive d w now size full bytes t' j f g'.0 hi (lock_on-IsLive p t live))

  last_block-arrives :
      (now port j : ℕ) (t : Transfer)
      → IsGetting size full bytes t
      → (client_packet_received d now (data_packet port size bytes j) t).last_block
        ≡ (if j == t.last_block + 1 then j else t.last_block)
  unfolding client_packet_received
  last_block-arrives now port j t g =
      let p = data_packet port size bytes j in
      let t' = lock_on p t in
      let g' = lock_on-IsGetting size full bytes d w f p t g in
      let (last, _, _) = lock_on-same p t in
      let low : t'.last_block < 65535 = omega (arith, g'.0.last_le, f.few) in
      ap (λ s. s.last_block) (dispatch-data_packet d now port size bytes j t' g'.0.is_get)
      ∙ (last_block-get_process_data d w now j (chunk size bytes j) t'
          ∙ (ap (λ e. if j == e then j else t'.last_block) (expected_block_number-next t' low)
              ∙ ap (λ e. if j == e + 1 then j else e) last))

  success-handle_all :
      (l : List Event) (k : ℕ) (t : Transfer)
      → All (IsBlock full) l
      → InOrder full k l
      → k ≤ t.last_block
      → IsGetting size full bytes t
      → IsLive full t
      → (handle_all d size bytes l t).success ≡ true
        × ((handle_all d size bytes l t).completed ≡ true)
  unfolding handle_all handle InOrder
  success-handle_all [] k t a o le (r, _) live =
      let ended : t.success ≡ true = live.at_end (omega (arith, o, le, r.last_le)) in
      (ended, live.only_success ∙ ended)
  success-handle_all (times_out now rx ∷ l) k t a o le g live = absurd o
  success-handle_all (arrives now port j ∷ l) k t (b, a) o le g live =
      let t' = client_packet_received d now (data_packet port size bytes j) t in
      let g' = arrives-IsGetting size full bytes d w f now port j t b g in
      let live' = arrives-IsLive now port j t b g live in
      let last = last_block-arrives now port j t g in
      elim o [
        | inl rest ↦
            let le' : k ≤ t'.last_block = last-le j t.last_block k t'.last_block last le in
            success-handle_all l k t' a rest le' g' live'
        | inr (e, rest) ↦
            let le' : suc k ≤ t'.last_block = last-next j t.last_block k t'.last_block last le e in
            success-handle_all l (suc k) t' a rest le' g' live'
      ]

-- The blocks of a file of less than 65534 of them come one after the other, perhaps with repeated or early
-- ones between them, and no timeout comes; writes to the disk do not fail: the transfer ends with success,
-- and the file on the disk is the server's.
pub handle_all-success :
    (size full : ℕ) (bytes : List ℕ) (d : Disk) (l : List Event) (t : Transfer)
    → Writes d
    → IsFile size full bytes
    → IsFresh size t
    → t.completed ≡ false
    → All (IsBlock full) l
    → InOrder full 0 l
    → let t' = handle_all d size bytes l t in
      (t'.completed ≡ true) × (t'.success ≡ true) × (t'.file ≡ bytes)
handle_all-success size full bytes d l t w f fresh open_ a o =
    let live : IsLive full t = record {
      only_success = open_ ∙ sym fresh.no_success;
      at_end = λ h. absurd (omega (arith, h, fresh.no_block));
    } in
    let (s, c) =
      success-handle_all size full bytes d w f l 0 t a o (omega arith)
        (fresh-IsGetting size full bytes t fresh) live in
    (c, s, handle_all-whole size full bytes d l t w f fresh a s)
