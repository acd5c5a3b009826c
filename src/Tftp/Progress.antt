-- ===== src/Tftp/Progress.antt =====
-- What a data packet makes of a get transfer of net/tftp.c: the block that was taken last, and the end.
use mathlib.Core.Path.{subst}
use gogoboot.Base.{
  ℕ, suc, ◌+◌, ◌-◌, ◌*◌, ◌%◌, ◌≤◌, ◌<◌, ◌≡◌, refl, sym, ◌∙◌, true, false, not, ◌&&◌, inl, inr,
  Bool-cases, if-elim, List, [], ◌∷◌, ◌++◌, arith, ltb, ◌==◌, if◌then◌else◌, take, drop, length,
  length-take, length-drop,
}
use gogoboot.Tftp.{
  Transfer, Disk, expected_block_number, get_flush_data_and_ack, accept_block, ack_window,
  get_process_data, succeed,
}
use gogoboot.Tftp.Receive.{Writes, IsSame, refl-IsSame, get_flush_data_and_ack_lem, chunk}
use gogoboot.Tftp.Reassembly.{IsFile, IsReceiving, expected_block_number-next}

-- A get whose only end is a success, which comes with the last block.
pub record IsLive (full : ℕ) (t : Transfer) : Type 0 where
  pub only_success : t.completed ≡ t.success
  pub at_end : t.last_block ≡ suc full → t.success ≡ true

module _ (d : Disk) (w : Writes d) (now : ℕ) where
  flush-IsSame : (t : Transfer) → IsSame (get_flush_data_and_ack d now t) t
  flush-IsSame t = let (_, same, _) = get_flush_data_and_ack_lem d now t w in same

  ack_window-IsSame : (t : Transfer) → IsSame (ack_window d now t) t
  unfolding ack_window
  ack_window-IsSame t =
      if-elim (λ (s : Transfer). IsSame s t) (t.last_block == (t.last_ack + t.window_size) % 65536)
        (λ _. flush-IsSame t) (λ _. refl-IsSame t)

  last_block-accept_block :
      (rxblock : ℕ) (l : List ℕ) (t : Transfer)
      → (accept_block d now rxblock l t).last_block ≡ rxblock
  unfolding accept_block
  last_block-accept_block rxblock l t =
      let t' = record t {
        last_block = rxblock;
        retransmits_this_block = 0;
        data_queue = t.data_queue ++ l ∷ [];
      } in
      if-elim (λ (s : Transfer). s.last_block ≡ rxblock)
        (not t.completed && ltb (length l) t.block_size)
        (λ _. (flush-IsSame (succeed t')).last_block_same) (λ _. refl)

  pub last_block-get_process_data :
      (rxblock : ℕ) (l : List ℕ) (t : Transfer)
      → (get_process_data d now rxblock l t).last_block
        ≡ (if rxblock == expected_block_number t 1 then rxblock else t.last_block)
  unfolding get_process_data
  last_block-get_process_data rxblock l t =
      let t' = if rxblock == expected_block_number t 1 then accept_block d now rxblock l t else t in
      (ack_window-IsSame t').last_block_same
      ∙ elim (Bool-cases (rxblock == expected_block_number t 1)) [
        | inl e ↦ rw e (last_block-accept_block rxblock l t)
        | inr e ↦ rw e
      ]

  IsSame-IsLive : (full : ℕ) (s t : Transfer) → IsSame s t → IsLive full t → IsLive full s
  IsSame-IsLive full s t same live = record {
    only_success = same.completed_same ∙ (live.only_success ∙ sym same.success_same);
    at_end = λ h. same.success_same ∙ live.at_end (sym same.last_block_same ∙ h);
  }

  -- The last block is short.
  length-last :
      (size full : ℕ) (bytes : List ℕ)
      → IsFile size full bytes
      → length (chunk size bytes (suc full)) < size
  length-last size full bytes f =
      let e : full ≡ suc full - 1 = omega arith in
      let step : suc full * size ≡ full * size + size = ground arith in
      subst (λ i. length (take size (drop (i * size) bytes)) < size) e
        (omega (
          arith,
          length-take size (drop (full * size) bytes),
          length-drop (full * size) bytes,
          step,
          f.short,
          f.full_le,
        ))

  accept_block-IsLive :
      (size full : ℕ) (bytes : List ℕ) (t : Transfer)
      → IsFile size full bytes
      → IsReceiving size full bytes t
      → t.last_block ≤ full
      → IsLive full t
      → IsLive full (accept_block d now (suc t.last_block) (chunk size bytes (suc t.last_block)) t)
  unfolding accept_block
  accept_block-IsLive size full bytes t f r le live =
      let l = chunk size bytes (suc t.last_block) in
      let t' = record t {
        last_block = suc t.last_block;
        retransmits_this_block = 0;
        data_queue = t.data_queue ++ l ∷ [];
      } in
      if-elim (IsLive full) (not t.completed && ltb (length l) t.block_size)
        (λ _.
          IsSame-IsLive full (get_flush_data_and_ack d now (succeed t')) (succeed t')
            (flush-IsSame (succeed t')) (record { only_success = refl; at_end = λ _. refl }))
        (λ h. record {
          only_success = live.only_success;
          at_end = λ e.
              let last : full ≡ t.last_block = omega (arith, e) in
              let short : length l < size =
                subst (λ k. length (chunk size bytes (suc k)) < size) last
                  (length-last size full bytes f) in
              elim (Bool-cases t.success) [
                | inl ended ↦ ended
                | inr still ↦
                    let open_ : t.completed ≡ false = live.only_success ∙ still in
                    absurd (ground (arith, h, short, open_, r.same_size))
              ];
        })

  -- A data packet keeps a transfer on its way to success.
  pub get_process_data-IsLive :
      (size full : ℕ) (bytes : List ℕ) (t : Transfer) (j : ℕ)
      → IsFile size full bytes
      → IsReceiving size full bytes t
      → suc j ≤ suc full
      → IsLive full t
      → IsLive full (get_process_data d now (suc j) (chunk size bytes (suc j)) t)
  unfolding get_process_data
  get_process_data-IsLive size full bytes t j f r le live =
      let low : t.last_block < 65535 = omega (arith, r.last_le, f.few) in
      if-elim (λ (s : Transfer). IsLive full (ack_window d now s))
        (suc j == expected_block_number t 1)
        (λ h.
          let next : suc j ≡ expected_block_number t 1 = ground (arith, h) in
          let same : t.last_block ≡ j = omega (arith, next, expected_block_number-next t low) in
          let s = accept_block d now (suc t.last_block) (chunk size bytes (suc t.last_block)) t in
          subst
            (λ i.
              IsLive full
                (ack_window d now (accept_block d now (suc i) (chunk size bytes (suc i)) t)))
            same
            (IsSame-IsLive full (ack_window d now s) s (ack_window-IsSame s)
              (accept_block-IsLive size full bytes t f r (omega (arith, le, same)) live)))
        (λ _. IsSame-IsLive full (ack_window d now t) t (ack_window-IsSame t) live)
