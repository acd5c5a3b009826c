-- ===== src/Tftp/Reassembly.antt =====
-- A get transfer of net/tftp.c from its first packet to its last: the file on the disk is the server's.
use mathlib.Core.Path.{subst}
use native.Mathlib.Nat.{mul-le-mul_right}
use gogoboot.Base.{
  ℕ, suc, ◌+◌, ◌-◌, ◌*◌, ◌%◌, ◌≤◌, ◌<◌, ◌≡◌, sym, ap, ◌∙◌, true, false, not, ◌&&◌, inl, inr,
  Bool-cases, if-elim, List, [], ◌∷◌, ◌++◌, arith, ltb, ◌==◌, take, drop, length, length-take,
  length-drop,
}
use gogoboot.Tftp.{
  Transfer, Disk, expected_block_number, get_flush_data_and_ack, accept_block, ack_window,
  get_process_data, succeed,
}
use gogoboot.Tftp.Receive.{
  Writes, concat, arrived, append_nil, append_assoc, concat-append, get_flush_data_and_ack_lem,
  take-append, chunk,
}

-- A file of that many full blocks and a last one that is not, which may be empty. Each block has a number
-- of its own below 65535.
pub record IsFile (size full : ℕ) (bytes : List ℕ) : Type 0 where
  pub full_le : full * size ≤ length bytes
  pub short : length bytes < suc full * size
  pub few : suc full < 65535

-- A get of the file: what has arrived is the file up to the last block that was taken, and a success means
-- that this is the last one.
pub record IsReceiving (size full : ℕ) (bytes : List ℕ) (t : Transfer) : Type 0 where
  pub is_get : t.is_put ≡ false
  pub same_size : t.block_size ≡ size
  pub last_le : t.last_block ≤ suc full
  pub arrived_eq : arrived t ≡ take (t.last_block * size) bytes
  pub done : t.success ≡ true → t.last_block ≡ suc full

-- After a success nothing is left to be written.
abbrev pub IsFlushed : Transfer → Type 0
IsFlushed t = t.success ≡ true → t.data_queue ≡ []

pub expected_block_number-next :
    (t : Transfer) → t.last_block < 65535 → expected_block_number t 1 ≡ t.last_block + 1
unfolding expected_block_number
expected_block_number-next t h =
    let low : ltb 0xffff (t.last_block + 1) ≡ false = ground (arith, h) in rw low (omega (arith, h))

module _ (size full : ℕ) (bytes : List ℕ) (d : Disk) (w : Writes d) (now : ℕ) where
  pub get_flush_data_and_ack-IsReceiving :
      (t : Transfer)
      → IsReceiving size full bytes t
      → IsReceiving size full bytes (get_flush_data_and_ack d now t)
  get_flush_data_and_ack-IsReceiving t r =
      let t' = get_flush_data_and_ack d now t in
      let (f, same, queue) = get_flush_data_and_ack_lem d now t w in
      record {
        is_get = same.is_put_same ∙ r.is_get;
        same_size = same.block_size_same ∙ r.same_size;
        last_le = omega (arith, r.last_le, same.last_block_same);
        arrived_eq =
            ap (λ q. t'.file ++ concat q) queue
            ∙ (append_nil t'.file
                ∙ (f
                    ∙ (r.arrived_eq ∙ ap (λ k. take (k * size) bytes) (sym same.last_block_same))));
        done = λ h. same.last_block_same ∙ r.done (sym same.success_same ∙ h);
      }

  pub get_flush_data_and_ack-IsFlushed : (t : Transfer) → IsFlushed (get_flush_data_and_ack d now t)
  get_flush_data_and_ack-IsFlushed t =
      let (_, _, queue) = get_flush_data_and_ack_lem d now t w in λ _. queue

  ack_window-IsFlushed : (t : Transfer) → IsFlushed t → IsFlushed (ack_window d now t)
  unfolding ack_window
  ack_window-IsFlushed t q =
      if-elim IsFlushed (t.last_block == (t.last_ack + t.window_size) % 65536)
        (λ _. get_flush_data_and_ack-IsFlushed t) (λ _. q)

  ack_window-IsReceiving :
      (t : Transfer)
      → IsReceiving size full bytes t
      → IsReceiving size full bytes (ack_window d now t)
  unfolding ack_window
  ack_window-IsReceiving t r =
      if-elim (IsReceiving size full bytes) (t.last_block == (t.last_ack + t.window_size) % 65536)
        (λ _. get_flush_data_and_ack-IsReceiving t r) (λ _. r)

  -- A block that follows and is short is the last one.
  short-last :
      (k : ℕ)
      → IsFile size full bytes
      → k ≤ full
      → length (chunk size bytes (suc k)) < size
      → k ≡ full
  short-last k f le h =
      let e : suc k - 1 ≡ k = omega arith in
      let n : length (take size (drop (k * size) bytes)) < size =
        subst (λ i. length (take size (drop (i * size) bytes)) < size) e h in
      elim (Bool-cases (ltb k full)) [
        | inl lt ↦
            let below : suc k ≤ full = ground (arith, lt) in
            let bound : suc k * size ≤ full * size = mul-le-mul_right size below in
            let step : suc k * size ≡ k * size + size = ground arith in
            absurd (
              omega (
                arith,
                n,
                length-take size (drop (k * size) bytes),
                length-drop (k * size) bytes,
                bound,
                step,
                f.full_le,
              ))
        | inr ge ↦ ground (arith, ge, le)
      ]

  arrived-next :
      (t : Transfer)
      → IsReceiving size full bytes t
      → t.file ++ concat (t.data_queue ++ chunk size bytes (suc t.last_block) ∷ [])
        ≡ take (suc t.last_block * size) bytes
  arrived-next t r =
      let k = t.last_block in
      let e : suc k - 1 ≡ k = omega arith in
      let step : k * size + size ≡ suc k * size = ground arith in
      ap (λ l. t.file ++ l) (concat-append t.data_queue (chunk size bytes (suc k)))
      ∙ (sym (append_assoc t.file (concat t.data_queue) (chunk size bytes (suc k)))
          ∙ (ap (λ l. l ++ chunk size bytes (suc k)) r.arrived_eq
              ∙ (ap (λ i. take (k * size) bytes ++ take size (drop (i * size) bytes)) e
                  ∙ (take-append (k * size) size bytes ∙ ap (λ i. take i bytes) step))))

  accept_block-IsReceiving :
      (t : Transfer)
      → IsFile size full bytes
      → t.last_block ≤ full
      → IsReceiving size full bytes t
      → IsReceiving size full bytes
          (accept_block d now (suc t.last_block) (chunk size bytes (suc t.last_block)) t)
        × IsFlushed (accept_block d now (suc t.last_block) (chunk size bytes (suc t.last_block)) t)
  unfolding accept_block
  accept_block-IsReceiving t f le r =
      let data' = chunk size bytes (suc t.last_block) in
      let t' = record t {
        last_block = suc t.last_block;
        retransmits_this_block = 0;
        data_queue = t.data_queue ++ data' ∷ [];
      } in
      if-elim (λ (s : Transfer). IsReceiving size full bytes s × IsFlushed s)
        (not t.completed && ltb (length data') t.block_size)
        (λ h.
          let short : length data' < size = ground (arith, h, r.same_size) in
          (
            get_flush_data_and_ack-IsReceiving (succeed t') (record {
              is_get = r.is_get;
              same_size = r.same_size;
              last_le = omega (arith, le);
              arrived_eq = arrived-next t r;
              done = λ _. ap suc (short-last t.last_block f le short);
            }),
            get_flush_data_and_ack-IsFlushed (succeed t'),
          ))
        (λ _.
          let unfinished : t.success ≡ true → ⊥ = λ h. omega (arith, le, r.done h) in
          (
            record {
              is_get = r.is_get;
              same_size = r.same_size;
              last_le = omega (arith, le);
              arrived_eq = arrived-next t r;
              done = λ h. absurd (unfinished h);
            },
            λ h. absurd (unfinished h),
          ))

  -- What a data packet with a block of the file does.
  pub get_process_data-IsReceiving :
      (t : Transfer) (j : ℕ)
      → IsFile size full bytes
      → suc j ≤ suc full
      → IsReceiving size full bytes t × IsFlushed t
      → IsReceiving size full bytes (get_process_data d now (suc j) (chunk size bytes (suc j)) t)
        × IsFlushed (get_process_data d now (suc j) (chunk size bytes (suc j)) t)
  unfolding get_process_data
  get_process_data-IsReceiving t j f le (r, q) =
      let low : t.last_block < 65535 = omega (arith, r.last_le, f.few) in
      if-elim
        (λ (s : Transfer).
          IsReceiving size full bytes (ack_window d now s) × IsFlushed (ack_window d now s))
        (suc j == expected_block_number t 1)
        (λ h.
          let next : suc j ≡ expected_block_number t 1 = ground (arith, h) in
          let same : t.last_block ≡ j = omega (arith, next, expected_block_number-next t low) in
          subst
            (λ i.
              IsReceiving size full bytes
                (ack_window d now (accept_block d now (suc i) (chunk size bytes (suc i)) t))
              × IsFlushed
                  (ack_window d now (accept_block d now (suc i) (chunk size bytes (suc i)) t)))
            same
            (let (r', q') = accept_block-IsReceiving t f (omega (arith, le, same)) r in
              let s =
                accept_block d now (suc t.last_block) (chunk size bytes (suc t.last_block)) t in
              (ack_window-IsReceiving s r', ack_window-IsFlushed s q')))
        (λ _. (ack_window-IsReceiving t r, ack_window-IsFlushed t q))
