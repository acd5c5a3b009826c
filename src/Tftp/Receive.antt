-- ===== src/Tftp/Receive.antt =====
-- A file that net/tftp.c gets is put together from its blocks, whatever is lost, comes twice or comes in
-- another order on the way.
use gogoboot.Base.{
  ℕ, zero, suc, ◌+◌, ◌-◌, ◌*◌, ◌≡◌, refl, sym, ap, ◌∙◌, true, if-elim, List, [], ◌∷◌, ◌++◌, arith,
  ltb, take, drop, length,
}
use gogoboot.Tftp.{
  Transfer, Disk, get_send_ack, flush_packet, flush_packets, get_flush_data_and_ack,
}

abbrev pub concat : List (List ℕ) → List ℕ
concat [] = []
concat (l ∷ rest) = l ++ concat rest

-- `f_write` appends and does not fail.
abbrev pub Writes : Disk → Type 0
Writes d = (file l : List ℕ) → d.f_write file l ≡ (true, file ++ l)

-- What of the file has arrived: written, or in the queue.
abbrev pub arrived : Transfer → List ℕ
arrived t = t.file ++ concat t.data_queue

pub append_nil {ℓ} : {A : Type ℓ} (l : List A) → l ++ [] ≡ l
append_nil [] = refl
append_nil (x ∷ l) = ap (λ r. x ∷ r) (append_nil l)

pub append_assoc {ℓ} : {A : Type ℓ} (a b c : List A) → (a ++ b) ++ c ≡ a ++ (b ++ c)
append_assoc [] b c = refl
append_assoc (x ∷ a) b c = ap (λ r. x ∷ r) (append_assoc a b c)

pub concat-append : (q : List (List ℕ)) (l : List ℕ) → concat (q ++ l ∷ []) ≡ concat q ++ l
concat-append [] l = append_nil l
concat-append (x ∷ q) l = ap (λ r. x ++ r) (concat-append q l) ∙ sym (append_assoc x (concat q) l)

-- The fields that a flush leaves alone.
pub record IsSame (s t : Transfer) : Type 0 where
  pub last_block_same : s.last_block ≡ t.last_block
  pub is_put_same : s.is_put ≡ t.is_put
  pub block_size_same : s.block_size ≡ t.block_size
  pub completed_same : s.completed ≡ t.completed
  pub success_same : s.success ≡ t.success

pub refl-IsSame : (t : Transfer) → IsSame t t
refl-IsSame t = record {
  last_block_same = refl;
  is_put_same = refl;
  block_size_same = refl;
  completed_same = refl;
  success_same = refl;
}

trans-IsSame : (r s t : Transfer) → IsSame r s → IsSame s t → IsSame r t
trans-IsSame r s t f g = record {
  last_block_same = f.last_block_same ∙ g.last_block_same;
  is_put_same = f.is_put_same ∙ g.is_put_same;
  block_size_same = f.block_size_same ∙ g.block_size_same;
  completed_same = f.completed_same ∙ g.completed_same;
  success_same = f.success_same ∙ g.success_same;
}

flush_packet_lem :
    (d : Disk) (l : List ℕ) (t : Transfer)
    → Writes d
    → ((flush_packet d l t).file ≡ t.file ++ l)
      × IsSame (flush_packet d l t) t
      × ((flush_packet d l t).data_queue ≡ t.data_queue)
unfolding flush_packet
flush_packet_lem d [] t w = (sym (append_nil t.file), refl-IsSame t, refl)
flush_packet_lem d (x ∷ l) t w =
    if-elim
      (λ (s : Transfer). (s.file ≡ t.file ++ x ∷ l) × IsSame s t × (s.data_queue ≡ t.data_queue))
      (ltb 0 (length (x ∷ l)))
      (λ _. rw (w t.file (x ∷ l)) (
        refl,
        record {
          last_block_same = refl;
          is_put_same = refl;
          block_size_same = refl;
          completed_same = refl;
          success_same = refl;
        },
        refl,
      ))
      (λ h. absurd (ground (arith, h)))

flush_packets_lem :
    (d : Disk) (q : List (List ℕ)) (t : Transfer)
    → Writes d
    → ((flush_packets d q t).file ≡ t.file ++ concat q)
      × IsSame (flush_packets d q t) t
      × ((flush_packets d q t).data_queue ≡ t.data_queue)
unfolding flush_packets
flush_packets_lem d [] t w = (sym (append_nil t.file), refl-IsSame t, refl)
flush_packets_lem d (l ∷ q) t w =
    let t' = flush_packet d l t in
    let (f, same, queue) = flush_packet_lem d l t w in
    let (f', same', queue') = flush_packets_lem d q t' w in
    (
      f' ∙ (ap (λ r. r ++ concat q) f ∙ append_assoc t.file l (concat q)),
      trans-IsSame (flush_packets d q t') t' t same' same,
      queue' ∙ queue,
    )

pub get_flush_data_and_ack_lem :
    (d : Disk) (now : ℕ) (t : Transfer)
    → Writes d
    → ((get_flush_data_and_ack d now t).file ≡ arrived t)
      × IsSame (get_flush_data_and_ack d now t) t
      × ((get_flush_data_and_ack d now t).data_queue ≡ [])
unfolding get_flush_data_and_ack get_send_ack
get_flush_data_and_ack_lem d now t w =
    let t' = record (get_send_ack now t) { data_queue = [] } in
    let (f, same, queue) = flush_packets_lem d t.data_queue t' w in
    (
      f,
      record {
        last_block_same = same.last_block_same;
        is_put_same = same.is_put_same;
        block_size_same = same.block_size_same;
        completed_same = same.completed_same;
        success_same = same.success_same;
      },
      queue,
    )

pub take-append {ℓ} :
    {A : Type ℓ} (a b : ℕ) (l : List A) → take a l ++ take b (drop a l) ≡ take (a + b) l
take-append zero b l = let e : 0 + b ≡ b = omega arith in ap (λ k. take k l) (sym e)
take-append (suc a) zero [] = let e : suc a + 0 ≡ suc a = omega arith in ap (λ k. take k []) (sym e)
take-append (suc a) (suc b) [] =
    let e : suc a + suc b ≡ suc (a + suc b) = omega arith in ap (λ k. take k []) (sym e)
take-append (suc a) b (x ∷ l) =
    let e : suc a + b ≡ suc (a + b) = omega arith in
    ap (λ r. x ∷ r) (take-append a b l) ∙ ap (λ k. take k (x ∷ l)) (sym e)

-- The block of a number from 1 on.
abbrev pub chunk : ℕ → List ℕ → ℕ → List ℕ
chunk size file j = take size (drop ((j - 1) * size) file)
