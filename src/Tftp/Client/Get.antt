-- ===== src/Tftp/Client/Get.antt =====
-- A get transfer through the callbacks of net/tftp.c: blocks and timeouts in any order.
use gogoboot.Base.{
  ℕ, zero, suc, ◌+◌, ◌*◌, ◌/◌, ◌%◌, ◌≤◌, ◌≡◌, refl, sym, ap, ◌∙◌, true, false, not, if-elim, List,
  [], ◌∷◌, ◌++◌, arith, ltb, if◌then◌else◌, take, length, All,
}
use mathlib.Core.Path.{subst}
use gogoboot.Tftp.{Transfer, Disk, get_process_data}
use gogoboot.Tftp.Client.{
  Datagram, lock_on, dispatch, client_packet_received, retransmit, client_timer_expired,
  max_retransmits, count_timeout,
}
use gogoboot.Tftp.Receive.{Writes, concat, append_nil, chunk}
use gogoboot.Tftp.Reassembly.{
  IsFile, IsReceiving, IsFlushed, get_process_data-IsReceiving, get_flush_data_and_ack-IsReceiving,
  get_flush_data_and_ack-IsFlushed,
}

-- A data packet with a block of the file.
abbrev pub data_packet : ℕ → ℕ → List ℕ → ℕ → Datagram
data_packet port size bytes j = record {
  source_port = port;
  bytes = 0 ∷ 3 ∷ j / 256 ∷ j % 256 ∷ chunk size bytes j;
}

pub dispatch-data_packet :
    (d : Disk) (now port size : ℕ) (bytes : List ℕ) (j : ℕ) (t : Transfer)
    → t.is_put ≡ false
    → dispatch d now (data_packet port size bytes j).bytes t
      ≡ get_process_data d now j (chunk size bytes j) t
unfolding dispatch
dispatch-data_packet d now port size bytes j t g =
    let e : j / 256 * 256 + j % 256 ≡ j = omega arith in
    ap
      (λ b.
        if b then t else get_process_data d now (j / 256 * 256 + j % 256) (chunk size bytes j) t)
      g
    ∙ ap (λ i. get_process_data d now i (chunk size bytes j) t) e

-- What comes: a block from a port of the server, or a timeout, each at its time.
pub data Event : Type 0 where
  arrives : (now port j : ℕ) → Event
  times_out : (now rxbuffer_size : ℕ) → Event

unfoldable pub handle : Disk → ℕ → List ℕ → Event → Transfer → Transfer
handle d size bytes (arrives now port j) t =
    client_packet_received d now (data_packet port size bytes j) t
handle d size bytes (times_out now rxbuffer_size) t = client_timer_expired d rxbuffer_size now t

unfoldable pub handle_all : Disk → ℕ → List ℕ → List Event → Transfer → Transfer
handle_all d size bytes [] t = t
handle_all d size bytes (e ∷ l) t = handle_all d size bytes l (handle d size bytes e t)

-- The blocks of a file are numbered from 1 on.
abbrev pub IsBlock : ℕ → Event → Type 0
IsBlock full (arrives _ _ j) = (1 ≤ j) × (j ≤ suc full)
IsBlock full (times_out _ _) = Unit

abbrev pub IsGetting : ℕ → ℕ → List ℕ → Transfer → Type 0
IsGetting size full bytes t = IsReceiving size full bytes t × IsFlushed t

module _ (size full : ℕ) (bytes : List ℕ) (d : Disk) (w : Writes d)
    (f : IsFile size full bytes) where
  pub lock_on-IsGetting :
      (p : Datagram) (t : Transfer)
      → IsGetting size full bytes t
      → IsGetting size full bytes (lock_on p t)
  unfolding lock_on
  lock_on-IsGetting p t (r, q) =
      if-elim (IsGetting size full bytes) t.started (λ _. (r, q))
        (λ _. (
          record {
            is_get = r.is_get;
            same_size = r.same_size;
            last_le = r.last_le;
            arrived_eq = r.arrived_eq;
            done = r.done;
          },
          q,
        ))

  pub arrives-IsGetting :
      (now port j : ℕ) (t : Transfer)
      → (1 ≤ j) × (j ≤ suc full)
      → IsGetting size full bytes t
      → IsGetting size full bytes (client_packet_received d now (data_packet port size bytes j) t)
  unfolding client_packet_received
  arrives-IsGetting now port zero t (lo, hi) g = absurd (omega (arith, lo))
  arrives-IsGetting now port (suc j) t (lo, hi) g =
      let t' = lock_on (data_packet port size bytes (suc j)) t in
      let g' = lock_on-IsGetting (data_packet port size bytes (suc j)) t g in
      subst (IsGetting size full bytes)
        (sym (dispatch-data_packet d now port size bytes (suc j) t' g'.0.is_get))
        (get_process_data-IsReceiving size full bytes d w now t' j f hi g')

  retransmit-IsGetting :
      (now rxbuffer_size : ℕ) (t : Transfer)
      → IsGetting size full bytes t
      → IsGetting size full bytes (count_timeout (retransmit d rxbuffer_size now t))
  unfolding retransmit
  retransmit-IsGetting now rxbuffer_size t (r, q) =
      if-elim (λ (s : Transfer). IsGetting size full bytes (count_timeout s)) (not t.started)
        (λ _. (
          record {
            is_get = r.is_get;
            same_size = r.same_size;
            last_le = r.last_le;
            arrived_eq = r.arrived_eq;
            done = r.done;
          },
          q,
        ))
        (λ _.
          if-elim (λ (s : Transfer). IsGetting size full bytes (count_timeout s)) t.is_put
            (λ h. let no : false ≡ true = sym r.is_get ∙ h in absurd (cc no))
            (λ _.
              let r' = get_flush_data_and_ack-IsReceiving size full bytes d w now t r in
              (
                record {
                  is_get = r'.is_get;
                  same_size = r'.same_size;
                  last_le = r'.last_le;
                  arrived_eq = r'.arrived_eq;
                  done = r'.done;
                },
                get_flush_data_and_ack-IsFlushed size full bytes d w now t,
              )))

  pub times_out-IsGetting :
      (now rxbuffer_size : ℕ) (t : Transfer)
      → IsGetting size full bytes t
      → IsGetting size full bytes (client_timer_expired d rxbuffer_size now t)
  unfolding client_timer_expired
  times_out-IsGetting now rxbuffer_size t (r, q) =
      if-elim (IsGetting size full bytes) (ltb max_retransmits t.retransmits_this_block)
        (λ _. (
          record {
            is_get = r.is_get;
            same_size = r.same_size;
            last_le = r.last_le;
            arrived_eq = r.arrived_eq;
            done = λ h. absurd (cc h);
          },
          λ h. absurd (cc h),
        ))
        (λ _.
          if-elim (IsGetting size full bytes) t.completed (λ _. (r, q))
            (λ _. retransmit-IsGetting now rxbuffer_size t (r, q)))

  pub handle_all-IsGetting :
      (l : List Event) (t : Transfer)
      → All (IsBlock full) l
      → IsGetting size full bytes t
      → IsGetting size full bytes (handle_all d size bytes l t)
  unfolding handle_all handle
  handle_all-IsGetting [] t a g = g
  handle_all-IsGetting (arrives now port j ∷ l) t (b, a) g =
      handle_all-IsGetting l (handle d size bytes (arrives now port j) t) a
        (arrives-IsGetting now port j t b g)
  handle_all-IsGetting (times_out now rx ∷ l) t (b, a) g =
      handle_all-IsGetting l (handle d size bytes (times_out now rx) t) a
        (times_out-IsGetting now rx t g)

take-all {ℓ} : {A : Type ℓ} (n : ℕ) (l : List A) → length l ≤ n → take n l ≡ l
take-all zero [] h = refl
take-all zero (x ∷ l) h = absurd (omega (arith, h))
take-all (suc n) [] h = refl
take-all (suc n) (x ∷ l) h = ap (λ r. x ∷ r) (take-all n l (omega (arith, h)))

-- A get of a file with blocks of that size, of which nothing has arrived yet.
pub record IsFresh (size : ℕ) (t : Transfer) : Type 0 where
  pub is_get : t.is_put ≡ false
  pub same_size : t.block_size ≡ size
  pub no_block : t.last_block ≡ 0
  pub no_file : t.file ≡ []
  pub no_packet : t.data_queue ≡ []
  pub no_success : t.success ≡ false

pub fresh-IsGetting :
    (size full : ℕ) (bytes : List ℕ) (t : Transfer) → IsFresh size t → IsGetting size full bytes t
fresh-IsGetting size full bytes t f = (
  record {
    is_get = f.is_get;
    same_size = f.same_size;
    last_le = omega (arith, f.no_block);
    arrived_eq =
        let none_taken : t.last_block * size ≡ 0 =
          let e : 0 * size ≡ 0 = omega arith in ap (λ k. k * size) f.no_block ∙ e in
        ap (λ x. x ++ concat t.data_queue) f.no_file
        ∙ (ap (λ q. concat q) f.no_packet ∙ sym (ap (λ k. take k bytes) none_taken));
    done = λ h. let no : false ≡ true = sym f.no_success ∙ h in absurd (cc no);
  },
  λ _. f.no_packet,
)

-- A success means that the file is whole.
pub IsGetting-whole :
    (size full : ℕ) (bytes : List ℕ) (t : Transfer)
    → IsFile size full bytes
    → IsGetting size full bytes t
    → t.success ≡ true
    → t.file ≡ bytes
IsGetting-whole size full bytes t f (r, q) h =
    sym (append_nil t.file)
    ∙ (ap (λ k. t.file ++ concat k) (sym (q h))
        ∙ (r.arrived_eq
            ∙ (ap (λ k. take (k * size) bytes) (r.done h)
                ∙ take-all (suc full * size) bytes (omega (arith, f.short)))))

-- On a disk whose writes do not fail a transfer that is a success has the server's file on the disk.
pub handle_all-whole :
    (size full : ℕ) (bytes : List ℕ) (d : Disk) (l : List Event) (t : Transfer)
    → Writes d
    → IsFile size full bytes
    → IsFresh size t
    → All (IsBlock full) l
    → (handle_all d size bytes l t).success ≡ true
    → (handle_all d size bytes l t).file ≡ bytes
handle_all-whole size full bytes d l t w f fresh a h =
    let t' = handle_all d size bytes l t in
    let (r, q) =
      handle_all-IsGetting size full bytes d w f l t a (fresh-IsGetting size full bytes t fresh) in
    IsGetting-whole size full bytes t' f (r, q) h
