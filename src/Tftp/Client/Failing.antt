-- ===== src/Tftp/Client/Failing.antt =====
-- A get transfer of net/tftp.c on a disk that may fail: each callback either does what it does on a disk that
-- works, or gives the transfer up for good.
use mathlib.Core.Path.{subst}
use gogoboot.Base.{
  ℕ, ◌≡◌, refl, sym, ap, ◌∙◌, ◌⊎◌, Bool, true, false, inl, inr, Bool-cases, not, List, [], ◌∷◌,
  ◌++◌, ltb, ◌==◌, ◌&&◌, ◌+◌, ◌*◌, ◌%◌, ◌/◌, All, take, if◌then◌else◌, length,
}
use gogoboot.Tftp.{
  Transfer, Disk, fail, succeed, written, flush_packet, flush_packets, get_send_ack,
  get_flush_data_and_ack, accept_block, ack_window, get_process_data, expected_block_number,
  put_send_data, send_blocks, send,
}
use gogoboot.Timer.{set_timer_ms}
use gogoboot.Tftp.Request.{create_request}
use gogoboot.Tftp.Client.{
  request_timeout, lock_on, dispatch, client_packet_received, retransmit, client_timer_expired,
  max_retransmits, count_timeout,
}
use gogoboot.Tftp.Receive.{Writes, chunk, arrived}
use gogoboot.Tftp.Client.Get.{
  data_packet, Event, arrives, times_out, handle, handle_all, IsBlock, IsGetting, IsFresh,
  fresh-IsGetting, handle_all-IsGetting, IsGetting-whole,
}
use gogoboot.Tftp.Reassembly.{IsFile}

-- `f_write` writes all bytes, or it fails.
abbrev pub IsHonest : Disk → Type 0
IsHonest d =
    (file l : List ℕ) → (d.f_write file l ≡ (true, file ++ l)) ⊎ ((d.f_write file l).0 ≡ false)

-- The same disk, but for failures of writing.
abbrev pub working : Disk → Disk
working d = record { f_write = λ file l. (true, file ++ l); f_read = d.f_read }

pub working-Writes : (d : Disk) → Writes (working d)
working-Writes d file l = refl

abbrev pub IsFailed : Transfer → Type 0
IsFailed t = (t.completed ≡ true) × (t.success ≡ false)

-- Given up, or the same as another.
abbrev pub IsLike : Transfer → Transfer → Type 0
IsLike a b = IsFailed a ⊎ (a ≡ b)

if-IsFailed : (c : Bool) (a b : Transfer) → IsFailed a → IsFailed b → IsFailed (if c then a else b)
if-IsFailed true a b p q = p
if-IsFailed false a b p q = q

if-IsLike :
    (c : Bool) (a b a' b' : Transfer)
    → IsLike a a'
    → IsLike b b'
    → IsLike (if c then a else b) (if c then a' else b')
if-IsLike true a b a' b' p q = p
if-IsLike false a b a' b' p q = q

then-IsLike :
    (a b : Transfer) (f g : Transfer → Transfer)
    → IsLike a b
    → (IsFailed a → IsFailed (f a))
    → IsLike (f a) (g a)
    → IsLike (f a) (g b)
then-IsLike a b f g p keeps q = elim p [
  | inl lost ↦ inl (keeps lost)
  | inr same ↦ elim q [ inl lost ↦ inl lost | inr e ↦ inr (e ∙ ap g same) ]
]

written-IsFailed :
    (l : List ℕ) (r : Bool × List ℕ) (t : Transfer) → IsFailed t → IsFailed (written l r t)
written-IsFailed l (true, file') t q = q
written-IsFailed l (false, file') t q = (refl, refl)

written-bad :
    (l : List ℕ) (r : Bool × List ℕ) (t : Transfer) → r.0 ≡ false → IsFailed (written l r t)
written-bad l (true, file') t h = let no : true ≡ false = h in absurd (cc no)
written-bad l (false, file') t h = (refl, refl)

flush_packet-IsFailed :
    (d : Disk) (l : List ℕ) (t : Transfer) → IsFailed t → IsFailed (flush_packet d l t)
unfolding flush_packet
flush_packet-IsFailed d l t q =
    if-IsFailed (ltb 0 (length l)) (written l (d.f_write t.file l) t) t
      (written-IsFailed l (d.f_write t.file l) t q) q

flush_packets-IsFailed :
    (d : Disk) (q : List (List ℕ)) (t : Transfer) → IsFailed t → IsFailed (flush_packets d q t)
unfolding flush_packets
flush_packets-IsFailed d [] t f = f
flush_packets-IsFailed d (l ∷ q) t f =
    flush_packets-IsFailed d q (flush_packet d l t) (flush_packet-IsFailed d l t f)

get_flush_data_and_ack-IsFailed :
    (d : Disk) (now : ℕ) (t : Transfer) → IsFailed t → IsFailed (get_flush_data_and_ack d now t)
unfolding get_flush_data_and_ack get_send_ack
get_flush_data_and_ack-IsFailed d now t f =
    flush_packets-IsFailed d t.data_queue (record (get_send_ack now t) { data_queue = [] }) f

accept_block-IsFailed :
    (d : Disk) (now j : ℕ) (l : List ℕ) (t : Transfer)
    → IsFailed t
    → IsFailed (accept_block d now j l t)
unfolding accept_block
accept_block-IsFailed d now j l t (c, s) =
    let t' = record t {
      last_block = j;
      retransmits_this_block = 0;
      data_queue = t.data_queue ++ l ∷ [];
    } in
    subst
      (λ b. IsFailed (
        if not b && ltb (length l) t.block_size
        then get_flush_data_and_ack d now (succeed t')
        else t'))
      (sym c) (c, s)

ack_window-IsFailed :
    (d : Disk) (now : ℕ) (t : Transfer) → IsFailed t → IsFailed (ack_window d now t)
unfolding ack_window
ack_window-IsFailed d now t f =
    if-IsFailed (t.last_block == (t.last_ack + t.window_size) % 65536)
      (get_flush_data_and_ack d now t) t (get_flush_data_and_ack-IsFailed d now t f) f

get_process_data-IsFailed :
    (d : Disk) (now j : ℕ) (l : List ℕ) (t : Transfer)
    → IsFailed t
    → IsFailed (get_process_data d now j l t)
unfolding get_process_data
get_process_data-IsFailed d now j l t f =
    let b = j == expected_block_number t 1 in
    ack_window-IsFailed d now (if b then accept_block d now j l t else t)
      (if-IsFailed b (accept_block d now j l t) t (accept_block-IsFailed d now j l t f) f)

module _ (d : Disk) (h : IsHonest d) where
  flush_packet-IsLike :
      (l : List ℕ) (t : Transfer) → IsLike (flush_packet d l t) (flush_packet (working d) l t)
  unfolding flush_packet
  flush_packet-IsLike l t =
      if-IsLike (ltb 0 (length l)) (written l (d.f_write t.file l) t) t
        (written l (true, t.file ++ l) t) t
        (elim (h t.file l) [
          | inl all ↦ inr (ap (λ r. written l r t) all)
          | inr bad ↦ inl (written-bad l (d.f_write t.file l) t bad)
        ])
        (inr refl)

  flush_packets-IsLike :
      (q : List (List ℕ)) (t : Transfer)
      → IsLike (flush_packets d q t) (flush_packets (working d) q t)
  unfolding flush_packets
  flush_packets-IsLike [] t = inr refl
  flush_packets-IsLike (l ∷ q) t =
      then-IsLike (flush_packet d l t) (flush_packet (working d) l t) (flush_packets d q)
        (flush_packets (working d) q) (flush_packet-IsLike l t)
        (flush_packets-IsFailed d q (flush_packet d l t))
        (flush_packets-IsLike q (flush_packet d l t))

  get_flush_data_and_ack-IsLike :
      (now : ℕ) (t : Transfer)
      → IsLike (get_flush_data_and_ack d now t) (get_flush_data_and_ack (working d) now t)
  unfolding get_flush_data_and_ack get_send_ack
  get_flush_data_and_ack-IsLike now t =
      flush_packets-IsLike t.data_queue (record (get_send_ack now t) { data_queue = [] })

  get_process_data-IsLike :
      (now j : ℕ) (l : List ℕ) (t : Transfer)
      → IsLike (get_process_data d now j l t) (get_process_data (working d) now j l t)
  unfolding get_process_data accept_block ack_window
  get_process_data-IsLike now j l t =
      let b = j == expected_block_number t 1 in
      let t' = record t {
        last_block = j;
        retransmits_this_block = 0;
        data_queue = t.data_queue ++ l ∷ [];
      } in
      let a = λ (x : Disk). if b then accept_block x now j l t else t in
      then-IsLike (a d) (a (working d)) (ack_window d now) (ack_window (working d) now)
        (if-IsLike b (accept_block d now j l t) t (accept_block (working d) now j l t) t
          (if-IsLike (not t.completed && ltb (length l) t.block_size)
            (get_flush_data_and_ack d now (succeed t')) t'
            (get_flush_data_and_ack (working d) now (succeed t')) t'
            (get_flush_data_and_ack-IsLike now (succeed t')) (inr refl))
          (inr refl))
        (ack_window-IsFailed d now (a d))
        (if-IsLike ((a d).last_block == ((a d).last_ack + (a d).window_size) % 65536)
          (get_flush_data_and_ack d now (a d)) (a d) (get_flush_data_and_ack (working d) now (a d))
          (a d) (get_flush_data_and_ack-IsLike now (a d)) (inr refl))

  retransmit-IsLike :
      (rxbuffer_size now : ℕ) (t : Transfer)
      → IsLike (retransmit d rxbuffer_size now t) (retransmit (working d) rxbuffer_size now t)
  unfolding retransmit put_send_data send_blocks
  retransmit-IsLike rxbuffer_size now t =
      if-IsLike (not t.started)
        (send (create_request rxbuffer_size t)
          (record t { timer = set_timer_ms now request_timeout }))
        (if t.is_put then put_send_data d now 1 t else get_flush_data_and_ack d now t)
        (send (create_request rxbuffer_size t)
          (record t { timer = set_timer_ms now request_timeout }))
        (if t.is_put
          then put_send_data (working d) now 1 t
          else get_flush_data_and_ack (working d) now t)
        (inr refl)
        (if-IsLike t.is_put (put_send_data d now 1 t) (get_flush_data_and_ack d now t)
          (put_send_data (working d) now 1 t) (get_flush_data_and_ack (working d) now t) (inr refl)
          (get_flush_data_and_ack-IsLike now t))

  client_timer_expired-IsLike :
      (rxbuffer_size now : ℕ) (t : Transfer)
      → IsLike
          (client_timer_expired d rxbuffer_size now t)
          (client_timer_expired (working d) rxbuffer_size now t)
  unfolding client_timer_expired
  client_timer_expired-IsLike rxbuffer_size now t =
      let again = λ (x : Disk). retransmit x rxbuffer_size now t in
      if-IsLike (ltb max_retransmits t.retransmits_this_block) (fail t)
        (if t.completed then t else count_timeout (again d)) (fail t)
        (if t.completed then t else count_timeout (again (working d))) (inr refl)
        (if-IsLike t.completed t (count_timeout (again d)) t (count_timeout (again (working d)))
          (inr refl)
          (then-IsLike (again d) (again (working d)) count_timeout count_timeout
            (retransmit-IsLike rxbuffer_size now t) (λ f. f) (inr refl)))

  handle-IsLike :
      (size : ℕ) (bytes : List ℕ) (e : Event) (t : Transfer)
      → IsLike (handle d size bytes e t) (handle (working d) size bytes e t)
  unfolding handle client_packet_received dispatch
  handle-IsLike size bytes (arrives now port j) t =
      let t' = lock_on (data_packet port size bytes j) t in
      let n = j / 256 * 256 + j % 256 in
      if-IsLike t'.is_put t' (get_process_data d now n (chunk size bytes j) t') t'
        (get_process_data (working d) now n (chunk size bytes j) t') (inr refl)
        (get_process_data-IsLike now n (chunk size bytes j) t')
  handle-IsLike size bytes (times_out now rxbuffer_size) t =
      client_timer_expired-IsLike rxbuffer_size now t

client_timer_expired-IsFailed :
    (d : Disk) (rxbuffer_size now : ℕ) (t : Transfer)
    → IsFailed t
    → IsFailed (client_timer_expired d rxbuffer_size now t)
unfolding client_timer_expired
client_timer_expired-IsFailed d rxbuffer_size now t (c, s) =
    if-IsFailed (ltb max_retransmits t.retransmits_this_block) (fail t)
      (if t.completed then t else count_timeout (retransmit d rxbuffer_size now t)) (refl, refl)
      (subst (λ b. IsFailed (if b then t else count_timeout (retransmit d rxbuffer_size now t)))
        (sym c) (c, s))

handle-IsFailed :
    (d : Disk) (size : ℕ) (bytes : List ℕ) (e : Event) (t : Transfer)
    → IsFailed t
    → IsFailed (handle d size bytes e t)
unfolding handle client_packet_received dispatch lock_on
handle-IsFailed d size bytes (arrives now port j) t f =
    let p = data_packet port size bytes j in
    let t' = lock_on p t in
    let f' =
      if-IsFailed t.started t (record t { remote_port = p.source_port; started = true }) f f in
    let n = j / 256 * 256 + j % 256 in
    if-IsFailed t'.is_put t' (get_process_data d now n (chunk size bytes j) t') f'
      (get_process_data-IsFailed d now n (chunk size bytes j) t' f')
handle-IsFailed d size bytes (times_out now rxbuffer_size) t f =
    client_timer_expired-IsFailed d rxbuffer_size now t f

-- Given up, or still in order.
abbrev IsEither : ℕ → ℕ → List ℕ → Transfer → Type 0
IsEither size full bytes t = IsFailed t ⊎ IsGetting size full bytes t

module _ (size full : ℕ) (bytes : List ℕ) (d : Disk) (h : IsHonest d)
    (f : IsFile size full bytes) where
  handle-IsEither :
      (e : Event) (t : Transfer)
      → IsBlock full e
      → IsEither size full bytes t
      → IsEither size full bytes (handle d size bytes e t)
  unfolding handle handle_all
  handle-IsEither e t b (inl lost) = inl (handle-IsFailed d size bytes e t lost)
  handle-IsEither e t b (inr g) = elim (handle-IsLike d h size bytes e t) [
    | inl lost ↦ inl lost
    | inr same ↦ inr (
        subst (IsGetting size full bytes) (sym same) (
          handle_all-IsGetting size full bytes (working d) (working-Writes d) f (e ∷ []) t (b, tt)
            g))
  ]

  handle_all-IsEither :
      (l : List Event) (t : Transfer)
      → All (IsBlock full) l
      → IsEither size full bytes t
      → IsEither size full bytes (handle_all d size bytes l t)
  unfolding handle_all
  handle_all-IsEither [] t a g = g
  handle_all-IsEither (e ∷ l) t (b, a) g =
      handle_all-IsEither l (handle d size bytes e t) a (handle-IsEither e t b g)

-- The server sends a file of less than 65534 blocks, and its blocks come in any order, any number of times or
-- not at all, with timeouts between them; the disk writes what it is given, or fails. At every moment either
-- the transfer has been given up without success, or what has arrived, on the disk and in the queue, is the
-- file up to the last block that was taken; when it is a success the file on the disk is the server's.
pub handle_all-get :
    (size full : ℕ) (bytes : List ℕ) (d : Disk) (l : List Event) (t : Transfer)
    → IsHonest d
    → IsFile size full bytes
    → IsFresh size t
    → All (IsBlock full) l
    → let t' = handle_all d size bytes l t in
      ((t'.completed ≡ true) × (t'.success ≡ false))
      ⊎ ((arrived t' ≡ take (t'.last_block * size) bytes)
          × ((t'.success ≡ false) ⊎ (t'.file ≡ bytes)))
handle_all-get size full bytes d l t h f fresh a =
    let t' = handle_all d size bytes l t in
    elim (handle_all-IsEither size full bytes d h f l t a
      (inr (fresh-IsGetting size full bytes t fresh))) [
        | inl lost ↦ inl lost
        | inr (r, q) ↦ inr (
          r.arrived_eq,
          elim (Bool-cases t'.success) [
            | inr more ↦ inl more
            | inl done' ↦ inr (IsGetting-whole size full bytes t' f (r, q) done')
          ],
        )
      ]
