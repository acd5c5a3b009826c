-- ===== src/Tftp/Client/Exchange.antt =====
-- What a put of net/tftp.c sends, a get receives.
use gogoboot.Base.{
  ℕ, zero, suc, ◌+◌, ◌*◌, ◌/◌, ◌%◌, ◌≤◌, ◌<◌, ◌≡◌, refl, sym, ap, ◌∙◌, inr, true, false, List, [],
  ◌∷◌, ◌++◌, arith, All,
}
use gogoboot.Tftp.{Transfer, Disk, Message, request, ack, data_block}
use gogoboot.Tftp.Receive.{Writes}
use gogoboot.Tftp.Reassembly.{IsFile}
use gogoboot.Tftp.Send.{Reads, IsSending}
use gogoboot.Tftp.Client.{client_packet_received}
use gogoboot.Tftp.Client.Get.{Event, arrives, handle, handle_all, IsBlock, IsFresh}
use gogoboot.Tftp.Client.Finish.{InOrder, handle_all-success}
use gogoboot.Tftp.Client.Put.{receive_acks, blocks, receive_acks-all}

-- The data packets among the messages reach a get, in their order.
unfoldable pub deliver : Disk → (now port : ℕ) → List Message → Transfer → Transfer
deliver d now port [] t = t
deliver d now port (request _ _ ∷ l) t = deliver d now port l t
deliver d now port (ack _ ∷ l) t = deliver d now port l t
deliver d now port (data_block j bytes ∷ l) t = deliver d now port l (
    client_packet_received d now
      (record { source_port = port; bytes = 0 ∷ 3 ∷ j / 256 ∷ j % 256 ∷ bytes }) t)

numbered : (now port count j : ℕ) → List Event
numbered now port zero j = []
numbered now port (suc count) j = arrives now port j ∷ numbered now port count (suc j)

deliver-blocks :
    (d : Disk) (now port size : ℕ) (bytes : List ℕ) (count j : ℕ) (t : Transfer)
    → deliver d now port (blocks size bytes count j) t
      ≡ handle_all d size bytes (numbered now port count j) t
unfolding deliver blocks handle_all handle numbered
deliver-blocks d now port size bytes zero j t = refl
deliver-blocks d now port size bytes (suc count) j t =
    deliver-blocks d now port size bytes count (suc j) (handle d size bytes (arrives now port j) t)

numbered-IsBlock :
    (now port full count j : ℕ)
    → 1 ≤ j
    → j + count ≤ suc (suc full)
    → All (IsBlock full) (numbered now port count j)
unfolding numbered
numbered-IsBlock now port full zero j lo hi = tt
numbered-IsBlock now port full (suc count) j lo hi = (
  (lo, omega (arith, hi)),
  numbered-IsBlock now port full count (suc j) (omega arith) (omega (arith, hi)),
)

numbered-InOrder :
    (now port full count k : ℕ)
    → k + count ≡ suc full
    → InOrder full k (numbered now port count (suc k))
unfolding numbered InOrder
numbered-InOrder now port full zero k n = omega (arith, n)
numbered-InOrder now port full (suc count) k n =
    inr (refl, numbered-InOrder now port full count (suc k) (omega (arith, n)))

-- One client puts a file of less than 65534 blocks and 2^31 bytes, in windows of one block, and gets the
-- acknowledgement of its request and of each block, in order; what it sends reaches another client that
-- gets a file with blocks of the same size. Both transfers end with success, and the second client's file
-- is the first one's. The disks read what is there and write what they are given.
pub deliver-receive_acks :
    (size full : ℕ) (bytes : List ℕ) (d d' : Disk) (now port now' port' : ℕ) (put get : Transfer)
    → Reads d
    → Writes d'
    → IsFile size full bytes
    → suc full * size < 0x80000000
    → IsSending size 0 bytes put
    → put.sent ≡ []
    → IsFresh size get
    → get.completed ≡ false
    → let put' = receive_acks d now port (suc (suc full)) 0 put in
      let get' = deliver d' now' port' put'.sent get in
      (put'.completed ≡ true)
      × (put'.success ≡ true)
      × (get'.completed ≡ true)
      × (get'.success ≡ true)
      × (get'.file ≡ put.file)
deliver-receive_acks size full bytes d d' now port now' port' put get r w f lt s clean fresh open_ =
    let put' = receive_acks d now port (suc (suc full)) 0 put in
    let (sent', c, ok) = receive_acks-all size full bytes d r f now port lt put s in
    let events = numbered now' port' (suc full) 1 in
    let same : deliver d' now' port' put'.sent get ≡ handle_all d' size bytes events get =
      ap (λ l. deliver d' now' port' l get)
        (sent' ∙ ap (λ l. l ++ blocks size bytes (suc full) 1) clean)
      ∙ deliver-blocks d' now' port' size bytes (suc full) 1 get in
    let (c', ok', file') =
      handle_all-success size full bytes d' events get w f fresh open_
        (numbered-IsBlock now' port' full (suc full) 1 (omega arith) (omega arith))
        (numbered-InOrder now' port' full (suc full) 0 (omega arith)) in
    (
      c,
      ok,
      ap (λ g. g.completed) same ∙ c',
      ap (λ g. g.success) same ∙ ok',
      ap (λ g. g.file) same ∙ (file' ∙ sym s.same_file),
    )
