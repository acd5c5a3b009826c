-- ===== src/Packet/Fifo.antt =====
-- The queues of net/packet.c are first-in first-out lists.
use mathlib.Core.Path.{subst}
use gogoboot.Base.{
  ℕ, zero, suc, ◌+◌, ◌<◌, ◌≡◌, ◌≢◌, refl, sym, ap, ◌∙◌, true, false, some, List, [], ◌∷◌, ◌++◌,
  arith, ◌==◌, if◌then◌else◌, length,
}
use gogoboot.Packet.{
  Next, set_next, Queue, clear_next, pop_at, packet_queue_init, packet_queue_addtail,
  packet_queue_pophead, count_packets, packet_queue_length, packet_queue_drain,
}
use gogoboot.Packet.Chain.{
  Avoids, IsChain, last_of, Holds, IsChain-set_next, last_of-ne-zero, last_of-append,
  IsChain-append, clear_next_self, IsChain-clear_next,
}

addtail-first :
    (p : ℕ) (q : Queue)
    → q.tail ≡ 0
    → packet_queue_addtail p q ≡ record { next = clear_next p q.next; head = p; tail = p }
unfolding packet_queue_addtail
addtail-first p q t = let none : q.tail == 0 ≡ true = ground (arith, t) in rw none

addtail-behind :
    (p t : ℕ) (q : Queue)
    → q.tail ≡ t
    → t ≢ 0
    → packet_queue_addtail p q
      ≡ record { next = set_next t p (clear_next p q.next); head = q.head; tail = p }
unfolding packet_queue_addtail
addtail-behind p t q e h =
    let some_tail : q.tail == 0 ≡ false = ground (arith, e, h) in
    rw some_tail
      (λ i. record { next = set_next (e i) p (clear_next p q.next); head = q.head; tail = p })

pop_at-some :
    (x : ℕ) (q : Queue)
    → x ≢ 0
    → pop_at x q ≡ (
      x,
      record {
        next = set_next x 0 q.next;
        head = q.next x;
        tail = if q.next x == 0 then 0 else q.tail;
      },
    )
unfolding pop_at
pop_at-some x q h = let some_head : x == 0 ≡ false = ground (arith, h) in rw some_head

-- A packet that is in no queue is appended.
pub packet_queue_addtail-Holds :
    (p : ℕ) (q : Queue) (xs : List ℕ)
    → p ≢ 0
    → Avoids p xs
    → Holds q xs
    → Holds (packet_queue_addtail p q) (xs ++ p ∷ [])
packet_queue_addtail-Holds p q [] pz a (c, t) =
    rw (addtail-first p q t) ((refl, pz, tt, clear_next_self p q.next), refl)
packet_queue_addtail-Holds p q (x ∷ xs) pz a (c, t) =
    let cleared = clear_next p q.next in
    let chain : IsChain cleared q.head (x ∷ xs) = IsChain-clear_next q.head p q.next (x ∷ xs) a c in
    subst (λ r. Holds r (x ∷ (xs ++ p ∷ [])))
      (sym (addtail-behind p (last_of (x ∷ xs)) q t (last_of-ne-zero q.next q.head x xs c)))
      (
        IsChain-append cleared p q.head x xs pz (clear_next_self p q.next) a chain,
        sym (last_of-append x p xs),
      )

pop_at-Holds :
    (q : Queue) (x : ℕ) (xs : List ℕ)
    → Holds q (x ∷ xs)
    → ((pop_at x q).0 ≡ x) × Holds (pop_at x q).1 xs
pop_at-Holds q x [] ((e, z, d, c), t) = rw (pop_at-some x q z) (refl, (c, ground (arith, c)))
pop_at-Holds q x (y ∷ xs) ((e, z, d, c), t) =
    let more : q.next x == 0 ≡ false = ground (arith, c.0, c.1) in
    subst (λ r. (r.0 ≡ x) × Holds r.1 (y ∷ xs)) (sym (pop_at-some x q z))
      (refl, (IsChain-set_next (q.next x) 0 x q.next (y ∷ xs) d c, rw more t))

-- The head is taken off.
pub packet_queue_pophead-Holds :
    (q : Queue) (x : ℕ) (xs : List ℕ)
    → Holds q (x ∷ xs)
    → ((packet_queue_pophead q).0 ≡ x) × Holds (packet_queue_pophead q).1 xs
unfolding packet_queue_pophead
packet_queue_pophead-Holds q x xs h = rw (ap (λ p. pop_at p q) (h.0.0)) (pop_at-Holds q x xs h)

pub packet_queue_pophead-empty : (q : Queue) → q.head ≡ 0 → packet_queue_pophead q ≡ (0, q)
unfolding packet_queue_pophead pop_at
packet_queue_pophead-empty q c = let none : q.head == 0 ≡ true = ground (arith, c) in rw none

-- What is done to a queue.
pub data Op : Type 0 where
  add : ℕ → Op
  pop : Op

-- The results of the pops, 0 for an empty queue, and the queue.
unfoldable pub run : List Op → Queue → List ℕ × Queue
run [] q = ([], q)
run (add p ∷ ops) q = run ops (packet_queue_addtail p q)
run (pop ∷ ops) q =
    let popped = packet_queue_pophead q in
    let rest = run ops popped.1 in (popped.0 ∷ rest.0, rest.1)

-- The same on a list.
unfoldable pub run_list : List Op → List ℕ → List ℕ × List ℕ
run_list [] xs = ([], xs)
run_list (add p ∷ ops) xs = run_list ops (xs ++ p ∷ [])
run_list (pop ∷ ops) [] = let rest = run_list ops [] in (0 ∷ rest.0, rest.1)
run_list (pop ∷ ops) (x ∷ xs) = let rest = run_list ops xs in (x ∷ rest.0, rest.1)

-- Only packets are added, and none that is in the queue.
unfoldable pub IsProper : List Op → List ℕ → Type 0
IsProper [] xs = Unit
IsProper (add p ∷ ops) xs = (p ≢ 0) × Avoids p xs × IsProper ops (xs ++ p ∷ [])
IsProper (pop ∷ ops) [] = IsProper ops []
IsProper (pop ∷ ops) (x ∷ xs) = IsProper ops xs

run-Holds :
    (ops : List Op) (q : Queue) (xs : List ℕ)
    → Holds q xs
    → IsProper ops xs
    → ((run ops q).0 ≡ (run_list ops xs).0) × Holds (run ops q).1 (run_list ops xs).1
unfolding run run_list IsProper
run-Holds [] q xs h c = (refl, h)
run-Holds (add p ∷ ops) q xs h (pz, a, c) =
    run-Holds ops (packet_queue_addtail p q) (xs ++ p ∷ [])
      (packet_queue_addtail-Holds p q xs pz a h) c
run-Holds (pop ∷ ops) q [] h c =
    let rest = run-Holds ops q [] h c in
    subst
      (λ r.
        (r.0 ∷ (run ops r.1).0 ≡ 0 ∷ (run_list ops []).0)
        × Holds (run ops r.1).1 (run_list ops []).1)
      (sym (packet_queue_pophead-empty q h.0)) (ap (λ (l : List ℕ). 0 ∷ l) rest.0, rest.1)
run-Holds (pop ∷ ops) q (x ∷ xs) h c =
    let step = packet_queue_pophead-Holds q x xs h in
    let rest = run-Holds ops (packet_queue_pophead q).1 xs step.1 c in
    ((λ i. step.0 i ∷ rest.0 i), rest.1)

-- From `packet_queue_init` on, a queue to which only packets are added, and none that is in it, yields
-- what a list yields to which items are added at the end and from which they are taken at the front,
-- and it holds what that list holds.
pub run-packet_queue_init :
    (ops : List Op) (q : Queue)
    → IsProper ops []
    → ((run ops (packet_queue_init q)).0 ≡ (run_list ops []).0)
      × Holds (run ops (packet_queue_init q)).1 (run_list ops []).1
unfolding packet_queue_init
run-packet_queue_init ops q c = run-Holds ops (packet_queue_init q) [] (refl, refl) c

count_packets_lem :
    (rounds l p : ℕ) (next : Next) (xs : List ℕ)
    → IsChain next p xs
    → length xs < rounds
    → count_packets rounds l p next ≡ some (l + length xs)
unfolding count_packets
count_packets_lem zero l p next xs c h = absurd (omega (arith, h))
count_packets_lem (suc rounds) l p next [] c h =
    let done : p == 0 ≡ true = ground (arith, c) in rw done (ap (λ (n : ℕ). some n) (omega arith))
count_packets_lem (suc rounds) l p next (x ∷ xs) (e, z, d, c) h =
    let more : p == 0 ≡ false = ground (arith, e, z) in
    let c' : IsChain next (next p) xs = subst (λ y. IsChain next (next y) xs) (sym e) c in
    rw more (
      count_packets_lem rounds (l + 1) (next p) next xs c' (omega (arith, h))
      ∙ ap (λ (n : ℕ). some n) (omega arith))

-- With more rounds than there are packets `packet_queue_length` counts them.
pub packet_queue_length_lem :
    (rounds : ℕ) (q : Queue) (xs : List ℕ)
    → Holds q xs
    → length xs < rounds
    → packet_queue_length rounds q ≡ some (length xs)
unfolding packet_queue_length
packet_queue_length_lem rounds q xs (c, t) h =
    count_packets_lem rounds 0 q.head q.next xs c h ∙ ap (λ (n : ℕ). some n) (omega arith)

-- With more rounds than a queue has packets, `packet_queue_drain` frees each of them, the head first, and
-- leaves an empty queue.
pub packet_queue_drain_lem :
    (rounds : ℕ) (q : Queue) (xs : List ℕ)
    → Holds q xs
    → length xs < rounds
    → (q' : Queue) × (packet_queue_drain rounds q ≡ some (xs, q')) × Holds q' []
unfolding packet_queue_drain
packet_queue_drain_lem zero q xs h r = absurd (omega (arith, r))
packet_queue_drain_lem (suc rounds) q [] h r = (q, rw (packet_queue_pophead-empty q h.0), h)
packet_queue_drain_lem (suc rounds) q (x ∷ xs) h r =
    let step = packet_queue_pophead-Holds q x xs h in
    let (q', freed, e) =
      packet_queue_drain_lem rounds (packet_queue_pophead q).1 xs step.1 (omega (arith, r)) in
    let not_null : (packet_queue_pophead q).0 == 0 ≡ false = ground (arith, step.0, h.0.1) in
    (q', rw (not_null, freed) (ap (λ (y : ℕ). some (y ∷ xs, q')) step.0), e)
