-- ===== src/Packet.antt =====
-- The packet queues of net/packet.c. A packet is the address of its structure, 0 is NULL, and the
-- `next` fields of all packets are one function.
pub mod Chain
pub mod Fifo
mod Tests
use gogoboot.Base.{ℕ, zero, suc, ◌+◌, Option, none, some, List, [], ◌∷◌, ◌++◌, ◌==◌, if◌then◌else◌}

abbrev pub Next : Type 0
Next = ℕ → ℕ

-- `p->next = v`
abbrev pub set_next : ℕ → ℕ → Next → Next
set_next p v next = λ a. if a == p then v else next a

-- The `next` fields, and the two fields of a queue.
pub record Queue : Type 0 where
  pub next : Next
  pub head : ℕ
  pub tail : ℕ

pub packet_queue_init : Queue → Queue
packet_queue_init q = record q { head = 0; tail = 0 }

-- `if(p->next) p->next = NULL`
pub clear_next : ℕ → Next → Next
clear_next p next = if next p == 0 then next else set_next p 0 next

pub packet_queue_addtail : ℕ → Queue → Queue
packet_queue_addtail p q =
    let cleared = clear_next p q.next in
    if q.tail == 0
    then record { next = cleared; head = p; tail = p }
    else record { next = set_next q.tail p cleared; head = q.head; tail = p }

pub packet_queue_peekhead : Queue → ℕ
packet_queue_peekhead q = q.head

-- What `packet_queue_pophead` does with the head `p`.
pub pop_at : ℕ → Queue → ℕ × Queue
pop_at p q =
    let rest = q.next p in
    if p == 0 then (0, q) else (
      p,
      record { next = set_next p 0 q.next; head = rest; tail = if rest == 0 then 0 else q.tail },
    )

pub packet_queue_pophead : Queue → ℕ × Queue
packet_queue_pophead q = pop_at q.head q

-- The loop of `packet_queue_length`, from the length so far. `none` means that the rounds ran out.
pub count_packets : ℕ → ℕ → ℕ → Next → Option ℕ
count_packets zero l p next = none
count_packets (suc rounds) l p next =
    let rest = count_packets rounds (l + 1) (next p) next in if p == 0 then some l else rest

pub packet_queue_length : ℕ → Queue → Option ℕ
packet_queue_length rounds q = count_packets rounds 0 q.head q.next

abbrev prepend : ℕ → Option (List ℕ × Queue) → Option (List ℕ × Queue)
prepend p none = none
prepend p (some (l, q)) = some (p ∷ l, q)

-- The packets that `packet_queue_drain` frees, in this order, and what it leaves.
pub packet_queue_drain : ℕ → Queue → Option (List ℕ × Queue)
packet_queue_drain zero q = none
packet_queue_drain (suc rounds) q =
    let popped = packet_queue_pophead q in
    let rest = prepend popped.0 (packet_queue_drain rounds popped.1) in
    if popped.0 == 0 then some ([], popped.1) else rest
