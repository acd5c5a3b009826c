-- ===== src/Packet/Tests.antt =====
-- The theorems about net/packet.c at concrete queues.
use gogoboot.Base.{◌+◌, ◌==◌, if◌then◌else◌, ◌≡◌, refl, some, List, [], ◌∷◌, arith}
use gogoboot.Packet.{Queue, packet_queue_init, packet_queue_drain}
use gogoboot.Packet.Chain.{Holds}
use gogoboot.Packet.Fifo.{
  Op, add, pop, run, run_list, IsProper, run-packet_queue_init, packet_queue_drain_lem,
}

-- Fields with stray values, which the first calls clear.
abbrev stray : Queue
stray = record { next = λ a. a + 7; head = 99; tail = 98 }

abbrev ops : List Op
ops = add 4 ∷ add 8 ∷ pop ∷ add 4 ∷ pop ∷ pop ∷ pop ∷ []

ops-IsProper : IsProper ops []
unfolding IsProper
ops-IsProper =
    (omega arith, tt, (omega arith, (omega arith, tt), (omega arith, (omega arith, tt), tt)))

run-packet_queue_init_example :
    ((run ops (packet_queue_init stray)).0 ≡ (run_list ops []).0)
    × Holds (run ops (packet_queue_init stray)).1 (run_list ops []).1
run-packet_queue_init_example = run-packet_queue_init ops stray ops-IsProper

abbrev two_packets : Queue
two_packets = record { next = λ a. if a == 4 then 8 else 0; head = 4; tail = 8 }

two_packets-Holds : Holds two_packets (4 ∷ 8 ∷ [])
two_packets-Holds = ((refl, omega arith, (omega arith, tt), (refl, omega arith, tt, refl)), refl)

packet_queue_drain_lem_example :
    (q' : Queue) × (packet_queue_drain 3 two_packets ≡ some (4 ∷ 8 ∷ [], q')) × Holds q' []
packet_queue_drain_lem_example =
    packet_queue_drain_lem 3 two_packets (4 ∷ 8 ∷ []) two_packets-Holds (omega arith)
