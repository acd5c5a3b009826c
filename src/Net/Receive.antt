-- ===== src/Net/Receive.antt =====
-- The receive pipe of net/net.c: who gets a frame, and that the list of sinks stays in order.
use gogoboot.Timer.{word}
use gogoboot.Base.{
  ℕ, ◌%◌, ◌+◌, ◌≤◌, ◌≡◌, ◌≢◌, ap, ◌∙◌, true, inl, inr, Option-cases, if-elim, Option, none, some,
  List, [], ◌∷◌, ◌++◌, arith, All, get_elem?,
}
use gogoboot.Sink.{Sink, Packet, deliver, net_add_packet_sink, net_remove_packet_sink}
use gogoboot.Sink.Order.{IsOrdered, net_add_packet_sink-IsOrdered, net_remove_packet_sink-IsOrdered}
use gogoboot.Sink.Match.{
  IsMatch, given, fields, sink_matches-IsMatch, IsMatch-sink_matches, score_sink-given,
}
use gogoboot.Sink.Deliver.{deliver_best, deliver-IsOrdered}
use gogoboot.Net.{
  Net, NetInterface, receive, push_delivered, push_received, is_for_us, net_eth_push, net_init,
}

-- The counter of received frames is counted up, and the packet dealt with.
net_eth_push-ours :
    (i : NetInterface) (p : Packet) (n : Net)
    → is_for_us i p ≡ true
    → net_eth_push i p n
      ≡ push_received i
          (receive i p)
          (record n { packet_rx_count = (n.packet_rx_count + 1) % word })
unfolding net_eth_push
net_eth_push-ours i p n h = rw h

-- A frame for us that passes its checks, with a sink in the list that agrees with it in each field that it
-- gives: one that agrees with it too, and gives at least as many fields, gets it at the end of its queue, and
-- nothing else changes but the counters of that sink and of the received frames, which wrap at 2^32.
pub net_eth_push_best :
    (i : NetInterface) (p q : Packet) (n : Net) (k : ℕ) (t : Sink)
    → IsOrdered n.sinks
    → is_for_us i p ≡ true
    → receive i p ≡ some q
    → get_elem? n.sinks k ≡ some t
    → IsMatch i.host.ipv4_address q t
    → (before : List Sink) × (s : Sink) × (after : List Sink) × (n.sinks ≡ before ++ s ∷ after)
      × (net_eth_push i p n ≡ record n {
        packet_rx_count = (n.packet_rx_count + 1) % word;
        sinks =
            before
            ++ record s {
              queue = s.queue ++ q ∷ [];
              packets_queued = (s.packets_queued + 1) % word;
            }
              ∷ after;
      })
      × IsMatch i.host.ipv4_address q s
      × (given (fields t) ≤ given (fields s))
unfolding push_received push_delivered
net_eth_push_best i p q n k t o us ok e m =
    let n' = record n { packet_rx_count = (n.packet_rx_count + 1) % word } in
    let (before, s, after, split, got, hit, best) =
      deliver_best i.host.ipv4_address q n.sinks k t o e
        (IsMatch-sink_matches i.host.ipv4_address q t m) in
    (
      before,
      s,
      after,
      split,
      net_eth_push-ours i p n us
          ∙ (ap (λ r. push_received i r n') ok ∙ ap (λ r. push_delivered r n') got),
      sink_matches-IsMatch i.host.ipv4_address q s hit,
      omega (arith, best, score_sink-given s, score_sink-given t),
    )

push_received-IsOrdered :
    (i : NetInterface) (r : Option Packet) (n : Net)
    → IsOrdered n.sinks
    → IsOrdered (push_received i r n).sinks
unfolding push_received push_delivered
push_received-IsOrdered i none n o = o
push_received-IsOrdered i (some p) n o =
    elim (Option-cases (deliver i.host.ipv4_address p n.sinks)) [
      | inl e ↦ rw e o
      | inr (l, e) ↦ rw e (deliver-IsOrdered i.host.ipv4_address p n.sinks l o e)
    ]

net_eth_push-IsOrdered :
    (i : NetInterface) (p : Packet) (n : Net)
    → IsOrdered n.sinks
    → IsOrdered (net_eth_push i p n).sinks
unfolding net_eth_push
net_eth_push-IsOrdered i p n o =
    if-elim (λ (m : Net). IsOrdered m.sinks) (is_for_us i p)
      (λ _.
        push_received-IsOrdered i (receive i p)
          (record n { packet_rx_count = (n.packet_rx_count + 1) % word }) o)
      (λ _. o)

-- What happens to the receive pipe.
pub data Event : Type 0 where
  add_sink : Sink → Event
  remove_sink : ℕ → Event
  frame : NetInterface → Packet → Event

unfoldable pub handle : Event → Net → Net
handle (add_sink s) n = record n { sinks = net_add_packet_sink s n.sinks }
handle (remove_sink id) n = record n { sinks = net_remove_packet_sink id n.sinks }
handle (frame i p) n = net_eth_push i p n

unfoldable pub handle_all : List Event → Net → Net
handle_all [] n = n
handle_all (e ∷ rest) n = handle_all rest (handle e n)

-- A sink is added only while it is not in the list.
unfoldable pub IsProper : List Event → Net → Type 0
IsProper [] n = Unit
IsProper (add_sink s ∷ rest) n =
    All (λ t. t.id ≢ s.id) n.sinks × IsProper rest (handle (add_sink s) n)
IsProper (remove_sink id ∷ rest) n = IsProper rest (handle (remove_sink id) n)
IsProper (frame i p ∷ rest) n = IsProper rest (handle (frame i p) n)

handle_all-IsOrdered :
    (l : List Event) (n : Net) → IsProper l n → IsOrdered n.sinks → IsOrdered (handle_all l n).sinks
unfolding handle_all handle IsProper
handle_all-IsOrdered [] n c o = o
handle_all-IsOrdered (add_sink s ∷ l) n (a, c) o =
    handle_all-IsOrdered l (handle (add_sink s) n) c (net_add_packet_sink-IsOrdered s n.sinks a o)
handle_all-IsOrdered (remove_sink id ∷ l) n c o =
    handle_all-IsOrdered l (handle (remove_sink id) n) c
      (net_remove_packet_sink-IsOrdered id n.sinks o)
handle_all-IsOrdered (frame i p ∷ l) n c o =
    handle_all-IsOrdered l (net_eth_push i p n) c (net_eth_push-IsOrdered i p n o)

-- From `net_init` on, whatever frames come and whatever sinks are removed, and if a sink is added only while
-- it is not in the list: the sinks stand in the order of their scores, the highest first, and none is in the
-- list twice.
pub net_init-IsOrdered :
    (now : ℕ) (l : List Event)
    → IsProper l (net_init now)
    → IsOrdered (handle_all l (net_init now)).sinks
unfolding net_init IsOrdered
net_init-IsOrdered now l c = handle_all-IsOrdered l (net_init now) c tt
