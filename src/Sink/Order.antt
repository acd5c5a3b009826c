-- ===== src/Sink/Order.antt =====
-- The list of sinks of net/net.c keeps the most specific sinks first.
use gogoboot.Base.{ℕ, ◌≤◌, ◌≢◌, sym, if-elim, List, [], ◌∷◌, arith, ◌==◌, leb, All, All-mono}
use gogoboot.Sink.{
  Sink, score_sink, insert_sink, has_next, net_add_packet_sink, net_remove_packet_sink,
}

-- Scores fall along the list, and no sink is in it twice.
unfoldable pub IsOrdered : List Sink → Type 0
IsOrdered [] = Unit
IsOrdered (s ∷ rest) =
    All (λ t. score_sink t ≤ score_sink s) rest × All (λ t. t.id ≢ s.id) rest × IsOrdered rest

module _ (P : Sink → Type 0) where
  All-insert_sink : (s : Sink) (l : List Sink) → P s → All P l → All P (insert_sink s l)
  unfolding insert_sink
  All-insert_sink s [] p a = (p, tt)
  All-insert_sink s (e ∷ l) p (q, a) =
      if-elim (All P) (leb (score_sink e) (score_sink s)) (λ _. (p, (q, a)))
        (λ _. (q, All-insert_sink s l p a))

  All-remove : (id : ℕ) (l : List Sink) → All P l → All P (net_remove_packet_sink id l)
  unfolding net_remove_packet_sink
  All-remove id [] a = tt
  All-remove id (e ∷ l) (q, a) = if-elim (All P) (e.id == id) (λ _. a) (λ _. (q, All-remove id l a))

IsOrdered-insert_sink :
    (s : Sink) (l : List Sink)
    → All (λ t. t.id ≢ s.id) l
    → IsOrdered l
    → IsOrdered (insert_sink s l)
unfolding insert_sink IsOrdered
IsOrdered-insert_sink s [] a o = (tt, tt, tt)
IsOrdered-insert_sink s (e ∷ l) (ne, a) (below, apart, o) =
    if-elim IsOrdered (leb (score_sink e) (score_sink s))
      (λ le.
        let e_le : score_sink e ≤ score_sink s = ground (arith, le) in
        (
          (e_le, All-mono l (λ t (h : score_sink t ≤ score_sink e). omega (arith, h, e_le)) below),
          (ne, a),
          (below, apart, o),
        ))
      (λ gt. (
        All-insert_sink (λ t. score_sink t ≤ score_sink e) s l (ground (arith, gt)) below,
        All-insert_sink (λ t. t.id ≢ e.id) s l (λ q. ne (sym q)) apart,
        IsOrdered-insert_sink s l a o,
      ))

pub net_remove_packet_sink-IsOrdered :
    (id : ℕ) (l : List Sink) → IsOrdered l → IsOrdered (net_remove_packet_sink id l)
unfolding net_remove_packet_sink IsOrdered
net_remove_packet_sink-IsOrdered id [] o = tt
net_remove_packet_sink-IsOrdered id (e ∷ l) (below, apart, o) =
    if-elim IsOrdered (e.id == id) (λ _. o)
      (λ _. (
        All-remove (λ t. score_sink t ≤ score_sink e) id l below,
        All-remove (λ t. t.id ≢ e.id) id l apart,
        net_remove_packet_sink-IsOrdered id l o,
      ))

pub net_add_packet_sink-IsOrdered :
    (s : Sink) (l : List Sink)
    → All (λ t. t.id ≢ s.id) l
    → IsOrdered l
    → IsOrdered (net_add_packet_sink s l)
unfolding net_add_packet_sink
net_add_packet_sink-IsOrdered s l a o =
    if-elim IsOrdered (has_next s.id l) (λ _. o) (λ _. IsOrdered-insert_sink s l a o)
