-- ===== src/Sink/Deliver.antt =====
-- A received packet goes to the most specific sink that matches it.
use mathlib.Core.Path.{subst}
use gogoboot.Base.{
  ℕ, zero, suc, ◌≤◌, ◌≡◌, ◌≢◌, ◌⊎◌, refl, sym, ap, ◌∙◌, true, false, inl, inr, Bool-cases,
  Option-cases, none, some, List, [], ◌∷◌, ◌++◌, arith, All, get_elem?,
}
use gogoboot.Sink.{Sink, Packet, score_sink, sink_matches, enqueue, push_behind, deliver}
use gogoboot.Sink.Order.{IsOrdered}

All-get_elem? :
    (P : Sink → Type 0) (l : List Sink) (i : ℕ) (t : Sink) → All P l → get_elem? l i ≡ some t → P t
All-get_elem? P [] i t a e = absurd (cc e)
All-get_elem? P (s ∷ l) zero t (p, a) e = let same : s ≡ t = cc e in rw (← same) p
All-get_elem? P (s ∷ l) (suc i) t (p, a) e = All-get_elem? P l i t a e

pub deliver-hit :
    (ip : ℕ) (p : Packet) (s : Sink) (l : List Sink)
    → sink_matches ip p s ≡ true
    → deliver ip p (s ∷ l) ≡ some (enqueue p s ∷ l)
unfolding deliver
deliver-hit ip p s l h = rw h

pub deliver-miss :
    (ip : ℕ) (p : Packet) (s : Sink) (l : List Sink)
    → sink_matches ip p s ≡ false
    → deliver ip p (s ∷ l) ≡ push_behind s (deliver ip p l)
unfolding deliver
deliver-miss ip p s l h = rw h

-- If a sink of the ordered list matches a packet, one that matches it and is at least as specific gets it,
-- and nothing else changes.
pub deliver_best :
    (ip : ℕ) (p : Packet) (sinks : List Sink) (i : ℕ) (t : Sink)
    → IsOrdered sinks
    → get_elem? sinks i ≡ some t
    → sink_matches ip p t ≡ true
    → (before : List Sink) × (s : Sink) × (after : List Sink) × (sinks ≡ before ++ s ∷ after)
      × (deliver ip p sinks ≡ some (before ++ enqueue p s ∷ after))
      × (sink_matches ip p s ≡ true)
      × (score_sink t ≤ score_sink s)
unfolding IsOrdered
deliver_best ip p [] i t o e m = absurd (cc e)
deliver_best ip p (s ∷ l) zero t o e m =
    let same : s ≡ t = cc e in
    let hit : sink_matches ip p s ≡ true = rw same m in
    ([], s, l, refl, deliver-hit ip p s l hit, hit, rw same (omega arith))
deliver_best ip p (s ∷ l) (suc i) t (below, apart, o) e m =
    elim (Bool-cases (sink_matches ip p s)) [
      | inl hit ↦ (
        [],
        s,
        l,
        refl,
        deliver-hit ip p s l hit,
        hit,
        All-get_elem? (λ x. score_sink x ≤ score_sink s) l i t below e,
      )
      | inr miss ↦
          let (before, x, after, split, got, hit, best) = deliver_best ip p l i t o e m in
          (
            s ∷ before,
            x,
            after,
            ap (λ (r : List Sink). s ∷ r) split,
            deliver-miss ip p s l miss ∙ ap (λ r. push_behind s r) got,
            hit,
            best,
          )
    ]

-- A packet that no sink matches is not delivered.
pub deliver-none :
    (ip : ℕ) (p : Packet) (sinks : List Sink)
    → All (λ s. sink_matches ip p s ≡ false) sinks
    → deliver ip p sinks ≡ none
unfolding deliver
deliver-none ip p [] a = refl
deliver-none ip p (s ∷ l) (h, a) =
    deliver-miss ip p s l h ∙ ap (λ r. push_behind s r) (deliver-none ip p l a)

-- What a delivery did to the first sink and to the others.
deliver_inv :
    (ip : ℕ) (p : Packet) (s : Sink) (l sinks' : List Sink)
    → deliver ip p (s ∷ l) ≡ some sinks'
    → (sinks' ≡ enqueue p s ∷ l)
      ⊎ ((l' : List Sink) × (deliver ip p l ≡ some l') × (sinks' ≡ s ∷ l'))
deliver_inv ip p s l sinks' e = elim (Bool-cases (sink_matches ip p s)) [
  | inl hit ↦ inl (sym (some_inj (sym (deliver-hit ip p s l hit) ∙ e)))
  | inr miss ↦ elim (Option-cases (deliver ip p l)) [
    | inl h ↦
        let no_sink : none ≡ some sinks' =
          sym (deliver-miss ip p s l miss ∙ ap (λ r. push_behind s r) h) ∙ e in
        absurd (cc no_sink)
    | inr (l', h) ↦
        inr (
          l',
          h,
          sym (some_inj (sym (deliver-miss ip p s l miss ∙ ap (λ r. push_behind s r) h) ∙ e)),
        )
  ]
]
  where
    some_inj : {a b : List Sink} → some a ≡ some b → a ≡ b
    some_inj h = cc h

not_delivered : (ip : ℕ) (p : Packet) (sinks' : List Sink) → deliver ip p [] ≢ some sinks'
unfolding deliver
not_delivered ip p sinks' e = let no_sink : none ≡ some sinks' = e in cc no_sink

-- A delivery changes neither the scores nor the addresses of sinks.
All-deliver :
    (P : Sink → Type 0) (ip : ℕ) (p : Packet) (sinks sinks' : List Sink)
    → ((s : Sink) → P s → P (enqueue p s))
    → All P sinks
    → deliver ip p sinks ≡ some sinks'
    → All P sinks'
All-deliver P ip p [] sinks' f a e = absurd (not_delivered ip p sinks' e)
All-deliver P ip p (s ∷ l) sinks' f (h, a) e = elim (deliver_inv ip p s l sinks' e) [
  | inl q ↦ subst (All P) (sym q) (f s h, a)
  | inr (l', d, q) ↦ subst (All P) (sym q) (h, All-deliver P ip p l l' f a d)
]

pub deliver-IsOrdered :
    (ip : ℕ) (p : Packet) (sinks sinks' : List Sink)
    → IsOrdered sinks
    → deliver ip p sinks ≡ some sinks'
    → IsOrdered sinks'
unfolding IsOrdered score_sink
deliver-IsOrdered ip p [] sinks' o e = absurd (not_delivered ip p sinks' e)
deliver-IsOrdered ip p (s ∷ l) sinks' (below, apart, o) e = elim (deliver_inv ip p s l sinks' e) [
  | inl q ↦ subst IsOrdered (sym q) (below, apart, o)
  | inr (l', d, q) ↦ subst IsOrdered (sym q) (
    All-deliver (λ t. score_sink t ≤ score_sink s) ip p l l' (λ t h. h) below d,
    All-deliver (λ t. t.id ≢ s.id) ip p l l' (λ t h. h) apart d,
    deliver-IsOrdered ip p l l' o d,
  )
]
