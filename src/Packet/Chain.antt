-- ===== src/Packet/Chain.antt =====
-- What a queue of net/packet.c stands for: the packets along its chain.
use gogoboot.Base.{
  ℕ, ◌≡◌, ◌≢◌, refl, sym, ◌∙◌, inl, inr, Bool-cases, List, [], ◌∷◌, ◌++◌, arith, ◌==◌, All,
  All-append,
}
use gogoboot.Packet.{Next, set_next, Queue, clear_next}

abbrev pub Avoids : ℕ → List ℕ → Type 0
Avoids p xs = All (λ y. y ≢ p) xs

-- From `p` on, the chain leads through the distinct packets `xs` to NULL.
abbrev pub IsChain : Next → ℕ → List ℕ → Type 0
IsChain next p [] = p ≡ 0
IsChain next p (x ∷ xs) = (p ≡ x) × (x ≢ 0) × Avoids x xs × IsChain next (next x) xs

abbrev pub last_of : List ℕ → ℕ
last_of [] = 0
last_of (x ∷ []) = x
last_of (x ∷ y ∷ xs) = last_of (y ∷ xs)

-- The queue holds these packets, the head first.
abbrev pub Holds : Queue → List ℕ → Type 0
Holds q xs = IsChain q.next q.head xs × (q.tail ≡ last_of xs)

pub set_next_self : (p v : ℕ) (next : Next) → set_next p v next p ≡ v
set_next_self p v next = ground arith

pub set_next_other : (p v a : ℕ) (next : Next) → a ≢ p → set_next p v next a ≡ next a
set_next_other p v a next h = ground (arith, h)

-- A chain does not notice a change elsewhere.
pub IsChain-set_next :
    (p v a : ℕ) (next : Next) (xs : List ℕ)
    → Avoids a xs
    → IsChain next p xs
    → IsChain (set_next a v next) p xs
IsChain-set_next p v a next [] h c = c
IsChain-set_next p v a next (x ∷ xs) (ne, h) (e, z, d, c) =
    (e, z, d, rw (set_next_other a v x next ne) (IsChain-set_next (next x) v a next xs h c))

Avoids-last_of : (p : ℕ) (x : ℕ) (xs : List ℕ) → Avoids p (x ∷ xs) → last_of (x ∷ xs) ≢ p
Avoids-last_of p x [] (h, _) = h
Avoids-last_of p x (y ∷ xs) (h, a) = Avoids-last_of p y xs a

pub last_of-ne-zero :
    (next : Next) (p x : ℕ) (xs : List ℕ) → IsChain next p (x ∷ xs) → last_of (x ∷ xs) ≢ 0
last_of-ne-zero next p x [] (e, z, d, c) = z
last_of-ne-zero next p x (y ∷ xs) (e, z, d, c) = last_of-ne-zero next (next x) y xs c

pub last_of-append : (x p : ℕ) (xs : List ℕ) → last_of ((x ∷ xs) ++ p ∷ []) ≡ p
last_of-append x p [] = refl
last_of-append x p (y ∷ xs) = last_of-append y p xs

-- A packet is linked behind the last one.
pub IsChain-append :
    (next : Next) (p h x : ℕ) (xs : List ℕ)
    → p ≢ 0
    → next p ≡ 0
    → Avoids p (x ∷ xs)
    → IsChain next h (x ∷ xs)
    → IsChain (set_next (last_of (x ∷ xs)) p next) h ((x ∷ xs) ++ p ∷ [])
IsChain-append next p h x [] pz np (ne, _) (e, z, d, c) = (
  e,
  z,
  ((λ q. ne (sym q)), tt),
  (set_next_self x p next, pz, tt, set_next_other x p p next (λ q. ne (sym q)) ∙ np),
)
IsChain-append next p h x (y ∷ xs) pz np (ne, a) (e, z, d, c) =
    let last = last_of (y ∷ xs) in
    let skips : set_next last p next x ≡ next x =
      set_next_other last p x next (λ q. Avoids-last_of x y xs d (sym q)) in
    (
      e,
      z,
      All-append (λ w. w ≢ x) (y ∷ xs) (p ∷ []) d ((λ q. ne (sym q)), tt),
      rw skips (IsChain-append next p (next x) y xs pz np a c),
    )

pub clear_next_self : (p : ℕ) (next : Next) → clear_next p next p ≡ 0
unfolding clear_next
clear_next_self p next = elim (Bool-cases (next p == 0)) [
  | inl e ↦ rw e (ground (arith, e))
  | inr e ↦ rw e (set_next_self p 0 next)
]

pub IsChain-clear_next :
    (p a : ℕ) (next : Next) (xs : List ℕ)
    → Avoids a xs
    → IsChain next p xs
    → IsChain (clear_next a next) p xs
unfolding clear_next
IsChain-clear_next p a next xs h c = elim (Bool-cases (next a == 0)) [
  | inl e ↦ rw e c
  | inr e ↦ rw e (IsChain-set_next p 0 a next xs h c)
]
