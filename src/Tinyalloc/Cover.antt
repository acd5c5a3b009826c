-- ===== src/Tinyalloc/Cover.antt =====
-- Which addresses the blocks of a list cover, and what inserting a block does to it.
use gogoboot.Base.{
  ℕ, suc, ◌+◌, ◌≤◌, ◌<◌, ◌≡◌, refl, ◌&&◌, inl, inr, Bool-cases, List, [], ◌∷◌, ◌++◌, All, arith,
  ltb, leb, if◌then◌else◌, length,
}
use gogoboot.Tinyalloc.{Block, insert_block}

-- 1 if the address lies in the interval, else 0.
abbrev pub within : ℕ → ℕ → ℕ → ℕ
within from to a = if leb from a && ltb a to then 1 else 0

abbrev pub covers : Block → ℕ → ℕ
covers b a = within b.addr (b.addr + b.size) a

-- How many blocks of the list hold the address.
abbrev pub cover : ℕ → List Block → ℕ
cover a [] = 0
cover a (b ∷ bs) = covers b a + cover a bs

-- The block is not empty, and ends at or below the address `top`.
abbrev pub IsSound : ℕ → Block → Type 0
IsSound top b = (0 < b.size) × (b.addr + b.size ≤ top)

pub cover-append : (a : ℕ) (xs ys : List Block) → cover a (xs ++ ys) ≡ cover a xs + cover a ys
cover-append a [] ys = omega arith
cover-append a (x ∷ xs) ys = omega (arith, cover-append a xs ys)

pub cover-insert :
    (a : ℕ) (b : Block) (l : List Block) → cover a (insert_block b l) ≡ covers b a + cover a l
unfolding insert_block
cover-insert a b [] = refl
cover-insert a b (p ∷ l) = elim (Bool-cases (leb b.addr p.addr)) [
  | inl le ↦ rw le
  | inr gt ↦ rw gt (omega (arith, cover-insert a b l))
]

pub All-insert {ℓ} :
    (P : Block → Type ℓ) (b : Block) (l : List Block) → P b → All P l → All P (insert_block b l)
unfolding insert_block
All-insert P b [] h k = (h, k)
All-insert P b (p ∷ l) h k = elim (Bool-cases (leb b.addr p.addr)) [
  | inl le ↦ rw le (h, k)
  | inr gt ↦ rw gt (k.0, All-insert P b l h k.1)
]

pub length-insert : (b : Block) (l : List Block) → length (insert_block b l) ≡ suc (length l)
unfolding insert_block
length-insert b [] = refl
length-insert b (p ∷ l) = elim (Bool-cases (leb b.addr p.addr)) [
  | inl le ↦ rw le
  | inr gt ↦ rw gt (omega (arith, length-insert b l))
]
