-- ===== src/Tinyalloc/Unlink.antt =====
-- Taking a block out of a list: what the searches of `alloc_block` and `ta_free` find.
use mathlib.Core.Path.{subst}
use gogoboot.Base.{
  ℕ, suc, ◌+◌, ◌≡◌, refl, Bool, true, false, inl, inr, Bool-cases, Option, none, some, List, [],
  ◌∷◌, All, arith, length,
}
use gogoboot.Tinyalloc.{Block, unlink_first}
use gogoboot.Tinyalloc.Cover.{cover, covers}

-- The second list is the first without one occurrence of `b`.
pub data Unlinked (b : Block) : List Block → List Block → Type 0 where
  first : {l : List Block} → Unlinked b (b ∷ l) l
  later : {p : Block} {l l' : List Block} → Unlinked b l l' → Unlinked b (p ∷ l) (p ∷ l')

pub Unlinked-cover :
    {b : Block} {l l' : List Block} (a : ℕ) → Unlinked b l l' → cover a l ≡ covers b a + cover a l'
Unlinked-cover a first = refl
Unlinked-cover a (later u) = omega (arith, Unlinked-cover a u)

pub Unlinked-length : {b : Block} {l l' : List Block} → Unlinked b l l' → length l ≡ suc (length l')
Unlinked-length first = refl
Unlinked-length (later u) = omega (arith, Unlinked-length u)

module _ {ℓ} (P : Block → Type ℓ) where
  pub Unlinked-All : {b : Block} {l l' : List Block} → Unlinked b l l' → All P l → P b × All P l'
  Unlinked-All first h = h
  Unlinked-All (later u) h = let (hb, hl) = Unlinked-All u h.1 in (hb, (h.0, hl))

-- What `unlink_first` does: it fails if no block passes, and else takes a block that does.
pub data Search (test : Block → Bool) (l : List Block) : Option (Block × List Block) → Type 0 where
  absent : All (λ b. test b ≡ false) l → Search test l none
  found :
      {b : Block} {l' : List Block} → test b ≡ true → Unlinked b l l' → Search test l (some (b, l'))

Search-later :
    {test : Block → Bool} {l : List Block} {r : Option (Block × List Block)} (ptr : Block)
    → test ptr ≡ false
    → Search test l r
    → Search test (ptr ∷ l) (elim r [ none ↦ none | some (b, rest') ↦ some (b, ptr ∷ rest') ])
Search-later ptr miss (absent h) = absent (miss, h)
Search-later ptr miss (found t u) = found t (later u)

pub unlink_first-Search :
    (test : Block → Bool) (l : List Block) → Search test l (unlink_first test l)
unfolding unlink_first
unlink_first-Search test [] = absent tt
unlink_first-Search test (ptr ∷ l) = elim (Bool-cases (test ptr)) [
  | inl hit ↦ rw hit (found hit first)
  | inr miss ↦ rw miss (Search-later ptr miss (unlink_first-Search test l))
]

Search-some :
    {test : Block → Bool} {l l' : List Block} {b : Block}
    → Search test l (some (b, l'))
    → (test b ≡ true) × Unlinked b l l'
Search-some (found t u) = (t, u)

pub unlink_first-some :
    (test : Block → Bool) (l : List Block) (b : Block) (l' : List Block)
    → unlink_first test l ≡ some (b, l')
    → (test b ≡ true) × Unlinked b l l'
unlink_first-some test l b l' e =
    Search-some (subst (λ r. Search test l r) e (unlink_first-Search test l))

pub unlink_first-skip :
    (test : Block → Bool) (c : Block) (l : List Block) (b : Block) (l' : List Block)
    → test c ≡ false
    → unlink_first test l ≡ some (b, l')
    → unlink_first test (c ∷ l) ≡ some (b, c ∷ l')
unfolding unlink_first
unlink_first-skip test c l b l' miss e = rw (miss, e)
