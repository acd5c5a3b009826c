-- ===== src/Checksum/Sum.antt =====
-- The loops of net/ipcsum.c against arithmetic: the sum of the words, and its remainder by 65535.
use gogoboot.Base.{
  ltb, ◌&&◌, Bool, true, Bool-cases, inl, inr, drop, ℕ, zero, suc, ◌+◌, ◌-◌, ◌*◌, ◌/◌, ◌%◌, ◌≤◌,
  ◌<◌, ◌≡◌, refl, ap, ◌∙◌, some, List, [], ◌∷◌, arith, ◌==◌, if◌then◌else◌, length, get_or, All,
}
use Prim.Native.Nat.{bit_and}
use gogoboot.Base.Bits.{bit_and-shifted_mask, bit_and-low_mask}
use gogoboot.Timer.{word}
use gogoboot.Checksum.{checksum_update, fold_carries, checksum_complete, complement, set_word}

-- The sum of the words.
unfoldable pub word_sum : List ℕ → ℕ
word_sum [] = 0
word_sum (b ∷ []) = b * 256
word_sum (b ∷ c ∷ rest) = b * 256 + c + word_sum rest

abbrev pub IsByte : ℕ → Type 0
IsByte b = b < 256

pub word_sum_le : (l : List ℕ) → All IsByte l → word_sum l ≤ 65535 * ((length l + 1) / 2)
unfolding word_sum
word_sum_le [] a = omega arith
word_sum_le (b ∷ []) (p, _) = omega (arith, p)
word_sum_le (b ∷ c ∷ l) (p, (q, a)) = omega (arith, p, q, word_sum_le l a)

high_byte : (b : ℕ) → b < 256 → bit_and (b * 256) 0xff00 ≡ b * 256
high_byte b h =
    let whole : b * 256 / 256 ≡ b = omega arith in
    let low : bit_and (b * 256 / 256) 255 ≡ b = rw whole (omega (arith, bit_and-low_mask 8 b, h)) in
    omega (arith, bit_and-shifted_mask 8 255 (b * 256), low)

pub checksum_update_lem :
    (sum : ℕ) (l : List ℕ)
    → All IsByte l
    → sum < word
    → checksum_update sum l ≡ (sum + word_sum l) % word
unfolding word_sum checksum_update
checksum_update_lem s [] a h = omega (arith, h)
checksum_update_lem s (b ∷ []) (p, _) h = ap (λ (x : ℕ). (s + x) % word) (high_byte b p)
checksum_update_lem s (b ∷ c ∷ l) (p, (q, a)) h =
    omega (arith, h, checksum_update_lem ((s + (b * 256 + c)) % word) l a (omega arith))

-- The remainder by 65535, with 65535 in place of 0 unless the sum is 0 itself.
abbrev pub folded : ℕ → ℕ
folded sum = if sum == 0 then 0 else (sum - 1) % 65535 + 1

-- The loop of `checksum_complete` ends within three tests for every sum of 32 bits, with its
-- remainder by 65535, or 65535 where that is 0 and the sum is not.
pub fold_carries-folded : (sum : ℕ) → sum < word → fold_carries 3 sum ≡ some (folded sum)
unfolding fold_carries
fold_carries-folded s h = ground (arith, h)

pub checksum_complete_lem :
    (sum : ℕ) → sum < word → checksum_complete sum ≡ some (65535 - folded sum)
unfolding checksum_complete
checksum_complete_lem s h =
    let low : (word - 1 - folded s) % 65536 ≡ 65535 - folded s = ground arith in
    ap complement (fold_carries-folded s h) ∙ ap (λ (x : ℕ). some x) low

pub word_sum-set_word :
    (i v : ℕ) (l : List ℕ)
    → 2 * i + 2 ≤ length l
    → v < 65536
    → word_sum (set_word i v l) ≡ word_sum (set_word i 0 l) + v
unfolding word_sum set_word
word_sum-set_word i v [] h w = omega (arith, h)
word_sum-set_word i v (b ∷ []) h w = omega (arith, h)
word_sum-set_word zero v (b ∷ c ∷ l) h w = omega (arith, w)
word_sum-set_word (suc i) v (b ∷ c ∷ l) h w =
    omega (arith, word_sum-set_word i v l (omega (arith, h)) w)

pub length-set_word : (i v : ℕ) (l : List ℕ) → length (set_word i v l) ≡ length l
unfolding set_word
length-set_word i v [] = refl
length-set_word i v (b ∷ []) = refl
length-set_word zero v (b ∷ c ∷ l) = refl
length-set_word (suc i) v (b ∷ c ∷ l) = omega (arith, length-set_word i v l)

pub All-set_word : (i v : ℕ) (l : List ℕ) → v < 65536 → All IsByte l → All IsByte (set_word i v l)
unfolding set_word
All-set_word i v [] w a = a
All-set_word i v (b ∷ []) w a = a
All-set_word zero v (b ∷ c ∷ l) w (p, (q, a)) = (omega (arith, w), (omega arith, a))
All-set_word (suc i) v (b ∷ c ∷ l) w (p, (q, a)) = (p, (q, All-set_word i v l w a))

pub set_word-twice : (i v w : ℕ) (l : List ℕ) → set_word i v (set_word i w l) ≡ set_word i v l
unfolding set_word
set_word-twice i v w [] = refl
set_word-twice i v w (b ∷ []) = refl
set_word-twice zero v w (b ∷ c ∷ l) = refl
set_word-twice (suc i) v w (b ∷ c ∷ l) = ap (λ (r : List ℕ). b ∷ c ∷ r) (set_word-twice i v w l)

-- The bytes before the word are as they were, and the word is the one that was stored.
pub get_or-set_word :
    (i v k : ℕ) (l : List ℕ) → k < 2 * i → get_or (set_word i v l) k 0 ≡ get_or l k 0
unfolding set_word
get_or-set_word i v k [] h = refl
get_or-set_word i v k (b ∷ []) h = refl
get_or-set_word zero v k (b ∷ c ∷ l) h = absurd (omega (arith, h))
get_or-set_word (suc i) v zero (b ∷ c ∷ l) h = refl
get_or-set_word (suc i) v (suc zero) (b ∷ c ∷ l) h = refl
get_or-set_word (suc i) v (suc (suc k)) (b ∷ c ∷ l) h = get_or-set_word i v k l (omega (arith, h))

pub get_or-set_word_behind :
    (i v k : ℕ) (l : List ℕ) → 2 * i + 2 ≤ k → get_or (set_word i v l) k 0 ≡ get_or l k 0
unfolding set_word
get_or-set_word_behind i v k [] h = refl
get_or-set_word_behind i v k (b ∷ []) h = refl
get_or-set_word_behind zero v zero (b ∷ c ∷ l) h = absurd (omega (arith, h))
get_or-set_word_behind zero v (suc zero) (b ∷ c ∷ l) h = absurd (omega (arith, h))
get_or-set_word_behind zero v (suc (suc k)) (b ∷ c ∷ l) h = refl
get_or-set_word_behind (suc i) v zero (b ∷ c ∷ l) h = absurd (omega (arith, h))
get_or-set_word_behind (suc i) v (suc zero) (b ∷ c ∷ l) h = absurd (omega (arith, h))
get_or-set_word_behind (suc i) v (suc (suc k)) (b ∷ c ∷ l) h =
    get_or-set_word_behind i v k l (omega (arith, h))

pub get_or-stored :
    (v : ℕ) (l : List ℕ)
    → 8 ≤ length l
    → get_or (set_word 3 v l) 6 0 * 256 + get_or (set_word 3 v l) 7 0 ≡ v
unfolding set_word
get_or-stored v [] h = absurd (omega (arith, h))
get_or-stored v (a ∷ []) h = absurd (omega (arith, h))
get_or-stored v (a ∷ b ∷ []) h = absurd (omega (arith, h))
get_or-stored v (a ∷ b ∷ c ∷ []) h = absurd (omega (arith, h))
get_or-stored v (a ∷ b ∷ c ∷ d ∷ []) h = absurd (omega (arith, h))
get_or-stored v (a ∷ b ∷ c ∷ d ∷ e ∷ []) h = absurd (omega (arith, h))
get_or-stored v (a ∷ b ∷ c ∷ d ∷ e ∷ f ∷ []) h = absurd (omega (arith, h))
get_or-stored v (a ∷ b ∷ c ∷ d ∷ e ∷ f ∷ g ∷ []) h = absurd (omega (arith, h))
get_or-stored v (a ∷ b ∷ c ∷ d ∷ e ∷ f ∷ g ∷ i ∷ l) h = omega arith

pub drop-set_word : (i v n : ℕ) (l : List ℕ) → 2 * i + 2 ≤ n → drop n (set_word i v l) ≡ drop n l
unfolding set_word
drop-set_word i v n [] h = refl
drop-set_word i v n (b ∷ []) h = refl
drop-set_word zero v zero (b ∷ c ∷ l) h = absurd (omega (arith, h))
drop-set_word zero v (suc zero) (b ∷ c ∷ l) h = absurd (omega (arith, h))
drop-set_word zero v (suc (suc n)) (b ∷ c ∷ l) h = refl
drop-set_word (suc i) v zero (b ∷ c ∷ l) h = absurd (omega (arith, h))
drop-set_word (suc i) v (suc zero) (b ∷ c ∷ l) h = absurd (omega (arith, h))
drop-set_word (suc i) v (suc (suc n)) (b ∷ c ∷ l) h = drop-set_word i v n l (omega (arith, h))

-- Whether all items are bytes, by a test.
unfoldable pub all_bytes : List ℕ → Bool
all_bytes [] = true
all_bytes (b ∷ l) = ltb b 256 && all_bytes l

pub all_bytes_lem : (l : List ℕ) → all_bytes l ≡ true → All IsByte l
unfolding all_bytes
all_bytes_lem [] h = tt
all_bytes_lem (b ∷ l) h = elim (Bool-cases (ltb b 256)) [
  | inl e ↦ (ground (arith, e), all_bytes_lem l (rw (← h) (rw e)))
  | inr e ↦ absurd (ground (arith, e, h))
]
