-- ===== src/Checksum/Verify.antt =====
-- An IPv4 header or ICMP message whose checksum net/ipcsum.c has computed passes its verification.
use gogoboot.Base.{
  ℕ, zero, suc, ◌+◌, ◌-◌, ◌*◌, ◌≤◌, ◌<◌, ◌≡◌, refl, sym, ap, ◌/◌, ◌%◌, ◌++◌, ◌∙◌, true, some, List,
  [], ◌∷◌, arith, length, length-take, take, drop, All,
}
use gogoboot.Timer.{word}
use gogoboot.Checksum.{
  checksum_update, checksum_complete, checksum_compute, set_word, net_compute_ipv4_checksum,
  net_verify_ipv4_checksum, net_compute_icmp_checksum, net_verify_icmp_checksum, icmp_length,
}
use gogoboot.Checksum.Sum.{
  word_sum, IsByte, word_sum_le, checksum_update_lem, folded, checksum_complete_lem,
  word_sum-set_word, length-set_word, All-set_word, set_word-twice,
}

-- The checksum of bytes that are not too many for 32 bits.
pub checksum_compute_lem :
    (l : List ℕ)
    → All IsByte l
    → length l < 65536
    → checksum_compute l ≡ some (65535 - folded (word_sum l))
unfolding checksum_compute
checksum_compute_lem l a h =
    let le : word_sum l < word = omega (arith, word_sum_le l a, h) in
    let sum : checksum_update 0 l ≡ word_sum l =
      omega (arith, checksum_update_lem 0 l a (omega arith), le) in
    ap checksum_complete sum ∙ checksum_complete_lem (word_sum l) le

-- What was added to the sum makes it a multiple of 65535, but not zero.
pub folded_complement : (sum : ℕ) → folded (sum + (65535 - folded sum)) ≡ 65535
folded_complement sum = ground arith

pub take-set_word :
    (i v n : ℕ) (l : List ℕ) → 2 * i + 2 ≤ n → take n (set_word i v l) ≡ set_word i v (take n l)
unfolding set_word
take-set_word i v zero l h = absurd (omega (arith, h))
take-set_word i v (suc zero) l h = absurd (omega (arith, h))
take-set_word i v (suc (suc n)) [] h = refl
take-set_word i v (suc (suc n)) (b ∷ []) h = refl
take-set_word zero v (suc (suc n)) (b ∷ c ∷ l) h = refl
take-set_word (suc i) v (suc (suc n)) (b ∷ c ∷ l) h =
    ap (λ (r : List ℕ). b ∷ c ∷ r) (take-set_word i v n l (omega (arith, h)))

pub All-take : (n : ℕ) (l : List ℕ) → All IsByte l → All IsByte (take n l)
All-take zero l a = tt
All-take (suc n) [] a = tt
All-take (suc n) (b ∷ l) (p, a) = (p, All-take n l a)

pub All-drop : (n : ℕ) (l : List ℕ) → All IsByte l → All IsByte (drop n l)
All-drop zero l a = a
All-drop (suc n) [] a = tt
All-drop (suc n) (b ∷ l) (p, a) = All-drop n l a

-- The words with their checksum in one of them sum up to a checksum of zero.
checksum_compute-set_word :
    (i : ℕ) (l : List ℕ)
    → All IsByte l
    → length l < 65536
    → 2 * i + 2 ≤ length l
    → checksum_compute (set_word i (65535 - folded (word_sum (set_word i 0 l))) l) ≡ some 0
checksum_compute-set_word i l a h k =
    let rest = word_sum (set_word i 0 l) in
    let cs = 65535 - folded rest in
    let all : All IsByte (set_word i cs l) = All-set_word i cs l (omega arith) a in
    let sum : word_sum (set_word i cs l) ≡ rest + cs = word_sum-set_word i cs l k (omega arith) in
    checksum_compute_lem (set_word i cs l) all (omega (arith, h, length-set_word i cs l))
    ∙ ap (λ (x : ℕ). some (65535 - x)) (ap (λ (x : ℕ). folded x) sum ∙ folded_complement rest)

-- What the checksum of the first `n` bytes is, with the word at `i` for it.
word_checksum : ℕ → ℕ → List ℕ → ℕ
word_checksum i n l = 65535 - folded (word_sum (set_word i 0 (take n l)))

checksum_compute-cleared :
    (i n : ℕ) (l : List ℕ)
    → All IsByte l
    → 2 * i + 2 ≤ n
    → n < 65536
    → checksum_compute (take n (set_word i 0 l)) ≡ some (word_checksum i n l)
unfolding word_checksum
checksum_compute-cleared i n l a h w =
    let all : All IsByte (set_word i 0 (take n l)) =
      All-set_word i 0 (take n l) (omega arith) (All-take n l a) in
    let short : length (set_word i 0 (take n l)) < 65536 =
      omega (arith, w, length-set_word i 0 (take n l), length-take n l) in
    ap checksum_compute (take-set_word i 0 n l h)
    ∙ checksum_compute_lem (set_word i 0 (take n l)) all short

checksum_compute-filled :
    (i n : ℕ) (l : List ℕ)
    → All IsByte l
    → 2 * i + 2 ≤ n
    → n < 65536
    → n ≤ length l
    → checksum_compute (take n (set_word i (word_checksum i n l) l)) ≡ some 0
unfolding word_checksum
checksum_compute-filled i n l a h w k =
    ap checksum_compute (take-set_word i (word_checksum i n l) n l h)
    ∙ checksum_compute-set_word i (take n l) (All-take n l a) (omega (arith, w, length-take n l))
        (omega (arith, h, k, length-take n l))

word_checksum-lt : (i n : ℕ) (l : List ℕ) → word_checksum i n l < 65536
unfolding word_checksum
word_checksum-lt i n l = omega arith

-- The header with the checksum that is stored in it.
net_compute_ipv4_checksum-header :
    (ipv4 : List ℕ)
    → All IsByte ipv4
    → 20 ≤ length ipv4
    → (cs : ℕ) × (cs < 65536)
      × (net_compute_ipv4_checksum ipv4 ≡ some (set_word 5 cs ipv4))
      × (net_verify_ipv4_checksum (set_word 5 cs ipv4) ≡ some true)
      × (checksum_compute (take 20 (set_word 5 cs ipv4)) ≡ some 0)
unfolding net_compute_ipv4_checksum net_verify_ipv4_checksum
net_compute_ipv4_checksum-header ipv4 a h =
    let cs = word_checksum 5 20 ipv4 in
    (
      cs,
      word_checksum-lt 5 20 ipv4,
      rw
          (
            net_compute_ipv4_checksum,
            checksum_compute-cleared 5 20 ipv4 a (omega arith) (omega arith),
          )
          (ap (λ (l : List ℕ). some l) (set_word-twice 5 cs 0 ipv4)),
      rw (
        net_verify_ipv4_checksum,
        checksum_compute-filled 5 20 ipv4 a (omega arith) (omega arith) h,
      ),
      checksum_compute-filled 5 20 ipv4 a (omega arith) (omega arith) h,
    )

pub net_compute_ipv4_checksum-set_word :
    (ipv4 : List ℕ)
    → All IsByte ipv4
    → 20 ≤ length ipv4
    → (cs : ℕ) × (cs < 65536)
      × (net_compute_ipv4_checksum ipv4 ≡ some (set_word 5 cs ipv4))
      × (net_verify_ipv4_checksum (set_word 5 cs ipv4) ≡ some true)
net_compute_ipv4_checksum-set_word ipv4 a h =
    let (cs, small, computed, verified, zero') = net_compute_ipv4_checksum-header ipv4 a h in
    (cs, small, computed, verified)

set_word-split :
    (i v : ℕ) (l : List ℕ)
    → 2 * i + 2 ≤ length l
    → set_word i v l ≡ take (2 * i) l ++ v / 256 ∷ v % 256 ∷ drop (2 * i + 2) l
unfolding set_word
set_word-split i v [] h = absurd (omega (arith, h))
set_word-split i v (b ∷ []) h = absurd (omega (arith, h))
set_word-split zero v (b ∷ c ∷ l) h = refl
set_word-split (suc i) v (b ∷ c ∷ l) h =
    let p : 2 * suc i ≡ suc (suc (2 * i)) = omega arith in
    let q : suc (suc (2 * i)) + 2 ≡ suc (suc (2 * i + 2)) = omega arith in
    rw (p, q) (ap (λ (r : List ℕ). b ∷ c ∷ r) (set_word-split i v l (omega (arith, h))))

-- A header that passes the verification has words that add up to a multiple of 65535.
verified-word_sum :
    (l : List ℕ)
    → All IsByte l
    → length l < 65536
    → checksum_compute l ≡ some 0
    → (word_sum l % 65535 ≡ 0) × (0 < word_sum l)
verified-word_sum l a h v =
    let e : some (65535 - folded (word_sum l)) ≡ some 0 = sym (checksum_compute_lem l a h) ∙ v in
    let zero' : 65535 - folded (word_sum l) ≡ 0 = cc e in ground (arith, zero')

-- In an IPv4 header of at least 20 bytes the checksum replaces bytes 10 and 11 and nothing else; with it the
-- words of the header add up to a multiple of 65535 that is not 0, as in ones' complement they must, and the
-- header passes the verification.
pub net_verify-net_compute_ipv4_checksum :
    (ipv4 : List ℕ)
    → All IsByte ipv4
    → 20 ≤ length ipv4
    → (cs : ℕ) × (filled : List ℕ) × (cs < 65536)
      × (filled ≡ take 10 ipv4 ++ cs / 256 ∷ cs % 256 ∷ drop 12 ipv4)
      × (net_compute_ipv4_checksum ipv4 ≡ some filled)
      × (word_sum (take 20 filled) % 65535 ≡ 0)
      × (0 < word_sum (take 20 filled))
      × (net_verify_ipv4_checksum filled ≡ some true)
net_verify-net_compute_ipv4_checksum ipv4 a h =
    let (cs, small, computed, verified, zero') = net_compute_ipv4_checksum-header ipv4 a h in
    let filled = set_word 5 cs ipv4 in
    let (multiple, some') =
      verified-word_sum (take 20 filled) (All-take 20 filled (All-set_word 5 cs ipv4 small a))
        (omega (arith, length-take 20 filled)) zero' in
    (
      cs,
      filled,
      small,
      set_word-split 5 cs ipv4 (omega (arith, h)),
      computed,
      multiple,
      some',
      verified,
    )

-- The checksum of an ICMP message of at least 4 bytes can be computed, and the message then passes the
-- verification.
pub net_compute_icmp_checksum-set_word :
    (ip_length : ℕ) (icmp : List ℕ)
    → All IsByte icmp
    → 24 ≤ ip_length
    → ip_length < 65536
    → ip_length ≤ length icmp + 20
    → (cs : ℕ) × (cs < 65536)
      × (net_compute_icmp_checksum ip_length icmp ≡ some (set_word 1 cs icmp))
      × (net_verify_icmp_checksum ip_length (set_word 1 cs icmp) ≡ some true)
unfolding net_compute_icmp_checksum net_verify_icmp_checksum
net_compute_icmp_checksum-set_word n icmp a h w k =
    let cs = word_checksum 1 (icmp_length n) icmp in
    (
      cs,
      word_checksum-lt 1 (icmp_length n) icmp,
      rw
          (
            net_compute_icmp_checksum,
            checksum_compute-cleared 1 (icmp_length n) icmp a (omega (arith, h, w))
                (omega (arith, h, w)),
          )
          (ap (λ (l : List ℕ). some l) (set_word-twice 1 cs 0 icmp)),
      rw (
        net_verify_icmp_checksum,
        checksum_compute-filled 1 (icmp_length n) icmp a (omega (arith, h, w)) (omega (arith, h, w))
            (omega (arith, h, w, k)),
      ),
    )
