-- ===== src/Ipv4/Address.antt =====
-- `net_parse_ipv4` of net/ipv4.c: the reading of an address in dotted decimals.
use gogoboot.Base.{
  ℕ, suc, ◌+◌, ◌-◌, ◌*◌, ◌%◌, ◌<◌, ◌≡◌, refl, ap, ◌∙◌, false, not, ◌&&◌, ◌||◌, List, ◌∷◌, ◌++◌,
  arith, ltb, ◌==◌, if◌then◌else◌, All, drop, get_or,
}
use gogoboot.Timer.{word}
use gogoboot.Strtoul.{rub, ndigit, strtoul}
use gogoboot.Strtoul.Decimal.{IsDigit, digits_value, strtoul-digits}
use gogoboot.Ipv4.{parse_octets, net_parse_ipv4}

-- A number below 256 in decimal digits, leading zeros allowed.
pub data IsOctet (v : ℕ) : List ℕ → Type 0 where
  octet :
      (c : ℕ) (ds : List ℕ)
      → IsDigit c
      → All IsDigit ds
      → digits_value (c - 48) ds ≡ v
      → v < 256
      → IsOctet v (c ∷ ds)

IsOctet-lt : {v : ℕ} {t : List ℕ} → IsOctet v t → v < 256
IsOctet-lt (octet c ds d ds' same small) = small

-- What a round does with the number that it has read.
abbrev after_octet : (left i result : ℕ) → ℕ × ℕ × List ℕ → ℕ
after_octet left i result r =
    if ltb 255 r.0 || (ltb i 3 && not (get_or r.2 0 0 == 46))
    then 0
    else parse_octets left (i + 1) ((result * 256 + r.0) % word) (drop 1 r.2)

parse_octets-octet :
    (left i result v e : ℕ) (t l : List ℕ)
    → IsOctet v t
    → ndigit e ≡ rub
    → (i < 3 → e ≡ 46)
    → parse_octets (suc left) i result (t ++ e ∷ l)
      ≡ parse_octets left (i + 1) ((result * 256 + v) % word) l
unfolding parse_octets
parse_octets-octet left i result v e _ l (octet c ds d ds' same small) ne dot =
    let read : strtoul 10 (c ∷ ds ++ e ∷ l) ≡ (digits_value (c - 48) ds, 0, e ∷ l) =
      strtoul-digits c ds e l d ds' ne (omega (arith, same, small)) in
    let fine : ltb 255 v || (ltb i 3 && not (e == 46)) ≡ false = ground (arith, small, dot) in
    ap (after_octet left i result) read
    ∙ ap (λ n. after_octet left i result (n, 0, e ∷ l)) same
    ∙ ap (λ b. if b then 0 else parse_octets left (i + 1) ((result * 256 + v) % word) l) fine

-- Four numbers below 256 with a dot between two, up to a byte that is no digit, are read as the address
-- with these four bytes.
pub net_parse_ipv4-dotted :
    (a b c d e : ℕ) (ta tb tc td l : List ℕ)
    → IsOctet a ta
    → IsOctet b tb
    → IsOctet c tc
    → IsOctet d td
    → ndigit e ≡ rub
    → net_parse_ipv4 (ta ++ 46 ∷ (tb ++ 46 ∷ (tc ++ 46 ∷ (td ++ e ∷ l))))
      ≡ ((a * 256 + b) * 256 + c) * 256 + d
unfolding net_parse_ipv4 parse_octets ndigit
net_parse_ipv4-dotted a b c d e ta tb tc td l oa ob oc od ne =
    parse_octets-octet 3 0 0 a 46 ta (tb ++ 46 ∷ (tc ++ 46 ∷ (td ++ e ∷ l))) oa refl (λ _. refl)
    ∙ parse_octets-octet 2 1 _ b 46 tb (tc ++ 46 ∷ (td ++ e ∷ l)) ob refl (λ _. refl)
    ∙ parse_octets-octet 1 2 _ c 46 tc (td ++ e ∷ l) oc refl (λ _. refl)
    ∙ parse_octets-octet 0 3 _ d e td l od ne (λ h. absurd (omega (arith, h)))
    ∙ omega (arith, IsOctet-lt oa, IsOctet-lt ob, IsOctet-lt oc, IsOctet-lt od)
