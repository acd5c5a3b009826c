-- ===== src/Strtoul.antt =====
-- The reading of numbers in lib/strtoul.c. A string is the list of the bytes from its address on, its NUL
-- and what follows included; behind the list bytes read as NUL. The results are the value, `errno`, and
-- the bytes from the end pointer on.
pub mod Decimal
use gogoboot.Base.{
  ℕ, zero, suc, ◌+◌, ◌-◌, ◌*◌, ◌/◌, ◌%◌, Bool, true, false, ◌&&◌, ◌||◌, List, [], ◌∷◌, ltb, leb,
  ◌==◌, if◌then◌else◌, drop, get_or,
}
use gogoboot.Timer.{word}

-- `RUB`, which is no digit.
abbrev pub rub : ℕ
rub = 0xff

abbrev pub ulong_max : ℕ
ulong_max = 0xffffffff

unfoldable pub isspace : ℕ → Bool
isspace c = (c == 32) || ((c == 9) || ((c == 10) || ((c == 13) || ((c == 12) || (c == 11)))))

unfoldable pub ndigit : ℕ → ℕ
ndigit c =
    if leb 48 c && leb c 57
    then c - 48
    else if leb 65 c && leb c 90
    then c - 55
    else if leb 97 c && leb c 122
    then c - 87
    else rub

unfoldable pub skip_spaces : List ℕ → List ℕ
skip_spaces [] = []
skip_spaces (c ∷ l) = if isspace c then skip_spaces l else c ∷ l

-- The radix, the first digit and what follows it.
pub detect_radix : ℕ → List ℕ → ℕ × ℕ × List ℕ
detect_radix radix l =
    let digit = ndigit (get_or l 0 0) in
    if radix == 0
    then if digit == 0
      then if ndigit (get_or l 1 0) == 33
        then (16, ndigit (get_or l 2 0), drop 3 l)
        else (8, digit, drop 1 l)
      else (10, digit, drop 1 l)
    else if (radix == 16) && ((digit == 0) && (ndigit (get_or l 1 0) == 33))
    then (radix, digit, drop 2 l)
    else (radix, digit, drop 1 l)

-- A digit of the radix with which the value stays below 2^32.
abbrev pub fits : ℕ → ℕ → ℕ → Bool
fits radix value digit =
    ltb digit radix
    && (ltb value (ulong_max / radix)
        || ((value == ulong_max / radix) && leb digit (ulong_max % radix)))

-- The loop over the digits. A digit that does not fit clears the value, and the byte behind it is skipped.
pub read_digits : ℕ → ℕ → ℕ → List ℕ → ℕ × ℕ × List ℕ
read_digits radix value errno [] = (value, errno, [])
read_digits radix value errno (c ∷ []) =
    if ndigit c == rub
    then (value, errno, c ∷ [])
    else if fits radix value (ndigit c)
    then (value * radix + ndigit c, errno, [])
    else (0, 1, [])
read_digits radix value errno (c ∷ next ∷ l) =
    let accepted = read_digits radix (value * radix + ndigit c) errno (next ∷ l) in
    let skipped = read_digits radix 0 1 l in
    if ndigit c == rub
    then (value, errno, c ∷ next ∷ l)
    else if fits radix value (ndigit c)
    then accepted
    else skipped

abbrev is_minus : List ℕ → Bool
is_minus l = get_or l 0 0 == 45

abbrev skip_sign : List ℕ → List ℕ
skip_sign l = if is_minus l || (get_or l 0 0 == 43) then drop 1 l else l

abbrev pub negated : ℕ → ℕ
negated value = (word - value) % word

-- Behind the detection of the radix; `start` is the string as it was given.
pub read_number : Bool → List ℕ → ℕ × ℕ × List ℕ → ℕ × ℕ × List ℕ
read_number minus start (radix, digit, l) =
    let (value, errno, end) = read_digits radix digit 0 l in
    if leb radix digit then (0, 1, start) else (if minus then negated value else value, errno, end)

pub strtoul : ℕ → List ℕ → ℕ × ℕ × List ℕ
strtoul radix start =
    let l = skip_spaces start in read_number (is_minus l) start (detect_radix radix (skip_sign l))

pub strtol : ℕ → List ℕ → ℕ × ℕ × List ℕ
strtol radix start =
    let (number, errno, end) = strtoul radix start in
    (if is_minus (skip_spaces start) then negated number else number, errno, end)

pub atoi : List ℕ → ℕ
atoi l = (strtoul 0 l).0
