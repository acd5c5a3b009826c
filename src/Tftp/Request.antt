-- ===== src/Tftp/Request.antt =====
-- The request of net/tftp.c that opens a transfer.
pub mod Tsize
use gogoboot.Base.{
  ℕ, zero, suc, ◌+◌, ◌*◌, ◌/◌, ◌%◌, Bool, true, false, List, [], ◌∷◌, ◌++◌, ltb, leb, ◌==◌,
  if◌then◌else◌, length,
}
use gogoboot.Tftp.{Transfer, Message, request}

abbrev pub maxopt : ℕ
maxopt = 1400

-- The names of the mode and of the options.
abbrev pub octet : List ℕ
octet = 111 ∷ 99 ∷ 116 ∷ 101 ∷ 116 ∷ []

abbrev pub rollover : List ℕ
rollover = 114 ∷ 111 ∷ 108 ∷ 108 ∷ 111 ∷ 118 ∷ 101 ∷ 114 ∷ []

abbrev pub tsize : List ℕ
tsize = 116 ∷ 115 ∷ 105 ∷ 122 ∷ 101 ∷ []

abbrev pub blksize : List ℕ
blksize = 98 ∷ 108 ∷ 107 ∷ 115 ∷ 105 ∷ 122 ∷ 101 ∷ []

abbrev pub windowsize : List ℕ
windowsize = 119 ∷ 105 ∷ 110 ∷ 100 ∷ 111 ∷ 119 ∷ 115 ∷ 105 ∷ 122 ∷ 101 ∷ []

-- The bytes of the options up to the offset. Too long a string sets the offset back to 0.
pub options_append : List ℕ → List ℕ → List ℕ
options_append options extra =
    if leb maxopt (length extra + 1 + length options) then [] else options ++ extra ++ 0 ∷ []

-- The loop that prints a number, from its last digit on.
pub decimal : ℕ → ℕ → List ℕ → List ℕ
decimal zero n t = t
decimal (suc fuel) n t =
    let more = decimal fuel (n / 10) ((n % 10 + 48) ∷ t) in
    if n / 10 == 0 then (n % 10 + 48) ∷ t else more

-- A word has 10 digits at most.
abbrev pub digits_max : ℕ
digits_max = 10

-- For a receive buffer of that many bytes.
pub requested_window : Bool → ℕ → ℕ
requested_window is_put rxbuffer_size =
    let size = if is_put then 8 else rxbuffer_size / (256 * 5) in
    if ltb 8 size then 8 else if ltb size 1 then 1 else size

pub create_request : ℕ → Transfer → Message
create_request rxbuffer_size t =
    let zero_digit = 48 ∷ [] in
    let named = options_append (options_append [] t.tftp_filename) octet in
    let rolling = options_append (options_append named rollover) zero_digit in
    let sized =
      options_append (options_append rolling tsize)
        (if t.is_put then decimal digits_max t.total_size [] else zero_digit) in
    let blocked = options_append (options_append sized blksize) (49 ∷ 48 ∷ 50 ∷ 52 ∷ []) in
    request t.is_put (
      options_append (options_append blocked windowsize)
        ((48 + requested_window t.is_put rxbuffer_size) ∷ []))
