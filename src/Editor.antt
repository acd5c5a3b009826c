-- ===== src/Editor.antt =====
-- The line editor of the command line, `getline` in cli/cli.c. What `uart_read_byte` gives in turn is a list:
-- `none` when no byte has come. What is written to the console is kept in order; `net_pump`, which is called
-- in every round, does not touch the line.
pub mod Text
pub mod Typing
pub mod Bounded
mod Tests
use gogoboot.Base.{
  ℕ, zero, suc, ◌+◌, ◌-◌, Bool, true, false, not, ◌&&◌, ◌||◌, Option, none, some, List, [], ◌∷◌,
  ◌++◌, ltb, ◌==◌, if◌then◌else◌, set,
}

-- The buffer, the number of bytes in it, and what has been written.
pub record Line : Type 0 where
  pub line : List ℕ
  pub k : ℕ
  pub out : List ℕ

abbrev pub rubout : List ℕ
rubout = 8 ∷ 32 ∷ 8 ∷ []

abbrev pub rubouts : ℕ → List ℕ
rubouts zero = []
rubouts (suc k) = rubout ++ rubouts k

-- What a byte does to the line.
unfoldable pub key_pressed : ℕ → Line → Line
key_pressed ch s =
    if not (ltb ch 32) && ltb ch 127
    then record { line = set s.line s.k ch; k = s.k + 1; out = s.out ++ ch ∷ [] }
    else if (ch == 13) || (ch == 10)
    then record s { out = s.out ++ 10 ∷ [] }
    else if ((ch == 8) || (ch == 127)) && ltb 0 s.k
    then record s { k = s.k - 1; out = s.out ++ rubout }
    else if ch == 24
    then record s { k = 0; out = s.out ++ rubouts s.k }
    else record s { out = s.out ++ 7 ∷ [] }

-- The value of `ch` behind the round: both line ends have become 0.
abbrev pub ends_line : ℕ → Bool
ends_line ch = (ch == 0) || ((ch == 13) || (ch == 10))

abbrev pub terminated : Line → Line
terminated s = record s { line = set s.line s.k 0 }

-- The loop, and the bytes that it has not read; `none` while it waits for more.
unfoldable pub getline : (linesize : ℕ) → List (Option ℕ) → Line → Option (Line × List (Option ℕ))
getline linesize [] s = none
getline linesize (none ∷ keys) s =
    let rest = getline linesize keys s in
    if ltb s.k (linesize - 1) then rest else some (terminated s, keys)
getline linesize (some ch ∷ keys) s =
    let s' = key_pressed ch s in
    let rest = getline linesize keys s' in
    if not (ends_line ch) && ltb s'.k (linesize - 1) then rest else some (terminated s', keys)
