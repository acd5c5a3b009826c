-- ===== src/Editor/Tests.antt =====
-- The theorems about the line editor for a line that is typed.
use gogoboot.Base.{
  ℕ, ◌<◌, ◌≡◌, refl, Option, none, some, List, [], ◌∷◌, ◌++◌, arith, replicate, take, get_or, All,
}
use gogoboot.Editor.{Line, getline}
use gogoboot.Editor.Text.{IsPrintable}
use gogoboot.Editor.Typing.{getline-text}
use gogoboot.Editor.Bounded.{getline-bounded}

-- "lx", the x taken back, a wait, "s", and behind the end of the line the next one's first byte.
abbrev keys : List (Option ℕ)
keys = some 108 ∷ some 120 ∷ some 8 ∷ none ∷ some 115 ∷ []

abbrev buffer : List ℕ
buffer = replicate 8 0

getline-text_example :
    (r : Line) × (getline 8
        (keys ++ some 13 ∷ some 100 ∷ [])
        (record { line = buffer; k = 0; out = [] })
      ≡ some (r, some 100 ∷ []))
    × (r.k ≡ 2)
    × (take r.k r.line ≡ 108 ∷ 115 ∷ [])
    × (get_or r.line r.k 0 ≡ 0)
getline-text_example =
    getline-text 8 keys 13 (some 100 ∷ []) buffer [] (omega arith)
      (
        omega arith,
        refl,
        (omega arith, refl, (omega arith, refl, (omega arith, (omega arith, refl, omega arith)))),
      )
      refl

-- More than the buffer takes: the line ends before its end is typed.
getline-bounded_example :
    (r : Line) × (rest : List (Option ℕ)) × (getline 4
        (keys ++ some 116 ∷ some 117 ∷ some 10 ∷ [])
        (record { line = buffer; k = 0; out = [] })
      ≡ some (r, rest))
    × (r.k < 4)
    × (All IsPrintable (take r.k r.line))
    × (get_or r.line r.k 0 ≡ 0)
getline-bounded_example =
    getline-bounded 4 (keys ++ some 116 ∷ some 117 ∷ []) 10 [] buffer [] (omega arith) (omega arith)
      refl
