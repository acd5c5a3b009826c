-- ===== src/Editor/Bounded.antt =====
-- Whatever is typed at `getline` of cli/cli.c, the line stays within the buffer.
use mathlib.Core.Path.{subst}
use gogoboot.Base.{
  ℕ, ◌+◌, ◌-◌, ◌≤◌, ◌<◌, ◌≡◌, refl, sym, ap, ◌∙◌, Bool, true, not, ◌&&◌, ◌||◌, inl, inr, Bool-cases,
  Option, none, some, List, [], ◌∷◌, ◌++◌, arith, ltb, ◌==◌, if◌then◌else◌, All, All-append, length,
  length-append, take, get_or,
}
use gogoboot.Editor.{Line, key_pressed, ends_line, terminated, getline}
use gogoboot.Editor.Text.{
  IsPrintable, edited, meaning, drop_last, length-drop_last, Holds, key_pressed-Holds,
}
use gogoboot.Editor.Typing.{terminated-IsTyped, key_pressed-end}

drop_last-IsPrintable : (l : List ℕ) → All IsPrintable l → All IsPrintable (drop_last l)
drop_last-IsPrintable [] h = tt
drop_last-IsPrintable (c ∷ []) h = tt
drop_last-IsPrintable (c ∷ d ∷ l) h = (h.0, drop_last-IsPrintable (d ∷ l) h.1)

edited-IsPrintable :
    (ch : ℕ) (text : List ℕ)
    → All IsPrintable text
    → (All IsPrintable (edited (meaning ch) text))
      × (length (edited (meaning ch) text) ≤ length text + 1)
edited-IsPrintable ch text h = elim (Bool-cases (not (ltb ch 32) && ltb ch 127)) [
  | inl printable ↦ rw printable (
    All-append IsPrintable text (ch ∷ []) h
        ((ground (arith, printable), ground (arith, printable)), tt),
    omega (arith, length-append text (ch ∷ [])),
  )
  | inr control ↦ elim (Bool-cases ((ch == 8) || (ch == 127))) [
    | inl back ↦
        rw (control, back) (drop_last-IsPrintable text h, omega (arith, length-drop_last text))
    | inr other ↦ elim (Bool-cases (ch == 24)) [
      | inl clear ↦ rw (control, other, clear) (tt, omega arith)
      | inr beep ↦ rw (control, other, beep) (h, omega arith)
    ]
  ]
]

-- A line that the buffer holds.
abbrev IsBounded : (linesize : ℕ) → Line → Type 0
IsBounded linesize r =
    (r.k < linesize) × (All IsPrintable (take r.k r.line)) × (get_or r.line r.k 0 ≡ 0)

terminated-IsBounded :
    (linesize : ℕ) (text : List ℕ) (s : Line)
    → Holds linesize text s
    → All IsPrintable text
    → length text < linesize
    → IsBounded linesize (terminated s)
terminated-IsBounded linesize text s g p h =
    let (count, same, nul) = terminated-IsTyped g h in
    (omega (arith, count, h), subst (λ t. All IsPrintable t) (sym same) p, nul)

getline-IsBounded_from :
    (linesize : ℕ) (before : List (Option ℕ)) (ch : ℕ) (after : List (Option ℕ)) (text : List ℕ)
    (s : Line)
    → Holds linesize text s
    → All IsPrintable text
    → length text + 1 < linesize
    → ends_line ch ≡ true
    → (r : Line) × (rest : List (Option ℕ)) × (getline linesize (before ++ some ch ∷ after) s
        ≡ some (r, rest))
      × IsBounded linesize r
unfolding getline
getline-IsBounded_from linesize [] ch after text s g p h e =
    let s' = key_pressed ch s in
    (
      terminated s',
      after,
      ap
          (λ b.
            if not b && ltb s'.k (linesize - 1)
            then getline linesize after s'
            else some (terminated s', after))
          e,
      terminated-IsBounded linesize text s' (key_pressed-end g h ch e) p (omega (arith, h)),
    )
getline-IsBounded_from linesize (none ∷ before) ch after text s g p h e =
    let more : ltb s.k (linesize - 1) ≡ true = ground (arith, g.k_lem, h) in
    let (r, rest, got, good) = getline-IsBounded_from linesize before ch after text s g p h e in
    (
      r,
      rest,
      ap
            (λ b.
              if b
              then getline linesize (before ++ some ch ∷ after) s
              else some (terminated s, before ++ some ch ∷ after))
            more
          ∙ got,
      good,
    )
getline-IsBounded_from linesize (some key ∷ before) ch after text s g p h e =
    let s' = key_pressed key s in
    let keys = before ++ some ch ∷ after in
    let round = λ (b : Bool). if b then getline linesize keys s' else some (terminated s', keys) in
    let (p', longer) = edited-IsPrintable key text p in
    elim (Bool-cases (ends_line key)) [
      | inl last ↦ (
        terminated s',
        keys,
        ap (λ b. round (not b && ltb s'.k (linesize - 1))) last,
        terminated-IsBounded linesize text s' (key_pressed-end g h key last) p (omega (arith, h)),
      )
      | inr more ↦
          let g' = key_pressed-Holds g h key more in
          elim (Bool-cases (ltb s'.k (linesize - 1))) [
            | inl fits ↦
                let (r, rest, got, good) =
                  getline-IsBounded_from linesize before ch after (edited (meaning key) text) s' g'
                    p' (ground (arith, g'.k_lem, fits)) e in
                (
                  r,
                  rest,
                  ap (λ b. round (not b && ltb s'.k (linesize - 1))) more ∙ ap round fits ∙ got,
                  good,
                )
            | inr full ↦ (
              terminated s',
              keys,
              ap (λ b. round (not b && ltb s'.k (linesize - 1))) more ∙ ap round full,
              terminated-IsBounded linesize (edited (meaning key) text) s' g' p'
                  (omega (arith, longer, h)),
            )
          ]
    ]

-- Whatever keys are pressed, once one of them ends a line there is a line: its bytes are printable, and they
-- and the NUL behind them are within the first `linesize` bytes of the buffer.
pub getline-bounded :
    (linesize : ℕ) (before : List (Option ℕ)) (ch : ℕ) (after : List (Option ℕ))
    (buffer out : List ℕ)
    → linesize ≤ length buffer
    → 1 < linesize
    → ends_line ch ≡ true
    → (r : Line) × (rest : List (Option ℕ)) × (getline linesize
          (before ++ some ch ∷ after)
          (record { line = buffer; k = 0; out = out })
        ≡ some (r, rest))
      × (r.k < linesize)
      × (All IsPrintable (take r.k r.line))
      × (get_or r.line r.k 0 ≡ 0)
getline-bounded linesize before ch after buffer out room two e =
    let (r, rest, got, good) =
      getline-IsBounded_from linesize before ch after []
        (record { line = buffer; k = 0; out = out })
        (record { k_lem = refl; text_lem = refl; room = room }) tt (omega (arith, two)) e in
    (r, rest, got, good.0, good.1, good.2)
