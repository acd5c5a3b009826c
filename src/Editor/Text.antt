-- ===== src/Editor/Text.antt =====
-- What the line editor of cli/cli.c leaves in its buffer is the text that was typed and not taken back.
use gogoboot.Base.{
  ℕ, zero, suc, ◌+◌, ◌-◌, ◌≤◌, ◌<◌, ◌≡◌, refl, ap, ◌∙◌, false, not, ◌&&◌, ◌||◌, inl, inr,
  Bool-cases, Option, none, some, List, [], ◌∷◌, ◌++◌, arith, ltb, ◌==◌, if◌then◌else◌, length,
  length-append, length-set, set, take, get_or,
}
use mathlib.Core.Path.{subst}
use gogoboot.Editor.{Line, rubout, rubouts, key_pressed, ends_line}

-- A text as an editor changes it: the last byte goes, or all of them.
abbrev pub drop_last : List ℕ → List ℕ
drop_last [] = []
drop_last (c ∷ []) = []
drop_last (c ∷ d ∷ l) = c ∷ drop_last (d ∷ l)

abbrev pub IsPrintable : ℕ → Type 0
IsPrintable c = (32 ≤ c) × (c < 127)

pub data Edit : Type 0 where
  typed : ℕ → Edit
  taken_back : Edit
  cleared : Edit
  ignored : Edit

-- What a key stands for.
abbrev pub meaning : ℕ → Edit
meaning ch =
    if not (ltb ch 32) && ltb ch 127
    then typed ch
    else if (ch == 8) || (ch == 127)
    then taken_back
    else if ch == 24
    then cleared
    else ignored

abbrev pub edited : Edit → List ℕ → List ℕ
edited (typed c) text = text ++ c ∷ []
edited taken_back text = drop_last text
edited cleared text = []
edited ignored text = text

-- The text after keys of which none ends the line.
abbrev pub text_after : List (Option ℕ) → List ℕ → List ℕ
text_after [] text = text
text_after (none ∷ keys) text = text_after keys text
text_after (some ch ∷ keys) text = text_after keys (edited (meaning ch) text)

-- None of the keys ends the line, and the text always leaves a byte of room for one more.
abbrev pub HasRoom : (linesize : ℕ) → List (Option ℕ) → List ℕ → Type 0
HasRoom linesize [] text = length text + 1 < linesize
HasRoom linesize (none ∷ keys) text = (length text + 1 < linesize) × HasRoom linesize keys text
HasRoom linesize (some ch ∷ keys) text =
    (length text + 1 < linesize)
    × (ends_line ch ≡ false)
    × HasRoom linesize keys (edited (meaning ch) text)

take-set :
    (n : ℕ) (l : List ℕ) (v : ℕ) → n < length l → take (n + 1) (set l n v) ≡ take n l ++ v ∷ []
take-set n [] v h = absurd (omega (arith, h))
take-set zero (x ∷ l) v h = refl
take-set (suc n) (x ∷ l) v h =
    let e : suc n + 1 ≡ suc (n + 1) = omega arith in
    rw e (ap (λ t. x ∷ t) (take-set n l v (omega (arith, h))))

pub take-set_self : (n : ℕ) (l : List ℕ) (v : ℕ) → take n (set l n v) ≡ take n l
take-set_self zero l v = refl
take-set_self (suc n) [] v = refl
take-set_self (suc n) (x ∷ l) v = ap (λ t. x ∷ t) (take-set_self n l v)

take-drop_last : (n : ℕ) (l : List ℕ) → n < length l → take n l ≡ drop_last (take (suc n) l)
take-drop_last n [] h = absurd (omega (arith, h))
take-drop_last zero (x ∷ l) h = refl
take-drop_last (suc n) (x ∷ []) h = absurd (omega (arith, h))
take-drop_last (suc n) (x ∷ y ∷ l) h = ap (λ t. x ∷ t) (take-drop_last n (y ∷ l) (omega (arith, h)))

pub length-drop_last : (l : List ℕ) → length (drop_last l) ≡ length l - 1
length-drop_last [] = omega arith
length-drop_last (c ∷ []) = omega arith
length-drop_last (c ∷ d ∷ l) = omega (arith, length-drop_last (d ∷ l))

pub get_or-set_self : (n : ℕ) (l : List ℕ) (v : ℕ) → n < length l → get_or (set l n v) n 0 ≡ v
get_or-set_self n [] v h = absurd (omega (arith, h))
get_or-set_self zero (x ∷ l) v h = refl
get_or-set_self (suc n) (x ∷ l) v h = get_or-set_self n l v (omega (arith, h))

drop_last-short : (l : List ℕ) → length l ≡ 0 → l ≡ drop_last l
drop_last-short [] h = refl
drop_last-short (c ∷ l) h = absurd (omega (arith, h))

-- The buffer holds the text.
pub record Holds (linesize : ℕ) (text : List ℕ) (s : Line) : Type 0 where
  pub k_lem : s.k ≡ length text
  pub text_lem : take s.k s.line ≡ text
  pub room : linesize ≤ length s.line

module _ {linesize : ℕ} {text : List ℕ} {s : Line} (g : Holds linesize text s)
    (fits : length text + 1 < linesize) where
  Holds-typed :
      (ch : ℕ) (out : List ℕ)
      → Holds linesize
          (text ++ ch ∷ [])
          (record { line = set s.line s.k ch; k = s.k + 1; out = out })
  Holds-typed ch out = record {
    k_lem = omega (arith, length-append text (ch ∷ []), g.k_lem);
    text_lem =
        take-set s.k s.line ch (omega (arith, g.k_lem, g.room, fits))
        ∙ ap (λ t. t ++ ch ∷ []) g.text_lem;
    room = omega (arith, length-set s.line s.k ch, g.room);
  }

  Holds-taken :
      (out : List ℕ)
      → 0 < s.k
      → Holds linesize (drop_last text) (record { line = s.line; k = s.k - 1; out = out })
  Holds-taken out some' =
      let e : suc (s.k - 1) ≡ s.k = omega (arith, some') in
      record {
        k_lem = omega (arith, length-drop_last text, g.k_lem, some');
        text_lem =
            take-drop_last (s.k - 1) s.line (omega (arith, g.k_lem, g.room, fits, some'))
            ∙ ap (λ n. drop_last (take n s.line)) e
            ∙ ap drop_last g.text_lem;
        room = g.room;
      }

  Holds-emptied : (out : List ℕ) → Holds linesize [] (record { line = s.line; k = 0; out = out })
  Holds-emptied out = record { k_lem = refl; text_lem = refl; room = g.room }

  pub Holds-same :
      (out : List ℕ) → Holds linesize text (record { line = s.line; k = s.k; out = out })
  Holds-same out = record { k_lem = g.k_lem; text_lem = g.text_lem; room = g.room }

  pub key_pressed-Holds :
      (ch : ℕ) → ends_line ch ≡ false → Holds linesize (edited (meaning ch) text) (key_pressed ch s)
  unfolding key_pressed
  key_pressed-Holds ch h =
      let line_end : (ch == 13) || (ch == 10) ≡ false = ground (arith, h) in
      elim (Bool-cases (not (ltb ch 32) && ltb ch 127)) [
        | inl printable ↦ rw printable (Holds-typed ch (s.out ++ ch ∷ []))
        | inr control ↦ elim (Bool-cases ((ch == 8) || (ch == 127))) [
          | inl back ↦ elim (Bool-cases (ltb 0 s.k)) [
            | inl some' ↦
                rw (control, line_end, back, some')
                  (Holds-taken (s.out ++ rubout) (ground (arith, some')))
            | inr nothing ↦
                let not_cleared : (ch == 24) ≡ false = ground (arith, back) in
                rw (control, line_end, back, nothing, not_cleared)
                  (subst
                    (λ t.
                      Holds linesize t (record { line = s.line; k = s.k; out = s.out ++ 7 ∷ [] }))
                    (drop_last-short text (ground (arith, nothing, g.k_lem)))
                    (Holds-same (s.out ++ 7 ∷ [])))
          ]
          | inr other ↦ elim (Bool-cases (ch == 24)) [
            | inl clear ↦
                rw (control, line_end, other, clear) (Holds-emptied (s.out ++ rubouts s.k))
            | inr beep ↦ rw (control, line_end, other, beep) (Holds-same (s.out ++ 7 ∷ []))
          ]
        ]
      ]

-- The keys up to the end of the line leave the buffer with the text that they stand for.
