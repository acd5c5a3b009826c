-- ===== src/Editor/Typing.antt =====
-- A line that is typed at `getline` of cli/cli.c, up to its end or up to the end of the buffer.
use gogoboot.Base.{
  ℕ, ◌+◌, ◌-◌, ◌≤◌, ◌<◌, ◌≡◌, refl, ap, ◌∙◌, true, false, not, ◌&&◌, ◌||◌, inl, inr, Bool-cases,
  Option, none, some, List, [], ◌∷◌, ◌++◌, arith, ltb, ◌==◌, if◌then◌else◌, length, take, get_or,
}
use gogoboot.Editor.{Line, key_pressed, ends_line, terminated, getline}
use gogoboot.Editor.Text.{
  text_after, edited, meaning, HasRoom, Holds, Holds-same, key_pressed-Holds, take-set_self,
  get_or-set_self,
}

-- What the editor gives back for a text.
abbrev pub IsTyped : List ℕ → Line → Type 0
IsTyped text r = (r.k ≡ length text) × (take r.k r.line ≡ text) × (get_or r.line r.k 0 ≡ 0)

HasRoom-now :
    (linesize : ℕ) (keys : List (Option ℕ)) (text : List ℕ)
    → HasRoom linesize keys text
    → length text + 1 < linesize
HasRoom-now linesize [] text h = h
HasRoom-now linesize (none ∷ keys) text h = h.0
HasRoom-now linesize (some ch ∷ keys) text h = h.0

module _ {linesize : ℕ} {text : List ℕ} {s : Line} (g : Holds linesize text s) where
  pub terminated-IsTyped : length text < linesize → IsTyped text (terminated s)
  terminated-IsTyped fits = (
    g.k_lem,
    take-set_self s.k s.line 0 ∙ g.text_lem,
    get_or-set_self s.k s.line 0 (omega (arith, g.k_lem, g.room, fits)),
  )

  -- A key that ends the line leaves the text.
  pub key_pressed-end :
      length text + 1 < linesize
      → (ch : ℕ) → ends_line ch ≡ true
      → Holds linesize text (key_pressed ch s)
  unfolding key_pressed
  key_pressed-end fits ch h =
      let control : not (ltb ch 32) && ltb ch 127 ≡ false = ground (arith, h) in
      let kept : (ch == 8) || (ch == 127) ≡ false = ground (arith, h) in
      let not_cleared : (ch == 24) ≡ false = ground (arith, h) in
      elim (Bool-cases ((ch == 13) || (ch == 10))) [
        | inl new ↦ rw (control, new) (Holds-same g fits (s.out ++ 10 ∷ []))
        | inr nul ↦ rw (control, nul, kept, not_cleared) (Holds-same g fits (s.out ++ 7 ∷ []))
      ]

getline-from :
    (linesize : ℕ) (keys : List (Option ℕ)) (ch : ℕ) (after : List (Option ℕ)) (text : List ℕ)
    (s : Line)
    → Holds linesize text s
    → HasRoom linesize keys text
    → ends_line ch ≡ true
    → (r : Line) × (getline linesize (keys ++ some ch ∷ after) s ≡ some (r, after))
      × IsTyped (text_after keys text) r
unfolding getline
getline-from linesize [] ch after text s g fits e =
    let s' = key_pressed ch s in
    (
      terminated s',
      ap
          (λ b.
            if not b && ltb s'.k (linesize - 1)
            then getline linesize after s'
            else some (terminated s', after))
          e,
      terminated-IsTyped (key_pressed-end g fits ch e) (omega (arith, fits)),
    )
getline-from linesize (none ∷ keys) ch after text s g fits e =
    let more : ltb s.k (linesize - 1) ≡ true = ground (arith, g.k_lem, fits.0) in
    let (r, got, good) = getline-from linesize keys ch after text s g fits.1 e in
    (
      r,
      ap
            (λ b.
              if b
              then getline linesize (keys ++ some ch ∷ after) s
              else some (terminated s, keys ++ some ch ∷ after))
            more
          ∙ got,
      good,
    )
getline-from linesize (some key ∷ keys) ch after text s g fits e =
    let s' = key_pressed key s in
    let g' = key_pressed-Holds g fits.0 key fits.1 in
    let more : not (ends_line key) && ltb s'.k (linesize - 1) ≡ true =
      ground
        (arith, g'.k_lem, HasRoom-now linesize keys (edited (meaning key) text) fits.2, fits.1) in
    let (r, got, good) =
      getline-from linesize keys ch after (edited (meaning key) text) s' g' fits.2 e in
    (
      r,
      ap
            (λ b.
              if b
              then getline linesize (keys ++ some ch ∷ after) s'
              else some (terminated s', keys ++ some ch ∷ after))
            more
          ∙ got,
      good,
    )

-- A text that is typed with room for it in the buffer, keys taken back included, is in the buffer, with a
-- NUL behind it, when a key ends the line, and what comes behind that key is left.
pub getline-text :
    (linesize : ℕ) (keys : List (Option ℕ)) (ch : ℕ) (after : List (Option ℕ)) (buffer out : List ℕ)
    → linesize ≤ length buffer
    → HasRoom linesize keys []
    → ends_line ch ≡ true
    → (r : Line) × (getline linesize
          (keys ++ some ch ∷ after)
          (record { line = buffer; k = 0; out = out })
        ≡ some (r, after))
      × (r.k ≡ length (text_after keys []))
      × (take r.k r.line ≡ text_after keys [])
      × (get_or r.line r.k 0 ≡ 0)
getline-text linesize keys ch after buffer out room fits e =
    let (r, got, typed) =
      getline-from linesize keys ch after [] (record { line = buffer; k = 0; out = out })
        (record { k_lem = refl; text_lem = refl; room = room }) fits e in
    (r, got, typed.0, typed.1, typed.2)
