-- ===== src/Command/Words.antt =====
-- The arguments of a command line of cli/cli.c come out as they were written.
use gogoboot.Base.{
  ℕ, zero, suc, ◌≤◌, ◌≡◌, refl, ap, ◌∙◌, false, ◌||◌, some, List, [], ◌∷◌, ◌++◌, arith, ◌==◌,
  if◌then◌else◌, length, map, All,
}
use gogoboot.Strtoul.{isspace, skip_spaces}
use gogoboot.Command.{
  maxarg, execute_cmd, scan_quoted, scan_word, one_arg, next_arg, put_first, pass_arg, split_line,
}

-- An argument as it is written: as it is, or in double quotes.
pub data Argument : Type 0 where
  plain : List ℕ → Argument
  quoted : List ℕ → Argument

abbrev pub text : Argument → List ℕ
text (plain w) = w
text (quoted w) = w

-- Without spaces and with no quote at its start, or without double quotes; only a quoted one may be empty.
abbrev pub IsArgument : Argument → Type 0
IsArgument (plain []) = ⊥
IsArgument (plain (c ∷ w)) =
    (((c == 34) || (c == 39)) ≡ false) × All (λ x. isspace x ≡ false) (c ∷ w)
IsArgument (quoted w) = All (λ x. x == 34 ≡ false) w

-- A space behind each argument.
unfoldable pub line : List Argument → List ℕ
line [] = []
line (plain w ∷ l) = w ++ 32 ∷ line l
line (quoted w ∷ l) = 34 ∷ w ++ 34 ∷ 32 ∷ line l

scan_word-plain : (w l : List ℕ) → All (λ x. isspace x ≡ false) w → scan_word (w ++ 32 ∷ l) ≡ (w, l)
unfolding scan_word isspace
scan_word-plain [] l a = refl
scan_word-plain (c ∷ w) l (p, a) =
    let rest = scan_word-plain w l a in
    ap
      (λ b.
        if b
        then ([], w ++ 32 ∷ l)
        else (c ∷ (scan_word (w ++ 32 ∷ l)).0, (scan_word (w ++ 32 ∷ l)).1))
      p
    ∙ ap (λ r. (c ∷ r.0, r.1)) rest

scan_quoted-quoted :
    (w l : List ℕ) → All (λ x. x == 34 ≡ false) w → scan_quoted 34 (w ++ 34 ∷ l) ≡ some (w, l)
unfolding scan_quoted
scan_quoted-quoted [] l a = refl
scan_quoted-quoted (c ∷ w) l (p, a) = let rest = scan_quoted-quoted w l a in rw (p, rest)

split_line-nil : (room : ℕ) → split_line room [] ≡ some []
unfolding split_line
split_line-nil zero = refl
split_line-nil (suc room) = refl

split_line-space : (room : ℕ) (l : List ℕ) → split_line room (32 ∷ l) ≡ split_line room l
unfolding split_line skip_spaces isspace next_arg
split_line-space zero l = refl
split_line-space (suc room) [] = split_line-nil room
split_line-space (suc room) (c ∷ l) = refl

skip_spaces-word : (c : ℕ) (l : List ℕ) → isspace c ≡ false → skip_spaces (c ∷ l) ≡ c ∷ l
unfolding skip_spaces
skip_spaces-word c l p = ap (λ b. if b then skip_spaces l else c ∷ l) p

next_arg-plain :
    (c : ℕ) (w l : List ℕ)
    → IsArgument (plain (c ∷ w))
    → next_arg (c ∷ w ++ 32 ∷ l) ≡ some ((c ∷ w) ∷ [], l)
unfolding next_arg
next_arg-plain c w l (q, a) =
    ap
      (λ b.
        if b
        then one_arg (scan_quoted c (w ++ 32 ∷ l))
        else one_arg (some (scan_word (c ∷ w ++ 32 ∷ l))))
      q
    ∙ ap (λ r. one_arg (some r)) (scan_word-plain (c ∷ w) l a)

split_line-plain :
    (room c : ℕ) (w l : List ℕ)
    → IsArgument (plain (c ∷ w))
    → split_line (suc room) (c ∷ w ++ 32 ∷ l) ≡ put_first ((c ∷ w) ∷ []) (split_line room l)
unfolding split_line
split_line-plain room c w l (q, (p, a)) =
    ap (λ x. pass_arg (next_arg x) (split_line room)) (skip_spaces-word c (w ++ 32 ∷ l) p)
    ∙ ap (λ r. pass_arg r (split_line room)) (next_arg-plain c w l (q, (p, a)))

split_line-quoted :
    (room : ℕ) (w l : List ℕ)
    → IsArgument (quoted w)
    → split_line (suc room) (34 ∷ w ++ 34 ∷ l) ≡ put_first (w ∷ []) (split_line room l)
unfolding split_line next_arg skip_spaces isspace
split_line-quoted room w l a =
    ap (λ r. pass_arg (one_arg r) (split_line room)) (scan_quoted-quoted w l a)

-- With room for as many arguments as the line has.
split_line-line :
    (l : List Argument) (room : ℕ)
    → length l ≤ room
    → All IsArgument l
    → split_line room (line l) ≡ some (map text l)
unfolding line
split_line-line [] zero h a = split_line-nil 0
split_line-line [] (suc room) h a = split_line-nil (suc room)
split_line-line (w ∷ l) zero h a = absurd (omega (arith, h))
split_line-line (plain [] ∷ l) (suc room) h (p, a) = absurd p
split_line-line (plain (c ∷ w) ∷ l) (suc room) h (p, a) =
    split_line-plain room c w (line l) p
    ∙ ap (λ r. put_first ((c ∷ w) ∷ []) r) (split_line-line l room (omega (arith, h)) a)
split_line-line (quoted w ∷ l) (suc room) h (p, a) =
    split_line-quoted room w (32 ∷ line l) p
    ∙ ap (λ r. put_first (w ∷ []) r)
        (split_line-space room (line l) ∙ split_line-line l room (omega (arith, h)) a)

-- A line of at most 40 arguments, each with a space behind it, is split into them, those in double quotes
-- without the quotes. Only an argument in quotes may be empty or hold spaces or start with a quote, and it
-- holds no double quote.
pub execute_cmd-line :
    (l : List Argument)
    → length l ≤ maxarg
    → All IsArgument l
    → execute_cmd (line l) ≡ some (map text l)
unfolding execute_cmd
execute_cmd-line l h a = split_line-line l maxarg h a
