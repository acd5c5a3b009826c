-- ===== src/Launch/CommandLine.antt =====
-- The command line that `execute` of core/loader.c builds: the arguments with a space between two.
use gogoboot.Base.{
  ℕ, zero, suc, ◌+◌, ◌-◌, ◌≤◌, ◌<◌, ◌≡◌, refl, sym, ap, ◌∙◌, true, inl, inr, Bool-cases, List, [],
  ◌∷◌, ◌++◌, arith, ltb, ◌==◌, if◌then◌else◌, length, get_or, length-append,
}
use gogoboot.Tinyalloc.{Mem, store}
use gogoboot.Tinyalloc.Memory.{inside}
use gogoboot.Loader.{store_bytes}
use gogoboot.Launch.{command_length, copy_args, build_command_line}

-- Each argument with a space in front of it.
unfoldable pub spaced : List (List ℕ) → List ℕ
spaced [] = []
spaced (arg ∷ rest) = 32 ∷ (arg ++ spaced rest)

-- The arguments with a space between two.
unfoldable pub joined : List (List ℕ) → List ℕ
joined [] = []
joined (arg ∷ rest) = arg ++ spaced rest

get_or-append :
    (xs ys : List ℕ) (i : ℕ)
    → get_or (xs ++ ys) i 0
      ≡ (if ltb i (length xs) then get_or xs i 0 else get_or ys (i - length xs) 0)
get_or-append [] ys i = let e : i - 0 ≡ i = omega arith in ground (arith, e)
get_or-append (x ∷ xs) ys zero = ground arith
get_or-append (x ∷ xs) ys (suc i) =
    let e : suc i - suc (length xs) ≡ i - length xs = omega arith in
    ground (arith, e, get_or-append xs ys i)

-- Storing two lists one behind the other stores them as one.
store_bytes-append :
    (xs ys : List ℕ) (p : ℕ) (mem : Mem) (a : ℕ)
    → store_bytes ys (p + length xs) (store_bytes xs p mem) a ≡ store_bytes (xs ++ ys) p mem a
unfolding store_bytes
store_bytes-append xs ys p mem a =
    let back : a - p - length xs ≡ a - (p + length xs) = omega arith in
    ground
      (arith, length-append xs ys, get_or-append xs ys (a - p), ap (λ (i : ℕ). get_or ys i 0) back)

-- A byte at an address of its own.
store-bytes : (p v : ℕ) (mem : Mem) (a : ℕ) → store mem p v a ≡ store_bytes (v ∷ []) p mem a
unfolding store_bytes
store-bytes p v mem a = elim (Bool-cases (a == p)) [
  | inl at ↦
      let zero' : a - p ≡ 0 = ground (arith, at) in
      ground (arith, at, zero', ap (λ (i : ℕ). get_or (v ∷ []) i 0) zero')
  | inr off ↦ ground (arith, off)
]

store_bytes-pointwise :
    (xs : List ℕ) (p : ℕ) (mem mem' : Mem) (a : ℕ)
    → mem a ≡ mem' a
    → store_bytes xs p mem a ≡ store_bytes xs p mem' a
unfolding store_bytes
store_bytes-pointwise xs p mem mem' a e =
    ap (λ (t : ℕ). if inside p (p + length xs) a then get_or xs (a - p) 0 else t) e

-- A byte and then a list.
store-append :
    (v : ℕ) (xs : List ℕ) (p : ℕ) (mem : Mem) (a : ℕ)
    → store_bytes xs (p + 1) (store mem p v) a ≡ store_bytes (v ∷ xs) p mem a
store-append v xs p mem a =
    store_bytes-pointwise xs (p + 1) (store mem p v) (store_bytes (v ∷ []) p mem) a
      (store-bytes p v mem a)
    ∙ store_bytes-append (v ∷ []) xs p mem a

store_bytes-nil : (p : ℕ) (mem : Mem) (a : ℕ) → store_bytes [] p mem a ≡ mem a
unfolding store_bytes
store_bytes-nil p mem a = ground arith

-- The arguments behind the first.
copy_args-spaced :
    (args : List (List ℕ)) (i buf off : ℕ) (mem : Mem)
    → 0 < i
    → ((copy_args args i buf off mem).0 ≡ off + length (spaced args))
      × ((a : ℕ) → (copy_args args i buf off mem).1 a ≡ store_bytes (spaced args) (buf + off) mem a)
unfolding copy_args spaced
copy_args-spaced [] i buf off mem h = (omega arith, λ a. sym (store_bytes-nil (buf + off) mem a))
copy_args-spaced (arg ∷ rest) i buf off mem h =
    let test : ltb 0 i ≡ true = ground (arith, h) in
    let after = store_bytes arg (buf + (off + 1)) (store mem (buf + off) 32) in
    let (o, m) = copy_args-spaced rest (i + 1) buf (off + 1 + length arg) after (omega arith) in
    let there : buf + (off + 1 + length arg) ≡ buf + (off + 1) + length arg = omega arith in
    let next : buf + (off + 1) ≡ buf + off + 1 = omega arith in
    rw (copy_args, test)
      (
        omega (arith, o, length-append arg (spaced rest)),
        λ a.
            m a
            ∙ ap (λ (p : ℕ). store_bytes (spaced rest) p after a) there
            ∙ store_bytes-append arg (spaced rest) (buf + (off + 1)) (store mem (buf + off) 32) a
            ∙ ap (λ (p : ℕ). store_bytes (arg ++ spaced rest) p (store mem (buf + off) 32) a) next
            ∙ store-append 32 (arg ++ spaced rest) (buf + off) mem a,
      )

copy_args-joined :
    (args : List (List ℕ)) (buf : ℕ) (mem : Mem)
    → ((copy_args args 0 buf 0 mem).0 ≡ length (joined args))
      × ((a : ℕ) → (copy_args args 0 buf 0 mem).1 a ≡ store_bytes (joined args) buf mem a)
unfolding copy_args joined
copy_args-joined [] buf mem = (refl, λ a. sym (store_bytes-nil buf mem a))
copy_args-joined (arg ∷ rest) buf mem =
    let after = store_bytes arg (buf + 0) mem in
    let (o, m) = copy_args-spaced rest 1 buf (0 + length arg) after (omega arith) in
    let start : buf + 0 ≡ buf = omega arith in
    let there : buf + (0 + length arg) ≡ buf + length arg = omega arith in
    (
      omega (arith, o, length-append arg (spaced rest)),
      λ a.
          m a
          ∙ ap (λ (p : ℕ). store_bytes (spaced rest) p after a) there
          ∙ ap (λ (p : ℕ). store_bytes (spaced rest) (buf + length arg) (store_bytes arg p mem) a)
              start
          ∙ store_bytes-append arg (spaced rest) buf mem a,
    )

-- The command line is built from `cmdbuf` on: the arguments with a space between two, and a NUL; no
-- other byte is written.
pub build_command_line-joined :
    (args : List (List ℕ)) (buf : ℕ) (mem : Mem) (a : ℕ)
    → build_command_line args buf mem a ≡ store_bytes (joined args ++ 0 ∷ []) buf mem a
unfolding build_command_line
build_command_line-joined args buf mem a =
    let (o, m) = copy_args-joined args buf mem in
    let at : buf + (copy_args args 0 buf 0 mem).0 ≡ buf + length (joined args) = omega (arith, o) in
    store-bytes (buf + (copy_args args 0 buf 0 mem).0) 0 (copy_args args 0 buf 0 mem).1 a
    ∙ ap (λ (p : ℕ). store_bytes (0 ∷ []) p (copy_args args 0 buf 0 mem).1 a) at
    ∙ store_bytes-pointwise (0 ∷ []) (buf + length (joined args)) (copy_args args 0 buf 0 mem).1
        (store_bytes (joined args) buf mem) a (m a)
    ∙ store_bytes-append (joined args) (0 ∷ []) buf mem a

pub command_length-spaced :
    (args : List (List ℕ)) (n : ℕ) → command_length n args ≡ n + length (spaced args)
unfolding command_length spaced
command_length-spaced [] n = omega arith
command_length-spaced (arg ∷ rest) n =
    omega
      (arith, command_length-spaced rest (n + (length arg + 1)), length-append arg (spaced rest))

-- It fits in the room that `execute` allocates.
pub joined-fits :
    (arg : List ℕ) (rest : List (List ℕ))
    → length (joined (arg ∷ rest) ++ 0 ∷ []) ≤ command_length 1 (arg ∷ rest)
unfolding joined command_length
joined-fits arg rest = omega (
  arith,
  command_length-spaced rest (1 + (length arg + 1)),
  length-append arg (spaced rest),
  length-append (arg ++ spaced rest) (0 ∷ []),
)
