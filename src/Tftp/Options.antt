-- ===== src/Tftp/Options.antt =====
-- The acknowledgement of the options in net/tftp.c.
use gogoboot.Base.{
  ℕ, zero, suc, ◌%◌, Bool, true, false, ◌&&◌, ◌||◌, not, Option, none, some, List, [], ◌∷◌, ◌==◌,
  if◌then◌else◌, length,
}
use gogoboot.Strtoul.{atoi}
use gogoboot.Tftp.{Transfer, Disk, put_send_data, get_send_ack}
use gogoboot.Tftp.Request.{rollover, tsize, blksize, windowsize}

-- The loop up to a NUL: the string before it and the bytes behind; `none` if the end comes first.
pub next_string : List ℕ → Option (List ℕ × List ℕ)
next_string [] = none
next_string (c ∷ l) =
    let rest = next_string l in
    if c == 0 then some ([], l) else elim rest [ none ↦ none | some (s, l') ↦ some (c ∷ s, l') ]

-- `!strcmp`
pub same_string : List ℕ → List ℕ → Bool
same_string [] [] = true
same_string [] (_ ∷ _) = false
same_string (_ ∷ _) [] = false
same_string (a ∷ s) (b ∷ t) = (a == b) && same_string s t

-- The number is read from the bytes of the value, behind which its NUL stands.
pub apply_option : List ℕ → ℕ → Transfer → Transfer
apply_option opt val t =
    if same_string opt rollover && ((val == 0) || (val == 1))
    then record t { rollover_value = val }
    else if same_string opt tsize
    then if not t.is_put then record t { total_size = val } else t
    else if same_string opt blksize
    then record t { block_size = val % 65536 }
    else if same_string opt windowsize
    then record t { window_size = val }
    else t

-- The rounds of the loop over the bytes up to the end; every round takes two of them at least.
pub apply_options : ℕ → List ℕ → Transfer → Transfer
apply_options zero l t = t
apply_options (suc fuel) l t = elim (next_string l) [
  | none ↦ t
  | some (opt, l') ↦ elim (next_string l') [
    | none ↦ t
    | some (_, l'') ↦ apply_options fuel l'' (apply_option opt (atoi l') t)
  ]
]

-- `raw` is the packet's data behind the opcode.
pub process_options_ack : Disk → ℕ → List ℕ → Transfer → Transfer
process_options_ack d now raw t =
    let t' = apply_options (length raw) raw t in
    if t'.is_put then put_send_data d now t'.window_size t' else get_send_ack now t'
