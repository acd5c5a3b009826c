-- ===== src/Loader/Halves.antt =====
-- Either half of `load_data` of core/loader.c: reading a part of a file, and padding it.
use mathlib.Core.Path.{subst}
use gogoboot.Base.{
  ℕ, ◌+◌, ◌-◌, ◌≤◌, ◌<◌, ◌≡◌, ◌⊎◌, refl, sym, ap, ◌∙◌, true, false, not, inl, inr, Bool-cases, List,
  arith, ltb, ◌==◌, if◌then◌else◌, if-elim, length, get_or, take, drop, length-take, length-drop,
  get_or-take, get_or-drop,
}
use gogoboot.Tinyalloc.{Mem}
use gogoboot.Tinyalloc.Memory.{inside}
use gogoboot.Loader.{FileApi, fr_ok, store_bytes, memset, Part, load_part, seek_done, read_done}

-- What FatFs documents of an open file, with its contents and the position in them: seeking to a place
-- in the file and reading succeed, and a read stores the bytes from the position on, as many as asked
-- for and there.
pub record IsReliable {F : Type 0} (api : FileApi F) (IsOpen : F → List ℕ → ℕ → Type 0)
    : Type 0 where
  pub seeks :
      (fd : F) (content : List ℕ) (at ofs : ℕ)
      → IsOpen fd content at
      → ofs ≤ length content
      → ((api.f_lseek fd ofs).0 ≡ fr_ok) × IsOpen (api.f_lseek fd ofs).1 content ofs
  pub reads :
      (fd : F) (content : List ℕ) (at btr : ℕ)
      → IsOpen fd content at
      → ((api.f_read fd btr).0 ≡ fr_ok)
        × ((api.f_read fd btr).1 ≡ take btr (drop at content))
        × IsOpen (api.f_read fd btr).2 content (at + length (take btr (drop at content)))

-- The byte `i` of a part: one of the `file_size` bytes of the file from `offset` on, and then zeros.
abbrev pub part_byte : List ℕ → (offset file_size i : ℕ) → ℕ
part_byte content offset file_size i = if ltb i file_size then get_or content (offset + i) 0 else 0

module _ {F : Type 0} (api : FileApi F) (IsOpen : F → List ℕ → ℕ → Type 0)
    (law : IsReliable api IsOpen) (content : List ℕ) where
  -- A part that has arrived: `part_size` bytes at `buff`, and nothing else written.
  pub record Arrived (offset buff part_size file_size : ℕ) (mem : Mem) (p : Part F) : Type 0 where
    pub okay : p.fresult ≡ fr_ok
    pub left : p.file_left ≡ file_size - part_size
    pub at : ℕ
    pub opened : IsOpen p.file content at
    pub filled :
        (a : ℕ)
        → p.memory a ≡ (
            if inside buff (buff + part_size) a
            then part_byte content offset file_size (a - buff)
            else mem a)

  module _ (offset buff part_size file_size : ℕ) (mem : Mem) where
    read_done-Arrived :
        (load_size pad_size : ℕ) (fd : F)
        → IsOpen fd content offset
        → offset + load_size ≤ length content
        → load_size + pad_size ≡ part_size
        → file_size - part_size ≡ file_size - load_size
        → load_size ≤ file_size
        → ((file_size ≡ load_size) ⊎ (pad_size ≡ 0))
        → Arrived offset buff part_size file_size mem
            (read_done buff load_size pad_size file_size (api.f_read fd load_size) mem)
    unfolding read_done store_bytes memset
    read_done-Arrived n z fd o there sum same le full =
        let (ok, bytes, open') = law.reads fd content offset n o in
        let exact : length (take n (drop offset content)) ≡ n =
          omega (arith, length-take n (drop offset content), length-drop offset content, there) in
        let long : length (api.f_read fd n).1 ≡ n = ap length bytes ∙ exact in
        let t1 : not ((api.f_read fd n).0 == fr_ok) ≡ false = ground (arith, ok) in
        let t2 : not (length (api.f_read fd n).1 == n) ≡ false = ground (arith, long) in
        rw (t1, t2)
          (record {
            okay = refl;
            left = sym same;
            at = offset + length (take n (drop offset content));
            opened = open';
            filled = λ a.
                subst
                  (λ (bs : List ℕ).
                    (if inside (buff + n) (buff + n + z) a
                      then 0
                      else if inside buff (buff + length bs) a
                      then get_or bs (a - buff) 0
                      else mem a)
                    ≡ (if inside buff (buff + part_size) a
                        then part_byte content offset file_size (a - buff)
                        else mem a))
                  (sym bytes) (ground (arith, exact, sum, le, full, read_byte n (a - buff)));
          })
      where
        read_byte :
            (m i : ℕ)
            → i < m
            → get_or (take m (drop offset content)) i 0 ≡ get_or content (offset + i) 0
        read_byte m i q = get_or-take m i (drop offset content) 0 q ∙ get_or-drop offset i content 0

    seek_done-Arrived :
        (load_size pad_size at : ℕ) (fd : F)
        → IsOpen fd content at
        → offset + load_size ≤ length content
        → load_size + pad_size ≡ part_size
        → file_size - part_size ≡ file_size - load_size
        → load_size ≤ file_size
        → (file_size ≡ load_size) ⊎ (pad_size ≡ 0)
        → Arrived offset buff part_size file_size mem
            (seek_done api buff load_size pad_size file_size (api.f_lseek fd offset) mem)
    unfolding seek_done
    seek_done-Arrived n z at fd o there sum same le full =
        let (ok, open') = law.seeks fd content at offset o (omega (arith, there)) in
        let t : ((api.f_lseek fd offset).0 == fr_ok) ≡ true = ground (arith, ok) in
        rw t (read_done-Arrived n z (api.f_lseek fd offset).1 open' there sum same le full)

    -- The file's bytes and then zeros fill the part, in memory and nowhere else.
    pub load_part-Arrived :
        (at : ℕ) (fd : F)
        → IsOpen fd content at
        → (0 < file_size → offset + file_size ≤ length content)
        → Arrived offset buff part_size file_size mem
            (load_part api offset buff part_size file_size fd mem)
    unfolding load_part memset
    load_part-Arrived at fd o there = elim (Bool-cases (ltb file_size part_size)) [
      | inl short ↦ rw short (
          if-elim (λ (p : Part F). Arrived offset buff part_size file_size mem p) (file_size == 0)
            (λ e. record {
              okay = refl;
              left = ground (arith, e);
              at = at;
              opened = o;
              filled = λ a. ground (arith, e, short);
            })
            (λ e.
              seek_done-Arrived file_size (part_size - file_size) at fd o
                (there (ground (arith, e))) (ground (arith, short)) (ground (arith, short))
                (omega arith) (inl refl)))
      | inr long ↦ rw long (
          if-elim (λ (p : Part F). Arrived offset buff part_size file_size mem p) (part_size == 0)
            (λ e. record {
              okay = refl;
              left = ground (arith, e);
              at = at;
              opened = o;
              filled = λ a. ground (arith, e);
            })
            (λ e.
              let le : part_size ≤ file_size = ground (arith, long) in
              let pos : 0 < part_size = ground (arith, e) in
              seek_done-Arrived part_size 0 at fd o
                (omega (arith, there (omega (arith, le, pos)), le)) (omega arith) refl le
                (inr refl)))
    ]
