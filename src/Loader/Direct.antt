-- ===== src/Loader/Direct.antt =====
-- What `load_data` of core/loader.c promises, and its part that goes straight to its address.
use gogoboot.Base.{
  ℕ, ◌+◌, ◌-◌, ◌%◌, ◌≤◌, ◌<◌, ◌≡◌, ◌⊎◌, refl, ap, inl, Option, none, some, List, arith, ◌==◌,
  if◌then◌else◌, if-elim, length, get_or,
}
use gogoboot.Tinyalloc.{word}
use gogoboot.Tinyalloc.Memory.{inside}
use gogoboot.Loader.{FileApi, Loader, fr_ok, part_done, load_direct, Loaded}
use gogoboot.Loader.Buffer.{view, IsReady, Refuses}
use gogoboot.Loader.Halves.{IsReliable, part_byte, load_part-Arrived}
use gogoboot.Loader.View.{IsReady-stored, Buffer-below, view-direct, IsKept}

-- A segment of `size` bytes that has come to its place: the file's bytes from `offset` on, `file_size`
-- of them, and then zeros; with all that was loaded before and gogoboot's own memory kept.
pub record Comes {F : Type 0} (IsOpen : F → List ℕ → ℕ → Type 0) (start k limit : ℕ)
    (content : List ℕ) (paddr offset file_size size : ℕ) (l : Loader) (r : Loaded F) : Type 0 where
  pub okay : r.fresult ≡ fr_ok
  pub at : ℕ
  pub opened : IsOpen r.file content at
  pub ready : IsReady start k limit r.loader
  pub placed :
      (a : ℕ)
      → paddr ≤ a
      → a < paddr + size
      → view r.loader a ≡ part_byte content offset file_size (a - paddr)
  pub kept :
      (a : ℕ)
      → IsKept start limit l a
      → (a < paddr) ⊎ (paddr + size ≤ a)
      → view r.loader a ≡ view l a
  pub still_kept : (a : ℕ) → IsKept start limit l a → IsKept start limit r.loader a
  pub keepable : (a : ℕ) → paddr ≤ a → a < paddr + size → IsKept start limit r.loader a
  pub own_memory : (a : ℕ) → a < limit → r.loader.memory a ≡ l.memory a
  pub lies_above : (r.loader.bounce_buffer_size ≡ 0) ⊎ (r.loader.bounce_buffer_target ≤ paddr)

-- What `load_data` gives: the segment has come to its place, or the machine has halted because the
-- allocator refused memory for the bounce buffer.
pub data Loading {F : Type 0} (IsOpen : F → List ℕ → ℕ → Type 0) (start k limit : ℕ)
    (content : List ℕ) (paddr offset file_size size : ℕ) (l : Loader)
    : Option (Loaded F) → Type 0 where
  halted :
      Refuses (limit + 128) l.heap
      → Loading IsOpen start k limit content paddr offset file_size size l none
  comes :
      {r : Loaded F}
      → Comes IsOpen start k limit content paddr offset file_size size l r
      → Loading IsOpen start k limit content paddr offset file_size size l (some r)

-- The bytes of a part that begins `n` bytes into a segment are the segment's.
pub part_byte_later :
    (content : List ℕ) (offset n file_size i : ℕ)
    → (0 < file_size → offset + file_size ≤ length content)
    → length content < word
    → n ≤ i
    → part_byte content ((offset + n) % word) (file_size - n) (i - n)
      ≡ part_byte content offset file_size i
part_byte_later content offset n file_size i there w le =
    let same : n < file_size → (offset + n) % word + (i - n) ≡ offset + i =
      λ (q : n < file_size). omega (arith, there (omega (arith, q)), w, q, le) in
    let byte = λ (q : n < file_size). ap (λ (t : ℕ). get_or content t 0) (same q) in
    ground (arith, byte, le)

-- A write of `n` bytes that is seen from `q` on.
pub record Seen {F : Type 0} (IsOpen : F → List ℕ → ℕ → Type 0) (start k limit : ℕ)
    (content : List ℕ) (q n : ℕ) (byte : ℕ → ℕ) (l : Loader) (r : Loaded F) : Type 0 where
  pub okay : r.fresult ≡ fr_ok
  pub at : ℕ
  pub opened : IsOpen r.file content at
  pub ready : IsReady start k limit r.loader
  pub seen :
      (a : ℕ) → a < start → view r.loader a ≡ (if inside q (q + n) a then byte a else view l a)
  pub own_memory : (a : ℕ) → a < limit → r.loader.memory a ≡ l.memory a
  pub same_target : r.loader.bounce_buffer_target ≡ l.bounce_buffer_target
  pub same_size : r.loader.bounce_buffer_size ≡ l.bounce_buffer_size

module _ {F : Type 0} (api : FileApi F) (IsOpen : F → List ℕ → ℕ → Type 0)
    (law : IsReliable api IsOpen) (content : List ℕ) (start k limit : ℕ) where
  pub load_direct-Seen :
      (paddr offset bs ds file_size at : ℕ) (fd : F) (l : Loader)
      → IsReady start k limit l
      → IsOpen fd content at
      → (0 < file_size → (offset + bs) % word + file_size ≤ length content)
      → (0 < ds → limit ≤ paddr + bs)
      → (0 < ds → paddr + bs + ds ≤ start)
      → Seen IsOpen start k limit content
          (paddr + bs)
          ds
          (λ a. part_byte content ((offset + bs) % word) file_size (a - (paddr + bs)))
          l
          (load_direct api paddr offset bs ds file_size fd l)
  unfolding load_direct part_done
  load_direct-Seen paddr offset bs ds fs at fd l r o there low high =
      if-elim
        (λ (x : Loaded F).
          Seen IsOpen start k limit content (paddr + bs) ds
            (λ a. part_byte content ((offset + bs) % word) fs (a - (paddr + bs))) l x)
        (ds == 0)
        (λ e. record {
          okay = refl;
          at = at;
          opened = o;
          ready = r;
          seen = λ a q. ground (arith, e);
          own_memory = λ a q. refl;
          same_target = refl;
          same_size = refl;
        })
        (λ e.
          let pos : 0 < ds = ground (arith, e) in
          let p =
            load_part-Arrived api IsOpen law content ((offset + bs) % word) (paddr + bs) ds fs
              l.memory at fd o there in
          record {
            okay = p.okay;
            at = p.at;
            opened = p.opened;
            ready = IsReady-stored _ r;
            seen = λ a q.
                view-direct start k limit (paddr + bs) ds l _
                  (λ a. part_byte content ((offset + bs) % word) fs (a - (paddr + bs))) r (low pos)
                  (high pos) p.filled a q;
            own_memory = λ a q. ground (arith, p.filled a, low pos);
            same_target = refl;
            same_size = refl;
          })

  -- Without a bounced part.
  pub direct-Comes :
      (paddr offset size file_size at : ℕ) (fd : F) (l : Loader)
      → IsReady start k limit l
      → IsOpen fd content at
      → (0 < file_size → offset + file_size ≤ length content)
      → length content < word
      → 0 < size
      → limit ≤ paddr
      → paddr + size ≤ start
      → Comes IsOpen start k limit content paddr offset file_size size l
          (load_direct api paddr offset 0 size file_size fd l)
  direct-Comes paddr offset size fs at fd l r o there w pos low high =
      let wrap : 0 < fs → (offset + 0) % word + fs ≤ length content =
        λ (q : 0 < fs). omega (arith, there q, w, q) in
      let s =
        load_direct-Seen paddr offset 0 size fs at fd l r o wrap (λ _. omega (arith, low))
          (λ _. omega (arith, high)) in
      record {
        okay = s.okay;
        at = s.at;
        opened = s.opened;
        ready = s.ready;
        placed = λ a p q. ground (
          arith,
          s.seen a (omega (arith, q, high)),
          part_byte_later content offset 0 fs (a - paddr) there w (omega arith),
          p,
          q,
        );
        kept = λ a h q. ground (arith, s.seen a h.0, h, q);
        still_kept = λ a h. ground (arith, h, s.same_target, s.same_size);
        keepable = λ a p q. (omega (arith, q, high), inl (omega (arith, p, low)));
        own_memory = s.own_memory;
        lies_above = ground (arith, Buffer-below r r.state, s.same_target, s.same_size, low);
      }
