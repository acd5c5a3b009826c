-- ===== src/Loader/Bounced.antt =====
-- The part of a segment that `load_data` of core/loader.c puts into the bounce buffer.
use mathlib.Core.Path.{subst}
use gogoboot.Base.{ℕ, ◌+◌, ◌-◌, ◌%◌, ◌≤◌, ◌<◌, ◌≡◌, ap, ◌∙◌, true, inr, List, arith, ◌==◌, length}
use gogoboot.Tinyalloc.{word}
use gogoboot.Loader.{FileApi, Loader, fr_ok, Part, load_part, bounced, bounce_address, Loaded}
use gogoboot.Loader.Buffer.{IsReady, Expanded}
use gogoboot.Loader.Halves.{IsReliable, Arrived, part_byte, load_part-Arrived}
use gogoboot.Loader.View.{held_at, stored, IsReady-stored, view-bounced, view-Expanded}
use gogoboot.Loader.Direct.{Comes, part_byte_later, Seen, load_direct-Seen}

module _ {F : Type 0} (api : FileApi F) (IsOpen : F → List ℕ → ℕ → Type 0)
    (law : IsReliable api IsOpen) (content : List ℕ) (start k limit : ℕ) where
  -- What follows a bounce buffer that has grown to take the bounced part.
  module _ (paddr offset bs ds file_size : ℕ) (l l' : Loader) (r : IsReady start k limit l)
      (x : Expanded start k limit paddr bs l l')
      (there : 0 < file_size → offset + file_size ≤ length content) (w : length content < word)
      (pos : 0 < bs) (low : 0 < ds → limit ≤ paddr + bs) (high : paddr + bs + ds ≤ start) where
    abbrev in_buffer : ℕ
    in_buffer = l'.bounce_buffer_data + (paddr - l'.bounce_buffer_target)

    parts-Comes :
        (p : Part F) (q : Loaded F)
        → Arrived api IsOpen law content offset in_buffer bs file_size l'.memory p
        → Seen IsOpen start k limit content
            (paddr + bs)
            ds
            (λ a. part_byte content ((offset + bs) % word) p.file_left (a - (paddr + bs)))
            (stored p.memory l')
            q
        → Comes IsOpen start k limit content paddr offset file_size (bs + ds) l q
    parts-Comes p q c s =
        let into =
          view-bounced start k limit paddr bs l' p.memory
            (λ i. part_byte content offset file_size i) x.ready x.held x.reaches_down x.reaches_up
            c.filled in
        let later = λ (a : ℕ) (h : paddr + bs ≤ a).
          ap (λ (t : ℕ). part_byte content ((offset + bs) % word) t (a - (paddr + bs))) c.left
          ∙ later_byte a h in
        record {
          okay = s.okay;
          at = s.at;
          opened = s.opened;
          ready = s.ready;
          placed = λ a f g. ground (
            arith,
            s.seen a (omega (arith, g, high)),
            into a (omega (arith, g, high)),
            later a,
            f,
            g,
          );
          kept = λ a h g. ground (
            arith,
            s.seen a h.0,
            into a h.0,
            view-Expanded start k limit paddr bs l l' r x a h,
            g,
          );
          still_kept =
              λ a h. ground (arith, h, x.same_start, x.no_smaller, s.same_target, s.same_size);
          keepable = λ a f g.
              ground
                (arith, f, g, low, high, x.reaches_down, x.reaches_up, s.same_target, s.same_size);
          own_memory = λ a h. ground (
            arith,
            s.own_memory a h,
            c.filled a,
            x.keeps_memory a (omega (arith, h, r.limit_le)),
            held_at x.ready x.held,
            h,
            r.limit_le,
          );
          lies_above = inr (omega (arith, s.same_target, x.reaches_down));
        }
      where
        later_byte :
            (a : ℕ)
            → paddr + bs ≤ a
            → part_byte content ((offset + bs) % word) (file_size - bs) (a - (paddr + bs))
              ≡ part_byte content offset file_size (a - paddr)
        later_byte a h =
            subst
              (λ (i : ℕ).
                part_byte content ((offset + bs) % word) (file_size - bs) i
                ≡ part_byte content offset file_size (a - paddr))
              (omega (arith, h))
              (part_byte_later content offset bs file_size (a - paddr) there w (omega (arith, h)))

    pub bounced-Comes :
        (at : ℕ) (fd : F)
        → IsOpen fd content at
        → Comes IsOpen start k limit content paddr offset file_size (bs + ds) l (
            bounced api paddr offset bs ds l'
              (load_part api offset (bounce_address paddr l') bs file_size fd l'.memory))
    unfolding bounced bounce_address
    bounced-Comes at fd o =
        let place : (l'.bounce_buffer_data + (paddr + (word - l'.bounce_buffer_target))) % word
            ≡ in_buffer =
          omega (
            arith,
            held_at x.ready x.held,
            x.reaches_down,
            x.reaches_up,
            pos,
            x.held.below_limit,
            x.ready.small,
          ) in
        let c =
          load_part-Arrived api IsOpen law content offset in_buffer bs file_size l'.memory at fd o
            there in
        rw place (continued (load_part api offset in_buffer bs file_size fd l'.memory) c)
      where
        continued :
            (p : Part F)
            → Arrived api IsOpen law content offset in_buffer bs file_size l'.memory p
            → Comes IsOpen start k limit content paddr offset file_size
                (bs + ds)
                l
                (bounced api paddr offset bs ds l' p)
        continued p c =
            let okay : (p.fresult == fr_ok) ≡ true = ground (arith, c.okay) in
            let rest : 0 < p.file_left → (offset + bs) % word + p.file_left ≤ length content =
              λ (q : 0 < p.file_left).
                omega (arith, c.left, there (omega (arith, q, c.left)), w, q) in
            rw okay (
              parts-Comes p _ c (
                load_direct-Seen api IsOpen law content start k limit paddr offset bs ds p.file_left
                  c.at p.file (stored p.memory l') (IsReady-stored p.memory x.ready) c.opened rest
                  low (λ _. high)))
