-- ===== src/Arp/Cache.antt =====
-- The list of entries of net/arp.c as a map from addresses: what each operation on it does to every
-- address, and that no address has two entries.
use gogoboot.Base.{
  ℕ, ◌≤◌, ◌≡◌, ◌≢◌, refl, sym, ap, ◌∙◌, Bool, true, false, ◌&&◌, ◌||◌, inl, inr, Bool-cases,
  Option-cases, Option, none, some, List, [], ◌∷◌, arith, ◌==◌, if◌then◌else◌, All, All-mono,
}
use gogoboot.Arp.{
  Entry, find_entry, set_entry, resolved, update_found, update_arp_cache, dead, flush_entries,
  max_resolve_attempts,
}

abbrev HasOther : ℕ → Entry → Type 0
HasOther ip e = e.ipv4_address ≢ ip

-- No address has two entries, and no entry has had more than ten attempts.
unfoldable pub IsSound : List Entry → Type 0
IsSound [] = Unit
IsSound (e ∷ rest) =
    (e.resolve_attempts ≤ max_resolve_attempts) × All (HasOther e.ipv4_address) rest × IsSound rest

pub find_entry-hit :
    (ip : ℕ) (e : Entry) (c : List Entry)
    → e.ipv4_address == ip ≡ true
    → find_entry ip (e ∷ c) ≡ some e
unfolding find_entry
find_entry-hit ip e c h = rw h

pub find_entry-miss :
    (ip : ℕ) (e : Entry) (c : List Entry)
    → e.ipv4_address == ip ≡ false
    → find_entry ip (e ∷ c) ≡ find_entry ip c
unfolding find_entry
find_entry-miss ip e c h = rw h

pub find_entry-address :
    (ip : ℕ) (c : List Entry) (e : Entry) → find_entry ip c ≡ some e → e.ipv4_address ≡ ip
unfolding find_entry
find_entry-address ip [] e h = cc
find_entry-address ip (x ∷ c) e h = elim (Bool-cases (x.ipv4_address == ip)) [
  | inl eq ↦
      let same : x ≡ e = cc (sym (find_entry-hit ip x c eq) ∙ h) in
      let found : x.ipv4_address ≡ ip = ground arith in cc (same, found)
  | inr ne ↦ find_entry-address ip c e (sym (find_entry-miss ip x c ne) ∙ h)
]

abbrev pub known : ℕ → List Entry → Bool
known ip c = elim (find_entry ip c) [ none ↦ false | some _ ↦ true ]

abbrev pub alive : ℕ → Option Entry → Option Entry
alive now none = none
alive now (some e) = if dead now e then none else some e

pub find_entry-HasOther : (ip : ℕ) (c : List Entry) → All (HasOther ip) c → find_entry ip c ≡ none
unfolding find_entry
find_entry-HasOther ip [] a = refl
find_entry-HasOther ip (e ∷ c) (p, a) =
    let ne : e.ipv4_address == ip ≡ false = ground (arith, p) in rw ne (find_entry-HasOther ip c a)

pub HasOther-find_entry : (ip : ℕ) (c : List Entry) → find_entry ip c ≡ none → All (HasOther ip) c
unfolding find_entry
HasOther-find_entry ip [] h = tt
HasOther-find_entry ip (e ∷ c) h = elim (Bool-cases (e.ipv4_address == ip)) [
  | inl eq ↦ cc (sym (find_entry-hit ip e c eq) ∙ h)
  | inr ne ↦ (ground (arith, ne), HasOther-find_entry ip c (sym (find_entry-miss ip e c ne) ∙ h))
]

pub find_entry-set_entry :
    (ip other : ℕ) (n : Entry) (c : List Entry)
    → n.ipv4_address ≡ ip
    → find_entry ip c ≢ none
    → find_entry other (set_entry ip n c) ≡ (if ip == other then some n else find_entry other c)
unfolding find_entry set_entry
find_entry-set_entry ip other n [] e h = absurd (h refl)
find_entry-set_entry ip other n (x ∷ c) e h = elim (Bool-cases (x.ipv4_address == ip)) [
  | inl eq ↦ ground (arith, e)
  | inr ne ↦
      let rest = find_entry-set_entry ip other n c e (λ q. h (find_entry-miss ip x c ne ∙ q)) in
      ground (arith, rest)
]

HasOther-set_entry :
    (ip other : ℕ) (n : Entry) (c : List Entry)
    → n.ipv4_address ≡ ip
    → All (HasOther other) c
    → All (HasOther other) (set_entry ip n c)
unfolding set_entry
HasOther-set_entry ip other n [] e a = tt
HasOther-set_entry ip other n (x ∷ c) e (p, a) = elim (Bool-cases (x.ipv4_address == ip)) [
  | inl eq ↦ rw eq (ground (arith, e), a)
  | inr ne ↦ rw ne (p, HasOther-set_entry ip other n c e a)
]

pub IsSound-set_entry :
    (ip : ℕ) (n : Entry) (c : List Entry)
    → n.ipv4_address ≡ ip
    → n.resolve_attempts ≤ 10
    → IsSound c
    → IsSound (set_entry ip n c)
unfolding IsSound set_entry
IsSound-set_entry ip n [] e b s = tt
IsSound-set_entry ip n (x ∷ c) e b (p, a, s) = elim (Bool-cases (x.ipv4_address == ip)) [
  | inl eq ↦ rw eq (b, All-mono c (λ y q. ground (arith, e)) a, s)
  | inr ne ↦ rw ne (p, HasOther-set_entry ip x.ipv4_address n c e a, IsSound-set_entry ip n c e b s)
]

HasOther-flush_entries :
    (now ip : ℕ) (c : List Entry) → All (HasOther ip) c → All (HasOther ip) (flush_entries now c)
unfolding flush_entries
HasOther-flush_entries now ip [] a = tt
HasOther-flush_entries now ip (e ∷ c) (p, a) = elim (Bool-cases (dead now e)) [
  | inl d ↦ rw d (HasOther-flush_entries now ip c a)
  | inr d ↦ rw d (p, HasOther-flush_entries now ip c a)
]

pub IsSound-flush_entries : (now : ℕ) (c : List Entry) → IsSound c → IsSound (flush_entries now c)
unfolding IsSound flush_entries
IsSound-flush_entries now [] s = tt
IsSound-flush_entries now (e ∷ c) (p, a, s) = elim (Bool-cases (dead now e)) [
  | inl d ↦ rw d (IsSound-flush_entries now c s)
  | inr d ↦ rw d (p, HasOther-flush_entries now e.ipv4_address c a, IsSound-flush_entries now c s)
]

-- `update_arp_cache` enters the address if it is known already or is to be added, and leaves every other
-- address alone.
pub find_entry-update_arp_cache :
    (now ip mac : ℕ) (add_entry : Bool) (other : ℕ) (c : List Entry)
    → find_entry other (update_arp_cache now ip mac add_entry c) ≡ (
        if (ip == other) && (add_entry || known ip c)
        then some (resolved now ip mac)
        else find_entry other c)
unfolding update_arp_cache update_found find_entry
find_entry-update_arp_cache now ip mac add other c = elim (Option-cases (find_entry ip c)) [
  | inl e ↦ rw (known, e) (added add)
  | inr (x, e) ↦
      rw (known, e)
        (find_entry-set_entry ip other (resolved now ip mac) c refl (λ q. cc)
          ∙ ap (λ b. if b then some (resolved now ip mac) else find_entry other c)
              (both add (ip == other)))
]
  where
    both : (a b : Bool) → b ≡ (b && (a || true))
    both true true = refl
    both true false = refl
    both false true = refl
    both false false = refl

    added :
        (a : Bool)
        → find_entry other (if a then resolved now ip mac ∷ c else c) ≡ (
            if (ip == other) && (a || false)
            then some (resolved now ip mac)
            else find_entry other c)
    added a = ground arith

pub IsSound-update_arp_cache :
    (now ip mac : ℕ) (add_entry : Bool) (c : List Entry)
    → IsSound c
    → IsSound (update_arp_cache now ip mac add_entry c)
unfolding update_arp_cache update_found IsSound
IsSound-update_arp_cache now ip mac add c s = elim (Option-cases (find_entry ip c)) [
  | inl e ↦ rw e (added add (HasOther-find_entry ip c e))
  | inr (x, e) ↦ rw e (IsSound-set_entry ip (resolved now ip mac) c refl (omega arith) s)
]
  where
    added : (a : Bool) → All (HasOther ip) c → IsSound (if a then resolved now ip mac ∷ c else c)
    added true h = (omega arith, h, s)
    added false h = s

-- A flush drops the dead entries and no other.
pub find_entry-flush_entries :
    (now ip : ℕ) (c : List Entry)
    → IsSound c
    → find_entry ip (flush_entries now c) ≡ alive now (find_entry ip c)
unfolding IsSound flush_entries find_entry
find_entry-flush_entries now ip [] s = refl
find_entry-flush_entries now ip (e ∷ c) (p, a, s) = elim (Bool-cases (dead now e)) [
  | inl d ↦ elim (Bool-cases (e.ipv4_address == ip)) [
    | inl eq ↦
        let others : All (HasOther ip) c = All-mono c (λ y q. ground (arith, eq, q)) a in
        rw (d, eq)
          (rw d
            (find_entry-HasOther ip (flush_entries now c) (HasOther-flush_entries now ip c others)))
    | inr ne ↦ rw (d, ne) (find_entry-flush_entries now ip c s)
  ]
  | inr d ↦ elim (Bool-cases (e.ipv4_address == ip)) [
    | inl eq ↦ rw (d, eq) (rw d)
    | inr ne ↦ rw (d, ne) (find_entry-flush_entries now ip c s)
  ]
]
