-- ===== src/Arp/Valid.antt =====
-- An entry of the cache of net/arp.c that is valid answers every resolution of its address, and
-- resolutions of other addresses leave it alone.
use gogoboot.Base.{
  ℕ, ◌≡◌, ◌≢◌, refl, sym, ap, ◌∙◌, true, false, inl, inr, Bool-cases, if-elim, Option, none, some,
  List, arith, leb, ◌==◌,
}
use gogoboot.Timer.{timer_expired}
use gogoboot.Arp.{
  broadcast_macaddr, Arp, Host, Outgoing, ArpResult, arp_okay, Entry, find_entry, set_entry,
  unresolved, queried, max_resolve_attempts, resolve_found, net_arp_resolve, is_broadcast,
}
use gogoboot.Arp.Cache.{find_entry-miss, find_entry-set_entry, find_entry-address}
use gogoboot.Arp.Resolve.{resolve_found-valid}

pub net_arp_resolve-valid :
    (now : ℕ) (host : Host) (p : Outgoing) (e : Entry) (a : Arp)
    → is_broadcast host p.destination_ip ≡ false
    → find_entry p.ipv4_nexthop a.cache ≡ some e
    → e.valid ≡ true
    → net_arp_resolve now host p a ≡ (arp_okay, some e.mac_address, a)
unfolding net_arp_resolve
net_arp_resolve-valid now host p e a nb found v = rw nb (
    ap (λ r. resolve_found now host p.ipv4_nexthop r a) found
    ∙ resolve_found-valid now host p.ipv4_nexthop e a v)

-- An address that is known is never waited for.
pub net_arp_resolve-okay :
    (now : ℕ) (host : Host) (p : Outgoing) (e : Entry) (a : Arp)
    → find_entry p.ipv4_nexthop a.cache ≡ some e
    → e.valid ≡ true
    → (mac : ℕ) × (net_arp_resolve now host p a ≡ (arp_okay, some mac, a))
unfolding net_arp_resolve
net_arp_resolve-okay now host p e a found v =
    elim (Bool-cases (is_broadcast host p.destination_ip)) [
      | inl all ↦ rw all (broadcast_macaddr, refl)
      | inr one ↦ (e.mac_address, net_arp_resolve-valid now host p e a one found v)
    ]

-- An address with a valid entry is another than one whose entry is not valid.
valid-apart :
    (ip other : ℕ) (e f : Entry) (c : List Entry)
    → find_entry ip c ≡ some e
    → e.valid ≡ true
    → find_entry other c ≡ some f
    → f.valid ≡ false
    → other == ip ≡ false
valid-apart ip other e f c found v found' w = elim (Bool-cases (other == ip)) [
  | inl same ↦
      let address : other ≡ ip = ground (arith, same) in
      let both : some f ≡ some e = sym found' ∙ (ap (λ x. find_entry x c) address ∙ found) in
      let entries : f ≡ e = cc both in
      let no : false ≡ true = sym w ∙ (ap (λ x. x.valid) entries ∙ v) in absurd (cc no)
  | inr apart ↦ apart
]

some-known :
    (other : ℕ) (f : Entry) (c : List Entry)
    → find_entry other c ≡ some f
    → find_entry other c ≢ none
some-known other f c found h = let no : none ≡ some f = sym h ∙ found in cc no

-- What the queries of another address do to the entries.
find_entry-set_queried :
    (ip other : ℕ) (now : ℕ) (e f : Entry) (c : List Entry)
    → find_entry ip c ≡ some e
    → e.valid ≡ true
    → find_entry other c ≡ some f
    → f.valid ≡ false
    → find_entry ip (set_entry other (queried now f) c) ≡ some e
unfolding queried
find_entry-set_queried ip other now e f c found v found' w =
    find_entry-set_entry other ip (queried now f) c (find_entry-address other c f found')
      (some-known other f c found')
    ∙ rw (valid-apart ip other e f c found v found' w) found

none-apart :
    (ip other : ℕ) (e : Entry) (c : List Entry)
    → find_entry ip c ≡ some e
    → find_entry other c ≡ none
    → other == ip ≡ false
none-apart ip other e c found h = elim (Bool-cases (other == ip)) [
  | inl same ↦
      let address : other ≡ ip = ground (arith, same) in
      let no : none ≡ some e = sym h ∙ (ap (λ x. find_entry x c) address ∙ found) in absurd (cc no)
  | inr apart ↦ apart
]

resolve_found-keeps :
    (now : ℕ) (host : Host) (other ip : ℕ) (r : Option Entry) (e : Entry) (a : Arp)
    → find_entry other a.cache ≡ r
    → find_entry ip a.cache ≡ some e
    → e.valid ≡ true
    → find_entry ip (resolve_found now host other r a).2.cache ≡ some e
unfolding resolve_found queried
resolve_found-keeps now host other ip none e a h found v =
    find_entry-miss ip (queried now (unresolved other)) a.cache
      (none-apart ip other e a.cache found h)
    ∙ found
resolve_found-keeps now host other ip (some f) e a h found v =
    if-elim (λ (r : ArpResult × Option ℕ × Arp). find_entry ip r.2.cache ≡ some e) f.valid
      (λ _. found)
      (λ w.
        if-elim (λ (r : ArpResult × Option ℕ × Arp). find_entry ip r.2.cache ≡ some e)
          (timer_expired now f.next_event)
          (λ _.
            if-elim (λ (r : ArpResult × Option ℕ × Arp). find_entry ip r.2.cache ≡ some e)
              (leb max_resolve_attempts f.resolve_attempts) (λ _. found)
              (λ _. find_entry-set_queried ip other now e f a.cache found v h w))
          (λ _. found))

pub net_arp_resolve-keeps :
    (now : ℕ) (host : Host) (p : Outgoing) (ip : ℕ) (e : Entry) (a : Arp)
    → find_entry ip a.cache ≡ some e
    → e.valid ≡ true
    → find_entry ip (net_arp_resolve now host p a).2.cache ≡ some e
unfolding net_arp_resolve
net_arp_resolve-keeps now host p ip e a found v =
    if-elim (λ (r : ArpResult × Option ℕ × Arp). find_entry ip r.2.cache ≡ some e)
      (is_broadcast host p.destination_ip) (λ _. found)
      (λ _.
        resolve_found-keeps now host p.ipv4_nexthop ip (find_entry p.ipv4_nexthop a.cache) e a refl
          found v)
