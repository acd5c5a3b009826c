-- ===== src/Arp/Resolve.antt =====
-- Resolution by net/arp.c: what `net_arp_resolve` answers, and the cache over any course of events.
use gogoboot.Base.{
  ℕ, ◌≤◌, ◌≡◌, refl, sym, ap, ◌∙◌, true, false, not, ◌&&◌, ◌||◌, inl, inr, Bool-cases, Option, none,
  some, List, [], ◌∷◌, arith, leb, ◌==◌, if◌then◌else◌, if-elim,
}
use gogoboot.Timer.{timer_expired}
use gogoboot.Arp.{
  Arp, Host, Header, Outgoing, ArpResult, arp_okay, arp_wait, arp_fail, Entry, find_entry, resolved,
  queried, max_resolve_attempts, learn_sender, process_request, arp_process_packet,
  is_ethernet_ipv4, arp_op_reply, arp_op_request, arp_cache_flush, resolve_found, net_arp_resolve,
  is_broadcast, net_arp_init,
}
use gogoboot.Arp.Cache.{
  IsSound, known, find_entry-address, HasOther-find_entry, IsSound-update_arp_cache,
  IsSound-set_entry, IsSound-flush_entries, find_entry-update_arp_cache, find_entry-hit,
  find_entry-miss,
}

IsSound-process_request :
    (now : ℕ) (host : Host) (p : Header) (a : Arp)
    → IsSound a.cache
    → IsSound (process_request now host p a).cache
unfolding process_request learn_sender
IsSound-process_request now host p a s =
    elim (Bool-cases (not (host.ipv4_address == 0) && (p.target_ip == host.ipv4_address))) [
      | inl e ↦ rw e (IsSound-update_arp_cache now p.sender_ip p.sender_mac true a.cache s)
      | inr e ↦ rw e (IsSound-update_arp_cache now p.sender_ip p.sender_mac false a.cache s)
    ]

IsSound-arp_process_packet :
    (now : ℕ) (host : Host) (p : Header) (a : Arp)
    → IsSound a.cache
    → IsSound (arp_process_packet now host p a).cache
unfolding arp_process_packet learn_sender
IsSound-arp_process_packet now host p a s = elim (Bool-cases (is_ethernet_ipv4 p)) [
  | inl e ↦ rw e (elim (Bool-cases (p.operation == arp_op_request)) [
    | inl q ↦ rw q (IsSound-process_request now host p a s)
    | inr q ↦ rw q (elim (Bool-cases (p.operation == arp_op_reply)) [
      | inl r ↦ rw r (IsSound-update_arp_cache now p.sender_ip p.sender_mac false a.cache s)
      | inr r ↦ rw r s
    ])
  ])
  | inr e ↦ rw e s
]

-- `find_entry` finds no entry with more than ten attempts.
find_entry-attempts :
    (ip : ℕ) (c : List Entry) (e : Entry)
    → IsSound c
    → find_entry ip c ≡ some e
    → e.resolve_attempts ≤ 10
unfolding IsSound find_entry
find_entry-attempts ip [] e s h = let none_some : none ≡ some e = h in absurd (cc none_some)
find_entry-attempts ip (x ∷ c) e (p, _, s) h = elim (Bool-cases (x.ipv4_address == ip)) [
  | inl eq ↦
      let same : x ≡ e = cc (sym (find_entry-hit ip x c eq) ∙ h) in
      let attempts : x.resolve_attempts ≡ e.resolve_attempts = ap (λ y. y.resolve_attempts) same in
      omega (arith, p, attempts)
  | inr ne ↦ find_entry-attempts ip c e s (sym (find_entry-miss ip x c ne) ∙ h)
]

IsSound-resolve_found :
    (now : ℕ) (host : Host) (ip : ℕ) (r : Option Entry) (a : Arp)
    → find_entry ip a.cache ≡ r
    → IsSound a.cache
    → IsSound (resolve_found now host ip r a).2.cache
unfolding resolve_found queried IsSound
IsSound-resolve_found now host ip none a h s = (omega arith, HasOther-find_entry ip a.cache h, s)
IsSound-resolve_found now host ip (some e) a h s =
    if-elim (λ (r : ArpResult × Option ℕ × Arp). IsSound r.2.cache) e.valid (λ _. s)
      (λ _.
        if-elim (λ (r : ArpResult × Option ℕ × Arp). IsSound r.2.cache)
          (timer_expired now e.next_event)
          (λ _.
            if-elim (λ (r : ArpResult × Option ℕ × Arp). IsSound r.2.cache)
              (leb max_resolve_attempts e.resolve_attempts) (λ _. s)
              (λ m.
                IsSound-set_entry ip (queried now e) a.cache (find_entry-address ip a.cache e h)
                  (ground (arith, m)) s))
          (λ _. s))

IsSound-net_arp_resolve :
    (now : ℕ) (host : Host) (p : Outgoing) (a : Arp)
    → IsSound a.cache
    → IsSound (net_arp_resolve now host p a).2.cache
unfolding net_arp_resolve
IsSound-net_arp_resolve now host p a s = elim (Bool-cases (is_broadcast host p.destination_ip)) [
  | inl b ↦ rw b s
  | inr b ↦
      rw b
        (IsSound-resolve_found now host p.ipv4_nexthop (find_entry p.ipv4_nexthop a.cache) a refl s)
]

-- What happens to the cache.
pub data Event : Type 0 where
  receive : ℕ → Host → Header → Event
  flush : ℕ → Event
  resolve : ℕ → Host → Outgoing → Event

unfoldable pub handle : Event → Arp → Arp
handle (receive now host p) a = arp_process_packet now host p a
handle (flush now) a = arp_cache_flush now a
handle (resolve now host p) a = (net_arp_resolve now host p a).2

unfoldable pub handle_all : List Event → Arp → Arp
unfolding handle
handle_all [] a = a
handle_all (e ∷ rest) a = handle_all rest (handle e a)

IsSound-handle_all : (l : List Event) (a : Arp) → IsSound a.cache → IsSound (handle_all l a).cache
unfolding handle_all handle arp_cache_flush
IsSound-handle_all [] a s = s
IsSound-handle_all (receive now host p ∷ l) a s =
    IsSound-handle_all l (arp_process_packet now host p a)
      (IsSound-arp_process_packet now host p a s)
IsSound-handle_all (flush now ∷ l) a s =
    IsSound-handle_all l (arp_cache_flush now a) (IsSound-flush_entries now a.cache s)
IsSound-handle_all (resolve now host p ∷ l) a s =
    IsSound-handle_all l (net_arp_resolve now host p a).2 (IsSound-net_arp_resolve now host p a s)

-- From `net_arp_init` on, whatever packets come and whatever is resolved: the cache has no two entries
-- for one address, and none with more than ten attempts.
pub net_arp_init-IsSound :
    (now : ℕ) (l : List Event) → IsSound (handle_all l (net_arp_init now)).cache
unfolding net_arp_init IsSound
net_arp_init-IsSound now l = IsSound-handle_all l (net_arp_init now) tt

-- An entry that has failed.
abbrev HasFailed : Option Entry → Type 0
HasFailed r = (e : Entry) × (r ≡ some e) × (e.valid ≡ false) × (10 ≤ e.resolve_attempts)

resolve_found-fail :
    (now : ℕ) (host : Host) (ip : ℕ) (r : Option Entry) (a : Arp)
    → (resolve_found now host ip r a).0 ≡ arp_fail
    → HasFailed r
unfolding resolve_found
resolve_found-fail now host ip none a h = cc
resolve_found-fail now host ip (some e) a h =
    if-elim (λ (r : ArpResult × Option ℕ × Arp). r.0 ≡ arp_fail → HasFailed (some e)) e.valid
      (λ _ (x : arp_okay ≡ arp_fail). cc)
      (λ v.
        if-elim (λ (r : ArpResult × Option ℕ × Arp). r.0 ≡ arp_fail → HasFailed (some e))
          (timer_expired now e.next_event)
          (λ _.
            if-elim (λ (r : ArpResult × Option ℕ × Arp). r.0 ≡ arp_fail → HasFailed (some e))
              (leb max_resolve_attempts e.resolve_attempts) (λ m _. (e, refl, v, ground (arith, m)))
              (λ _ (x : arp_wait ≡ arp_fail). cc))
          (λ _ (x : arp_wait ≡ arp_fail). cc))
      h

-- A resolution that fails: the next hop has an entry that is not valid, with ten attempts.
pub net_arp_resolve-fail :
    (now : ℕ) (host : Host) (p : Outgoing) (a : Arp)
    → IsSound a.cache
    → (net_arp_resolve now host p a).0 ≡ arp_fail
    → (e : Entry) × (find_entry p.ipv4_nexthop a.cache ≡ some e)
      × (e.valid ≡ false)
      × (e.resolve_attempts ≡ 10)
unfolding net_arp_resolve
net_arp_resolve-fail now host p a s h =
    if-elim
      (λ (r : ArpResult × Option ℕ × Arp).
        r.0 ≡ arp_fail
        → (e : Entry) × (find_entry p.ipv4_nexthop a.cache ≡ some e)
          × (e.valid ≡ false)
          × (e.resolve_attempts ≡ 10))
      (is_broadcast host p.destination_ip) (λ _ (x : arp_okay ≡ arp_fail). cc)
      (λ _ x.
        let (e, f, v, m) =
          resolve_found-fail now host p.ipv4_nexthop (find_entry p.ipv4_nexthop a.cache) a x in
        (e, f, v, omega (arith, m, find_entry-attempts p.ipv4_nexthop a.cache e s f)))
      h

pub arp_process_packet-reply :
    (now : ℕ) (host : Host) (reply : Header) (a : Arp)
    → is_ethernet_ipv4 reply ≡ true
    → reply.operation ≡ arp_op_reply
    → arp_process_packet now host reply a ≡ learn_sender now reply false a
unfolding arp_process_packet
arp_process_packet-reply now host reply a eth op =
    let no_request : reply.operation == arp_op_request ≡ false = ground (arith, op) in
    let is_reply : reply.operation == arp_op_reply ≡ true = ground (arith, op) in
    rw (eth, no_request, is_reply)

pub resolve_found-valid :
    (now : ℕ) (host : Host) (ip : ℕ) (e : Entry) (a : Arp)
    → e.valid ≡ true
    → resolve_found now host ip (some e) a ≡ (arp_okay, some e.mac_address, a)
unfolding resolve_found
resolve_found-valid now host ip e a v =
    if-elim (λ (r : ArpResult × Option ℕ × Arp). r ≡ (arp_okay, some e.mac_address, a)) e.valid
      (λ _. refl) (λ x. cc)

pub find_entry-learn_sender :
    (now : ℕ) (reply : Header) (a : Arp)
    → known reply.sender_ip a.cache ≡ true
    → find_entry reply.sender_ip (learn_sender now reply false a).cache
      ≡ some (resolved now reply.sender_ip reply.sender_mac)
unfolding learn_sender
find_entry-learn_sender now reply a kn =
    let ip = reply.sender_ip in
    let same : ((ip == ip) && (false || known ip a.cache)) ≡ true =
      let refl_test : ip == ip ≡ true = ground arith in rw refl_test kn in
    find_entry-update_arp_cache now ip reply.sender_mac false ip a.cache
    ∙ ap (λ b. if b then some (resolved now ip reply.sender_mac) else find_entry ip a.cache) same

-- A reply from an address that has an entry: a packet with it as next hop, but for a broadcast, is given
-- the reply's Ethernet address then, and nothing is sent.
pub net_arp_resolve-reply :
    (t now : ℕ) (host : Host) (reply : Header) (p : Outgoing) (a : Arp)
    → is_ethernet_ipv4 reply ≡ true
    → reply.operation ≡ arp_op_reply
    → reply.sender_ip ≡ p.ipv4_nexthop
    → known reply.sender_ip a.cache ≡ true
    → is_broadcast host p.destination_ip ≡ false
    → net_arp_resolve now host p (arp_process_packet t host reply a)
      ≡ (arp_okay, some reply.sender_mac, arp_process_packet t host reply a)
unfolding net_arp_resolve
net_arp_resolve-reply t now host reply p a eth op from kn nb =
    let a' = arp_process_packet t host reply a in
    let found : find_entry p.ipv4_nexthop a'.cache
        ≡ some (resolved t reply.sender_ip reply.sender_mac) =
      ap (λ ip. find_entry ip a'.cache) (sym from)
      ∙ (ap (λ x. find_entry reply.sender_ip x.cache)
            (arp_process_packet-reply t host reply a eth op)
          ∙ find_entry-learn_sender t reply a kn) in
    rw nb (
      ap (λ r. resolve_found now host p.ipv4_nexthop r a') found
      ∙ resolve_found-valid now host p.ipv4_nexthop (resolved t reply.sender_ip reply.sender_mac) a'
          refl)
