-- ===== src/Net/Pending.antt =====
-- The packets of net/net.c that wait for an Ethernet address, together with the ARP cache of net/arp.c:
-- the reply that a packet waits for sets it free.
use gogoboot.Base.{
  ℕ, zero, suc, ◌+◌, ◌≡◌, ◌≢◌, All, Bool-cases, inl, inr, ◌==◌, refl, sym, ap, ◌∙◌, true, false,
  Option, none, some, List, [], ◌∷◌, ◌++◌, arith, get_elem?, length,
}
use mathlib.Core.Path.{subst}
use gogoboot.Arp.{
  Arp, Host, Header, ArpResult, arp_okay, arp_wait, arp_fail, Entry, find_entry, net_arp_resolve,
  is_broadcast, is_ethernet_ipv4, arp_op_reply, arp_process_packet, resolved,
}
use gogoboot.Arp.Cache.{known}
use gogoboot.Arp.Resolve.{arp_process_packet-reply, find_entry-learn_sender}
use gogoboot.Arp.Valid.{net_arp_resolve-okay, net_arp_resolve-valid, net_arp_resolve-keeps}
use gogoboot.Sink.{Packet}
use gogoboot.Net.{
  Net, NetInterface, Resolved, outgoing, set_destination_mac, resolver_step, resolve_pending,
  net_arp_resolver_pump,
}

-- Where a packet stands in a list.
abbrev pub Holds : List Packet → Packet → Type 0
Holds l p = (j : ℕ) × (get_elem? l j ≡ some p)

get_elem?-append_right {ℓ} :
    {A : Type ℓ} (xs ys : List A) (j : ℕ) → get_elem? (xs ++ ys) (length xs + j) ≡ get_elem? ys j
get_elem?-append_right [] ys j = let e : 0 + j ≡ j = omega arith in ap (λ k. get_elem? ys k) e
get_elem?-append_right (x ∷ xs) ys j =
    let e : suc (length xs) + j ≡ suc (length xs + j) = omega arith in
    ap (λ k. get_elem? (x ∷ xs ++ ys) k) e ∙ get_elem?-append_right xs ys j

resolver_step-ready :
    (x p : Packet) (r : ArpResult × Option ℕ × Arp) (rest : Arp → Resolved)
    → Holds (rest r.2).1 p
    → Holds (resolver_step x r rest).1 p
unfolding resolver_step
resolver_step-ready x p (arp_okay, mac, a) rest (j, h) = (suc j, h)
resolver_step-ready x p (arp_wait, mac, a) rest h = h
resolver_step-ready x p (arp_fail, mac, a) rest h = h

-- Each packet of the list whose next hop has a valid entry is ready after the loop.
resolve_pending-ready :
    (now : ℕ) (host : Host) (l : List Packet) (k : ℕ) (p : Packet) (e : Entry) (a : Arp)
    → get_elem? l k ≡ some p
    → is_broadcast host (outgoing p).destination_ip ≡ false
    → find_entry p.ipv4_nexthop a.cache ≡ some e
    → e.valid ≡ true
    → Holds (resolve_pending now host l a).1 (set_destination_mac (some e.mac_address) p)
unfolding resolve_pending resolver_step
resolve_pending-ready now host [] k p e a at nb found v =
    let no : none ≡ some p = at in absurd (cc no)
resolve_pending-ready now host (x ∷ l) zero p e a at nb found v =
    let q = set_destination_mac (some e.mac_address) p in
    let same : x ≡ p = cc at in
    subst
      (λ x'.
        Holds
          (resolver_step x' (net_arp_resolve now host (outgoing x') a)
            (resolve_pending now host l)).1
          q)
      (sym same)
      (subst (λ r. Holds (resolver_step p r (resolve_pending now host l)).1 q)
        (sym (net_arp_resolve-valid now host (outgoing p) e a nb found v)) (0, refl))
resolve_pending-ready now host (x ∷ l) (suc k) p e a at nb found v =
    resolver_step-ready x (set_destination_mac (some e.mac_address) p)
      (net_arp_resolve now host (outgoing x) a) (resolve_pending now host l)
      (resolve_pending-ready now host l k p e (net_arp_resolve now host (outgoing x) a).2 at nb
        (net_arp_resolve-keeps now host (outgoing x) p.ipv4_nexthop e a found v) v)

-- Packets for other next hops.
abbrev IsElsewhere : ℕ → Packet → Type 0
IsElsewhere ip q = q.ipv4_nexthop ≢ ip

set_destination_mac-IsElsewhere :
    (ip : ℕ) (mac : Option ℕ) (x : Packet)
    → IsElsewhere ip x
    → IsElsewhere ip (set_destination_mac mac x)
set_destination_mac-IsElsewhere ip none x h = h
set_destination_mac-IsElsewhere ip (some mac) x h = h

resolver_step-IsElsewhere :
    (ip : ℕ) (x : Packet) (r : ArpResult × Option ℕ × Arp) (rest : Arp → Resolved)
    → IsElsewhere ip x
    → All (IsElsewhere ip) (rest r.2).0
    → All (IsElsewhere ip) (resolver_step x r rest).0
unfolding resolver_step
resolver_step-IsElsewhere ip x (arp_okay, mac, a) rest h l = l
resolver_step-IsElsewhere ip x (arp_wait, mac, a) rest h l =
    (set_destination_mac-IsElsewhere ip mac x h, l)
resolver_step-IsElsewhere ip x (arp_fail, mac, a) rest h l = l

resolve_pending-IsElsewhere :
    (now : ℕ) (host : Host) (l : List Packet) (ip : ℕ) (e : Entry) (a : Arp)
    → find_entry ip a.cache ≡ some e
    → e.valid ≡ true
    → All (IsElsewhere ip) (resolve_pending now host l a).0
unfolding resolve_pending resolver_step
resolve_pending-IsElsewhere now host [] ip e a found v = tt
resolve_pending-IsElsewhere now host (x ∷ l) ip e a found v =
    elim (Bool-cases (x.ipv4_nexthop == ip)) [
      | inl same ↦
          let address : ip ≡ x.ipv4_nexthop = ground (arith, same) in
          let (mac, okay) =
            net_arp_resolve-okay now host (outgoing x) e a
              (ap (λ k. find_entry k a.cache) (sym address) ∙ found) v in
          subst (λ r. All (IsElsewhere ip) (resolver_step x r (resolve_pending now host l)).0)
            (sym okay) (resolve_pending-IsElsewhere now host l ip e a found v)
      | inr apart ↦
          resolver_step-IsElsewhere ip x (net_arp_resolve now host (outgoing x) a)
            (resolve_pending now host l) (ground (arith, apart))
            (resolve_pending-IsElsewhere now host l ip e (net_arp_resolve now host (outgoing x) a).2
              (net_arp_resolve-keeps now host (outgoing x) ip e a found v) v)
    ]

-- A packet waits for its next hop, whose address has an entry in the cache, and a reply comes from that
-- address: the next pump moves the packet, with the reply's Ethernet address as its destination, to the
-- transmission queue, behind the packets that are there already, and no packet with that next hop is left
-- waiting. The packet is not a broadcast.
pub net_arp_resolver_pump-reply :
    (t now : ℕ) (i : NetInterface) (reply : Header) (n : Net) (k : ℕ) (p : Packet)
    → is_ethernet_ipv4 reply ≡ true
    → reply.operation ≡ arp_op_reply
    → get_elem? n.arp_lookup_list k ≡ some p
    → reply.sender_ip ≡ p.ipv4_nexthop
    → known reply.sender_ip n.arp_state.cache ≡ true
    → is_broadcast i.host (outgoing p).destination_ip ≡ false
    → (j : ℕ) × (get_elem?
          (net_arp_resolver_pump now i
            (record n { arp_state = arp_process_packet t i.host reply n.arp_state })).txqueue
          (length n.txqueue + j)
        ≡ some (record p { destination_mac = reply.sender_mac; mac_valid = true }))
      × All
          (λ q. q.ipv4_nexthop ≢ reply.sender_ip)
          (net_arp_resolver_pump now i (record n {
            arp_state = arp_process_packet t i.host reply n.arp_state;
          })).arp_lookup_list
unfolding net_arp_resolver_pump
net_arp_resolver_pump-reply t now i reply n k p eth op at from kn nb =
    let a' = arp_process_packet t i.host reply n.arp_state in
    let e = resolved t reply.sender_ip reply.sender_mac in
    let found : find_entry p.ipv4_nexthop a'.cache ≡ some e =
      ap (λ ip. find_entry ip a'.cache) (sym from)
      ∙ (ap (λ x. find_entry reply.sender_ip x.cache)
            (arp_process_packet-reply t i.host reply n.arp_state eth op)
          ∙ find_entry-learn_sender t reply n.arp_state kn) in
    let (j, h) = resolve_pending-ready now i.host n.arp_lookup_list k p e a' at nb found refl in
    (
      j,
      get_elem?-append_right n.txqueue (resolve_pending now i.host n.arp_lookup_list a').1 j ∙ h,
      resolve_pending-IsElsewhere now i.host n.arp_lookup_list reply.sender_ip e a'
          (ap (λ k. find_entry k a'.cache) from ∙ found) refl,
    )
