-- ===== src/Arp/Tests.antt =====
-- The theorems about net/arp.c at a concrete cache.
use gogoboot.Base.{◌≡◌, refl, false, some, [], ◌∷◌, arith}
use gogoboot.Arp.{
  Arp, Host, Header, Outgoing, arp_okay, Entry, find_entry, resolved, net_arp_resolve,
  arp_process_packet, net_arp_init, packet_create_arp, is_broadcast,
}
use gogoboot.Arp.Cache.{IsSound}
use gogoboot.Arp.Resolve.{
  receive, flush, resolve, handle_all, net_arp_init-IsSound, net_arp_resolve-reply,
}

abbrev host : Host
host = record { macaddr = 0x020304050607; ipv4_address = 0xc0a80064; subnet_mask = 0xffffff00 }

abbrev router : Host
router = record { macaddr = 0x0a0b0c0d0e0f; ipv4_address = 0xc0a80001; subnet_mask = 0xffffff00 }

-- An entry that has failed, and one that is valid.
abbrev failed : Entry
failed = record {
  ipv4_address = 0xc0a80001;
  mac_address = 0;
  valid = false;
  resolve_attempts = 10;
  next_event = 900;
}

abbrev neighbour : Entry
neighbour = resolved 700 0xc0a80002 0x0c0c0c0c0c0c

abbrev arp : Arp
arp = record { cache = failed ∷ neighbour ∷ []; timer = 3000; sent = [] }

abbrev to_router : Outgoing
to_router = record { destination_ip = some 0x08080808; ipv4_nexthop = 0xc0a80001 }

arp-IsSound : IsSound arp.cache
unfolding IsSound
arp-IsSound = (omega arith, (omega arith, tt), (omega arith, tt, tt))

abbrev answer : Header
answer = packet_create_arp router 2 0x020304050607 0xc0a80064

net_arp_init-IsSound_example :
    IsSound
      (handle_all
        (resolve 10 host to_router ∷ receive 12 host answer ∷ flush 3010 ∷ [])
        (net_arp_init 5)).cache
net_arp_init-IsSound_example =
    net_arp_init-IsSound 5 (resolve 10 host to_router ∷ receive 12 host answer ∷ flush 3010 ∷ [])

net_arp_resolve-reply_example :
    net_arp_resolve 1010 host to_router (arp_process_packet 1000 host answer arp)
    ≡ (arp_okay, some 0x0a0b0c0d0e0f, arp_process_packet 1000 host answer arp)
unfolding packet_create_arp find_entry is_broadcast
net_arp_resolve-reply_example =
    net_arp_resolve-reply 1000 1010 host answer to_router arp refl refl refl refl refl
