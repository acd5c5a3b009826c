-- ===== src/Dhcp/Tests.antt =====
-- The theorems about net/dhcp.c at a concrete server, and runs of the client.
use gogoboot.Timer.{word}
use gogoboot.Base.{
  ◌++◌, ◌+◌, ◌*◌, ◌%◌, ◌<◌, ◌⊎◌, List, ◌≡◌, refl, true, [], ◌∷◌, ◌++◌, arith, replicate,
}
use gogoboot.Dhcp.{
  renew, select, bound, Offer, Dhcp, unconfigured, configured, process_dhcp_reply, process_options,
  reset_offer, dhcp_init, initial,
}
use gogoboot.Dhcp.Machine.{Event, timeout, packet, handle_all, IsConsistent, dhcp_init-IsConsistent}
use gogoboot.Dhcp.Options.{
  IsWord, tlv, encode, accept_all, reply, offer_options, process_options-encode,
  process_dhcp_reply-offer,
}
use gogoboot.Dhcp.Lease.{
  offer_reply, ack_reply, request_for, timeouts, handle_all-lease, timeouts-given_up,
}

abbrev server_offer : Offer
server_offer = record {
  server_id = 0xc0a80001;
  ipv4_address = 0xc0a80064;
  subnet_mask = 0xffffff00;
  gateway = 0xc0a80001;
  dns_server = 0xc0a80002;
  lease_time = 3600;
}

abbrev waiting : Dhcp
waiting = record (initial unconfigured) { state = select; timer = 1000 }

abbrev leased : Dhcp
leased = record (initial (configured server_offer)) {
  state = bound;
  offer = server_offer;
  timer = 1000;
}

server_offer-IsWord : IsWord server_offer
server_offer-IsWord = record {
  server_id_lt = omega arith;
  subnet_mask_lt = omega arith;
  gateway_lt = omega arith;
  dns_server_lt = omega arith;
  lease_time_lt = omega arith;
}

abbrev leased_events : List Event
leased_events = packet 10 (offer_reply server_offer) ∷ packet 20 (ack_reply server_offer) ∷ []

handle_all-lease_example :
    ((handle_all leased_events waiting).state ≡ bound)
    × ((handle_all leased_events waiting).offer ≡ server_offer)
    × ((handle_all leased_events waiting).interface ≡ record {
      ipv4_address = server_offer.ipv4_address;
      subnet_mask = server_offer.subnet_mask;
      gateway = server_offer.gateway;
      dns_server = server_offer.dns_server;
    })
    × ((handle_all leased_events waiting).sent ≡ waiting.sent ++ request_for 10 server_offer ∷ [])
    × ((4294967 < 3600) ⊎ ((handle_all leased_events waiting).timer ≡ (20 + 3100 * 200) % word))
handle_all-lease_example = handle_all-lease 10 20 server_offer waiting refl server_offer-IsWord refl

dhcp_init-IsConsistent_example : IsConsistent (
    handle_all
      (timeout 1005 ∷ packet 1010 (offer_reply server_offer) ∷ timeout 3000 ∷ [])
      (dhcp_init 5 unconfigured))
dhcp_init-IsConsistent_example =
    dhcp_init-IsConsistent 5 unconfigured
      (timeout 1005 ∷ packet 1010 (offer_reply server_offer) ∷ timeout 3000 ∷ [])

process_options-encode_example :
    process_options 2 0
      (encode (tlv 0x0c (65 ∷ 66 ∷ []) ∷ tlv 0x35 (2 ∷ []) ∷ []) ++ 0xff ∷ 7 ∷ [])
      server_offer
    ≡ accept_all 2 (tlv 0x0c (65 ∷ 66 ∷ []) ∷ tlv 0x35 (2 ∷ []) ∷ []) server_offer
process_options-encode_example =
    process_options-encode 2 (tlv 0x0c (65 ∷ 66 ∷ []) ∷ tlv 0x35 (2 ∷ []) ∷ []) (7 ∷ [])
      server_offer ((ground arith, ground arith), ((ground arith, ground arith), tt))

process_dhcp_reply-offer_example :
    process_dhcp_reply (reply 0xc0a80064 (offer_options 2 server_offer)) 2 (reset_offer 1)
    ≡ (true, server_offer)
process_dhcp_reply-offer_example =
    process_dhcp_reply-offer 2 server_offer (reset_offer 1) server_offer-IsWord

timeouts-given_up_example :
    ((handle_all (timeouts (7 ∷ replicate 99 8)) leased).state ≡ renew)
    × ((handle_all (timeouts (7 ∷ replicate 99 8)) leased).interface ≡ leased.interface)
    × ((handle_all (timeouts (7 ∷ replicate 99 8 ++ 8 ∷ [])) leased).state ≡ select)
    × ((handle_all (timeouts (7 ∷ replicate 99 8 ++ 8 ∷ [])) leased).interface ≡ unconfigured)
timeouts-given_up_example =
    timeouts-given_up 7 (replicate 99 8) (8 ∷ []) leased refl (omega arith) refl
