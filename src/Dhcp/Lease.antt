-- ===== src/Dhcp/Lease.antt =====
-- How a lease of net/dhcp.c is acquired, when its renewal starts and when it is given up.
use gogoboot.Base.{
  ℕ, ◌+◌, ◌-◌, ◌*◌, ◌%◌, ◌≤◌, ◌<◌, ◌≡◌, refl, ap, ◌∙◌, true, false, List, [], ◌∷◌, ◌++◌, arith, ltb,
  length, map, Bool-cases, inl, inr, ◌⊎◌, if◌then◌else◌,
}
use gogoboot.Timer.{word, set_timer_sec, set_timer_ms, set_timer_ticks, limit_duration}
use gogoboot.Timer.Expiry.{set_timer_ms_lem}
use gogoboot.Dhcp.{
  select, request, bound, renew, Offer, unconfigured, Message, Dhcp, Reply, bytes32,
  packet_create_dhcp, type_offer, type_ack, type_nack, dhcp_send_request, process_dhcp_reply,
  enter_select, enter_discover, enter_request, enter_bound, bound_time, enter_renew, retry_renew,
  timer_in, dhcp_timer, unsuitable, select_pump, configured, ack_pump, nack_pump, pump_in,
  dhcp_pump, reset_offer,
}
use gogoboot.Dhcp.Machine.{Event, timeout, packet, handle, handle_all}
use gogoboot.Dhcp.Options.{
  IsWord, reply, offer_options, process_dhcp_reply-offer, process_dhcp_reply-other,
}

-- The server's replies.
abbrev pub offer_reply : Offer → Reply
offer_reply o = reply o.ipv4_address (offer_options type_offer o)

abbrev pub ack_reply : Offer → Reply
ack_reply o = reply o.ipv4_address (offer_options type_ack o)

-- The request for an offer.
abbrev pub request_for : ℕ → Offer → Message
request_for now o = record {
  xid = now;
  options =
      0x63
      ∷ 0x82
      ∷ 0x53
      ∷ 0x63
      ∷ 0x35
      ∷ 1
      ∷ 3
      ∷ 0x39
      ∷ 2
      ∷ 5
      ∷ 0x78
      ∷ 0x32
      ∷ 4
      ∷ (bytes32 o.ipv4_address ++ 0x36 ∷ 4 ∷ (bytes32 o.server_id ++ 0xff ∷ []));
}

-- Ticks from an acknowledgement to the renewal: 500 seconds less than the lease, or one tick for a lease of
-- just that; a shorter lease wraps round.
abbrev pub renewal_ticks : ℕ → ℕ
renewal_ticks lease_time =
    if ltb lease_time 500
    then 858993460 - (500 - lease_time) * 200
    else if ltb 500 lease_time
    then (lease_time - 500) * 200
    else 1

select_pump-offer :
    (now : ℕ) (o : Offer) (d : Dhcp)
    → unsuitable o ≡ false
    → select_pump now (true, o) d ≡ record d {
      state = request;
      offer = o;
      select_wait_time = 5;
      timer = set_timer_sec now 5;
      sent = d.sent ++ request_for now o ∷ [];
    }
unfolding select_pump enter_request dhcp_send_request packet_create_dhcp
select_pump-offer now o d u = rw u

dhcp_pump-offer :
    (now : ℕ) (o : Offer) (d : Dhcp)
    → d.state ≡ select
    → IsWord o
    → unsuitable o ≡ false
    → dhcp_pump now (offer_reply o) d ≡ record d {
      state = request;
      offer = o;
      select_wait_time = 5;
      timer = set_timer_sec now 5;
      sent = d.sent ++ request_for now o ∷ [];
    }
unfolding dhcp_pump pump_in
dhcp_pump-offer now o d s w u =
    ap (λ x. pump_in x now (offer_reply o) d) s
    ∙ (ap (λ r. select_pump now r d) (process_dhcp_reply-offer type_offer o d.offer w)
        ∙ select_pump-offer now o d u)

pump-ack :
    (now : ℕ) (o : Offer) (d : Dhcp)
    → IsWord o
    → nack_pump now (ack_reply o) (process_dhcp_reply (ack_reply o) type_nack d.offer) d
      ≡ record d {
        state = bound;
        offer = o;
        timer = set_timer_sec now (bound_time o.lease_time);
        interface = configured o;
      }
unfolding nack_pump ack_pump enter_bound
pump-ack now o d w =
    ap (λ r. nack_pump now (ack_reply o) r d)
      (process_dhcp_reply-other type_ack type_nack o d.offer (ground arith))
    ∙ ap (λ r. ack_pump now r (record d { offer = reset_offer o.ipv4_address }))
        (process_dhcp_reply-offer type_ack o (reset_offer o.ipv4_address) w)

acknowledged :
    (d : Dhcp) (now : ℕ) (o : Offer)
    → d.state ≡ request
    → IsWord o
    → dhcp_pump now (ack_reply o) d ≡ record d {
      state = bound;
      offer = o;
      timer = set_timer_sec now (bound_time o.lease_time);
      interface = configured o;
    }
unfolding dhcp_pump pump_in
acknowledged d now o s w = ap (λ x. pump_in x now (ack_reply o) d) s ∙ pump-ack now o d w

-- The client after an offer and its acknowledgement.
handle_all-leased :
    (t1 t2 : ℕ) (o : Offer) (d : Dhcp)
    → d.state ≡ select
    → IsWord o
    → unsuitable o ≡ false
    → handle_all (packet t1 (offer_reply o) ∷ packet t2 (ack_reply o) ∷ []) d ≡ record d {
      state = bound;
      offer = o;
      select_wait_time = 5;
      timer = set_timer_sec t2 (bound_time o.lease_time);
      interface = configured o;
      sent = d.sent ++ request_for t1 o ∷ [];
    }
unfolding handle_all handle
handle_all-leased t1 t2 o d s w u =
    ap (λ x. dhcp_pump t2 (ack_reply o) x) (dhcp_pump-offer t1 o d s w u)
    ∙ acknowledged
        (record d {
          state = request;
          offer = o;
          select_wait_time = 5;
          timer = set_timer_sec t1 5;
          sent = d.sent ++ request_for t1 o ∷ [];
        })
        t2 o refl w

-- For a lease of more than 500 and at most 4294967 seconds the renewal's timer is set 500 seconds less
-- than the lease ahead.
pub set_timer_sec-bound_time :
    (now lease_time : ℕ)
    → 500 < lease_time
    → lease_time ≤ 4294967
    → set_timer_sec now (bound_time lease_time) ≡ (now + (lease_time - 500) * 200) % word
unfolding set_timer_sec
set_timer_sec-bound_time now l p q =
    let ms : bound_time l * 1000 % word ≡ (l - 500) * 1000 = omega (arith, p, q) in
    rw (ms, set_timer_ms_lem now ((l - 500) * 1000) (omega (arith, p)) (omega (arith, q)))
      (omega (arith, p))

-- For a lease of 180 to 499 seconds the renewal's timer is set 858993460 ticks ahead, less 200 for each
-- second that the lease is shorter than 500.
set_timer_sec-short_lease :
    (now lease_time : ℕ)
    → 180 ≤ lease_time
    → lease_time < 500
    → set_timer_sec now (bound_time lease_time)
      ≡ (now + (858993460 - (500 - lease_time) * 200)) % word
unfolding set_timer_sec
set_timer_sec-short_lease now l p q =
    let ms : bound_time l * 1000 % word ≡ word - (500 - l) * 1000 = omega (arith, p, q) in
    rw (ms, set_timer_ms_lem now (word - (500 - l) * 1000) (omega (arith, p)) (omega (arith, q)))
      (omega (arith, p, q))

set_timer_sec-even_lease : (now : ℕ) → set_timer_sec now (bound_time 500) ≡ (now + 1) % word
unfolding set_timer_sec set_timer_ms set_timer_ticks limit_duration
set_timer_sec-even_lease now = refl

set_timer_sec-renewal_ticks :
    (now lease_time : ℕ)
    → 180 ≤ lease_time
    → lease_time ≤ 4294967
    → set_timer_sec now (bound_time lease_time) ≡ (now + renewal_ticks lease_time) % word
set_timer_sec-renewal_ticks now l p q = elim (Bool-cases (ltb l 500)) [
  | inl short ↦ rw short (set_timer_sec-short_lease now l p (ground (arith, short)))
  | inr long ↦ elim (Bool-cases (ltb 500 l)) [
    | inl more ↦ rw (long, more) (set_timer_sec-bound_time now l (ground (arith, more)) q)
    | inr none_more ↦
        let even : l ≡ 500 = ground (arith, long, none_more) in
        rw (long, none_more) (rw even (set_timer_sec-even_lease now))
  ]
]

-- A client that waits for offers and gets a suitable one, and then the server's acknowledgement: it sends
-- one request, for the address and the server of the offer; the interface gets the offer's numbers. For a
-- lease of up to 4294967 seconds the renewal begins 500 seconds before its end, but if the lease is shorter
-- than 500 seconds only after more than 49 days.
pub handle_all-lease :
    (t1 t2 : ℕ) (o : Offer) (d : Dhcp)
    → d.state ≡ select
    → IsWord o
    → unsuitable o ≡ false
    → let d' = handle_all (packet t1 (offer_reply o) ∷ packet t2 (ack_reply o) ∷ []) d in
      (d'.state ≡ bound)
      × (d'.offer ≡ o)
      × (d'.interface ≡ record {
        ipv4_address = o.ipv4_address;
        subnet_mask = o.subnet_mask;
        gateway = o.gateway;
        dns_server = o.dns_server;
      })
      × (d'.sent ≡ d.sent ++ request_for t1 o ∷ [])
      × ((4294967 < o.lease_time) ⊎ (d'.timer ≡ (t2 + renewal_ticks o.lease_time) % word))
handle_all-lease t1 t2 o d s w u =
    let e = handle_all-leased t1 t2 o d s w u in
    (
      ap (λ (x : Dhcp). x.state) e,
      ap (λ (x : Dhcp). x.offer) e,
      ap (λ (x : Dhcp). x.interface) e,
      ap (λ (x : Dhcp). x.sent) e,
      elim (Bool-cases (ltb 4294967 o.lease_time)) [
        | inl long ↦ inl (ground (arith, long))
        | inr fits ↦ inr (
            ap (λ (x : Dhcp). x.timer) e
            ∙ set_timer_sec-renewal_ticks t2 o.lease_time (ground (arith, u))
                (ground (arith, fits)))
      ],
    )

dhcp_timer-renew : (now : ℕ) (d : Dhcp) → d.state ≡ renew → dhcp_timer now d ≡ retry_renew now d
unfolding dhcp_timer timer_in
dhcp_timer-renew now d s = ap (λ x. timer_in x now d) s

retry_renew-more :
    (now : ℕ) (d : Dhcp)
    → 1 < d.renew_retry_remaining
    → ((retry_renew now d).state ≡ d.state)
      × ((retry_renew now d).interface ≡ d.interface)
      × ((retry_renew now d).renew_retry_remaining ≡ d.renew_retry_remaining - 1)
unfolding retry_renew dhcp_send_request
retry_renew-more now d h =
    let more : ltb 0 (d.renew_retry_remaining - 1) ≡ true = ground (arith, h) in
    (rw more, rw more, rw more)

retry_renew-last :
    (now : ℕ) (d : Dhcp)
    → d.renew_retry_remaining ≤ 1
    → ((retry_renew now d).state ≡ select) × ((retry_renew now d).interface ≡ unconfigured)
unfolding retry_renew enter_discover enter_select
retry_renew-last now d h =
    let no_more : ltb 0 (d.renew_retry_remaining - 1) ≡ false = ground (arith, h) in
    (rw no_more, rw no_more)

-- The timer runs out at these times, and no packet comes.
abbrev pub timeouts : List ℕ → List Event
timeouts l = map timeout l

renewing :
    (l : List ℕ) (d : Dhcp)
    → d.state ≡ renew
    → length l < d.renew_retry_remaining
    → ((handle_all (timeouts l) d).state ≡ renew)
      × ((handle_all (timeouts l) d).interface ≡ d.interface)
unfolding handle_all handle
renewing [] d s h = (s, refl)
renewing (t ∷ l) d s h =
    let (same, kept, less) = retry_renew-more t d (omega (arith, h)) in
    let rest = renewing l (retry_renew t d) (same ∙ s) (omega (arith, h, less)) in
    rw (handle_all, handle, dhcp_timer-renew t d s) (rest.0, rest.1 ∙ kept)

given_up :
    (l : List ℕ) (d : Dhcp)
    → d.state ≡ renew
    → 0 < length l
    → length l ≡ d.renew_retry_remaining
    → ((handle_all (timeouts l) d).state ≡ select)
      × ((handle_all (timeouts l) d).interface ≡ unconfigured)
unfolding handle_all handle
given_up [] d s p h = absurd (omega (arith, p))
given_up (t ∷ []) d s p h =
    rw (handle_all, handle, dhcp_timer-renew t d s) (retry_renew-last t d (omega (arith, h)))
given_up (t ∷ t' ∷ l) d s p h =
    let (same, kept, less) = retry_renew-more t d (omega (arith, h)) in
    rw (handle_all, handle, dhcp_timer-renew t d s)
      (given_up (t' ∷ l) (retry_renew t d) (same ∙ s) (omega arith) (omega (arith, h, less)))

dhcp_timer-bound : (now : ℕ) (d : Dhcp) → d.state ≡ bound → dhcp_timer now d ≡ enter_renew now d
unfolding dhcp_timer timer_in
dhcp_timer-bound now d s = ap (λ x. timer_in x now d) s

-- A bound client whose timer runs out, and then less than 100 times more, with no packet in between: it
-- is in the state `renew`, and the interface is as it was.
timeouts-renewing :
    (t : ℕ) (l : List ℕ) (d : Dhcp)
    → d.state ≡ bound
    → length l < 100
    → ((handle_all (timeouts (t ∷ l)) d).state ≡ renew)
      × ((handle_all (timeouts (t ∷ l)) d).interface ≡ d.interface)
unfolding handle_all handle enter_renew dhcp_send_request
timeouts-renewing t l d s h =
    rw (handle_all, handle, dhcp_timer-bound t d s) (renewing l (enter_renew t d) refl h)

-- A bound client whose timer runs out, and then 100 times more, with no packet in between: before the last
-- of these the client is in the state `renew` and the interface as it was, and with it the interface has no
-- addresses left and the client waits for an offer.
pub timeouts-given_up :
    (t : ℕ) (before after : List ℕ) (d : Dhcp)
    → d.state ≡ bound
    → length before < 100
    → length (before ++ after) ≡ 100
    → ((handle_all (timeouts (t ∷ before)) d).state ≡ renew)
      × ((handle_all (timeouts (t ∷ before)) d).interface ≡ d.interface)
      × ((handle_all (timeouts (t ∷ before ++ after)) d).state ≡ select)
      × ((handle_all (timeouts (t ∷ before ++ after)) d).interface ≡ unconfigured)
unfolding handle_all handle enter_renew dhcp_send_request
timeouts-given_up t before after d s h n =
    let (state', kept) = timeouts-renewing t before d s h in
    let rest : ((handle_all (timeouts (t ∷ before ++ after)) d).state ≡ select)
        × ((handle_all (timeouts (t ∷ before ++ after)) d).interface ≡ unconfigured) =
      rw (handle_all, handle, dhcp_timer-bound t d s)
        (given_up (before ++ after) (enter_renew t d) refl (omega (arith, n)) n) in
    (state', kept, rest.0, rest.1)
