-- ===== src/Dhcp/Machine.antt =====
-- The state machine of the client: its invariant, what acquires and what gives up a lease, and when
-- the renewal starts.
use gogoboot.Base.{
  ℕ, ◌-◌, ◌≤◌, ◌<◌, ◌≡◌, ◌≢◌, refl, Bool, true, false, inl, inr, Bool-cases, ◌⊎◌, List, [], ◌∷◌,
  arith, ltb,
}
use gogoboot.Dhcp.{
  State, discover, select, request, bound, renew, Offer, Interface, unconfigured, Dhcp, Reply,
  type_offer, type_ack, type_nack, dhcp_send_request, process_dhcp_reply, enter_select,
  enter_discover, enter_request, enter_bound, enter_renew, retry_renew, timer_in, dhcp_timer,
  unsuitable, select_pump, ack_pump, nack_pump, pump_in, dhcp_pump, initial, dhcp_init,
  renew_retry_count,
}

-- The interface is configured only while there is a lease, `discover` is left at once, and the
-- counters stay in their ranges.
pub record IsConsistent (d : Dhcp) : Type 0 where
  pub settled : d.state ≢ discover
  pub no_lease : (d.state ≡ select) ⊎ (d.state ≡ request) → d.interface ≡ unconfigured
  pub wait_ge : 5 ≤ d.select_wait_time
  pub wait_lt : d.select_wait_time < 240
  pub retries_le : d.renew_retry_remaining ≤ renew_retry_count

enter_discover-IsConsistent :
    (now : ℕ) (d : Dhcp)
    → 5 ≤ d.select_wait_time
    → d.select_wait_time < 240
    → d.renew_retry_remaining ≤ 100
    → IsConsistent (enter_discover now d)
unfolding enter_discover enter_select
enter_discover-IsConsistent now d p q r = record {
  settled = λ e. cc;
  no_lease = λ _. refl;
  wait_ge = ground arith;
  wait_lt = ground arith;
  retries_le = r;
}

enter_renew-IsConsistent : (now : ℕ) (d : Dhcp) → IsConsistent d → IsConsistent (enter_renew now d)
unfolding enter_renew dhcp_send_request
enter_renew-IsConsistent now d c = record {
  settled = λ e. cc;
  no_lease = λ e. elim e [ inl x ↦ cc | inr x ↦ cc ];
  wait_ge = c.wait_ge;
  wait_lt = c.wait_lt;
  retries_le = omega arith;
}

retry_renew-IsConsistent :
    (now : ℕ) (d : Dhcp) → d.state ≡ renew → IsConsistent d → IsConsistent (retry_renew now d)
unfolding retry_renew dhcp_send_request
retry_renew-IsConsistent now d e c = elim (Bool-cases (ltb 0 (d.renew_retry_remaining - 1))) [
  | inl more ↦ rw more (record {
    settled = c.settled;
    no_lease = c.no_lease;
    wait_ge = c.wait_ge;
    wait_lt = c.wait_lt;
    retries_le = omega (arith, c.retries_le);
  })
  | inr out ↦ rw out (
      enter_discover-IsConsistent now
        (record d { renew_retry_remaining = d.renew_retry_remaining - 1 }) c.wait_ge c.wait_lt
        (omega (arith, c.retries_le)))
]

timer_in-IsConsistent :
    (s : State) (now : ℕ) (d : Dhcp)
    → d.state ≡ s
    → IsConsistent d
    → IsConsistent (timer_in s now d)
unfolding timer_in
timer_in-IsConsistent discover now d e c = c
timer_in-IsConsistent select now d e c =
    enter_discover-IsConsistent now d c.wait_ge c.wait_lt c.retries_le
timer_in-IsConsistent request now d e c =
    enter_discover-IsConsistent now d c.wait_ge c.wait_lt c.retries_le
timer_in-IsConsistent bound now d e c = enter_renew-IsConsistent now d c
timer_in-IsConsistent renew now d e c = retry_renew-IsConsistent now d e c

select_pump-IsConsistent :
    (now : ℕ) (r : Bool × Offer) (d : Dhcp)
    → d.state ≡ select
    → IsConsistent d
    → IsConsistent (select_pump now r d)
unfolding select_pump enter_request dhcp_send_request
select_pump-IsConsistent now (false, o) d e c = record {
  settled = c.settled;
  no_lease = c.no_lease;
  wait_ge = c.wait_ge;
  wait_lt = c.wait_lt;
  retries_le = c.retries_le;
}
select_pump-IsConsistent now (true, o) d e c = elim (Bool-cases (unsuitable o)) [
  | inl bad ↦ rw bad (record {
    settled = c.settled;
    no_lease = c.no_lease;
    wait_ge = c.wait_ge;
    wait_lt = c.wait_lt;
    retries_le = c.retries_le;
  })
  | inr good ↦ rw good (record {
    settled = λ x. cc;
    no_lease = λ _. c.no_lease (inl e);
    wait_ge = omega arith;
    wait_lt = omega arith;
    retries_le = c.retries_le;
  })
]

ack_pump-IsConsistent :
    (now : ℕ) (r : Bool × Offer) (d : Dhcp) → IsConsistent d → IsConsistent (ack_pump now r d)
unfolding ack_pump enter_bound
ack_pump-IsConsistent now (false, o) d c = record {
  settled = c.settled;
  no_lease = c.no_lease;
  wait_ge = c.wait_ge;
  wait_lt = c.wait_lt;
  retries_le = c.retries_le;
}
ack_pump-IsConsistent now (true, o) d c = record {
  settled = λ x. cc;
  no_lease = λ x. elim x [ inl y ↦ cc | inr y ↦ cc ];
  wait_ge = c.wait_ge;
  wait_lt = c.wait_lt;
  retries_le = c.retries_le;
}

nack_pump-IsConsistent :
    (now : ℕ) (p : Reply) (r : Bool × Offer) (d : Dhcp)
    → IsConsistent d
    → IsConsistent (nack_pump now p r d)
unfolding nack_pump
nack_pump-IsConsistent now p (true, o) d c =
    enter_discover-IsConsistent now (record d { offer = o }) c.wait_ge c.wait_lt c.retries_le
nack_pump-IsConsistent now p (false, o) d c =
    ack_pump-IsConsistent now (process_dhcp_reply p type_ack o) (record d { offer = o })
      (record {
        settled = c.settled;
        no_lease = c.no_lease;
        wait_ge = c.wait_ge;
        wait_lt = c.wait_lt;
        retries_le = c.retries_le;
      })

pump_in-IsConsistent :
    (s : State) (now : ℕ) (p : Reply) (d : Dhcp)
    → d.state ≡ s
    → IsConsistent d
    → IsConsistent (pump_in s now p d)
unfolding pump_in
pump_in-IsConsistent discover now p d e c = c
pump_in-IsConsistent bound now p d e c = c
pump_in-IsConsistent select now p d e c =
    select_pump-IsConsistent now (process_dhcp_reply p type_offer d.offer) d e c
pump_in-IsConsistent request now p d e c =
    nack_pump-IsConsistent now p (process_dhcp_reply p type_nack d.offer) d c
pump_in-IsConsistent renew now p d e c =
    nack_pump-IsConsistent now p (process_dhcp_reply p type_nack d.offer) d c

-- What happens to the client: a timer that runs out, or a packet.
pub data Event : Type 0 where
  timeout : ℕ → Event
  packet : ℕ → Reply → Event

unfoldable pub handle : Event → Dhcp → Dhcp
handle (timeout now) d = dhcp_timer now d
handle (packet now p) d = dhcp_pump now p d

unfoldable pub handle_all : List Event → Dhcp → Dhcp
unfolding handle
handle_all [] d = d
handle_all (e ∷ rest) d = handle_all rest (handle e d)

handle_all-IsConsistent :
    (l : List Event) (d : Dhcp) → IsConsistent d → IsConsistent (handle_all l d)
unfolding handle_all dhcp_timer dhcp_pump
handle_all-IsConsistent [] d c = c
handle_all-IsConsistent (timeout now ∷ l) d c =
    handle_all-IsConsistent l (timer_in d.state now d) (timer_in-IsConsistent d.state now d refl c)
handle_all-IsConsistent (packet now p ∷ l) d c =
    handle_all-IsConsistent l (pump_in d.state now p d)
      (pump_in-IsConsistent d.state now p d refl c)

-- From `dhcp_init` on, whatever packets and timeouts come: the client never rests in the state
-- `discover`, has no address configured while it has no lease, waits at most 239 seconds for an
-- offer, and has at most 100 renewal attempts left.
pub dhcp_init-IsConsistent :
    (now : ℕ) (i : Interface) (l : List Event) → IsConsistent (handle_all l (dhcp_init now i))
unfolding dhcp_init
dhcp_init-IsConsistent now i l =
    handle_all-IsConsistent l (dhcp_init now i)
      (enter_discover-IsConsistent now (initial i) (omega arith) (omega arith) (omega arith))
