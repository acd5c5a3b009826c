-- ===== src/Icmp/Echo.antt =====
-- An echo request that net/icmp.c is given is answered, and the answer is good.
use gogoboot.Base.{
  ℕ, ◌+◌, ◌≤◌, ◌≡◌, sym, ap, ◌∙◌, List, ◌∷◌, ◌++◌, arith, length, take, drop, get_or, get_or-drop,
}
use gogoboot.Sink.{Packet, byte_at}
use gogoboot.Net.{Net, NetInterface}
use gogoboot.Net.Send.{drop-replaced}
use gogoboot.Net.Message.{IsMessage, summed_message}
use gogoboot.Ipv4.{long_bytes}
use gogoboot.Icmp.{long_field, echo_reply}

module _ (i : NetInterface) (p : Packet) (g : IsMessage p) where
  long : 24 ≤ length p.payload
  long = omega (arith, g.length_ge, g.length_le)

  -- What stands behind the first 12 bytes of the reply.
  abbrev rest : List ℕ
  rest = long_bytes i.host.ipv4_address ++ (long_field 12 p.payload ++ 0 ∷ drop 21 p.payload)

  abbrev replied : List ℕ
  replied = take 12 p.payload ++ rest

  reply-behind : (k : ℕ) → get_or replied (12 + k) 0 ≡ get_or rest k 0
  reply-behind k =
      sym (get_or-drop 12 k replied 0)
      ∙ ap (λ l. get_or l k 0) (drop-replaced rest 12 p.payload (omega (arith, long)))

  reply_type : byte_at 20 (echo_reply i p) ≡ 0
  unfolding echo_reply
  reply_type = reply-behind 8

  -- The reply with its checksums: what they do not touch.
  module _ (header_sum icmp_sum : ℕ) where
    abbrev sent : List ℕ
    sent = summed_message header_sum icmp_sum replied
