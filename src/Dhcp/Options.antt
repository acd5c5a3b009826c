-- ===== src/Dhcp/Options.antt =====
-- The option parser against an encoder: what `process_dhcp_reply` of net/dhcp.c makes of a reply whose
-- options are well formed.
use mathlib.Core.List.{append_assoc}
use gogoboot.Base.{
  ℕ, ◌≤◌, ◌<◌, ◌≡◌, ◌≢◌, refl, ◌∙◌, Bool, true, false, inl, inr, Option-cases, none, some, List, [],
  ◌∷◌, ◌++◌, arith, leb, ◌==◌, length, All, length-append,
}
use gogoboot.Timer.{word}
use gogoboot.Dhcp.{
  Offer, Reply, bytes32, read32, magic_cookie, process_option, process_options, process_dhcp_reply,
  has_cookie, reset_offer,
}

-- An option: its code and its data.
pub record Tlv : Type 0 where
  pub code : ℕ
  pub content : List ℕ

abbrev pub tlv : ℕ → List ℕ → Tlv
tlv code content = record { code = code; content = content }

unfoldable pub encode : List Tlv → List ℕ
encode [] = []
encode (t ∷ ts) = t.code ∷ length t.content ∷ (t.content ++ encode ts)

-- Neither the padding nor the end mark.
abbrev pub IsOption : Tlv → Type 0
IsOption t = (t.code ≢ 0) × (t.code ≢ 0xff)

-- The options one after the other, until one is refused.
unfoldable pub accept_all : ℕ → List Tlv → Offer → Bool × Offer
accept_all expected_type [] o = (true, o)
accept_all expected_type (t ∷ ts) o =
    elim (process_option expected_type t.code (length t.content) t.content o) [
      | none ↦ (false, o)
      | some o' ↦ accept_all expected_type ts o'
    ]

process_options-skip :
    (e : ℕ) (d l : List ℕ) (o : Offer)
    → process_options e (length d) (d ++ l) o ≡ process_options e 0 l o
unfolding process_options
process_options-skip e [] l o = refl
process_options-skip e (b ∷ d) l o = process_options-skip e d l o

read32-append : (d l : List ℕ) → 4 ≤ length d → read32 (d ++ l) ≡ read32 d
read32-append [] l h = omega (arith, h)
read32-append (a ∷ []) l h = omega (arith, h)
read32-append (a ∷ b ∷ []) l h = omega (arith, h)
read32-append (a ∷ b ∷ c ∷ []) l h = omega (arith, h)
read32-append (a ∷ b ∷ c ∷ e ∷ d) l h = refl

leb_append : (d l : List ℕ) → leb (length d) (length (d ++ l)) ≡ true
leb_append d l = ground (arith, length-append d l)

-- Bytes behind the data do not matter.
process_option-append :
    (e code : ℕ) (d l : List ℕ) (o : Offer)
    → process_option e code (length d) (d ++ l) o ≡ process_option e code (length d) d o
unfolding process_option
process_option-append e code [] l o = refl
process_option-append e code (a ∷ []) l o = refl
process_option-append e code (a ∷ b ∷ []) l o = refl
process_option-append e code (a ∷ b ∷ c ∷ []) l o = refl
process_option-append e code (a ∷ b ∷ c ∷ d ∷ ds) l o = refl

-- The option loop at the start of an option that the packet holds whole.
process_options-option :
    (e : ℕ) (t : Tlv) (l : List ℕ) (o : Offer)
    → IsOption t
    → process_options e 0 (t.code ∷ length t.content ∷ (t.content ++ l)) o
      ≡ elim (process_option e t.code (length t.content) t.content o) as (λ _. Bool × Offer) [
        | none ↦ (false, o)
        | some o' ↦ process_options e 0 l o'
      ]
unfolding process_options
process_options-option e t l o (p, q) =
    let proper : (t.code == 0xff ≡ false) × (t.code == 0 ≡ false) = (ground arith, ground arith) in
    rw (proper.0, proper.1, leb_append t.content l, process_option-append e t.code t.content l o)
      (elim (Option-cases (process_option e t.code (length t.content) t.content o)) [
        | inl x ↦ rw x
        | inr (o', x) ↦ rw (x, process_options-skip e t.content l o')
      ])

process_options-end :
    (e : ℕ) (l : List ℕ) (o : Offer) → process_options e 0 (0xff ∷ l) o ≡ (true, o)
unfolding process_options
process_options-end e [] o = refl
process_options-end e (x ∷ l) o = refl

-- Well-formed options that end with the end mark are taken one after the other; what is behind the end
-- mark is ignored.
pub process_options-encode :
    (e : ℕ) (ts : List Tlv) (l : List ℕ) (o : Offer)
    → All IsOption ts
    → process_options e 0 (encode ts ++ 0xff ∷ l) o ≡ accept_all e ts o
unfolding encode accept_all
process_options-encode e [] l o a = process_options-end e l o
process_options-encode e (t ∷ ts) l o (p, a) =
    rw
      (
        append_assoc t.content (encode ts) (0xff ∷ l),
        process_options-option e t (encode ts ++ 0xff ∷ l) o p,
      )
      (elim (Option-cases (process_option e t.code (length t.content) t.content o)) [
        | inl x ↦ rw (accept_all, x)
        | inr (o', x) ↦ rw (accept_all, x) (process_options-encode e ts l o' a)
      ])

-- A reply with the given options behind the magic cookie.
abbrev pub reply : ℕ → List Tlv → Reply
reply yiaddr ts = record {
  op = 2;
  yiaddr = yiaddr;
  options = magic_cookie ++ (encode ts ++ 0xff ∷ []);
}

has_cookie-encode : (ts : List Tlv) → has_cookie (magic_cookie ++ (encode ts ++ 0xff ∷ [])) ≡ true
unfolding encode
has_cookie-encode [] = refl
has_cookie-encode (t ∷ ts) = ground arith

process_options-cookie :
    (e : ℕ) (l : List ℕ) (o : Offer)
    → process_options e 4 (magic_cookie ++ l) o ≡ process_options e 0 l o
unfolding process_options
process_options-cookie e l o = refl

-- A reply's options are taken one after the other, from a blank offer with the reply's address on.
pub process_dhcp_reply-encode :
    (e yiaddr : ℕ) (ts : List Tlv) (o : Offer)
    → All IsOption ts
    → process_dhcp_reply (reply yiaddr ts) e o ≡ accept_all e ts (reset_offer yiaddr)
unfolding process_dhcp_reply
process_dhcp_reply-encode e yiaddr ts o a = rw (has_cookie-encode ts) (
    process_options-cookie e (encode ts ++ 0xff ∷ []) (reset_offer yiaddr)
    ∙ process_options-encode e ts [] (reset_offer yiaddr) a)

-- The options a server sends for an offer.
abbrev pub server_options : Offer → List Tlv
server_options o =
    tlv 0x36 (bytes32 o.server_id)
    ∷ tlv 1 (bytes32 o.subnet_mask)
    ∷ tlv 3 (bytes32 o.gateway)
    ∷ tlv 6 (bytes32 o.dns_server)
    ∷ tlv 0x33 (bytes32 o.lease_time)
    ∷ []

abbrev pub offer_options : ℕ → Offer → List Tlv
offer_options message_type o = tlv 0x35 (message_type ∷ []) ∷ server_options o

offer_options-IsOption : (t : ℕ) (o : Offer) → All IsOption (offer_options t o)
offer_options-IsOption t o = (
  proper (ground arith) (ground arith),
  (
    proper (ground arith) (ground arith),
    (
      proper (ground arith) (ground arith),
      (
        proper (ground arith) (ground arith),
        (proper (ground arith) (ground arith), (proper (ground arith) (ground arith), tt)),
      ),
    ),
  ),
)
  where
    proper : {c : ℕ} → c ≢ 0 → c ≢ 0xff → (c ≢ 0) × (c ≢ 0xff)
    proper p q = (p, q)

pub read32-bytes32 : (n : ℕ) → n < word → read32 (bytes32 n) ≡ n
read32-bytes32 n h = omega (arith, h)

-- Every number of the offer fits into 32 bits.
pub record IsWord (o : Offer) : Type 0 where
  pub server_id_lt : o.server_id < word
  pub subnet_mask_lt : o.subnet_mask < word
  pub gateway_lt : o.gateway < word
  pub dns_server_lt : o.dns_server < word
  pub lease_time_lt : o.lease_time < word

accept_all-offer_options :
    (t : ℕ) (o : Offer)
    → IsWord o
    → accept_all t (offer_options t o) (reset_offer o.ipv4_address) ≡ (true, o)
unfolding accept_all process_option
accept_all-offer_options t o w =
    let same : t == t ≡ true = ground arith in
    rw (accept_all, process_option, same)
      (λ i. (
        true,
        record {
          server_id = read32-bytes32 o.server_id w.server_id_lt i;
          ipv4_address = o.ipv4_address;
          subnet_mask = read32-bytes32 o.subnet_mask w.subnet_mask_lt i;
          gateway = read32-bytes32 o.gateway w.gateway_lt i;
          dns_server = read32-bytes32 o.dns_server w.dns_server_lt i;
          lease_time = read32-bytes32 o.lease_time w.lease_time_lt i;
        },
      ))

-- A reply that carries an offer is read back: of the expected type, it yields that offer, whatever the
-- offer was before.
pub process_dhcp_reply-offer :
    (message_type : ℕ) (o before : Offer)
    → IsWord o
    → process_dhcp_reply (reply o.ipv4_address (offer_options message_type o)) message_type before
      ≡ (true, o)
process_dhcp_reply-offer t o before w =
    process_dhcp_reply-encode t o.ipv4_address (offer_options t o) before
      (offer_options-IsOption t o)
    ∙ accept_all-offer_options t o w

-- A reply whose message type is another one is refused, with the offer blank but for the address.
pub process_dhcp_reply-refused :
    (message_type expected yiaddr : ℕ) (ts : List Tlv) (before : Offer)
    → message_type ≢ expected
    → All IsOption ts
    → process_dhcp_reply (reply yiaddr (tlv 0x35 (message_type ∷ []) ∷ ts)) expected before
      ≡ (false, reset_offer yiaddr)
unfolding accept_all process_option
process_dhcp_reply-refused t e yiaddr ts before ne a =
    let different : t == e ≡ false = ground (arith, ne) in
    process_dhcp_reply-encode e yiaddr (tlv 0x35 (t ∷ []) ∷ ts) before
      ((ground arith, ground arith), a)
    ∙ rw (accept_all, process_option, different) refl

pub process_dhcp_reply-other :
    (message_type expected : ℕ) (o before : Offer)
    → message_type ≢ expected
    → process_dhcp_reply (reply o.ipv4_address (offer_options message_type o)) expected before
      ≡ (false, reset_offer o.ipv4_address)
process_dhcp_reply-other t e o before ne =
    process_dhcp_reply-refused t e o.ipv4_address (server_options o) before ne
      (offer_options-IsOption t o).1
