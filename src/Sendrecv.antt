-- ===== src/Sendrecv.antt =====
-- pkg/sendrecv/match.go: which packet answers a sent one.
pub mod Handshake
pub mod Tests
use goscapy.Base.{
  ◌==◌, ◌&&◌, ◌||◌, not, Bool, true, false, if◌then◌else◌, length, take, drop, Outcome, ok, err,
  panic, stuck, ℕ, ◌+◌, ◌/◌, ◌%◌, ◌^◌, String, Option, none, some, List, [], ◌∷◌,
}
use goscapy.Values.{Value, u8, u16, u32, ip}
use goscapy.Fields.Addresses.{v4_in_v6_prefix, eq_bytes}
use goscapy.Layer.{Layer, get}
use goscapy.Packet.{Packet, get_layer}

-- The assertions `v.(uint8)`, `v.(uint16)` and `v.(uint32)`, with `none` where they fail.
abbrev pub as_u8 : Value → Option ℕ
as_u8 (u8 n) = some n
as_u8 _ = none

abbrev pub as_u16 : Value → Option ℕ
as_u16 (u16 n) = some n
as_u16 _ = none

abbrev pub as_u32 : Value → Option ℕ
as_u32 (u32 n) = some n
as_u32 _ = none

abbrev pub or_zero : Option ℕ → ℕ
or_zero none = 0
or_zero (some n) = n

abbrev pub read_by : (Value → Option ℕ) → Outcome Value → Option ℕ
read_by read (ok v) = read v
read_by read _ = none

-- A field of a layer read by an assertion; no field and another type are the same to the caller.
unfoldable pub typed_field : (Value → Option ℕ) → Layer → String → Option ℕ
unfolding get
typed_field read l name = read_by read (get l name)

-- A field whose absence the caller tells from another type, which is read as 0.
unfoldable pub lax_field : (Value → Option ℕ) → Layer → String → Option ℕ
unfolding get
lax_field read l name = read_by (λ v. some (or_zero (read v))) (get l name)

abbrev pub equals : Option ℕ → ℕ → Bool
equals none wanted = false
equals (some n) wanted = n == wanted

-- A field of the sent packet, 0 where it is missing.
abbrev pub sent_field : (Value → Option ℕ) → Layer → String → ℕ
sent_field read l name = or_zero (typed_field read l name)

-- An address of the sent packet; no address is an empty one.
abbrev pub as_ip : Outcome Value → List ℕ
as_ip (ok (ip a)) = a
as_ip _ = []

unfoldable pub sent_ip : Layer → String → List ℕ
unfolding get
sent_ip l name = as_ip (get l name)

-- `net.IP.Equal`
unfoldable pub ip_equal : List ℕ → List ℕ → Bool
unfolding eq_bytes
ip_equal a b =
    if length a == length b
    then eq_bytes a b
    else if length a == 4 && length b == 16
    then eq_bytes (take 12 b) v4_in_v6_prefix && eq_bytes a (drop 12 b)
    else if length a == 16 && length b == 4
    then eq_bytes (take 12 a) v4_in_v6_prefix && eq_bytes (drop 12 a) b
    else false

abbrev pub is_ip : List ℕ → Outcome Value → Bool
is_ip wanted (ok (ip a)) = ip_equal a wanted
is_ip wanted _ = false

-- The received address is the sent one, if one was sent.
unfoldable pub ip_matches : Layer → String → (wanted : List ℕ) → Bool
unfolding get ip_equal
ip_matches l name [] = true
ip_matches l name (b ∷ bs) = is_ip (b ∷ bs) (get l name)

unfoldable pub arp_matches : (sent received : Layer) → Bool
unfolding typed_field sent_ip ip_matches
arp_matches sent received =
    (not (sent_field as_u16 sent "op" == 1) || equals (typed_field as_u16 received "op") 2)
    && ip_matches received "psrc" (sent_ip sent "pdst")
    && ip_matches received "pdst" (sent_ip sent "psrc")

-- The answer to an echo request: a reply with its identifier, or an error.
unfoldable pub echo_matches : (sent received : Layer) → (type : Option ℕ) → Bool
unfolding typed_field
echo_matches sent received none = false
echo_matches sent received (some t) =
    if t == 0
    then equals (typed_field as_u16 received "id") (sent_field as_u16 sent "id")
    else t == 3 || t == 11

unfoldable pub icmp_matches : (sent received : Layer) → Bool
unfolding typed_field echo_matches
icmp_matches sent received =
    if sent_field as_u8 sent "type" == 8
    then echo_matches sent received (typed_field as_u8 received "type")
    else true

unfoldable pub ports_swapped : (sent received : Layer) → Bool
unfolding typed_field lax_field
ports_swapped sent received =
    equals (lax_field as_u16 received "sport") (sent_field as_u16 sent "dport")
    && equals (lax_field as_u16 received "dport") (sent_field as_u16 sent "sport")

-- `flags & 0x02 != 0` and `flags & 0x10 != 0`
abbrev pub has_syn : ℕ → Bool
has_syn flags = flags / 2 % 2 == 1

abbrev pub has_ack : ℕ → Bool
has_ack flags = flags / 16 % 2 == 1

abbrev pub is_syn_ack : Option ℕ → Bool
is_syn_ack none = false
is_syn_ack (some flags) = has_syn flags && has_ack flags

unfoldable pub tcp_matches : (sent received : Layer) → Bool
unfolding typed_field lax_field ports_swapped
tcp_matches sent received =
    ports_swapped sent received
    && (not (has_syn (sent_field as_u8 sent "flags"))
        || is_syn_ack (lax_field as_u8 received "flags")
          && equals (lax_field as_u32 received "ack") ((sent_field as_u32 sent "seq" + 1) % 2 ^ 32))

unfoldable pub dns_matches : (sent received : Layer) → Bool
unfolding typed_field
dns_matches sent received = equals (typed_field as_u16 received "id") (sent_field as_u16 sent "id")

unfoldable pub dhcp_matches : (sent received : Layer) → Bool
unfolding typed_field
dhcp_matches sent received =
    (not (sent_field as_u8 sent "op" == 1) || equals (typed_field as_u8 received "op") 2)
    && equals (typed_field as_u32 received "xid") (sent_field as_u32 sent "xid")

-- A check of two layers of a protocol: passed where none was sent, failed where none was received.
abbrev pub checked : (Layer → Layer → Bool) → Option Layer → Option Layer → Bool
checked check none received = true
checked check (some s) none = false
checked check (some s) (some r) = check s r

abbrev pub on_layer : String → (Layer → Layer → Bool) → (sent received : Packet) → Bool
on_layer proto check sent received = checked check (get_layer sent proto) (get_layer received proto)

-- The received source is the sent destination.
abbrev pub source_of : (wanted : List ℕ) → Option Layer → Bool
source_of [] l = true
source_of (b ∷ bs) none = false
source_of (b ∷ bs) (some l) = ip_matches l "src" (b ∷ bs)

abbrev pub destination : Option Layer → List ℕ
destination none = []
destination (some l) = sent_ip l "dst"

unfoldable pub network_matches : (sent received : Packet) → Bool
unfolding get_layer ip_matches sent_ip
network_matches sent received =
    source_of (destination (get_layer sent "IP")) (get_layer received "IP")

-- What is checked above ARP's level.
unfoldable pub layers_match : (sent received : Packet) → Bool
unfolding get_layer network_matches icmp_matches tcp_matches ports_swapped dns_matches dhcp_matches
layers_match sent received =
    network_matches sent received
    && on_layer "ICMP" icmp_matches sent received
    && on_layer "TCP" tcp_matches sent received
    && on_layer "UDP" ports_swapped sent received
    && on_layer "DNS" dns_matches sent received
    && on_layer "DHCP" dhcp_matches sent received

abbrev pub arp_or : Option Layer → (arp rest : Bool) → Bool
arp_or none arp rest = rest
arp_or (some l) arp rest = arp

-- `DefaultMatch`: a sent packet with ARP is matched by that alone.
unfoldable pub default_match : (sent received : Packet) → Bool
unfolding get_layer arp_matches layers_match
default_match sent received =
    arp_or (get_layer sent "ARP") (on_layer "ARP" arp_matches sent received)
      (layers_match sent received)
