-- ===== src/Protocols/Hooks.antt =====
-- pkg/layers: the build hooks of ip.go and udp.go, and the search for addresses of helpers.go.
pub mod Messages
pub mod MessageTests
pub mod Udp
pub mod UdpChecksum
pub mod UdpVerified
pub mod IpHeader
pub mod IpVerified
use goscapy.Base.{
  ltb, ◌==◌, if◌then◌else◌, length, get_elem?, set, take, byte, bad_address, no_layer, Outcome, ok,
  err, panic, stuck, ◌>>=◌, ℕ, zero, suc, ◌+◌, ◌-◌, ◌*◌, ◌/◌, ◌%◌, ◌^◌, String, str_eq, Bool, true,
  false, not, ◌||◌, Option, none, some, List, [], ◌∷◌,
}
use goscapy.Values.{Value, nil, u8, u16, ip, str, bytes, options}
use goscapy.Fields.Addresses.{Net, to4, to16}
use goscapy.Layer.{Layer, get, serialize_into, set as set_value}
use goscapy.Packet.{Packet, ignore_error}
use goscapy.Checksum.{
  checksum, checksum_sum, fold_checksum, checksum_ipv4_pseudo, checksum_ipv6_pseudo,
}
use goscapy.TcpOptions.{serialize_tcp_options}

-- `ipAddr`; a nil slice is an empty one.
pub record IpAddr : Type 0 where
  pub src : List ℕ
  pub dst : List ℕ
  pub is_v6 : Bool

abbrev pub or_no_bytes : Option (List ℕ) → List ℕ
or_no_bytes none = []
or_no_bytes (some a) = a

-- `layer, _ := …Get(name)`, which gives nil for a name without a value.
abbrev pub or_nil_value : Outcome Value → Value
or_nil_value (ok v) = v
or_nil_value _ = nil

abbrev pub value_of : Layer → String → Value
value_of l name = or_nil_value (get l name)

-- `_ = layer.Set(name, val)`
unfoldable pub set_field : String → Value → Layer → Layer
set_field name val l = ignore_error l (set_value l name val)

-- `uint8(v)`, a type assertion that panics on another type.
abbrev pub assert_u8 : Value → Outcome ℕ
assert_u8 (u8 v) = ok v
assert_u8 _ = panic

-- A hook's layer at its index; Go panics out of range.
abbrev pub or_panic : Option Layer → Outcome Layer
or_panic none = panic
or_panic (some l) = ok l

abbrev pub layer_at : Packet → ℕ → Outcome Layer
layer_at p i = or_panic (get_elem? p.layers i)

-- The layer is shared with the packet by a pointer, so the packet has it as it was left.
abbrev pub with_layer : Packet → ℕ → Layer → Packet
with_layer p i l = record { layers = set p.layers i l }

-- `buf[at] = byte(csum >> 8); buf[at+1] = byte(csum)`, which panics out of range.
unfoldable pub put_checksum : (at csum : ℕ) (buf : List ℕ) → Outcome (List ℕ)
put_checksum at csum buf =
    if ltb (at + 1) (length buf)
    then ok (set (set buf at (byte (csum / 2 ^ 8))) (at + 1) (byte csum))
    else panic

module _ (net : Net) where
  open net use {parse_ip}

  -- The text is parsed first; `none` is no address.
  abbrev parsed_to : (List ℕ → Option (List ℕ)) → List ℕ → List ℕ
  parsed_to to text = elim (parse_ip text) [ none ↦ [] | some a ↦ or_no_bytes (to a) ]

  unfoldable pub ip_to_bytes : Value → List ℕ
  unfolding to4
  ip_to_bytes (ip a) = or_no_bytes (to4 a)
  ip_to_bytes (str s) = parsed_to to4 s
  ip_to_bytes (bytes b) = if length b == 4 then b else []
  ip_to_bytes _ = []

  unfoldable pub ipv6_to_bytes : Value → List ℕ
  unfolding to16
  ipv6_to_bytes (ip a) = or_no_bytes (to16 a)
  ipv6_to_bytes (str s) = parsed_to to16 s
  ipv6_to_bytes (bytes b) = if length b == 16 then b else []
  ipv6_to_bytes _ = []

  abbrev pub addresses_of : Layer → (Value → List ℕ) → (size : ℕ) (is_v6 : Bool) → Outcome IpAddr
  addresses_of l to_bytes size is_v6 =
      let src = to_bytes (value_of l "src") in
      let dst = to_bytes (value_of l "dst") in
      if not (length src == size) || not (length dst == size)
      then err bad_address
      else ok record { src = src; dst = dst; is_v6 = is_v6 }

  -- A round of `findIPAddressesAny`, with what the layers further below give.
  unfoldable pub search_at : Option Layer → (below : Outcome IpAddr) → Outcome IpAddr
  unfolding ip_to_bytes ipv6_to_bytes
  search_at none below = panic
  search_at (some l) below =
      if str_eq l.proto "IP"
      then addresses_of l ip_to_bytes 4 false
      else if str_eq l.proto "IPv6"
      then addresses_of l ipv6_to_bytes 16 true
      else below

  -- `findIPAddressesAny`: the layers below the index, the nearest first. Out of range Go panics.
  unfoldable pub find_ip_addresses_any : Packet → (layer_idx : ℕ) → Outcome IpAddr
  unfolding search_at
  find_ip_addresses_any p zero = err no_layer
  find_ip_addresses_any p (suc i) = search_at (get_elem? p.layers i) (find_ip_addresses_any p i)

  -- The checksum over the pseudo-header of the version found.
  abbrev pub transport_checksum : IpAddr → (proto : ℕ) → List ℕ → List ℕ → Outcome ℕ
  transport_checksum addr proto header upper =
      if addr.is_v6
      then checksum_ipv6_pseudo addr.src addr.dst proto (header ∷ upper ∷ [])
      else checksum_ipv4_pseudo addr.src addr.dst proto (header ∷ upper ∷ [])

  -- `udpBuildHook` in four parts, from its last: the checksum is put into the header,
  unfoldable pub udp_put :
      Packet → ℕ → Layer → (filled : List ℕ) (n sum : ℕ) → Outcome (Packet × List ℕ × ℕ)
  unfolding put_checksum set_field
  udp_put p i zeroed filled n sum =
      let csum = if sum == 0 then 0xffff else sum in
      put_checksum 6 csum filled >>= λ done.
      ok (with_layer p i (set_field "chksum" (u16 csum) zeroed), done, n)

  -- computed over the serialized header,
  unfoldable pub udp_sum :
      Packet → ℕ → (upper : List ℕ) → Layer → List ℕ × ℕ → Outcome (Packet × List ℕ × ℕ)
  unfolding udp_put find_ip_addresses_any
  udp_sum p i upper zeroed (filled, n) = find_ip_addresses_any (with_layer p i zeroed) i >>= λ addr.
      transport_checksum addr 17 (take n filled) upper >>= udp_put p i zeroed filled n

  -- with its length set and its checksum 0,
  unfoldable pub udp_on : Packet → ℕ → (upper buf : List ℕ) → Layer → Outcome (Packet × List ℕ × ℕ)
  unfolding udp_sum set_field
  udp_on p i upper buf layer =
      let sized = set_field "len" (u16 ((8 + length upper) % 2 ^ 16)) layer in
      let zeroed = set_field "chksum" (u16 0) sized in
      serialize_into zeroed buf >>= udp_sum p i upper zeroed

  -- of the layer at the index.
  unfoldable pub udp_build_hook : Packet → ℕ → List ℕ → List ℕ → Outcome (Packet × List ℕ × ℕ)
  unfolding udp_on
  udp_build_hook p i upper buf = layer_at p i >>= udp_on p i upper buf

-- A nil value, or a nil address.
abbrev pub is_unset : Value → Bool
is_unset nil = true
is_unset (ip []) = true
is_unset _ = false

-- The bytes of "0.0.0.0".
abbrev pub any_v4 : List ℕ
any_v4 = 48 ∷ 46 ∷ 48 ∷ 46 ∷ 48 ∷ 46 ∷ 48 ∷ []

-- `ipBuildHook` in four parts, from its last: the checksum of the serialized header is put into it,
unfoldable pub ip_put : Packet → ℕ → Layer → List ℕ × ℕ → Outcome (Packet × List ℕ × ℕ)
unfolding put_checksum set_field
ip_put p i zeroed (filled, n) = checksum (take n filled) >>= λ csum.
    put_checksum 10 csum filled >>= λ done.
    ok (with_layer p i (set_field "chksum" (u16 csum) zeroed), done, n)

-- after the length was set, and the checksum to 0,
unfoldable pub ip_sized :
    Packet → ℕ → (upper buf : List ℕ) → Layer → (verihl : ℕ) → Outcome (Packet × List ℕ × ℕ)
unfolding ip_put set_field
ip_sized p i upper buf sourced verihl =
    let words = verihl % 16 * 4 in
    let header_size = if ltb words 20 then 20 else words in
    let sized = set_field "len" (u16 ((header_size + length upper) % 2 ^ 16)) sourced in
    let zeroed = set_field "chksum" (u16 0) sized in serialize_into zeroed buf >>= ip_put p i zeroed

-- with the source 0.0.0.0 where none is set,
unfoldable pub ip_on : Packet → ℕ → (upper buf : List ℕ) → Layer → Outcome (Packet × List ℕ × ℕ)
unfolding ip_sized set_field
ip_on p i upper buf layer =
    let sourced =
      if is_unset (value_of layer "src") then set_field "src" (str any_v4) layer else layer in
    assert_u8 (value_of sourced "verihl") >>= ip_sized p i upper buf sourced

-- of the layer at the index.
unfoldable pub ip_build_hook : Packet → ℕ → List ℕ → List ℕ → Outcome (Packet × List ℕ × ℕ)
unfolding ip_on
ip_build_hook p i upper buf = layer_at p i >>= ip_on p i upper buf
