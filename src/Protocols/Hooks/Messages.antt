-- ===== src/Protocols/Hooks/Messages.antt =====
-- pkg/layers: the build hooks of tcp.go, icmp.go, icmpv6.go, igmp.go, ipv6.go, vrrp.go,
-- pppoe.go, gtp.go and eapol.go.
use goscapy.Base.{
  ltb, ◌==◌, if◌then◌else◌, length, get_elem?, take, bad_address, no_layer, Outcome, ok, err, panic,
  ◌>>=◌, ℕ, zero, suc, ◌+◌, ◌*◌, ◌/◌, ◌%◌, ◌^◌, str_eq, Bool, true, false, not, ◌||◌, Option, none,
  some, List, [], ◌∷◌,
}
use goscapy.Values.{Value, nil, u8, u16, str, bytes, options}
use goscapy.Fields.Addresses.{Net}
use goscapy.Layer.{Layer, serialize_into}
use goscapy.Packet.{Packet}
use goscapy.Checksum.{checksum_sum, fold_checksum, checksum_ipv6_pseudo}
use goscapy.TcpOptions.{serialize_tcp_options}
use goscapy.Protocols.Hooks.{
  value_of, set_field, layer_at, with_layer, put_checksum, ipv6_to_bytes, find_ip_addresses_any,
  transport_checksum, is_unset, any_v4,
}

-- `tcpBuildHook`, with its options of the layer.
abbrev pub options_bytes : Value → List ℕ
options_bytes (options opts) = if ltb 0 (length opts) then serialize_tcp_options opts else []
options_bytes _ = []

module _ (net : Net) where
  unfoldable pub tcp_build_hook : Packet → ℕ → List ℕ → List ℕ → Outcome (Packet × List ℕ × ℕ)
  unfolding set_field find_ip_addresses_any put_checksum serialize_tcp_options
  tcp_build_hook p i upper buf = do
    layer ← layer_at p i
    let hdr_len = 20 + length (options_bytes (value_of layer "options"))
    let sized = set_field "dataofs" (u8 (hdr_len / 4 * 2 ^ 4 % 2 ^ 8)) layer
    let zeroed = set_field "chksum" (u16 0) sized
    (filled, n) ← serialize_into zeroed buf
    addr ← find_ip_addresses_any net (with_layer p i zeroed) i
    csum ← transport_checksum net addr 6 (take n filled) upper
    done ← put_checksum 16 csum filled
    ok (with_layer p i (set_field "chksum" (u16 csum) zeroed), done, n)

  abbrev icmpv6_addresses : Layer → Outcome (List ℕ × List ℕ)
  icmpv6_addresses l =
      let src = ipv6_to_bytes net (value_of l "src") in
      let dst = ipv6_to_bytes net (value_of l "dst") in
      if not (length src == 16) || not (length dst == 16) then err bad_address else ok (src, dst)

  -- A round of `findIPv6Addresses`.
  unfoldable ipv6_at :
      Option Layer → (below : Outcome (List ℕ × List ℕ)) → Outcome (List ℕ × List ℕ)
  unfolding ipv6_to_bytes
  ipv6_at none below = panic
  ipv6_at (some l) below = if str_eq l.proto "IPv6" then icmpv6_addresses l else below

  -- `findIPv6Addresses`: the nearest IPv6 layer below the index.
  unfoldable pub find_ipv6_addresses : Packet → (layer_idx : ℕ) → Outcome (List ℕ × List ℕ)
  unfolding ipv6_at
  find_ipv6_addresses p zero = err no_layer
  find_ipv6_addresses p (suc i) = ipv6_at (get_elem? p.layers i) (find_ipv6_addresses p i)

  -- `icmpv6BuildHook`: the addresses are looked for before the checksum is reset.
  unfoldable pub icmpv6_build_hook : Packet → ℕ → List ℕ → List ℕ → Outcome (Packet × List ℕ × ℕ)
  unfolding set_field find_ipv6_addresses put_checksum
  icmpv6_build_hook p i upper buf = do
    layer ← layer_at p i
    (src, dst) ← find_ipv6_addresses p i
    let zeroed = set_field "chksum" (u16 0) layer
    (filled, n) ← serialize_into zeroed buf
    csum ← checksum_ipv6_pseudo src dst 58 (take n filled ∷ upper ∷ [])
    done ← put_checksum 2 csum filled
    ok (with_layer p i (set_field "chksum" (u16 csum) zeroed), done, n)

-- The end of `icmpBuildHook`, `igmpBuildHook` and `vrrpBuildHook`: the checksum over the message,
-- at its offset.
unfoldable pub message_hook :
    (at : ℕ) → Packet → ℕ → Layer → List ℕ → List ℕ → Outcome (Packet × List ℕ × ℕ)
unfolding put_checksum set_field
message_hook at p i layer upper buf = do
  let zeroed = set_field "chksum" (u16 0) layer
  (filled, n) ← serialize_into zeroed buf
  csum ← fold_checksum ((checksum_sum (take n filled) + checksum_sum upper) % 2 ^ 32)
  done ← put_checksum at csum filled
  ok (with_layer p i (set_field "chksum" (u16 csum) zeroed), done, n)

-- `icmpBuildHook`
unfoldable pub icmp_build_hook : Packet → ℕ → List ℕ → List ℕ → Outcome (Packet × List ℕ × ℕ)
unfolding message_hook
icmp_build_hook p i upper buf = do layer ← layer_at p i; message_hook 2 p i layer upper buf

abbrev pub is_nil : Value → Bool
is_nil nil = true
is_nil _ = false

-- `igmpBuildHook`
unfoldable pub igmp_build_hook : Packet → ℕ → List ℕ → List ℕ → Outcome (Packet × List ℕ × ℕ)
unfolding set_field message_hook
igmp_build_hook p i upper buf = do
  layer ← layer_at p i
  let addressed =
      if is_nil (value_of layer "gaddr") then set_field "gaddr" (str any_v4) layer else layer
  message_hook 2 p i addressed upper buf

-- The bytes of "::".
abbrev pub any_v6 : List ℕ
any_v6 = 58 ∷ 58 ∷ []

-- `ipv6BuildHook`
unfoldable pub ipv6_build_hook : Packet → ℕ → List ℕ → List ℕ → Outcome (Packet × List ℕ × ℕ)
unfolding set_field
ipv6_build_hook p i upper buf = do
  layer ← layer_at p i
  let sourced =
      if is_unset (value_of layer "src") then set_field "src" (str any_v6) layer else layer
  let sized = set_field "plen" (u16 (length upper % 2 ^ 16)) sourced
  (filled, n) ← serialize_into sized buf
  ok (with_layer p i sized, filled, n)

-- `vrrpBuildHook`
unfoldable pub vrrp_build_hook : Packet → ℕ → List ℕ → List ℕ → Outcome (Packet × List ℕ × ℕ)
unfolding message_hook
vrrp_build_hook p i upper buf = do layer ← layer_at p i; message_hook 6 p i layer upper buf

-- A header with its length field set.
unfoldable pub sized_hook : (size : ℕ) → Packet → ℕ → Layer → List ℕ → Outcome (Packet × List ℕ × ℕ)
unfolding set_field
sized_hook size p i layer buf = do
  let sized = set_field "len" (u16 (size % 2 ^ 16)) layer
  (filled, n) ← serialize_into sized buf
  ok (with_layer p i sized, filled, n)

-- The three hooks of the length of the upper bytes have the same body.
unfoldable upper_length_hook : Packet → ℕ → List ℕ → List ℕ → Outcome (Packet × List ℕ × ℕ)
unfolding sized_hook
upper_length_hook p i upper buf = do layer ← layer_at p i; sized_hook (length upper) p i layer buf

-- `pppoeBuildHook`
unfoldable pub pppoe_build_hook : Packet → ℕ → List ℕ → List ℕ → Outcome (Packet × List ℕ × ℕ)
unfolding upper_length_hook
pppoe_build_hook p i upper buf = upper_length_hook p i upper buf

-- `gtpBuildHook`
unfoldable pub gtp_build_hook : Packet → ℕ → List ℕ → List ℕ → Outcome (Packet × List ℕ × ℕ)
unfolding upper_length_hook
gtp_build_hook p i upper buf = upper_length_hook p i upper buf

-- `eapolBuildHook`
unfoldable pub eapol_build_hook : Packet → ℕ → List ℕ → List ℕ → Outcome (Packet × List ℕ × ℕ)
unfolding upper_length_hook
eapol_build_hook p i upper buf = upper_length_hook p i upper buf

-- The length of the data that `eapBuildHook` counts.
abbrev pub data_length : Value → ℕ
data_length (bytes b) = length b
data_length (str s) = length s
data_length _ = 0

-- `eapBuildHook`
unfoldable pub eap_build_hook : Packet → ℕ → List ℕ → List ℕ → Outcome (Packet × List ℕ × ℕ)
unfolding sized_hook
eap_build_hook p i upper buf = do
  layer ← layer_at p i
  sized_hook (4 + data_length (value_of layer "data") + length upper) p i layer buf
