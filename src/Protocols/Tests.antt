-- ===== src/Protocols/Tests.antt =====
-- Headers, hooks and registrations on concrete packets, and the theorems on these.
use goscapy.Base.{
  replicate, ok, ℕ, ◌+◌, ◌^◌, ◌<◌, ◌≡◌, refl, true, false, none, some, [], ◌∷◌, ◌++◌, arith,
}
use goscapy.Values.{u8, u16, ip, lookup, insert}
use goscapy.Fields.Addresses.{to4, Net, mac_field, ip_field, ipv6_field, ip_bytes}
use goscapy.Fields.Ints.{short_field, byte_field, int_field, xbyte_field}
use goscapy.Fields.Texts.{str_fixed_field}
use goscapy.Layer.{Layer, get, wire_size, new_layer, find_field}
use goscapy.Layer.State.{is_known}
use goscapy.Packet.{Packet, apply_bindings}
use goscapy.Dissect.{Registry, resolve_next_layer, next_by_value}
use goscapy.Checksum.{checksum, checksum_ipv4_pseudo}
use goscapy.Protocols.Hooks.IpHeader.{IpValues, ip_header}
use goscapy.Protocols.Hooks.IpVerified.{header_size_of, ip_build_hook-verified}
use goscapy.Protocols.Tables.{
  new_ethernet, new_arp, ip_fields, new_ip, udp_fields, new_udp, new_icmp, new_ipv6,
}
use goscapy.Protocols.Others.{new_stp, new_hsrp, new_gtp}
use goscapy.Protocols.Hooks.{find_ip_addresses_any, udp_build_hook, ip_build_hook}
use goscapy.Protocols.Hooks.Udp.{udp_header}
use goscapy.Protocols.Hooks.UdpVerified.{udp_build_hook-verified}
use goscapy.Protocols.Registrations.{
  register_heuristic, register_all, binding, core_bindings, core_registrations,
}
use goscapy.Protocols.Registrations.Resolve.{apply_bindings-resolved, core_registrations-by_sport}

net : Net
net = record { parse_mac = λ s. none; parse_ip = λ s. none }

nothing : Registry
nothing = record {
  factories = λ p. none;
  next_layer = λ p v. none;
  key_field = λ p. none;
  header_size_fn = λ p. none;
  tunnel_payload = λ p. none;
  post_parse_hooks = λ p. none;
  next_layer_fns = λ p. none;
}

-- The sizes of the fixed headers.
header_sizes :
    (wire_size (new_ethernet net) ≡ 14)
    × (wire_size (new_ip net) ≡ 20)
    × (wire_size new_udp ≡ 8)
    × (wire_size new_icmp ≡ 8)
    × (wire_size (new_arp net) ≡ 28)
    × (wire_size (new_ipv6 net) ≡ 40)
    × (wire_size new_stp ≡ 35)
    × (wire_size (new_hsrp net) ≡ 20)
    × (wire_size new_gtp ≡ 8)
unfolding wire_size new_ethernet new_ip new_udp new_icmp new_arp new_ipv6 new_stp new_hsrp new_gtp
    net new_layer lookup insert mac_field ip_field ipv6_field byte_field short_field int_field
    xbyte_field str_fixed_field
header_sizes = (refl, refl, refl, refl, refl, refl, refl, refl, refl)

abbrev below_udp : Layer
below_udp = record {
  proto = "IP";
  fields = [];
  values = ("src", ip (10 ∷ 0 ∷ 0 ∷ 1 ∷ [])) ∷ ("dst", ip (10 ∷ 0 ∷ 0 ∷ 2 ∷ [])) ∷ [];
}

abbrev udp_layer : Layer
udp_layer = record {
  proto = "UDP";
  fields = udp_fields;
  values = ("sport", u16 40000) ∷ ("dport", u16 53) ∷ ("len", u16 8) ∷ ("chksum", u16 0) ∷ [];
}

abbrev datagram : Packet
datagram = record { layers = below_udp ∷ udp_layer ∷ [] }

addresses :
    find_ip_addresses_any net datagram 1
    ≡ ok (record { src = 10 ∷ 0 ∷ 0 ∷ 1 ∷ []; dst = 10 ∷ 0 ∷ 0 ∷ 2 ∷ []; is_v6 = false })
unfolding find_ip_addresses_any get lookup
addresses = refl

at_sport : lookup "sport" udp_layer.values ≡ some (u16 40000)
unfolding lookup
at_sport = refl

at_dport : lookup "dport" udp_layer.values ≡ some (u16 53)
unfolding lookup
at_dport = refl

udp_build_hook-verified_example :
    (p' : Packet) × (csum : ℕ) × (udp_build_hook net datagram 1 (1 ∷ 2 ∷ 3 ∷ []) (replicate 8 0)
      ≡ ok (p', udp_header 40000 53 (8 + 3) csum, 8))
    × (0 < csum)
    × (checksum_ipv4_pseudo
          (10 ∷ 0 ∷ 0 ∷ 1 ∷ [])
          (10 ∷ 0 ∷ 0 ∷ 2 ∷ [])
          17
          (udp_header 40000 53 (8 + 3) csum ∷ (1 ∷ 2 ∷ 3 ∷ []) ∷ [])
        ≡ ok 0)
udp_build_hook-verified_example =
    udp_build_hook-verified net datagram 1 udp_layer 40000 53 (10 ∷ 0 ∷ 0 ∷ 1 ∷ [])
      (10 ∷ 0 ∷ 0 ∷ 2 ∷ []) (1 ∷ 2 ∷ 3 ∷ []) (replicate 8 0) refl refl at_sport at_dport addresses
      refl refl (omega arith) (omega arith) (omega arith) (omega arith) refl

ip_proto : (new_ip net).proto ≡ "IP"
unfolding new_ip new_layer
ip_proto = refl

ip_knows : is_known (new_ip net) "proto" ≡ true
unfolding new_ip new_layer lookup insert find_field byte_field short_field ip_field
ip_knows = refl

apply_bindings-resolved_example :
    resolve_next_layer
      (register_all core_registrations nothing)
      "IP"
      (apply_bindings core_bindings (new_ip net) "UDP")
    ≡ "UDP"
apply_bindings-resolved_example =
    apply_bindings-resolved nothing 9 (binding "UDP" "IP" "proto" (u8 17)) (new_ip net) refl
      ip_proto ip_knows

core_registrations-by_sport_example :
    (resolve_next_layer (register_all core_registrations nothing) "UDP" udp_layer
      ≡ next_by_value (register_all core_registrations nothing) "UDP" (get udp_layer "sport"))
    × (resolve_next_layer (register_all core_registrations nothing) "TCP" udp_layer
        ≡ next_by_value (register_all core_registrations nothing) "TCP" (get udp_layer "sport"))
core_registrations-by_sport_example = core_registrations-by_sport nothing udp_layer

-- A query to port 53 is not taken for DNS, but its answer is.
query_missed : resolve_next_layer (register_all core_registrations nothing) "UDP" udp_layer ≡ ""
unfolding resolve_next_layer register_all register_heuristic get lookup nothing
query_missed = refl

abbrev ip_layer : Layer
ip_layer = record {
  proto = "IP";
  fields = ip_fields net;
  values =
      ("verihl", u8 0x45)
      ∷ ("tos", u8 0)
      ∷ ("len", u16 20)
      ∷ ("id", u16 7)
      ∷ ("frag", u16 0)
      ∷ ("ttl", u8 64)
      ∷ ("proto", u8 17)
      ∷ ("chksum", u16 0)
      ∷ ("src", ip (10 ∷ 0 ∷ 0 ∷ 1 ∷ []))
      ∷ ("dst", ip (10 ∷ 0 ∷ 0 ∷ 2 ∷ []))
      ∷ [];
}

ip_layer_values : IpValues net ip_layer.values
unfolding lookup ip_bytes to4
ip_layer_values = record {
  verihl = 0x45;
  tos = 0;
  id = 7;
  frag = 0;
  ttl = 64;
  proto = 17;
  src_val = ip (10 ∷ 0 ∷ 0 ∷ 1 ∷ []);
  dst_val = ip (10 ∷ 0 ∷ 0 ∷ 2 ∷ []);
  src = 10 ∷ 0 ∷ 0 ∷ 1 ∷ [];
  dst = 10 ∷ 0 ∷ 0 ∷ 2 ∷ [];
  has_verihl = refl;
  has_tos = refl;
  has_id = refl;
  has_frag = refl;
  has_ttl = refl;
  has_proto = refl;
  has_src = refl;
  has_dst = refl;
  src_set = refl;
  src_packed = refl;
  dst_packed = refl;
  src_bytes = (omega arith, refl);
  dst_bytes = (omega arith, refl);
  fit = omega arith;
}

fits_length : header_size_of ip_layer_values.verihl + 3 < 2 ^ 16
unfolding ip_layer_values
fits_length = omega arith

ip_build_hook-verified_example :
    (p' : Packet) × (csum : ℕ) × (ip_build_hook
        (record { layers = ip_layer ∷ [] })
        0
        (1 ∷ 2 ∷ 3 ∷ [])
        (replicate 20 0)
      ≡ ok (
        p',
        ip_header net ip_layer.values ip_layer_values
              (header_size_of ip_layer_values.verihl + 3)
              csum
            ++ [],
        20,
      ))
    × (checksum (
          ip_header net ip_layer.values ip_layer_values
            (header_size_of ip_layer_values.verihl + 3)
            csum)
        ≡ ok 0)
ip_build_hook-verified_example =
    ip_build_hook-verified net (record { layers = ip_layer ∷ [] }) 0 ip_layer (1 ∷ 2 ∷ 3 ∷ [])
      (replicate 20 0) ip_layer_values refl refl (omega arith) fits_length
