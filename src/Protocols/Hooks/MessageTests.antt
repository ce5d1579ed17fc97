-- ===== src/Protocols/Hooks/MessageTests.antt =====
-- The hooks of messages on concrete headers.
use goscapy.Base.{
  ◌>>=◌, put_be, Outcome, err, no_layer, replicate, ok, ℕ, ◌≡◌, refl, List, [], ◌∷◌, ◌++◌, none,
}
use goscapy.Values.{lookup, insert, ip}
use goscapy.Fields.Addresses.{Net}
use goscapy.Layer.{Layer, new_layer, serialize_into, get, set as set_value}
use goscapy.Fields.Ints.{short_field, byte_field}
use goscapy.Checksum.{fold_checksum, checksum_sum, checksum_ipv6_pseudo}
use goscapy.Fields.Texts.{str_field}
use goscapy.Packet.{Packet}
use goscapy.Protocols.Others.{new_icmpv6, new_vrrp, new_pppoe, new_eapol, new_eap}
use goscapy.Protocols.Tables.{new_icmp}
use goscapy.Protocols.Hooks.Messages.{
  icmp_build_hook, icmpv6_build_hook, vrrp_build_hook, pppoe_build_hook, eapol_build_hook,
  eap_build_hook,
}

abbrev no_net : Net
no_net = record { parse_mac = λ s. none; parse_ip = λ s. none }

-- The bytes that a hook leaves in its window.
abbrev bytes_of : Outcome (Packet × List ℕ × ℕ) → Outcome (List ℕ)
bytes_of r = r >>= λ (p, buf, n). ok buf

abbrev alone : Layer → Packet
alone l = record { layers = l ∷ [] }

-- An address fe80::n
abbrev link_local : ℕ → List ℕ
link_local n = 254 ∷ 128 ∷ replicate 13 0 ++ n ∷ []

abbrev below_icmpv6 : Layer
below_icmpv6 = record {
  proto = "IPv6";
  fields = [];
  values = ("src", ip (link_local 1)) ∷ ("dst", ip (link_local 2)) ∷ [];
}

eap_length :
    bytes_of (eap_build_hook (alone new_eap) 0 (1 ∷ 2 ∷ 3 ∷ []) (replicate 4 0))
    ≡ ok (1 ∷ 0 ∷ 0 ∷ 7 ∷ [])
unfolding eap_build_hook new_eap new_layer lookup insert serialize_into set_value str_field
    short_field byte_field put_be get
eap_length = refl

upper_lengths :
    (bytes_of (pppoe_build_hook (alone new_pppoe) 0 (1 ∷ 2 ∷ []) (replicate 6 0))
      ≡ ok (17 ∷ 0 ∷ 0 ∷ 0 ∷ 0 ∷ 2 ∷ []))
    × (bytes_of (eapol_build_hook (alone new_eapol) 0 (1 ∷ 2 ∷ 3 ∷ []) (replicate 4 0))
        ≡ ok (1 ∷ 0 ∷ 0 ∷ 3 ∷ []))
unfolding pppoe_build_hook eapol_build_hook new_pppoe new_eapol new_layer lookup insert
    serialize_into set_value short_field byte_field put_be get
upper_lengths = (refl, refl)

message_checksums :
    (bytes_of (icmp_build_hook (alone new_icmp) 0 [] (replicate 8 0))
      ≡ ok (8 ∷ 0 ∷ 247 ∷ 255 ∷ 0 ∷ 0 ∷ 0 ∷ 0 ∷ []))
    × (bytes_of (vrrp_build_hook (alone new_vrrp) 0 [] (replicate 8 0))
        ≡ ok (33 ∷ 1 ∷ 100 ∷ 1 ∷ 0 ∷ 1 ∷ 122 ∷ 252 ∷ []))
unfolding icmp_build_hook vrrp_build_hook new_icmp new_vrrp new_layer lookup insert serialize_into
    set_value str_field short_field byte_field put_be get fold_checksum checksum_sum
message_checksums = (refl, refl)

-- ICMPv6 with no IPv6 layer below, and above one.
icmpv6_checksums :
    (bytes_of (icmpv6_build_hook no_net (alone new_icmpv6) 0 [] (replicate 4 0)) ≡ err no_layer)
    × (bytes_of (
          icmpv6_build_hook no_net
            (record { layers = below_icmpv6 ∷ new_icmpv6 ∷ [] })
            1
            []
            (replicate 4 0))
        ≡ ok (128 ∷ 0 ∷ 130 ∷ 188 ∷ []))
unfolding icmpv6_build_hook new_icmpv6 new_layer lookup insert get serialize_into set_value
    short_field byte_field put_be fold_checksum checksum_sum checksum_ipv6_pseudo
icmpv6_checksums = (refl, refl)
