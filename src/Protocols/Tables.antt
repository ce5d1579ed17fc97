-- ===== src/Protocols/Tables.antt =====
-- pkg/layers: the header tables of Ethernet, ARP, IP, UDP, ICMP, IGMP, IPv6 and raw bytes.
use goscapy.Base.{List, [], ◌∷◌}
use goscapy.Fields.{Field}
use goscapy.Fields.Ints.{byte_field, short_field, int_field}
use goscapy.Fields.Addresses.{Net, mac_field, ip_field, ipv6_field}
use goscapy.Fields.Texts.{str_field}
use goscapy.Layer.{Layer, new_layer}

abbrev pub ethernet_fields : Net → List Field
ethernet_fields net = mac_field net "dst" [] ∷ mac_field net "src" [] ∷ short_field "type" 0 ∷ []

unfoldable pub new_ethernet : Net → Layer
new_ethernet net = new_layer "Ethernet" (ethernet_fields net)

abbrev pub arp_fields : Net → List Field
arp_fields net =
    short_field "hwtype" 1
    ∷ short_field "ptype" 0x0800
    ∷ byte_field "hwlen" 6
    ∷ byte_field "plen" 4
    ∷ short_field "op" 1
    ∷ mac_field net "hwsrc" []
    ∷ ip_field net "psrc" []
    ∷ mac_field net "hwdst" []
    ∷ ip_field net "pdst" []
    ∷ []

unfoldable pub new_arp : Net → Layer
new_arp net = new_layer "ARP" (arp_fields net)

abbrev pub ip_fields : Net → List Field
ip_fields net =
    byte_field "verihl" 0x45
    ∷ byte_field "tos" 0
    ∷ short_field "len" 20
    ∷ short_field "id" 0
    ∷ short_field "frag" 0
    ∷ byte_field "ttl" 64
    ∷ byte_field "proto" 0
    ∷ short_field "chksum" 0
    ∷ ip_field net "src" []
    ∷ ip_field net "dst" []
    ∷ []

unfoldable pub new_ip : Net → Layer
new_ip net = new_layer "IP" (ip_fields net)

abbrev pub udp_fields : List Field
udp_fields =
    short_field "sport" 0
    ∷ short_field "dport" 0
    ∷ short_field "len" 8
    ∷ short_field "chksum" 0
    ∷ []

unfoldable pub new_udp : Layer
new_udp = new_layer "UDP" udp_fields

abbrev pub icmp_fields : List Field
icmp_fields =
    byte_field "type" 8
    ∷ byte_field "code" 0
    ∷ short_field "chksum" 0
    ∷ short_field "id" 0
    ∷ short_field "seq" 0
    ∷ []

unfoldable pub new_icmp : Layer
new_icmp = new_layer "ICMP" icmp_fields

abbrev pub igmp_fields : Net → List Field
igmp_fields net =
    byte_field "type" 0x11
    ∷ byte_field "mrtime" 0
    ∷ short_field "chksum" 0
    ∷ ip_field net "gaddr" []
    ∷ []

unfoldable pub new_igmp : Net → Layer
new_igmp net = new_layer "IGMP" (igmp_fields net)

abbrev pub raw_fields : List Field
raw_fields = str_field "load" [] ∷ []

unfoldable pub new_raw : Layer
new_raw = new_layer "Raw" raw_fields

abbrev pub ipv6_fields : Net → List Field
ipv6_fields net =
    int_field "ver_tc_fl" 0x60000000
    ∷ short_field "plen" 0
    ∷ byte_field "nh" 0
    ∷ byte_field "hlim" 64
    ∷ ipv6_field net "src" []
    ∷ ipv6_field net "dst" []
    ∷ []

unfoldable pub new_ipv6 : Net → Layer
new_ipv6 net = new_layer "IPv6" (ipv6_fields net)

abbrev pub ipv6_fragment_fields : List Field
ipv6_fragment_fields =
    byte_field "nh" 0 ∷ byte_field "res" 0 ∷ short_field "frag" 0 ∷ int_field "id" 0 ∷ []

unfoldable pub new_ipv6_fragment : Layer
new_ipv6_fragment = new_layer "IPv6 Fragment" ipv6_fragment_fields
