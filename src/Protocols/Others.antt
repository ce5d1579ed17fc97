-- ===== src/Protocols/Others.antt =====
-- pkg/layers: the header tables of ICMPv6, neighbour discovery, link protocols and tunnels.
use goscapy.Base.{List, [], ◌∷◌}
use goscapy.Fields.{Field}
use goscapy.Fields.Ints.{byte_field, xbyte_field, short_field, three_bytes_field, int_field}
use goscapy.Fields.Addresses.{Net, ip_field, ipv6_field}
use goscapy.Fields.Texts.{str_field, str_fixed_field}
use goscapy.Layer.{Layer, new_layer}

abbrev pub icmpv6_fields : List Field
icmpv6_fields = byte_field "type" 128 ∷ byte_field "code" 0 ∷ short_field "chksum" 0 ∷ []

unfoldable pub new_icmpv6 : Layer
new_icmpv6 = new_layer "ICMPv6" icmpv6_fields

abbrev pub router_solicitation_fields : List Field
router_solicitation_fields = int_field "reserved" 0 ∷ str_field "options" [] ∷ []

unfoldable pub new_router_solicitation : Layer
new_router_solicitation = new_layer "NDP Router Solicitation" router_solicitation_fields

abbrev pub router_advertisement_fields : List Field
router_advertisement_fields =
    byte_field "hoplimit" 64
    ∷ byte_field "flags" 0
    ∷ short_field "lifetime" 1800
    ∷ int_field "reachable" 0
    ∷ int_field "retrans" 0
    ∷ str_field "options" []
    ∷ []

unfoldable pub new_router_advertisement : Layer
new_router_advertisement = new_layer "NDP Router Advertisement" router_advertisement_fields

abbrev pub neighbor_solicitation_fields : Net → List Field
neighbor_solicitation_fields net =
    int_field "reserved" 0 ∷ ipv6_field net "target" [] ∷ str_field "options" [] ∷ []

unfoldable pub new_neighbor_solicitation : Net → Layer
new_neighbor_solicitation net =
    new_layer "NDP Neighbor Solicitation" (neighbor_solicitation_fields net)

abbrev pub neighbor_advertisement_fields : Net → List Field
neighbor_advertisement_fields net =
    byte_field "flags" 0
    ∷ three_bytes_field "reserved" 0
    ∷ ipv6_field net "target" []
    ∷ str_field "options" []
    ∷ []

unfoldable pub new_neighbor_advertisement : Net → Layer
new_neighbor_advertisement net =
    new_layer "NDP Neighbor Advertisement" (neighbor_advertisement_fields net)

abbrev pub redirect_fields : Net → List Field
redirect_fields net =
    int_field "reserved" 0
    ∷ ipv6_field net "target" []
    ∷ ipv6_field net "dest" []
    ∷ str_field "options" []
    ∷ []

unfoldable pub new_redirect : Net → Layer
new_redirect net = new_layer "NDP Redirect" (redirect_fields net)

abbrev pub stp_fields : List Field
stp_fields =
    short_field "proto" 0x0000
    ∷ byte_field "version" 0x00
    ∷ byte_field "bpdutype" 0x00
    ∷ xbyte_field "flags" 0
    ∷ str_fixed_field "rootid" 8 []
    ∷ int_field "rootcost" 0
    ∷ str_fixed_field "bridgeid" 8 []
    ∷ short_field "portid" 0x8001
    ∷ short_field "age" 0
    ∷ short_field "maxage" 5120
    ∷ short_field "hello" 512
    ∷ short_field "fwddelay" 3840
    ∷ []

unfoldable pub new_stp : Layer
new_stp = new_layer "STP" stp_fields

abbrev pub hsrp_fields : Net → List Field
hsrp_fields net =
    byte_field "version" 0
    ∷ byte_field "opcode" 0
    ∷ byte_field "state" 16
    ∷ byte_field "hellotime" 3
    ∷ byte_field "holdtime" 10
    ∷ byte_field "priority" 100
    ∷ byte_field "group" 0
    ∷ byte_field "reserved" 0
    ∷ str_fixed_field "auth" 8 (99 ∷ 105 ∷ 115 ∷ 99 ∷ 111 ∷ 0 ∷ 0 ∷ 0 ∷ [])
    ∷ ip_field net "virtualip" []
    ∷ []

unfoldable pub new_hsrp : Net → Layer
new_hsrp net = new_layer "HSRP" (hsrp_fields net)

abbrev pub vrrp_fields : List Field
vrrp_fields =
    byte_field "ver_type" 0x21
    ∷ byte_field "vrid" 1
    ∷ byte_field "priority" 100
    ∷ byte_field "ipcount" 1
    ∷ byte_field "authtype" 0
    ∷ byte_field "adver" 1
    ∷ short_field "chksum" 0
    ∷ str_field "addrs" []
    ∷ []

unfoldable pub new_vrrp : Layer
new_vrrp = new_layer "VRRP" vrrp_fields

abbrev pub pppoe_fields : List Field
pppoe_fields =
    byte_field "ver_type" 0x11
    ∷ byte_field "code" 0x00
    ∷ short_field "session_id" 0
    ∷ short_field "len" 0
    ∷ []

unfoldable pub new_pppoe : Layer
new_pppoe = new_layer "PPPoE" pppoe_fields

abbrev pub ppp_fields : List Field
ppp_fields = short_field "proto" 0x0021 ∷ []

unfoldable pub new_ppp : Layer
new_ppp = new_layer "PPP" ppp_fields

abbrev pub eapol_fields : List Field
eapol_fields = byte_field "version" 1 ∷ byte_field "type" 0 ∷ short_field "len" 0 ∷ []

unfoldable pub new_eapol : Layer
new_eapol = new_layer "EAPOL" eapol_fields

abbrev pub eap_fields : List Field
eap_fields =
    byte_field "code" 1 ∷ byte_field "id" 0 ∷ short_field "len" 0 ∷ str_field "data" [] ∷ []

unfoldable pub new_eap : Layer
new_eap = new_layer "EAP" eap_fields

abbrev pub esp_fields : List Field
esp_fields = int_field "spi" 0 ∷ int_field "seq" 0 ∷ str_field "data" [] ∷ []

unfoldable pub new_esp : Layer
new_esp = new_layer "ESP" esp_fields

abbrev pub gtp_fields : List Field
gtp_fields =
    byte_field "flags" 0x30
    ∷ byte_field "msgtype" 255
    ∷ short_field "len" 0
    ∷ int_field "teid" 0
    ∷ []

unfoldable pub new_gtp : Layer
new_gtp = new_layer "GTP" gtp_fields

abbrev pub sctp_fields : List Field
sctp_fields =
    short_field "sport" 0 ∷ short_field "dport" 0 ∷ int_field "vtag" 0 ∷ int_field "chksum" 0 ∷ []

unfoldable pub new_sctp : Layer
new_sctp = new_layer "SCTP" sctp_fields

abbrev pub sctp_chunk_fields : List Field
sctp_chunk_fields =
    byte_field "type" 0 ∷ byte_field "flags" 0 ∷ short_field "len" 4 ∷ str_field "value" [] ∷ []

unfoldable pub new_sctp_chunk : Layer
new_sctp_chunk = new_layer "SCTPChunk" sctp_chunk_fields
