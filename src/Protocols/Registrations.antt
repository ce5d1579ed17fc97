-- ===== src/Protocols/Registrations.antt =====
-- pkg/layers/init.go with dot1q/init.go and gre/init.go: what the protocols register at startup
-- for binding layers and for finding the next layer.
pub mod Resolve
use goscapy.Base.{
  ◌==◌, if◌then◌else◌, ◌>>=◌, ℕ, ◌-◌, ◌/◌, String, str_eq, ◌&&◌, some, List, [], ◌∷◌,
}
use goscapy.Values.{Value, u8, u16, to_uint64}
use goscapy.Dissect.{Registry}
use goscapy.Packet.{BindingRule}

pub data Registration : Type 0 where
  key_field_is : (proto field_name : String) → Registration
  next_layer_is : (proto : String) (key_value : ℕ) (next : String) → Registration
  heuristic : (lower field : String) (value : Value) (next : String) → Registration

-- `RegisterKeyField`: a map's entry is written, over one that is there.
unfoldable pub register_key_field : (proto field_name : String) → Registry → Registry
register_key_field proto field_name reg = record reg {
  key_field = λ q. if str_eq proto q then some field_name else reg.key_field q;
}

-- `RegisterNextLayer`
unfoldable pub register_next_layer :
    (proto : String) (key_value : ℕ) (next : String) → Registry → Registry
register_next_layer proto key_value next reg = record reg {
  next_layer = λ q v. if str_eq proto q && key_value == v then some next else reg.next_layer q v;
}

-- `RegisterHeuristic`
unfoldable pub register_heuristic :
    (lower field : String) (value : Value) (next : String) → Registry → Registry
unfolding register_key_field register_next_layer to_uint64
register_heuristic lower field value next reg =
    register_next_layer lower (to_uint64 value) next (register_key_field lower field reg)

unfoldable pub register : Registration → Registry → Registry
unfolding register_heuristic
register (key_field_is proto field_name) reg = register_key_field proto field_name reg
register (next_layer_is proto key_value next) reg = register_next_layer proto key_value next reg
register (heuristic lower field value next) reg = register_heuristic lower field value next reg

unfoldable pub register_all : List Registration → Registry → Registry
unfolding register
register_all [] reg = reg
register_all (r ∷ rs) reg = register_all rs (register r reg)

abbrev pub binding : (upper lower field : String) (value : Value) → BindingRule
binding upper lower field value = record {
  upper_proto = upper;
  lower_proto = lower;
  field_name = field;
  field_value = value;
}

abbrev pub core_bindings : List BindingRule
core_bindings =
    binding "IP" "Ethernet" "type" (u16 0x0800)
    ∷ binding "IPv6" "Ethernet" "type" (u16 0x86DD)
    ∷ binding "ARP" "Ethernet" "type" (u16 0x0806)
    ∷ binding "RARP" "Ethernet" "type" (u16 0x8035)
    ∷ binding "Dot1Q" "Ethernet" "type" (u16 0x8100)
    ∷ binding "IP" "Dot1Q" "type" (u16 0x0800)
    ∷ binding "ARP" "Dot1Q" "type" (u16 0x0806)
    ∷ binding "IPv6" "Dot1Q" "type" (u16 0x86DD)
    ∷ binding "TCP" "IP" "proto" (u8 6)
    ∷ binding "UDP" "IP" "proto" (u8 17)
    ∷ binding "UDP" "IPv6" "nh" (u8 17)
    ∷ binding "TCP" "IPv6" "nh" (u8 6)
    ∷ binding "ICMP" "IP" "proto" (u8 1)
    ∷ binding "IGMP" "IP" "proto" (u8 2)
    ∷ binding "SCTP" "IP" "proto" (u8 132)
    ∷ binding "SCTP" "IPv6" "nh" (u8 132)
    ∷ binding "ESP" "IP" "proto" (u8 50)
    ∷ binding "ESP" "IPv6" "nh" (u8 50)
    ∷ binding "AH" "IP" "proto" (u8 51)
    ∷ binding "AH" "IPv6" "nh" (u8 51)
    ∷ binding "VRRP" "IP" "proto" (u8 112)
    ∷ binding "EAPOL" "Ethernet" "type" (u16 0x888E)
    ∷ binding "MPLS" "Ethernet" "type" (u16 0x8847)
    ∷ binding "PPPoE" "Ethernet" "type" (u16 0x8864)
    ∷ binding "ICMPv6" "IPv6" "nh" (u8 58)
    ∷ binding "IPv6 Hop-by-Hop" "IPv6" "nh" (u8 0)
    ∷ binding "IPv6 Routing" "IPv6" "nh" (u8 43)
    ∷ binding "IPv6 Fragment" "IPv6" "nh" (u8 44)
    ∷ binding "IPv6 DestOpts" "IPv6" "nh" (u8 60)
    ∷ binding "GRE" "IP" "proto" (u8 47)
    ∷ binding "LLDP" "Ethernet" "type" (u16 0x88CC)
    ∷ binding "ERSPAN" "GRE" "proto" (u16 0x88BE)
    ∷ binding "OSPF" "IP" "proto" (u8 89)
    ∷ []

abbrev pub core_registrations : List Registration
core_registrations =
    key_field_is "Dot1Q" "type"
    ∷ next_layer_is "Dot1Q" 0x0800 "IP"
    ∷ next_layer_is "Dot1Q" 0x0806 "ARP"
    ∷ next_layer_is "Dot1Q" 0x86DD "IPv6"
    ∷ next_layer_is "Dot1Q" 0x8100 "Dot1Q"
    ∷ next_layer_is "Dot1Q" 0x88A8 "Dot1Q"
    ∷ key_field_is "GRE" "proto"
    ∷ next_layer_is "GRE" 0x0800 "IP"
    ∷ next_layer_is "GRE" 0x6558 "Ethernet"
    ∷ key_field_is "Ethernet" "type"
    ∷ key_field_is "IP" "proto"
    ∷ next_layer_is "Ethernet" 0x0800 "IP"
    ∷ next_layer_is "Ethernet" 0x0806 "ARP"
    ∷ next_layer_is "Ethernet" 0x8035 "RARP"
    ∷ next_layer_is "Ethernet" 0x86DD "IPv6"
    ∷ next_layer_is "IP" 1 "ICMP"
    ∷ next_layer_is "IP" 2 "IGMP"
    ∷ next_layer_is "IP" 6 "TCP"
    ∷ next_layer_is "IP" 17 "UDP"
    ∷ next_layer_is "IP" 132 "SCTP"
    ∷ next_layer_is "IP" 50 "ESP"
    ∷ next_layer_is "IP" 51 "AH"
    ∷ next_layer_is "IP" 112 "VRRP"
    ∷ next_layer_is "IPv6" 132 "SCTP"
    ∷ next_layer_is "IPv6" 50 "ESP"
    ∷ next_layer_is "IPv6" 51 "AH"
    ∷ key_field_is "AH" "nh"
    ∷ next_layer_is "AH" 6 "TCP"
    ∷ next_layer_is "AH" 17 "UDP"
    ∷ next_layer_is "AH" 4 "IP"
    ∷ next_layer_is "AH" 41 "IPv6"
    ∷ heuristic "UDP" "dport" (u16 2152) "GTP"
    ∷ heuristic "UDP" "sport" (u16 2152) "GTP"
    ∷ heuristic "UDP" "dport" (u16 1985) "HSRP"
    ∷ heuristic "UDP" "sport" (u16 1985) "HSRP"
    ∷ next_layer_is "Ethernet" 0x8847 "MPLS"
    ∷ next_layer_is "Ethernet" 0x8848 "MPLS"
    ∷ next_layer_is "Ethernet" 0x8864 "PPPoE"
    ∷ next_layer_is "Ethernet" 0x888E "EAPOL"
    ∷ key_field_is "PPP" "proto"
    ∷ next_layer_is "PPP" 0x0021 "IP"
    ∷ next_layer_is "PPP" 0x0057 "IPv6"
    ∷ key_field_is "IPv6" "nh"
    ∷ key_field_is "IPv6 Hop-by-Hop" "nh"
    ∷ key_field_is "IPv6 Routing" "nh"
    ∷ key_field_is "IPv6 Fragment" "nh"
    ∷ key_field_is "IPv6 DestOpts" "nh"
    ∷ key_field_is "ICMPv6" "type"
    ∷ next_layer_is "IPv6" 0 "IPv6 Hop-by-Hop"
    ∷ next_layer_is "IPv6" 43 "IPv6 Routing"
    ∷ next_layer_is "IPv6" 44 "IPv6 Fragment"
    ∷ next_layer_is "IPv6" 60 "IPv6 DestOpts"
    ∷ next_layer_is "IPv6" 58 "ICMPv6"
    ∷ next_layer_is "IPv6" 6 "TCP"
    ∷ next_layer_is "IPv6" 17 "UDP"
    ∷ next_layer_is "ICMPv6" 128 "ICMPv6 Echo"
    ∷ next_layer_is "ICMPv6" 129 "ICMPv6 Echo Reply"
    ∷ next_layer_is "ICMPv6" 133 "NDP Router Solicitation"
    ∷ next_layer_is "ICMPv6" 134 "NDP Router Advertisement"
    ∷ next_layer_is "ICMPv6" 135 "NDP Neighbor Solicitation"
    ∷ next_layer_is "ICMPv6" 136 "NDP Neighbor Advertisement"
    ∷ next_layer_is "ICMPv6" 137 "NDP Redirect"
    ∷ next_layer_is "IPv6 Hop-by-Hop" 44 "IPv6 Fragment"
    ∷ next_layer_is "IPv6 Hop-by-Hop" 58 "ICMPv6"
    ∷ next_layer_is "IPv6 Hop-by-Hop" 6 "TCP"
    ∷ next_layer_is "IPv6 Hop-by-Hop" 17 "UDP"
    ∷ next_layer_is "IPv6 Fragment" 58 "ICMPv6"
    ∷ next_layer_is "IPv6 Fragment" 6 "TCP"
    ∷ next_layer_is "IPv6 Fragment" 17 "UDP"
    ∷ next_layer_is "IPv6 DestOpts" 58 "ICMPv6"
    ∷ next_layer_is "IPv6 DestOpts" 6 "TCP"
    ∷ next_layer_is "IPv6 DestOpts" 17 "UDP"
    ∷ heuristic "UDP" "dport" (u16 67) "DHCP"
    ∷ heuristic "UDP" "sport" (u16 67) "DHCP"
    ∷ heuristic "UDP" "dport" (u16 68) "DHCP"
    ∷ heuristic "UDP" "sport" (u16 68) "DHCP"
    ∷ heuristic "UDP" "dport" (u16 4789) "VXLAN"
    ∷ heuristic "IP" "proto" (u8 47) "GRE"
    ∷ heuristic "Ethernet" "type" (u16 0x86DD) "IPv6"
    ∷ heuristic "Ethernet" "type" (u16 0x8100) "Dot1Q"
    ∷ heuristic "Ethernet" "type" (u16 0x88A8) "Dot1Q"
    ∷ heuristic "Ethernet" "type" (u16 0x88CC) "LLDP"
    ∷ heuristic "GRE" "proto" (u16 0x88BE) "ERSPAN"
    ∷ heuristic "IP" "proto" (u8 89) "OSPF"
    ∷ heuristic "TCP" "dport" (u16 179) "BGP"
    ∷ heuristic "TCP" "sport" (u16 179) "BGP"
    ∷ heuristic "UDP" "dport" (u16 53) "DNS"
    ∷ heuristic "UDP" "sport" (u16 53) "DNS"
    ∷ heuristic "UDP" "dport" (u16 443) "QUIC"
    ∷ heuristic "UDP" "sport" (u16 443) "QUIC"
    ∷ heuristic "TCP" "dport" (u16 80) "HTTP"
    ∷ heuristic "TCP" "sport" (u16 80) "HTTP"
    ∷ heuristic "TCP" "dport" (u16 8080) "HTTP"
    ∷ heuristic "TCP" "sport" (u16 8080) "HTTP"
    ∷ heuristic "UDP" "dport" (u16 123) "NTP"
    ∷ heuristic "UDP" "sport" (u16 123) "NTP"
    ∷ heuristic "TCP" "dport" (u16 443) "TLS"
    ∷ heuristic "TCP" "sport" (u16 443) "TLS"
    ∷ heuristic "UDP" "dport" (u16 161) "SNMP"
    ∷ heuristic "UDP" "sport" (u16 161) "SNMP"
    ∷ heuristic "UDP" "dport" (u16 162) "SNMP"
    ∷ heuristic "UDP" "sport" (u16 162) "SNMP"
    ∷ heuristic "UDP" "dport" (u16 1812) "RADIUS"
    ∷ heuristic "UDP" "sport" (u16 1812) "RADIUS"
    ∷ heuristic "UDP" "dport" (u16 1813) "RADIUS"
    ∷ heuristic "UDP" "sport" (u16 1813) "RADIUS"
    ∷ heuristic "TCP" "dport" (u16 88) "Kerberos"
    ∷ heuristic "TCP" "sport" (u16 88) "Kerberos"
    ∷ heuristic "UDP" "dport" (u16 88) "Kerberos"
    ∷ heuristic "UDP" "sport" (u16 88) "Kerberos"
    ∷ heuristic "TCP" "dport" (u16 389) "LDAP"
    ∷ heuristic "TCP" "sport" (u16 389) "LDAP"
    ∷ []
