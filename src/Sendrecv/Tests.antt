-- ===== src/Sendrecv/Tests.antt =====
-- Sent packets and their answers, and the theorem on a handshake.
use goscapy.Base.{ℕ, ◌+◌, ◌%◌, ◌^◌, ◌≡◌, ◌↔◌, refl, true, false, List, [], ◌∷◌, String}
use goscapy.Values.{Values, lookup, u8, u16, u32, ip, str}
use goscapy.Layer.{Layer, get}
use goscapy.Packet.{Packet, get_layer}
use goscapy.Sendrecv.{has_syn, has_ack, default_match}
use goscapy.Sendrecv.Handshake.{Segment, IsSegment, IsOnlyTcp, default_match-SynAck}

abbrev layer : String → Values → Layer
layer proto values = record { proto = proto; fields = []; values = values }

abbrev client : List ℕ
client = 10 ∷ 0 ∷ 0 ∷ 1 ∷ []

abbrev server : List ℕ
server = 10 ∷ 0 ∷ 0 ∷ 2 ∷ []

abbrev ip_layer : (src dst : List ℕ) → Layer
ip_layer src dst = layer "IP" (("src", ip src) ∷ ("dst", ip dst) ∷ [])

abbrev tcp_layer : Segment → Layer
tcp_layer s = layer "TCP" (
    ("sport", u16 s.sport)
    ∷ ("dport", u16 s.dport)
    ∷ ("seq", u32 s.seq)
    ∷ ("ack", u32 s.ack)
    ∷ ("flags", u8 s.flags)
    ∷ [])

abbrev segment : Segment → Packet
segment s = record { layers = ip_layer s.src s.dst ∷ tcp_layer s ∷ [] }

abbrev syn : Segment
syn = record {
  src = client;
  dst = server;
  sport = 40000;
  dport = 80;
  seq = 4294967295;
  ack = 0;
  flags = 0x02;
}

abbrev syn_ack : Segment
syn_ack = record {
  src = server;
  dst = client;
  sport = 80;
  dport = 40000;
  seq = 7;
  ack = 0;
  flags = 0x12;
}

-- Its acknowledged number wraps around.
answered : default_match (segment syn) (segment syn_ack) ≡ true
unfolding default_match get_layer get lookup
answered = refl

abbrev reset : Segment
reset = record {
  src = server;
  dst = client;
  sport = 80;
  dport = 40000;
  seq = 0;
  ack = 0;
  flags = 0x14;
}

refused : default_match (segment syn) (segment reset) ≡ false
unfolding default_match get_layer get lookup
refused = refl

-- A destination that was set as a text is not compared: the segment may come from anywhere.
text_destination :
    default_match
      (record { layers = layer "IP" (("dst", str (49 ∷ [])) ∷ []) ∷ tcp_layer syn ∷ [] })
      (segment syn_ack)
    ≡ true
unfolding default_match get_layer get lookup
text_destination = refl

abbrev icmp : (src dst : List ℕ) (type id : ℕ) → Packet
icmp src dst type id = record {
  layers = ip_layer src dst ∷ layer "ICMP" (("type", u8 type) ∷ ("id", u16 id) ∷ []) ∷ [];
}

-- A reply with the request's identifier, with another one, and an error without one.
echoes :
    (default_match (icmp client server 8 5) (icmp server client 0 5) ≡ true)
    × (default_match (icmp client server 8 5) (icmp server client 0 6) ≡ false)
    × (default_match (icmp client server 8 5) (icmp server client 3 0) ≡ true)
unfolding default_match get_layer get lookup
echoes = (refl, refl, refl)

abbrev arp : (op : ℕ) (psrc pdst : List ℕ) → Packet
arp op psrc pdst = record {
  layers = layer "ARP" (("op", u16 op) ∷ ("psrc", ip psrc) ∷ ("pdst", ip pdst) ∷ []) ∷ [];
}

arp_replies :
    (default_match (arp 1 client server) (arp 2 server client) ≡ true)
    × (default_match (arp 1 client server) (arp 1 server client) ≡ false)
unfolding default_match get_layer get lookup
arp_replies = (refl, refl)

segment-IsSegment : (s : Segment) → IsSegment (segment s) (ip_layer s.src s.dst) (tcp_layer s) s
unfolding get_layer get lookup
segment-IsSegment s = record {
  found_ip = refl;
  found_tcp = refl;
  at_src = refl;
  at_dst = refl;
  at_sport = refl;
  at_dport = refl;
  at_seq = refl;
  at_ack = refl;
  at_flags = refl;
}

segment-IsOnlyTcp : (s : Segment) → IsOnlyTcp (segment s)
unfolding get_layer
segment-IsOnlyTcp s = record {
  no_arp = refl;
  no_icmp = refl;
  no_udp = refl;
  no_dns = refl;
  no_dhcp = refl;
}

default_match-SynAck_example :
    default_match (segment syn) (segment syn_ack) ≡ true
    ↔ (server ≡ server)
      × (syn_ack.sport ≡ syn.dport)
      × (syn_ack.dport ≡ syn.sport)
      × (has_syn syn_ack.flags ≡ true)
      × (has_ack syn_ack.flags ≡ true)
      × (syn_ack.ack ≡ (syn.seq + 1) % 2 ^ 32)
default_match-SynAck_example =
    default_match-SynAck (segment syn) (segment syn_ack) (ip_layer client server) (tcp_layer syn)
      (ip_layer server client) (tcp_layer syn_ack) syn syn_ack (segment-IsOnlyTcp syn)
      (segment-IsSegment syn) (segment-IsSegment syn_ack) refl refl refl
