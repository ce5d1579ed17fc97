-- ===== src/Sendrecv/Handshake.antt =====
-- pkg/sendrecv/match.go: what answers a SYN.
use goscapy.Base.{
  ◌==◌, ◌&&◌, ◌||◌, not, true, length, ok, ℕ, ◌+◌, ◌%◌, ◌^◌, ◌≡◌, refl, ◌↔◌, none, some, List, [],
  ◌∷◌, arith,
}
use goscapy.Values.{u8, u16, u32, ip}
use goscapy.Fields.Addresses.{eq_bytes}
use goscapy.Layer.{Layer, get}
use goscapy.Packet.{Packet, get_layer}
use goscapy.Sendrecv.{
  source_of, typed_field, lax_field, sent_ip, ip_equal, ip_matches, ports_swapped, has_syn, has_ack,
  tcp_matches, network_matches, layers_match, default_match,
}

-- The header values of a TCP segment over IP.
pub record Segment : Type 0 where
  pub src : List ℕ
  pub dst : List ℕ
  pub sport : ℕ
  pub dport : ℕ
  pub seq : ℕ
  pub ack : ℕ
  pub flags : ℕ

-- A packet whose first IP and TCP layers have these values, the addresses as `net.IP` values.
pub record IsSegment (p : Packet) (i t : Layer) (s : Segment) : Type 0 where
  pub found_ip : get_layer p "IP" ≡ some i
  pub found_tcp : get_layer p "TCP" ≡ some t
  pub at_src : get i "src" ≡ ok (ip s.src)
  pub at_dst : get i "dst" ≡ ok (ip s.dst)
  pub at_sport : get t "sport" ≡ ok (u16 s.sport)
  pub at_dport : get t "dport" ≡ ok (u16 s.dport)
  pub at_seq : get t "seq" ≡ ok (u32 s.seq)
  pub at_ack : get t "ack" ≡ ok (u32 s.ack)
  pub at_flags : get t "flags" ≡ ok (u8 s.flags)

-- No other layer that is matched.
pub record IsOnlyTcp (p : Packet) : Type 0 where
  pub no_arp : get_layer p "ARP" ≡ none
  pub no_icmp : get_layer p "ICMP" ≡ none
  pub no_udp : get_layer p "UDP" ≡ none
  pub no_dns : get_layer p "DNS" ≡ none
  pub no_dhcp : get_layer p "DHCP" ≡ none

eq_bytes_iff : (a b : List ℕ) → eq_bytes a b ≡ true ↔ a ≡ b
unfolding eq_bytes
eq_bytes_iff [] [] = ground arith
eq_bytes_iff [] (b ∷ bs) = ground arith
eq_bytes_iff (a ∷ as_) [] = ground arith
eq_bytes_iff (a ∷ as_) (b ∷ bs) = ground (arith, eq_bytes_iff as_ bs)

tcp_matches_lem :
    (t t' : Layer) (p p' : Packet) (i i' : Layer) (s s' : Segment)
    → IsSegment p i t s
    → IsSegment p' i' t' s'
    → tcp_matches t t' ≡ (
        (s'.sport == s.dport && s'.dport == s.sport)
        && (not (has_syn s.flags)
            || (has_syn s'.flags && has_ack s'.flags) && s'.ack == (s.seq + 1) % 2 ^ 32))
unfolding tcp_matches ports_swapped typed_field lax_field
tcp_matches_lem t t' p p' i i' s s' h h' =
    rw
      (
        h.at_sport, h.at_dport, h.at_flags, h.at_seq, h'.at_sport, h'.at_dport, h'.at_flags,
        h'.at_ack,
      )
      refl

ip_equal_lem : (a b : List ℕ) → length a ≡ 4 → length b ≡ 4 → ip_equal a b ≡ eq_bytes a b
unfolding ip_equal
ip_equal_lem a b four four' = ground arith

source_of_lem :
    (d a : List ℕ) (i : Layer)
    → length d ≡ 4
    → length a ≡ 4
    → get i "src" ≡ ok (ip a)
    → source_of d (some i) ≡ eq_bytes a d
unfolding ip_matches
source_of_lem [] a i four four' e = ground (arith, four)
source_of_lem (b ∷ bs) a i four four' e = rw e (ip_equal_lem a (b ∷ bs) four' four)

network_matches_lem :
    (p p' : Packet) (i t i' t' : Layer) (s s' : Segment)
    → IsSegment p i t s
    → IsSegment p' i' t' s'
    → length s.dst ≡ 4
    → length s'.src ≡ 4
    → network_matches p p' ≡ eq_bytes s'.src s.dst
unfolding network_matches sent_ip
network_matches_lem p p' i t i' t' s s' h h' four four' =
    rw (h.found_ip, h'.found_ip, h.at_dst) (source_of_lem s.dst s'.src i' four four' h'.at_src)

-- A sent SYN with no layer that is matched but IP and TCP, and a received packet with IP and TCP; in
-- both the addresses are `net.IP` values (not texts), the SYN's destination and the received source
-- of four bytes, and the fields of TCP have values of their own types. The received packet answers
-- the SYN just when it comes from the address and the port that the SYN went to, goes to the port
-- that the SYN came from, has the flags SYN and ACK, and acknowledges the number after the SYN's,
-- modulo 2^32.
pub default_match-SynAck :
    (sent received : Packet) (i t i' t' : Layer) (s s' : Segment)
    → IsOnlyTcp sent
    → IsSegment sent i t s
    → IsSegment received i' t' s'
    → length s.dst ≡ 4
    → length s'.src ≡ 4
    → has_syn s.flags ≡ true
    → default_match sent received ≡ true
      ↔ (s'.src ≡ s.dst)
        × (s'.sport ≡ s.dport)
        × (s'.dport ≡ s.sport)
        × (has_syn s'.flags ≡ true)
        × (has_ack s'.flags ≡ true)
        × (s'.ack ≡ (s.seq + 1) % 2 ^ 32)
unfolding default_match layers_match
default_match-SynAck p p' i t i' t' s s' o h h' four four' syn =
    rw
      (
        o.no_arp,
        o.no_icmp,
        o.no_udp,
        o.no_dns,
        o.no_dhcp,
        h.found_tcp,
        h'.found_tcp,
        network_matches_lem p p' i t i' t' s s' h h' four four',
        tcp_matches_lem t t' p p' i i' s s' h h',
        syn,
      )
      (ground (arith, eq_bytes_iff s'.src s.dst))
