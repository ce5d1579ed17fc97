-- ===== src/Protocols/Hooks/UdpVerified.antt =====
-- udpBuildHook of pkg/layers/udp.go, from the packet to the datagram.
use goscapy.Base.{
  ◌==◌, if◌then◌else◌, length, get_elem?, take, All, IsByte, put_be, ok, ◌>>=◌, ℕ, ◌+◌, ◌%◌, ◌^◌,
  ◌<◌, String, ◌≡◌, refl, ap, ◌∙◌, false, some, List, [], ◌∷◌, arith,
}
use goscapy.Values.{u16, lookup, insert, lookup-insert}
use goscapy.Fields.Addresses.{Net}
use goscapy.Fields.Ints.{short_field}
use goscapy.Layer.{Layer, is_some, find_field, serialize_into}
use goscapy.Packet.{Packet}
use goscapy.Checksum.{checksum_ipv4_pseudo}
use goscapy.Protocols.Tables.{udp_fields}
use goscapy.Protocols.Hooks.{
  set_field, or_panic, with_layer, put_checksum, find_ip_addresses_any, transport_checksum, udp_put,
  udp_sum, udp_on, udp_build_hook,
}
use goscapy.Protocols.Hooks.Udp.{set_field_known, udp_header, serialize_udp}
use goscapy.Protocols.Hooks.UdpChecksum.{find_below, Sent, sent}

-- The layer with its length and a checksum of 0, as the hook serializes it.
abbrev zeroed_udp : (len : ℕ) → Layer → Layer
zeroed_udp len l = set_field "chksum" (u16 0) (set_field "len" (u16 len) l)

zeroed_values :
    (len : ℕ) (l : Layer)
    → l.fields ≡ udp_fields
    → zeroed_udp len l
      ≡ record l { values = insert "chksum" (u16 0) (insert "len" (u16 len) l.values) }
unfolding find_field short_field
zeroed_values len l table =
    let has_len = ap (λ fs. is_some (find_field fs "len")) table in
    let has_chksum = ap (λ fs. is_some (find_field fs "chksum")) table in
    ap (set_field "chksum" (u16 0)) (set_field_known "len" (u16 len) l has_len)
    ∙ set_field_known "chksum" (u16 0) (record l { values = insert "len" (u16 len) l.values })
        has_chksum

serialize_zeroed :
    (l : Layer) (sport dport len : ℕ) (window : List ℕ)
    → l.fields ≡ udp_fields
    → lookup "sport" l.values ≡ some (u16 sport)
    → lookup "dport" l.values ≡ some (u16 dport)
    → length window ≡ 8
    → serialize_into (zeroed_udp len l) window ≡ ok (udp_header sport dport len 0, 8)
serialize_zeroed l sport dport len window table at_sport at_dport size =
    let vals = insert "len" (u16 len) l.values in
    let found = λ (name : String). lookup-insert "chksum" name (u16 0) vals in
    let found_len = λ (name : String). lookup-insert "len" name (u16 len) l.values in
    ap (λ z. serialize_into z window) (zeroed_values len l table)
    ∙ serialize_udp (record l { values = insert "chksum" (u16 0) vals }) sport dport len window
        table (found "sport" ∙ found_len "sport" ∙ at_sport)
        (found "dport" ∙ found_len "dport" ∙ at_dport) (found "len" ∙ found_len "len")
        (found "chksum") size

put_udp_checksum :
    (sport dport len csum : ℕ)
    → put_checksum 6 csum (udp_header sport dport len 0) ≡ ok (udp_header sport dport len csum)
unfolding put_checksum put_be
put_udp_checksum sport dport len csum = refl

take_header :
    (sport dport len : ℕ) → take 8 (udp_header sport dport len 0) ≡ udp_header sport dport len 0
unfolding put_be
take_header sport dport len = refl

-- A UDP layer of the table with 16-bit ports, over a layer with IPv4 addresses: for any payload of
-- bytes that a datagram can hold, the hook fills its eight bytes with the ports, the datagram's
-- length and a checksum that is not 0, and the checksum that the receiver computes over the
-- pseudo-header and the whole datagram is 0.
pub udp_build_hook-verified :
    (net : Net) (p : Packet) (i : ℕ) (l : Layer) (sport dport : ℕ) (src dst upper window : List ℕ)
    → get_elem? p.layers i ≡ some l
    → l.fields ≡ udp_fields
    → lookup "sport" l.values ≡ some (u16 sport)
    → lookup "dport" l.values ≡ some (u16 dport)
    → find_ip_addresses_any net p i ≡ ok (record { src = src; dst = dst; is_v6 = false })
    → length src ≡ 4
    → length dst ≡ 4
    → All IsByte src
    → All IsByte dst
    → All IsByte upper
    → 8 + length upper < 2 ^ 16
    → length window ≡ 8
    → (p' : Packet) × (csum : ℕ) × (udp_build_hook net p i upper window
        ≡ ok (p', udp_header sport dport (8 + length upper) csum, 8))
      × (0 < csum)
      × (checksum_ipv4_pseudo src dst 17
            (udp_header sport dport (8 + length upper) csum ∷ upper ∷ [])
          ≡ ok 0)
unfolding udp_build_hook udp_on udp_sum udp_put Sent
udp_build_hook-verified net p i l sport dport src dst upper window at_i table at_sport at_dport addr
      hs hd bytes_src bytes_dst bytes_upper short size =
    let len = 8 + length upper in
    let z = zeroed_udp len l in
    let kept : len % 2 ^ 16 ≡ len = omega arith in
    let (sum, computed, small, positive, checked) =
      sent src dst upper sport dport hs hd bytes_src bytes_dst bytes_upper short in
    let csum = if sum == 0 then 0xffff else sum in
    let filled = serialize_zeroed l sport dport len window table at_sport at_dport size in
    let below = find_below net p i i z (omega arith) ∙ addr in
    (
      with_layer p i (set_field "chksum" (u16 csum) z),
      csum,
      ap (λ o. or_panic o >>= udp_on net p i upper window) at_i
          ∙ ap
              (λ n.
                serialize_into (zeroed_udp n l) window >>= udp_sum net p i upper (zeroed_udp n l))
              kept
          ∙ ap (λ o. o >>= udp_sum net p i upper z) filled
          ∙ ap
              (λ o. o >>= λ a.
                transport_checksum net a 17 (take 8 (udp_header sport dport len 0)) upper
                >>= udp_put net p i z (udp_header sport dport len 0) 8)
              below
          ∙ ap
              (λ h.
                checksum_ipv4_pseudo src dst 17 (h ∷ upper ∷ [])
                >>= udp_put net p i z (udp_header sport dport len 0) 8)
              (take_header sport dport len)
          ∙ ap (λ o. o >>= udp_put net p i z (udp_header sport dport len 0) 8) computed
          ∙ ap (λ o. o >>= λ done. ok (with_layer p i (set_field "chksum" (u16 csum) z), done, 8))
              (put_udp_checksum sport dport len csum),
      positive,
      checked,
    )
