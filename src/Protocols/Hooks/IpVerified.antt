-- ===== src/Protocols/Hooks/IpVerified.antt =====
-- ipBuildHook of pkg/layers/ip.go, from the packet to the header.
use goscapy.Base.{
  ltb, if◌then◌else◌, length, get_elem?, drop, bad_name, ok, ◌>>=◌, ℕ, ◌+◌, ◌*◌, ◌%◌, ◌^◌, ◌≤◌, ◌<◌,
  String, ◌≡◌, refl, ap, ◌∙◌, some, List, ◌++◌, arith,
}
use goscapy.Values.{Value, u8, str, lookup}
use goscapy.Fields.Addresses.{Net}
use goscapy.Layer.{Layer, get, serialize_into, or_error}
use goscapy.Packet.{Packet}
use goscapy.Checksum.{checksum}
use goscapy.Protocols.Tables.{ip_fields}
use goscapy.Protocols.Hooks.{
  or_nil_value, value_of, set_field, assert_u8, or_panic, is_unset, any_v4, ip_put, ip_sized, ip_on,
  ip_build_hook,
}
use goscapy.Protocols.Hooks.IpHeader.{
  IpValues, ip_header, zeroed_ip, serialize_zeroed_ip, ip_put-verified,
}

value_of_known :
    (l : Layer) (name : String) (val : Value)
    → lookup name l.values ≡ some val
    → value_of l name ≡ val
unfolding get
value_of_known l name val h = ap (λ o. or_nil_value (or_error bad_name o)) h

-- The header's size that the first byte gives, 20 at least.
abbrev pub header_size_of : (verihl : ℕ) → ℕ
header_size_of verihl = if ltb (verihl % 16 * 4) 20 then 20 else verihl % 16 * 4

-- An IP layer of the table whose addresses are set, in a window of 20 bytes or more, with a length
-- that fits 16 bits: the hook writes a header of 20 bytes with the layer's values, the length of
-- the header and what is above it, and a checksum with which the header's checksum is 0. The rest
-- of the window stays.
pub ip_build_hook-verified :
    (net : Net) (p : Packet) (i : ℕ) (l : Layer) (upper window : List ℕ) (v : IpValues net l.values)
    → get_elem? p.layers i ≡ some l
    → l.fields ≡ ip_fields net
    → 20 ≤ length window
    → header_size_of v.verihl + length upper < 2 ^ 16
    → (p' : Packet) × (csum : ℕ) × (ip_build_hook p i upper window
        ≡ ok (
          p',
          ip_header net l.values v (header_size_of v.verihl + length upper) csum ++ drop 20 window,
          20,
        ))
      × (checksum (ip_header net l.values v (header_size_of v.verihl + length upper) csum) ≡ ok 0)
unfolding ip_build_hook ip_on ip_sized zeroed_ip
ip_build_hook-verified net p i l upper window v at_i table room short =
    let len = header_size_of v.verihl + length upper in
    let z = zeroed_ip net l.values v l table refl in
    let kept : len % 2 ^ 16 ≡ len = omega arith in
    let (p', csum, put, checked) = ip_put-verified net l.values v l table refl p i len window in
    let sourced =
      ap (λ val. if is_unset val then set_field "src" (str any_v4) l else l)
        (value_of_known l "src" v.src_val v.has_src)
      ∙ ap (λ b. if b then set_field "src" (str any_v4) l else l) v.src_set in
    (
      p',
      csum,
      ap (λ o. or_panic o >>= ip_on p i upper window) at_i
          ∙ ap (λ s. assert_u8 (value_of s "verihl") >>= ip_sized p i upper window s) sourced
          ∙ ap (λ val. assert_u8 val >>= ip_sized p i upper window l)
              (value_of_known l "verihl" (u8 v.verihl) v.has_verihl)
          ∙ ap (λ n. serialize_into (z n) window >>= ip_put p i (z n)) kept
          ∙ ap (λ o. o >>= ip_put p i (z len))
              (serialize_zeroed_ip net l.values v l table refl len window room)
          ∙ put,
      checked,
    )
