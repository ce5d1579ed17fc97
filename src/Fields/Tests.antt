-- ===== src/Fields/Tests.antt =====
-- Runs of the field types, and their theorems at concrete inputs.
use goscapy.Base.{◌≡◌, refl, [], ◌∷◌, ok, err, too_large, arith, put_be, get_le, some, none}
use goscapy.Values.{u16, u32, bytes, str}
use goscapy.Fields.Addresses.{Net, mac_field, mac_bytes}
use goscapy.Fields.Ints.{short_field, three_bytes_field, le_int_field}
use goscapy.Fields.Texts.{str_fixed_field}
use goscapy.Fields.RoundTrip.{IsCodecAt, in_short, Canonical-IsCodecAt}
use goscapy.Fields.Laws.{IsLawfulAt}
use goscapy.Fields.Laws.Standard.{is_str_fixed, Standard-IsLawfulAt}

short_packs : (short_field "id" 0).pack (u16 258) ≡ ok (1 ∷ 2 ∷ [])
unfolding short_field put_be
short_packs = refl

three_bytes_refuse : (three_bytes_field "vni" 0).pack (u32 0x1000000) ≡ err too_large
unfolding three_bytes_field
three_bytes_refuse = refl

le_int_reads : (le_int_field "ts" 0).unpack (4 ∷ 3 ∷ 2 ∷ 1 ∷ 9 ∷ []) ≡ ok (u32 0x01020304, 4)
unfolding le_int_field get_le
le_int_reads = refl

-- A parser that reads every text as eight bytes, as `net.ParseMAC` does for an EUI-64.
abbrev eui64 : Net
eui64 = record {
  parse_mac = λ s. some (2 ∷ 0 ∷ 94 ∷ 16 ∷ 0 ∷ 0 ∷ 0 ∷ 1 ∷ []);
  parse_ip = λ s. none;
}

-- `Pack` then returns eight bytes for a field of six.
mac_too_long : (mac_field eui64 "dst" []).pack (str []) ≡ ok (2 ∷ 0 ∷ 94 ∷ 16 ∷ 0 ∷ 0 ∷ 0 ∷ 1 ∷ [])
unfolding mac_field mac_bytes
mac_too_long = refl

Standard-IsLawfulAt_example : IsLawfulAt (str_fixed_field "name" 4 []) (bytes (65 ∷ 66 ∷ []))
Standard-IsLawfulAt_example = Standard-IsLawfulAt (is_str_fixed "name" 4 [])

Canonical-IsCodecAt_example : IsCodecAt (short_field "id" 0) (u16 258) (7 ∷ [])
Canonical-IsCodecAt_example = Canonical-IsCodecAt (in_short "id" 0 258 (7 ∷ []) (omega arith))
