-- ===== src/Asn1/Types.antt =====
-- pkg/asn1/ber.go: booleans, strings, null, addresses and the SNMP types.
use goscapy.Base.{
  ltb, ◌==◌, if◌then◌else◌, length, take, replicate, too_large, empty_input, Outcome, ok, err, ℕ,
  Bool, not, Option, none, some, List, [], ◌∷◌,
}
use goscapy.Fields.Addresses.{to4}
use goscapy.Asn1.Length.{encode_uint32}
use goscapy.Asn1.Tlv.{ber_tlv}

abbrev pub ber_encode_boolean : Bool → List ℕ
ber_encode_boolean val = ber_tlv 0x01 ((if val then 0xff else 0x00) ∷ [])

abbrev pub ber_decode_boolean : List ℕ → Outcome Bool
ber_decode_boolean [] = err empty_input
ber_decode_boolean (first ∷ rest) = ok (not (first == 0))

abbrev pub ber_encode_octet_string : List ℕ → List ℕ
ber_encode_octet_string val = ber_tlv 0x04 val

abbrev pub ber_encode_null : List ℕ
ber_encode_null = 0x05 ∷ 0x00 ∷ []

abbrev pub ber_encode_bit_string : (bits : List ℕ) (unused_bits : ℕ) → List ℕ
ber_encode_bit_string bits unused_bits = ber_tlv 0x03 (unused_bits ∷ bits)

abbrev pub ber_decode_bit_string : List ℕ → Outcome (List ℕ × ℕ)
ber_decode_bit_string [] = err empty_input
ber_decode_bit_string (unused_bits ∷ bits) =
    if ltb 7 unused_bits then err too_large else ok (bits, unused_bits)

abbrev pub ber_encode_generalized_time : List ℕ → List ℕ
ber_encode_generalized_time text = ber_tlv 0x18 text

abbrev pub ber_decode_generalized_time : List ℕ → List ℕ
ber_decode_generalized_time text = text

-- An address that is no IPv4 address is written as zeros.
unfoldable pub ber_encode_ip : List ℕ → List ℕ
unfolding to4
ber_encode_ip ip = elim (to4 ip) [
  | none ↦ ber_tlv 0x40 (replicate 4 0)
  | some ip4 ↦ ber_tlv 0x40 ip4
]

-- `none` is the nil address.
abbrev pub ber_decode_ip : List ℕ → Option (List ℕ)
ber_decode_ip content = if ltb (length content) 4 then none else some (take 4 content)

abbrev pub ber_encode_counter32 : ℕ → List ℕ
ber_encode_counter32 val = ber_tlv 0x41 (encode_uint32 val)

abbrev pub ber_encode_gauge32 : ℕ → List ℕ
ber_encode_gauge32 val = ber_tlv 0x42 (encode_uint32 val)

abbrev pub ber_encode_time_ticks : ℕ → List ℕ
ber_encode_time_ticks val = ber_tlv 0x43 (encode_uint32 val)
