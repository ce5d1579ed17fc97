-- ===== src/Asn1/Tests.antt =====
-- Encodings of concrete values, and the theorems on these.
use goscapy.Base.{length, negsuc, ok, ℕ, ◌^◌, ◌≡◌, refl, true, List, [], ◌∷◌, ◌++◌, arith}
use goscapy.Asn1.Length.{ber_length, encode_uint32}
use goscapy.Asn1.Tlv.{ber_tlv, ber_decode_tlv, ber_decode_tlv-ber_tlv}
use goscapy.Asn1.Integer.{ber_encode_int_bytes, ber_encode_integer, ber_decode_integer}
use goscapy.Asn1.Oid.{encode_oid_sub_id, ber_encode_oid, decode_sub_ids, ber_decode_oid}
use goscapy.Asn1.Types.{ber_decode_boolean, ber_encode_octet_string, ber_encode_counter32}
use goscapy.Asn1.Integer.RoundTrip.{ber_decode_integer-ber_encode_integer}
use goscapy.Asn1.Oid.RoundTrip.{ber_decode_oid-ber_encode_oid}

long_length : ber_length 300 ≡ 0x82 ∷ 1 ∷ 44 ∷ []
unfolding ber_length
long_length = refl

minus_129 : ber_encode_integer (negsuc 128) ≡ 2 ∷ 2 ∷ 0xff ∷ 0x7f ∷ []
unfolding ber_encode_integer ber_length
minus_129 = refl

-- The sign bit of a counter is set, and no zero byte stands in front of it.
counter_without_zero : ber_encode_counter32 (2 ^ 31) ≡ 0x41 ∷ 4 ∷ 0x80 ∷ 0 ∷ 0 ∷ 0 ∷ []
unfolding ber_tlv encode_uint32 ber_length
counter_without_zero = refl

-- 2.100.3 is read back as 4.20.3.
second_arc :
    (ber_encode_oid (2 ∷ 100 ∷ 3 ∷ []) ≡ 6 ∷ 2 ∷ 180 ∷ 3 ∷ [])
    × (ber_decode_oid (180 ∷ 3 ∷ []) ≡ ok (4 ∷ 20 ∷ 3 ∷ []))
unfolding ber_encode_oid ber_decode_oid ber_length encode_oid_sub_id decode_sub_ids
second_arc = (refl, refl)

boolean_back : ber_decode_boolean (0xff ∷ []) ≡ ok true
boolean_back = refl

octets : ber_encode_octet_string (7 ∷ []) ≡ 4 ∷ 1 ∷ 7 ∷ []
unfolding ber_tlv ber_length
octets = refl

ber_decode_tlv-ber_tlv_example :
    ber_decode_tlv (ber_tlv 0x04 (1 ∷ 2 ∷ 3 ∷ []) ++ (9 ∷ []))
    ≡ ok (0x04, 1 ∷ 2 ∷ 3 ∷ [], length (ber_tlv 0x04 (1 ∷ 2 ∷ 3 ∷ [])))
ber_decode_tlv-ber_tlv_example = ber_decode_tlv-ber_tlv 0x04 (1 ∷ 2 ∷ 3 ∷ []) (9 ∷ []) (omega arith)

ber_decode_integer-ber_encode_integer_example :
    (ber_decode_tlv (ber_encode_integer (negsuc 128) ++ (9 ∷ []))
      ≡ ok (0x02, ber_encode_int_bytes (negsuc 128), length (ber_encode_integer (negsuc 128))))
    × (ber_decode_integer (ber_encode_int_bytes (negsuc 128)) ≡ ok (negsuc 128))
ber_decode_integer-ber_encode_integer_example =
    ber_decode_integer-ber_encode_integer (negsuc 128) (9 ∷ []) (omega arith)

ber_decode_oid-ber_encode_oid_example :
    (content : List ℕ) × (ber_encode_oid (1 ∷ 3 ∷ 6 ∷ 311 ∷ []) ≡ ber_tlv 0x06 content)
    × (ber_decode_oid content ≡ ok (1 ∷ 3 ∷ 6 ∷ 311 ∷ []))
ber_decode_oid-ber_encode_oid_example =
    ber_decode_oid-ber_encode_oid 1 3 (6 ∷ 311 ∷ []) (omega arith) (omega arith)
      (omega arith, omega arith)
