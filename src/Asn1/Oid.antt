-- ===== src/Asn1/Oid.antt =====
-- pkg/asn1/ber.go: object identifiers, as their list of numbers. `parseOID` and `formatOID` turn
-- these from and into text; the numbers are taken not to be negative.
pub mod RoundTrip
use goscapy.Base.{
  ◌>>=◌, ltb, ◌==◌, if◌then◌else◌, length, drop, byte, Outcome, ok, stuck, ◌>>=◌, ℕ, zero, suc, ◌+◌,
  ◌-◌, ◌*◌, ◌/◌, ◌%◌, ◌^◌, ◌<◌, bit_and, bit_or, not, List, [], ◌∷◌, ◌++◌,
}
use goscapy.Asn1.Tlv.{ber_tlv}

-- The loop of `encodeOIDSubID`; `v & 0x7f` is `v % 128` and `v >>= 7` is `v / 128`. A uint32 has
-- five groups of 7 bits.
unfoldable pub sub_id_loop : (fuel v : ℕ) (buf : List ℕ) → List ℕ
sub_id_loop zero v buf = buf
sub_id_loop (suc fuel) v buf =
    if ltb 0 v then sub_id_loop fuel (v / 128) (bit_or 0x80 (byte (v % 128)) ∷ buf) else buf

unfoldable pub encode_oid_sub_id : ℕ → List ℕ
unfolding sub_id_loop
encode_oid_sub_id v =
    if ltb v 0x80 then byte v ∷ [] else sub_id_loop 5 (v / 128) (byte (v % 128) ∷ [])

-- `(val << 7) | (b & 0x7f)` in 32 bits; the lowest 7 bits of a shifted number are 0.
abbrev pub add_group : (val b : ℕ) → ℕ
add_group val b = (val * 128 + bit_and b 0x7f) % 2 ^ 32

-- The loop of `decodeOIDSubID` with `iterations` left and `i` bytes read.
unfoldable pub decode_sub_loop : (iterations val : ℕ) (bytes : List ℕ) (i : ℕ) → ℕ × ℕ
decode_sub_loop zero val bytes i = (val, i)
decode_sub_loop (suc n) val [] i = (val, i)
decode_sub_loop (suc n) val (b ∷ bytes) i =
    let more = decode_sub_loop n (add_group val b) bytes (i + 1) in
    if bit_and b 0x80 == 0 then (add_group val b, i + 1) else more

unfoldable pub decode_oid_sub_id : List ℕ → ℕ × ℕ
unfolding decode_sub_loop
decode_oid_sub_id bytes = decode_sub_loop 5 0 bytes 0

unfoldable pub encode_sub_ids : List ℕ → List ℕ
unfolding encode_oid_sub_id
encode_sub_ids [] = []
encode_sub_ids (v ∷ parts) = encode_oid_sub_id (v % 2 ^ 32) ++ encode_sub_ids parts

-- `BEREncodeOID` behind `parseOID`.
unfoldable pub ber_encode_oid : List ℕ → List ℕ
unfolding encode_sub_ids ber_tlv
ber_encode_oid [] = ber_tlv 0x06 []
ber_encode_oid (x ∷ []) = ber_tlv 0x06 []
ber_encode_oid (x ∷ y ∷ parts) = ber_tlv 0x06 (byte (x * 40 + y) ∷ encode_sub_ids parts)

-- The loop of `BERDecodeOID`. A round takes a byte at least, so as many rounds as bytes suffice.
unfoldable pub decode_sub_ids : (fuel : ℕ) → List ℕ → Outcome (List ℕ)
unfolding decode_oid_sub_id
decode_sub_ids fuel [] = ok []
decode_sub_ids zero (b ∷ bytes) = stuck
decode_sub_ids (suc fuel) (b ∷ bytes) =
    let (val, consumed) = decode_oid_sub_id (b ∷ bytes) in
    decode_sub_ids fuel (drop consumed (b ∷ bytes)) >>= λ parts. ok (val ∷ parts)

-- `BERDecodeOID` before `formatOID`; no content gives no parts.
unfoldable pub ber_decode_oid : List ℕ → Outcome (List ℕ)
unfolding decode_sub_ids
ber_decode_oid [] = ok []
ber_decode_oid (first ∷ rest) =
    decode_sub_ids (length rest) rest >>= λ parts. ok (first / 40 ∷ first % 40 ∷ parts)
