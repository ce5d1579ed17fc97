-- ===== src/Asn1/Integer.antt =====
-- pkg/asn1/ber.go: integers in two's complement, in as few bytes as they need. A Go `int` is ℤ.
pub mod Complement
pub mod RoundTrip
use goscapy.Base.{
  ltb, leb, ◌==◌, if◌then◌else◌, set, byte, ℤ, pos, negsuc, empty_input, Outcome, ok, err, ◌>>=◌, ℕ,
  zero, suc, ◌+◌, ◌-◌, ◌*◌, ◌/◌, ◌%◌, ◌^◌, ◌<◌, bit_and, Bool, not, ◌&&◌, ◌||◌, List, [], ◌∷◌,
}
use goscapy.Asn1.Tlv.{ber_tlv}

-- `byte(val & 0xff)`
abbrev pub low_byte : ℤ → ℕ
low_byte (pos n) = n % 256
low_byte (negsuc n) = 255 - n % 256

-- `val >> 8`, an arithmetic shift.
abbrev pub shift_right : ℤ → ℤ
shift_right (pos n) = pos (n / 256)
shift_right (negsuc n) = negsuc (n / 256)

-- `val == 0 || val == -1`
abbrev pub is_sign : ℤ → Bool
is_sign (pos n) = n == 0
is_sign (negsuc n) = n == 0

-- The loop of `berEncodeIntBytes` from `i` down, with the bytes behind `i` in `acc`.
unfoldable pub int_loop : (i : ℕ) (val : ℤ) (acc : List ℕ) → List ℕ
int_loop zero val acc = low_byte val ∷ acc
int_loop (suc i) val acc =
    let now = low_byte val ∷ acc in
    let more = int_loop i (shift_right val) now in
    if is_sign (shift_right val) then low_byte (shift_right val) ∷ now else more

-- The loop that strips redundant leading bytes.
unfoldable pub strip : List ℕ → List ℕ
strip [] = []
strip (first ∷ []) = first ∷ []
strip (first ∷ second ∷ rest) =
    let stripped = strip (second ∷ rest) in
    if first == 0 && bit_and second 0x80 == 0
    then stripped
    else if first == 0xff && not (bit_and second 0x80 == 0)
    then stripped
    else first ∷ second ∷ rest

abbrev pub fits_byte : ℤ → Bool
fits_byte (pos n) = leb n 127
fits_byte (negsuc n) = leb n 127

unfoldable pub ber_encode_int_bytes : ℤ → List ℕ
unfolding int_loop strip
ber_encode_int_bytes val = if fits_byte val then low_byte val ∷ [] else strip (int_loop 7 val [])

unfoldable pub ber_encode_integer : ℤ → List ℕ
unfolding ber_encode_int_bytes ber_tlv
ber_encode_integer val = ber_tlv 0x02 (ber_encode_int_bytes val)

unfoldable pub ber_encode_enumerated : ℤ → List ℕ
unfolding ber_encode_int_bytes ber_tlv
ber_encode_enumerated val = ber_tlv 0x0a (ber_encode_int_bytes val)

-- An `int` keeps 64 bits.
abbrev pub wrap64 : ℤ → ℤ
wrap64 (pos n) =
    let low = n % 2 ^ 64 in if ltb low (2 ^ 63) then pos low else negsuc (2 ^ 64 - 1 - low)
wrap64 (negsuc n) =
    let low = n % 2 ^ 64 in if ltb low (2 ^ 63) then negsuc low else pos (2 ^ 64 - 1 - low)

-- `(result << 8) | b`: the lowest byte of a shifted number is 0.
abbrev pub shift_in : ℤ → ℕ → ℤ
shift_in (pos n) b = wrap64 (pos (n * 256 + b))
shift_in (negsuc n) b = wrap64 (negsuc (n * 256 + (255 - b)))

unfoldable pub decode_loop : ℤ → List ℕ → ℤ
decode_loop result [] = result
decode_loop result (b ∷ rest) = decode_loop (shift_in result b) rest

-- `int(int8(b))` where the sign bit is set.
abbrev pub first_byte : ℕ → ℤ
first_byte b = if bit_and b 0x80 == 0 then pos b else negsuc (255 - b)

unfoldable pub ber_decode_integer : List ℕ → Outcome ℤ
unfolding decode_loop
ber_decode_integer [] = err empty_input
ber_decode_integer (first ∷ rest) = ok (decode_loop (first_byte first) rest)

unfoldable pub ber_decode_enumerated : List ℕ → Outcome ℤ
unfolding ber_decode_integer
ber_decode_enumerated bytes = ber_decode_integer bytes
