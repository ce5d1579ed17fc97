-- ===== src/Asn1/Integer/RoundTrip.antt =====
-- Integers of pkg/asn1/ber.go read back. A negative number is the complement of one that is not.
use goscapy.Base.{
  ltb, leb, ◌==◌, if◌then◌else◌, ltb→lt, lt→ltb, leb→le, ==_iff, Bool-cases, length, get_or, All,
  length-append, All-append, IsByte, get_be, ℤ, pos, negsuc, ok, ℕ, zero, suc, ◌+◌, ◌*◌, ◌/◌, ◌%◌,
  ◌^◌, ◌≤◌, ◌<◌, bit_and, ◌≡◌, refl, sym, ap, subst, ◌∙◌, inl, inr, Bool, true, false, not, ◌&&◌,
  List, [], ◌∷◌, ◌++◌, append-nil, append_assoc, arith,
}
use goscapy.Base.Bytes.{IsByte, get_be_from, get_be, get_be-append}
use goscapy.Base.Masks.{bit_and-high_bit}
use goscapy.Asn1.Tlv.{ber_decode_tlv, ber_decode_tlv-ber_tlv}
use goscapy.Asn1.Integer.{
  low_byte, shift_right, is_sign, int_loop, strip, fits_byte, ber_encode_int_bytes,
  ber_encode_integer, decode_loop, ber_decode_integer,
}
use goscapy.Asn1.Integer.Complement.{flip, int_loop-complement, strip-flip, decode-flip}

-- Bytes of a number that is not negative.
record Plain (n : ℕ) (bs : List ℕ) : Type 0 where
  value : get_be bs ≡ n
  bytes : All IsByte bs
  some_byte : 0 < length bs
  leading : get_or bs 0 0 < 128

get_or-append : (bs cs : List ℕ) → 0 < length bs → get_or (bs ++ cs) 0 0 ≡ get_or bs 0 0
get_or-append [] cs h = absurd (omega arith)
get_or-append (b ∷ bs) cs h = refl

int_loop-Plain :
    (i n : ℕ) (acc : List ℕ)
    → n < 128 * 256 ^ i
    → (bs : List ℕ) × (int_loop i (pos n) acc ≡ bs ++ acc) × Plain n bs
unfolding int_loop get_be
int_loop-Plain zero n acc h = (
  (n % 256) ∷ [],
  refl,
  record {
    value = omega arith;
    bytes = omega arith;
    some_byte = omega arith;
    leading = omega arith;
  },
)
int_loop-Plain (suc i) n acc h = elim (Bool-cases (n / 256 == 0)) [
  | inl done ↦
      let small : n / 256 ≡ 0 = (==_iff _ _).0 done in
      (
        (n / 256 % 256) ∷ (n % 256) ∷ [],
        rw done refl,
        record {
          value = omega arith;
          bytes = (omega arith, omega arith);
          some_byte = omega arith;
          leading = omega arith;
        },
      )
  | inr more ↦
      let (bs, shape, p) = int_loop-Plain i (n / 256) (n % 256 ∷ acc) (omega arith) in
      (
        bs ++ (n % 256 ∷ []),
        rw more (shape ∙ sym (append_assoc bs (n % 256 ∷ []) acc)),
        record {
          value = omega (arith, get_be-append bs (n % 256), p.value);
          bytes = All-append IsByte bs (n % 256 ∷ []) p.bytes (omega arith);
          some_byte = omega (arith, length-append bs (n % 256 ∷ []));
          leading = omega (arith, get_or-append bs (n % 256 ∷ []) p.some_byte, p.leading);
        },
      )
]

strip-Plain : (n : ℕ) (bs : List ℕ) → Plain n bs → Plain n (strip bs)
unfolding strip get_be
strip-Plain n [] p = p
strip-Plain n (first ∷ []) p = p
strip-Plain n (first ∷ second ∷ rest) p =
    let high = bit_and-high_bit second p.bytes.1.0 in
    let not_full : (first == 0xff) ≡ false = ground (arith, p.leading) in
    elim (Bool-cases (first == 0)) [
      | inr used ↦ rw (used, not_full) p
      | inl empty ↦ elim (Bool-cases (ltb second 128)) [
        | inr large ↦ rw (empty, high, large, not_full) p
        | inl small ↦
            rw (empty, high, small)
              (strip-Plain n (second ∷ rest) record {
                value = ap (λ b. get_be (b ∷ second ∷ rest)) (sym ((==_iff _ _).0 empty)) ∙ p.value;
                bytes = p.bytes.1;
                some_byte = omega arith;
                leading = ltb→lt _ _ small;
              })
      ]
    ]

-- Reading.

get_be_from-le : (acc : ℕ) (bs : List ℕ) → acc ≤ get_be_from acc bs
unfolding get_be_from
get_be_from-le acc [] = omega arith
get_be_from-le acc (b ∷ bs) = omega (arith, get_be_from-le (acc * 256 + b) bs)

decode_loop-pos :
    (acc : ℕ) (bs : List ℕ)
    → get_be_from acc bs < 2 ^ 63
    → decode_loop (pos acc) bs ≡ pos (get_be_from acc bs)
unfolding decode_loop get_be_from
decode_loop-pos acc [] h = refl
decode_loop-pos acc (b ∷ bs) h =
    let small : acc * 256 + b < 2 ^ 63 = omega (arith, get_be_from-le (acc * 256 + b) bs) in
    let kept : (acc * 256 + b) % 2 ^ 64 ≡ acc * 256 + b = omega arith in
    let positive : ltb (acc * 256 + b) (2 ^ 63) ≡ true = lt→ltb _ _ small in
    rw (kept, positive) (decode_loop-pos (acc * 256 + b) bs h)

decode-Plain : (n : ℕ) (bs : List ℕ) → n < 2 ^ 63 → Plain n bs → ber_decode_integer bs ≡ ok (pos n)
unfolding ber_decode_integer get_be
decode-Plain n [] h p = absurd (omega (arith, p.some_byte))
decode-Plain n (first ∷ rest) h p =
    let clear : (bit_and first 0x80 == 0) ≡ true =
      bit_and-high_bit first p.bytes.0 ∙ lt→ltb _ _ p.leading in
    let bare : first ≡ 0 + first = omega arith in
    let value : get_be_from first rest ≡ n = ap (λ a. get_be_from a rest) bare ∙ p.value in
    rw clear (ap ok (decode_loop-pos first rest (omega (arith, value)) ∙ ap pos value))

encode-Plain : (n : ℕ) → n < 2 ^ 63 → Plain n (ber_encode_int_bytes (pos n))
unfolding ber_encode_int_bytes get_be
encode-Plain n h = elim (Bool-cases (leb n 127)) [
  | inl small ↦
      let below = leb→le _ _ small in
      rw small record {
        value = omega arith;
        bytes = omega arith;
        some_byte = omega arith;
        leading = omega arith;
      }
  | inr large ↦
      let (bs, shape, p) = int_loop-Plain 7 n [] (omega arith) in
      rw (large, shape, append-nil) (strip-Plain n bs p)
]

encode-complement :
    (n : ℕ) → n < 2 ^ 63 → ber_encode_int_bytes (negsuc n) ≡ flip (ber_encode_int_bytes (pos n))
unfolding ber_encode_int_bytes
encode-complement n h = elim (Bool-cases (leb n 127)) [
  | inl small ↦ rw small refl
  | inr large ↦
      let (bs, shape, p) = int_loop-Plain 7 n [] (omega arith) in
      let good = subst (All IsByte) (sym (shape ∙ append-nil bs)) p.bytes in
      rw large (ap strip (int_loop-complement 7 n []) ∙ strip-flip (int_loop 7 (pos n) []) good)
]

-- What a Go `int` of 64 bits can hold.
abbrev pub IsInt64 : ℤ → Type 0
IsInt64 (pos n) = n < 2 ^ 63
IsInt64 (negsuc n) = n < 2 ^ 63

decode-encode : (val : ℤ) → IsInt64 val → ber_decode_integer (ber_encode_int_bytes val) ≡ ok val
decode-encode (pos n) h = decode-Plain n _ h (encode-Plain n h)
decode-encode (negsuc n) h =
    let p = encode-Plain n h in
    ap ber_decode_integer (encode-complement n h)
    ∙ decode-flip (ber_encode_int_bytes (pos n)) (pos n) p.bytes (decode-Plain n _ h p)

int_loop-length :
    (i : ℕ) (val : ℤ) (acc : List ℕ) → length (int_loop i val acc) ≤ suc i + length acc
unfolding int_loop
int_loop-length zero val acc = omega arith
int_loop-length (suc i) val acc =
    let more = int_loop-length i (shift_right val) (low_byte val ∷ acc) in
    elim (Bool-cases (is_sign (shift_right val))) [
      | inl done ↦ rw done (omega arith)
      | inr left ↦ rw left (omega (arith, more))
    ]

if-le :
    (b : Bool) (xs ys : List ℕ) (n : ℕ)
    → length xs ≤ n
    → length ys ≤ n
    → length (if b then xs else ys) ≤ n
if-le true xs ys n h k = h
if-le false xs ys n h k = k

strip-length : (bs : List ℕ) → length (strip bs) ≤ length bs
unfolding strip
strip-length [] = omega arith
strip-length (first ∷ []) = omega arith
strip-length (first ∷ second ∷ rest) =
    let ih = strip-length (second ∷ rest) in
    if-le (first == 0 && bit_and second 0x80 == 0) _ _ _ (omega (arith, ih)) (
      if-le (first == 0xff && not (bit_and second 0x80 == 0)) _ _ _ (omega (arith, ih))
        (omega arith))

ber_encode_int_bytes-length : (val : ℤ) → length (ber_encode_int_bytes val) ≤ 8
unfolding ber_encode_int_bytes
ber_encode_int_bytes-length val =
    if-le (fits_byte val) _ _ 8 (omega arith)
      (omega (arith, strip-length (int_loop 7 val []), int_loop-length 7 val []))

-- Every 64-bit integer, encoded with its tag and its length, is read back: first its tag and its
-- content, whatever follows, then the integer itself from the content.
pub ber_decode_integer-ber_encode_integer :
    (val : ℤ) (rest : List ℕ)
    → IsInt64 val
    → (ber_decode_tlv (ber_encode_integer val ++ rest)
        ≡ ok (0x02, ber_encode_int_bytes val, length (ber_encode_integer val)))
      × (ber_decode_integer (ber_encode_int_bytes val) ≡ ok val)
unfolding ber_encode_integer
ber_decode_integer-ber_encode_integer val rest h = (
  ber_decode_tlv-ber_tlv 0x02 (ber_encode_int_bytes val) rest
      (omega (arith, ber_encode_int_bytes-length val)),
  decode-encode val h,
)
