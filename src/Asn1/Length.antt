-- ===== src/Asn1/Length.antt =====
-- pkg/asn1/ber.go: lengths, and the unsigned numbers of the SNMP counters, in as many bytes as
-- they need.
use goscapy.Base.{
  ltb, ◌==◌, if◌then◌else◌, ltb→lt, ltb→le, Bool-cases, length, take, All, length-append,
  take-append_length, All-append, IsByte, byte, get_be, bad_length, empty_input, Outcome, ok, err,
  ℕ, zero, suc, ◌+◌, ◌/◌, ◌%◌, ◌^◌, ◌≤◌, ◌<◌, bit_and, bit_or, ◌≡◌, refl, sym, ap, ◌∙◌, inl, inr,
  false, ◌||◌, List, [], ◌∷◌, ◌++◌, append-nil, append_assoc, arith,
}
use goscapy.Base.Bytes.{get_be-append}
use goscapy.Base.Masks.{bit_or-tag, bit_and-low_bits}

-- `for v := …; v > 0; v >>= 8`, which puts bytes in front of `buf`. A Go int has 8 bytes, so 8
-- rounds reach 0.
unfoldable pub prepend_bytes : (fuel v : ℕ) (buf : List ℕ) → List ℕ
prepend_bytes zero v buf = buf
prepend_bytes (suc fuel) v buf =
    if ltb 0 v then prepend_bytes fuel (v / 256) (byte v ∷ buf) else buf

unfoldable pub ber_length : ℕ → List ℕ
unfolding prepend_bytes
ber_length len =
    if ltb len 0x80
    then byte len ∷ []
    else let buf = prepend_bytes 8 len [] in bit_or 0x80 (byte (length buf)) ∷ buf

-- The length and the bytes it takes. The loop's `(length << 8) | b` is `length * 256 + b`, as the
-- lowest byte of a shifted number is 0; four bytes cannot overflow.
unfoldable pub ber_decode_length : List ℕ → Outcome (ℕ × ℕ)
unfolding get_be
ber_decode_length [] = err empty_input
ber_decode_length (first ∷ rest) =
    if ltb first 0x80
    then ok (first, 1)
    else let num_bytes = bit_and first 0x7f in
      if num_bytes == 0 || ltb 4 num_bytes || ltb (length (first ∷ rest)) (1 + num_bytes)
      then err bad_length
      else ok (get_be (take num_bytes rest), 1 + num_bytes)

-- `encodeUint32`
unfoldable pub encode_uint32 : ℕ → List ℕ
unfolding prepend_bytes
encode_uint32 val = if val == 0 then 0 ∷ [] else prepend_bytes 8 val []

-- The bytes that the loop puts in front.
pub record Prepended (fuel v : ℕ) (buf : List ℕ) : Type 0 where
  pub digits : List ℕ
  pub shape : prepend_bytes fuel v buf ≡ digits ++ buf
  pub value : get_be digits ≡ v
  pub bytes : All IsByte digits
  pub short : length digits ≤ fuel
  pub tight : (k : ℕ) → v < 256 ^ k → length digits ≤ k

tight_step :
    (k v : ℕ) (digits : List ℕ)
    → 0 < v
    → v < 256 ^ k
    → ((j : ℕ) → v / 256 < 256 ^ j → length digits ≤ j)
    → length (digits ++ (byte v ∷ [])) ≤ k
tight_step zero v digits more below h = absurd (omega arith)
tight_step (suc k) v digits more below h =
    omega (arith, length-append digits (byte v ∷ []), h k (omega arith))

pub prepend_bytes-Prepended : (fuel v : ℕ) (buf : List ℕ) → v < 256 ^ fuel → Prepended fuel v buf
unfolding prepend_bytes get_be
prepend_bytes-Prepended zero v buf h = record {
  digits = [];
  shape = refl;
  value = omega arith;
  bytes = tt;
  short = omega arith;
  tight = λ k below. omega arith;
}
prepend_bytes-Prepended (suc fuel) v buf h = elim (Bool-cases (ltb 0 v)) [
  | inr none_left ↦ record {
    digits = [];
    shape = rw none_left refl;
    value = ground arith;
    bytes = tt;
    short = omega arith;
    tight = λ k below. omega arith;
  }
  | inl more ↦
      let ih = prepend_bytes-Prepended fuel (v / 256) (byte v ∷ buf) (omega arith) in
      record {
        digits = ih.digits ++ (byte v ∷ []);
        shape = rw more (ih.shape ∙ sym (append_assoc ih.digits (byte v ∷ []) buf));
        value = omega (arith, get_be-append ih.digits (byte v), ih.value);
        bytes = All-append IsByte ih.digits (byte v ∷ []) ih.bytes (omega arith);
        short = omega (arith, length-append ih.digits (byte v ∷ []), ih.short);
        tight = λ k below. tight_step k v ih.digits (ltb→lt _ _ more) below ih.tight;
      }
]

some_digits : (digits : List ℕ) (v : ℕ) → get_be digits ≡ v → 0 < v → 0 < length digits
unfolding get_be
some_digits [] v value more = absurd (omega arith)
some_digits (d ∷ digits) v value more = omega arith

-- The long form, with its digits known.
decode_long :
    (digits rest : List ℕ)
    → 0 < length digits
    → length digits ≤ 4
    → ber_decode_length ((bit_or 0x80 (byte (length digits)) ∷ digits) ++ rest)
      ≡ ok (get_be digits, suc (length digits))
unfolding ber_decode_length
decode_long digits rest nonempty few =
    let k = length digits in
    let tag : bit_or 0x80 (byte k) ≡ 128 + k =
      ap (bit_or 0x80) (omega arith) ∙ bit_or-tag k (omega arith) in
    let low : bit_and (128 + k) 0x7f ≡ k = bit_and-low_bits (128 + k) (omega arith) ∙ omega arith in
    let long : ltb (128 + k) 0x80 ≡ false = ground arith in
    let total : length digits + length rest ≡ length (digits ++ rest) =
      sym (length-append digits rest) in
    let fine : (k == 0 || ltb 4 k || ltb (suc (length (digits ++ rest))) (1 + k)) ≡ false =
      ground arith in
    let one : 1 + length digits ≡ suc (length digits) = omega arith in
    rw (tag, long, low, fine, take-append_length, one) refl

-- A length below 2^32 is read back, whatever follows it.
pub ber_decode_length-ber_length :
    (len : ℕ) (rest : List ℕ)
    → len < 2 ^ 32
    → ber_decode_length (ber_length len ++ rest) ≡ ok (len, length (ber_length len))
unfolding ber_length ber_decode_length
ber_decode_length-ber_length len rest h = elim (Bool-cases (ltb len 0x80)) [
  | inl short ↦
      let same : len % 256 ≡ len = omega (arith, ltb→lt _ _ short) in rw (short, same, short) refl
  | inr long ↦
      let p = prepend_bytes-Prepended 8 len [] (omega arith) in
      let shape : prepend_bytes 8 len [] ≡ p.digits = p.shape ∙ append-nil p.digits in
      rw (long, shape)
        (decode_long p.digits rest
            (some_digits p.digits len p.value (omega (arith, ltb→le _ _ long)))
            (p.tight 4 (omega arith))
          ∙ ap (λ v. ok (v, suc (length p.digits))) p.value)
]
