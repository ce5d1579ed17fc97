-- ===== src/Asn1/Integer/Complement.antt =====
-- Two's complement in pkg/asn1/ber.go, byte by byte, in writing and in reading.
use goscapy.Base.{
  ltb, ◌==◌, if◌then◌else◌, Bool-cases, set, All, IsByte, ℤ, pos, negsuc, ok, ℕ, zero, suc, ◌+◌,
  ◌-◌, ◌*◌, ◌/◌, ◌%◌, ◌^◌, ◌<◌, bit_and, ◌≡◌, refl, sym, ap, ◌∙◌, inl, inr, Bool, true, false, not,
  ◌&&◌, List, [], ◌∷◌, arith,
}
use goscapy.Base.Masks.{bit_and-high_bit}
use goscapy.Asn1.Integer.{
  int_loop, strip, wrap64, shift_in, decode_loop, first_byte, ber_decode_integer,
}

abbrev pub complement : ℤ → ℤ
complement (pos n) = negsuc n
complement (negsuc n) = pos n

abbrev pub flip : List ℕ → List ℕ
flip [] = []
flip (b ∷ bs) = (255 - b) ∷ flip bs

pub int_loop-complement :
    (i n : ℕ) (acc : List ℕ) → int_loop i (negsuc n) (flip acc) ≡ flip (int_loop i (pos n) acc)
unfolding int_loop
int_loop-complement zero n acc = refl
int_loop-complement (suc i) n acc = elim (Bool-cases (n / 256 == 0)) [
  | inl done ↦ rw done refl
  | inr more ↦ rw more (int_loop-complement i (n / 256) (n % 256 ∷ acc))
]

pub high_flip : (b : ℕ) → b < 256 → (bit_and (255 - b) 0x80 == 0) ≡ not (bit_and b 0x80 == 0)
high_flip b h =
    bit_and-high_bit (255 - b) (omega arith) ∙ halves ∙ ap not (sym (bit_and-high_bit b h))
  where
    halves : ltb (255 - b) 128 ≡ not (ltb b 128)
    halves = ground arith

branches-flip :
    (is_zero is_full clear : Bool) (short short' long long' : List ℕ)
    → short' ≡ flip short
    → long' ≡ flip long
    → (if is_full && not clear
        then short'
        else if is_zero && not (not clear)
        then short'
        else long')
      ≡ flip (if is_zero && clear then short else if is_full && not clear then short else long)
branches-flip true true true short short' long long' h k = h
branches-flip true true false short short' long long' h k = h
branches-flip true false true short short' long long' h k = h
branches-flip true false false short short' long long' h k = k
branches-flip false true true short short' long long' h k = k
branches-flip false true false short short' long long' h k = h
branches-flip false false true short short' long long' h k = k
branches-flip false false false short short' long long' h k = k

pub strip-flip : (bs : List ℕ) → All IsByte bs → strip (flip bs) ≡ flip (strip bs)
unfolding strip
strip-flip [] good = refl
strip-flip (first ∷ []) good = refl
strip-flip (first ∷ second ∷ rest) (is_byte, others) =
    let zero_test : (255 - first == 0) ≡ (first == 0xff) = ground arith in
    let full_test : (255 - first == 0xff) ≡ (first == 0) = ground arith in
    rw (zero_test, full_test, high_flip second others.0)
      (branches-flip (first == 0) (first == 0xff) (bit_and second 0x80 == 0) (strip (second ∷ rest))
        (strip (flip (second ∷ rest))) (first ∷ second ∷ rest) _ (strip-flip (second ∷ rest) others)
        refl)

wrap64-complement : (v : ℤ) → wrap64 (complement v) ≡ complement (wrap64 v)
wrap64-complement (pos n) = elim (Bool-cases (ltb (n % 2 ^ 64) (2 ^ 63))) [
  | inl small ↦ rw small refl
  | inr large ↦ rw large refl
]
wrap64-complement (negsuc n) = elim (Bool-cases (ltb (n % 2 ^ 64) (2 ^ 63))) [
  | inl small ↦ rw small refl
  | inr large ↦ rw large refl
]

shift_in-complement :
    (v : ℤ) (b : ℕ) → b < 256 → shift_in (complement v) (255 - b) ≡ complement (shift_in v b)
shift_in-complement (pos n) b h =
    let back : 255 - (255 - b) ≡ b = omega arith in rw back (wrap64-complement (pos (n * 256 + b)))
shift_in-complement (negsuc n) b h = wrap64-complement (negsuc (n * 256 + (255 - b)))

decode_loop-complement :
    (v : ℤ) (bs : List ℕ)
    → All IsByte bs
    → decode_loop (complement v) (flip bs) ≡ complement (decode_loop v bs)
unfolding decode_loop
decode_loop-complement v [] good = refl
decode_loop-complement v (b ∷ bs) (is_byte, good) =
    ap (λ w. decode_loop w (flip bs)) (shift_in-complement v b is_byte)
    ∙ decode_loop-complement (shift_in v b) bs good

first_byte-complement : (b : ℕ) → b < 256 → first_byte (255 - b) ≡ complement (first_byte b)
first_byte-complement b h = elim (Bool-cases (bit_and b 0x80 == 0)) [
  | inl clear ↦ let back : 255 - (255 - b) ≡ b = omega arith in rw (high_flip b h, clear, back) refl
  | inr set ↦ rw (high_flip b h, set) refl
]

pub decode-flip :
    (bs : List ℕ) (v : ℤ)
    → All IsByte bs
    → ber_decode_integer bs ≡ ok v
    → ber_decode_integer (flip bs) ≡ ok (complement v)
unfolding ber_decode_integer
decode-flip [] v good h = cc
decode-flip (first ∷ rest) v (is_byte, good) h =
    let same : decode_loop (first_byte first) rest ≡ v = cc in
    ap ok (
      ap (λ w. decode_loop w (flip rest)) (first_byte-complement first is_byte)
      ∙ decode_loop-complement (first_byte first) rest good
      ∙ ap complement same)
