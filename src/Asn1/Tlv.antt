-- ===== src/Asn1/Tlv.antt =====
-- pkg/asn1/ber.go: tag, length and value.
use goscapy.Base.{
  ltb, if◌then◌else◌, le→ltb, length, take, drop, length-append, take-append_length,
  drop-append_length, truncated, empty_input, Outcome, ok, err, ◌>>=◌, ℕ, suc, ◌+◌, ◌^◌, ◌<◌, ◌≡◌,
  refl, sym, ap, ◌∙◌, false, List, [], ◌∷◌, ◌++◌, append_assoc, arith,
}
use goscapy.Asn1.Length.{ber_length, ber_decode_length, ber_decode_length-ber_length}

unfoldable pub ber_tlv : (tag : ℕ) (value : List ℕ) → List ℕ
unfolding ber_length
ber_tlv tag value = (tag ∷ []) ++ ber_length (length value) ++ value

-- The end of `BERDecodeTLV`.
abbrev value_at :
    (tag : ℕ) (behind : List ℕ) (len len_consumed total_consumed : ℕ) → Outcome (ℕ × List ℕ × ℕ)
value_at tag behind len len_consumed total_consumed =
    if ltb (length (tag ∷ behind)) total_consumed
    then err truncated
    else ok (tag, take len (drop len_consumed behind), total_consumed)

-- The tag, the value and the bytes taken. `behind` is the input after its tag.
unfoldable pub ber_decode_tlv : List ℕ → Outcome (ℕ × List ℕ × ℕ)
unfolding ber_decode_length
ber_decode_tlv [] = err empty_input
ber_decode_tlv (tag ∷ behind) = do
  (len, len_consumed) ← ber_decode_length behind
  value_at tag behind len len_consumed (1 + len_consumed + len)

take-drop-middle :
    (front value rest : List ℕ)
    → take (length value) (drop (length front) (front ++ value ++ rest)) ≡ value
take-drop-middle front value rest =
    ap (λ xs. take (length value) (drop (length front) xs)) (append_assoc front value rest)
    ∙ ap (take (length value)) (drop-append_length front (value ++ rest))
    ∙ take-append_length value rest

-- An encoded value of less than 2^32 bytes is read back with its tag, and the bytes taken are
-- those of its encoding, whatever follows it.
pub ber_decode_tlv-ber_tlv :
    (tag : ℕ) (value rest : List ℕ)
    → length value < 2 ^ 32
    → ber_decode_tlv (ber_tlv tag value ++ rest) ≡ ok (tag, value, length (ber_tlv tag value))
unfolding ber_tlv ber_decode_tlv
ber_decode_tlv-ber_tlv tag value rest h =
    let front = ber_length (length value) in
    let read = ber_decode_length-ber_length (length value) (value ++ rest) h in
    let total : 1 + length front + length value ≡ suc (length (front ++ value)) =
      omega (arith, length-append front value) in
    let size : length (front ++ value ++ rest) ≡ length front + length value + length rest =
      omega (arith, length-append (front ++ value) rest, length-append front value) in
    let enough : ltb (suc (length (front ++ value ++ rest))) (1 + length front + length value)
        ≡ false =
      le→ltb _ _ (omega (arith, size)) in
    rw
      (
        append_assoc front value rest,
        read,
        sym (append_assoc front value rest),
        enough,
        take-drop-middle front value rest,
        total,
      )
      refl
