-- ===== src/Fields/Laws/Ints.antt =====
-- The integer fields and the bit field: `Pack` against `PackInto` and `FixedSize`.
use goscapy.Base.{
  ℕ, ◌+◌, ◌%◌, ◌/◌, ◌^◌, refl, sym, String, [], ◌∷◌, wrong_type, too_large, byte, put_be, put_le,
  length-put_be, length-put_le, ltb, Bool-cases, inl, inr,
}
use goscapy.Values.{Value, u8, u16, u32, u64, i32}
use goscapy.Fields.Ints.{
  byte_field, short_field, le_short_field, three_bytes_field, int_field, signed_int_field,
  le_int_field, long_field, le_long_field, bit_field, bit_mask,
}
use goscapy.Fields.Laws.{IsLawfulAt, refused, written}

pub byte_field-IsLawfulAt : (name : String) (d : ℕ) (v : Value) → IsLawfulAt (byte_field name d) v
unfolding byte_field
byte_field-IsLawfulAt name d (u8 n) = written _ _ (n ∷ []) refl (λ buf. refl) refl
byte_field-IsLawfulAt name d _ = refused _ _ wrong_type refl (λ buf. refl)

pub short_field-IsLawfulAt : (name : String) (d : ℕ) (v : Value) → IsLawfulAt (short_field name d) v
unfolding short_field
short_field-IsLawfulAt name d (u16 n) =
    written _ _ (put_be 2 n) refl (λ buf. refl) (sym (length-put_be 2 n))
short_field-IsLawfulAt name d _ = refused _ _ wrong_type refl (λ buf. refl)

pub le_short_field-IsLawfulAt :
    (name : String) (d : ℕ) (v : Value) → IsLawfulAt (le_short_field name d) v
unfolding le_short_field
le_short_field-IsLawfulAt name d (u16 n) =
    written _ _ (put_le 2 n) refl (λ buf. refl) (sym (length-put_le 2 n))
le_short_field-IsLawfulAt name d _ = refused _ _ wrong_type refl (λ buf. refl)

pub int_field-IsLawfulAt : (name : String) (d : ℕ) (v : Value) → IsLawfulAt (int_field name d) v
unfolding int_field
int_field-IsLawfulAt name d (u32 n) =
    written _ _ (put_be 4 n) refl (λ buf. refl) (sym (length-put_be 4 n))
int_field-IsLawfulAt name d _ = refused _ _ wrong_type refl (λ buf. refl)

pub signed_int_field-IsLawfulAt :
    (name : String) (d : ℕ) (v : Value) → IsLawfulAt (signed_int_field name d) v
unfolding signed_int_field
signed_int_field-IsLawfulAt name d (i32 n) =
    written _ _ (put_be 4 n) refl (λ buf. refl) (sym (length-put_be 4 n))
signed_int_field-IsLawfulAt name d _ = refused _ _ wrong_type refl (λ buf. refl)

pub le_int_field-IsLawfulAt :
    (name : String) (d : ℕ) (v : Value) → IsLawfulAt (le_int_field name d) v
unfolding le_int_field
le_int_field-IsLawfulAt name d (u32 n) =
    written _ _ (put_le 4 n) refl (λ buf. refl) (sym (length-put_le 4 n))
le_int_field-IsLawfulAt name d _ = refused _ _ wrong_type refl (λ buf. refl)

pub long_field-IsLawfulAt : (name : String) (d : ℕ) (v : Value) → IsLawfulAt (long_field name d) v
unfolding long_field
long_field-IsLawfulAt name d (u64 n) =
    written _ _ (put_be 8 n) refl (λ buf. refl) (sym (length-put_be 8 n))
long_field-IsLawfulAt name d _ = refused _ _ wrong_type refl (λ buf. refl)

pub le_long_field-IsLawfulAt :
    (name : String) (d : ℕ) (v : Value) → IsLawfulAt (le_long_field name d) v
unfolding le_long_field
le_long_field-IsLawfulAt name d (u64 n) =
    written _ _ (put_le 8 n) refl (λ buf. refl) (sym (length-put_le 8 n))
le_long_field-IsLawfulAt name d _ = refused _ _ wrong_type refl (λ buf. refl)

pub three_bytes_field-IsLawfulAt :
    (name : String) (d : ℕ) (v : Value) → IsLawfulAt (three_bytes_field name d) v
unfolding three_bytes_field
three_bytes_field-IsLawfulAt name d (u32 n) = elim (Bool-cases (ltb 0xFFFFFF n)) [
  | inl big ↦ refused _ _ too_large (rw big) (λ buf. rw big)
  | inr fits ↦
      written _ _ (byte (n / 2 ^ 16) ∷ byte (n / 2 ^ 8) ∷ byte n ∷ []) (rw fits) (λ buf. rw fits)
        refl
]
three_bytes_field-IsLawfulAt name d _ = refused _ _ wrong_type refl (λ buf. refl)

pub bit_field-IsLawfulAt :
    (name : String) (d bits : ℕ) (v : Value) → IsLawfulAt (bit_field name d bits) v
unfolding bit_field
bit_field-IsLawfulAt name d bits (u8 n) = elim (Bool-cases (ltb (bit_mask bits) n)) [
  | inl big ↦ refused _ _ too_large (rw big) (λ buf. rw big)
  | inr fits ↦ written _ _ (n % (bit_mask bits + 1) ∷ []) (rw fits) (λ buf. rw fits) (rw fits)
]
bit_field-IsLawfulAt name d bits _ = refused _ _ wrong_type refl (λ buf. refl)
