-- ===== src/Fields/Laws.antt =====
-- What a packet layer relies on in a field: how `FixedSize`, `Pack` and `PackInto` fit together.
pub mod Ints
pub mod Others
pub mod Standard
use goscapy.Base.{
  ℕ, suc, zero, ◌+◌, ◌≤◌, ◌<◌, ◌≡◌, refl, ap, sym, ◌∙◌, List, [], ◌∷◌, some, none, ltb, le→ltb,
  if◌then◌else◌, length, copy, Outcome, ok, err, panic, stuck, ◌>>=◌, Error, arith,
}
use goscapy.Values.{
  Value, nil, u8, u16, u32, u64, int, i32, i64, hardware_addr, ip, str, bytes, options,
}
use goscapy.Fields.{Field, Written, write_all, copy_into}
use goscapy.Fields.Texts.{promoted}

-- The length of what `Pack` gives; of an error it is that of the nil slice.
abbrev pub length_packed : Outcome (List ℕ) → ℕ
length_packed (ok b) = length b
length_packed _ = 0

-- What `WireSize` counts for a value of a field without a fixed size.
abbrev pub variable_size : Field → Value → ℕ
variable_size f (str v) = length v
variable_size f (bytes v) = length v
variable_size f v = length_packed (f.pack v)

-- What `WireSize` counts for a field with the value `v`.
abbrev pub field_size : Field → Value → ℕ
field_size f v = if ltb 0 f.size then f.size else variable_size f v

-- What `SerializeInto` does with one field: `PackInto`, or `Pack` and a copy.
abbrev pub pack_field_into : Field → List ℕ → Value → Written
pack_field_into f buf v = promoted f.pack_into f.pack buf v

pub record IsLawfulAt (f : Field) (v : Value) : Type 0 where
  pub measured : (bs : List ℕ) → f.pack v ≡ ok bs → field_size f v ≡ length bs
  pub into_ok :
      (bs buf : List ℕ)
      → f.pack v ≡ ok bs
      → length bs ≤ length buf
      → pack_field_into f buf v ≡ ok (copy buf bs, length bs)
  pub into_err : (e : Error) (buf : List ℕ) → f.pack v ≡ err e → pack_field_into f buf v ≡ err e

-- The value is refused, by `Pack` and `PackInto` alike.
pub refused :
    (f : Field) (v : Value) (e : Error)
    → f.pack v ≡ err e
    → ((buf : List ℕ) → pack_field_into f buf v ≡ err e)
    → IsLawfulAt f v
refused f v e p q = record {
  measured = λ bs h. cc;
  into_ok = λ bs buf h l. cc;
  into_err = λ e' buf h. q buf ∙ (cc);
}

-- The value is packed, and written by index.
pub written :
    (f : Field) (v : Value) (out : List ℕ)
    → f.pack v ≡ ok out
    → ((buf : List ℕ) → pack_field_into f buf v ≡ write_all buf out)
    → field_size f v ≡ length out
    → IsLawfulAt f v
written f v out p q s = record {
  measured = λ bs h. s ∙ ap (λ (t : List ℕ). length t) (cc);
  into_ok = λ bs buf h l.
      let same : out ≡ bs = cc in
      rw (← same) (q buf ∙ rw (le→ltb (length buf) (length out) (rw same l)) refl);
  into_err = λ e buf h. cc;
}

-- The value is packed, and copied.
pub copied :
    (f : Field) (v : Value) (out : List ℕ) (n : ℕ)
    → f.pack v ≡ ok out
    → ((buf : List ℕ) → pack_field_into f buf v ≡ copy_into buf out n)
    → n ≡ length out
    → field_size f v ≡ length out
    → IsLawfulAt f v
copied f v out n p q e s = record {
  measured = λ bs h. s ∙ ap (λ (t : List ℕ). length t) (cc);
  into_ok = λ bs buf h l. let same : out ≡ bs = cc in rw (← same) (q buf ∙ rw e refl);
  into_err = λ e buf h. cc;
}
