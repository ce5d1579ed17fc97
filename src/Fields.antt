-- ===== src/Fields.antt =====
-- pkg/fields/field.go: the interface of a protocol field, and the values that the field types share.
pub mod Ints
pub mod Addresses
pub mod Texts
pub mod Laws
pub mod RoundTrip
mod Tests
use goscapy.Base.{
  ℕ, ◌+◌, ◌≡◌, String, Bool, List, [], ◌∷◌, ◌++◌, Option, none, some, ltb, if◌then◌else◌, length,
  copy, Outcome, ok, err, panic, ◌>>=◌, Error, wrong_type, truncated, refl,
}
use goscapy.Values.{
  Value, Values, nil, u8, u16, u32, u64, i32, hardware_addr, ip, str, bytes, options,
}

-- `Desc`
pub record Desc : Type 0 where
  pub name : String
  pub size : ℕ
  pub def_val : Value
  pub length_of : String

-- What a `PackInto` returns: the buffer as it leaves it, and the count of bytes.
abbrev pub Written : Type 0
Written = Outcome (List ℕ × ℕ)

-- The interface `Field`, with `PackInto` where the type has that method and the condition where it
-- is a `ConditionalField`.
pub record Field : Type 0 where
  pub desc : Desc
  pub open desc use *
  pub pack : Value → Outcome (List ℕ)
  pub unpack : List ℕ → Outcome (Value × ℕ)
  pub pack_into : Option (List ℕ → Value → Written)
  pub active : Option (Values → Bool)

-- `SetLengthOf`
pub set_length_of : String → Desc → Desc
set_length_of name d = record d { length_of = name }

-- `validateSize`
abbrev pub validate_size : List ℕ → ℕ → Outcome (Unit {0})
validate_size b want = if ltb (length b) want then err truncated else ok tt

-- Writes through `binary.PutUint…` or by index: beyond the buffer's end they panic.
abbrev pub write_all : List ℕ → List ℕ → Written
write_all buf out = if ltb (length buf) (length out) then panic else ok (copy buf out, length out)

-- `copy(buf, out)` and `return n, nil`: what does not fit is cut off.
abbrev pub copy_into : List ℕ → List ℕ → ℕ → Written
copy_into buf out n = ok (copy buf out, n)

-- The type assertions `val.(uint8)`, ….
abbrev pub expect_u8 : Value → Outcome ℕ
expect_u8 (u8 v) = ok v
expect_u8 _ = err wrong_type

abbrev pub expect_u16 : Value → Outcome ℕ
expect_u16 (u16 v) = ok v
expect_u16 _ = err wrong_type

abbrev pub expect_u32 : Value → Outcome ℕ
expect_u32 (u32 v) = ok v
expect_u32 _ = err wrong_type

abbrev pub expect_u64 : Value → Outcome ℕ
expect_u64 (u64 v) = ok v
expect_u64 _ = err wrong_type

abbrev pub expect_i32 : Value → Outcome ℕ
expect_i32 (i32 v) = ok v
expect_i32 _ = err wrong_type

-- The cases `string` and `[]byte` of a type switch.
abbrev pub expect_text : Value → Outcome (List ℕ)
expect_text (str s) = ok s
expect_text (bytes s) = ok s
expect_text _ = err wrong_type

abbrev pub expect_bytes : Value → Outcome (List ℕ)
expect_bytes (bytes s) = ok s
expect_bytes _ = err wrong_type

-- A field's description, with no length relation.
abbrev pub described : String → ℕ → Value → Desc
described name size def_val = record { name = name; size = size; def_val = def_val; length_of = "" }
