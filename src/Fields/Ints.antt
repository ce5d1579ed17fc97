-- ===== src/Fields/Ints.antt =====
-- pkg/fields/types.go and packinto.go: the integer fields, and the bit field.
use goscapy.Base.{
  ℕ, ◌+◌, ◌*◌, ◌/◌, ◌%◌, ◌^◌, String, List, [], ◌∷◌, some, none, ltb, if◌then◌else◌, take, byte,
  put_be, get_be, put_le, get_le, get_or, Outcome, ok, err, ◌>>=◌, too_large,
}
use goscapy.Values.{Value, u8, u16, u32, u64, i32}
use goscapy.Fields.{
  Field, Written, described, validate_size, write_all, expect_u8, expect_u16, expect_u32,
  expect_u64, expect_i32,
}

-- `PackInto` of `ByteField`
abbrev pub byte_pack_into : List ℕ → Value → Written
byte_pack_into buf val = do v ← expect_u8 val; write_all buf (v ∷ [])

-- `ByteField`
unfoldable pub byte_field : String → ℕ → Field
byte_field name def_val = record {
  desc = described name 1 (u8 def_val);
  pack = λ val. (do v ← expect_u8 val; ok (v ∷ []));
  unpack = λ b. (do _ ← validate_size b 1; ok (u8 (get_or b 0 0), 1));
  pack_into = some byte_pack_into;
  active = none;
}

-- `XByteField` embeds `ByteField`.
unfoldable pub xbyte_field : String → ℕ → Field
unfolding byte_field
xbyte_field name def_val = byte_field name def_val

-- `PackInto` of `ShortField`
abbrev pub short_pack_into : List ℕ → Value → Written
short_pack_into buf val = do v ← expect_u16 val; write_all buf (put_be 2 v)

-- `ShortField`
unfoldable pub short_field : String → ℕ → Field
short_field name def_val = record {
  desc = described name 2 (u16 def_val);
  pack = λ val. (do v ← expect_u16 val; ok (put_be 2 v));
  unpack = λ b. (do _ ← validate_size b 2; ok (u16 (get_be (take 2 b)), 2));
  pack_into = some short_pack_into;
  active = none;
}

-- `PackInto` of `LEShortField`
abbrev pub le_short_pack_into : List ℕ → Value → Written
le_short_pack_into buf val = do v ← expect_u16 val; write_all buf (put_le 2 v)

-- `LEShortField`
unfoldable pub le_short_field : String → ℕ → Field
le_short_field name def_val = record {
  desc = described name 2 (u16 def_val);
  pack = λ val. (do v ← expect_u16 val; ok (put_le 2 v));
  unpack = λ b. (do _ ← validate_size b 2; ok (u16 (get_le (take 2 b)), 2));
  pack_into = some le_short_pack_into;
  active = none;
}

-- The three bytes that `ThreeBytesField` writes, and the number that it reads.
abbrev pub three_bytes : ℕ → Outcome (List ℕ)
three_bytes v =
    if ltb 0xFFFFFF v
    then err too_large
    else ok (byte (v / 2 ^ 16) ∷ byte (v / 2 ^ 8) ∷ byte v ∷ [])

-- `PackInto` of `ThreeBytesField`
abbrev pub three_bytes_pack_into : List ℕ → Value → Written
three_bytes_pack_into buf val = do v ← expect_u32 val; out ← three_bytes v; write_all buf out

-- `ThreeBytesField`; the shifts of its `Unpack` set disjoint bits, so their `|` is a sum.
unfoldable pub three_bytes_field : String → ℕ → Field
three_bytes_field name def_val = record {
  desc = described name 3 (u32 def_val);
  pack = λ val. (do v ← expect_u32 val; three_bytes v);
  unpack = λ b. (do
    _ ← validate_size b 3
    ok (u32 (get_or b 0 0 * 2 ^ 16 + get_or b 1 0 * 2 ^ 8 + get_or b 2 0), 3));
  pack_into = some three_bytes_pack_into;
  active = none;
}

-- `PackInto` of `IntField`
abbrev pub int_pack_into : List ℕ → Value → Written
int_pack_into buf val = do v ← expect_u32 val; write_all buf (put_be 4 v)

-- `IntField`
unfoldable pub int_field : String → ℕ → Field
int_field name def_val = record {
  desc = described name 4 (u32 def_val);
  pack = λ val. (do v ← expect_u32 val; ok (put_be 4 v));
  unpack = λ b. (do _ ← validate_size b 4; ok (u32 (get_be (take 4 b)), 4));
  pack_into = some int_pack_into;
  active = none;
}

-- `PackInto` of `SignedIntField`
abbrev pub signed_int_pack_into : List ℕ → Value → Written
signed_int_pack_into buf val = do v ← expect_i32 val; write_all buf (put_be 4 v)

-- `SignedIntField`; an int32 is its bit pattern, so the conversions to and from uint32 keep it.
unfoldable pub signed_int_field : String → ℕ → Field
signed_int_field name def_val = record {
  desc = described name 4 (i32 def_val);
  pack = λ val. (do v ← expect_i32 val; ok (put_be 4 v));
  unpack = λ b. (do _ ← validate_size b 4; ok (i32 (get_be (take 4 b)), 4));
  pack_into = some signed_int_pack_into;
  active = none;
}

-- `PackInto` of `LEIntField`
abbrev pub le_int_pack_into : List ℕ → Value → Written
le_int_pack_into buf val = do v ← expect_u32 val; write_all buf (put_le 4 v)

-- `LEIntField`
unfoldable pub le_int_field : String → ℕ → Field
le_int_field name def_val = record {
  desc = described name 4 (u32 def_val);
  pack = λ val. (do v ← expect_u32 val; ok (put_le 4 v));
  unpack = λ b. (do _ ← validate_size b 4; ok (u32 (get_le (take 4 b)), 4));
  pack_into = some le_int_pack_into;
  active = none;
}

-- `PackInto` of `LongField`
abbrev pub long_pack_into : List ℕ → Value → Written
long_pack_into buf val = do v ← expect_u64 val; write_all buf (put_be 8 v)

-- `LongField`
unfoldable pub long_field : String → ℕ → Field
long_field name def_val = record {
  desc = described name 8 (u64 def_val);
  pack = λ val. (do v ← expect_u64 val; ok (put_be 8 v));
  unpack = λ b. (do _ ← validate_size b 8; ok (u64 (get_be (take 8 b)), 8));
  pack_into = some long_pack_into;
  active = none;
}

-- `PackInto` of `LELongField`
abbrev pub le_long_pack_into : List ℕ → Value → Written
le_long_pack_into buf val = do v ← expect_u64 val; write_all buf (put_le 8 v)

-- `LELongField`
unfoldable pub le_long_field : String → ℕ → Field
le_long_field name def_val = record {
  desc = described name 8 (u64 def_val);
  pack = λ val. (do v ← expect_u64 val; ok (put_le 8 v));
  unpack = λ b. (do _ ← validate_size b 8; ok (u64 (get_le (take 8 b)), 8));
  pack_into = some le_long_pack_into;
  active = none;
}

-- `uint8((1 << bits) - 1)`; `bits` is 1 to 8.
abbrev pub bit_mask : ℕ → ℕ
bit_mask bits = byte (2 ^ bits + 255)

-- A value above the mask is refused, so `v & mask` is `v`.
abbrev pub masked : ℕ → ℕ → Outcome (List ℕ)
masked bits v = if ltb (bit_mask bits) v then err too_large else ok (v % (bit_mask bits + 1) ∷ [])

-- `PackInto` of `BitField`
abbrev pub bit_pack_into : ℕ → List ℕ → Value → Written
bit_pack_into bits buf val = do v ← expect_u8 val; out ← masked bits v; write_all buf out

-- `BitField`: its size is 0, and `Unpack` consumes nothing. `b & mask` is `b % (mask + 1)`.
unfoldable pub bit_field : String → ℕ → ℕ → Field
bit_field name def_val bits = record {
  desc = described name 0 (u8 def_val);
  pack = λ val. (do v ← expect_u8 val; masked bits v);
  unpack = λ b. (do _ ← validate_size b 1; ok (u8 (get_or b 0 0 % (bit_mask bits + 1)), 0));
  pack_into = some (bit_pack_into bits);
  active = none;
}
