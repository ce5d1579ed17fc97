-- ===== src/Fields/Texts.antt =====
-- pkg/fields/types.go and packinto.go: text, payload, nested and conditional fields.
use goscapy.Base.{
  ℕ, ◌-◌, String, Bool, List, ◌++◌, Option, some, none, ltb, if◌then◌else◌, ◌&&◌, length, take,
  drop, replicate, copy, Outcome, ok, err, panic, ◌>>=◌, too_large,
}
use goscapy.Values.{Value, Values, nil, str, bytes}
use goscapy.Fields.{Field, described, validate_size, Written, copy_into, expect_text, expect_bytes}

-- `PackInto` of `StrField`
abbrev pub str_pack_into : List ℕ → Value → Written
str_pack_into buf val = do s ← expect_text val; copy_into buf s (length s)

-- `StrField`: `Unpack` takes all that is left.
unfoldable pub str_field : String → List ℕ → Field
str_field name def_val = record {
  desc = described name 0 (str def_val);
  pack = expect_text;
  unpack = λ b. ok (bytes b, length b);
  pack_into = some str_pack_into;
  active = none;
}

-- `StrLenField`: the name of the length field is metadata, `Pack` and `Unpack` are `StrField`'s.
pub record StrLenField : Type 0 where
  pub field : Field
  pub length_from : String

-- `PackInto` of `StrLenField`
abbrev pub str_len_pack_into : List ℕ → Value → Written
str_len_pack_into buf val = do s ← expect_text val; copy_into buf s (length s)

unfoldable pub str_len_field : String → List ℕ → String → StrLenField
str_len_field name def_val length_from = record {
  field = record {
    desc = described name 0 (str def_val);
    pack = expect_text;
    unpack = λ b. ok (bytes b, length b);
    pack_into = some str_len_pack_into;
    active = none;
  };
  length_from = length_from;
}

abbrev pub zeros : ℕ → List ℕ
zeros n = replicate n 0

-- `Pack` of `StrFixedField` on the raw bytes: a shorter value is padded with zeros.
abbrev pub padded : ℕ → List ℕ → Outcome (List ℕ)
padded size raw = if ltb size (length raw) then err too_large else ok (copy (zeros size) raw)

-- Its `PackInto` clears the padding by index, which panics beyond the buffer, and then copies.
abbrev pub pad_into : ℕ → List ℕ → List ℕ → Written
pad_into size buf raw =
    if ltb size (length raw)
    then err too_large
    else if ltb (length raw) size && ltb (length buf) size
    then panic
    else ok (copy (take (length raw) buf ++ zeros (size - length raw) ++ drop size buf) raw, size)

-- `PackInto` of `StrFixedField`
abbrev pub str_fixed_pack_into : ℕ → List ℕ → Value → Written
str_fixed_pack_into size buf val = do raw ← expect_text val; pad_into size buf raw

-- `StrFixedField`
unfoldable pub str_fixed_field : String → ℕ → List ℕ → Field
str_fixed_field name size def_val = record {
  desc = described name size (bytes def_val);
  pack = λ val. (do raw ← expect_text val; padded size raw);
  unpack = λ b. (do _ ← validate_size b size; ok (bytes (copy (zeros size) (take size b)), size));
  pack_into = some (str_fixed_pack_into size);
  active = none;
}

-- `PacketField`: the name of the nested packet's type is metadata.
pub record PacketField : Type 0 where
  pub field : Field
  pub pkt_name : String

-- `PackInto` of `PacketField`
abbrev pub packet_pack_into : List ℕ → Value → Written
packet_pack_into buf val = do v ← expect_bytes val; copy_into buf v (length v)

unfoldable pub packet_field : String → String → PacketField
packet_field name pkt_name = record {
  field = record {
    desc = described name 0 nil;
    pack = expect_bytes;
    unpack = λ b. ok (bytes b, length b);
    pack_into = some packet_pack_into;
    active = none;
  };
  pkt_name = pkt_name;
}

-- `PackInto` of a `ConditionalField`: the wrapped field's, or its `Pack` and a copy.
abbrev pub promoted :
    Option (List ℕ → Value → Written) → (Value → Outcome (List ℕ)) → List ℕ → Value → Written
promoted (some into) pack buf val = into buf val
promoted none pack buf val = do out ← pack val; copy_into buf out (length out)

-- `ConditionalField` wraps a field, and is asked only for its own condition.
unfoldable pub conditional_field : Field → (Values → Bool) → Field
conditional_field f cond = record f {
  pack_into = some (promoted f.pack_into f.pack);
  active = some cond;
}
