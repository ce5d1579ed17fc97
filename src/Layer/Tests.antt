-- ===== src/Layer/Tests.antt =====
-- Runs of a layer's operations, and their theorems at concrete inputs.
use goscapy.Base.{
  ℕ, ◌≡◌, refl, String, str_eq, true, false, List, [], ◌∷◌, ◌++◌, ok, err, bad_name, arith, put_be,
  some, if◌then◌else◌, All,
}
use goscapy.Values.{Value, u8, u16, lookup, insert}
use goscapy.Fields.{Field}
use goscapy.Fields.Ints.{short_field, byte_field}
use goscapy.Fields.RoundTrip.{IsCodecAt, in_short, in_byte, Canonical-IsCodecAt}
use goscapy.Fields.Laws.Standard.{is_short, is_byte, Standard-IsLawfulAt}
use goscapy.Layer.{
  Layer, new_layer, get, set, serialize_fields, serialize_into, wire_size, parse_fields, present,
}
use goscapy.Layer.Serialize.{
  IsLawful, IsComplete, serialize_into-serialize_fields, wire_size-serialize_fields,
}
use goscapy.Layer.Parse.{Readable, parse_fields-serialize_fields}
use goscapy.Layer.State.{IsSimple, is_known, get-set, get-new_layer}

abbrev demo_fields : List Field
demo_fields = short_field "id" 0 ∷ byte_field "ttl" 64 ∷ []

-- A layer as `NewLayer` and `Set` leave it.
abbrev demo : Layer
demo = record {
  proto = "Demo";
  fields = demo_fields;
  values = ("id", u16 258) ∷ ("ttl", u8 64) ∷ [];
}

abbrev fresh : Layer
fresh = record {
  proto = "Demo";
  fields = demo_fields;
  values = ("id", u16 0) ∷ ("ttl", u8 64) ∷ [];
}

new_demo : new_layer "Demo" demo_fields ≡ fresh
unfolding new_layer insert short_field byte_field
new_demo = refl

demo_bytes : serialize_fields demo ≡ ok (1 ∷ 2 ∷ 64 ∷ [])
unfolding serialize_fields lookup short_field byte_field put_be
demo_bytes = refl

demo-IsLawful : IsLawful demo.fields demo.values
demo-IsLawful = (
  λ v e. Standard-IsLawfulAt (is_short "id" 0),
  (λ v e. Standard-IsLawfulAt (is_byte "ttl" 64), tt),
)

demo-IsComplete : IsComplete demo.fields demo.values
unfolding lookup short_field byte_field
demo-IsComplete = (λ t. (u16 258, refl), (λ t. (u8 64, refl), tt))

id_codec : (after : List ℕ) → IsCodecAt (short_field "id" 0) (u16 258) (after ++ (9 ∷ []))
id_codec after = Canonical-IsCodecAt (in_short "id" 0 258 (after ++ (9 ∷ [])) (omega arith))

ttl_codec : (after : List ℕ) → IsCodecAt (byte_field "ttl" 64) (u8 64) (after ++ (9 ∷ []))
ttl_codec after = Canonical-IsCodecAt (in_byte "ttl" 64 64 (after ++ (9 ∷ [])))

demo-Readable : Readable demo.fields demo.values fresh.values (9 ∷ [])
unfolding lookup insert short_field byte_field
demo-Readable = (
  refl,
  λ t. (u16 258, refl, λ after e. id_codec after),
  (refl, λ t. (u8 64, refl, λ after e. ttl_codec after), tt),
)

serialize_into-serialize_fields_example :
    serialize_into demo (0 ∷ 0 ∷ 0 ∷ 7 ∷ []) ≡ ok (1 ∷ 2 ∷ 64 ∷ 7 ∷ [], 3)
serialize_into-serialize_fields_example =
    serialize_into-serialize_fields demo (0 ∷ 0 ∷ 0 ∷ 7 ∷ []) (1 ∷ 2 ∷ 64 ∷ []) demo-IsLawful
      demo_bytes (omega arith)

wire_size-serialize_fields_example : wire_size demo ≡ 3
wire_size-serialize_fields_example =
    wire_size-serialize_fields demo (1 ∷ 2 ∷ 64 ∷ []) demo-IsLawful demo-IsComplete demo_bytes

get-set_example :
    (is_known demo "ttl" ≡ false → set demo "ttl" (u8 3) ≡ err bad_name)
    × (is_known demo "ttl" ≡ true
        → (l' : Layer) × (set demo "ttl" (u8 3) ≡ ok l')
          × (l'.proto ≡ demo.proto)
          × (l'.fields ≡ demo.fields)
          × ((k : String) → get l' k ≡ (if str_eq "ttl" k then ok (u8 3) else get demo k)))
get-set_example = get-set demo "ttl" (u8 3)

demo-IsSimple : IsSimple demo_fields
unfolding short_field byte_field
demo-IsSimple = (refl, (refl, tt), (refl, tt, tt))

get-new_layer_example :
    All (λ f. get (new_layer "Demo" demo_fields) f.name ≡ ok f.def_val) demo_fields
get-new_layer_example = get-new_layer "Demo" demo_fields demo-IsSimple

parse_fields-serialize_fields_example :
    let (read, r) = parse_fields fresh ((1 ∷ 2 ∷ 64 ∷ []) ++ (9 ∷ [])) in
    (r ≡ ok 3)
    × All
        (λ f. (v : Value) → present f demo.values ≡ some v → lookup f.name read.values ≡ some v)
        demo.fields
parse_fields-serialize_fields_example =
    parse_fields-serialize_fields demo fresh 1 (2 ∷ 64 ∷ []) (9 ∷ []) refl demo-Readable demo_bytes
