-- ===== src/Layer.antt =====
-- pkg/packet/layer.go: a protocol layer, its field definitions and the values of its fields.
pub mod Serialize
pub mod Parse
pub mod State
mod Tests
use goscapy.Base.{
  ℕ, zero, suc, ◌+◌, ◌≡◌, String, str_eq, Bool, true, false, List, [], ◌∷◌, ◌++◌, Option, none,
  some, ltb, if◌then◌else◌, not, length, take, drop, copy, get_elem?, Outcome, ok, err, panic,
  stuck, ◌>>=◌, Error, bad_name, bad_index, ℤ, pos, negsuc,
}
use goscapy.Values.{Value, Values, nil, lookup, insert}
use goscapy.Fields.{Field, Written}
use goscapy.Fields.Laws.{field_size}

-- `Layer`
pub record Layer : Type 0 where
  pub proto : String
  pub fields : List Field
  pub values : Values

-- `Active` where the field is conditional; any other field is always there.
abbrev pub holds : Option (Values → Bool) → Values → Bool
holds none vals = true
holds (some cond) vals = cond vals

abbrev pub is_active : Field → Values → Bool
is_active f vals = holds f.active vals

-- The loop of `NewLayer`.
unfoldable pub default_values : List Field → Values → Values
default_values [] vals = vals
default_values (f ∷ fs) vals =
    default_values fs (if is_active f vals then insert f.name f.def_val vals else vals)

-- `NewLayer`
unfoldable pub new_layer : String → List Field → Layer
unfolding default_values
new_layer proto fds = record { proto = proto; fields = fds; values = default_values fds [] }

-- The value that the loops over the fields take for a field: none if it is inactive or has no value.
abbrev pub present : Field → Values → Option Value
present f vals = if is_active f vals then lookup f.name vals else none

abbrev pub or_error {ℓ} : {A : Type ℓ} → Error → Option A → Outcome A
or_error e none = err e
or_error e (some a) = ok a

-- `Get`
unfoldable pub get : Layer → String → Outcome Value
get l name = or_error bad_name (lookup name l.values)

-- `FindField`
unfoldable pub find_field : List Field → String → Option Field
find_field [] name = none
find_field (f ∷ fs) name = if str_eq f.name name then some f else find_field fs name

abbrev pub is_some {ℓ} : {A : Type ℓ} → Option A → Bool
is_some none = false
is_some (some a) = true

-- `Set`; an error leaves the layer as it is.
unfoldable pub set : Layer → String → Value → Outcome Layer
unfolding find_field
set l name val =
    if is_some (lookup name l.values)
    then ok (record l { values = insert name val l.values })
    else if is_some (find_field l.fields name)
    then ok (record l { values = insert name val l.values })
    else err bad_name

-- The field at an index, which is an error out of range.
abbrev pub field_at : List Field → ℤ → Outcome Field
field_at fs (pos i) = or_error bad_index (get_elem? fs i)
field_at fs (negsuc i) = err bad_index

abbrev pub or_nil : Option Value → Value
or_nil none = nil
or_nil (some v) = v

-- `GetField`
pub get_field : Layer → ℤ → Outcome Value
get_field l idx = do f ← field_at l.fields idx; ok (or_nil (lookup f.name l.values))

-- `SetField`
pub set_field : Layer → ℤ → Value → Outcome Layer
unfolding set
set_field l idx val = do f ← field_at l.fields idx; set l f.name val

-- `FieldIndex`, counted from `i`; `negsuc 0` is -1.
field_index_from : ℕ → List Field → String → ℤ
field_index_from i [] name = negsuc 0
field_index_from i (f ∷ fs) name =
    if str_eq f.name name then pos i else field_index_from (i + 1) fs name

pub field_index : Layer → String → ℤ
unfolding field_index_from
field_index l name = field_index_from 0 l.fields name

-- The bytes of one field in `SerializeFields`: none where the loop continues.
abbrev pub pack_present : Option Value → Field → Outcome (List ℕ)
pack_present none f = ok []
pack_present (some v) f = f.pack v

-- `SerializeFields`; the loop stops at the first field that cannot be packed.
unfoldable pub serialize_loop : List Field → Values → Outcome (List ℕ)
serialize_loop [] vals = ok []
serialize_loop (f ∷ fs) vals = do
  b ← pack_present (present f vals) f
  rest ← serialize_loop fs vals
  ok (b ++ rest)

unfoldable pub serialize_fields : Layer → Outcome (List ℕ)
unfolding serialize_loop
serialize_fields l = serialize_loop l.fields l.values

-- One field of `SerializeInto`, with the method `PackInto` or by `Pack` and a copy. The slice
-- `buf[offset:]` panics beyond the buffer's end.
unfoldable pub put_field : Option (List ℕ → Value → Written) → Field → List ℕ → ℕ → Value → Written
put_field (some into) f buf offset v =
    if ltb (length buf) offset
    then panic
    else (do (tail, n) ← into (drop offset buf) v; ok (take offset buf ++ tail, offset + n))
put_field none f buf offset v = do
  b ← f.pack v
  if ltb (length buf) offset
      then panic
      else ok (take offset buf ++ copy (drop offset buf) b, offset + length b)

abbrev pub put_present : Option Value → Field → List ℕ → ℕ → Written
put_present none f buf offset = ok (buf, offset)
put_present (some v) f buf offset = put_field f.pack_into f buf offset v

-- `SerializeInto`, from an offset on; the result is the buffer and the new offset.
unfoldable pub serialize_into_loop : List Field → Values → List ℕ → ℕ → Written
unfolding put_field
serialize_into_loop [] vals buf offset = ok (buf, offset)
serialize_into_loop (f ∷ fs) vals buf offset = do
  (buf', offset') ← put_present (present f vals) f buf offset
  serialize_into_loop fs vals buf' offset'

unfoldable pub serialize_into : Layer → List ℕ → Written
unfolding serialize_into_loop
serialize_into l buf = serialize_into_loop l.fields l.values buf 0

-- A field's share of `WireSize`: a fixed size counts whether or not there is a value.
abbrev pub share : Field → Option Value → ℕ
share f none = f.size
share f (some v) = field_size f v

-- `WireSize`
unfoldable pub wire_size_loop : List Field → Values → ℕ
wire_size_loop [] vals = 0
wire_size_loop (f ∷ fs) vals =
    (if is_active f vals then share f (lookup f.name vals) else 0) + wire_size_loop fs vals

unfoldable pub wire_size : Layer → ℕ
unfolding wire_size_loop
wire_size l = wire_size_loop l.fields l.values

-- The values as a step of `ParseFields` leaves them, and the new offset or the error.
abbrev pub ParseResult : Type 0
ParseResult = Values × Outcome ℕ

abbrev pub store : Values → String → ℕ → Outcome (Value × ℕ) → ParseResult
store vals name offset (ok (v, consumed)) = (insert name v vals, ok (offset + consumed))
store vals name offset (err e) = (vals, err e)
store vals name offset panic = (vals, panic)
store vals name offset stuck = (vals, stuck)

-- One field of `ParseFields`. The slice `data[offset:]` panics beyond the input's end.
unfoldable pub parse_field : Field → Values → List ℕ → ℕ → ParseResult
parse_field f vals bytes offset =
    if not (is_active f vals)
    then (vals, ok offset)
    else if ltb (length bytes) offset
    then (vals, panic)
    else store vals f.name offset (f.unpack (drop offset bytes))

abbrev pub proceed : ParseResult → (Values → ℕ → ParseResult) → ParseResult
proceed (vals, ok offset) next = next vals offset
proceed (vals, err e) next = (vals, err e)
proceed (vals, panic) next = (vals, panic)
proceed (vals, stuck) next = (vals, stuck)

-- `ParseFields` from an offset on.
unfoldable pub parse_loop : List Field → Values → List ℕ → ℕ → ParseResult
unfolding parse_field
parse_loop [] vals bytes offset = (vals, ok offset)
parse_loop (f ∷ fs) vals bytes offset =
    proceed (parse_field f vals bytes offset) (λ vals' offset'. parse_loop fs vals' bytes offset')

-- `ParseFields`; no bytes at all leave the layer with its defaults.
unfoldable pub parse_fields : Layer → List ℕ → Layer × Outcome ℕ
unfolding parse_loop
parse_fields l [] = (l, ok 0)
parse_fields l (b ∷ bytes) =
    let (vals, r) = parse_loop l.fields l.values (b ∷ bytes) 0 in (record l { values = vals }, r)
