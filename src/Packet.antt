-- ===== src/Packet.antt =====
-- pkg/packet/packet.go, binding.go and build.go: a stack of layers, lowest first. A layer is a value
-- here: where Go's packets share a layer by pointer, each has its own.
pub mod Build
pub mod Stack
mod Tests
use goscapy.Base.{
  ℕ, zero, suc, ◌+◌, ◌-◌, ◌≡◌, ◌==◌, String, str_eq, Bool, true, false, List, [], ◌∷◌, ◌++◌, Option,
  none, some, ltb, ◌&&◌, if◌then◌else◌, length, get_elem?, ℤ, pos, negsuc, Outcome, ok, err, Error,
  bad_name,
}
use goscapy.Values.{Value, Values, lookup}
use goscapy.Fields.{Field}
use goscapy.Layer.{Layer, set, holds, is_some}

-- `Packet`; `New` is the empty one and `NewFrom` the constructor.
pub record Packet : Type 0 where
  pub layers : List Layer

abbrev pub new : Packet
new = record { layers = [] }

abbrev pub new_from : List Layer → Packet
new_from ls = record { layers = ls }

-- `Push`
abbrev pub push : Packet → Layer → Packet
push p l = record { layers = p.layers ++ (l ∷ []) }

-- `Insert`
unfoldable pub insert_below : Packet → Layer → Packet
insert_below p l = record { layers = l ∷ p.layers }

-- The loop of `InsertAfter`; a missing protocol puts the layer on top.
unfoldable pub insert_after_loop : List Layer → String → Layer → List Layer
insert_after_loop [] proto new_layer = new_layer ∷ []
insert_after_loop (l ∷ ls) proto new_layer =
    if str_eq l.proto proto then l ∷ new_layer ∷ ls else l ∷ insert_after_loop ls proto new_layer

unfoldable pub insert_after : Packet → String → Layer → Packet
unfolding insert_after_loop
insert_after p proto l = record { layers = insert_after_loop p.layers proto l }

-- `GetLayer`
unfoldable pub first_layer : List Layer → String → Option Layer
first_layer [] proto = none
first_layer (l ∷ ls) proto = if str_eq l.proto proto then some l else first_layer ls proto

unfoldable pub get_layer : Packet → String → Option Layer
unfolding first_layer
get_layer p proto = first_layer p.layers proto

-- `GetLayers`
unfoldable pub matching_layers : List Layer → String → List Layer
matching_layers [] proto = []
matching_layers (l ∷ ls) proto =
    let rest = matching_layers ls proto in if str_eq l.proto proto then l ∷ rest else rest

unfoldable pub get_layers : Packet → String → List Layer
unfolding matching_layers
get_layers p proto = matching_layers p.layers proto

abbrev pub is_count : ℤ → ℕ → Bool
is_count (pos n) count = count == n
is_count (negsuc n) count = false

-- The loop of `GetNthLayer`, with `count` matches behind it; no count equals a negative index.
unfoldable pub nth_layer_loop : List Layer → String → ℤ → ℕ → Option Layer
nth_layer_loop [] proto n count = none
nth_layer_loop (l ∷ ls) proto n count =
    let rest = nth_layer_loop ls proto n (if str_eq l.proto proto then count + 1 else count) in
    if str_eq l.proto proto && is_count n count then some l else rest

unfoldable pub get_nth_layer : Packet → String → ℤ → Option Layer
unfolding nth_layer_loop
get_nth_layer p proto n = nth_layer_loop p.layers proto n 0

-- `HasLayer`
unfoldable pub has_layer : Packet → String → Bool
unfolding get_layer
has_layer p proto = is_some (get_layer p proto)

-- `First`, `Last` and `Len`
unfoldable pub first : Packet → Option Layer
first p = get_elem? p.layers 0

unfoldable pub last : Packet → Option Layer
last p = if length p.layers == 0 then none else get_elem? p.layers (length p.layers - 1)

abbrev pub len : Packet → ℕ
len p = length p.layers

-- The fields of one layer that `Validate` looks at: a conditional field that is active has a value.
unfoldable pub validate_fields : List Field → Values → Bool
validate_fields [] vals = true
validate_fields (f ∷ fs) vals =
    (if is_some f.active && holds f.active vals then is_some (lookup f.name vals) else true)
    && validate_fields fs vals

unfoldable pub validate_layers : List Layer → Bool
unfolding validate_fields
validate_layers [] = true
validate_layers (l ∷ ls) = validate_fields l.fields l.values && validate_layers ls

-- `Validate`
unfoldable pub validate : Packet → Outcome (Unit {0})
unfolding validate_layers
validate p = if validate_layers p.layers then ok tt else err bad_name

-- `BindingRule`; the registry is the list of rules in the order of their registration.
pub record BindingRule : Type 0 where
  pub upper_proto : String
  pub lower_proto : String
  pub field_name : String
  pub field_value : Value

-- `_ = lower.Set(…)`: an error leaves the layer as it is.
abbrev pub ignore_error : Layer → Outcome Layer → Layer
ignore_error l (ok l') = l'
ignore_error l _ = l

abbrev pub applies : BindingRule → String → String → Bool
applies r upper lower = str_eq r.upper_proto upper && str_eq r.lower_proto lower

-- `applyBindings`
unfoldable pub apply_bindings : List BindingRule → Layer → String → Layer
apply_bindings [] lower upper = lower
apply_bindings (r ∷ rules) lower upper =
    apply_bindings rules
      (if applies r upper lower.proto
        then ignore_error lower (set lower r.field_name r.field_value)
        else lower)
      upper

-- `Over` of a layer on another.
unfoldable pub over : List BindingRule → Layer → Layer → Packet
unfolding apply_bindings
over rules l upper = record { layers = apply_bindings rules l upper.proto ∷ upper ∷ [] }

-- A layer with the one above it, if there is one.
abbrev pub bind_below : List BindingRule → Layer → List Layer → Layer
bind_below rules l [] = l
bind_below rules l (u ∷ us) = apply_bindings rules l u.proto

-- `Sync`: each layer is bound to the one above it.
unfoldable pub sync : List BindingRule → List Layer → List Layer
unfolding apply_bindings
sync rules [] = []
sync rules (l ∷ ls) = bind_below rules l ls ∷ sync rules ls

-- `BuildHook`: from the packet, the layer's index, the bytes above it and its window of the buffer
-- to the packet as it is left, the window and the count of bytes.
abbrev pub Hook : Type 0
Hook = Packet → ℕ → List ℕ → List ℕ → Outcome (Packet × List ℕ × ℕ)

-- `lookupBuildHook`
abbrev pub Hooks : Type 0
Hooks = String → Option Hook
