-- ===== src/Dissect.antt =====
-- pkg/packet/dissect.go: bytes are taken apart into a packet, layer by layer. The registry that the
-- protocols fill at startup is an argument.
pub mod Progress
mod Tests
use goscapy.Base.{
  ℕ, zero, suc, ◌+◌, ◌≡◌, String, str_eq, Bool, true, false, not, List, [], ◌∷◌, ◌++◌, Option, none,
  some, ltb, if◌then◌else◌, length, take, drop, ℤ, pos, negsuc, Outcome, ok, err, panic, stuck,
  ◌>>=◌, truncated, too_deep, empty_input, unsupported,
}
use goscapy.Values.{Value, bytes, to_uint64}
use goscapy.Layer.{Layer, get, set, parse_fields, is_some}
use goscapy.Packet.{Packet, ignore_error}

-- `dissectReg`: its maps are functions to `Option`. The maps from a key field's value to the next
-- protocol are one function of protocol and value, and a hook gives the layer as it leaves it.
pub record Registry : Type 0 where
  pub factories : String → Option Layer
  pub next_layer : String → ℕ → Option String
  pub key_field : String → Option String
  pub header_size_fn : String → Option (Layer → ℤ)
  pub tunnel_payload : String → Option String
  pub post_parse_hooks : String → Option (Layer → List ℕ → Outcome Layer)
  pub next_layer_fns : String → Option (Layer → List ℕ → String)

abbrev pub max_tunnel_depth : ℕ
max_tunnel_depth = 8

-- `makeRawLayer`
abbrev pub raw_layer : Option Layer → List ℕ → Layer
raw_layer (some l) payload = ignore_error l (set l "load" (bytes payload))
raw_layer none payload = record {
  proto = "Raw";
  fields = [];
  values = ("load", bytes payload) ∷ [];
}

unfoldable pub make_raw_layer : Registry → List ℕ → Layer
make_raw_layer reg payload = raw_layer (reg.factories "Raw") payload

abbrev pub or_empty : Option String → String
or_empty none = ""
or_empty (some s) = s

abbrev pub next_by_value : Registry → String → Outcome Value → String
next_by_value reg proto (ok v) = or_empty (reg.next_layer proto (to_uint64 v))
next_by_value reg proto _ = ""

abbrev pub next_by_field : Registry → String → Layer → Option String → String
next_by_field reg proto l none = ""
next_by_field reg proto l (some field) = next_by_value reg proto (get l field)

-- `resolveNextLayer`
unfoldable pub resolve_next_layer : Registry → String → Layer → String
resolve_next_layer reg proto l = next_by_field reg proto l (reg.key_field proto)

-- The next protocol: what the custom function says, unless that is the empty string.
abbrev pub next_proto :
    Registry → String → Layer → List ℕ → Option (Layer → List ℕ → String) → String
next_proto reg proto l remaining none = resolve_next_layer reg proto l
next_proto reg proto l remaining (some fn) =
    if str_eq (fn l remaining) "" then resolve_next_layer reg proto l else fn l remaining

-- The header's size: what the size function says, where that is positive, or else what was consumed.
abbrev pub size_or : ℤ → ℕ → ℕ
size_or (pos (suc n)) consumed = suc n
size_or (pos zero) consumed = consumed
size_or (negsuc n) consumed = consumed

abbrev pub header_size : Option (Layer → ℤ) → Layer → ℕ → ℕ
header_size none l consumed = consumed
header_size (some fn) l consumed = size_or (fn l) consumed

-- The hook gets the bytes between what was consumed and the header's end, if there are any.
abbrev pub post_parse :
    Option (Layer → List ℕ → Outcome Layer) → Layer → ℕ → ℕ → List ℕ → Outcome Layer
post_parse none l consumed size remaining = ok l
post_parse (some hook) l consumed size remaining =
    if ltb consumed size then hook l (drop consumed (take size remaining)) else ok l

-- How a round of the loop ends: with the packet's layers, with the next protocol, or in a tunnel.
pub data Round : Type 0 where
  leave : List Layer → List ℕ → Round
  follow : List Layer → List ℕ → String → Round
  tunnel : List Layer → List ℕ → String → Round

-- Where a round goes with a layer that is complete.
abbrev pub turn : Registry → String → List Layer → Layer → List ℕ → Option String → Round
turn reg proto layers l [] inner = leave (layers ++ (l ∷ [])) []
turn reg proto layers l (b ∷ rest) (some inner) = tunnel (layers ++ (l ∷ [])) (b ∷ rest) inner
turn reg proto layers l (b ∷ rest) none =
    follow (layers ++ (l ∷ [])) (b ∷ rest)
      (next_proto reg proto l (b ∷ rest) (reg.next_layer_fns proto))

-- A round once the factory's layer has parsed its fields.
abbrev pub round_sized : Registry → String → List Layer → List ℕ → Layer → ℕ → ℕ → Outcome Round
round_sized reg proto layers remaining l consumed size =
    if ltb (length remaining) size then err truncated else (do
      l' ← post_parse (reg.post_parse_hooks proto) l consumed size remaining
      ok (turn reg proto layers l' (drop size remaining) (reg.tunnel_payload proto)))

unfoldable pub round_parsed :
    Registry → String → List Layer → List ℕ → Layer → Outcome ℕ → Outcome Round
round_parsed reg proto layers remaining l parsed = do
  consumed ← parsed
  round_sized reg proto layers remaining l consumed
      (header_size (reg.header_size_fn proto) l consumed)

abbrev pub round_of : Registry → String → List Layer → List ℕ → Option Layer → Outcome Round
round_of reg proto layers remaining none = ok (leave layers remaining)
round_of reg proto layers remaining (some l) =
    let (l', parsed) = parse_fields l remaining in round_parsed reg proto layers remaining l' parsed

-- One round of the loop of `dissect`.
unfoldable pub round : Registry → String → List Layer → List ℕ → Outcome Round
unfolding round_parsed
round reg proto layers remaining =
    if str_eq proto ""
    then ok (leave layers remaining)
    else round_of reg proto layers remaining (reg.factories proto)

-- The bytes that are left become a Raw layer.
abbrev pub wrap : Registry → List Layer → List ℕ → List Layer
wrap reg layers [] = layers
wrap reg layers (b ∷ rest) = layers ++ (make_raw_layer reg (b ∷ rest) ∷ [])

abbrev pub Loop : Type 0
Loop = ℕ → List Layer → List ℕ → String → Outcome (List Layer)

-- What follows a round; `loop` is the loop with less fuel, and a tunnel is one level deeper.
abbrev pub proceed : Registry → ℕ → Loop → Outcome Round → Outcome (List Layer)
proceed reg depth loop (ok (leave layers rest)) = ok (wrap reg layers rest)
proceed reg depth loop (ok (follow layers rest proto)) = loop depth layers rest proto
proceed reg depth loop (ok (tunnel layers rest inner)) =
    if ltb max_tunnel_depth (depth + 1)
    then err too_deep
    else (do deeper ← loop (depth + 1) [] rest inner; ok (layers ++ deeper))
proceed reg depth loop (err e) = err e
proceed reg depth loop panic = panic
proceed reg depth loop stuck = stuck

-- The loop of `dissect`, and its calls of itself for tunnels, on one supply of fuel.
unfoldable pub dissect_loop : Registry → ℕ → Loop
unfolding round make_raw_layer
dissect_loop reg zero depth layers remaining proto = stuck
dissect_loop reg (suc fuel) depth layers remaining proto =
    proceed reg depth (dissect_loop reg fuel) (round reg proto layers remaining)

-- `Dissect`, with the protocol that `startFn` finds.
unfoldable pub dissect : Registry → (List ℕ → Outcome String) → List ℕ → Outcome Packet
unfolding dissect_loop
dissect reg start_fn [] = err empty_input
dissect reg start_fn (b ∷ raw) = do
  proto ← start_fn (b ∷ raw)
  layers ← dissect_loop reg (length (b ∷ raw) + 1) 0 [] (b ∷ raw) proto
  ok (record { layers = layers })

-- `DissectByProto`
unfoldable pub dissect_by_proto : Registry → String → List ℕ → Outcome Packet
unfolding dissect_loop
dissect_by_proto reg proto [] = err empty_input
dissect_by_proto reg proto (b ∷ raw) =
    if not (is_some (reg.factories proto)) then err unsupported else (do
      layers ← dissect_loop reg (length (b ∷ raw) + 1) 0 [] (b ∷ raw) proto
      ok (record { layers = layers }))
