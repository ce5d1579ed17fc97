-- ===== src/Packet/Tests.antt =====
-- Runs of a packet's operations, and their theorems at concrete inputs.
use goscapy.Base.{
  ℕ, zero, suc, ◌≡◌, refl, true, List, [], ◌∷◌, ◌++◌, none, some, ok, err, bad_length, bad_index,
  str_eq, arith, put_be, pos, negsuc, Error, get_elem?, drop, replicate, map,
}
use goscapy.Values.{u8, u16, lookup, insert}
use goscapy.Fields.Ints.{short_field, byte_field}
use goscapy.Fields.Laws.Standard.{is_short, is_byte, Standard-IsLawfulAt}
use goscapy.Layer.{Layer, set, serialize_fields, wire_size}
use goscapy.Packet.{
  Packet, insert_after, get_layer, get_layers, get_nth_layer, BindingRule, apply_bindings, sync,
  Hook, Hooks,
}
use goscapy.Packet.Build.{build, build_from, build_from_into, build_phases, sum}
use goscapy.Packet.Build.Fill.{
  IsWell, concatenated, pieces, build_from-concatenated, build_from-hook_below_hook,
}
use goscapy.Packet.Stack.{get_nth_layer-get_layers, insert_after_lem}

-- A layer with one field of two bytes, and one with a field of one byte.
abbrev eth : ℕ → Layer
eth n = record { proto = "Eth"; fields = short_field "type" 0 ∷ []; values = ("type", u16 n) ∷ [] }

abbrev arp : Layer
arp = record { proto = "ARP"; fields = byte_field "op" 1 ∷ []; values = ("op", u8 7) ∷ [] }

abbrev two : Packet
two = record { layers = eth 0 ∷ arp ∷ [] }

abbrev rules : List BindingRule
rules =
    record {
      upper_proto = "ARP";
      lower_proto = "Eth";
      field_name = "type";
      field_value = u16 0x0806;
    }
    ∷ []

abbrev no_hooks : Hooks
no_hooks proto = none

-- A hook that fails when the byte above it is 0, and writes 5 otherwise.
abbrev picky : Hook
picky p i [] window = ok (p, 5 ∷ [], 1)
picky p i (zero ∷ upper) window = err bad_length
picky p i (suc n ∷ upper) window = ok (p, 5 ∷ [], 1)

abbrev hooks : Hooks
hooks proto = some picky

abbrev synced_layers : List Layer
synced_layers = eth 0x0806 ∷ arp ∷ []

rules_applied : sync rules two.layers ≡ synced_layers
unfolding sync apply_bindings set lookup insert short_field byte_field
rules_applied = refl

two_bytes : concatenated synced_layers ≡ ok (8 ∷ 6 ∷ 7 ∷ [])
unfolding concatenated serialize_fields lookup short_field byte_field put_be
two_bytes = refl

eth-IsWell : IsWell (eth 0x0806)
unfolding lookup short_field
eth-IsWell = ((λ v e. Standard-IsLawfulAt (is_short "type" 0), tt), (λ t. (u16 0x0806, refl), tt))

arp-IsWell : IsWell arp
unfolding lookup byte_field
arp-IsWell = ((λ v e. Standard-IsLawfulAt (is_byte "op" 1), tt), (λ t. (u8 7, refl), tt))

build_from-concatenated_example :
    (build_from rules no_hooks two (pos 0) ≡ ok (record { layers = synced_layers }, 8 ∷ 6 ∷ 7 ∷ []))
    × (build_from_into rules no_hooks two (pos 0) (1 ∷ 2 ∷ 3 ∷ 4 ∷ []) (5 ∷ [])
        ≡ ok (record { layers = synced_layers }, 8 ∷ 6 ∷ 7 ∷ []))
unfolding sync apply_bindings set lookup insert short_field byte_field
build_from-concatenated_example =
    build_from-concatenated rules no_hooks two 0 (1 ∷ 2 ∷ 3 ∷ 4 ∷ []) (5 ∷ []) (8 ∷ 6 ∷ 7 ∷ [])
      (omega arith) (eth-IsWell, (arp-IsWell, tt)) (refl, (refl, tt)) two_bytes (omega arith)

abbrev hooked : List Layer
hooked = arp ∷ arp ∷ []

hooked-pieces : pieces hooks hooked (replicate (sum (map wire_size hooked)) 0) ≡ ok (0 ∷ 0 ∷ [])
unfolding pieces sum wire_size lookup byte_field
hooked-pieces = refl

hooked-sync : drop 0 (sync [] hooked) ≡ hooked
unfolding sync apply_bindings
hooked-sync = refl

build_from-hook_below_hook_example :
    (above : List ℕ) × ((e : Error)
      → picky
          (record { layers = sync [] hooked })
          0
          (replicate (wire_size arp) 0 ++ above)
          (replicate (wire_size arp) 0)
        ≡ err e
      → build_from [] hooks (record { layers = hooked }) (pos 0) ≡ err e)
build_from-hook_below_hook_example =
    build_from-hook_below_hook [] hooks (record { layers = hooked }) 0 arp arp [] picky picky
      (0 ∷ 0 ∷ []) (omega arith) hooked-sync (arp-IsWell, (arp-IsWell, tt)) refl refl hooked-pieces

-- The upper hook writes 5, but the lower one has been shown 0 in its place.
picky_fails : build [] hooks (record { layers = hooked }) ≡ err bad_length
unfolding build build_phases sync apply_bindings wire_size lookup byte_field
picky_fails = refl

one_hook : build [] hooks (record { layers = arp ∷ [] }) ≡ ok (record { layers = arp ∷ [] }, 5 ∷ [])
unfolding build build_phases sync apply_bindings wire_size lookup byte_field
one_hook = refl

bad_index_is_refused : build_from [] no_hooks two (negsuc 0) ≡ err bad_index
unfolding build_from
bad_index_is_refused = refl

get_nth_layer-get_layers_example :
    (get_nth_layer two "ARP" (pos 0) ≡ get_elem? (get_layers two "ARP") 0)
    × (get_layer two "ARP" ≡ get_elem? (get_layers two "ARP") 0)
    × (get_nth_layer two "ARP" (negsuc 0) ≡ none)
get_nth_layer-get_layers_example = get_nth_layer-get_layers two "ARP" 0

insert_after_lem_example :
    (str_eq arp.proto "ARP" ≡ true
      → insert_after (record { layers = (eth 0 ∷ []) ++ (arp ∷ eth 1 ∷ []) }) "ARP" (eth 2)
        ≡ record { layers = (eth 0 ∷ []) ++ (arp ∷ eth 2 ∷ eth 1 ∷ []) })
    × (insert_after (record { layers = eth 0 ∷ [] }) "ARP" (eth 2)
        ≡ record { layers = (eth 0 ∷ []) ++ (eth 2 ∷ []) })
insert_after_lem_example = insert_after_lem (eth 0 ∷ []) (eth 1 ∷ []) arp (eth 2) "ARP" (refl, tt)
