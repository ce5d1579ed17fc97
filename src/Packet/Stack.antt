-- ===== src/Packet/Stack.antt =====
-- The stack operations of a packet: finding layers and putting a layer into the stack.
use native.Mathlib.Nat.{zero-add}
use goscapy.Base.{
  ℕ, zero, suc, ◌+◌, ◌≡◌, refl, ap, sym, ◌∙◌, inl, inr, String, str_eq, true, false, List, [], ◌∷◌,
  ◌++◌, none, get_elem?, pos, negsuc, All, arith, Bool-cases,
}
use goscapy.Layer.{Layer}
use goscapy.Packet.{
  Packet, insert_after_loop, insert_after, first_layer, get_layer, matching_layers, get_layers,
  nth_layer_loop, get_nth_layer,
}

nth_layer_loop-matching :
    (ls : List Layer) (proto : String) (n count : ℕ)
    → nth_layer_loop ls proto (pos (count + n)) count ≡ get_elem? (matching_layers ls proto) n
unfolding nth_layer_loop matching_layers
nth_layer_loop-matching [] proto n count = refl
nth_layer_loop-matching (l ∷ ls) proto zero count =
    ground (arith, nth_layer_loop-matching ls proto zero count)
nth_layer_loop-matching (l ∷ ls) proto (suc n) count =
    let e : count + suc n ≡ count + 1 + n = omega arith in
    elim (Bool-cases (str_eq l.proto proto)) [
      | inl same ↦ rw (same, e) (ground (arith, nth_layer_loop-matching ls proto n (count + 1)))
      | inr other ↦ rw other (nth_layer_loop-matching ls proto (suc n) count)
    ]

never :
    (ls : List Layer) (proto : String) (n count : ℕ)
    → nth_layer_loop ls proto (negsuc n) count ≡ none
unfolding nth_layer_loop
never [] proto n count = refl
never (l ∷ ls) proto n count = elim (Bool-cases (str_eq l.proto proto)) [
  | inl same ↦ rw same (never ls proto n (count + 1))
  | inr other ↦ rw other (never ls proto n count)
]

first_layer-matching :
    (ls : List Layer) (proto : String)
    → first_layer ls proto ≡ get_elem? (matching_layers ls proto) 0
unfolding first_layer matching_layers
first_layer-matching [] proto = refl
first_layer-matching (l ∷ ls) proto = elim (Bool-cases (str_eq l.proto proto)) [
  | inl same ↦ rw same
  | inr other ↦ rw other (first_layer-matching ls proto)
]

-- `GetNthLayer` with an index is the element of `GetLayers` at that index, if there is one, and none
-- for a negative index; `GetLayer` is the element at 0.
pub get_nth_layer-get_layers :
    (p : Packet) (proto : String) (n : ℕ)
    → (get_nth_layer p proto (pos n) ≡ get_elem? (get_layers p proto) n)
      × (get_layer p proto ≡ get_elem? (get_layers p proto) 0)
      × (get_nth_layer p proto (negsuc n) ≡ none)
unfolding get_nth_layer get_layers get_layer
get_nth_layer-get_layers p proto n = (
  ap (λ (k : ℕ). nth_layer_loop p.layers proto (pos k) 0) (sym (zero-add n))
      ∙ nth_layer_loop-matching p.layers proto n 0,
  first_layer-matching p.layers proto,
  never p.layers proto n 0,
)

-- No layer of the list has the protocol.
abbrev pub Lacks : String → List Layer → Type 0
Lacks proto ls = All (λ l. str_eq l.proto proto ≡ false) ls

insert_after_loop_found :
    (below : List Layer) (l : Layer) (above : List Layer) (proto : String) (x : Layer)
    → Lacks proto below
    → str_eq l.proto proto ≡ true
    → insert_after_loop (below ++ (l ∷ above)) proto x ≡ below ++ (l ∷ x ∷ above)
unfolding insert_after_loop
insert_after_loop_found [] l above proto x h e = rw e
insert_after_loop_found (b ∷ below) l above proto x (hb, h) e =
    rw hb (ap (λ t. b ∷ t) (insert_after_loop_found below l above proto x h e))

insert_after_loop_missing :
    (ls : List Layer) (proto : String) (x : Layer)
    → Lacks proto ls
    → insert_after_loop ls proto x ≡ ls ++ (x ∷ [])
unfolding insert_after_loop
insert_after_loop_missing [] proto x h = refl
insert_after_loop_missing (l ∷ ls) proto x (hl, h) =
    rw hl (ap (λ t. l ∷ t) (insert_after_loop_missing ls proto x h))

-- `InsertAfter` puts the layer right above the first layer of the protocol, and on top of a packet
-- that has none; all other layers keep their order.
pub insert_after_lem :
    (below above : List Layer) (l x : Layer) (proto : String)
    → Lacks proto below
    → (str_eq l.proto proto ≡ true
        → insert_after (record { layers = below ++ (l ∷ above) }) proto x
          ≡ record { layers = below ++ (l ∷ x ∷ above) })
      × (insert_after (record { layers = below }) proto x ≡ record { layers = below ++ (x ∷ []) })
unfolding insert_after
insert_after_lem below above l x proto h = (
  λ e.
      ap (λ (t : List Layer). record { layers = t })
        (insert_after_loop_found below l above proto x h e),
  ap (λ (t : List Layer). record { layers = t }) (insert_after_loop_missing below proto x h),
)
