-- ===== src/Protocols/Registrations/Resolve.antt =====
-- The registrations of pkg/layers/init.go: the next layer that dissection finds, against the
-- binding that building wrote.
use goscapy.Base.{
  str_eq_iff, map, if◌then◌else◌, Bool-cases, get_elem?, ok, ℕ, zero, suc, String, str_eq_iff, ◌≡◌,
  refl, sym, ap, ◌∙◌, inl, inr, true, Option, some, List, [], ◌∷◌, map,
}
use goscapy.Values.{to_uint64}
use goscapy.Dissect.{Registry, resolve_next_layer, or_empty, next_by_value, next_by_field}
use goscapy.Protocols.Registrations.{
  register_heuristic, register_all, core_bindings, core_registrations,
}
use goscapy.Layer.{Layer, get, set as set_value}
use goscapy.Layer.State.{is_known, get-set}
use goscapy.Packet.{BindingRule, apply_bindings, applies, ignore_error}

-- The rules that are for one pair of protocols.
matching : List BindingRule → (upper lower : String) → List BindingRule
matching [] upper lower = []
matching (r ∷ rules) upper lower =
    let rest = matching rules upper lower in if applies r upper lower then r ∷ rest else rest

set_rule : BindingRule → Layer → Layer
set_rule r l = ignore_error l (set_value l r.field_name r.field_value)

set_rules : List BindingRule → Layer → Layer
unfolding set_rule
set_rules [] l = l
set_rules (r ∷ rules) l = set_rules rules (set_rule r l)

-- Setting a field keeps the protocol.
set_rule-proto : (r : BindingRule) (l : Layer) → (set_rule r l).proto ≡ l.proto
unfolding set_rule
set_rule-proto r l = elim (Bool-cases (is_known l r.field_name)) [
  | inr unknown ↦
      ap (λ o. (ignore_error l o).proto) ((get-set l r.field_name r.field_value).0 unknown)
  | inl known ↦
      let (l', done, same, fields, read) = (get-set l r.field_name r.field_value).1 known in
      ap (λ o. (ignore_error l o).proto) done ∙ same
]

apply_bindings-matching :
    (rules : List BindingRule) (l : Layer) (upper : String)
    → apply_bindings rules l upper ≡ set_rules (matching rules upper l.proto) l
unfolding apply_bindings matching set_rules
apply_bindings-matching [] l upper = refl
apply_bindings-matching (r ∷ rules) l upper = elim (Bool-cases (applies r upper l.proto)) [
  | inl meant ↦ rw meant (
      apply_bindings-matching rules (set_rule r l) upper
      ∙ ap (λ q. set_rules (matching rules upper q) (set_rule r l)) (set_rule-proto r l))
  | inr other ↦ rw other (apply_bindings-matching rules l upper)
]

-- What the registrations hold for a rule: the only rule for its protocols, the key field and the
-- next layer for its value.
Entry : Type 0
Entry = List BindingRule × Option String × Option String

found_for : Registry → List BindingRule → BindingRule → Entry
unfolding Entry to_uint64 matching
found_for reg rules r = (
  matching rules r.upper_proto r.lower_proto,
  reg.key_field r.lower_proto,
  reg.next_layer r.lower_proto (to_uint64 r.field_value),
)

wanted_for : BindingRule → Entry
unfolding Entry
wanted_for r = (r ∷ [], some r.field_name, some r.upper_proto)

core_entries :
    (reg : Registry)
    → map (found_for (register_all core_registrations reg) core_bindings) core_bindings
      ≡ map wanted_for core_bindings
unfolding found_for wanted_for register_all register_heuristic
core_entries reg = refl

map-eq-at :
    {A B : Type 0} (f g : A → B) (xs : List A) (k : ℕ) (x : A)
    → map f xs ≡ map g xs
    → get_elem? xs k ≡ some x
    → f x ≡ g x
map-eq-at f g [] k x h found = cc
map-eq-at f g (y ∷ ys) zero x h found =
    let same : y ≡ x = cc in let heads : f y ≡ g y = cc in ap f (sym same) ∙ heads ∙ ap g same
map-eq-at f g (y ∷ ys) (suc k) x h found =
    let tails : map f ys ≡ map g ys = cc in map-eq-at f g ys k x tails found

resolve_bound :
    (reg : Registry) (r : BindingRule) (l : Layer)
    → is_known l r.field_name ≡ true
    → reg.key_field r.lower_proto ≡ some r.field_name
    → reg.next_layer r.lower_proto (to_uint64 r.field_value) ≡ some r.upper_proto
    → resolve_next_layer reg r.lower_proto (set_rule r l) ≡ r.upper_proto
unfolding resolve_next_layer set_rule
resolve_bound reg r l known key next =
    let (l', done, same, fields, read) = (get-set l r.field_name r.field_value).1 known in
    let value : get l' r.field_name ≡ ok r.field_value =
      read r.field_name ∙ rw ((str_eq_iff r.field_name r.field_name).1 refl) refl in
    ap (λ o. next_by_field reg r.lower_proto (ignore_error l o) (reg.key_field r.lower_proto)) done
    ∙ ap (next_by_field reg r.lower_proto l') key
    ∙ ap (next_by_value reg r.lower_proto) value
    ∙ ap or_empty next

-- Whatever was registered before, after the core protocols' registrations: when a layer that knows
-- the field of a registered binding rule is bound below the rule's upper protocol, as building does,
-- the next layer that dissection finds from it is that upper protocol.
pub apply_bindings-resolved :
    (reg : Registry) (k : ℕ) (r : BindingRule) (l : Layer)
    → get_elem? core_bindings k ≡ some r
    → l.proto ≡ r.lower_proto
    → is_known l r.field_name ≡ true
    → resolve_next_layer
        (register_all core_registrations reg)
        r.lower_proto
        (apply_bindings core_bindings l r.upper_proto)
      ≡ r.upper_proto
unfolding found_for wanted_for Entry set_rules
apply_bindings-resolved reg k r l registered proto known =
    let full = register_all core_registrations reg in
    let entry =
      map-eq-at (found_for full core_bindings) wanted_for core_bindings k r (core_entries reg)
        registered in
    let only : matching core_bindings r.upper_proto r.lower_proto ≡ r ∷ [] = ap (λ e. e.0) entry in
    ap (resolve_next_layer full r.lower_proto) (
      apply_bindings-matching core_bindings l r.upper_proto
      ∙ ap (λ q. set_rules (matching core_bindings r.upper_proto q) l) proto
      ∙ ap (λ rules. set_rules rules l) only)
    ∙ resolve_bound full r l known (ap (λ e. e.1) entry) (ap (λ e. e.2) entry)

-- With the core protocols' registrations, the next layer of a UDP or TCP layer hangs on its source
-- port alone: the destination port is not read, although heuristics are registered for it.
pub core_registrations-by_sport :
    (reg : Registry) (l : Layer)
    → (resolve_next_layer (register_all core_registrations reg) "UDP" l
        ≡ next_by_value (register_all core_registrations reg) "UDP" (get l "sport"))
      × (resolve_next_layer (register_all core_registrations reg) "TCP" l
          ≡ next_by_value (register_all core_registrations reg) "TCP" (get l "sport"))
unfolding resolve_next_layer register_all register_heuristic
core_registrations-by_sport reg l = (refl, refl)
