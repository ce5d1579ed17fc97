-- ===== src/Layer/State.antt =====
-- `Get` and `Set` as a map's operations, and the values that `NewLayer` starts with.
use goscapy.Base.{
  ◌≡◌, refl, ap, sym, ◌∙◌, inl, inr, Bool, true, false, ◌||◌, String, str_eq, List, [], ◌∷◌, none,
  some, if◌then◌else◌, Bool-cases, subst, ok, err, bad_name, All, arith,
}
use goscapy.Values.{Value, Values, lookup, insert, lookup-insert, lookup-insert_self}
use goscapy.Fields.{Field}
use goscapy.Layer.{
  Layer, is_active, is_some, or_error, get, set, find_field, new_layer, default_values,
}

-- A name that the layer knows: it has a value, or a field definition.
abbrev pub is_known : Layer → String → Bool
is_known l name = is_some (lookup name l.values) || is_some (find_field l.fields name)

set_known :
    (l : Layer) (name : String) (v : Value)
    → is_known l name ≡ true
    → set l name v ≡ ok (record l { values = insert name v l.values })
unfolding set
set_known l name v h = ground arith

set_unknown :
    (l : Layer) (name : String) (v : Value) → is_known l name ≡ false → set l name v ≡ err bad_name
unfolding set
set_unknown l name v h = ground arith

get-insert :
    (l : Layer) (name k : String) (v : Value)
    → get (record l { values = insert name v l.values }) k
      ≡ (if str_eq name k then ok v else get l k)
unfolding get
get-insert l name k v =
    ap (or_error bad_name) (lookup-insert name k v l.values)
    ∙ elim (Bool-cases (str_eq name k)) [ inl same ↦ rw same | inr other ↦ rw other ]

-- `Set` fails exactly on a name that has neither a value nor a field definition. Where it succeeds,
-- `Get` gives the new value at that name and what it gave before at any other, and the protocol and
-- the field definitions stay.
pub get-set :
    (l : Layer) (name : String) (v : Value)
    → (is_known l name ≡ false → set l name v ≡ err bad_name)
      × (is_known l name ≡ true
          → (l' : Layer) × (set l name v ≡ ok l')
            × (l'.proto ≡ l.proto)
            × (l'.fields ≡ l.fields)
            × ((k : String) → get l' k ≡ (if str_eq name k then ok v else get l k)))
get-set l name v = (
  set_unknown l name v,
  λ h. (
    record l { values = insert name v l.values },
    set_known l name v h,
    refl,
    refl,
    λ k. get-insert l name k v,
  ),
)

-- No field of the list has the name.
abbrev Fresh : String → List Field → Type 0
Fresh name fs = All (λ f. str_eq f.name name ≡ false) fs

-- No field has a condition, and no two have one name.
abbrev pub IsSimple : List Field → Type 0
IsSimple [] = Unit
IsSimple (f ∷ fs) = (f.active ≡ none) × Fresh f.name fs × IsSimple fs

lookup-default_values :
    (fs : List Field) (vals : Values) (k : String)
    → Fresh k fs
    → lookup k (default_values fs vals) ≡ lookup k vals
unfolding default_values
lookup-default_values [] vals k h = refl
lookup-default_values (f ∷ fs) vals k (hf, h) = elim (Bool-cases (is_active f vals)) [
  | inl t ↦ rw t (
      lookup-default_values fs (insert f.name f.def_val vals) k h
      ∙ rw (lookup-insert f.name k f.def_val vals, hf))
  | inr n ↦ rw n (lookup-default_values fs vals k h)
]

default_values_plain :
    (f : Field) (fs : List Field) (vals : Values)
    → f.active ≡ none
    → default_values (f ∷ fs) vals ≡ default_values fs (insert f.name f.def_val vals)
unfolding default_values
default_values_plain f fs vals h = rw h

default_values-All :
    (fs : List Field) (vals : Values)
    → IsSimple fs
    → All (λ f. lookup f.name (default_values fs vals) ≡ some f.def_val) fs
default_values-All [] vals h = tt
default_values-All (f ∷ fs) vals (plain, fresh, h) =
    let next : Values = insert f.name f.def_val vals in
    subst (λ (m : Values). All (λ g. lookup g.name m ≡ some g.def_val) (f ∷ fs))
      (sym (default_values_plain f fs vals plain))
      (
        lookup-default_values fs next f.name fresh ∙ lookup-insert_self f.name f.def_val vals,
        default_values-All fs next h,
      )

-- A new layer whose fields are unconditional and have different names gives for each field its
-- default value.
pub get-new_layer :
    (proto : String) (fs : List Field)
    → IsSimple fs
    → All (λ f. get (new_layer proto fs) f.name ≡ ok f.def_val) fs
unfolding get new_layer
get-new_layer proto fs h = each fs (default_values-All fs [] h)
  where
    each :
        (gs : List Field)
        → All (λ f. lookup f.name (default_values fs []) ≡ some f.def_val) gs
        → All (λ f. or_error bad_name (lookup f.name (default_values fs [])) ≡ ok f.def_val) gs
    each [] t = tt
    each (g ∷ gs) (e, t) = (rw e, each gs t)
