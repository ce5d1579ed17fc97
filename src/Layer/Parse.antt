-- ===== src/Layer/Parse.antt =====
-- `ParseFields` against `SerializeFields`.
use native.Mathlib.Nat.{zero-add}
use goscapy.Base.{
  ℕ, ◌+◌, ◌≡◌, refl, ap, ◌∙◌, inl, inr, Bool, true, false, String, str_eq, str_eq_iff, List, [],
  ◌∷◌, ◌++◌, Option, none, some, le→ltb, if◌then◌else◌, length, Bool-cases, drop-append_length,
  length-append, append_assoc, ok, >>=-eq-ok, All, arith,
}
use goscapy.Values.{Value, Values, lookup, insert, lookup-insert, lookup-insert_self}
use goscapy.Fields.{Field}
use goscapy.Fields.RoundTrip.{IsCodecAt}
use goscapy.Layer.{
  Layer, is_active, present, pack_present, serialize_loop, serialize_fields, parse_field,
  parse_loop, parse_fields, ParseResult,
}

abbrev pub adopt_one : Option Value → String → Values → Values
adopt_one none name cur = cur
adopt_one (some v) name cur = insert name v cur

-- The values of a layer that has read the fields of another, whose values are `vals`.
unfoldable pub adopt : List Field → Values → Values → Values
adopt [] vals cur = cur
adopt (f ∷ fs) vals cur = adopt fs vals (adopt_one (present f vals) f.name cur)

-- The reader and the writer agree on which fields are there, each field that is there has a value,
-- and each is read back before the bytes that follow it.
abbrev pub Readable : List Field → Values → Values → List ℕ → Type 0
Readable [] vals cur rest = Unit
Readable (f ∷ fs) vals cur rest =
    (is_active f cur ≡ is_active f vals)
    × (is_active f vals ≡ true
        → (v : Value) × (lookup f.name vals ≡ some v)
          × ((after : List ℕ) → serialize_loop fs vals ≡ ok after → IsCodecAt f v (after ++ rest)))
    × Readable fs vals (adopt_one (present f vals) f.name cur) rest

-- One field, read at the end of `pre`.
parse_field_ok :
    (f : Field) (vals cur : Values) (pre b more : List ℕ)
    → is_active f cur ≡ is_active f vals
    → (is_active f vals ≡ true → (v : Value) × (lookup f.name vals ≡ some v) × IsCodecAt f v more)
    → pack_present (present f vals) f ≡ ok b
    → parse_field f cur (pre ++ (b ++ more)) (length pre)
      ≡ (adopt_one (present f vals) f.name cur, ok (length pre + length b))
unfolding parse_field
parse_field_ok f vals cur pre b more a c h = elim (Bool-cases (is_active f vals)) [
  | inl t ↦
      let (v, e, codec) = c t in
      rw (
        a,
        t,
        e,
        le→ltb (length (pre ++ (b ++ more))) (length pre)
            (omega (arith, length-append pre (b ++ more))),
        drop-append_length pre (b ++ more),
        codec b (rw (t, e) at h),
      )
  | inr n ↦
      let same : [] ≡ b = cc (rw n at h) in
      let len : length pre ≡ length pre + 0 = omega arith in rw (a, n, ← same, ← len)
]

-- One step of the loop, and the rest of it from behind the bytes that the step took.
parse_loop_step :
    (f : Field) (fs : List Field) (cur next out : Values) (pre b after rest : List ℕ)
    → parse_field f cur (pre ++ (b ++ (after ++ rest))) (length pre)
      ≡ (next, ok (length pre + length b))
    → parse_loop fs next ((pre ++ b) ++ (after ++ rest)) (length (pre ++ b))
      ≡ (out, ok (length (pre ++ b) + length after))
    → parse_loop (f ∷ fs) cur (pre ++ ((b ++ after) ++ rest)) (length pre)
      ≡ (out, ok (length pre + length (b ++ after)))
unfolding parse_loop
parse_loop_step f fs cur next out pre b after rest one others =
    let len : length (pre ++ b) ≡ length pre + length b = length-append pre b in
    let total : length (pre ++ b) + length after ≡ length pre + length (b ++ after) =
      omega (arith, length-append pre b, length-append b after) in
    rw (append_assoc b after rest, one, ← append_assoc pre b (after ++ rest), ← len, ← total) others

parse_loop_ok :
    (fs : List Field) (vals cur : Values) (pre bs rest : List ℕ)
    → Readable fs vals cur rest
    → serialize_loop fs vals ≡ ok bs
    → parse_loop fs cur (pre ++ (bs ++ rest)) (length pre)
      ≡ (adopt fs vals cur, ok (length pre + length bs))
unfolding serialize_loop parse_loop adopt
parse_loop_ok [] vals cur pre bs rest r h =
    let same : [] ≡ bs = cc in
    let len : length pre ≡ length pre + 0 = omega arith in rw (← same, ← len)
parse_loop_ok (f ∷ fs) vals cur pre bs rest (ra, rv, rs) h =
    let (b, hb, h') = >>=-eq-ok (pack_present (present f vals) f) _ h in
    let (after, hr, h'') = >>=-eq-ok (serialize_loop fs vals) _ h' in
    let whole : b ++ after ≡ bs = cc in
    rw (← whole) (
      parse_loop_step f fs cur (adopt_one (present f vals) f.name cur) _ pre b after rest
        (parse_field_ok f vals cur pre b (after ++ rest) ra
          (λ t. let (v, e, codec) = rv t in (v, e, codec after hr)) hb)
        (parse_loop_ok fs vals (adopt_one (present f vals) f.name cur) (pre ++ b) after rest rs hr))

-- A value that is already right stays so.
lookup-adopt_keep :
    (fs : List Field) (vals cur : Values) (k : String) (v : Value)
    → lookup k vals ≡ some v
    → lookup k cur ≡ some v
    → lookup k (adopt fs vals cur) ≡ some v
unfolding adopt
lookup-adopt_keep [] vals cur k v e h = h
lookup-adopt_keep (f ∷ fs) vals cur k v e h =
    lookup-adopt_keep fs vals (adopt_one (present f vals) f.name cur) k v e
      (one (is_active f vals) (lookup f.name vals) refl)
  where
    one :
        (a : Bool) (o : Option Value)
        → lookup f.name vals ≡ o
        → lookup k (adopt_one (if a then o else none) f.name cur) ≡ some v
    one false o q = h
    one true none q = h
    one true (some w) q = rw (lookup-insert f.name k w cur) (elim (Bool-cases (str_eq f.name k)) [
      | inl same ↦ rw (same, ← q, (str_eq_iff f.name k).0 same, e)
      | inr other ↦ rw other h
    ])

-- Every field that was written has its value in the layer that read it.
lookup-adopt :
    (fs : List Field) (vals cur : Values)
    → All
        (λ f. (v : Value) → present f vals ≡ some v → lookup f.name (adopt fs vals cur) ≡ some v)
        fs
unfolding adopt
lookup-adopt [] vals cur = tt
lookup-adopt (f ∷ fs) vals cur =
    (head (is_active f vals) (lookup f.name vals) refl, lookup-adopt fs vals _)
  where
    head :
        (a : Bool) (o : Option Value)
        → lookup f.name vals ≡ o
        → (v : Value) → (if a then o else none) ≡ some v
        → lookup f.name (adopt fs vals (adopt_one (if a then o else none) f.name cur)) ≡ some v
    head false o q v e = cc
    head true none q v e = cc
    head true (some w) q v e =
        let same : w ≡ v = cc in
        rw (← same) (
          lookup-adopt_keep fs vals (insert f.name w cur) f.name w q
            (lookup-insert_self f.name w cur))

-- A layer with the fields of `l`, given the bytes that `SerializeFields` makes of `l`, at least one,
-- and then any bytes `rest`, takes exactly those bytes, and then holds every value that was written.
-- It needs that the two agree on the conditional fields and that each field is read back before what
-- follows.
pub parse_fields-serialize_fields :
    (l target : Layer) (b : ℕ) (bs rest : List ℕ)
    → target.fields ≡ l.fields
    → Readable l.fields l.values target.values rest
    → serialize_fields l ≡ ok (b ∷ bs)
    → let (read, r) = parse_fields target ((b ∷ bs) ++ rest) in
      (r ≡ ok (length (b ∷ bs)))
      × All
          (λ f. (v : Value) → present f l.values ≡ some v → lookup f.name read.values ≡ some v)
          l.fields
unfolding serialize_fields parse_fields
parse_fields-serialize_fields l target b bs rest same r h =
    let run : parse_loop target.fields target.values ((b ∷ bs) ++ rest) 0
        ≡ (adopt l.fields l.values target.values, ok (length (b ∷ bs))) =
      rw same (
        parse_loop_ok l.fields l.values target.values [] (b ∷ bs) rest r h
        ∙ rw (zero-add (length (b ∷ bs)))) in
    (ap (λ (p : ParseResult). p.1) run, rw run (lookup-adopt l.fields l.values target.values))
