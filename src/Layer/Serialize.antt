-- ===== src/Layer/Serialize.antt =====
-- `SerializeInto` and `WireSize` against `SerializeFields`.
use goscapy.Base.{
  ℕ, ◌+◌, ◌≤◌, ◌≡◌, refl, ap, sym, ◌∙◌, Bool, true, false, List, [], ◌∷◌, ◌++◌, Option, none, some,
  le→ltb, if◌then◌else◌, length, drop, copy, length-drop, ap₂, take-append_length,
  drop-append_length, length-append, append_assoc, append-nil, copy-fits, ok, >>=-eq-ok, All, arith,
}
use native.Mathlib.Nat.{zero-add}
use goscapy.Values.{Value, Values, lookup}
use goscapy.Fields.{Field, Written}
use goscapy.Fields.Texts.{promoted}
use goscapy.Fields.Laws.{IsLawfulAt}
use goscapy.Layer.{
  Layer, is_active, present, pack_present, put_present, serialize_loop, serialize_fields, put_field,
  serialize_into_loop, serialize_into, share, wire_size_loop, wire_size,
}

-- Each field is lawful at the value that it has.
abbrev pub IsLawful : List Field → Values → Type 0
IsLawful fs vals = All (λ f. (v : Value) → present f vals ≡ some v → IsLawfulAt f v) fs

-- Each active field has a value.
abbrev pub IsComplete : List Field → Values → Type 0
IsComplete fs vals =
    All (λ f. is_active f vals ≡ true → (v : Value) × (lookup f.name vals ≡ some v)) fs

put_field_ok :
    (o : Option (List ℕ → Value → Written)) (f : Field) (pre buf bs : List ℕ) (v : Value)
    → promoted o f.pack buf v ≡ ok (copy buf bs, length bs)
    → f.pack v ≡ ok bs
    → put_field o f (pre ++ buf) (length pre) v ≡ ok (pre ++ copy buf bs, length pre + length bs)
unfolding put_field
put_field_ok (some into) f pre buf bs v e p = rw (
  le→ltb (length (pre ++ buf)) (length pre) (omega (arith, length-append pre buf)),
  drop-append_length pre buf,
  take-append_length pre buf,
  e,
)
put_field_ok none f pre buf bs v e p = rw (
  p,
  le→ltb (length (pre ++ buf)) (length pre) (omega (arith, length-append pre buf)),
  drop-append_length pre buf,
  take-append_length pre buf,
)

copy-nil : (buf : List ℕ) → copy buf [] ≡ buf
copy-nil [] = refl
copy-nil (b ∷ buf) = refl

nothing_put :
    (pre buf bs : List ℕ)
    → ok [] ≡ ok bs
    → ◌≡◌ {A = Written}
        (ok (pre ++ buf, length pre))
        (ok (pre ++ copy buf bs, length pre + length bs))
nothing_put pre buf bs h =
    let same : [] ≡ bs = cc in
    let len : length pre ≡ length pre + 0 = omega arith in rw (← same, copy-nil buf, ← len)

put_present_ok :
    (o : Option Value) (f : Field) (pre buf bs : List ℕ)
    → ((v : Value) → o ≡ some v → IsLawfulAt f v)
    → pack_present o f ≡ ok bs
    → length bs ≤ length buf
    → put_present o f (pre ++ buf) (length pre) ≡ ok (pre ++ copy buf bs, length pre + length bs)
put_present_ok none f pre buf bs w h fits = nothing_put pre buf bs h
put_present_ok (some v) f pre buf bs w h fits =
    put_field_ok f.pack_into f pre buf bs v ((w v refl).into_ok bs buf h fits) h

-- Writing one part after another into a buffer that holds both.
copy-append :
    (pre buf b rest : List ℕ)
    → length b + length rest ≤ length buf
    → (pre ++ b) ++ copy (drop (length b) buf) rest ≡ pre ++ copy buf (b ++ rest)
copy-append pre buf [] rest h = rw append-nil
copy-append pre [] (x ∷ b) rest h = absurd (omega arith)
copy-append pre (d ∷ buf) (x ∷ b) rest h =
    ap (λ (t : List ℕ). t ++ copy (drop (length b) buf) rest) (sym (append_assoc pre (x ∷ []) b))
    ∙ copy-append (pre ++ (x ∷ [])) buf b rest (omega arith)
    ∙ append_assoc pre (x ∷ []) (copy buf (b ++ rest))

serialize_into_loop_ok :
    (fs : List Field) (vals : Values) (pre buf bs : List ℕ)
    → IsLawful fs vals
    → serialize_loop fs vals ≡ ok bs
    → length bs ≤ length buf
    → serialize_into_loop fs vals (pre ++ buf) (length pre)
      ≡ ok (pre ++ copy buf bs, length pre + length bs)
unfolding serialize_loop serialize_into_loop
serialize_into_loop_ok [] vals pre buf bs w h fits = nothing_put pre buf bs h
serialize_into_loop_ok (f ∷ fs) vals pre buf bs (wf, w) h fits =
    let (b, hb, h') = >>=-eq-ok (pack_present (present f vals) f) _ h in
    let (rest, hr, h'') = >>=-eq-ok (serialize_loop fs vals) _ h' in
    let whole : b ++ rest ≡ bs = cc in
    let len : length b + length rest ≤ length buf =
      omega (arith, length-append b rest, ap (λ (t : List ℕ). length t) whole) in
    rw (put_present_ok (present f vals) f pre buf b wf hb (omega arith)) (
      shift pre buf b (length-append pre b) (omega arith) (
        serialize_into_loop_ok fs vals (pre ++ b) (drop (length b) buf) rest w hr
          (omega (arith, length-drop (length b) buf))
        ∙ ap₂ (λ (t : List ℕ) (n : ℕ). ok (t, n))
            (copy-append pre buf b rest len ∙ ap (λ t. pre ++ copy buf t) whole)
            (omega (
              arith,
              length-append pre b,
              length-append b rest,
              ap (λ (t : List ℕ). length t) whole,
            ))))
  where
    shift :
        (pre buf b : List ℕ) {goal : Written}
        → length (pre ++ b) ≡ length pre + length b
        → length b ≤ length buf
        → serialize_into_loop fs vals ((pre ++ b) ++ drop (length b) buf) (length (pre ++ b)) ≡ goal
        → serialize_into_loop fs vals (pre ++ copy buf b) (length pre + length b) ≡ goal
    shift pre buf b e h k =
        rw (copy-fits buf b h, ← append_assoc pre b (drop (length b) buf), ← e) k

-- If every field is lawful at its value, `SerializeInto` writes into any buffer that has room the
-- bytes of `SerializeFields`, returns their number, and leaves the rest of the buffer alone.
pub serialize_into-serialize_fields :
    (l : Layer) (buf bs : List ℕ)
    → IsLawful l.fields l.values
    → serialize_fields l ≡ ok bs
    → length bs ≤ length buf
    → serialize_into l buf ≡ ok (bs ++ drop (length bs) buf, length bs)
unfolding serialize_fields serialize_into
serialize_into-serialize_fields l buf bs w h fits =
    serialize_into_loop_ok l.fields l.values [] buf bs w h fits
    ∙ rw (copy-fits buf bs fits, zero-add)

wire_size_loop_eq :
    (fs : List Field) (vals : Values) (bs : List ℕ)
    → IsLawful fs vals
    → IsComplete fs vals
    → serialize_loop fs vals ≡ ok bs
    → wire_size_loop fs vals ≡ length bs
unfolding serialize_loop wire_size_loop
wire_size_loop_eq [] vals bs w c h = let same : [] ≡ bs = cc in rw (← same)
wire_size_loop_eq (f ∷ fs) vals bs (wf, w) (cf, c) h =
    let (b, hb, h') = >>=-eq-ok (pack_present (present f vals) f) _ h in
    let (rest, hr, h'') = >>=-eq-ok (serialize_loop fs vals) _ h' in
    let whole : b ++ rest ≡ bs = cc in
    omega (
      arith,
      ap (λ (t : List ℕ). length t) whole,
      length-append b rest,
      wire_size_loop_eq fs vals rest w c hr,
      one f (is_active f vals) (lookup f.name vals) b wf cf hb,
    )
  where
    one :
        (f : Field) (a : Bool) (o : Option Value) (b : List ℕ)
        → ((v : Value) → (if a then o else none) ≡ some v → IsLawfulAt f v)
        → (a ≡ true → (v : Value) × (o ≡ some v))
        → pack_present (if a then o else none) f ≡ ok b
        → (if a then share f o else 0) ≡ length b
    one f false o b w c h = let same : [] ≡ b = cc in rw (← same)
    one f true none b w c h = let (v, e) = c refl in cc
    one f true (some v) b w c h = (w v refl).measured b h

-- If every field is lawful at its value and every active field has a value, `WireSize` is the number
-- of bytes of `SerializeFields`.
pub wire_size-serialize_fields :
    (l : Layer) (bs : List ℕ)
    → IsLawful l.fields l.values
    → IsComplete l.fields l.values
    → serialize_fields l ≡ ok bs
    → wire_size l ≡ length bs
unfolding serialize_fields wire_size
wire_size-serialize_fields l bs w c h = wire_size_loop_eq l.fields l.values bs w c h
