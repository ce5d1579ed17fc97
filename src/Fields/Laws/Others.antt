-- ===== src/Fields/Laws/Others.antt =====
-- The address, text, payload and conditional fields: `Pack` against `PackInto` and `FixedSize`.
use goscapy.Base.{
  ℕ, zero, suc, ◌-◌, ◌≤◌, ◌≡◌, refl, sym, ◌∙◌, String, Bool, List, [], ◌∷◌, ◌++◌, some, ok,
  wrong_type, too_large, Bool-cases, Option-cases, inl, inr, arith, length, ap, Outcome, ◌>>=◌, ltb,
  copy, take, drop, length-copy, length-drop, length-replicate, length-append, copy-fits, ltb→le,
  append_assoc, length-take,
}
use goscapy.Values.{Value, Values, hardware_addr, ip, str, bytes}
use goscapy.Fields.{Field}
use goscapy.Fields.Addresses.{
  Net, to4, to16, required, exactly, mac_field, mac_bytes, ip_field, ip_bytes, ipv6_field,
  ipv6_bytes, v4_in_v6_prefix,
}
use goscapy.Fields.Texts.{
  str_field, str_len_field, str_fixed_field, packet_field, conditional_field, padded, pad_into,
  zeros, promoted,
}
use goscapy.Fields.Laws.{IsLawfulAt, refused, copied, field_size}

pub str_field-IsLawfulAt :
    (name : String) (d : List ℕ) (v : Value) → IsLawfulAt (str_field name d) v
unfolding str_field
str_field-IsLawfulAt name d (str s) = copied _ _ s _ refl (λ buf. refl) refl refl
str_field-IsLawfulAt name d (bytes s) = copied _ _ s _ refl (λ buf. refl) refl refl
str_field-IsLawfulAt name d _ = refused _ _ wrong_type refl (λ buf. refl)

pub str_len_field-IsLawfulAt :
    (name : String) (d : List ℕ) (from : String) (v : Value)
    → IsLawfulAt (str_len_field name d from).field v
unfolding str_len_field
str_len_field-IsLawfulAt name d from (str s) = copied _ _ s _ refl (λ buf. refl) refl refl
str_len_field-IsLawfulAt name d from (bytes s) = copied _ _ s _ refl (λ buf. refl) refl refl
str_len_field-IsLawfulAt name d from _ = refused _ _ wrong_type refl (λ buf. refl)

pub packet_field-IsLawfulAt :
    (name pkt : String) (v : Value) → IsLawfulAt (packet_field name pkt).field v
unfolding packet_field
packet_field-IsLawfulAt name pkt (bytes s) = copied _ _ s _ refl (λ buf. refl) refl refl
packet_field-IsLawfulAt name pkt _ = refused _ _ wrong_type refl (λ buf. refl)

-- A field whose `Pack` and `PackInto` go through one function `take_bytes`, which gives `n` bytes.
addressed :
    (f : Field) (v : Value) (n : ℕ) (take_bytes : Outcome (List ℕ))
    → f.pack v ≡ take_bytes
    → ((bs : List ℕ) → take_bytes ≡ ok bs → length bs ≡ n)
    → ((buf : List ℕ)
        → promoted f.pack_into f.pack buf v ≡ (take_bytes >>= λ out. ok (copy buf out, n)))
    → field_size f v ≡ n
    → IsLawfulAt f v
addressed f v n m p sized into size = record {
  measured = λ bs h. size ∙ sym (sized bs (sym p ∙ h));
  into_ok = λ bs buf h fits. into buf ∙ rw (sym p ∙ h, sized bs (sym p ∙ h)) refl;
  into_err = λ e buf h. into buf ∙ rw (sym p ∙ h) refl;
}

length-exactly : (n : ℕ) (v bs : List ℕ) → exactly n v ≡ ok bs → length bs ≡ n
length-exactly n v bs h = ground arith

length-to4 : (v bs : List ℕ) → required (to4 v) ≡ ok bs → length bs ≡ 4
unfolding to4
length-to4 v bs h = ground (arith, length-drop 12 v)

length-to16 : (v bs : List ℕ) → required (to16 v) ≡ ok bs → length bs ≡ 16
unfolding to16
length-to16 v bs h = ground (arith, length-append v4_in_v6_prefix v)

module _ (net : Net) (name : String) (d : List ℕ) where
  length-ip_bytes : (v : Value) (bs : List ℕ) → ip_bytes net v ≡ ok bs → length bs ≡ 4
  unfolding ip_bytes
  length-ip_bytes (ip v) bs h = length-to4 v bs h
  length-ip_bytes (str s) bs h = elim (Option-cases (net.parse_ip s)) [
    | inl nothing ↦ cc
    | inr (a, e) ↦ length-to4 a bs (rw e at h)
  ]
  length-ip_bytes _ bs h = cc

  length-ipv6_bytes : (v : Value) (bs : List ℕ) → ipv6_bytes net v ≡ ok bs → length bs ≡ 16
  unfolding ipv6_bytes
  length-ipv6_bytes (ip v) bs h = length-to16 v bs h
  length-ipv6_bytes (str s) bs h = elim (Option-cases (net.parse_ip s)) [
    | inl nothing ↦ cc
    | inr (a, e) ↦ length-to16 a bs (rw e at h)
  ]
  length-ipv6_bytes (bytes v) bs h = length-exactly 16 v bs h
  length-ipv6_bytes _ bs h = cc

  pub ip_field-IsLawfulAt : (v : Value) → IsLawfulAt (ip_field net name d) v
  unfolding ip_field
  ip_field-IsLawfulAt v =
      addressed _ v 4 (ip_bytes net v) refl (length-ip_bytes v) (λ buf. refl) refl

  pub ipv6_field-IsLawfulAt : (v : Value) → IsLawfulAt (ipv6_field net name d) v
  unfolding ipv6_field
  ipv6_field-IsLawfulAt v =
      addressed _ v 16 (ipv6_bytes net v) refl (length-ipv6_bytes v) (λ buf. refl) refl

  -- The values that `MACField` can take with six bytes on the wire.
  abbrev pub FitsMac : Value → Type 0
  FitsMac (str s) = (m : List ℕ) → net.parse_mac s ≡ some m → length m ≡ 6
  FitsMac v = Unit

  length-mac_bytes : (v : Value) (bs : List ℕ) → FitsMac v → mac_bytes net v ≡ ok bs → length bs ≡ 6
  unfolding mac_bytes
  length-mac_bytes (hardware_addr v) bs fits h = length-exactly 6 v bs h
  length-mac_bytes (str s) bs fits h = elim (Option-cases (net.parse_mac s)) [
    | inl nothing ↦ cc
    | inr (a, e) ↦ let same : a ≡ bs = cc in rw (← same) (fits a e)
  ]
  length-mac_bytes (bytes v) bs fits h = length-exactly 6 v bs h
  length-mac_bytes _ bs fits h = cc

  pub mac_field-IsLawfulAt : (v : Value) → FitsMac v → IsLawfulAt (mac_field net name d) v
  unfolding mac_field
  mac_field-IsLawfulAt v fits =
      addressed _ v 6 (mac_bytes net v) refl (λ bs h. length-mac_bytes v bs fits h) (λ buf. refl)
        refl

drop-zeros : (n m : ℕ) → drop n (zeros m) ≡ zeros (m - n)
drop-zeros zero m = let e : m ≡ m - 0 = omega arith in ap zeros e
drop-zeros (suc n) zero = let e : 0 ≡ 0 - suc n = omega arith in ap zeros e
drop-zeros (suc n) (suc m) =
    let e : m - n ≡ suc m - suc n = omega arith in drop-zeros n m ∙ ap zeros e

drop-take_append : (n : ℕ) (xs ys : List ℕ) → n ≤ length xs → drop n (take n xs ++ ys) ≡ ys
drop-take_append zero xs ys h = refl
drop-take_append (suc n) [] ys h = absurd (omega arith)
drop-take_append (suc n) (x ∷ xs) ys h = drop-take_append n xs ys (omega arith)

-- The zero padding that `Pack` makes.
padded_lem :
    (size : ℕ) (raw : List ℕ)
    → length raw ≤ size
    → copy (zeros size) raw ≡ raw ++ zeros (size - length raw)
padded_lem size raw h =
    copy-fits (zeros size) raw (omega (arith, length-replicate {A = ℕ} size 0))
    ∙ ap (λ t. raw ++ t) (drop-zeros (length raw) size)

length-padded : (size : ℕ) (raw : List ℕ) → length (copy (zeros size) raw) ≡ size
length-padded size raw =
    omega (arith, length-copy (zeros size) raw, length-replicate {A = ℕ} size 0)

-- Clearing the padding in place and copying gives what `Pack` gives, before the rest of the buffer.
pad_in_place :
    (size : ℕ) (buf raw : List ℕ)
    → length raw ≤ size
    → size ≤ length buf
    → copy (take (length raw) buf ++ zeros (size - length raw) ++ drop size buf) raw
      ≡ copy buf (copy (zeros size) raw)
pad_in_place size buf raw h k = rw append_assoc (
    copy-fits (take (length raw) buf ++ (zeros (size - length raw) ++ drop size buf)) raw (
      omega (
        arith,
        length-append (take (length raw) buf) (zeros (size - length raw) ++ drop size buf),
        length-take (length raw) buf,
      ))
    ∙ rw
        (drop-take_append (length raw) buf (zeros (size - length raw) ++ drop size buf)
          (omega arith))
        (sym (
          copy-fits buf (copy (zeros size) raw) (omega (arith, length-padded size raw))
          ∙ rw (length-padded size raw, padded_lem size raw h, append_assoc))))

pad_into_ok :
    (size : ℕ) (buf raw : List ℕ)
    → length raw ≤ size
    → size ≤ length buf
    → pad_into size buf raw ≡ ok (copy buf (copy (zeros size) raw), size)
pad_into_ok size buf raw h k = ground (arith, pad_in_place size buf raw h k)

-- A value with the raw bytes `raw`.
fixed_raw :
    (f : Field) (v : Value) (size : ℕ) (raw : List ℕ)
    → f.pack v ≡ padded size raw
    → ((buf : List ℕ) → promoted f.pack_into f.pack buf v ≡ pad_into size buf raw)
    → (length raw ≤ size → field_size f v ≡ size)
    → IsLawfulAt f v
fixed_raw f v size raw p q z = elim (Bool-cases (ltb size (length raw))) [
  | inl big ↦ refused f v too_large (p ∙ rw big refl) (λ buf. q buf ∙ rw big refl)
  | inr fits ↦
      let room : length raw ≤ size = ltb→le size (length raw) fits in
      let packed : f.pack v ≡ ok (copy (zeros size) raw) = p ∙ rw fits refl in
      record {
        measured =
            λ bs h. z room ∙ sym (length-padded size raw) ∙ ap (λ (t : List ℕ). length t) (cc);
        into_ok = λ bs buf h l.
            let same : copy (zeros size) raw ≡ bs = cc in
            q buf
            ∙ rw (← same, length-padded size raw)
                (pad_into_ok size buf raw room
                  (omega (arith, length-padded size raw, ap (λ (t : List ℕ). length t) same)));
        into_err = λ e buf h. cc;
      }
]

pub str_fixed_field-IsLawfulAt :
    (name : String) (size : ℕ) (d : List ℕ) (v : Value) → IsLawfulAt (str_fixed_field name size d) v
unfolding str_fixed_field
str_fixed_field-IsLawfulAt name size d (str s) =
    fixed_raw _ (str s) size s refl (λ buf. refl) (λ h. ground arith)
str_fixed_field-IsLawfulAt name size d (bytes s) =
    fixed_raw _ (bytes s) size s refl (λ buf. refl) (λ h. ground arith)
str_fixed_field-IsLawfulAt name size d _ = refused _ _ wrong_type refl (λ buf. refl)

field_size-conditional :
    (f : Field) (cond : Values → Bool) (v : Value)
    → field_size (conditional_field f cond) v ≡ field_size f v
unfolding conditional_field
field_size-conditional f cond (str s) = refl
field_size-conditional f cond (bytes s) = refl
field_size-conditional f cond _ = refl

-- A condition changes neither `Pack` nor `PackInto`.
pub conditional_field-IsLawfulAt :
    (f : Field) (cond : Values → Bool) (v : Value)
    → IsLawfulAt f v
    → IsLawfulAt (conditional_field f cond) v
unfolding conditional_field
conditional_field-IsLawfulAt f cond v w = record {
  measured = λ bs h. field_size-conditional f cond v ∙ w.measured bs h;
  into_ok = w.into_ok;
  into_err = w.into_err;
}
