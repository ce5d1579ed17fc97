-- ===== src/Fields/RoundTrip.antt =====
-- `Unpack` of the field types against their `Pack`, at the values that `Unpack` returns.
use goscapy.Base.{
  ℕ, ◌+◌, ◌*◌, ◌/◌, ◌^◌, ◌<◌, ◌≡◌, refl, ap, sym, ◌∙◌, String, Bool, List, [], ◌∷◌, ◌++◌, le→ltb,
  length, take, copy, byte, get_or, put_be, put_le, get_be, get_le, length-put_be, length-put_le,
  get_be-put_be, get_le-put_le, take-append_length, length-append, append-nil, copy-fits,
  length-replicate, drop_all, Outcome, ok, ◌>>=◌, arith, ◌==◌, Bool-cases, ==_iff, inl, inr,
}
use goscapy.Values.{Value, Values, u8, u16, u32, u64, i32, hardware_addr, ip, bytes}
use goscapy.Fields.{Field, validate_size}
use goscapy.Fields.Ints.{
  byte_field, short_field, le_short_field, three_bytes_field, int_field, signed_int_field,
  le_int_field, long_field, le_long_field,
}
use goscapy.Fields.Addresses.{
  Net, to4, to16, required, mac_field, mac_bytes, ip_field, ip_bytes, ipv6_field, ipv6_bytes,
}
use goscapy.Fields.Texts.{
  str_field, str_len_field, str_fixed_field, packet_field, conditional_field, padded, zeros,
}

-- Before the bytes `rest`, `Unpack` reads back what `Pack` wrote.
abbrev pub IsCodecAt : Field → Value → List ℕ → Type 0
IsCodecAt f v rest = (bs : List ℕ) → f.pack v ≡ ok bs → f.unpack (bs ++ rest) ≡ ok (v, length bs)

-- A value of the Go type that the field's `Unpack` returns, in the range that the field can hold,
-- and what may follow it: the fields without a length of their own take all that is left.
pub data Canonical : Field → Value → List ℕ → Type 0 where
  in_byte : (name : String) (d n : ℕ) (rest : List ℕ) → Canonical (byte_field name d) (u8 n) rest
  in_short :
      (name : String) (d n : ℕ) (rest : List ℕ)
      → n < 2 ^ 16
      → Canonical (short_field name d) (u16 n) rest
  in_le_short :
      (name : String) (d n : ℕ) (rest : List ℕ)
      → n < 2 ^ 16
      → Canonical (le_short_field name d) (u16 n) rest
  in_three_bytes :
      (name : String) (d n : ℕ) (rest : List ℕ)
      → n < 2 ^ 24
      → Canonical (three_bytes_field name d) (u32 n) rest
  in_int :
      (name : String) (d n : ℕ) (rest : List ℕ)
      → n < 2 ^ 32
      → Canonical (int_field name d) (u32 n) rest
  in_signed_int :
      (name : String) (d n : ℕ) (rest : List ℕ)
      → n < 2 ^ 32
      → Canonical (signed_int_field name d) (i32 n) rest
  in_le_int :
      (name : String) (d n : ℕ) (rest : List ℕ)
      → n < 2 ^ 32
      → Canonical (le_int_field name d) (u32 n) rest
  in_long :
      (name : String) (d n : ℕ) (rest : List ℕ)
      → n < 2 ^ 64
      → Canonical (long_field name d) (u64 n) rest
  in_le_long :
      (name : String) (d n : ℕ) (rest : List ℕ)
      → n < 2 ^ 64
      → Canonical (le_long_field name d) (u64 n) rest
  in_mac :
      (net : Net) (name : String) (d a rest : List ℕ)
      → Canonical (mac_field net name d) (hardware_addr a) rest
  in_ip :
      (net : Net) (name : String) (d a rest : List ℕ)
      → length a ≡ 4
      → Canonical (ip_field net name d) (ip a) rest
  in_ipv6 :
      (net : Net) (name : String) (d a rest : List ℕ)
      → length a ≡ 16
      → Canonical (ipv6_field net name d) (ip a) rest
  in_str_fixed :
      (name : String) (size : ℕ) (d s rest : List ℕ)
      → length s ≡ size
      → Canonical (str_fixed_field name size d) (bytes s) rest
  in_str : (name : String) (d s : List ℕ) → Canonical (str_field name d) (bytes s) []
  in_str_len :
      (name : String) (d s : List ℕ) (from : String)
      → Canonical (str_len_field name d from).field (bytes s) []
  in_packet :
      (name pkt : String) (s : List ℕ) → Canonical (packet_field name pkt).field (bytes s) []
  in_conditional :
      (f : Field) (cond : Values → Bool) (v : Value) (rest : List ℕ)
      → Canonical f v rest
      → Canonical (conditional_field f cond) v rest

-- `Unpack` of a field of `w` bytes.
abbrev reading : ℕ → (List ℕ → Value) → List ℕ → Outcome (Value × ℕ)
reading w read b = do _ ← validate_size b w; ok (read b, w)

-- What is packed in `w` bytes is read back as the value itself.
read_value :
    (w : ℕ) (read : List ℕ → Value) (v : Value) (out rest bs : List ℕ)
    → length out ≡ w
    → read (out ++ rest) ≡ v
    → ok out ≡ ok bs
    → reading w read (bs ++ rest) ≡ ok (v, length bs)
read_value w read v out rest bs e r h =
    let same : out ≡ bs = cc in
    rw (
      ← same,
      ← e,
      le→ltb (length (out ++ rest)) (length out) (omega (arith, length-append out rest)),
      r,
    )

-- The same, where the value is read from the first `w` bytes.
read_front :
    (w : ℕ) (read : List ℕ → Value) (v : Value) (out rest bs : List ℕ)
    → length out ≡ w
    → read out ≡ v
    → ok out ≡ ok bs
    → reading w (λ b. read (take w b)) (bs ++ rest) ≡ ok (v, length bs)
read_front w read v out rest bs e r h =
    read_value w (λ b. read (take w b)) v out rest bs e (rw (← e, take-append_length out rest) r) h

three_bytes_back :
    (n : ℕ) → n < 2 ^ 24 → byte (n / 2 ^ 16) * 2 ^ 16 + byte (n / 2 ^ 8) * 2 ^ 8 + byte n ≡ n
three_bytes_back n h = omega arith

to4_four : (a : List ℕ) → length a ≡ 4 → required (to4 a) ≡ ok a
unfolding to4
to4_four a e = rw e

to16_sixteen : (a : List ℕ) → length a ≡ 16 → required (to16 a) ≡ ok a
unfolding to16
to16_sixteen a e = rw e

padded_whole : (size : ℕ) (s : List ℕ) → length s ≡ size → copy (zeros size) s ≡ s
padded_whole size s e =
    let zl : length (zeros size) ≡ size = length-replicate size 0 in
    copy-fits (zeros size) s (omega arith)
    ∙ rw (drop_all (length s) (zeros size) (omega arith), append-nil)

padded_ok : (size : ℕ) (s : List ℕ) → length s ≡ size → padded size s ≡ ok s
padded_ok size s e = rw (le→ltb size (length s) (omega arith), padded_whole size s e)

-- For each field type but the bit field, and a value of the type's own form and size (a number within
-- its width, an address of its length, a text of the fixed size, or with no fixed size a text that
-- nothing follows): what `Pack` makes of it, `Unpack` reads back as that value, before any bytes that
-- may follow, and it takes just the bytes that were written.
pub Canonical-IsCodecAt :
    {f : Field} {v : Value} {rest : List ℕ} → Canonical f v rest → IsCodecAt f v rest
unfolding byte_field short_field le_short_field three_bytes_field int_field signed_int_field
    le_int_field long_field le_long_field mac_field mac_bytes ip_field ip_bytes ipv6_field
    ipv6_bytes str_field str_len_field str_fixed_field packet_field conditional_field
Canonical-IsCodecAt (in_byte name d n rest) bs h =
    read_value 1 (λ b. u8 (get_or b 0 0)) (u8 n) (n ∷ []) rest bs refl refl h
Canonical-IsCodecAt (in_short name d n rest lt) bs h =
    read_front 2 (λ b. u16 (get_be b)) (u16 n) (put_be 2 n) rest bs (length-put_be 2 n)
      (ap u16 (get_be-put_be 2 n lt)) h
Canonical-IsCodecAt (in_le_short name d n rest lt) bs h =
    read_front 2 (λ b. u16 (get_le b)) (u16 n) (put_le 2 n) rest bs (length-put_le 2 n)
      (ap u16 (get_le-put_le 2 n lt)) h
Canonical-IsCodecAt (in_three_bytes name d n rest lt) bs h =
    read_value 3 (λ b. u32 (get_or b 0 0 * 2 ^ 16 + get_or b 1 0 * 2 ^ 8 + get_or b 2 0)) (u32 n)
      (byte (n / 2 ^ 16) ∷ byte (n / 2 ^ 8) ∷ byte n ∷ []) rest bs refl
      (ap u32 (three_bytes_back n lt)) (rw (le→ltb 0xFFFFFF n (omega arith)) at h)
Canonical-IsCodecAt (in_int name d n rest lt) bs h =
    read_front 4 (λ b. u32 (get_be b)) (u32 n) (put_be 4 n) rest bs (length-put_be 4 n)
      (ap u32 (get_be-put_be 4 n lt)) h
Canonical-IsCodecAt (in_signed_int name d n rest lt) bs h =
    read_front 4 (λ b. i32 (get_be b)) (i32 n) (put_be 4 n) rest bs (length-put_be 4 n)
      (ap i32 (get_be-put_be 4 n lt)) h
Canonical-IsCodecAt (in_le_int name d n rest lt) bs h =
    read_front 4 (λ b. u32 (get_le b)) (u32 n) (put_le 4 n) rest bs (length-put_le 4 n)
      (ap u32 (get_le-put_le 4 n lt)) h
Canonical-IsCodecAt (in_long name d n rest lt) bs h =
    read_front 8 (λ b. u64 (get_be b)) (u64 n) (put_be 8 n) rest bs (length-put_be 8 n)
      (ap u64 (get_be-put_be 8 n lt)) h
Canonical-IsCodecAt (in_le_long name d n rest lt) bs h =
    read_front 8 (λ b. u64 (get_le b)) (u64 n) (put_le 8 n) rest bs (length-put_le 8 n)
      (ap u64 (get_le-put_le 8 n lt)) h
Canonical-IsCodecAt (in_mac net name d a rest) bs h = elim (Bool-cases (length a == 6)) [
  | inl six ↦
      read_front 6 hardware_addr (hardware_addr a) a rest bs ((==_iff (length a) 6).0 six) refl
        (rw six at h)
  | inr other ↦ cc (rw other at h)
]
Canonical-IsCodecAt (in_ip net name d a rest four) bs h =
    read_front 4 ip (ip a) a rest bs four refl (sym (to4_four a four) ∙ h)
Canonical-IsCodecAt (in_ipv6 net name d a rest e) bs h =
    read_front 16 ip (ip a) a rest bs e refl (sym (to16_sixteen a e) ∙ h)
Canonical-IsCodecAt (in_str_fixed name size d s rest e) bs h =
    read_front size (λ b. bytes (copy (zeros size) b)) (bytes s) s rest bs e
      (ap bytes (padded_whole size s e)) (sym (padded_ok size s e) ∙ h)
Canonical-IsCodecAt (in_str name d s) bs h = let same : s ≡ bs = cc in rw (← same, append-nil s)
Canonical-IsCodecAt (in_str_len name d s from) bs h =
    let same : s ≡ bs = cc in rw (← same, append-nil s)
Canonical-IsCodecAt (in_packet name pkt s) bs h =
    let same : s ≡ bs = cc in rw (← same, append-nil s)
Canonical-IsCodecAt (in_conditional f cond v rest c) bs h = Canonical-IsCodecAt c bs h
