-- ===== src/Asn1/Oid/RoundTrip.antt =====
-- Object identifiers of pkg/asn1/ber.go read back, and the termination of the reading loop.
use goscapy.Base.{
  ltb, ◌==◌, ltb→lt, lt→ltb, ltb→le, le→ltb, Bool-cases, length, drop, All, length-append,
  drop-append_length, byte, ok, ◌>>=◌, ℕ, zero, suc, ◌+◌, ◌-◌, ◌*◌, ◌/◌, ◌%◌, ◌^◌, ◌≤◌, ◌<◌,
  bit_and, bit_or, ◌≡◌, refl, sym, ap, ap₂, ◌∙◌, inl, inr, true, false, List, [], ◌∷◌, ◌++◌,
  append_assoc, arith,
}
use goscapy.Base.Masks.{bit_or-tag, bit_and-low_bits, bit_and-high_bit}
use goscapy.Asn1.Tlv.{ber_tlv}
use goscapy.Asn1.Oid.{
  sub_id_loop, encode_oid_sub_id, decode_sub_loop, decode_oid_sub_id, encode_sub_ids,
  ber_encode_oid, decode_sub_ids, ber_decode_oid,
}

-- The groups that the writing loop puts in front, and how they are read.
record Groups (fuel v : ℕ) (buf : List ℕ) : Type 0 where
  groups : List ℕ
  shape : sub_id_loop fuel v buf ≡ groups ++ buf
  read :
      (k i : ℕ) (tail : List ℕ)
      → decode_sub_loop (length groups + k) 0 (groups ++ tail) i
        ≡ decode_sub_loop k v tail (i + length groups)
  tight : (j : ℕ) → v < 128 ^ j → length groups ≤ j

tight_group :
    (j v : ℕ) (groups : List ℕ) (b : ℕ)
    → 0 < v
    → v < 128 ^ j
    → ((k : ℕ) → v / 128 < 128 ^ k → length groups ≤ k)
    → length (groups ++ (b ∷ [])) ≤ j
tight_group zero v groups b more below h = absurd (omega arith)
tight_group (suc j) v groups b more below h =
    omega (arith, length-append groups (b ∷ []), h j (omega arith))

-- A group that is not the last of its number.
read_group :
    (k v i : ℕ) (tail : List ℕ)
    → v < 2 ^ 32
    → decode_sub_loop (suc k) (v / 128) ((128 + v % 128) ∷ tail) i
      ≡ decode_sub_loop k v tail (i + 1)
unfolding decode_sub_loop
read_group k v i tail h =
    let set : (bit_and (128 + v % 128) 0x80 == 0) ≡ false =
      bit_and-high_bit (128 + v % 128) (omega arith) ∙ le→ltb _ _ (omega arith) in
    let low : bit_and (128 + v % 128) 0x7f ≡ v % 128 =
      bit_and-low_bits (128 + v % 128) (omega arith) ∙ omega arith in
    let value : (v / 128 * 128 + v % 128) % 2 ^ 32 ≡ v = omega arith in rw (set, low, value) refl

nothing_read :
    (k v i : ℕ) (tail : List ℕ)
    → v ≡ 0
    → decode_sub_loop (0 + k) 0 tail i ≡ decode_sub_loop k v tail (i + 0)
nothing_read k v i tail none_left =
    let rounds : 0 + k ≡ k = omega arith in
    let place : i + 0 ≡ i = omega arith in rw (rounds, place, none_left) refl

more_read :
    (k v i : ℕ) (tail groups : List ℕ)
    → v < 2 ^ 32
    → decode_sub_loop (length groups + suc k) 0 (groups ++ ((128 + v % 128) ∷ tail)) i
      ≡ decode_sub_loop (suc k) (v / 128) ((128 + v % 128) ∷ tail) (i + length groups)
    → decode_sub_loop
        (length (groups ++ ((128 + v % 128) ∷ [])) + k)
        0
        ((groups ++ ((128 + v % 128) ∷ [])) ++ tail)
        i
      ≡ decode_sub_loop k v tail (i + length (groups ++ ((128 + v % 128) ∷ [])))
more_read k v i tail groups small before =
    let group = 128 + v % 128 in
    let size = length-append groups (group ∷ []) in
    let rounds : length (groups ++ (group ∷ [])) + k ≡ length groups + suc k =
      omega (arith, size) in
    let place : i + length groups + 1 ≡ i + length (groups ++ (group ∷ [])) = omega (arith, size) in
    ap₂ (λ n bytes. decode_sub_loop n 0 bytes i) rounds (append_assoc groups (group ∷ []) tail)
    ∙ before
    ∙ read_group k v (i + length groups) tail small
    ∙ ap (decode_sub_loop k v tail) place

sub_id_loop-Groups : (fuel v : ℕ) (buf : List ℕ) → v < 2 ^ 32 → v < 128 ^ fuel → Groups fuel v buf
unfolding sub_id_loop
sub_id_loop-Groups zero v buf small h = record {
  groups = [];
  shape = refl;
  read = λ k i tail. nothing_read k v i tail (omega arith);
  tight = λ j below. omega arith;
}
sub_id_loop-Groups (suc fuel) v buf small h = elim (Bool-cases (ltb 0 v)) [
  | inr none_left ↦ record {
    groups = [];
    shape = rw none_left refl;
    read = λ k i tail. nothing_read k v i tail (omega (arith, ltb→le _ _ none_left));
    tight = λ j below. omega arith;
  }
  | inl more ↦
      let group = 128 + v % 128 in
      let ih = sub_id_loop-Groups fuel (v / 128) (group ∷ buf) (omega arith) (omega arith) in
      let tag : bit_or 0x80 (v % 128 % 256) ≡ group =
        bit_or-tag (v % 128 % 256) (omega arith) ∙ omega arith in
      record {
        groups = ih.groups ++ (group ∷ []);
        shape = rw (more, tag) (ih.shape ∙ sym (append_assoc ih.groups (group ∷ []) buf));
        read = λ k i tail. more_read k v i tail ih.groups small (ih.read (suc k) i (group ∷ tail));
        tight = λ j below. tight_group j v ih.groups group (ltb→lt _ _ more) below ih.tight;
      }
]

read_last :
    (k v i : ℕ) (tail : List ℕ)
    → v < 2 ^ 32
    → decode_sub_loop (suc k) (v / 128) ((v % 128 % 256) ∷ tail) i ≡ (v, i + 1)
unfolding decode_sub_loop
read_last k v i tail h =
    let clear : (bit_and (v % 128 % 256) 0x80 == 0) ≡ true =
      bit_and-high_bit (v % 128 % 256) (omega arith) ∙ lt→ltb _ _ (omega arith) in
    let low : bit_and (v % 128 % 256) 0x7f ≡ v % 128 =
      bit_and-low_bits (v % 128 % 256) (omega arith) ∙ omega arith in
    let value : (v / 128 * 128 + v % 128) % 2 ^ 32 ≡ v = omega arith in rw (clear, low, value) refl

read_short : (v : ℕ) (tail : List ℕ) → v < 128 → decode_sub_loop 5 0 ((v % 256) ∷ tail) 0 ≡ (v, 1)
unfolding decode_sub_loop
read_short v tail h =
    let same : v % 256 ≡ v = omega arith in
    let clear : (bit_and v 0x80 == 0) ≡ true = bit_and-high_bit v (omega arith) ∙ lt→ltb _ _ h in
    let low : bit_and v 0x7f ≡ v = bit_and-low_bits v (omega arith) ∙ omega arith in
    let value : (0 * 128 + v) % 2 ^ 32 ≡ v = omega arith in rw (same, clear, low, value) refl

pub decode_oid_sub_id-encode_oid_sub_id :
    (v : ℕ) (rest : List ℕ)
    → v < 2 ^ 32
    → decode_oid_sub_id (encode_oid_sub_id v ++ rest) ≡ (v, length (encode_oid_sub_id v))
unfolding decode_oid_sub_id encode_oid_sub_id
decode_oid_sub_id-encode_oid_sub_id v rest h = elim (Bool-cases (ltb v 0x80)) [
  | inl short ↦ rw short (read_short v rest (ltb→lt _ _ short))
  | inr long ↦
      let last = v % 128 % 256 in
      let g = sub_id_loop-Groups 5 (v / 128) (last ∷ []) (omega arith) (omega arith) in
      let few : length g.groups ≤ 4 = g.tight 4 (omega arith) in
      let rounds : 5 ≡ length g.groups + suc (4 - length g.groups) = omega arith in
      let size : 0 + length g.groups + 1 ≡ length (g.groups ++ (last ∷ [])) =
        omega (arith, length-append g.groups (last ∷ [])) in
      rw (long, g.shape)
        (ap₂ (λ n bytes. decode_sub_loop n 0 bytes 0) rounds
            (append_assoc g.groups (last ∷ []) rest)
          ∙ g.read (suc (4 - length g.groups)) 0 (last ∷ rest)
          ∙ read_last (4 - length g.groups) v (0 + length g.groups) rest h
          ∙ ap (λ n. (v, n)) size)
]

-- Every number takes a byte at least.
encode_oid_sub_id-nonempty : (v : ℕ) → v < 2 ^ 32 → 0 < length (encode_oid_sub_id v)
unfolding encode_oid_sub_id
encode_oid_sub_id-nonempty v h = elim (Bool-cases (ltb v 0x80)) [
  | inl short ↦ rw short (omega arith)
  | inr long ↦
      let last = v % 128 % 256 in
      let g = sub_id_loop-Groups 5 (v / 128) (last ∷ []) (omega arith) (omega arith) in
      rw (long, g.shape) (omega (arith, length-append g.groups (last ∷ [])))
]

decode_sub_ids-step :
    (fuel : ℕ) (bytes rest : List ℕ) (val : ℕ)
    → 0 < length bytes
    → decode_oid_sub_id (bytes ++ rest) ≡ (val, length bytes)
    → decode_sub_ids (suc fuel) (bytes ++ rest)
      ≡ (decode_sub_ids fuel rest >>= λ parts. ok (val ∷ parts))
unfolding decode_sub_ids
decode_sub_ids-step fuel [] rest val h read = absurd (omega arith)
decode_sub_ids-step fuel (b ∷ bytes) rest val h read =
    ap
      (λ (v, consumed).
        decode_sub_ids fuel (drop consumed ((b ∷ bytes) ++ rest)) >>= λ parts. ok (v ∷ parts))
      read
    ∙ ap (λ left. decode_sub_ids fuel left >>= λ parts. ok (val ∷ parts))
        (drop-append_length (b ∷ bytes) rest)

abbrev pub IsU32 : ℕ → Type 0
IsU32 v = v < 2 ^ 32

nothing_left : (fuel : ℕ) → decode_sub_ids fuel [] ≡ ok []
unfolding decode_sub_ids
nothing_left zero = refl
nothing_left (suc fuel) = refl

decode-encode_sub_ids :
    (fuel : ℕ) (parts : List ℕ)
    → All IsU32 parts
    → length (encode_sub_ids parts) ≤ fuel
    → decode_sub_ids fuel (encode_sub_ids parts) ≡ ok parts
unfolding encode_sub_ids
decode-encode_sub_ids fuel [] good h = nothing_left fuel
decode-encode_sub_ids zero (v ∷ parts) (small, good) h = absurd (
    omega (
      arith,
      encode_oid_sub_id-nonempty (v % 2 ^ 32) (omega arith),
      length-append (encode_oid_sub_id (v % 2 ^ 32)) (encode_sub_ids parts),
    ))
decode-encode_sub_ids (suc fuel) (v ∷ parts) (small, good) h =
    let code = encode_oid_sub_id (v % 2 ^ 32) in
    let rest = encode_sub_ids parts in
    let some_byte = encode_oid_sub_id-nonempty (v % 2 ^ 32) (omega arith) in
    let fewer : length rest ≤ fuel = omega (arith, some_byte, length-append code rest) in
    let kept : v % 2 ^ 32 ≡ v = omega arith in
    decode_sub_ids-step fuel code rest (v % 2 ^ 32) some_byte
      (decode_oid_sub_id-encode_oid_sub_id (v % 2 ^ 32) rest (omega arith))
    ∙ ap (λ read. read >>= λ others. ok ((v % 2 ^ 32) ∷ others))
        (decode-encode_sub_ids fuel parts good fewer)
    ∙ ap (λ w. ok (w ∷ parts)) kept

-- An identifier whose second number is below 40, whose first two fit a byte and whose others fit
-- 32 bits is encoded to a tag, a length and a content, and its numbers are read back from the
-- content.
pub ber_decode_oid-ber_encode_oid :
    (x y : ℕ) (parts : List ℕ)
    → y < 40
    → x * 40 + y < 256
    → All IsU32 parts
    → (content : List ℕ) × (ber_encode_oid (x ∷ y ∷ parts) ≡ ber_tlv 0x06 content)
      × (ber_decode_oid content ≡ ok (x ∷ y ∷ parts))
unfolding ber_encode_oid ber_decode_oid
ber_decode_oid-ber_encode_oid x y parts second first good =
    let content = byte (x * 40 + y) ∷ encode_sub_ids parts in
    let same_x : (x * 40 + y) % 256 / 40 ≡ x = omega arith in
    let same_y : (x * 40 + y) % 256 % 40 ≡ y = omega arith in
    let read = decode-encode_sub_ids (length (encode_sub_ids parts)) parts good (omega arith) in
    (content, refl, rw (read, same_x, same_y) refl)
