-- ===== src/Tlv/RoundTrip.antt =====
-- `ParseTLV` against `BuildTLV`, and `GetTLV` against `GetAllTLV`.
use mathlib.Core.List.{head?}
use goscapy.Base.{
  ℕ, suc, zero, ◌≤◌, ◌≡◌, ◌≢◌, refl, ap, sym, ◌∙◌, inl, inr, List, [], ◌∷◌, ◌++◌, arith, length,
  take, drop, All, append-nil, append_assoc, ok, stuck, ltb, ◌==◌, length-append, length-drop,
  take-append_length, drop-append_length, take-append-drop, length-take, Bool-cases, All-append,
  ==_iff, false,
}
use goscapy.Tlv.{TlvOption, parse_loop, parse_tlv, build_tlv, get_tlv, get_all_tlv}

-- The options that `ParseTLV` can return: a type that is not the end marker, and a length byte
-- that is the value's length.
pub record IsWf (o : TlvOption) : Type 0 where
  pub typed : o.typ ≢ 0
  pub sized : o.len ≡ length o.value

-- What ends the options: the input's end, or a zero byte with anything behind it.
pub data Ends : List ℕ → Type 0 where
  at_end : Ends []
  at_zero : (junk : List ℕ) → Ends (0 ∷ junk)

parse_loop_step :
    (fuel : ℕ) (o : TlvOption) (rest : List ℕ) (acc : List TlvOption)
    → IsWf o
    → parse_loop (suc fuel) (o.typ ∷ o.len ∷ (o.value ++ rest)) acc
      ≡ parse_loop fuel rest (acc ++ (o ∷ []))
unfolding parse_loop
parse_loop_step fuel o rest acc w = ground (
  arith,
  length-append o.value rest,
  take-append_length o.value rest,
  drop-append_length o.value rest,
)

parse_loop_end :
    (fuel : ℕ) (rest : List ℕ) (acc : List TlvOption)
    → Ends rest
    → length rest ≤ fuel
    → parse_loop fuel rest acc ≡ ok acc
unfolding parse_loop
parse_loop_end fuel _ acc at_end hf = refl
parse_loop_end zero _ acc (at_zero junk) hf = absurd (omega arith)
parse_loop_end (suc fuel) _ acc (at_zero []) hf = refl
parse_loop_end (suc fuel) _ acc (at_zero (b ∷ junk)) hf = refl

parse_loop-build :
    (opts : List TlvOption) (fuel : ℕ) {rest : List ℕ} (acc : List TlvOption)
    → All IsWf opts
    → Ends rest
    → length (build_tlv opts ++ rest) ≤ fuel
    → parse_loop fuel (build_tlv opts ++ rest) acc ≡ ok (acc ++ opts)
unfolding build_tlv
parse_loop-build [] fuel acc h e hf = rw append-nil (parse_loop_end fuel _ acc e hf)
parse_loop-build (o ∷ opts) zero acc h e hf = absurd (omega arith)
parse_loop-build (o ∷ opts) (suc fuel) {rest} acc (ho, h) e hf =
    rw
      (
        append_assoc o.value (build_tlv opts) rest,
        parse_loop_step fuel o (build_tlv opts ++ rest) acc ho,
      )
      (parse_loop-build opts fuel (acc ++ (o ∷ [])) h e (
        omega (
          arith,
          length-append (o.value ++ build_tlv opts) rest,
          length-append o.value (build_tlv opts),
          length-append (build_tlv opts) rest,
        )))
    ∙ ap ok (append_assoc acc (o ∷ []) opts)

-- Options with a type other than 0 and a right length byte, built and parsed again, come back
-- unchanged, both at the input's end and before an end marker with any bytes behind it.
pub parse_tlv-build_tlv :
    (opts : List TlvOption) {rest : List ℕ}
    → All IsWf opts
    → Ends rest
    → parse_tlv (build_tlv opts ++ rest) ≡ ok opts
unfolding parse_tlv
parse_tlv-build_tlv opts h e = parse_loop-build opts _ [] h e (omega arith)

build_tlv-append : (xs ys : List TlvOption) → build_tlv (xs ++ ys) ≡ build_tlv xs ++ build_tlv ys
unfolding build_tlv
build_tlv-append [] ys = refl
build_tlv-append (o ∷ xs) ys = rw (build_tlv-append xs ys, append_assoc)

-- What a successful parse says of the bytes that it consumed.
pub record Parsed (bytes : List ℕ) (opts : List TlvOption) : Type 0 where
  pub wf : All IsWf opts
  pub rest : List ℕ
  pub ends : Ends rest
  pub built : bytes ≡ build_tlv opts ++ rest

Parsed-here :
    (bytes tail : List ℕ) (acc opts : List TlvOption)
    → All IsWf acc
    → bytes ≡ build_tlv acc ++ tail
    → Ends tail
    → ok acc ≡ ok opts
    → Parsed bytes opts
Parsed-here bytes tail acc opts w e t h =
    let same : acc ≡ opts = cc in rw (← same) (record { wf = w; rest = tail; ends = t; built = e })

build_tlv_taken :
    (acc : List TlvOption) (t len : ℕ) (body : List ℕ)
    → let o : TlvOption = record { typ = t; len = len; value = take len body } in
      build_tlv (acc ++ (o ∷ [])) ++ drop len body ≡ build_tlv acc ++ (t ∷ len ∷ body)
build_tlv_taken acc t len body =
    simp (build_tlv-append, append_assoc)
      (unfold build_tlv in simp (append_assoc, append-nil, take-append-drop))

parse_loop-Parsed :
    (fuel : ℕ) (bytes tail : List ℕ) (acc opts : List TlvOption)
    → All IsWf acc
    → bytes ≡ build_tlv acc ++ tail
    → parse_loop fuel tail acc ≡ ok opts
    → Parsed bytes opts
unfolding parse_loop
parse_loop-Parsed fuel bytes [] acc opts w e h = Parsed-here bytes [] acc opts w e at_end h
parse_loop-Parsed zero bytes (t ∷ tail) acc opts w e h = cc
parse_loop-Parsed (suc fuel) bytes (t ∷ []) acc opts w e h = elim (Bool-cases (t == 0)) [
  | inl z ↦ Parsed-here bytes (t ∷ []) acc opts w e (rw ((==_iff t 0).0 z) (at_zero [])) (rw z at h)
  | inr nz ↦ ground arith
]
parse_loop-Parsed (suc fuel) bytes (t ∷ len ∷ body) acc opts w e h = elim (Bool-cases (t == 0)) [
  | inl z ↦
      Parsed-here bytes (t ∷ len ∷ body) acc opts w e (rw ((==_iff t 0).0 z) (at_zero (len ∷ body)))
        (rw z at h)
  | inr nz ↦ elim (Bool-cases (ltb (length body) len)) [
    | inl short ↦ ground arith
    | inr fits ↦
        parse_loop-Parsed fuel bytes (drop len body) (acc ++ (taken ∷ [])) opts
          (All-append IsWf acc (taken ∷ []) w (taken_IsWf nz fits, tt))
          (e ∙ sym (build_tlv_taken acc t len body)) (rw (nz, fits) at h)
  ]
]
  where
    taken : TlvOption
    taken = record { typ = t; len = len; value = take len body }

    taken_IsWf : (t == 0) ≡ false → ltb (length body) len ≡ false → IsWf taken
    taken_IsWf nz fits = ground (arith, length-take len body)

parse_loop-ne-stuck :
    (fuel : ℕ) (bytes : List ℕ) (acc : List TlvOption)
    → length bytes ≤ fuel
    → parse_loop fuel bytes acc ≢ stuck
unfolding parse_loop
parse_loop-ne-stuck fuel [] acc h e = cc
parse_loop-ne-stuck zero (t ∷ tail) acc h e = omega arith
parse_loop-ne-stuck (suc fuel) (t ∷ []) acc h e = ground arith
parse_loop-ne-stuck (suc fuel) (t ∷ len ∷ body) acc h e = ground (
  arith,
  length-drop len body,
  parse_loop-ne-stuck fuel (drop len body)
      (acc ++ (record { typ = t; len = len; value = take len body } ∷ [])),
)

-- Whatever bytes `ParseTLV` accepts, they are the options that it returns, built again, and then
-- either nothing or an end marker; each option has a type other than 0 and a right length byte.
pub parse_tlv-Parsed :
    (bytes : List ℕ) (opts : List TlvOption) → parse_tlv bytes ≡ ok opts → Parsed bytes opts
unfolding parse_tlv build_tlv
parse_tlv-Parsed bytes opts h = parse_loop-Parsed (length bytes) bytes bytes [] opts tt refl h

-- The loop of `ParseTLV` ends on every input.
pub parse_tlv-ne-stuck : (bytes : List ℕ) → parse_tlv bytes ≢ stuck
unfolding parse_tlv
parse_tlv-ne-stuck bytes = parse_loop-ne-stuck (length bytes) bytes [] (omega arith)

-- The first option of a type is the head of all the options of that type.
pub get_tlv-head :
    (opts : List TlvOption) (typ : ℕ) → get_tlv opts typ ≡ head? (get_all_tlv opts typ)
unfolding get_tlv get_all_tlv
get_tlv-head [] typ = refl
get_tlv-head (o ∷ opts) typ = ground (arith, get_tlv-head opts typ)
