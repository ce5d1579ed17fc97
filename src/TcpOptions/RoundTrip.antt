-- ===== src/TcpOptions/RoundTrip.antt =====
-- `ParseTCPOptions` against `SerializeTCPOptions`.
use goscapy.Base.{
  ℕ, zero, suc, ◌+◌, ◌-◌, ◌%◌, ◌≤◌, ◌<◌, ◌≡◌, refl, ap, ◌∙◌, inl, inr, List, [], ◌∷◌, ◌++◌, arith,
  length, take, drop, All, append-nil, append_assoc, ok, ltb, ◌==◌, ◌||◌, if◌then◌else◌, replicate,
  length-replicate, length-append, length-drop, length-take, take-append_length, drop-append_length,
  Bool-cases, All-append,
}
use goscapy.Base.{false}
use goscapy.Values.{TcpOption}
use goscapy.TcpOptions.{
  eol, nop, nop_val, parse_loop, parse_tcp_options, option_bytes, unpadded, padding,
  serialize_tcp_options,
}

-- An option that the wire format can hold: a no-operation, or a kind above 1 with the length byte
-- of its data.
pub data IsWf (o : TcpOption) : Type 0 where
  is_nop : o ≡ nop_val → IsWf o
  is_long : 1 < o.kind → o.len ≡ 2 + length o.body → IsWf o

parse_loop-nop :
    (fuel : ℕ) (rest : List ℕ) (acc : List TcpOption)
    → parse_loop (suc fuel) (nop ∷ rest) acc ≡ parse_loop fuel rest (acc ++ (nop_val ∷ []))
unfolding parse_loop
parse_loop-nop fuel [] acc = refl
parse_loop-nop fuel (b ∷ rest) acc = refl

-- The tests that the loop makes on a long option.
record Tests (o : TcpOption) (rest : List ℕ) : Type 0 where
  not_eol : (o.kind == eol) ≡ false
  not_nop : (o.kind == nop) ≡ false
  fits : (ltb o.len 2 || ltb (2 + length (o.body ++ rest)) o.len) ≡ false
  body_len : o.len - 2 ≡ length o.body

long-Tests : (o : TcpOption) (rest : List ℕ) → 1 < o.kind → o.len ≡ 2 + length o.body → Tests o rest
long-Tests o rest k e = ground (arith, length-append o.body rest)

parse_loop_long :
    (fuel : ℕ) (o : TcpOption) (rest : List ℕ) (acc : List TcpOption)
    → Tests o rest
    → parse_loop (suc fuel) (o.kind ∷ o.len ∷ (o.body ++ rest)) acc
      ≡ parse_loop fuel rest (acc ++ (o ∷ []))
unfolding parse_loop
parse_loop_long fuel o rest acc t = rw (
  t.not_eol,
  t.not_nop,
  t.fits,
  t.body_len,
  take-append_length o.body rest,
  drop-append_length o.body rest,
)

-- Zeros end the options.
parse_loop_zeros :
    (fuel n : ℕ) (acc : List TcpOption) → n ≤ fuel → parse_loop fuel (replicate n eol) acc ≡ ok acc
unfolding parse_loop
parse_loop_zeros fuel zero acc h = refl
parse_loop_zeros zero (suc n) acc h = absurd (omega arith)
parse_loop_zeros (suc fuel) (suc zero) acc h = refl
parse_loop_zeros (suc fuel) (suc (suc n)) acc h = refl

padding_zeros : (n : ℕ) → padding n ≡ replicate (length (padding n)) eol
padding_zeros n = elim (Bool-cases (n % 4 == 0)) [
  | inl whole ↦ rw whole
  | inr part ↦ rw (part, length-replicate)
]

option_bytes_long :
    (o : TcpOption)
    → 1 < o.kind
    → o.len ≡ 2 + length o.body
    → option_bytes o ≡ o.kind ∷ o.len ∷ o.body
option_bytes_long o k e =
    let t : Tests o [] = long-Tests o [] k e in
    rw (t.not_eol, t.not_nop) (ap (λ b. o.kind ∷ o.len ∷ b) (body_bytes o.body o.len e))
  where
    body_bytes : (b : List ℕ) (n : ℕ) → n ≡ 2 + length b → (if ltb 2 n then b else []) ≡ b
    body_bytes [] n h = ground arith
    body_bytes (x ∷ b) n h = ground arith

parse_loop-option :
    (fuel : ℕ) (o : TcpOption) (rest : List ℕ) (acc : List TcpOption)
    → IsWf o
    → parse_loop (suc fuel) (option_bytes o ++ rest) acc ≡ parse_loop fuel rest (acc ++ (o ∷ []))
parse_loop-option fuel o rest acc (is_nop e) = rw e (parse_loop-nop fuel rest acc)
parse_loop-option fuel o rest acc (is_long k e) =
    rw (option_bytes_long o k e) (parse_loop_long fuel o rest acc (long-Tests o rest k e))

-- Every option takes a byte, so that a round of fuel is there for it.
option_bytes-pos : (o : TcpOption) → 0 < length (option_bytes o)
option_bytes-pos o = ground arith

parse_loop-unpadded :
    (opts : List TcpOption) (fuel n : ℕ) (acc : List TcpOption)
    → All IsWf opts
    → length (unpadded opts) + n ≤ fuel
    → parse_loop fuel (unpadded opts ++ replicate n eol) acc ≡ ok (acc ++ opts)
unfolding unpadded
parse_loop-unpadded [] fuel n acc w h = rw append-nil (parse_loop_zeros fuel n acc (omega arith))
parse_loop-unpadded (o ∷ opts) zero n acc (wo, w) h =
    absurd (omega (arith, length-append (option_bytes o) (unpadded opts), option_bytes-pos o))
parse_loop-unpadded (o ∷ opts) (suc fuel) n acc (wo, w) h = rw append_assoc (
    parse_loop-option fuel o (unpadded opts ++ replicate n eol) acc wo
    ∙ parse_loop-unpadded opts fuel n (acc ++ (o ∷ [])) w
        (omega (arith, length-append (option_bytes o) (unpadded opts), option_bytes-pos o))
    ∙ ap ok (append_assoc acc (o ∷ []) opts))

-- Options that the wire format can hold come back from `SerializeTCPOptions` unchanged, whatever
-- padding was added.
pub parse-serialize :
    (opts : List TcpOption)
    → All IsWf opts
    → parse_tcp_options (serialize_tcp_options opts) ≡ ok opts
unfolding parse_tcp_options serialize_tcp_options
parse-serialize [] w = refl
parse-serialize (o ∷ opts) w =
    let buf : List ℕ = unpadded (o ∷ opts) in
    let pad : ℕ = length (padding (length buf)) in
    rw (padding_zeros (length buf)) (
      parse_loop-unpadded (o ∷ opts) (length (buf ++ replicate pad eol)) pad [] w
        (omega (arith, length-append buf (replicate pad eol), length-replicate {A = ℕ} pad eol)))

-- `SerializeTCPOptions` gives whole 32-bit words, at most three bytes more than the options take.
pub length-serialize :
    (opts : List TcpOption)
    → (length (serialize_tcp_options opts) % 4 ≡ 0)
      × (length (unpadded opts) ≤ length (serialize_tcp_options opts))
      × (length (serialize_tcp_options opts) ≤ length (unpadded opts) + 3)
unfolding serialize_tcp_options
length-serialize [] = omega arith
length-serialize (o ∷ opts) = padded_len (unpadded (o ∷ opts))
  where
    padded_len :
        (buf : List ℕ)
        → (length (buf ++ padding (length buf)) % 4 ≡ 0)
          × (length buf ≤ length (buf ++ padding (length buf)))
          × (length (buf ++ padding (length buf)) ≤ length buf + 3)
    padded_len buf = ground (
      arith,
      length-append buf (padding (length buf)),
      length-replicate {A = ℕ} (4 - length buf % 4) eol,
    )

taken-IsWf :
    (k len : ℕ) (body : List ℕ)
    → (k == eol) ≡ false
    → (k == nop) ≡ false
    → (ltb len 2 || ltb (2 + length body) len) ≡ false
    → IsWf (record { kind = k; len = len; body = take (len - 2) body })
taken-IsWf k len body ne m good =
    is_long (ground arith) (ground (arith, length-take (len - 2) body))

-- The loop of `ParseTCPOptions` ends on every input, and finds only options that fit the wire.
parse_loop-IsWf :
    (fuel : ℕ) (bytes : List ℕ) (acc : List TcpOption)
    → All IsWf acc
    → length bytes ≤ fuel
    → (opts : List TcpOption) × (parse_loop fuel bytes acc ≡ ok opts) × All IsWf opts
unfolding parse_loop
parse_loop-IsWf fuel [] acc w h = (acc, refl, w)
parse_loop-IsWf zero (k ∷ tail) acc w h = absurd (omega arith)
parse_loop-IsWf (suc fuel) (k ∷ []) acc w h = elim (Bool-cases (k == eol)) [
  | inl e ↦ (acc, rw e, w)
  | inr ne ↦ elim (Bool-cases (k == nop)) [
    | inl n ↦
        (acc ++ (nop_val ∷ []), rw (ne, n), All-append IsWf acc (nop_val ∷ []) w (is_nop refl, tt))
    | inr m ↦ (acc, rw (ne, m), w)
  ]
]
parse_loop-IsWf (suc fuel) (k ∷ len ∷ body) acc w h = elim (Bool-cases (k == eol)) [
  | inl e ↦ (acc, rw e, w)
  | inr ne ↦ elim (Bool-cases (k == nop)) [
    | inl n ↦
        let (opts, e, v) =
          parse_loop-IsWf fuel (len ∷ body) (acc ++ (nop_val ∷ []))
            (All-append IsWf acc (nop_val ∷ []) w (is_nop refl, tt)) (omega arith) in
        (opts, rw (ne, n) e, v)
    | inr m ↦ elim (Bool-cases (ltb len 2 || ltb (2 + length body) len)) [
      | inl bad ↦ (acc, rw (ne, m, bad), w)
      | inr good ↦
          let o : TcpOption = record { kind = k; len = len; body = take (len - 2) body } in
          let wo : IsWf o = taken-IsWf k len body ne m good in
          let (opts, e, v) =
            parse_loop-IsWf fuel (drop (len - 2) body) (acc ++ (o ∷ []))
              (All-append IsWf acc (o ∷ []) w (wo, tt))
              (omega (arith, length-drop (len - 2) body)) in
          (opts, rw (ne, m, good) e, v)
    ]
  ]
]

-- On any bytes at all `ParseTCPOptions` ends with a list of options, each a no-operation or of a
-- kind above 1 with the length byte of its data.
pub parse_tcp_options-total :
    (bytes : List ℕ) → (opts : List TcpOption) × (parse_tcp_options bytes ≡ ok opts) × All IsWf opts
unfolding parse_tcp_options
parse_tcp_options-total bytes = parse_loop-IsWf (length bytes) bytes [] tt (omega arith)
