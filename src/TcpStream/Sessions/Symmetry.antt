-- ===== src/TcpStream/Sessions/Symmetry.antt =====
-- `normalizeStreamID` on a segment and on one in the opposite direction.
use goscapy.Base.{
  ℕ, ◌≡◌, ◌==◌, refl, sym, ◌∙◌, ◌⊎◌, inl, inr, Bool, true, false, not, List, [], ◌∷◌, Option, none,
  some, ltb, if◌then◌else◌, length, replicate, arith, Bool-cases, Option-cases, length-copy,
}
use goscapy.TcpStream.{
  StreamKey, StreamId, first_difference, less_key, make_key, key_address, normalize_stream_id,
}

abbrev flip : Option Bool → Option Bool
flip none = none
flip (some b) = some (not b)

first_difference_swap :
    (xs ys : List ℕ)
    → length xs ≡ length ys
    → first_difference ys xs ≡ flip (first_difference xs ys)
unfolding first_difference
first_difference_swap [] [] e = refl
first_difference_swap [] (y ∷ ys) e = cc
first_difference_swap (x ∷ xs) [] e = cc
first_difference_swap (x ∷ xs) (y ∷ ys) e = elim (Bool-cases (x == y)) [
  | inl same ↦
      let back : (y == x) ≡ true = ground arith in
      rw (same, back) (first_difference_swap xs ys (omega arith))
  | inr other ↦
      let back : (y == x) ≡ false = ground arith in
      let less : ltb y x ≡ not (ltb x y) = ground arith in rw (other, back, less)
]

first_difference-none :
    (xs ys : List ℕ) → length xs ≡ length ys → first_difference xs ys ≡ none → xs ≡ ys
unfolding first_difference
first_difference-none [] [] e h = refl
first_difference-none [] (y ∷ ys) e h = cc
first_difference-none (x ∷ xs) [] e h = cc
first_difference-none (x ∷ xs) (y ∷ ys) e h = elim (Bool-cases (x == y)) [
  | inl same ↦
      let eq : x ≡ y = ground arith in
      let rest : xs ≡ ys = first_difference-none xs ys (omega arith) (rw same at h) in cc
  | inr other ↦ let bad : some (ltb x y) ≡ none = rw other at h in cc
]

-- Keys whose addresses have the same lengths: one is less than the other, or they are equal.
less_key_swap :
    (x y : StreamKey)
    → length x.src_ip ≡ length y.src_ip
    → length x.dst_ip ≡ length y.dst_ip
    → (less_key y x ≡ not (less_key x y)) ⊎ (x ≡ y)
unfolding less_key
less_key_swap x y hs hd = elim (Option-cases (first_difference x.src_ip y.src_ip)) [
  | inr (b, e) ↦ inl (rw (first_difference_swap x.src_ip y.src_ip hs, e))
  | inl e ↦ elim (Option-cases (first_difference x.dst_ip y.dst_ip)) [
    | inr (b, f) ↦ inl (
        rw (
          first_difference_swap x.src_ip y.src_ip hs,
          e,
          first_difference_swap x.dst_ip y.dst_ip hd,
          f,
        ))
    | inl f ↦ elim (Bool-cases (x.src_port == y.src_port)) [
      | inr other ↦
          let back : (y.src_port == x.src_port) ≡ false = ground arith in
          let less : ltb y.src_port x.src_port ≡ not (ltb x.src_port y.src_port) = ground arith in
          inl (
            rw (
              first_difference_swap x.src_ip y.src_ip hs,
              e,
              first_difference_swap x.dst_ip y.dst_ip hd,
              f,
              other,
              back,
              less,
            ))
      | inl same ↦ elim (Bool-cases (x.dst_port == y.dst_port)) [
        | inr other ↦
            let back : (y.src_port == x.src_port) ≡ true = ground arith in
            let less : ltb y.dst_port x.dst_port ≡ not (ltb x.dst_port y.dst_port) = ground arith in
            inl (
              rw (
                first_difference_swap x.src_ip y.src_ip hs,
                e,
                first_difference_swap x.dst_ip y.dst_ip hd,
                f,
                same,
                back,
                less,
              ))
        | inl all ↦ inr (
            let src : x.src_ip ≡ y.src_ip = first_difference-none x.src_ip y.src_ip hs e in
            let dst : x.dst_ip ≡ y.dst_ip = first_difference-none x.dst_ip y.dst_ip hd f in
            let sp : x.src_port ≡ y.src_port = ground arith in
            let dp : x.dst_port ≡ y.dst_port = ground arith in cc)
      ]
    ]
  ]
]

length-key_address : (v : List ℕ) → length (key_address v) ≡ 16
length-key_address v = length-copy (replicate 16 0) _

-- A segment and one in the opposite direction belong to the same stream: the id does not depend on
-- which endpoint is the source.
pub normalize_stream_id-symmetric :
    (src_ip : List ℕ) (src_port : ℕ) (dst_ip : List ℕ) (dst_port : ℕ)
    → normalize_stream_id src_ip src_port dst_ip dst_port
      ≡ normalize_stream_id dst_ip dst_port src_ip src_port
unfolding normalize_stream_id make_key
normalize_stream_id-symmetric src_ip src_port dst_ip dst_port =
    let x : StreamKey = make_key src_ip src_port dst_ip dst_port in
    let y : StreamKey = make_key dst_ip dst_port src_ip src_port in
    elim (less_key_swap x y (length-key_address src_ip ∙ sym (length-key_address dst_ip))
      (length-key_address dst_ip ∙ sym (length-key_address src_ip))) [
        | inr same ↦ both x y same
        | inl swap ↦ elim (Bool-cases (less_key x y)) [
          | inl t ↦ rw (swap, t)
          | inr f ↦ rw (swap, f)
        ]
      ]
  where
    ordered : StreamKey → StreamKey → StreamId
    ordered x y = if less_key x y then record { a = x; b = y } else record { a = y; b = x }

    both : (x y : StreamKey) → x ≡ y → ordered x y ≡ ordered y x
    both x y e = rw e
