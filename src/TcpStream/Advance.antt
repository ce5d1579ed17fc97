-- ===== src/TcpStream/Advance.antt =====
-- One segment in the loop of `advance`, against the stream of bytes that it was cut from.
use goscapy.Base.{
  ℕ, ◌+◌, ◌-◌, ◌%◌, ◌^◌, ◌≤◌, ◌<◌, ◌≡◌, ◌==◌, ◌⊎◌, inl, inr, true, false, List, none, some, ltb,
  leb, length, take, drop, arith, Bool-cases, length-take, length-drop,
}
use goscapy.TcpStream.{Segment, usable, add_seq, subtract_seq, seq_before, seq_before_eq}

-- A piece of the stream: where it starts, and how many bytes it has.
pub record Piece : Type 0 where
  pub start : ℕ
  pub count : ℕ

abbrev pub end : Piece → ℕ
end q = q.start + q.count

-- The segment that carries a piece of the stream `p`, whose first byte has sequence number `isn`.
abbrev pub segment_of : List ℕ → ℕ → Piece → Segment
segment_of p isn q = record { seq = (isn + q.start) % 2 ^ 32; body = take q.count (drop q.start p) }

abbrev pub InStream : List ℕ → Piece → Type 0
InStream p q = end q ≤ length p

module _ (isn o n : ℕ) (ho : o < 2 ^ 31) (hn : n < 2 ^ 31) where
  pub distance_ahead : o ≤ n → subtract_seq ((isn + n) % 2 ^ 32) ((isn + o) % 2 ^ 32) ≡ n - o
  distance_ahead h = omega arith

  pub seq_before_iff : seq_before ((isn + o) % 2 ^ 32) ((isn + n) % 2 ^ 32) ≡ ltb o n
  seq_before_iff = ground arith

  pub seq_before_eq_iff : seq_before_eq ((isn + o) % 2 ^ 32) ((isn + n) % 2 ^ 32) ≡ leb o n
  seq_before_eq_iff = ground arith

  seq_same_iff : ((isn + o) % 2 ^ 32 == (isn + n) % 2 ^ 32) ≡ (o == n)
  seq_same_iff = ground arith

module _ (p : List ℕ) (isn : ℕ) (short : length p < 2 ^ 31) where
  pub length_body : (q : Piece) → InStream p q → length (segment_of p isn q).body ≡ q.count
  length_body q h = omega (arith, length-take q.count (drop q.start p), length-drop q.start p)

  pub segment_end :
      (q : Piece)
      → InStream p q
      → add_seq (segment_of p isn q).seq (length (segment_of p isn q).body % 2 ^ 32)
        ≡ (isn + end q) % 2 ^ 32
  segment_end q h = omega (arith, length_body q h)

  -- A piece that starts at the position or holds the byte there can be appended, from there on.
  pub usable_fits :
      (q : Piece) (n : ℕ)
      → InStream p q
      → n ≤ length p
      → q.start ≤ n
      → (q.start ≡ n) ⊎ (n < end q)
      → usable ((isn + n) % 2 ^ 32) (segment_of p isn q)
        ≡ some (drop (n - q.start) (segment_of p isn q).body)
  unfolding usable
  usable_fits q n h hn le (inl e) =
      let zero_off : 0 ≡ n - q.start = omega arith in
      let here : (q.start == n) ≡ true = ground arith in
      rw (seq_same_iff isn q.start n (omega arith) (omega arith), here, ← zero_off)
  usable_fits q n h hn le (inr lt) = elim (Bool-cases (q.start == n)) [
    | inl t ↦
        let zero_off : 0 ≡ n - q.start = ground arith in
        rw (seq_same_iff isn q.start n (omega arith) (omega arith), t, ← zero_off)
    | inr f ↦
        let before : ltb q.start n ≡ true = ground arith in
        let beyond : leb (end q) n ≡ false = ground arith in
        let room : ltb (n - q.start) (length (segment_of p isn q).body) ≡ true =
          ground (arith, length_body q h) in
        rw (
          seq_same_iff isn q.start n (omega arith) (omega arith),
          f,
          seq_before_iff isn q.start n (omega arith) (omega arith),
          before,
          segment_end q h,
          seq_before_eq_iff isn (end q) n (omega arith) (omega arith),
          beyond,
          distance_ahead isn q.start n (omega arith) (omega arith) le,
          room,
        )
  ]

  -- A piece behind the position, or before it, cannot.
  pub usable_not :
      (q : Piece) (n : ℕ)
      → InStream p q
      → n ≤ length p
      → (n < q.start) ⊎ ((q.start < n) × (end q ≤ n))
      → usable ((isn + n) % 2 ^ 32) (segment_of p isn q) ≡ none
  unfolding usable
  usable_not q n h hn (inl lt) =
      let other : (q.start == n) ≡ false = ground arith in
      let before : ltb q.start n ≡ false = ground arith in
      rw (
        seq_same_iff isn q.start n (omega arith) (omega arith),
        other,
        seq_before_iff isn q.start n (omega arith) (omega arith),
        before,
      )
  usable_not q n h hn (inr (lt, le)) =
      let other : (q.start == n) ≡ false = ground arith in
      let before : ltb q.start n ≡ true = ground arith in
      let past : leb (end q) n ≡ true = ground arith in
      rw (
        seq_same_iff isn q.start n (omega arith) (omega arith),
        other,
        seq_before_iff isn q.start n (omega arith) (omega arith),
        before,
        segment_end q h,
        seq_before_eq_iff isn (end q) n (omega arith) (omega arith),
        past,
      )
