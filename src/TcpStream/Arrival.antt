-- ===== src/TcpStream/Arrival.antt =====
-- The end of `handleData`, for one segment and for all that arrive.
use goscapy.Base.{
  ℕ, suc, ◌+◌, ◌%◌, ◌^◌, ◌≤◌, ◌<◌, ◌≡◌, refl, ap, sym, subst, ◌∙◌, ◌⊎◌, inl, inr, true, false, ◌&&◌,
  List, [], ◌∷◌, ◌++◌, ltb, leb, length, take, map, All, All-append, arith, Bool-cases,
  append_assoc, append-nil, Outcome, ok, ◌>>=◌,
}
use goscapy.TcpStream.{Segment, HalfStream, advance, is_old, receive}
use goscapy.TcpStream.Advance.{
  Piece, end, segment_of, InStream, segment_end, seq_before_iff, seq_before_eq_iff,
}
use goscapy.TcpStream.Pick.{In, Gap}
use goscapy.TcpStream.Delivery.{Covered, Progress, Settled, advance_loop-Settled}

module _ (p : List ℕ) (isn : ℕ) (short : length p < 2 ^ 31) where
  In-append_left : (q : Piece) (xs ys : List Piece) → In q xs → In q (xs ++ ys)
  In-append_left q (x ∷ xs) ys (inl e) = inl e
  In-append_left q (x ∷ xs) ys (inr m) = inr (In-append_left q xs ys m)
  In-append_left q [] ys m = absurd m

  In-append_last : (q : Piece) (xs : List Piece) → In q (xs ++ (q ∷ []))
  In-append_last q [] = inl refl
  In-append_last q (x ∷ xs) = inr (In-append_last q xs)

  In-append_cases : (x q : Piece) (xs : List Piece) → In x (xs ++ (q ∷ [])) → In x xs ⊎ (x ≡ q)
  In-append_cases x q [] (inl e) = inr e
  In-append_cases x q [] (inr m) = absurd m
  In-append_cases x q (y ∷ xs) (inl e) = inl (inl e)
  In-append_cases x q (y ∷ xs) (inr m) = elim (In-append_cases x q xs m) [
    | inl i ↦ inl (inr i)
    | inr e ↦ inr e
  ]

  seen_more :
      (q : Piece) (seen xs : List Piece)
      → All (λ x. In x seen) xs
      → All (λ x. In x (seen ++ (q ∷ []))) xs
  seen_more q seen [] h = tt
  seen_more q seen (x ∷ xs) (m, h) = (In-append_left x seen (q ∷ []) m, seen_more q seen xs h)

  Covered-more :
      (q : Piece) (seen : List Piece) (i : ℕ) → Covered seen i → Covered (seen ++ (q ∷ [])) i
  Covered-more q seen i (x, m, a, b) = (x, In-append_left x seen (q ∷ []) m, a, b)

  map-append_one :
      (q : Piece) (xs : List Piece)
      → map (segment_of p isn) (xs ++ (q ∷ []))
        ≡ map (segment_of p isn) xs ++ (segment_of p isn q ∷ [])
  map-append_one q [] = refl
  map-append_one q (x ∷ xs) = ap (λ t. segment_of p isn x ∷ t) (map-append_one q xs)

  -- A piece that lies before the position is noted as seen.
  skip-Progress :
      (seen : List Piece) (h : HalfStream) (n : ℕ) (left : List Piece) (q : Piece)
      → Progress p isn short seen h n left
      → end q ≤ n
      → Progress p isn short (seen ++ (q ∷ [])) h n left
  skip-Progress seen h n left q w le = record {
    in_range = w.in_range;
    place = w.place;
    read = w.read;
    stored = w.stored;
    inside = w.inside;
    from_seen = seen_more q seen left w.from_seen;
    kept = λ x m. elim (In-append_cases x q seen m) [
      | inl i ↦ w.kept x i
      | inr e ↦ inr (let same : end x ≡ end q = ap (λ (y : Piece). end y) e in omega arith)
    ];
    origin = λ i lt. Covered-more q seen i (w.origin i lt);
  }

  abbrev with_segment : HalfStream → Piece → HalfStream
  with_segment h q = record h { segments = h.segments ++ (segment_of p isn q ∷ []) }

  -- Any other piece is stored.
  store-Progress :
      (seen : List Piece) (h : HalfStream) (n : ℕ) (left : List Piece) (q : Piece)
      → Progress p isn short seen h n left
      → InStream p q
      → Progress p isn short (seen ++ (q ∷ [])) (with_segment h q) n (left ++ (q ∷ []))
  store-Progress seen h n left q w hq = record {
    in_range = w.in_range;
    place = w.place;
    read = w.read;
    stored = rw w.stored (sym (map-append_one q left));
    inside = All-append (InStream p) left (q ∷ []) w.inside (hq, tt);
    from_seen =
        All-append (λ x. In x (seen ++ (q ∷ []))) left (q ∷ []) (seen_more q seen left w.from_seen)
          (In-append_last q seen, tt);
    kept = λ x m. elim (In-append_cases x q seen m) [
      | inl i ↦ held x (w.kept x i)
      | inr e ↦ inl (subst (λ (y : Piece). In y (left ++ (q ∷ []))) (sym e) (In-append_last q left))
    ];
    origin = λ i lt. Covered-more q seen i (w.origin i lt);
  }
    where
      held : (x : Piece) → In x left ⊎ (end x ≤ n) → In x (left ++ (q ∷ [])) ⊎ (end x ≤ n)
      held x (inl i) = inl (In-append_left x left (q ∷ []) i)
      held x (inr le) = inr le

  is_old_iff :
      (h : HalfStream) (q : Piece) (n : ℕ)
      → InStream p q
      → n ≤ length p
      → h.next_seq ≡ (isn + n) % 2 ^ 32
      → is_old h (segment_of p isn q).seq (segment_of p isn q).body
        ≡ (ltb q.start n && leb (end q) n)
  is_old_iff h q n hq hn e = rw (
    e,
    seq_before_iff isn q.start n (omega arith) (omega arith),
    segment_end p isn short q hq,
    seq_before_eq_iff isn (end q) n (omega arith) (omega arith),
  )

  length-map : (left : List Piece) → length (map (segment_of p isn) left) ≡ length left
  length-map [] = refl
  length-map (q ∷ left) = ap suc (length-map left)

  receive-Settled :
      (seen : List Piece) (h : HalfStream) (q : Piece)
      → Settled p isn short seen h
      → InStream p q
      → (h' : HalfStream) × (receive h (segment_of p isn q).seq (segment_of p isn q).body ≡ ok h')
        × Settled p isn short (seen ++ (q ∷ [])) h'
  unfolding receive advance
  receive-Settled seen h q (n, left, w, gaps) hq =
      let test : is_old h (segment_of p isn q).seq (segment_of p isn q).body
          ≡ (ltb q.start n && leb (end q) n) =
        is_old_iff h q n hq w.in_range w.place in
      elim (Bool-cases (ltb q.start n && leb (end q) n)) [
        | inl old ↦
            let t : is_old h (segment_of p isn q).seq (segment_of p isn q).body ≡ true =
              test ∙ old in
            let past : end q ≤ n = ground arith in
            rw t (h, refl, (n, left, skip-Progress seen h n left q w past, gaps))
        | inr new ↦
            let t : is_old h (segment_of p isn q).seq (segment_of p isn q).body ≡ false =
              test ∙ new in
            let size : length (with_segment h q).segments ≡ length (left ++ (q ∷ [])) =
              ap (λ (x : List Segment). length (x ++ (segment_of p isn q ∷ []))) w.stored
              ∙ ap (λ (x : List Segment). length x) (sym (map-append_one q left))
              ∙ length-map (left ++ (q ∷ [])) in
            rw t (
              advance_loop-Settled p isn short (length (with_segment h q).segments + 1)
                (seen ++ (q ∷ [])) (with_segment h q) n (left ++ (q ∷ []))
                (store-Progress seen h n left q w hq) (omega arith))
      ]

-- The segments of one direction, one after another.
unfoldable pub receive_all : HalfStream → List Segment → Outcome HalfStream
unfolding receive
receive_all h [] = ok h
receive_all h (s ∷ ss) = do h' ← receive h s.seq s.body; receive_all h' ss

module _ (p : List ℕ) (isn : ℕ) (short : length p < 2 ^ 31) where
  receive_all-Settled :
      (qs seen : List Piece) (h : HalfStream)
      → Settled p isn short seen h
      → All (InStream p) qs
      → (h' : HalfStream) × (receive_all h (map (segment_of p isn) qs) ≡ ok h')
        × Settled p isn short (seen ++ qs) h'
  unfolding receive_all
  receive_all-Settled [] seen h s hq = (h, refl, rw (append-nil seen) s)
  receive_all-Settled (q ∷ qs) seen h s (hq, hqs) =
      let (h', e, s') = receive-Settled p isn short seen h q s hq in
      let (h'', e', s'') = receive_all-Settled qs (seen ++ (q ∷ [])) h' s' hqs in
      (h'', rw e e', rw (← append_assoc seen (q ∷ []) qs) s'')

  not-Covered :
      (seen : List Piece) (h : HalfStream) (n : ℕ) (left : List Piece)
      → Progress p isn short seen h n left
      → All (Gap n) left
      → Covered seen n
      → ⊥
  not-Covered seen h n left w gaps (q, m, a, b) = elim (w.kept q m) [
    | inl i ↦ elim (gap_of left gaps i) [ inl lt ↦ omega arith | inr (lt, le) ↦ omega arith ]
    | inr le ↦ omega arith
  ]
    where
      gap_of : (qs : List Piece) → All (Gap n) qs → In q qs → Gap n q
      gap_of [] g m = absurd m
      gap_of (x ∷ qs) (g, gs) (inl e) = subst (λ (y : Piece). Gap n y) (sym e) g
      gap_of (x ∷ qs) (g, gs) (inr m) = gap_of qs gs m

-- A half stream that expects the first byte of a stream of less than 2^31 bytes, whatever that byte's
-- sequence number, and then gets segments cut from the stream, in any order, with duplicates and
-- overlaps: no step runs out of fuel, and the buffer then holds exactly the stream's first bytes, up
-- to the first byte that none of the segments carried.
pub receive_all_lem :
    (p : List ℕ) (isn : ℕ) (qs : List Piece) (h : HalfStream)
    → length p < 2 ^ 31
    → All (InStream p) qs
    → h.segments ≡ []
    → h.buf ≡ []
    → h.next_seq ≡ isn % 2 ^ 32
    → (h' : HalfStream) × (n : ℕ) × (receive_all h (map (segment_of p isn) qs) ≡ ok h')
      × (h'.buf ≡ take n p)
      × (n ≤ length p)
      × ((i : ℕ) → i < n → Covered qs i)
      × (Covered qs n → ⊥)
receive_all_lem p isn qs h short inside no_segments no_bytes first =
    let w : Progress p isn short [] h 0 [] = record {
      in_range = omega arith;
      place = first ∙ (omega arith);
      read = no_bytes;
      stored = no_segments;
      inside = tt;
      from_seen = tt;
      kept = λ q m. absurd m;
      origin = λ i lt. absurd (omega arith);
    } in
    let (h', e, (n, left, w', gaps)) =
      receive_all-Settled p isn short qs [] h (0, [], w, tt) inside in
    (h', n, e, w'.read, w'.in_range, w'.origin, not-Covered p isn short qs h' n left w' gaps)
