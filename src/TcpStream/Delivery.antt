-- ===== src/TcpStream/Delivery.antt =====
-- The buffer of a half stream against the stream that its segments were cut from.
use goscapy.Base.{
  ℕ, zero, suc, ◌+◌, ◌-◌, ◌%◌, ◌^◌, ◌≤◌, ◌<◌, ◌≡◌, refl, ap, sym, ◌∙◌, ◌⊎◌, inl, inr, List, [], ◌∷◌,
  ◌++◌, Option, ltb, length, take, drop, map, All, arith, Bool-cases, length-drop, Outcome, ok,
  drop-drop,
}
use goscapy.TcpStream.{Segment, HalfStream, pick, continue, append_bytes, advance_loop, add_seq}
use goscapy.TcpStream.Advance.{Piece, end, segment_of, InStream, length_body}
use goscapy.TcpStream.Pick.{
  In, Removed, Removed-All, Removed-In, length-Removed, Gap, Fits, Search, nothing, one, search,
}

-- Two stretches of a list, one after the other.
take-add {ℓ} :
    {A : Type ℓ} (n k : ℕ) (xs : List A) → take n xs ++ take k (drop n xs) ≡ take (n + k) xs
take-add zero k xs = let e : 0 + k ≡ k = omega arith in rw e
take-add (suc n) zero [] = let e : suc n + zero ≡ suc n = omega arith in rw e
take-add (suc n) (suc k) [] = let e : suc n + suc k ≡ suc (n + suc k) = omega arith in rw e
take-add (suc n) k (x ∷ xs) =
    let e : suc n + k ≡ suc (n + k) = omega arith in rw e (ap (λ t. x ∷ t) (take-add n k xs))

take_nil {ℓ} : {A : Type ℓ} (n : ℕ) → ◌≡◌ {A = List A} [] (take n [])
take_nil zero = refl
take_nil (suc n) = refl

drop-take {ℓ} : {A : Type ℓ} (m c : ℕ) (xs : List A) → drop m (take c xs) ≡ take (c - m) (drop m xs)
drop-take zero c xs = let e : c - 0 ≡ c = omega arith in rw e
drop-take (suc m) zero xs = let e : 0 - suc m ≡ 0 = omega arith in rw e
drop-take (suc m) (suc c) [] = take_nil (suc c - suc m)
drop-take (suc m) (suc c) (x ∷ xs) =
    let e : suc c - suc m ≡ c - m = omega arith in rw e (drop-take m c xs)

-- The byte at a position is in one of the pieces.
abbrev pub Covered : List Piece → ℕ → Type 0
Covered qs i = (q : Piece) × In q qs × (q.start ≤ i) × (i < end q)

module _ (p : List ℕ) (isn : ℕ) (short : length p < 2 ^ 31) where
  -- A half stream has read `n` bytes of the stream `p`, has got the pieces `seen` so far, and still
  -- holds the pieces `left`.
  pub record Progress (seen : List Piece) (h : HalfStream) (n : ℕ) (left : List Piece)
      : Type 0 where
    pub in_range : n ≤ length p
    pub place : h.next_seq ≡ (isn + n) % 2 ^ 32
    pub read : h.buf ≡ take n p
    pub stored : h.segments ≡ map (segment_of p isn) left
    pub inside : All (InStream p) left
    pub from_seen : All (λ q. In q seen) left
    pub kept : (q : Piece) → In q seen → In q left ⊎ (end q ≤ n)
    pub origin : (i : ℕ) → i < n → Covered seen i

  read_on :
      (q : Piece) (n : ℕ)
      → InStream p q
      → Fits n q
      → take n p ++ drop (n - q.start) (segment_of p isn q).body ≡ take (end q) p
  read_on q n h (le, f) =
      let e : q.start + (n - q.start) ≡ n = omega arith in
      let total : n + (q.count - (n - q.start)) ≡ end q = omega arith in
      rw (drop-take (n - q.start) q.count (drop q.start p), drop-drop q.start (n - q.start) p, e)
        (take-add n (q.count - (n - q.start)) p ∙ ap (λ k. take k p) total)

  move_on :
      (q : Piece) (n : ℕ)
      → InStream p q
      → Fits n q
      → add_seq
          ((isn + n) % 2 ^ 32)
          (length (drop (n - q.start) (segment_of p isn q).body) % 2 ^ 32)
        ≡ (isn + end q) % 2 ^ 32
  move_on q n h f =
      omega
        (arith, length-drop (n - q.start) (segment_of p isn q).body, length_body p isn short q h)

  -- One round of `advance`.
  append_bytes-Progress :
      (seen : List Piece) (h : HalfStream) (n : ℕ) (left rest : List Piece) (q : Piece)
      → Progress seen h n left
      → Removed q left rest
      → Fits n q
      → Progress seen
          (append_bytes h
            (drop (n - q.start) (segment_of p isn q).body)
            (map (segment_of p isn) rest))
          (end q)
          rest
  append_bytes-Progress seen h n left rest q w r f =
      let (hq, inside) = Removed-All (InStream p) r w.inside in
      let (sq, from_seen) = Removed-All (λ x. In x seen) r w.from_seen in
      record {
        in_range = hq;
        place = rw w.place (move_on q n hq f);
        read = rw w.read (read_on q n hq f);
        stored = refl;
        inside = inside;
        from_seen = from_seen;
        kept = λ x m. still x (w.kept x m);
        origin = λ i lt. from i lt sq;
      }
    where
      still : (x : Piece) → In x left ⊎ (end x ≤ n) → In x rest ⊎ (end x ≤ end q)
      still x (inl m) = elim (Removed-In x r m) [
        | inl e ↦ inr (let same : end x ≡ end q = ap (λ (y : Piece). end y) e in omega arith)
        | inr i ↦ inl i
      ]
      still x (inr le) = inr (omega arith)

      from : (i : ℕ) → i < end q → In q seen → Covered seen i
      from i lt sq = elim (Bool-cases (ltb i n)) [
        | inl old ↦ w.origin i (ground arith)
        | inr new ↦ (q, sq, ground arith, lt)
      ]

  abbrev pub Settled : List Piece → HalfStream → Type 0
  Settled seen h = (n : ℕ) × (left : List Piece) × Progress seen h n left × All (Gap n) left

  continue-Settled :
      (seen : List Piece) (h : HalfStream) (n : ℕ) (left : List Piece)
      {r : Option (List ℕ × List Segment)} (next : HalfStream → Outcome HalfStream)
      → Progress seen h n left
      → Search p isn n left r
      → ((h' : HalfStream) (n' : ℕ) (rest : List Piece)
          → Progress seen h' n' rest
          → suc (length rest) ≡ length left
          → (h'' : HalfStream) × (next h' ≡ ok h'') × Settled seen h'')
      → (h' : HalfStream) × (continue h r next ≡ ok h') × Settled seen h'
  continue-Settled seen h n left next w (nothing gaps) k = (h, refl, (n, left, w, gaps))
  continue-Settled seen h n left next w (one q rest r f) k =
      k _ (end q) rest (append_bytes-Progress seen h n left rest q w r f) (sym (length-Removed r))

  pub advance_loop-Settled :
      (fuel : ℕ) (seen : List Piece) (h : HalfStream) (n : ℕ) (left : List Piece)
      → Progress seen h n left
      → length left < fuel
      → (h' : HalfStream) × (advance_loop fuel h ≡ ok h') × Settled seen h'
  unfolding advance_loop
  advance_loop-Settled zero seen h n left w lt = absurd (omega arith)
  advance_loop-Settled (suc fuel) seen h n left w lt =
      let found : Search p isn n left (pick h.next_seq h.segments) =
        rw (w.place, w.stored) (search p isn n left short w.in_range w.inside) in
      continue-Settled seen h n left (λ h'. advance_loop fuel h') w found
        (λ h' n' rest w' e. advance_loop-Settled fuel seen h' n' rest w' (omega arith))
