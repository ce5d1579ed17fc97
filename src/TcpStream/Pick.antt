-- ===== src/TcpStream/Pick.antt =====
-- The search of `advance` through the stored segments.
use goscapy.Base.{
  ℕ, suc, ◌+◌, ◌-◌, ◌%◌, ◌^◌, ◌≤◌, ◌<◌, ◌≡◌, ◌==◌, refl, ap, ◌⊎◌, inl, inr, List, [], ◌∷◌, none,
  some, ltb, length, drop, map, All, arith, Bool-cases,
}
use goscapy.TcpStream.{pick, Picked, keep}
use goscapy.TcpStream.Advance.{Piece, end, segment_of, InStream, usable_fits, usable_not}

abbrev pub In : Piece → List Piece → Type 0
In q [] = ⊥
In q (r ∷ qs) = (q ≡ r) ⊎ In q qs

-- The list with one piece taken out.
pub data Removed (q : Piece) : List Piece → List Piece → Type 0 where
  found : {qs : List Piece} → Removed q (q ∷ qs) qs
  later : {r : Piece} {qs rest : List Piece} → Removed q qs rest → Removed q (r ∷ qs) (r ∷ rest)

pub Removed-All :
    {q : Piece} {qs rest : List Piece} (P : Piece → Type 0)
    → Removed q qs rest
    → All P qs
    → P q × All P rest
Removed-All P found (h, t) = (h, t)
Removed-All P (later r) (h, t) = let (hq, hr) = Removed-All P r t in (hq, (h, hr))

pub Removed-In :
    {q : Piece} {qs rest : List Piece} (x : Piece)
    → Removed q qs rest
    → In x qs
    → (x ≡ q) ⊎ In x rest
Removed-In x found (inl e) = inl e
Removed-In x found (inr m) = inr m
Removed-In x (later r) (inl e) = inr (inl e)
Removed-In x (later r) (inr m) = elim (Removed-In x r m) [ inl e ↦ inl e | inr i ↦ inr (inr i) ]

pub length-Removed :
    {q : Piece} {qs rest : List Piece} → Removed q qs rest → length qs ≡ suc (length rest)
length-Removed found = refl
length-Removed (later r) = ap suc (length-Removed r)

-- The piece does not hold the byte at the position.
abbrev pub Gap : ℕ → Piece → Type 0
Gap n q = (n < q.start) ⊎ ((q.start < n) × (end q ≤ n))

abbrev pub Fits : ℕ → Piece → Type 0
Fits n q = (q.start ≤ n) × ((q.start ≡ n) ⊎ (n < end q))

Fits-or-Gap : (n : ℕ) (q : Piece) → Fits n q ⊎ Gap n q
Fits-or-Gap n q = elim (Bool-cases (ltb n q.start)) [
  | inl t ↦ inr (inl (ground arith))
  | inr f ↦ elim (Bool-cases (q.start == n)) [
    | inl same ↦ inl (ground arith, inl (ground arith))
    | inr other ↦ elim (Bool-cases (ltb n (end q))) [
      | inl within ↦ inl (ground arith, inr (ground arith))
      | inr past ↦ inr (inr (ground arith, ground arith))
    ]
  ]
]

module _ (p : List ℕ) (isn : ℕ) where
  -- What the search finds at a position: nothing that holds the byte there, or one piece.
  pub data Search (n : ℕ) (left : List Piece) : Picked → Type 0 where
    nothing : All (Gap n) left → Search n left none
    one :
        (q : Piece) (rest : List Piece)
        → Removed q left rest
        → Fits n q
        → Search n left
            (some (drop (n - q.start) (segment_of p isn q).body, map (segment_of p isn) rest))

  keep-Search :
      (n : ℕ) (q : Piece) (left : List Piece) {r : Picked}
      → Gap n q
      → Search n left r
      → Search n (q ∷ left) (keep (segment_of p isn q) r)
  keep-Search n q left g (nothing gaps) = nothing (g, gaps)
  keep-Search n q left g (one o rest r f) = one o (q ∷ rest) (later r) f

  pub search :
      (n : ℕ) (left : List Piece)
      → length p < 2 ^ 31
      → n ≤ length p
      → All (InStream p) left
      → Search n left (pick ((isn + n) % 2 ^ 32) (map (segment_of p isn) left))
  unfolding pick
  search n [] short hn inside = nothing tt
  search n (q ∷ left) short hn (h, inside) = elim (Fits-or-Gap n q) [
    | inl f ↦ rw (usable_fits p isn short q n h hn f.0 f.1) (one q left found f)
    | inr g ↦
        rw (usable_not p isn short q n h hn g)
          (keep-Search n q left g (search n left short hn inside))
  ]
