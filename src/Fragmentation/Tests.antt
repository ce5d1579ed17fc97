-- ===== src/Fragmentation/Tests.antt =====
-- A payload cut and put together again, and the theorem at a concrete payload.
use goscapy.Base.{ℕ, ◌≡◌, refl, true, List, [], ◌∷◌, some, map, pos, ok, inl, arith}
use goscapy.Reassembly.{FragGroup, empty_group, try_reassemble}
use goscapy.Fragmentation.{Piece, fragment, fragment_size}
use goscapy.Fragmentation.Split.{received}
use goscapy.Fragmentation.Reassembled.{gather, fragment-try_reassemble}

abbrev payload : List ℕ
payload = 1 ∷ 2 ∷ 3 ∷ 4 ∷ 5 ∷ 6 ∷ 7 ∷ 8 ∷ 9 ∷ []

-- Of a packet that must not be fragmented; the flag stays.
abbrev two_pieces : List Piece
two_pieces =
    record { frag = 0x6000; body = 1 ∷ 2 ∷ 3 ∷ 4 ∷ 5 ∷ 6 ∷ 7 ∷ 8 ∷ [] }
    ∷ record { frag = 0x4001; body = 9 ∷ [] }
    ∷ []

cut : fragment payload (pos 13) 0x4000 ≡ ok two_pieces
unfolding fragment
cut = refl

-- What fits is returned as it is, also a fragment.
copied : fragment payload (pos 16) 0x2005 ≡ ok (record { frag = 0x2005; body = payload } ∷ [])
unfolding fragment
copied = refl

abbrev group : FragGroup
group = record {
  frags = map received two_pieces;
  total_bytes = 9;
  last_seen = 0;
  has_last = true;
  final_end = 9;
}

put_together : try_reassemble group ≡ ok (some payload)
unfolding try_reassemble
put_together = refl

fragment-try_reassemble_example :
    (ps : List Piece) × (fragment payload (pos 13) 0x4000 ≡ ok ps)
    × (try_reassemble (gather empty_group (map received ps) 0) ≡ ok (some payload))
unfolding fragment_size
fragment-try_reassemble_example =
    fragment-try_reassemble payload (pos 13) 0x4000 0 (omega arith) (omega arith)
      (inl (omega arith))
