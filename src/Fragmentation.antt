-- ===== src/Fragmentation.antt =====
-- pkg/layers/fragment.go: how `Fragment` cuts a built payload into pieces and numbers them, and how
-- pkg/layers/ip.go reads the number back. The other layers of the packets are not modelled.
pub mod Split
pub mod Reassembled
mod Tests
use goscapy.Base.{
  ℕ, zero, suc, ◌+◌, ◌-◌, ◌*◌, ◌/◌, ◌%◌, ◌^◌, ◌==◌, Bool, true, false, List, [], ◌∷◌, ltb, leb, map,
  if◌then◌else◌, length, take, drop, ℤ, pos, negsuc, Outcome, ok, stuck, ◌>>=◌,
}

abbrev pub default_frag_size : ℕ
default_frag_size = 1480

abbrev pub whole_units : ℕ → ℕ
whole_units n = if n - n % 8 == 0 then 8 else n - n % 8

-- The size of a piece: a multiple of eight bytes.
unfoldable pub fragment_size : ℤ → ℕ
fragment_size (pos zero) = whole_units default_frag_size
fragment_size (pos (suc n)) = whole_units (suc n)
fragment_size (negsuc n) = whole_units default_frag_size

-- A piece of the payload.
pub record Chunk : Type 0 where
  pub off : ℕ
  pub body : List ℕ
  pub more : Bool

-- The loop over the payload; `rest` is what stands from `off` on.
unfoldable pub chunks : ℕ → ℕ → ℕ → List ℕ → Outcome (List Chunk)
chunks fuel size off [] = ok []
chunks zero size off (b ∷ rest) = stuck
chunks (suc fuel) size off (b ∷ rest) = do
  let piece : Chunk = record {
    off = off;
    body = take size (b ∷ rest);
    more = ltb size (length (b ∷ rest));
  }
  others ← chunks fuel size (off + size) (drop size (b ∷ rest))
  ok (piece ∷ others)

-- The fragment field: `&` with a mask of low bits is a remainder, and `|` of disjoint bits a sum.
abbrev pub frag_field : Chunk → ℕ → ℕ
frag_field c orig_frag =
    (c.off / 8) % 2 ^ 16 % 2 ^ 13
    + (if c.more then 2 ^ 13 else 0)
    + (if orig_frag / 2 ^ 14 % 2 == 0 then 0 else 2 ^ 14)

-- What a packet that `Fragment` returns has of its own: the fragment field of its IP header, and what
-- stands above that header.
pub record Piece : Type 0 where
  pub frag : ℕ
  pub body : List ℕ

-- The packet of a chunk.
abbrev pub numbered : (orig_frag : ℕ) → Chunk → Piece
numbered orig_frag c = record { frag = frag_field c orig_frag; body = c.body }

-- `Fragment` once the payload is built: one that fits stays in a copy of the packet, with the fragment
-- field as it was; a field that is not a uint16 is read as 0 here and by the receiver. In the loop
-- each chunk takes a byte at least.
unfoldable pub fragment : (payload : List ℕ) (frag_size : ℤ) (orig_frag : ℕ) → Outcome (List Piece)
unfolding chunks fragment_size
fragment payload frag_size orig_frag =
    let cut = chunks (length payload) (fragment_size frag_size) 0 payload in
    if leb (length payload) (fragment_size frag_size)
    then ok (record { frag = orig_frag; body = payload } ∷ [])
    else (do cs ← cut; ok (map (numbered orig_frag) cs))

-- `IPFlags` and `IPFragOffset`
abbrev pub ip_flags : ℕ → ℕ
ip_flags frag = frag / 2 ^ 13 % 2 ^ 8

abbrev pub ip_frag_offset : ℕ → ℕ
ip_frag_offset frag = frag % 2 ^ 13
