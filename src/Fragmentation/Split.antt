-- ===== src/Fragmentation/Split.antt =====
-- What the chunks that `Fragment` cuts are for the receiver.
use goscapy.Base.{
  ℕ, zero, suc, ◌+◌, ◌*◌, ◌%◌, ◌≤◌, ◌<◌, ◌≡◌, ◌==◌, refl, ap, sym, subst, ◌∙◌, inl, inr, not, List,
  [], ◌∷◌, ◌++◌, ltb, length, take, drop, get_elem?, map, ℤ, pos, negsuc, ok, All, arith,
  Bool-cases, length-take, length-drop, length-append, take-append-drop, append_assoc, drop_all,
  ltb→lt, ltb→le,
}
use goscapy.Reassembly.{Fragment}
use goscapy.Reassembly.Coverage.{Agrees, CoveredBy}
use goscapy.Fragmentation.{
  Chunk, Piece, numbered, chunks, fragment_size, whole_units, ip_flags, ip_frag_offset,
}

-- The fragment that the receiver reads from a packet.
abbrev pub received : Piece → Fragment
received p = record {
  offset = ip_frag_offset p.frag * 8;
  body = p.body;
  more = not (ip_flags p.frag % 2 == 0);
}

pub offset_back :
    (orig : ℕ) (c : Chunk)
    → c.off % 8 ≡ 0
    → c.off ≤ 65535
    → (received (numbered orig c)).offset ≡ c.off
offset_back orig c h lt = ground arith

get_elem?-take_in {ℓ} :
    {A : Type ℓ} (n i : ℕ) (xs : List A)
    → i < length (take n xs)
    → get_elem? (take n xs) i ≡ get_elem? xs i
get_elem?-take_in zero i xs h = absurd (omega arith)
get_elem?-take_in (suc n) i [] h = refl
get_elem?-take_in (suc n) zero (x ∷ xs) h = refl
get_elem?-take_in (suc n) (suc i) (x ∷ xs) h = get_elem?-take_in n i xs (omega arith)

get_elem?-append_behind {ℓ} :
    {A : Type ℓ} (pre xs : List A) (i : ℕ) → get_elem? (pre ++ xs) (length pre + i) ≡ get_elem? xs i
get_elem?-append_behind [] xs i = let e : 0 + i ≡ i = omega arith in ap (λ k. get_elem? xs k) e
get_elem?-append_behind (x ∷ pre) xs i =
    let e : suc (length pre) + i ≡ suc (length pre + i) = omega arith in
    ap (λ k. get_elem? (x ∷ (pre ++ xs)) k) e ∙ get_elem?-append_behind pre xs i

pub piece-Agrees :
    (pre rest : List ℕ) (size : ℕ) (f : Fragment)
    → f.offset ≡ length pre
    → f.body ≡ take size rest
    → Agrees (pre ++ rest) f
piece-Agrees pre rest size f eo eb i l k =
    let inside : i < length (take size rest) = rw (← eb) l in
    rw (eb, eo, get_elem?-append_behind pre rest i) (get_elem?-take_in size i rest inside)

-- What the pieces of the payload `p` from an offset on are for the receiver.
pub record IsSplit (p : List ℕ) (from : ℕ) (fs : List Fragment) : Type 0 where
  pub agree : All (Agrees p) fs
  pub starts : All (λ f. f.offset ≤ length p) fs
  pub covers : (i : ℕ) → from ≤ i → i < length p → CoveredBy fs i

pub chunks-IsSplit :
    (fuel size orig : ℕ) (p pre rest : List ℕ)
    → p ≡ pre ++ rest
    → length p ≤ 65535
    → size % 8 ≡ 0
    → 0 < size
    → length pre % 8 ≡ 0
    → length rest ≤ fuel
    → (cs : List Chunk) × (chunks fuel size (length pre) rest ≡ ok cs)
      × IsSplit p (length pre) (map received (map (numbered orig) cs))
unfolding chunks
chunks-IsSplit fuel size orig p pre [] e lp units some_size aligned enough =
    let whole : length p ≡ length pre + 0 =
      ap (λ (t : List ℕ). length t) e ∙ length-append pre [] in
    ([], refl, record { agree = tt; starts = tt; covers = λ i h l. absurd (omega (arith, whole)) })
chunks-IsSplit zero size orig p pre (b ∷ rest) e lp units some_size aligned enough =
    absurd (omega arith)
chunks-IsSplit (suc fuel) size orig p pre (b ∷ rest) e lp units some_size aligned enough =
    let piece : Chunk = record {
      off = length pre;
      body = take size (b ∷ rest);
      more = ltb size (length (b ∷ rest));
    } in
    let size_p : length p ≡ length pre + length (b ∷ rest) =
      ap (λ (t : List ℕ). length t) e ∙ length-append pre (b ∷ rest) in
    let at : (received (numbered orig piece)).offset ≡ length pre =
      offset_back orig piece aligned (omega arith) in
    let right : Agrees p (received (numbered orig piece)) =
      subst (λ (t : List ℕ). Agrees t (received (numbered orig piece))) (sym e)
        (piece-Agrees pre (b ∷ rest) size (received (numbered orig piece)) at refl) in
    elim (Bool-cases (ltb size (length (b ∷ rest)))) [
      | inl goes_on ↦
          let more_left : size < length (b ∷ rest) = ltb→lt size (length (b ∷ rest)) goes_on in
          let next : length (pre ++ take size (b ∷ rest)) ≡ length pre + size =
            omega (arith, length-append pre (take size (b ∷ rest)), length-take size (b ∷ rest)) in
          let split : p ≡ (pre ++ take size (b ∷ rest)) ++ drop size (b ∷ rest) =
            e
            ∙ ap (λ (t : List ℕ). pre ++ t) (sym (take-append-drop size (b ∷ rest)))
            ∙ sym (append_assoc pre (take size (b ∷ rest)) (drop size (b ∷ rest))) in
          let (cs, run, s) =
            chunks-IsSplit fuel size orig p (pre ++ take size (b ∷ rest)) (drop size (b ∷ rest))
              split lp units some_size (omega arith) (omega (arith, length-drop size (b ∷ rest))) in
          let run' : chunks fuel size (length pre + size) (drop size (b ∷ rest)) ≡ ok cs =
            subst (λ (n : ℕ). chunks fuel size n (drop size (b ∷ rest)) ≡ ok cs) next run in
          (
            piece ∷ cs,
            rw run',
            record {
              agree = (right, s.agree);
              starts = (omega arith, s.starts);
              covers = λ i h l. elim (Bool-cases (ltb i (length pre + size))) [
                | inl here ↦ inl (
                  omega arith,
                  omega (arith, length-take size (b ∷ rest), ltb→lt i (length pre + size) here),
                )
                | inr there ↦ inr (s.covers i (omega (arith, ltb→le i (length pre + size) there)) l)
              ];
            },
          )
      | inr last ↦
          let fits : length (b ∷ rest) ≤ size = ltb→le size (length (b ∷ rest)) last in
          let empty : drop size (b ∷ rest) ≡ [] = drop_all size (b ∷ rest) fits in
          (
            piece ∷ [],
            rw empty,
            record {
              agree = (right, tt);
              starts = (omega arith, tt);
              covers = λ i h l. inl (omega arith, omega (arith, length-take size (b ∷ rest)));
            },
          )
    ]

pub fragment_size-units : (n : ℤ) → (fragment_size n % 8 ≡ 0) × (0 < fragment_size n)
unfolding fragment_size
fragment_size-units (pos zero) = (refl, omega arith)
fragment_size-units (pos (suc n)) = whole n
  where
    whole : (n : ℕ) → (whole_units (suc n) % 8 ≡ 0) × (0 < whole_units (suc n))
    whole n = ground arith
fragment_size-units (negsuc n) = (refl, omega arith)
