-- ===== src/Fragmentation/Reassembled.antt =====
-- `Fragment` and then `tryReassemble`.
use goscapy.Base.{
  ℕ, zero, suc, ◌+◌, ◌%◌, ◌≤◌, ◌<◌, ◌≡◌, ◌==◌, refl, ap, sym, subst, ◌∙◌, inl, inr, not, List, [],
  ◌∷◌, ◌++◌, some, ltb, length, take, drop, map, ℤ, ok, arith, ◌/◌, ◌^◌, if◌then◌else◌, Bool, true,
  false, Bool-cases, length-take, length-drop, append_assoc, append-nil, >>=-eq-ok, drop_all,
  take_all, leb→le, ltb→lt, ltb→le, leb, ◌⊎◌,
}
use goscapy.Reassembly.{add_fragment, empty_group, Fragment, FragGroup, try_reassemble}
use goscapy.Reassembly.Coverage.{CoveredBy}
use goscapy.Reassembly.Collect.{IsCutFrom, try_reassemble_lem}
use goscapy.Fragmentation.{Chunk, Piece, numbered, chunks, fragment, fragment_size, ip_flags}
use goscapy.Fragmentation.Split.{
  received, IsSplit, offset_back, piece-Agrees, chunks-IsSplit, fragment_size-units,
}

more_back : (orig : ℕ) (c : Chunk) → c.off ≤ 65535 → (received (numbered orig c)).more ≡ c.more
more_back orig c lt = elim (Bool-cases c.more) [
  | inl t ↦ rw t (bit (c.off / 8) true)
  | inr f ↦ rw f (bit (c.off / 8) false)
]
  where
    bit :
        (n : ℕ) (m : Bool)
        → not (
            ip_flags (
                n % 2 ^ 16 % 2 ^ 13
                + (if m then 2 ^ 13 else 0)
                + (if orig / 2 ^ 14 % 2 == 0 then 0 else 2 ^ 14))
              % 2
            == 0)
          ≡ m
    bit n true = ground arith
    bit n false = ground arith

-- The group as it takes the fragments one by one.
unfoldable pub gather : FragGroup → List Fragment → ℕ → FragGroup
unfolding add_fragment
gather g [] now = g
gather g (f ∷ fs) now = gather (add_fragment g f now) fs now

gather-frags :
    (g : FragGroup) (fs : List Fragment) (now : ℕ) → (gather g fs now).frags ≡ g.frags ++ fs
unfolding gather
gather-frags g [] now = sym (append-nil g.frags)
gather-frags g (f ∷ fs) now =
    gather-frags (add_fragment g f now) fs now ∙ append_assoc g.frags (f ∷ []) fs

add_fragment-last :
    (g : FragGroup) (f : Fragment) (now : ℕ)
    → f.more ≡ false
    → (add_fragment g f now).final_end ≡ (f.offset + length f.body) % 2 ^ 32
unfolding add_fragment
add_fragment-last g f now e = rw e

gather-chunks :
    (fuel size orig off now : ℕ) (rest : List ℕ) (cs : List Chunk) (g : FragGroup)
    → chunks fuel size off rest ≡ ok cs
    → 0 < length rest
    → off + length rest ≤ 65535
    → size % 8 ≡ 0
    → off % 8 ≡ 0
    → (gather g (map received (map (numbered orig) cs)) now).final_end ≡ off + length rest
unfolding chunks gather
gather-chunks fuel size orig off now [] cs g e some_left fits units aligned = absurd (omega arith)
gather-chunks zero size orig off now (b ∷ rest) cs g e some_left fits units aligned = cc
gather-chunks (suc fuel) size orig off now (b ∷ rest) cs g e some_left fits units aligned =
    let piece : Chunk = record {
      off = off;
      body = take size (b ∷ rest);
      more = ltb size (length (b ∷ rest));
    } in
    let f : Fragment = received (numbered orig piece) in
    let (others, run, e') = >>=-eq-ok (chunks fuel size (off + size) (drop size (b ∷ rest))) _ e in
    let whole : piece ∷ others ≡ cs = cc in
    let flag : f.more ≡ ltb size (length (b ∷ rest)) = more_back orig piece (omega arith) in
    let at : f.offset ≡ off = offset_back orig piece aligned (omega arith) in
    elim (Bool-cases (ltb size (length (b ∷ rest)))) [
      | inl goes_on ↦
          let more_left : size < length (b ∷ rest) = ltb→lt size (length (b ∷ rest)) goes_on in
          rw (← whole) (
            gather-chunks fuel size orig (off + size) now (drop size (b ∷ rest)) others
              (add_fragment g f now) run (omega (arith, length-drop size (b ∷ rest)))
              (omega (arith, length-drop size (b ∷ rest))) units (omega arith)
            ∙ omega (arith, length-drop size (b ∷ rest)))
      | inr last ↦
          let within : length (b ∷ rest) ≤ size = ltb→le size (length (b ∷ rest)) last in
          let empty : drop size (b ∷ rest) ≡ [] = drop_all size (b ∷ rest) within in
          let none_left : [] ≡ others = cc (rw empty at run) in
          rw (← whole, ← none_left)
            (add_fragment-last g f now (flag ∙ last)
              ∙ ap (λ (n : ℕ). (n + length f.body) % 2 ^ 32) at
              ∙ omega (arith, length-take size (b ∷ rest)))
    ]

-- What the receiver's group needs of the fragments of a payload.
record IsWhole (payload : List ℕ) (fs : List Fragment) : Type 0 where
  split : IsSplit payload 0 fs
  ends : (now : ℕ) → (gather empty_group fs now).final_end ≡ length payload

IsWhole-try_reassemble :
    (payload : List ℕ) (fs : List Fragment) (now : ℕ)
    → 0 < length payload
    → length payload ≤ 65535
    → IsWhole payload fs
    → try_reassemble (gather empty_group fs now) ≡ ok (some payload)
IsWhole-try_reassemble payload fs now some_bytes bounded w =
    let frags : (gather empty_group fs now).frags ≡ fs = gather-frags empty_group fs now in
    let cut : IsCutFrom payload (gather empty_group fs now) = record {
      some_bytes = some_bytes;
      bounded = bounded;
      ends = w.ends now;
      agree = rw frags w.split.agree;
      starts = rw frags w.split.starts;
    } in
    (try_reassemble_lem payload (gather empty_group fs now) cut).0 (λ i l.
      subst (λ (t : List Fragment). CoveredBy t i) (sym frags) (w.split.covers i (omega arith) l))

-- The chunks of a payload.
chunks-IsWhole :
    (payload : List ℕ) (frag_size : ℤ) (orig : ℕ)
    → 0 < length payload
    → length payload ≤ 65535
    → (cs : List Chunk) × (chunks (length payload) (fragment_size frag_size) 0 payload ≡ ok cs)
      × IsWhole payload (map received (map (numbered orig) cs))
chunks-IsWhole payload frag_size orig some_bytes bounded =
    let (units, positive) = fragment_size-units frag_size in
    let (cs, run, s) =
      chunks-IsSplit (length payload) (fragment_size frag_size) orig payload [] payload refl bounded
        units positive (omega arith) (omega arith) in
    (
      cs,
      run,
      record {
        split = s;
        ends = λ now.
            gather-chunks (length payload) (fragment_size frag_size) orig 0 now payload cs
              empty_group run some_bytes (omega arith) units (omega arith)
            ∙ omega arith;
      },
    )

-- A packet that was not a fragment, as a whole.
copy-IsWhole :
    (payload : List ℕ) (orig : ℕ)
    → length payload ≤ 65535
    → orig % 2 ^ 14 ≡ 0
    → IsWhole payload (received (record { frag = orig; body = payload }) ∷ [])
unfolding gather
copy-IsWhole payload orig bounded whole =
    let f : Fragment = received (record { frag = orig; body = payload }) in
    let at : f.offset ≡ 0 = ground arith in
    let flag : f.more ≡ false = ground arith in
    record {
      split = record {
        agree = (
          piece-Agrees [] payload (length payload) f at
              (sym (take_all (length payload) payload (omega arith))),
          tt,
        );
        starts = (omega arith, tt);
        covers = λ i h l. inl (omega arith, omega arith);
      };
      ends = λ now. add_fragment-last empty_group f now flag ∙ omega (arith, at);
    }

fit_whole : (size n orig : ℕ) → (size < n) ⊎ (orig % 2 ^ 14 ≡ 0) → n ≤ size → orig % 2 ^ 14 ≡ 0
fit_whole size n orig (inl larger) fits = absurd (omega (arith, larger, fits))
fit_whole size n orig (inr whole) fits = whole

-- A payload of 1 to 65535 bytes of a packet, cut by `Fragment` for any size that is asked for. The
-- payload is larger than a piece, or the packet is not a fragment itself (its fragment field has no
-- offset and not the flag MF). Then `Fragment` returns packets, and a new group that takes them as
-- the receiver reads them from their fragment fields is put together to exactly the payload.
pub fragment-try_reassemble :
    (payload : List ℕ) (frag_size : ℤ) (orig now : ℕ)
    → 0 < length payload
    → length payload ≤ 65535
    → (fragment_size frag_size < length payload) ⊎ (orig % 2 ^ 14 ≡ 0)
    → (ps : List Piece) × (fragment payload frag_size orig ≡ ok ps)
      × (try_reassemble (gather empty_group (map received ps) now) ≡ ok (some payload))
unfolding fragment
fragment-try_reassemble payload frag_size orig now some_bytes bounded fit =
    let (cs, run, w) = chunks-IsWhole payload frag_size orig some_bytes bounded in
    elim (Bool-cases (leb (length payload) (fragment_size frag_size))) [
      | inl fits ↦
          let whole : orig % 2 ^ 14 ≡ 0 =
            fit_whole (fragment_size frag_size) (length payload) orig fit
              (leb→le (length payload) (fragment_size frag_size) fits) in
          (
            record { frag = orig; body = payload } ∷ [],
            rw fits,
            IsWhole-try_reassemble payload _ now some_bytes bounded
                (copy-IsWhole payload orig bounded whole),
          )
      | inr cut ↦ (
        map (numbered orig) cs,
        rw (cut, run),
        IsWhole-try_reassemble payload _ now some_bytes bounded w,
      )
    ]
