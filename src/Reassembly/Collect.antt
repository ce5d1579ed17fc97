-- ===== src/Reassembly/Collect.antt =====
-- `tryReassemble` against the payload that the fragments were cut from.
use goscapy.Base.{
  ℕ, zero, suc, ◌≤◌, ◌<◌, ◌≡◌, ◌≢◌, ◌==◌, refl, sym, ◌∙◌, ◌⊎◌, inl, inr, Bool, true, false, ◌||◌,
  List, [], ◌∷◌, none, some, ltb, lt→ltb, if◌then◌else◌, length, replicate, get_elem?, ok, panic,
  All, arith, Bool-cases,
}
use goscapy.Reassembly.{
  Fragment, FragGroup, clipped_end, lay, all_covered, try_reassemble, max_reassembled_size,
}
use goscapy.Reassembly.Coverage.{
  Agrees, CoveredBy, Sound, Laid, lay-Laid, Sound-start, all_covered_get, get_all_covered, list_ext,
}

-- The group has been given only fragments of the payload `p`, the last one among them.
pub record IsCutFrom (p : List ℕ) (g : FragGroup) : Type 0 where
  pub some_bytes : 0 < length p
  pub bounded : length p ≤ max_reassembled_size
  pub ends : g.final_end ≡ length p
  pub agree : All (Agrees p) g.frags
  pub starts : All (λ f. f.offset ≤ length p) g.frags

small : (n : ℕ) → 0 < n → n ≤ max_reassembled_size → (n == 0 || ltb max_reassembled_size n) ≡ false
small n h k = ground arith

abbrev start_buf : List ℕ → List ℕ
start_buf p = replicate (length p) 0

abbrev start_marks : List ℕ → List Bool
start_marks p = replicate (length p) false

lay-start :
    (p : List ℕ) (g : FragGroup)
    → IsCutFrom p g
    → Laid p g.frags (start_marks p) (lay (length p) g.frags (start_buf p) (start_marks p))
lay-start p g c = lay-Laid p g.frags (start_buf p) (start_marks p) (Sound-start p) c.agree c.starts

try_reassemble_laid :
    (p : List ℕ) (g : FragGroup) (c : IsCutFrom p g)
    → try_reassemble g
      ≡ ok (if all_covered (lay-start p g c).after then some (lay-start p g c).buf else none)
unfolding try_reassemble
try_reassemble_laid p g c =
    let l : Laid p g.frags (start_marks p) (lay (length p) g.frags (start_buf p) (start_marks p)) =
      lay-start p g c in
    let tests : (length p == 0 || ltb max_reassembled_size (length p)) ≡ false =
      small (length p) c.some_bytes c.bounded in
    rw (c.ends, tests, l.runs)

-- Where all bytes are marked the buffer is the payload.
whole_payload :
    (p buf : List ℕ) (after : List Bool) → Sound p buf after → all_covered after ≡ true → buf ≡ p
whole_payload p buf after s h =
    list_ext buf p s.size
      (λ i l. s.right i (all_covered_get after h i (omega (arith, s.size, s.marks))))

not_marked : (n i : ℕ) → get_elem? (replicate n false) i ≡ some true → ⊥
not_marked zero i h = cc
not_marked (suc n) zero h = cc
not_marked (suc n) (suc i) h = not_marked n i h

-- Fragments of one payload of 1 to 65535 bytes, in whatever order, with duplicates and overlaps, its
-- last one among them: if they cover every byte, `tryReassemble` gives exactly that payload; if it
-- gives anything, they cover every byte and it is that payload; and it never panics.
pub try_reassemble_lem :
    (p : List ℕ) (g : FragGroup)
    → IsCutFrom p g
    → (((i : ℕ) → i < length p → CoveredBy g.frags i) → try_reassemble g ≡ ok (some p))
      × ((q : List ℕ)
          → try_reassemble g ≡ ok (some q)
          → (q ≡ p) × ((i : ℕ) → i < length p → CoveredBy g.frags i))
      × (try_reassemble g ≢ panic)
try_reassemble_lem p g c =
    let l : Laid p g.frags (start_marks p) (lay (length p) g.frags (start_buf p) (start_marks p)) =
      lay-start p g c in
    let run : try_reassemble g ≡ ok (if all_covered l.after then some l.buf else none) =
      try_reassemble_laid p g c in
    let full : ((i : ℕ) → i < length p → CoveredBy g.frags i) → all_covered l.after ≡ true = λ h.
      get_all_covered l.after
        (λ i m. l.covers i (omega (arith, l.sound.marks)) (h i (omega (arith, l.sound.marks)))) in
    (
      λ h. run ∙ rw (full h, whole_payload p l.buf l.after l.sound (full h)) refl,
      λ q e. got l.after l.buf q l.sound l.only (sym run ∙ e),
      λ e. cc (sym run ∙ e),
    )
  where
    got :
        (after : List Bool) (buf q : List ℕ)
        → Sound p buf after
        → ((i : ℕ)
            → get_elem? after i ≡ some true
            → CoveredBy g.frags i ⊎ (get_elem? (start_marks p) i ≡ some true))
        → ok (if all_covered after then some buf else none) ≡ ok (some q)
        → (q ≡ p) × ((i : ℕ) → i < length p → CoveredBy g.frags i)
    got after buf q s only e = elim (Bool-cases (all_covered after)) [
      | inl t ↦
          let same : ok (some buf) ≡ ok (some q) = rw t at e in
          let eq : buf ≡ q = cc in
          (
            sym eq ∙ whole_payload p buf after s t,
            λ i l. elim (only i (all_covered_get after t i (omega (arith, s.marks)))) [
              | inl c' ↦ c'
              | inr m ↦ absurd (not_marked (length p) i m)
            ],
          )
      | inr f ↦ let bad : ok none ≡ ok (some q) = rw f at e in cc
    ]

-- A fragment that starts behind the end.
abbrev pub StartsBehind : ℕ → List Fragment → Type 0
StartsBehind total [] = ⊥
StartsBehind total (f ∷ fs) = (total < f.offset) ⊎ StartsBehind total fs

lay-panic :
    (total : ℕ) (fs : List Fragment) (buf : List ℕ) (covered : List Bool)
    → StartsBehind total fs
    → lay total fs buf covered ≡ panic
unfolding lay
lay-panic total [] buf covered h = absurd h
lay-panic total (f ∷ fs) buf covered (inl h) =
    rw (lt→ltb (clipped_end f total) f.offset (omega arith))
lay-panic total (f ∷ fs) buf covered (inr h) =
    elim (Bool-cases (ltb (clipped_end f total) f.offset)) [
      | inl t ↦ rw t
      | inr n ↦ rw n (lay-panic total fs _ _ h)
    ]

-- In a group whose end is known, between 1 and 65535, a fragment that starts behind that end makes
-- `tryReassemble` slice out of range and panic.
pub try_reassemble-panic :
    (g : FragGroup)
    → 0 < g.final_end
    → g.final_end ≤ max_reassembled_size
    → StartsBehind g.final_end g.frags
    → try_reassemble g ≡ panic
unfolding try_reassemble
try_reassemble-panic g pos bound h = rw (
  small g.final_end pos bound,
  lay-panic g.final_end g.frags (replicate g.final_end 0) (replicate g.final_end false) h,
)
