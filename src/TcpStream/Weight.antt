-- ===== src/TcpStream/Weight.antt =====
-- The rounds of `advance`, and the bytes that a half stream holds.
use goscapy.Base.{
  ℕ, zero, suc, ◌+◌, ◌%◌, ◌^◌, ◌≤◌, ◌<◌, ◌≡◌, ◌==◌, refl, ap, inl, inr, not, List, [], ◌∷◌, ◌++◌,
  Option, none, some, ltb, length, Outcome, ok, arith, Bool-cases, length-append, length-drop,
}
use goscapy.TcpStream.{
  Segment, HalfStream, usable, pick, Picked, keep, pick_or, continue, append_bytes, advance_loop,
  advance, is_old, receive, add_seq, subtract_seq, seq_before, seq_before_eq,
}

-- The bytes that the stored segments hold, and those of a half stream in all.
abbrev pub held : List Segment → ℕ
held [] = 0
held (s ∷ ss) = length s.body + held ss

abbrev pub weight : HalfStream → ℕ
weight h = length h.buf + held h.segments

held-append : (ss : List Segment) (s : Segment) → held (ss ++ (s ∷ [])) ≡ held ss + length s.body
held-append [] s = omega arith
held-append (x ∷ ss) s = omega (arith, held-append ss s)

-- The parts of a half stream that `advance` leaves alone.
abbrev pub SameCount : HalfStream → HalfStream → Type 0
SameCount h h' = (h'.total_buf ≡ h.total_buf) × (h'.key ≡ h.key)

abbrev Lighter : Option (List ℕ) → Segment → Type 0
Lighter none s = Unit
Lighter (some added) s = length added ≤ length s.body

usable-Lighter : (next : ℕ) (s : Segment) → Lighter (usable next s) s
unfolding usable
usable-Lighter next s = elim (Bool-cases (s.seq == next)) [
  | inl same ↦ rw same (omega arith)
  | inr other ↦ elim (Bool-cases (not (seq_before s.seq next))) [
    | inl ahead ↦ rw (other, ahead) tt
    | inr before ↦ elim (Bool-cases (seq_before_eq (add_seq s.seq (length s.body % 2 ^ 32)) next)) [
      | inl past ↦ rw (other, before, past) tt
      | inr within ↦ elim (Bool-cases (ltb (subtract_seq next s.seq) (length s.body))) [
        | inl room ↦
            rw (other, before, within, room)
              (omega (arith, length-drop (subtract_seq next s.seq) s.body))
        | inr no_room ↦ rw (other, before, within, no_room) tt
      ]
    ]
  ]
]

abbrev Shorter : Picked → List Segment → Type 0
Shorter none ss = Unit
Shorter (some (added, rest)) ss =
    (suc (length rest) ≡ length ss) × (length added + held rest ≤ held ss)

keep-Shorter :
    (s : Segment) (ss : List Segment) (r : Picked) → Shorter r ss → Shorter (keep s r) (s ∷ ss)
keep-Shorter s ss none h = tt
keep-Shorter s ss (some (added, rest)) (l, w) = (ap suc l, omega arith)

pick_or-Shorter :
    (s : Segment) (ss : List Segment) (r : Picked) (o : Option (List ℕ))
    → Lighter o s
    → Shorter r ss
    → Shorter (pick_or o s ss r) (s ∷ ss)
pick_or-Shorter s ss r none l h = keep-Shorter s ss r h
pick_or-Shorter s ss r (some added) l h = (refl, omega arith)

pick-Shorter : (next : ℕ) (ss : List Segment) → Shorter (pick next ss) ss
unfolding pick
pick-Shorter next [] = tt
pick-Shorter next (s ∷ ss) =
    pick_or-Shorter s ss (pick next ss) (usable next s) (usable-Lighter next s)
      (pick-Shorter next ss)

-- Where `advance` ends: with the same count, no more bytes than before, and nothing more to append.
abbrev pub Advanced : HalfStream → HalfStream → Type 0
Advanced h h' = SameCount h h' × (weight h' ≤ weight h) × (pick h'.next_seq h'.segments ≡ none)

continue-Advanced :
    (h : HalfStream) (next : HalfStream → Outcome HalfStream) (r : Picked)
    → pick h.next_seq h.segments ≡ r
    → Shorter r h.segments
    → ((t : HalfStream)
        → suc (length t.segments) ≡ length h.segments
        → (h' : HalfStream) × (next t ≡ ok h') × Advanced t h')
    → (h' : HalfStream) × (continue h r next ≡ ok h') × Advanced h h'
continue-Advanced h next none e s k = (h, refl, ((refl, refl), omega arith, e))
continue-Advanced h next (some (added, rest)) e (l, w) k =
    let (h', run, (same, less, ends)) = k (append_bytes h added rest) l in
    (h', run, (same, omega (arith, length-append h.buf added), ends))

advance_loop-Advanced :
    (fuel : ℕ) (h : HalfStream)
    → length h.segments < fuel
    → (h' : HalfStream) × (advance_loop fuel h ≡ ok h') × Advanced h h'
unfolding advance_loop
advance_loop-Advanced zero h lt = absurd (omega arith)
advance_loop-Advanced (suc fuel) h lt =
    continue-Advanced h (λ t. advance_loop fuel t) (pick h.next_seq h.segments) refl
      (pick-Shorter h.next_seq h.segments) (λ t l. advance_loop-Advanced fuel t (omega arith))

-- `advance` ends for any half stream, whatever its segments: its count and key stay, it holds no more
-- bytes than before, and none of the segments that are left can be appended.
pub advance-Advanced : (h : HalfStream) → (h' : HalfStream) × (advance h ≡ ok h') × Advanced h h'
unfolding advance
advance-Advanced h = advance_loop-Advanced (length h.segments + 1) h (omega arith)

pub receive-Weight :
    (h : HalfStream) (seq : ℕ) (payload : List ℕ)
    → (h' : HalfStream) × (receive h seq payload ≡ ok h')
      × SameCount h h'
      × (weight h' ≤ weight h + length payload)
unfolding receive
receive-Weight h seq payload = elim (Bool-cases (is_old h seq payload)) [
  | inl old ↦ rw old (h, refl, (refl, refl), omega arith)
  | inr new ↦
      let s : Segment = record { seq = seq; body = payload } in
      let (h', e, (same, less, ends)) =
        advance-Advanced (record h { segments = h.segments ++ (s ∷ []) }) in
      rw new (h', e, same, omega (arith, held-append h.segments s))
]
