-- ===== src/Dissect/Progress.antt =====
-- The rounds of the loop of `dissect`, and the bytes that each takes.
use goscapy.Base.{
  ℕ, zero, suc, ◌+◌, ◌≤◌, ◌<◌, ◌≡◌, ◌≢◌, refl, inl, inr, String, str_eq, not, List, [], ◌∷◌, ◌++◌,
  Option, none, some, ltb, if◌then◌else◌, length, drop, ℤ, pos, negsuc, Outcome, ok, err, panic,
  stuck, ◌>>=◌, unsupported, arith, Bool-cases, length-drop,
}
use goscapy.Layer.{Layer, parse_fields, is_some}
use goscapy.Packet.{Packet, new_from}
use goscapy.Dissect.{
  Registry, max_tunnel_depth, size_or, header_size, post_parse, Round, leave, follow, tunnel, turn,
  round_parsed, round_of, round, Loop, proceed, dissect_loop, dissect, dissect_by_proto,
}

-- A new layer of each registered protocol that can parse the bytes takes one of them at least, and
-- neither the parsing of a layer nor a hook runs out of fuel (which is no behaviour of Go code).
pub record IsProductive (reg : Registry) : Type 0 where
  pub takes_a_byte :
      (proto : String) (l : Layer) (b : ℕ) (bytes : List ℕ) (consumed : ℕ)
      → reg.factories proto ≡ some l
      → (parse_fields l (b ∷ bytes)).1 ≡ ok consumed
      → 0 < consumed
  pub parse_ends :
      (proto : String) (l : Layer) (bytes : List ℕ)
      → reg.factories proto ≡ some l
      → (parse_fields l bytes).1 ≢ stuck
  pub hook_ends :
      (proto : String) (hook : Layer → List ℕ → Outcome Layer) (l : Layer) (extra : List ℕ)
      → reg.post_parse_hooks proto ≡ some hook
      → hook l extra ≢ stuck

-- What is left after a round that goes on is shorter.
abbrev Shrinks : ℕ → Outcome Round → Type 0
Shrinks n (ok (leave layers rest)) = Unit
Shrinks n (ok (follow layers rest proto)) = (length rest < n) × (0 < length rest)
Shrinks n (ok (tunnel layers rest inner)) = (length rest < n) × (0 < length rest)
Shrinks n (err e) = Unit
Shrinks n panic = Unit
Shrinks n stuck = ⊥

turn-Shrinks :
    (reg : Registry) (proto : String) (layers : List Layer) (l : Layer) (rest : List ℕ)
    (o : Option String) (n : ℕ)
    → length rest < n
    → Shrinks n (ok (turn reg proto layers l rest o))
turn-Shrinks reg proto layers l [] o n h = tt
turn-Shrinks reg proto layers l (b ∷ rest) none n h = (h, omega arith)
turn-Shrinks reg proto layers l (b ∷ rest) (some inner) n h = (h, omega arith)

header_size-positive :
    (o : Option (Layer → ℤ)) (l : Layer) (consumed : ℕ)
    → 0 < consumed
    → 0 < header_size o l consumed
header_size-positive none l consumed h = h
header_size-positive (some fn) l consumed h = sized (fn l)
  where
    sized : (z : ℤ) → 0 < size_or z consumed
    sized (pos zero) = h
    sized (pos (suc n)) = omega arith
    sized (negsuc n) = h

after_hook :
    (reg : Registry) (proto : String) (layers : List Layer) (rest : List ℕ) (n : ℕ)
    (r : Outcome Layer)
    → length rest < n
    → r ≢ stuck
    → Shrinks n (do l' ← r; ok (turn reg proto layers l' rest (reg.tunnel_payload proto)))
after_hook reg proto layers rest n (ok l') h s =
    turn-Shrinks reg proto layers l' rest (reg.tunnel_payload proto) n h
after_hook reg proto layers rest n (err e) h s = tt
after_hook reg proto layers rest n panic h s = tt
after_hook reg proto layers rest n stuck h s = s refl

post_parse-ends :
    (reg : Registry) (proto : String) (o : Option (Layer → List ℕ → Outcome Layer)) (l : Layer)
    (consumed size : ℕ) (remaining : List ℕ)
    → IsProductive reg
    → reg.post_parse_hooks proto ≡ o
    → post_parse o l consumed size remaining ≢ stuck
post_parse-ends reg proto none l consumed size remaining p e = λ h. cc
post_parse-ends reg proto (some hook) l consumed size remaining p e =
    elim (Bool-cases (ltb consumed size)) [
      | inl t ↦ rw t (p.hook_ends proto hook l _ e)
      | inr f ↦ rw f (λ h. cc)
    ]

round_parsed-Shrinks :
    (reg : Registry) (proto : String) (layers : List Layer) (b : ℕ) (bytes : List ℕ) (l : Layer)
    (parsed : Outcome ℕ)
    → IsProductive reg
    → ((consumed : ℕ) → parsed ≡ ok consumed → 0 < consumed)
    → parsed ≢ stuck
    → Shrinks (length (b ∷ bytes)) (round_parsed reg proto layers (b ∷ bytes) l parsed)
unfolding round_parsed
round_parsed-Shrinks reg proto layers b bytes l (err e) p pos_size ends = tt
round_parsed-Shrinks reg proto layers b bytes l panic p pos_size ends = tt
round_parsed-Shrinks reg proto layers b bytes l stuck p pos_size ends = ends refl
round_parsed-Shrinks reg proto layers b bytes l (ok consumed) p pos_size ends =
    let size : ℕ = header_size (reg.header_size_fn proto) l consumed in
    let taken : 0 < size =
      header_size-positive (reg.header_size_fn proto) l consumed (pos_size consumed refl) in
    elim (Bool-cases (ltb (length (b ∷ bytes)) size)) [
      | inl over ↦ rw over tt
      | inr within ↦ rw within (
          after_hook reg proto layers (drop size (b ∷ bytes)) (length (b ∷ bytes)) _
            (omega (arith, length-drop size (b ∷ bytes)))
            (post_parse-ends reg proto (reg.post_parse_hooks proto) l consumed size (b ∷ bytes) p
              refl))
    ]

round-Shrinks :
    (reg : Registry) (proto : String) (layers : List Layer) (b : ℕ) (bytes : List ℕ)
    → IsProductive reg
    → Shrinks (length (b ∷ bytes)) (round reg proto layers (b ∷ bytes))
unfolding round
round-Shrinks reg proto layers b bytes p = elim (Bool-cases (str_eq proto "")) [
  | inl t ↦ rw t tt
  | inr f ↦ rw f (made (reg.factories proto) refl)
]
  where
    made :
        (o : Option Layer)
        → reg.factories proto ≡ o
        → Shrinks (length (b ∷ bytes)) (round_of reg proto layers (b ∷ bytes) o)
    made none e = tt
    made (some l) e =
        round_parsed-Shrinks reg proto layers b bytes (parse_fields l (b ∷ bytes)).0
          (parse_fields l (b ∷ bytes)).1 p
          (λ consumed h. p.takes_a_byte proto l b bytes consumed e h)
          (p.parse_ends proto l (b ∷ bytes) e)

-- Inside the loop, with more fuel than bytes.
abbrev Ends : Loop → ℕ → Type 0
Ends loop fuel =
    (depth : ℕ) (layers : List Layer) (b : ℕ) (bytes : List ℕ) (proto : String)
    → length (b ∷ bytes) < fuel
    → loop depth layers (b ∷ bytes) proto ≢ stuck

appended-ends :
    (layers : List Layer) (r : Outcome (List Layer))
    → r ≢ stuck
    → (do deeper ← r; ok (layers ++ deeper)) ≢ stuck
appended-ends layers (ok deeper) h = λ e. cc
appended-ends layers (err e) h = λ e'. cc
appended-ends layers panic h = λ e. cc
appended-ends layers stuck h = λ e. h refl

proceed-Ends :
    (reg : Registry) (depth fuel n : ℕ) (loop : Loop) (r : Outcome Round)
    → Ends loop fuel
    → n ≤ fuel
    → Shrinks n r
    → proceed reg depth loop r ≢ stuck
proceed-Ends reg depth fuel n loop (err e) k h s = λ e'. cc
proceed-Ends reg depth fuel n loop panic k h s = λ e. cc
proceed-Ends reg depth fuel n loop stuck k h s = absurd s
proceed-Ends reg depth fuel n loop (ok (leave layers rest)) k h s = λ e. cc
proceed-Ends reg depth fuel n loop (ok (follow layers [] proto)) k h (l, some_left) =
    absurd (omega arith)
proceed-Ends reg depth fuel n loop (ok (follow layers (b ∷ rest) proto)) k h (l, some_left) =
    k depth layers b rest proto (omega arith)
proceed-Ends reg depth fuel n loop (ok (tunnel layers [] inner)) k h (l, some_left) =
    absurd (omega arith)
proceed-Ends reg depth fuel n loop (ok (tunnel layers (b ∷ rest) inner)) k h (l, some_left) =
    elim (Bool-cases (ltb max_tunnel_depth (depth + 1))) [
      | inl deep ↦ rw deep (λ e. cc)
      | inr room ↦ rw room (
          appended-ends layers (loop (depth + 1) [] (b ∷ rest) inner)
            (k (depth + 1) [] b rest inner (omega arith)))
    ]

dissect_loop-Ends :
    (reg : Registry) (fuel : ℕ) → IsProductive reg → Ends (dissect_loop reg fuel) fuel
unfolding dissect_loop
dissect_loop-Ends reg zero p depth layers b bytes proto lt = absurd (omega arith)
dissect_loop-Ends reg (suc fuel) p depth layers b bytes proto lt =
    proceed-Ends reg depth fuel (length (b ∷ bytes)) (dissect_loop reg fuel)
      (round reg proto layers (b ∷ bytes)) (dissect_loop-Ends reg fuel p) (omega arith)
      (round-Shrinks reg proto layers b bytes p)

packet-ends : (r : Outcome (List Layer)) → r ≢ stuck → (do layers ← r; ok (new_from layers)) ≢ stuck
packet-ends (ok layers) h = λ e. cc
packet-ends (err e) h = λ e'. cc
packet-ends panic h = λ e. cc
packet-ends stuck h = λ e. h refl

-- With a registry whose new layers take a byte at least of any bytes that they can parse, and where
-- the parsing of a layer and the hooks end, `Dissect` and `DissectByProto` end on every input, whatever
-- the first protocol, the size functions, the next protocols and the tunnels: one round more than
-- there are bytes, the rounds inside tunnels included, is enough.
pub dissect-ends :
    (reg : Registry) (raw : List ℕ) (proto : String)
    → IsProductive reg
    → (dissect reg (λ b. ok proto) raw ≢ stuck) × (dissect_by_proto reg proto raw ≢ stuck)
unfolding dissect dissect_by_proto
dissect-ends reg [] proto p = (λ e. cc, λ e. cc)
dissect-ends reg (b ∷ raw) proto p =
    let loop : dissect_loop reg (length (b ∷ raw) + 1) 0 [] (b ∷ raw) proto ≢ stuck =
      dissect_loop-Ends reg (length (b ∷ raw) + 1) p 0 [] b raw proto (omega arith) in
    (packet-ends _ loop, by_proto (reg.factories proto) (packet-ends _ loop))
  where
    by_proto :
        (o : Option Layer) {r : Outcome Packet}
        → r ≢ stuck
        → (if not (is_some o) then err unsupported else r) ≢ stuck
    by_proto none h = λ e. cc
    by_proto (some l) h = h
