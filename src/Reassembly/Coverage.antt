-- ===== src/Reassembly/Coverage.antt =====
-- The loop of `tryReassemble`: what the buffer and the marks of covered bytes hold.
use goscapy.Base.{
  ℕ, zero, suc, ◌+◌, ◌-◌, ◌≤◌, ◌<◌, ◌≡◌, refl, ap, sym, ◌∙◌, ◌⊎◌, inl, inr, Bool, true, false, List,
  [], ◌∷◌, some, ltb, le→ltb, ltb→lt, ltb→le, length, take, copy, replicate, get_elem?, Outcome, ok,
  All, arith, length-copy, length-take, length-replicate, Bool-cases,
}
use goscapy.Reassembly.{Fragment, place, clipped_end, lay, all_covered}

module _ {ℓ} {A : Type ℓ} where
  copy_in :
      (buf vals : List A) (j : ℕ)
      → j < length vals
      → j < length buf
      → get_elem? (copy buf vals) j ≡ get_elem? vals j
  copy_in [] vals j h k = absurd (omega arith)
  copy_in (b ∷ buf) [] j h k = absurd (omega arith)
  copy_in (b ∷ buf) (v ∷ vals) zero h k = refl
  copy_in (b ∷ buf) (v ∷ vals) (suc j) h k = copy_in buf vals j (omega arith) (omega arith)

  copy_out :
      (buf vals : List A) (j : ℕ) → length vals ≤ j → get_elem? (copy buf vals) j ≡ get_elem? buf j
  copy_out [] vals j h = refl
  copy_out (b ∷ buf) [] j h = refl
  copy_out (b ∷ buf) (v ∷ vals) zero h = absurd (omega arith)
  copy_out (b ∷ buf) (v ∷ vals) (suc j) h = copy_out buf vals j (omega arith)

  length-place : (buf vals : List A) (i : ℕ) → length (place buf i vals) ≡ length buf
  unfolding place
  length-place buf vals zero = length-copy buf vals
  length-place [] vals (suc i) = refl
  length-place (b ∷ buf) vals (suc i) = ap suc (length-place buf vals i)

  place_in :
      (buf vals : List A) (i j : ℕ)
      → i ≤ j
      → j < i + length vals
      → j < length buf
      → get_elem? (place buf i vals) j ≡ get_elem? vals (j - i)
  unfolding place
  place_in buf vals zero j h k l =
      let e : j ≡ j - 0 = omega arith in
      copy_in buf vals j (omega arith) l ∙ ap (λ n. get_elem? vals n) e
  place_in [] vals (suc i) j h k l = absurd (omega arith)
  place_in (b ∷ buf) vals (suc i) zero h k l = absurd (omega arith)
  place_in (b ∷ buf) vals (suc i) (suc j) h k l =
      let e : j - i ≡ suc j - suc i = omega arith in
      place_in buf vals i j (omega arith) (omega arith) (omega arith) ∙ ap (λ n. get_elem? vals n) e

  place_out :
      (buf vals : List A) (i j : ℕ)
      → (j < i) ⊎ (i + length vals ≤ j)
      → get_elem? (place buf i vals) j ≡ get_elem? buf j
  unfolding place
  place_out buf vals zero j (inl h) = absurd (omega arith)
  place_out buf vals zero j (inr h) = copy_out buf vals j (omega arith)
  place_out [] vals (suc i) j h = refl
  place_out (b ∷ buf) vals (suc i) zero h = refl
  place_out (b ∷ buf) vals (suc i) (suc j) (inl h) = place_out buf vals i j (inl (omega arith))
  place_out (b ∷ buf) vals (suc i) (suc j) (inr h) = place_out buf vals i j (inr (omega arith))

  get_elem?-take : (n : ℕ) (xs : List A) (i : ℕ) → i < n → get_elem? (take n xs) i ≡ get_elem? xs i
  get_elem?-take zero xs i h = absurd (omega arith)
  get_elem?-take (suc n) [] i h = refl
  get_elem?-take (suc n) (x ∷ xs) zero h = refl
  get_elem?-take (suc n) (x ∷ xs) (suc i) h = get_elem?-take n xs i (omega arith)

  get_elem?-replicate : (n : ℕ) (a : A) (i : ℕ) → i < n → get_elem? (replicate n a) i ≡ some a
  get_elem?-replicate zero a i h = absurd (omega arith)
  get_elem?-replicate (suc n) a zero h = refl
  get_elem?-replicate (suc n) a (suc i) h = get_elem?-replicate n a i (omega arith)

  -- Lists with the same elements at each index are equal.
  pub list_ext :
      (xs ys : List A)
      → length xs ≡ length ys
      → ((i : ℕ) → i < length xs → get_elem? xs i ≡ get_elem? ys i)
      → xs ≡ ys
  list_ext [] [] e h = refl
  list_ext [] (y ∷ ys) e h = absurd (omega arith)
  list_ext (x ∷ xs) [] e h = absurd (omega arith)
  list_ext (x ∷ xs) (y ∷ ys) e h =
      let head : some x ≡ some y = h 0 (omega arith) in
      let first : x ≡ y = cc in
      rw (first, list_ext xs ys (omega arith) (λ i l. h (suc i) (omega arith)))

-- The fragment holds what the payload `p` has at its place.
abbrev pub Agrees : List ℕ → Fragment → Type 0
Agrees p f =
    (i : ℕ)
    → i < length f.body
    → f.offset + i < length p
    → get_elem? f.body i ≡ get_elem? p (f.offset + i)

abbrev pub Covers : Fragment → ℕ → Type 0
Covers f i = (f.offset ≤ i) × (i < f.offset + length f.body)

-- One of the fragments covers the byte.
abbrev pub CoveredBy : List Fragment → ℕ → Type 0
CoveredBy [] i = ⊥
CoveredBy (f ∷ fs) i = Covers f i ⊎ CoveredBy fs i

-- The bytes that are marked are the payload's.
pub record Sound (p buf : List ℕ) (covered : List Bool) : Type 0 where
  pub size : length buf ≡ length p
  pub marks : length covered ≡ length p
  pub right : (i : ℕ) → get_elem? covered i ≡ some true → get_elem? buf i ≡ get_elem? p i

-- How many bytes of a fragment are laid.
abbrev span : Fragment → ℕ → ℕ
span f total = clipped_end f total - f.offset

abbrev laid : List ℕ → List ℕ → Fragment → List ℕ
laid p buf f = place buf f.offset (take (span f (length p)) f.body)

abbrev marked : List ℕ → List Bool → Fragment → List Bool
marked p covered f = place covered f.offset (replicate (span f (length p)) true)

-- The byte is in the laid part, or outside of it.
where_is :
    (f : Fragment) (total i : ℕ)
    → ((f.offset ≤ i)
        × (i < f.offset + span f total)
        × (i < total)
        × (i < f.offset + length f.body))
      ⊎ ((i < f.offset) ⊎ (f.offset + span f total ≤ i))
where_is f total i = elim (Bool-cases (ltb i f.offset)) [
  | inl before ↦ inr (inl (ltb→lt i f.offset before))
  | inr from ↦ elim (Bool-cases (ltb i (f.offset + span f total))) [
    | inl within ↦
        inl (omega (arith, ltb→le i f.offset from, ltb→lt i (f.offset + span f total) within))
    | inr behind ↦ inr (inr (ltb→le i (f.offset + span f total) behind))
  ]
]

length-span : (f : Fragment) (total : ℕ) → length (take (span f total) f.body) ≡ span f total
length-span f total = omega (arith, length-take (span f total) f.body)

length-marks : (f : Fragment) (total : ℕ) → length (replicate (span f total) true) ≡ span f total
length-marks f total = length-replicate (span f total) true

laid_in :
    (p buf : List ℕ) (f : Fragment) (i : ℕ)
    → length buf ≡ length p
    → Agrees p f
    → f.offset ≤ i
    → i < f.offset + span f (length p)
    → i < length p
    → get_elem? (laid p buf f) i ≡ get_elem? p i
laid_in p buf f i size a lo hi in_p =
    let back : f.offset + (i - f.offset) ≡ i = omega arith in
    place_in buf (take (span f (length p)) f.body) f.offset i lo
      (omega (arith, length-span f (length p))) (omega arith)
    ∙ get_elem?-take (span f (length p)) f.body (i - f.offset) (omega arith)
    ∙ a (i - f.offset) (omega arith) (omega arith)
    ∙ ap (λ n. get_elem? p n) back

place_outside {ℓ} :
    {A : Type ℓ} (buf vals : List A) (i j n : ℕ)
    → length vals ≡ n
    → (j < i) ⊎ (i + n ≤ j)
    → get_elem? (place buf i vals) j ≡ get_elem? buf j
place_outside buf vals i j n e (inl h) = place_out buf vals i j (inl h)
place_outside buf vals i j n e (inr h) = place_out buf vals i j (inr (omega arith))

Sound-laid :
    (p buf : List ℕ) (covered : List Bool) (f : Fragment)
    → Sound p buf covered
    → Agrees p f
    → Sound p (laid p buf f) (marked p covered f)
Sound-laid p buf covered f s a = record {
  size = length-place buf (take (span f (length p)) f.body) f.offset ∙ s.size;
  marks = length-place covered (replicate (span f (length p)) true) f.offset ∙ s.marks;
  right = λ i h. elim (where_is f (length p) i) [
    | inl (lo, hi, in_p, in_f) ↦ laid_in p buf f i s.size a lo hi in_p
    | inr out ↦
        place_outside buf (take (span f (length p)) f.body) f.offset i (span f (length p))
          (length-span f (length p)) out
        ∙ s.right i (
            sym (
              place_outside covered (replicate (span f (length p)) true) f.offset i
                (span f (length p)) (length-marks f (length p)) out)
            ∙ h)
  ];
}

-- A covered byte is marked, and a mark stays.
marked_in :
    (p : List ℕ) (covered : List Bool) (f : Fragment) (i : ℕ)
    → length covered ≡ length p
    → f.offset ≤ i
    → i < f.offset + span f (length p)
    → i < length p
    → get_elem? (marked p covered f) i ≡ some true
marked_in p covered f i size lo hi in_p =
    place_in covered (replicate (span f (length p)) true) f.offset i lo
      (omega (arith, length-marks f (length p))) (omega arith)
    ∙ get_elem?-replicate (span f (length p)) true (i - f.offset) (omega arith)

marked_keeps :
    (p : List ℕ) (covered : List Bool) (f : Fragment) (i : ℕ)
    → length covered ≡ length p
    → get_elem? covered i ≡ some true
    → get_elem? (marked p covered f) i ≡ some true
marked_keeps p covered f i size h = elim (where_is f (length p) i) [
  | inl (lo, hi, in_p, in_f) ↦ marked_in p covered f i size lo hi in_p
  | inr out ↦
      place_outside covered (replicate (span f (length p)) true) f.offset i (span f (length p))
        (length-marks f (length p)) out
      ∙ h
]

-- What the loop gives, if no fragment starts behind the end.
pub record Laid (p : List ℕ) (fs : List Fragment) (before : List Bool)
    (r : Outcome (List ℕ × List Bool)) : Type 0 where
  pub buf : List ℕ
  pub after : List Bool
  pub runs : r ≡ ok (buf, after)
  pub sound : Sound p buf after
  pub keeps : (i : ℕ) → get_elem? before i ≡ some true → get_elem? after i ≡ some true
  pub covers : (i : ℕ) → i < length p → CoveredBy fs i → get_elem? after i ≡ some true
  pub only :
      (i : ℕ) → get_elem? after i ≡ some true → CoveredBy fs i ⊎ (get_elem? before i ≡ some true)

pub lay-Laid :
    (p : List ℕ) (fs : List Fragment) (buf : List ℕ) (covered : List Bool)
    → Sound p buf covered
    → All (Agrees p) fs
    → All (λ f. f.offset ≤ length p) fs
    → Laid p fs covered (lay (length p) fs buf covered)
unfolding lay
lay-Laid p [] buf covered s a l = record {
  buf = buf;
  after = covered;
  runs = refl;
  sound = s;
  keeps = λ i h. h;
  covers = λ i h c. absurd c;
  only = λ i h. inr h;
}
lay-Laid p (f ∷ fs) buf covered s (af, a) (lf, l) =
    let rest : Laid p fs (marked p covered f)
        (lay (length p) fs (laid p buf f) (marked p covered f)) =
      lay-Laid p fs (laid p buf f) (marked p covered f) (Sound-laid p buf covered f s af) a l in
    record {
      buf = rest.buf;
      after = rest.after;
      runs = rw (le→ltb (clipped_end f (length p)) f.offset (omega arith)) rest.runs;
      sound = rest.sound;
      keeps = λ i h. rest.keeps i (marked_keeps p covered f i s.marks h);
      covers = λ i h c. elim c [
        | inl (lo, hi) ↦ rest.keeps i (marked_in p covered f i s.marks lo (omega arith) h)
        | inr c' ↦ rest.covers i h c'
      ];
      only = λ i h. elim (rest.only i h) [
        | inl c ↦ inl (inr c)
        | inr m ↦ elim (where_is f (length p) i) [
          | inl (lo, hi, in_p, in_f) ↦ inl (inl (lo, in_f))
          | inr out ↦ inr (
              sym (
                place_outside covered (replicate (span f (length p)) true) f.offset i
                  (span f (length p)) (length-marks f (length p)) out)
              ∙ m)
        ]
      ];
    }

pub all_covered_get :
    (cs : List Bool) → all_covered cs ≡ true → (i : ℕ) → i < length cs → get_elem? cs i ≡ some true
unfolding all_covered
all_covered_get [] h i l = absurd (omega arith)
all_covered_get (c ∷ cs) h zero l = ground arith
all_covered_get (c ∷ cs) h (suc i) l = all_covered_get cs (ground arith) i (omega arith)

pub get_all_covered :
    (cs : List Bool)
    → ((i : ℕ) → i < length cs → get_elem? cs i ≡ some true)
    → all_covered cs ≡ true
unfolding all_covered
get_all_covered [] h = refl
get_all_covered (c ∷ cs) h =
    let head : some c ≡ some true = h 0 (omega arith) in
    let first : c ≡ true = cc in rw (first, get_all_covered cs (λ i l. h (suc i) (omega arith)))

-- The start of the loop: nothing is marked.
pub Sound-start : (p : List ℕ) → Sound p (replicate (length p) 0) (replicate (length p) false)
Sound-start p = record {
  size = length-replicate (length p) 0;
  marks = length-replicate (length p) false;
  right = λ i h. cc (unmarked (length p) i h);
}
  where
    unmarked : (n i : ℕ) → get_elem? (replicate n false) i ≡ some true → false ≡ true
    unmarked zero i h = cc
    unmarked (suc n) zero h = cc
    unmarked (suc n) (suc i) h = unmarked n i h
