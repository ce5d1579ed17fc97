-- ===== src/Reassembly/Isolation.antt =====
-- `Submit` of a fragment, and the groups of other keys.
use goscapy.Base.{
  ℕ, ◌≡◌, refl, ◌∙◌, inl, inr, true, false, not, ◌||◌, List, [], ◌∷◌, Option, none, some, ltb,
  reaches, length, Outcome, ok, err, panic, stuck, arith, Bool-cases,
}
use goscapy.Fields.Addresses.{eq_bytes}
use goscapy.Reassembly.{
  FragKey, Fragment, FragGroup, Reassembler, same_key, empty_group, find, store, delete,
  add_fragment, finish, settle, accept, enter, submit_fragment, try_reassemble,
  max_reassembled_size,
}

eq_bytes_sound : (a b : List ℕ) → eq_bytes a b ≡ true → a ≡ b
unfolding eq_bytes
eq_bytes_sound [] [] h = refl
eq_bytes_sound [] (y ∷ b) h = cc
eq_bytes_sound (x ∷ a) [] h = cc
eq_bytes_sound (x ∷ a) (y ∷ b) h = ground (arith, eq_bytes_sound a b)

same_key_sound : (a b : FragKey) → same_key a b ≡ true → a ≡ b
unfolding same_key
same_key_sound a b h = ground (arith, eq_bytes_sound a.src b.src, eq_bytes_sound a.dst b.dst)

-- An entry with the key `k` has not the key `j`.
other_key : (i k j : FragKey) → same_key k j ≡ false → same_key i k ≡ true → same_key i j ≡ false
other_key i k j h e = rw (same_key_sound i k e) h

find-store_ne :
    (k j : FragKey) (g : FragGroup) (m : List (FragKey × FragGroup))
    → same_key k j ≡ false
    → find j (store k g m) ≡ find j m
unfolding find store
find-store_ne k j g [] h = rw h
find-store_ne k j g ((i, o) ∷ m) h = elim (Bool-cases (same_key i k)) [
  | inl same ↦ rw (same, other_key i k j h same)
  | inr other ↦ elim (Bool-cases (same_key i j)) [
    | inl this ↦ rw (other, this)
    | inr that ↦ rw (other, that) (find-store_ne k j g m h)
  ]
]

find-delete_ne :
    (k j : FragKey) (m : List (FragKey × FragGroup))
    → same_key k j ≡ false
    → find j (delete k m) ≡ find j m
unfolding find delete
find-delete_ne k j [] h = refl
find-delete_ne k j ((i, o) ∷ m) h = elim (Bool-cases (same_key i k)) [
  | inl same ↦ rw (same, other_key i k j h same) (find-delete_ne k j m h)
  | inr other ↦ elim (Bool-cases (same_key i j)) [
    | inl this ↦ rw (other, this)
    | inr that ↦ rw (other, that) (find-delete_ne k j m h)
  ]
]

find-settle :
    (r : Reassembler) (k j : FragKey) (g : FragGroup)
    → same_key k j ≡ false
    → find j (settle r k g).0.groups ≡ find j r.groups
unfolding settle
find-settle r k j g h =
    elim (Bool-cases
      (ltb max_reassembled_size g.total_bytes || ltb max_reassembled_size g.final_end)) [
        | inl over ↦ rw over (find-delete_ne k j r.groups h)
        | inr within ↦ elim (Bool-cases (not g.has_last)) [
          | inl waits ↦ rw (within, waits)
          | inr ends ↦ rw (within, ends) (finished (try_reassemble g))
        ]
      ]
  where
    finished : (o : Outcome (Option (List ℕ))) → find j (finish r k o).0.groups ≡ find j r.groups
    finished (ok (some p)) = find-delete_ne k j r.groups h
    finished (ok none) = refl
    finished (err e) = refl
    finished panic = refl
    finished stuck = refl

find-accept :
    (r : Reassembler) (k j : FragKey) (g : FragGroup) (f : Fragment) (now : ℕ)
    → same_key k j ≡ false
    → find j (accept r k g f now).0.groups ≡ find j r.groups
find-accept r k j g f now h =
    find-settle (record r { groups = store k (add_fragment g f now) r.groups }) k j
      (add_fragment g f now) h
    ∙ find-store_ne k j (add_fragment g f now) r.groups h

find-enter :
    (r : Reassembler) (k j : FragKey) (o : Option FragGroup) (f : Fragment) (now : ℕ)
    → same_key k j ≡ false
    → find j (enter r k o f now).0.groups ≡ find j r.groups
find-enter r k j (some g) f now h = find-accept r k j g f now h
find-enter r k j none f now h = elim (Bool-cases (reaches (length r.groups) r.max_groups)) [
  | inl full ↦ rw full
  | inr room ↦ rw room (find-accept r k j empty_group f now h)
]

-- A submitted fragment leaves the group of every other key as it was, whatever becomes of its own.
pub find-submit_fragment :
    (r : Reassembler) (k j : FragKey) (f : Fragment) (now : ℕ)
    → same_key k j ≡ false
    → find j (submit_fragment r k f now).0.groups ≡ find j r.groups
unfolding submit_fragment
find-submit_fragment r k j f now h = find-enter r k j (find k r.groups) f now h
