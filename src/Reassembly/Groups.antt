-- ===== src/Reassembly/Groups.antt =====
-- The map of fragment groups under `Submit` and `sweep`: the limits on groups and bytes.
use goscapy.Base.{
  ℕ, suc, ◌+◌, ◌^◌, ◌≤◌, ◌<◌, ◌≡◌, refl, ap, ◌∙◌, inl, inr, true, not, ◌||◌, List, [], ◌∷◌, ◌++◌,
  Option, none, some, ltb, ℤ, reaches, at_most, reaches-below, length, Outcome, ok, err, panic,
  stuck, arith, Bool-cases,
}
use goscapy.Fields.Addresses.{eq_bytes}
use goscapy.Reassembly.{
  FragKey, Fragment, FragGroup, Reassembler, new, same_key, empty_group, find, store, delete,
  add_fragment, finish, settle, accept, enter, submit_fragment, try_reassemble, is_expired,
  sweep_loop, sweep, max_reassembled_size,
}

-- The payload bytes that a list of fragments holds.
abbrev pub held : List Fragment → ℕ
held [] = 0
held (f ∷ fs) = length f.body + held fs

held-append : (fs : List Fragment) (f : Fragment) → held (fs ++ (f ∷ [])) ≡ held fs + length f.body
held-append [] f = omega arith
held-append (g ∷ fs) f = omega (arith, held-append fs f)

-- A stored group is within the size limit, and its count of bytes is right.
pub record IsWf (g : FragGroup) : Type 0 where
  pub counted : held g.frags ≡ g.total_bytes
  pub few_bytes : g.total_bytes ≤ max_reassembled_size
  pub end_in : g.final_end ≤ max_reassembled_size

abbrev pub AllWf : List (FragKey × FragGroup) → Type 0
AllWf [] = Unit
AllWf ((k, g) ∷ m) = IsWf g × AllWf m

pub record IsBounded (r : Reassembler) : Type 0 where
  pub few_groups : length r.groups ≤ at_most r.max_groups
  pub all_wf : AllWf r.groups

find-AllWf :
    (k : FragKey) (m : List (FragKey × FragGroup)) (g : FragGroup)
    → AllWf m
    → find k m ≡ some g
    → IsWf g
unfolding find
find-AllWf k [] g w e = cc
find-AllWf k ((j, h) ∷ m) g (wh, w) e = elim (Bool-cases (same_key j k)) [
  | inl same ↦ let eq : some h ≡ some g = rw same at e in let eq' : h ≡ g = cc in rw (← eq') wh
  | inr other ↦ find-AllWf k m g w (rw other at e)
]

store-AllWf :
    (k : FragKey) (g : FragGroup) (m : List (FragKey × FragGroup))
    → IsWf g
    → AllWf m
    → AllWf (store k g m)
unfolding store
store-AllWf k g [] wg w = (wg, tt)
store-AllWf k g ((j, h) ∷ m) wg (wh, w) = elim (Bool-cases (same_key j k)) [
  | inl same ↦ rw same (wg, w)
  | inr other ↦ rw other (wh, store-AllWf k g m wg w)
]

eq_bytes_refl : (a : List ℕ) → eq_bytes a a ≡ true
unfolding eq_bytes
eq_bytes_refl [] = refl
eq_bytes_refl (x ∷ a) = ground (arith, eq_bytes_refl a)

pub same_key_refl : (k : FragKey) → same_key k k ≡ true
unfolding same_key
same_key_refl k = ground (arith, eq_bytes_refl k.src, eq_bytes_refl k.dst)

delete-store :
    (k : FragKey) (g : FragGroup) (m : List (FragKey × FragGroup))
    → delete k (store k g m) ≡ delete k m
unfolding delete store
delete-store k g [] = rw (same_key_refl k)
delete-store k g ((j, h) ∷ m) = elim (Bool-cases (same_key j k)) [
  | inl same ↦ rw (same, same)
  | inr other ↦ rw (other, other, delete-store k g m)
]

delete-AllWf : (k : FragKey) (m : List (FragKey × FragGroup)) → AllWf m → AllWf (delete k m)
unfolding delete
delete-AllWf k [] w = tt
delete-AllWf k ((j, h) ∷ m) (wh, w) = elim (Bool-cases (same_key j k)) [
  | inl same ↦ rw same (delete-AllWf k m w)
  | inr other ↦ rw other (wh, delete-AllWf k m w)
]

length-delete : (k : FragKey) (m : List (FragKey × FragGroup)) → length (delete k m) ≤ length m
unfolding delete
length-delete k [] = omega arith
length-delete k ((j, h) ∷ m) = ground (arith, length-delete k m)

length-store_new :
    (k : FragKey) (g : FragGroup) (m : List (FragKey × FragGroup))
    → length (store k g m) ≤ length m + 1
unfolding store
length-store_new k g [] = omega arith
length-store_new k g ((j, h) ∷ m) = ground (arith, length-store_new k g m)

length-store_found :
    (k : FragKey) (g h : FragGroup) (m : List (FragKey × FragGroup))
    → find k m ≡ some h
    → length (store k g m) ≡ length m
unfolding store find
length-store_found k g h [] e = cc
length-store_found k g h ((j, i) ∷ m) e = elim (Bool-cases (same_key j k)) [
  | inl same ↦ rw same
  | inr other ↦ rw other (ap suc (length-store_found k g h m (rw other at e)))
]

-- Groups within the limits, as many as there may be.
abbrev Fine : ℕ → List (FragKey × FragGroup) → Type 0
Fine n m = (length m ≤ n) × AllWf m

finish-Fine :
    (r : Reassembler) (k : FragKey) (n : ℕ) (o : Outcome (Option (List ℕ)))
    → Fine n r.groups
    → Fine n (finish r k o).0.groups
finish-Fine r k n (ok (some p)) (l, w) =
    (omega (arith, length-delete k r.groups), delete-AllWf k r.groups w)
finish-Fine r k n (ok none) f = f
finish-Fine r k n (err e) f = f
finish-Fine r k n panic f = f
finish-Fine r k n stuck f = f

settle-Fine :
    (r : Reassembler) (k : FragKey) (g : FragGroup) (m : List (FragKey × FragGroup)) (n : ℕ)
    → r.groups ≡ store k g m
    → AllWf m
    → length (store k g m) ≤ n
    → held g.frags ≡ g.total_bytes
    → Fine n (settle r k g).0.groups
unfolding settle
settle-Fine r k g m n e w l c =
    elim (Bool-cases
      (ltb max_reassembled_size g.total_bytes || ltb max_reassembled_size g.final_end)) [
        | inl over ↦
            rw (over, e, delete-store k g m)
              (
                omega (
                  arith,
                  length-delete k (store k g m),
                  ap (λ (t : List (FragKey × FragGroup)). length t) (delete-store k g m),
                ),
                delete-AllWf k m w,
              )
        | inr within ↦
            let wf : IsWf g = ground arith in
            let fine : Fine n r.groups = rw e (l, store-AllWf k g m wf w) in
            elim (Bool-cases (not g.has_last)) [
              | inl waits ↦ rw (within, waits) fine
              | inr ends ↦ rw (within, ends) (finish-Fine r k n (try_reassemble g) fine)
            ]
      ]

held-add_fragment :
    (g : FragGroup) (f : Fragment) (now : ℕ)
    → IsWf g
    → length f.body < 2 ^ 31
    → held (add_fragment g f now).frags ≡ (add_fragment g f now).total_bytes
unfolding add_fragment
held-add_fragment g f now wg small = omega (arith, held-append g.frags f)

accept-Fine :
    (r : Reassembler) (k : FragKey) (g : FragGroup) (f : Fragment) (now n : ℕ)
    → AllWf r.groups
    → IsWf g
    → length f.body < 2 ^ 31
    → length (store k (add_fragment g f now) r.groups) ≤ n
    → Fine n (accept r k g f now).0.groups
accept-Fine r k g f now n w wg small l =
    settle-Fine (record r { groups = store k (add_fragment g f now) r.groups }) k
      (add_fragment g f now) r.groups n refl w l (held-add_fragment g f now wg small)

enter-Fine :
    (r : Reassembler) (k : FragKey) (o : Option FragGroup) (f : Fragment) (now : ℕ)
    → find k r.groups ≡ o
    → IsBounded r
    → length f.body < 2 ^ 31
    → Fine (at_most r.max_groups) (enter r k o f now).0.groups
enter-Fine r k (some g) f now e b small =
    accept-Fine r k g f now (at_most r.max_groups) b.all_wf (find-AllWf k r.groups g b.all_wf e)
      small (omega (arith, length-store_found k (add_fragment g f now) g r.groups e, b.few_groups))
enter-Fine r k none f now e b small = elim (Bool-cases (reaches (length r.groups) r.max_groups)) [
  | inl full ↦ rw full (b.few_groups, b.all_wf)
  | inr room ↦ rw room (
      accept-Fine r k empty_group f now (at_most r.max_groups) b.all_wf (omega arith) small (
        omega (
          arith,
          reaches-below (length r.groups) r.max_groups room,
          length-store_new k (add_fragment empty_group f now) r.groups,
        )))
]

max_groups-settle :
    (r : Reassembler) (k : FragKey) (g : FragGroup) → (settle r k g).0.max_groups ≡ r.max_groups
unfolding settle
max_groups-settle r k g =
    elim (Bool-cases
      (ltb max_reassembled_size g.total_bytes || ltb max_reassembled_size g.final_end)) [
        | inl over ↦ rw over
        | inr within ↦ elim (Bool-cases (not g.has_last)) [
          | inl waits ↦ rw (within, waits)
          | inr ends ↦ rw (within, ends) (same (try_reassemble g))
        ]
      ]
  where
    same : (o : Outcome (Option (List ℕ))) → (finish r k o).0.max_groups ≡ r.max_groups
    same (ok (some p)) = refl
    same (ok none) = refl
    same (err e) = refl
    same panic = refl
    same stuck = refl

max_groups-enter :
    (r : Reassembler) (k : FragKey) (o : Option FragGroup) (f : Fragment) (now : ℕ)
    → (enter r k o f now).0.max_groups ≡ r.max_groups
max_groups-enter r k (some g) f now = max_groups-settle _ k (add_fragment g f now)
max_groups-enter r k none f now = elim (Bool-cases (reaches (length r.groups) r.max_groups)) [
  | inl full ↦ rw full
  | inr room ↦ rw room (max_groups-settle _ k (add_fragment empty_group f now))
]

submit_fragment-IsBounded :
    (r : Reassembler) (k : FragKey) (f : Fragment) (now : ℕ)
    → IsBounded r
    → length f.body < 2 ^ 31
    → IsBounded (submit_fragment r k f now).0
      × ((submit_fragment r k f now).0.max_groups ≡ r.max_groups)
unfolding submit_fragment
submit_fragment-IsBounded r k f now b small =
    let (l, w) = enter-Fine r k (find k r.groups) f now refl b small in
    let same : (enter r k (find k r.groups) f now).0.max_groups ≡ r.max_groups =
      max_groups-enter r k (find k r.groups) f now in
    (record { few_groups = omega (arith, l, ap at_most same); all_wf = w }, same)

sweep_loop-Fine :
    (now : ℕ) (timeout : ℤ) (n : ℕ) (m : List (FragKey × FragGroup))
    → Fine n m
    → Fine n (sweep_loop now timeout m)
unfolding sweep_loop
sweep_loop-Fine now timeout n [] f = f
sweep_loop-Fine now timeout n ((k, g) ∷ m) (l, (wg, w)) =
    elim (Bool-cases (is_expired now timeout g)) [
      | inl old ↦ let (l', w') = sweep_loop-Fine now timeout n m (omega arith, w) in rw old (l', w')
      | inr fresh ↦
          let (l', w') = sweep_loop-Fine now timeout (length m) m (omega arith, w) in
          rw fresh (omega arith, (wg, w'))
    ]

-- What can happen to a reassembler: a fragment is submitted, or the collector runs.
pub data Step : Reassembler → Reassembler → Type 0 where
  submits :
      (r : Reassembler) (k : FragKey) (f : Fragment) (now : ℕ)
      → length f.body < 2 ^ 31
      → Step r (submit_fragment r k f now).0
  sweeps : (r : Reassembler) (now : ℕ) → Step r (sweep r now)

pub data Reach (first : Reassembler) : Reassembler → Type 0 where
  start : Reach first first
  after : {r r' : Reassembler} → Step r r' → Reach first r → Reach first r'

Step-IsBounded :
    {t u : Reassembler} → Step t u → IsBounded t → IsBounded u × (u.max_groups ≡ t.max_groups)
unfolding sweep
Step-IsBounded (submits r k f now small) b = submit_fragment-IsBounded r k f now b small
Step-IsBounded (sweeps r now) b =
    let (l, w) =
      sweep_loop-Fine now r.timeout (at_most r.max_groups) r.groups (b.few_groups, b.all_wf) in
    (record { few_groups = l; all_wf = w }, refl)

-- In every state that a new reassembler can reach by submitted fragments (of less than 2 GB) and runs
-- of the collector, in any order, there are at most `max_groups` groups (none if it is negative), and each holds at most 65535
-- bytes of payload, counts them rightly, and ends at 65535 at most; the limit itself stays.
pub Reach-IsBounded :
    (timeout max_groups : ℤ) {r : Reassembler}
    → Reach (new timeout max_groups) r
    → IsBounded r × (r.max_groups ≡ max_groups)
Reach-IsBounded timeout max_groups start = (record { few_groups = omega arith; all_wf = tt }, refl)
Reach-IsBounded timeout max_groups (after st path) =
    let (b, same) = Reach-IsBounded timeout max_groups path in
    let (b', same') = Step-IsBounded st b in (b', same' ∙ same)
