-- ===== src/Reassembly.antt =====
-- pkg/reassembly/reassembly.go: IP fragments are collected by key and put together. The clock is an
-- argument of each operation, and the mutex makes each operation one step.
pub mod Coverage
pub mod Groups
pub mod Collect
pub mod Isolation
mod Tests
use goscapy.Base.{
  ℕ, zero, suc, ◌+◌, ◌-◌, ◌*◌, ◌%◌, ◌^◌, ◌≡◌, ◌==◌, min, Bool, true, false, not, ◌&&◌, ◌||◌, List,
  [], ◌∷◌, ◌++◌, Option, none, some, ltb, ℤ, reaches, exceeds, if◌then◌else◌, length, take, drop,
  copy, replicate, Outcome, ok, err, panic, stuck, ◌>>=◌,
}
use goscapy.Fields.Addresses.{eq_bytes}

abbrev pub max_reassembled_size : ℕ
max_reassembled_size = 65535

-- `fragKey`
pub record FragKey : Type 0 where
  pub src : List ℕ
  pub dst : List ℕ
  pub id : ℕ
  pub proto : ℕ

-- Go's `==` on keys.
unfoldable pub same_key : FragKey → FragKey → Bool
unfolding eq_bytes
same_key a b = eq_bytes a.src b.src && eq_bytes a.dst b.dst && a.id == b.id && a.proto == b.proto

-- `fragment`; its length is that of the data.
pub record Fragment : Type 0 where
  pub offset : ℕ
  pub body : List ℕ
  pub more : Bool

-- `fragGroup`
pub record FragGroup : Type 0 where
  pub frags : List Fragment
  pub total_bytes : ℕ
  pub last_seen : ℕ
  pub has_last : Bool
  pub final_end : ℕ

abbrev pub empty_group : FragGroup
empty_group = record { frags = []; total_bytes = 0; last_seen = 0; has_last = false; final_end = 0 }

-- `Reassembler`; the map of groups is an association list.
pub record Reassembler : Type 0 where
  pub groups : List (FragKey × FragGroup)
  pub timeout : ℤ
  pub max_groups : ℤ

-- `New` with the options applied.
abbrev pub new : (timeout max_groups : ℤ) → Reassembler
new timeout max_groups = record { groups = []; timeout = timeout; max_groups = max_groups }

unfoldable pub find : FragKey → List (FragKey × FragGroup) → Option FragGroup
unfolding same_key
find k [] = none
find k ((j, g) ∷ m) = if same_key j k then some g else find k m

unfoldable pub store : FragKey → FragGroup → List (FragKey × FragGroup) → List (FragKey × FragGroup)
unfolding same_key
store k g [] = (k, g) ∷ []
store k g ((j, h) ∷ m) = if same_key j k then (j, g) ∷ m else (j, h) ∷ store k g m

unfoldable pub delete : FragKey → List (FragKey × FragGroup) → List (FragKey × FragGroup)
unfolding same_key
delete k [] = []
delete k ((j, g) ∷ m) = let rest = delete k m in if same_key j k then rest else (j, g) ∷ rest

-- Writing `vals` into a slice from an index on.
unfoldable pub place {ℓ} : {A : Type ℓ} → List A → ℕ → List A → List A
place buf zero vals = copy buf vals
place [] (suc i) vals = []
place (b ∷ buf) (suc i) vals = b ∷ place buf i vals

-- The end of a fragment, cut at the total length.
abbrev pub clipped_end : Fragment → ℕ → ℕ
clipped_end f total = min (f.offset + length f.body) total

-- The loop that lays the fragments into the buffer and marks what they cover; `buf[start:end]` with
-- the start behind the end panics.
unfoldable pub lay : ℕ → List Fragment → List ℕ → List Bool → Outcome (List ℕ × List Bool)
unfolding place
lay total [] buf covered = ok (buf, covered)
lay total (f ∷ fs) buf covered =
    let n = clipped_end f total - f.offset in
    let more =
      lay total fs (place buf f.offset (take n f.body))
        (place covered f.offset (replicate n true)) in
    if ltb (clipped_end f total) f.offset then panic else more

unfoldable pub all_covered : List Bool → Bool
all_covered [] = true
all_covered (c ∷ cs) = c && all_covered cs

-- `tryReassemble`
unfoldable pub try_reassemble : FragGroup → Outcome (Option (List ℕ))
unfolding lay all_covered
try_reassemble g =
    let total = g.final_end in
    if total == 0 || ltb max_reassembled_size total then ok none else (do
      (buf, covered) ← lay total g.frags (replicate total 0) (replicate total false)
      ok (if all_covered covered then some buf else none))

-- The group with one more fragment, as `Submit` updates it.
unfoldable pub add_fragment : FragGroup → Fragment → ℕ → FragGroup
add_fragment g f now = record {
  frags = g.frags ++ (f ∷ []);
  total_bytes = (g.total_bytes + length f.body) % 2 ^ 32;
  last_seen = now;
  has_last = g.has_last || not f.more;
  final_end = if f.more then g.final_end else (f.offset + length f.body) % 2 ^ 32;
}

-- A complete payload ends its group; any other outcome leaves the groups alone.
abbrev pub finish :
    Reassembler → FragKey → Outcome (Option (List ℕ)) → Reassembler × Outcome (Option (List ℕ))
finish r k (ok (some payload)) = (record r { groups = delete k r.groups }, ok (some payload))
finish r k (ok none) = (r, ok none)
finish r k (err e) = (r, err e)
finish r k panic = (r, panic)
finish r k stuck = (r, stuck)

-- What `Submit` does once the group has taken the fragment: the reassembler as it is left, and the
-- payload if it is complete.
unfoldable pub settle : Reassembler → FragKey → FragGroup → Reassembler × Outcome (Option (List ℕ))
settle r k g =
    if ltb max_reassembled_size g.total_bytes || ltb max_reassembled_size g.final_end
    then (record r { groups = delete k r.groups }, ok none)
    else if not g.has_last
    then (r, ok none)
    else finish r k (try_reassemble g)

-- The group takes the fragment, and stands in the map.
abbrev pub accept :
    Reassembler → FragKey → FragGroup → Fragment → ℕ → Reassembler × Outcome (Option (List ℕ))
accept r k g f now =
    let g' = add_fragment g f now in settle (record r { groups = store k g' r.groups }) k g'

abbrev pub enter :
    Reassembler
    → FragKey
    → Option FragGroup
    → Fragment
    → ℕ
    → Reassembler × Outcome (Option (List ℕ))
enter r k (some g) f now = accept r k g f now
enter r k none f now =
    if reaches (length r.groups) r.max_groups then (r, ok none) else accept r k empty_group f now

-- The part of `Submit` under the lock, for a fragment with its key.
unfoldable pub submit_fragment :
    Reassembler → FragKey → Fragment → ℕ → Reassembler × Outcome (Option (List ℕ))
unfolding find store delete add_fragment settle
submit_fragment r k f now = enter r k (find k r.groups) f now

-- `now.Sub(lastSeen) > timeout`, by a clock that does not go back.
abbrev pub is_expired : ℕ → ℤ → FragGroup → Bool
is_expired now timeout g = exceeds (now - g.last_seen) timeout

unfoldable pub sweep_loop : ℕ → ℤ → List (FragKey × FragGroup) → List (FragKey × FragGroup)
sweep_loop now timeout [] = []
sweep_loop now timeout ((k, g) ∷ m) =
    let rest = sweep_loop now timeout m in if is_expired now timeout g then rest else (k, g) ∷ rest

-- `sweep`, which the background collector runs.
unfoldable pub sweep : Reassembler → ℕ → Reassembler
unfolding sweep_loop
sweep r now = record r { groups = sweep_loop now r.timeout r.groups }

-- `Stats`
abbrev pub stats : Reassembler → ℕ
stats r = length r.groups
