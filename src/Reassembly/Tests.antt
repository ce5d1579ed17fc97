-- ===== src/Reassembly/Tests.antt =====
-- Runs of the reassembler's operations, and their theorems at concrete inputs.
use goscapy.Base.{
  ℕ, ◌≡◌, ◌≢◌, ◌<◌, refl, true, false, List, [], ◌∷◌, none, some, ok, panic, pos, arith, zero, suc,
  inl,
}
use goscapy.Reassembly.{
  FragKey, Fragment, FragGroup, Reassembler, new, same_key, find, submit_fragment, sweep,
  try_reassemble,
}
use goscapy.Reassembly.Coverage.{Agrees, CoveredBy}
use goscapy.Reassembly.Collect.{IsCutFrom, try_reassemble_lem, try_reassemble-panic}
use goscapy.Reassembly.Groups.{IsBounded, submits, sweeps, Reach, start, after, Reach-IsBounded}
use goscapy.Reassembly.Isolation.{find-submit_fragment}

abbrev key : ℕ → FragKey
key id = record { src = 10 ∷ []; dst = 11 ∷ []; id = id; proto = 17 }

-- The payload 1, 2, 3 in two fragments, the last one first.
abbrev front : Fragment
front = record { offset = 0; body = 1 ∷ 2 ∷ []; more = true }

abbrev back : Fragment
back = record { offset = 1; body = 2 ∷ 3 ∷ []; more = false }

abbrev group : FragGroup
group = record {
  frags = back ∷ front ∷ [];
  total_bytes = 4;
  last_seen = 0;
  has_last = true;
  final_end = 3;
}

abbrev after_back : Reassembler
after_back = (submit_fragment (new (pos 30) (pos 8)) (key 1) back 0).0

both_give_the_payload : (submit_fragment after_back (key 1) front 1).1 ≡ ok (some (1 ∷ 2 ∷ 3 ∷ []))
unfolding submit_fragment try_reassemble
both_give_the_payload = refl

group_is_deleted : find (key 1) (submit_fragment after_back (key 1) front 1).0.groups ≡ none
unfolding submit_fragment try_reassemble
group_is_deleted = refl

old_groups_are_swept : (sweep after_back 31).groups ≡ []
unfolding submit_fragment try_reassemble sweep
old_groups_are_swept = refl

back-Agrees : Agrees (1 ∷ 2 ∷ 3 ∷ []) back
back-Agrees zero h k = refl
back-Agrees (suc zero) h k = refl
back-Agrees (suc (suc i)) h k = absurd (omega arith)

front-Agrees : Agrees (1 ∷ 2 ∷ 3 ∷ []) front
front-Agrees zero h k = refl
front-Agrees (suc zero) h k = refl
front-Agrees (suc (suc i)) h k = absurd (omega arith)

group-IsCutFrom : IsCutFrom (1 ∷ 2 ∷ 3 ∷ []) group
group-IsCutFrom = record {
  some_bytes = omega arith;
  bounded = omega arith;
  ends = refl;
  agree = (back-Agrees, (front-Agrees, tt));
  starts = (omega arith, (omega arith, tt));
}

try_reassemble_lem_example :
    (((i : ℕ) → i < 3 → CoveredBy group.frags i)
      → try_reassemble group ≡ ok (some (1 ∷ 2 ∷ 3 ∷ [])))
    × ((q : List ℕ)
        → try_reassemble group ≡ ok (some q)
        → (q ≡ 1 ∷ 2 ∷ 3 ∷ []) × ((i : ℕ) → i < 3 → CoveredBy group.frags i))
    × (try_reassemble group ≢ panic)
try_reassemble_lem_example = try_reassemble_lem (1 ∷ 2 ∷ 3 ∷ []) group group-IsCutFrom

-- A fragment behind the end that a later one gave.
abbrev beyond : Fragment
beyond = record { offset = 8; body = 9 ∷ []; more = true }

abbrev short_group : FragGroup
short_group = record {
  frags = beyond ∷ [];
  total_bytes = 1;
  last_seen = 0;
  has_last = true;
  final_end = 3;
}

try_reassemble-panic_example : try_reassemble short_group ≡ panic
try_reassemble-panic_example =
    try_reassemble-panic short_group (omega arith) (omega arith) (inl (omega arith))

-- `Submit` panics on two fragments: one at 8, and then a last one that ends at 3.
submit_panics :
    (submit_fragment (submit_fragment (new (pos 30) (pos 8)) (key 1) beyond 0).0 (key 1) back 1).1
    ≡ panic
unfolding submit_fragment try_reassemble
submit_panics = refl

abbrev run : Reach (new (pos 30) (pos 8)) (sweep after_back 31)
run =
    after (sweeps after_back 31)
      (after (submits (new (pos 30) (pos 8)) (key 1) back 0 (omega arith)) start)

Reach-IsBounded_example :
    IsBounded (sweep after_back 31) × ((sweep after_back 31).max_groups ≡ pos 8)
Reach-IsBounded_example = Reach-IsBounded (pos 30) (pos 8) run

different_keys : same_key (key 1) (key 2) ≡ false
unfolding same_key
different_keys = refl

find-submit_fragment_example :
    find (key 2) (submit_fragment after_back (key 1) front 1).0.groups
    ≡ find (key 2) after_back.groups
find-submit_fragment_example =
    find-submit_fragment after_back (key 1) (key 2) front 1 different_keys
