-- ===== src/Bpf/Guards.antt =====
-- Running the guards of pkg/bpf/bpf.go: code with jumps over a label behind it.
use goscapy.Base.{
  subst, ◌==◌, if◌then◌else◌, length, ok, ℕ, zero, suc, ◌≤◌, ◌<◌, bit_and, ◌≡◌, refl, sym, ap, ap₂,
  ◌∙◌, Bool, true, false, not, ◌||◌, Option, some, List, arith,
}
use goscapy.Bpf.Assembler.{
  jump_equal, jump_bits_set, Instruction, Assembler, new_label, mark, emit_jump, match_or_fall,
  fail_or_fall, resolve,
}
use goscapy.Bpf.Predicates.{guard_ether_type, guard_proto}
use goscapy.Bpf.Machine.{Machine, on_ipv4, proto_matches, verdict}
use goscapy.Bpf.Grows.{push-Grows, mark_same, mark_pushed-Grows, match_or_fall-Grows}
use goscapy.Bpf.Runs.{
  Inside, Inside-back, Inside-unmark, ends, if-ap, verdict_at, load_abs-runs, jump-runs,
}

if-swap :
    (b : Bool) (kept : Option Bool) (value : Option Bool → ℕ) (lost : ℕ)
    → value (some false) ≡ lost
    → (if not b then lost else value kept) ≡ value (if b then kept else some false)
if-swap true kept value lost h = refl
if-swap false kept value lost h = sym h

either_value :
    (b c : Bool) (value : Option Bool → ℕ) (meaning : Option Bool)
    → (if b then value meaning else (if c then value meaning else value (some false)))
      ≡ value (if b || c then meaning else some false)
either_value true c value meaning = refl
either_value false true value meaning = refl
either_value false false value meaning = refl

module _ (vm : Machine) (pkt : List ℕ) (whole : Assembler) (out : List Instruction)
    (resolved : resolve whole ≡ ok out) where
  -- The verdict behind the code of `a`, whatever the registers hold.
  abbrev pub Ends : Assembler → Option Bool → (won lost : ℕ) → Type 0
  Ends a meaning won lost =
      (r x : ℕ) → verdict_at vm pkt whole out resolved r x (length a.ins) ≡ ends meaning won lost

  -- Jumping to label `l` gives that verdict.
  abbrev pub Leads : (l verdict : ℕ) → Type 0
  Leads l verdict =
      (r x : ℕ) → verdict_at vm pkt whole out resolved r x (whole.label_pos l) ≡ verdict

  pub marked :
      {base : ℕ} (l : ℕ) (b : Assembler)
      → base ≤ l
      → l < b.next_lbl
      → Inside base (mark l b) whole
      → whole.label_pos l ≡ length b.ins
  marked l b low below inside = inside.settled l low below ∙ mark_same l b

  -- A jump to the end of the code by its last operation.
  pub last_jump-runs :
      {base : ℕ} (val t f won lost : ℕ) (a : Assembler)
      → Inside base (emit_jump jump_equal val t f a) whole
      → Leads t won
      → Leads f lost
      → (r x : ℕ)
      → verdict_at vm pkt whole out resolved r x (length a.ins) ≡ ends (some (r == val)) won lost
  last_jump-runs val t f won lost a inside to_won to_lost r x =
      jump-runs vm pkt whole out resolved jump_equal val t f a inside r x
      ∙ ap₂ (λ p q. if r == val then p else q) (to_won r x) (to_lost r x)

  pub match_or_fall-runs :
      {base : ℕ} (val t : ℕ) (a : Assembler)
      → base ≤ a.next_lbl
      → Inside base (match_or_fall val t a) whole
      → (r x : ℕ)
      → verdict_at vm pkt whole out resolved r x (length a.ins) ≡ (
          if r == val
          then verdict_at vm pkt whole out resolved r x (whole.label_pos t)
          else verdict_at vm pkt whole out resolved r x (length (match_or_fall val t a).ins))
  unfolding match_or_fall
  match_or_fall-runs val t a low inside r x =
      let pushed = emit_jump jump_equal val t a.next_lbl (new_label a) in
      jump-runs vm pkt whole out resolved jump_equal val t a.next_lbl (new_label a)
        (Inside-unmark a.next_lbl low inside) r x
      ∙ ap
          (λ i.
            if r == val
            then verdict_at vm pkt whole out resolved r x (whole.label_pos t)
            else verdict_at vm pkt whole out resolved r x i)
          (marked a.next_lbl pushed low (omega arith) inside)

  pub match_or_fall-Ends :
      {base : ℕ} (val t won lost : ℕ) (a : Assembler) (otherwise : Option Bool)
      → base ≤ a.next_lbl
      → Inside base (match_or_fall val t a) whole
      → Leads t won
      → (r x : ℕ)
      → verdict_at vm pkt whole out resolved r x (length (match_or_fall val t a).ins)
        ≡ ends otherwise won lost
      → verdict_at vm pkt whole out resolved r x (length a.ins)
        ≡ ends (if r == val then some true else otherwise) won lost
  match_or_fall-Ends val t won lost a otherwise low inside to_won r x after =
      match_or_fall-runs val t a low inside r x
      ∙ ap₂ (λ p q. if r == val then p else q) (to_won r x) after
      ∙ sym (if-ap (λ o. ends o won lost) (r == val) (some true) otherwise)

  pub fail_or_fall-Ends :
      {base : ℕ} (val f won lost : ℕ) (a : Assembler) (otherwise : Option Bool)
      → base ≤ a.next_lbl
      → Inside base (fail_or_fall val f a) whole
      → Leads f lost
      → Ends (fail_or_fall val f a) otherwise won lost
      → (r x : ℕ)
      → verdict_at vm pkt whole out resolved r x (length a.ins)
        ≡ ends (if bit_and r val == 0 then otherwise else some false) won lost
  unfolding fail_or_fall
  fail_or_fall-Ends val f won lost a otherwise low inside to_lost after r x =
      let pushed = emit_jump jump_bits_set val f a.next_lbl (new_label a) in
      jump-runs vm pkt whole out resolved jump_bits_set val f a.next_lbl (new_label a)
        (Inside-unmark a.next_lbl low inside) r x
      ∙ ap₂ (λ p q. if not (bit_and r val == 0) then p else q) (to_lost r x)
          (ap (verdict_at vm pkt whole out resolved r x)
              (marked a.next_lbl pushed low (omega arith) inside)
            ∙ after r x)
      ∙ if-swap (bit_and r val == 0) otherwise (λ o. ends o won lost) lost refl

  -- An equality that must hold for the code to go on.
  pub must_equal-Ends :
      {base : ℕ} (val f won lost : ℕ) (a : Assembler) (meaning : Option Bool)
      → base ≤ a.next_lbl
      → Inside base (mark a.next_lbl (emit_jump jump_equal val a.next_lbl f (new_label a))) whole
      → Leads f lost
      → Ends (emit_jump jump_equal val a.next_lbl f (new_label a)) meaning won lost
      → (r x : ℕ)
      → verdict_at vm pkt whole out resolved r x (length a.ins)
        ≡ ends (if r == val then meaning else some false) won lost
  must_equal-Ends val f won lost a meaning low inside to_lost after r x =
      let pushed = emit_jump jump_equal val a.next_lbl f (new_label a) in
      jump-runs vm pkt whole out resolved jump_equal val a.next_lbl f (new_label a)
        (Inside-unmark a.next_lbl low inside) r x
      ∙ ap₂ (λ p q. if r == val then p else q)
          (ap (verdict_at vm pkt whole out resolved r x)
              (marked a.next_lbl pushed low (omega arith) inside)
            ∙ after r x)
          (to_lost r x)
      ∙ sym (if-ap (λ o. ends o won lost) (r == val) meaning (some false))

  pub guard_ether_type-Ends :
      {base : ℕ} (f won lost : ℕ) (a : Assembler) (meaning : Option Bool)
      → base ≤ a.next_lbl
      → Inside base (guard_ether_type 0x0800 f a) whole
      → Leads f lost
      → Ends (guard_ether_type 0x0800 f a) meaning won lost
      → Ends a (on_ipv4 pkt meaning) won lost
  unfolding guard_ether_type
  guard_ether_type-Ends f won lost a meaning low inside to_lost after =
      load_abs-runs vm pkt whole out resolved 12 2 a _ won lost
        (Inside-back (mark_pushed-Grows _ _) inside)
        (must_equal-Ends 0x0800 f won lost _ meaning low inside to_lost after)

  pub guard_proto-Ends :
      {base : ℕ} (proto f won lost : ℕ) (a : Assembler) (meaning : Option Bool)
      → base ≤ a.next_lbl
      → Inside base (guard_proto proto f a) whole
      → Leads f lost
      → Ends (guard_proto proto f a) meaning won lost
      → (r x : ℕ)
      → verdict_at vm pkt whole out resolved r x (length a.ins)
        ≡ ends (if proto_matches proto r then meaning else some false) won lost
  unfolding guard_proto
  guard_proto-Ends {base} zero f won lost a meaning low inside to_lost after r x =
      let label = a.next_lbl in
      let first = match_or_fall 6 label (new_label a) in
      let pushed = emit_jump jump_equal 17 label f first in
      let grown = match_or_fall-Grows 6 label (new_label a) in
      let before = Inside-unmark label low inside in
      let at_label = marked label pushed low (omega (arith, grown.more_labels)) inside in
      let on = ap (verdict_at vm pkt whole out resolved r x) at_label ∙ after r x in
      match_or_fall-runs 6 label (new_label a) (omega arith) (Inside-back (push-Grows _ _) before) r
        x
      ∙ ap₂ (λ p q. if r == 6 then p else q) on
          (jump-runs vm pkt whole out resolved jump_equal 17 label f first before r x
            ∙ ap₂ (λ p q. if r == 17 then p else q) on (to_lost r x))
      ∙ either_value (r == 6) (r == 17) (λ o. ends o won lost) meaning
  guard_proto-Ends {base} (suc proto) f won lost a meaning low inside to_lost after r x =
      let one : (suc proto == 0) ≡ false = ground arith in
      let same : guard_proto (suc proto) f a
          ≡ mark a.next_lbl (emit_jump jump_equal (suc proto) a.next_lbl f (new_label a)) =
        rw one refl in
      let inside' = subst (λ g. Inside base g whole) same inside in
      let after' = subst (λ g. Ends g meaning won lost) same after in
      rw one (must_equal-Ends (suc proto) f won lost a meaning low inside' to_lost after' r x)
