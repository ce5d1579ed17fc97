-- ===== src/Bpf/Correct.antt =====
-- The compiler of pkg/bpf/bpf.go against the meaning of its predicates.
use goscapy.Base.{
  if◌then◌else◌, ok, ℕ, ◌≤◌, ◌≡◌, refl, sym, ap, ◌∙◌, Bool, true, false, not, Option, none, some,
  List, [], ◌∷◌, append-nil, append_assoc, arith,
}
use goscapy.Bpf.Assembler.{
  Instruction, ret_constant, plain, Assembler, empty, new_label, mark, emit_ret, resolve,
}
use goscapy.Bpf.Predicates.{
  Predicate, ether_type_pred, ip_proto_pred, host_pred, port_pred, and_pred, or_pred, not_pred,
  emit, accept_len, body, assemble, assemble_program,
}
use goscapy.Bpf.Machine.{Machine, matches, verdict}
use goscapy.Bpf.Grows.{push-Grows, mark_other, guard_ether_type-Grows, emit_host-Grows, emit-Grows}
use goscapy.Bpf.Runs.{Inside, Inside-back, Inside-unmark, ends, verdict_at, load_abs-runs, ret-runs}
use goscapy.Bpf.Guards.{Ends, Leads, marked, last_jump-runs, guard_ether_type-Ends}
use goscapy.Bpf.Leaves.{emit_host-Ends, port_pred-Ends}

ends-and :
    (first second : Option Bool) (won lost : ℕ)
    → ends first (ends second won lost) lost
      ≡ ends
          (elim first [ none ↦ none | some holds ↦ if holds then second else some false ])
          won
          lost
ends-and none second won lost = refl
ends-and (some true) second won lost = refl
ends-and (some false) second won lost = refl

ends-or :
    (first second : Option Bool) (won lost : ℕ)
    → ends first won (ends second won lost)
      ≡ ends
          (elim first [ none ↦ none | some holds ↦ if holds then some true else second ])
          won
          lost
ends-or none second won lost = refl
ends-or (some true) second won lost = refl
ends-or (some false) second won lost = refl

ends-not :
    (first : Option Bool) (won lost : ℕ)
    → ends first lost won
      ≡ ends (elim first [ none ↦ none | some holds ↦ some (not holds) ]) won lost
ends-not none won lost = refl
ends-not (some true) won lost = refl
ends-not (some false) won lost = refl

module _ (vm : Machine) (pkt : List ℕ) (whole : Assembler) (out : List Instruction)
    (resolved : resolve whole ≡ ok out) where
  abbrev Here : Assembler → Option Bool → (won lost : ℕ) → Type 0
  Here = Ends vm pkt whole out resolved

  abbrev To : (l verdict : ℕ) → Type 0
  To = Leads vm pkt whole out resolved

  emit-Ends :
      {base : ℕ} (p : Predicate) (t f won lost : ℕ) (a : Assembler)
      → base ≤ a.next_lbl
      → Inside base (emit p t f a) whole
      → To t won
      → To f lost
      → Here a (matches p pkt) won lost
  unfolding emit matches
  emit-Ends (ether_type_pred etype) t f won lost a low inside to_won to_lost =
      load_abs-runs vm pkt whole out resolved 12 2 a _ won lost
        (Inside-back (push-Grows _ _) inside)
        (last_jump-runs vm pkt whole out resolved etype t f won lost _ inside to_won to_lost)
  emit-Ends (ip_proto_pred proto) t f won lost a low inside to_won to_lost =
      let before = Inside-back (push-Grows _ _) inside in
      guard_ether_type-Ends vm pkt whole out resolved f won lost a _ low
        (Inside-back (push-Grows _ _) before) to_lost
        (load_abs-runs vm pkt whole out resolved 23 1 _ _ won lost before
          (last_jump-runs vm pkt whole out resolved proto t f won lost _ inside to_won to_lost))
  emit-Ends (host_pred dir ip) t f won lost a low inside to_won to_lost =
      let grown = guard_ether_type-Grows 0x0800 f a in
      guard_ether_type-Ends vm pkt whole out resolved f won lost a _ low
        (Inside-back (emit_host-Grows dir ip t f _) inside) to_lost
        (emit_host-Ends vm pkt whole out resolved dir ip t f won lost _
          (omega (arith, low, grown.more_labels)) inside to_won to_lost)
  emit-Ends (port_pred dir proto port) t f won lost a low inside to_won to_lost =
      port_pred-Ends vm pkt whole out resolved dir proto port t f won lost a low inside to_won
        to_lost
  emit-Ends (and_pred p q) t f won lost a low inside to_won to_lost =
      let mid = a.next_lbl in
      let first = emit p mid f (new_label a) in
      let grown = emit-Grows p mid f (new_label a) in
      let between = Inside-back (emit-Grows q t f (mark mid first)) inside in
      let after =
        emit-Ends q t f won lost (mark mid first) (omega (arith, low, grown.more_labels)) inside
          to_won to_lost in
      let at_mid =
        marked vm pkt whole out resolved mid first low (omega (arith, grown.more_labels)) between in
      λ r x.
        emit-Ends p mid f (ends (matches q pkt) won lost) lost (new_label a) (omega arith)
          (Inside-unmark mid low between)
          (λ r' x'. ap (verdict_at vm pkt whole out resolved r' x') at_mid ∙ after r' x') to_lost r
          x
        ∙ ends-and (matches p pkt) (matches q pkt) won lost
  emit-Ends (or_pred p q) t f won lost a low inside to_won to_lost =
      let mid = a.next_lbl in
      let first = emit p t mid (new_label a) in
      let grown = emit-Grows p t mid (new_label a) in
      let between = Inside-back (emit-Grows q t f (mark mid first)) inside in
      let after =
        emit-Ends q t f won lost (mark mid first) (omega (arith, low, grown.more_labels)) inside
          to_won to_lost in
      let at_mid =
        marked vm pkt whole out resolved mid first low (omega (arith, grown.more_labels)) between in
      λ r x.
        emit-Ends p t mid won (ends (matches q pkt) won lost) (new_label a) (omega arith)
          (Inside-unmark mid low between) to_won
          (λ r' x'. ap (verdict_at vm pkt whole out resolved r' x') at_mid ∙ after r' x') r x
        ∙ ends-or (matches p pkt) (matches q pkt) won lost
  emit-Ends (not_pred p) t f won lost a low inside to_won to_lost = λ r x.
      emit-Ends p f t lost won a low inside to_lost to_won r x ∙ ends-not (matches p pkt) won lost

-- Both verdicts stand behind the code of the predicate.
assemble-Inside : (pred : Predicate) → Inside 2 (body pred) (assemble pred)
unfolding assemble body
assemble-Inside pred =
    let code = emit pred 0 1 (new_label (new_label empty)) in
    record {
      rest = plain (ret_constant accept_len) ∷ plain (ret_constant 0) ∷ [];
      prefix = append_assoc code.ins (plain (ret_constant accept_len) ∷ []) _;
      settled = λ l from below.
          mark_other 1 l (emit_ret accept_len (mark 0 code)) (λ same. omega (arith, same))
          ∙ mark_other 0 l code (λ same. omega (arith, same));
    }

verdict-ends : (meaning : Option Bool) → ends meaning accept_len 0 ≡ verdict meaning
verdict-ends none = refl
verdict-ends (some holds) = refl

-- A program that the assembler makes of a predicate, run on a frame by a machine that keeps to
-- the documentation, accepts the whole frame when the predicate holds of it. It rejects the frame
-- when the predicate does not hold or needs bytes that the frame does not have.
pub assemble_program-run :
    (vm : Machine) (pred : Predicate) (pkt : List ℕ) (prog : List Instruction)
    → assemble_program pred ≡ ok prog
    → vm.run pkt 0 0 prog ≡ verdict (matches pred pkt)
unfolding assemble_program assemble body
assemble_program-run vm pred pkt prog made =
    let whole = assemble pred in
    let code = body pred in
    let accepted = emit_ret accept_len (mark 0 code) in
    let at_end : Inside 0 whole whole = record {
      rest = [];
      prefix = sym (append-nil whole.ins);
      settled = λ l from below. refl;
    } in
    let before_end = Inside-back (push-Grows (plain (ret_constant 0)) (mark 1 accepted)) at_end in
    emit-Ends vm pkt whole prog made pred 0 1 accept_len 0 (new_label (new_label empty))
      (omega arith) (assemble-Inside pred)
      (ret-runs vm pkt whole prog made accept_len (mark 0 code)
        (Inside-unmark 1 (omega arith) before_end))
      (ret-runs vm pkt whole prog made 0 (mark 1 accepted) at_end) 0 0
    ∙ verdict-ends (matches pred pkt)
