-- ===== src/Bpf/Runs.antt =====
-- Running the code that an operation of pkg/bpf/bpf.go appended, inside a finished program.
use goscapy.Base.{
  ◌≡◌, refl, sym, ap, ◌≤◌, ◌<◌, arith, if◌then◌else◌, length, get_elem?, drop, length-append,
  drop-drop, get_elem?-append, ok, >>=-eq-ok, ℕ, zero, suc, ◌+◌, ◌-◌, ◌*◌, ◌≤◌, ◌<◌, bit_and, ◌≡◌,
  refl, sym, ap, ap₂, subst, ◌∙◌, Bool, true, false, Option, none, some, List, [], ◌∷◌, ◌++◌,
  append_assoc, arith,
}
use goscapy.Bpf.Machine.{load, passes, or_reject, Machine, ◌then_load◌}
use goscapy.Bpf.Assembler.{
  JumpTest, Instruction, jump_if, AsmInsn, plain, jump, Assembler, mark, push, emit_load_abs,
  emit_load_ind, emit_load_mem_shift, emit_ret, emit_jump, resolve_insn, resolve_from, resolve,
}
use goscapy.Bpf.Grows.{Grows, mark_other}

-- `whole` goes on behind `a`, and keeps the labels of `a` from `base` on.
pub record Inside (base : ℕ) (a whole : Assembler) : Type 0 where
  pub rest : List AsmInsn
  pub prefix : whole.ins ≡ a.ins ++ rest
  pub settled : (l : ℕ) → base ≤ l → l < a.next_lbl → whole.label_pos l ≡ a.label_pos l

pub Inside-back :
    {base : ℕ} {a b whole : Assembler} → Grows a b → Inside base b whole → Inside base a whole
Inside-back {a = a} grown inside = record {
  rest = grown.added ++ inside.rest;
  prefix =
      inside.prefix
      ∙ ap (λ ins. ins ++ inside.rest) grown.longer
      ∙ append_assoc a.ins grown.added inside.rest;
  settled = λ l from below.
      inside.settled l from (omega (arith, grown.more_labels)) ∙ grown.keeps l below;
}

-- Before a label was marked, the labels above it are settled.
pub Inside-unmark :
    {base : ℕ} {b whole : Assembler} (l : ℕ)
    → base ≤ l
    → Inside base (mark l b) whole
    → Inside (suc l) b whole
Inside-unmark {b = b} l low inside = record {
  rest = inside.rest;
  prefix = inside.prefix;
  settled = λ k from below.
      inside.settled k (omega arith) below ∙ mark_other l k b (λ same. omega (arith, same));
}

pub Inside-next :
    {base : ℕ} {whole : Assembler} (insn : AsmInsn) (a : Assembler)
    → Inside base (push insn a) whole
    → get_elem? whole.ins (length a.ins) ≡ some insn
Inside-next insn a inside =
    ap (λ ins. get_elem? ins (length a.ins))
      (inside.prefix ∙ append_assoc a.ins (insn ∷ []) inside.rest)
    ∙ get_elem?-append a.ins inside.rest insn

-- The instruction at place `k` of the list is the one at `k` of the program.
abbrev Placed : (ℕ → ℕ) → (i k : ℕ) → AsmInsn → List Instruction → Type 0
Placed label_pos i k insn out =
    (resolved : Instruction) × (resolve_insn label_pos (i + k) insn ≡ ok resolved)
    × (drop k out ≡ resolved ∷ drop (suc k) out)

pub resolve_from-drop :
    (label_pos : ℕ → ℕ) (i k : ℕ) (ins : List AsmInsn) (out : List Instruction) (insn : AsmInsn)
    → resolve_from label_pos i ins ≡ ok out
    → get_elem? ins k ≡ some insn
    → Placed label_pos i k insn out
unfolding resolve_from
resolve_from-drop label_pos i k [] out insn h found = cc
resolve_from-drop label_pos i zero (first ∷ others) out insn h found =
    let (resolved, now, later) = >>=-eq-ok (resolve_insn label_pos i first) _ h in
    let (tail, there, made) = >>=-eq-ok (resolve_from label_pos (suc i) others) _ later in
    let shape : resolved ∷ tail ≡ out = cc in
    let same : first ≡ insn = cc in
    let place : i ≡ i + 0 = omega arith in
    subst (Placed label_pos i 0 insn) shape (
      resolved,
      subst (λ at. resolve_insn label_pos at insn ≡ ok resolved) place
          (ap (resolve_insn label_pos i) (sym same) ∙ now),
      refl,
    )
resolve_from-drop label_pos i (suc k) (first ∷ others) out insn h found =
    let (resolved, now, later) = >>=-eq-ok (resolve_insn label_pos i first) _ h in
    let (tail, there, made) = >>=-eq-ok (resolve_from label_pos (suc i) others) _ later in
    let shape : resolved ∷ tail ≡ out = cc in
    let place : suc i + k ≡ i + suc k = omega arith in
    let (insn', here, cut) = resolve_from-drop label_pos (suc i) k others tail insn there found in
    subst (Placed label_pos i (suc k) insn) shape
      (insn', subst (λ at. resolve_insn label_pos at insn ≡ ok insn') place here, cut)

-- Both skips lead forward.
resolve_insn-jump :
    (label_pos : ℕ → ℕ) (i : ℕ) (test : JumpTest) (val jt jf : ℕ) (insn : Instruction)
    → resolve_insn label_pos i (jump test val jt jf) ≡ ok insn
    → (insn ≡ jump_if test val (label_pos jt - (i + 1)) (label_pos jf - (i + 1)))
      × (suc i ≤ label_pos jt)
      × (suc i ≤ label_pos jf)
unfolding resolve_insn
resolve_insn-jump label_pos i test val jt jf insn h = ground arith

abbrev pub ends : Option Bool → (won lost : ℕ) → ℕ
ends none won lost = 0
ends (some holds) won lost = if holds then won else lost

ends-then_load :
    (read : Option ℕ) (next : ℕ → Option Bool) (won lost : ℕ)
    → ends (read then_load next) won lost ≡ or_reject read (λ v. ends (next v) won lost)
ends-then_load none next won lost = refl
ends-then_load (some v) next won lost = refl

or_reject-cong :
    (read : Option ℕ) (f g : ℕ → ℕ) → ((v : ℕ) → f v ≡ g v) → or_reject read f ≡ or_reject read g
or_reject-cong none f g h = refl
or_reject-cong (some v) f g h = h v

pub if-ap {ℓ κ} :
    {A : Type ℓ} {B : Type κ} (f : A → B) (b : Bool) (x y : A)
    → f (if b then x else y) ≡ (if b then f x else f y)
if-ap f true x y = refl
if-ap f false x y = refl

module _ (vm : Machine) (pkt : List ℕ) (whole : Assembler) (out : List Instruction)
    (resolved : resolve whole ≡ ok out) where
  -- The verdict from place `i` of the program on.
  abbrev pub verdict_at : (a x i : ℕ) → ℕ
  verdict_at a x i = vm.run pkt a x (drop i out)

  placed :
      (k : ℕ) (insn : AsmInsn)
      → get_elem? whole.ins k ≡ some insn
      → (made : Instruction) × (resolve_insn whole.label_pos k insn ≡ ok made)
        × (drop k out ≡ made ∷ drop (suc k) out)
  unfolding resolve
  placed k insn found =
      let (made, now, cut) =
        resolve_from-drop whole.label_pos 0 k whole.ins out insn resolved found in
      let place : 0 + k ≡ k = omega arith in
      (made, subst (λ at. resolve_insn whole.label_pos at insn ≡ ok made) place now, cut)

  placed_plain :
      (k : ℕ) (insn : Instruction)
      → get_elem? whole.ins k ≡ some (plain insn)
      → drop k out ≡ insn ∷ drop (suc k) out
  unfolding resolve_insn
  placed_plain k insn found =
      let (same, now, cut) = placed k (plain insn) found in
      let e : same ≡ insn = cc in cut ∙ ap (λ i. i ∷ drop (suc k) out) e

  length-push : (insn : AsmInsn) (a : Assembler) → suc (length a.ins) ≡ length (push insn a).ins
  length-push insn a = omega (arith, length-append a.ins (insn ∷ []))

  pub load_abs-runs :
      {base : ℕ} (off size : ℕ) (a : Assembler) (next : ℕ → Option Bool) (won lost : ℕ)
      → Inside base (emit_load_abs off size a) whole
      → ((v x : ℕ)
          → verdict_at v x (length (emit_load_abs off size a).ins) ≡ ends (next v) won lost)
      → (r x : ℕ) → verdict_at r x (length a.ins) ≡ ends (load pkt off size then_load next) won lost
  load_abs-runs off size a next won lost inside after r x =
      ap (vm.run pkt r x) (placed_plain _ _ (Inside-next _ a inside))
      ∙ vm.run-load_absolute pkt r x off size _
      ∙ or_reject-cong (load pkt off size) _ _
          (λ v. ap (verdict_at v x) (length-push _ a) ∙ after v x)
      ∙ sym (ends-then_load (load pkt off size) next won lost)

  pub load_ind-runs :
      {base : ℕ} (off size : ℕ) (a : Assembler) (next : ℕ → Option Bool) (won lost x : ℕ)
      → Inside base (emit_load_ind off size a) whole
      → ((v : ℕ) → verdict_at v x (length (emit_load_ind off size a).ins) ≡ ends (next v) won lost)
      → (r : ℕ)
      → verdict_at r x (length a.ins) ≡ ends (load pkt (x + off) size then_load next) won lost
  load_ind-runs off size a next won lost x inside after r =
      ap (vm.run pkt r x) (placed_plain _ _ (Inside-next _ a inside))
      ∙ vm.run-load_indirect pkt r x off size _
      ∙ or_reject-cong (load pkt (x + off) size) _ _
          (λ v. ap (verdict_at v x) (length-push _ a) ∙ after v)
      ∙ sym (ends-then_load (load pkt (x + off) size) next won lost)

  pub load_mem_shift-runs :
      {base : ℕ} (off : ℕ) (a : Assembler) (next : ℕ → Option Bool) (won lost : ℕ)
      → Inside base (emit_load_mem_shift off a) whole
      → ((v r : ℕ)
          → verdict_at r (4 * bit_and v 0xf) (length (emit_load_mem_shift off a).ins)
            ≡ ends (next v) won lost)
      → (r x : ℕ) → verdict_at r x (length a.ins) ≡ ends (load pkt off 1 then_load next) won lost
  load_mem_shift-runs off a next won lost inside after r x =
      ap (vm.run pkt r x) (placed_plain _ _ (Inside-next _ a inside))
      ∙ vm.run-load_mem_shift pkt r x off _
      ∙ or_reject-cong (load pkt off 1) _ _
          (λ v. ap (verdict_at r (4 * bit_and v 0xf)) (length-push _ a) ∙ after v r)
      ∙ sym (ends-then_load (load pkt off 1) next won lost)

  pub ret-runs :
      {base : ℕ} (val : ℕ) (a : Assembler)
      → Inside base (emit_ret val a) whole
      → (r x : ℕ) → verdict_at r x (length a.ins) ≡ val
  ret-runs val a inside r x =
      ap (vm.run pkt r x) (placed_plain _ _ (Inside-next _ a inside))
      ∙ vm.run-ret_constant pkt r x val _

  -- The rest of the program behind a skip is the program from the label on.
  skip_to :
      (k target : ℕ) → suc k ≤ target → drop (target - (k + 1)) (drop (suc k) out) ≡ drop target out
  skip_to k target h =
      let e : suc k + (target - (k + 1)) ≡ target = omega arith in
      drop-drop (suc k) (target - (k + 1)) out ∙ ap (λ n. drop n out) e

  pub jump-runs :
      {base : ℕ} (test : JumpTest) (val jt jf : ℕ) (a : Assembler)
      → Inside base (emit_jump test val jt jf a) whole
      → (r x : ℕ)
      → verdict_at r x (length a.ins) ≡ (
          if passes test r val
          then verdict_at r x (whole.label_pos jt)
          else verdict_at r x (whole.label_pos jf))
  jump-runs test val jt jf a inside r x =
      let (insn, now, cut) = placed _ _ (Inside-next _ a inside) in
      let (shape, to_jt, to_jf) = resolve_insn-jump _ (length a.ins) test val jt jf insn now in
      ap (vm.run pkt r x) (cut ∙ ap (λ i. i ∷ drop (suc (length a.ins)) out) shape)
      ∙ vm.run-jump_if pkt r x test val _ _ _
      ∙ if-ap (λ skip. vm.run pkt r x (drop skip (drop (suc (length a.ins)) out)))
          (passes test r val) _ _
      ∙ ap₂ (λ won lost. if passes test r val then won else lost)
          (ap (vm.run pkt r x) (skip_to _ _ to_jt)) (ap (vm.run pkt r x) (skip_to _ _ to_jf))
