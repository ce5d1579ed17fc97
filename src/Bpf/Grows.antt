-- ===== src/Bpf/Grows.antt =====
-- How the emitting operations of pkg/bpf/bpf.go change the assembler.
use goscapy.Base.{
  ◌==◌, Bool-cases, length, ℕ, ◌≤◌, ◌<◌, ◌≡◌, ◌≢◌, ◌≤◌, ◌<◌, arith, refl, refl, sym, ap, ◌∙◌, ◌≢◌,
  inl, inr, List, [], ◌∷◌, ◌++◌, append-nil, append_assoc, arith,
}
use goscapy.Bpf.Assembler.{AsmInsn, Assembler, new_label, mark, push, match_or_fall, fail_or_fall}
use goscapy.Bpf.Predicates.{
  Direction, dir_any, dir_src, dir_dst, Predicate, ether_type_pred, ip_proto_pred, host_pred,
  port_pred, and_pred, or_pred, not_pred, guard_ether_type, guard_proto, emit_host, emit_port, emit,
}

-- Instructions are appended, and the labels that there were keep their positions.
pub record Grows (a later : Assembler) : Type 0 where
  pub added : List AsmInsn
  pub longer : later.ins ≡ a.ins ++ added
  pub more_labels : a.next_lbl ≤ later.next_lbl
  pub keeps : (l : ℕ) → l < a.next_lbl → later.label_pos l ≡ a.label_pos l

pub Grows-refl : (a : Assembler) → Grows a a
Grows-refl a = record {
  added = [];
  longer = sym (append-nil a.ins);
  more_labels = omega arith;
  keeps = λ l h. refl;
}

pub Grows-trans : {a b c : Assembler} → Grows a b → Grows b c → Grows a c
Grows-trans {a} {b} {c} first second = record {
  added = first.added ++ second.added;
  longer =
      second.longer
      ∙ ap (λ ins. ins ++ second.added) first.longer
      ∙ append_assoc a.ins first.added second.added;
  more_labels = omega (arith, first.more_labels, second.more_labels);
  keeps = λ l h. second.keeps l (omega (arith, first.more_labels)) ∙ first.keeps l h;
}

pub push-Grows : (insn : AsmInsn) (a : Assembler) → Grows a (push insn a)
push-Grows insn a = record {
  added = insn ∷ [];
  longer = refl;
  more_labels = omega arith;
  keeps = λ l h. refl;
}

pub new_label-Grows : (a : Assembler) → Grows a (new_label a)
new_label-Grows a = record {
  added = [];
  longer = sym (append-nil a.ins);
  more_labels = omega arith;
  keeps = λ l h. refl;
}

pub mark_other : (l k : ℕ) (a : Assembler) → k ≢ l → (mark l a).label_pos k ≡ a.label_pos k
mark_other l k a h = ground arith

pub mark_same : (l : ℕ) (a : Assembler) → (mark l a).label_pos l ≡ length a.ins
mark_same l a = ground arith

-- A label that `a` does not have yet.
pub mark-Grows : {a b : Assembler} (l : ℕ) → a.next_lbl ≤ l → Grows a b → Grows a (mark l b)
mark-Grows {a} {b} l fresh h = record {
  added = h.added;
  longer = h.longer;
  more_labels = h.more_labels;
  keeps = λ k old. mark_other l k b (λ same. omega (arith, same)) ∙ h.keeps k old;
}

-- A jump to a new label, which is marked behind it.
pub mark_pushed-Grows :
    (insn : AsmInsn) (a : Assembler) → Grows a (mark a.next_lbl (push insn (new_label a)))
mark_pushed-Grows insn a =
    mark-Grows a.next_lbl (omega arith)
      (Grows-trans (new_label-Grows a) (push-Grows insn (new_label a)))

pub guard_ether_type-Grows : (etype f : ℕ) (a : Assembler) → Grows a (guard_ether_type etype f a)
unfolding guard_ether_type
guard_ether_type-Grows etype f a = Grows-trans (push-Grows _ a) (mark_pushed-Grows _ _)

pub guard_proto-Grows : (proto f : ℕ) (a : Assembler) → Grows a (guard_proto proto f a)
unfolding guard_proto match_or_fall
guard_proto-Grows proto f a = elim (Bool-cases (proto == 0)) [
  | inl either ↦ rw either (
      mark-Grows a.next_lbl (omega arith) (
        Grows-trans (new_label-Grows a)
          (Grows-trans (mark_pushed-Grows _ (new_label a)) (push-Grows _ _))))
  | inr one ↦ rw one (mark_pushed-Grows _ a)
]

pub match_or_fall-Grows : (val t : ℕ) (a : Assembler) → Grows a (match_or_fall val t a)
unfolding match_or_fall
match_or_fall-Grows val t a = mark_pushed-Grows _ a

pub fail_or_fall-Grows : (val f : ℕ) (a : Assembler) → Grows a (fail_or_fall val f a)
unfolding fail_or_fall
fail_or_fall-Grows val f a = mark_pushed-Grows _ a

pub emit_host-Grows :
    (dir : Direction) (ip t f : ℕ) (a : Assembler) → Grows a (emit_host dir ip t f a)
unfolding emit_host
emit_host-Grows dir_src ip t f a = Grows-trans (push-Grows _ a) (push-Grows _ _)
emit_host-Grows dir_dst ip t f a = Grows-trans (push-Grows _ a) (push-Grows _ _)
emit_host-Grows dir_any ip t f a =
    Grows-trans (Grows-trans (push-Grows _ a) (match_or_fall-Grows ip t _))
      (Grows-trans (push-Grows _ _) (push-Grows _ _))

pub emit_port-Grows :
    (dir : Direction) (port t f : ℕ) (a : Assembler) → Grows a (emit_port dir port t f a)
unfolding emit_port
emit_port-Grows dir_src port t f a = Grows-trans (push-Grows _ a) (push-Grows _ _)
emit_port-Grows dir_dst port t f a = Grows-trans (push-Grows _ a) (push-Grows _ _)
emit_port-Grows dir_any port t f a =
    Grows-trans (Grows-trans (push-Grows _ a) (match_or_fall-Grows port t _))
      (Grows-trans (push-Grows _ _) (push-Grows _ _))

-- Code in front of a label that is new for `a`, and code behind it.
pub both-Grows :
    {a b c : Assembler} → Grows (new_label a) b → Grows (mark a.next_lbl b) c → Grows a c
both-Grows {a} first second =
    Grows-trans (mark-Grows a.next_lbl (omega arith) (Grows-trans (new_label-Grows a) first)) second

pub emit-Grows : (p : Predicate) (t f : ℕ) (a : Assembler) → Grows a (emit p t f a)
unfolding emit
emit-Grows (ether_type_pred etype) t f a = Grows-trans (push-Grows _ a) (push-Grows _ _)
emit-Grows (ip_proto_pred proto) t f a =
    Grows-trans (guard_ether_type-Grows 0x0800 f a) (Grows-trans (push-Grows _ _) (push-Grows _ _))
emit-Grows (host_pred dir ip) t f a =
    Grows-trans (guard_ether_type-Grows 0x0800 f a) (emit_host-Grows dir ip t f _)
emit-Grows (port_pred dir proto port) t f a =
    Grows-trans
      (Grows-trans (Grows-trans (guard_ether_type-Grows 0x0800 f a) (push-Grows _ _))
        (Grows-trans (guard_proto-Grows proto f _) (push-Grows _ _)))
      (Grows-trans (Grows-trans (fail_or_fall-Grows 0x1fff f _) (push-Grows _ _))
        (emit_port-Grows dir port t f _))
emit-Grows (and_pred p q) t f a =
    both-Grows (emit-Grows p a.next_lbl f (new_label a)) (emit-Grows q t f _)
emit-Grows (or_pred p q) t f a =
    both-Grows (emit-Grows p t a.next_lbl (new_label a)) (emit-Grows q t f _)
emit-Grows (not_pred p) t f a = emit-Grows p f t a
