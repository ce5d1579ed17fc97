-- ===== src/Bpf/Predicates.antt =====
-- pkg/bpf/bpf.go: the predicate builders and combinators. A Go predicate is a closure; here it
-- is the builder's name with the captured variables, and `emit` is the closure's body.
use goscapy.Base.{◌==◌, if◌then◌else◌, Outcome, ℕ, List}
use goscapy.Bpf.Assembler.{
  jump_equal, Instruction, Assembler, empty, new_label, mark, emit_load_abs, emit_load_ind,
  emit_load_mem_shift, emit_ret, emit_jump, match_or_fall, fail_or_fall, resolve,
}

pub data Direction : Type 0 where
  dir_any dir_src dir_dst : Direction

pub data Predicate : Type 0 where
  ether_type_pred : (etype : ℕ) → Predicate
  ip_proto_pred : (proto : ℕ) → Predicate
  host_pred : (dir : Direction) (ip : ℕ) → Predicate
  port_pred : (dir : Direction) (proto port : ℕ) → Predicate
  and_pred or_pred : (p q : Predicate) → Predicate
  not_pred : (p : Predicate) → Predicate

unfoldable pub guard_ether_type : (etype f : ℕ) → Assembler → Assembler
guard_ether_type etype f a =
    let loaded = emit_load_abs 12 2 a in
    mark loaded.next_lbl (emit_jump jump_equal etype loaded.next_lbl f (new_label loaded))

-- The test of the IPv4 protocol in `portPred`; `proto` 0 means TCP or UDP.
unfoldable pub guard_proto : (proto f : ℕ) → Assembler → Assembler
unfolding match_or_fall
guard_proto proto f a =
    if proto == 0
    then mark a.next_lbl
        (emit_jump jump_equal 17 a.next_lbl f (match_or_fall 6 a.next_lbl (new_label a)))
    else mark a.next_lbl (emit_jump jump_equal proto a.next_lbl f (new_label a))

-- The last part of `hostPred`, after its guard.
unfoldable pub emit_host : Direction → (ip t f : ℕ) → Assembler → Assembler
unfolding match_or_fall
emit_host dir_src ip t f a = emit_jump jump_equal ip t f (emit_load_abs 26 4 a)
emit_host dir_dst ip t f a = emit_jump jump_equal ip t f (emit_load_abs 30 4 a)
emit_host dir_any ip t f a =
    emit_jump jump_equal ip t f (emit_load_abs 30 4 (match_or_fall ip t (emit_load_abs 26 4 a)))

-- The last part of `portPred`, with the header length in X.
unfoldable pub emit_port : Direction → (port t f : ℕ) → Assembler → Assembler
unfolding match_or_fall
emit_port dir_src port t f a = emit_jump jump_equal port t f (emit_load_ind 14 2 a)
emit_port dir_dst port t f a = emit_jump jump_equal port t f (emit_load_ind 16 2 a)
emit_port dir_any port t f a =
    emit_jump jump_equal port t f (emit_load_ind 16 2 (match_or_fall port t (emit_load_ind 14 2 a)))

unfoldable pub emit : Predicate → (t f : ℕ) → Assembler → Assembler
unfolding guard_ether_type guard_proto emit_host emit_port fail_or_fall
emit (ether_type_pred etype) t f a = emit_jump jump_equal etype t f (emit_load_abs 12 2 a)
emit (ip_proto_pred proto) t f a =
    emit_jump jump_equal proto t f (emit_load_abs 23 1 (guard_ether_type 0x0800 f a))
emit (host_pred dir ip) t f a = emit_host dir ip t f (guard_ether_type 0x0800 f a)
emit (port_pred dir proto port) t f a =
    let typed = guard_ether_type 0x0800 f a in
    let known = guard_proto proto f (emit_load_abs 23 1 typed) in
    let whole = fail_or_fall 0x1fff f (emit_load_abs 20 2 known) in
    emit_port dir port t f (emit_load_mem_shift 14 whole)
emit (and_pred p q) t f a =
    let first = emit p a.next_lbl f (new_label a) in emit q t f (mark a.next_lbl first)
emit (or_pred p q) t f a =
    let first = emit p t a.next_lbl (new_label a) in emit q t f (mark a.next_lbl first)
emit (not_pred p) t f a = emit p f t a

abbrev pub accept_len : ℕ
accept_len = 262144

-- `CompileInstructions` from `tLabel` on: both verdicts behind the code of the predicate.
unfoldable pub body : Predicate → Assembler
unfolding emit
body pred = emit pred 0 1 (new_label (new_label empty))

unfoldable pub assemble : Predicate → Assembler
unfolding body
assemble pred = emit_ret 0 (mark 1 (emit_ret accept_len (mark 0 (body pred))))

unfoldable pub assemble_program : Predicate → Outcome (List Instruction)
unfolding assemble resolve
assemble_program pred = resolve (assemble pred)
