-- ===== src/Bpf/Assembler.antt =====
-- pkg/bpf/bpf.go: the assembler, which defers jump targets to labels until `resolve`.
use goscapy.Base.{
  leb, ◌==◌, if◌then◌else◌, length, too_large, Outcome, ok, err, ◌>>=◌, ℕ, suc, ◌+◌, ◌-◌, Bool,
  ◌&&◌, List, [], ◌∷◌, ◌++◌,
}

-- The instructions of x/net/bpf that the source emits, with their fields' names.
pub data JumpTest : Type 0 where
  jump_equal jump_bits_set : JumpTest

pub data Instruction : Type 0 where
  load_absolute : (off size : ℕ) → Instruction
  load_indirect : (off size : ℕ) → Instruction
  load_mem_shift : (off : ℕ) → Instruction
  ret_constant : (val : ℕ) → Instruction
  jump_if : (test : JumpTest) (val skip_true skip_false : ℕ) → Instruction

-- `asmInsn`: `isJump` tells which of the fields count.
pub data AsmInsn : Type 0 where
  plain : Instruction → AsmInsn
  jump : (test : JumpTest) (val jt_lbl jf_lbl : ℕ) → AsmInsn

-- `label_pos` is Go's map read with its zero value for a missing key.
pub record Assembler : Type 0 where
  pub ins : List AsmInsn
  pub label_pos : ℕ → ℕ
  pub next_lbl : ℕ

abbrev pub empty : Assembler
empty = record { ins = []; label_pos = λ l. 0; next_lbl = 0 }

-- `newLabel` returns `next_lbl`; this is what it does to the assembler.
abbrev pub new_label : Assembler → Assembler
new_label a = record { ins = a.ins; label_pos = a.label_pos; next_lbl = a.next_lbl + 1 }

abbrev pub mark : ℕ → Assembler → Assembler
mark l a = record {
  ins = a.ins;
  label_pos = λ k. if k == l then length a.ins else a.label_pos k;
  next_lbl = a.next_lbl;
}

-- `a.ins = append(a.ins, …)`
abbrev pub push : AsmInsn → Assembler → Assembler
push insn a = record { ins = a.ins ++ (insn ∷ []); label_pos = a.label_pos; next_lbl = a.next_lbl }

abbrev pub emit_load_abs : (off size : ℕ) → Assembler → Assembler
emit_load_abs off size = push (plain (load_absolute off size))

abbrev pub emit_load_ind : (off size : ℕ) → Assembler → Assembler
emit_load_ind off size = push (plain (load_indirect off size))

abbrev pub emit_load_mem_shift : (off : ℕ) → Assembler → Assembler
emit_load_mem_shift off = push (plain (load_mem_shift off))

abbrev pub emit_ret : (val : ℕ) → Assembler → Assembler
emit_ret val = push (plain (ret_constant val))

abbrev pub emit_jump : JumpTest → (val jt_lbl jf_lbl : ℕ) → Assembler → Assembler
emit_jump test val jt_lbl jf_lbl = push (jump test val jt_lbl jf_lbl)

unfoldable pub match_or_fall : (val t_lbl : ℕ) → Assembler → Assembler
match_or_fall val t_lbl a =
    mark a.next_lbl (emit_jump jump_equal val t_lbl a.next_lbl (new_label a))

unfoldable pub fail_or_fall : (val f_lbl : ℕ) → Assembler → Assembler
fail_or_fall val f_lbl a =
    mark a.next_lbl (emit_jump jump_bits_set val f_lbl a.next_lbl (new_label a))

-- A skip of a jump at `i` to position `target`: out of 0..255 it is an error.
abbrev pub skip_fits : (i target : ℕ) → Bool
skip_fits i target = leb (i + 1) target && leb (target - (i + 1)) 255

unfoldable pub resolve_insn : (ℕ → ℕ) → ℕ → AsmInsn → Outcome Instruction
resolve_insn label_pos i (plain insn) = ok insn
resolve_insn label_pos i (jump test val jt_lbl jf_lbl) =
    if skip_fits i (label_pos jt_lbl) && skip_fits i (label_pos jf_lbl)
    then ok (jump_if test val (label_pos jt_lbl - (i + 1)) (label_pos jf_lbl - (i + 1)))
    else err too_large

unfoldable pub resolve_from : (ℕ → ℕ) → ℕ → List AsmInsn → Outcome (List Instruction)
resolve_from label_pos i [] = ok []
resolve_from label_pos i (insn ∷ rest) = do
  resolved ← resolve_insn label_pos i insn
  others ← resolve_from label_pos (suc i) rest
  ok (resolved ∷ others)

unfoldable pub resolve : Assembler → Outcome (List Instruction)
unfolding resolve_from
resolve a = resolve_from a.label_pos 0 a.ins
