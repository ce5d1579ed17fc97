-- ===== src/Bpf/Filter.antt =====
-- pkg/bpf/interp.go: compiled filters applied to frames.
use goscapy.Base.{
  ltb, if◌then◌else◌, length, drop-nil, get_elem?-append, unsupported, Outcome, ok, err, ◌>>=◌,
  >>=-eq-ok, ℕ, ◌<◌, String, ◌≡◌, refl, sym, ap, ◌∙◌, Bool, true, false, Option, none, some, List,
  [], ◌∷◌, arith,
}
use goscapy.Bpf.Assembler.{Instruction, ret_constant, plain, mark, emit_ret, resolve}
use goscapy.Bpf.Predicates.{Predicate, accept_len, body, assemble, assemble_program}
use goscapy.Bpf.Machine.{Machine, matches, verdict}
use goscapy.Bpf.Parser.{Readers, parse_all, compile_instructions}
use goscapy.Bpf.Correct.{assemble_program-run}
use goscapy.Bpf.Runs.{resolve_from-drop}

-- `MatchFunc` behind the tokenizer, with the function it returns applied to `pkt`. `loads` says
-- whether `xbpf.NewVM` takes the program.
unfoldable pub match_func :
    Readers
    → Machine
    → (loads : List Instruction → Bool) → List String
    → (pkt : List ℕ) → Outcome Bool
unfolding compile_instructions
match_func readers vm loads toks pkt = do
  insts ← compile_instructions readers toks
  elim insts [
    | [] ↦ ok true
    | insn ∷ rest ↦
        if loads (insn ∷ rest) then ok (ltb 0 (vm.run pkt 0 0 (insn ∷ rest))) else err unsupported
  ]

-- The predicate holds of the frame, and needs no byte that the frame does not have.
unfoldable pub holds_of : Predicate → List ℕ → Bool
unfolding matches
holds_of pred pkt = elim (matches pred pkt) [ none ↦ false | some holds ↦ holds ]

verdict-positive :
    (meaning : Option Bool)
    → ltb 0 (verdict meaning) ≡ elim meaning [ none ↦ false | some holds ↦ holds ]
verdict-positive none = refl
verdict-positive (some true) = refl
verdict-positive (some false) = refl

match_insts :
    (vm : Machine) (loads : List Instruction → Bool) (pred : Predicate) (pkt : List ℕ)
    (insts : List Instruction) (answer : Bool)
    → assemble_program pred ≡ ok insts
    → 0 < length insts
    → elim insts [
      | [] ↦ ok true
      | insn ∷ rest ↦
          if loads (insn ∷ rest) then ok (ltb 0 (vm.run pkt 0 0 (insn ∷ rest))) else err unsupported
    ]
      ≡ ok answer
    → answer ≡ holds_of pred pkt
unfolding holds_of matches
match_insts vm loads pred pkt [] answer made some_code h = absurd (omega arith)
match_insts vm loads pred pkt (insn ∷ rest) answer made some_code h =
    let same : answer ≡ ltb 0 (vm.run pkt 0 0 (insn ∷ rest)) = ground arith in
    same
    ∙ ap (ltb 0) (assemble_program-run vm pred pkt _ made)
    ∙ verdict-positive (matches pred pkt)

-- A program is never empty: the verdicts stand at its end.
assemble_program-nonempty :
    (pred : Predicate) (prog : List Instruction) → assemble_program pred ≡ ok prog → 0 < length prog
unfolding assemble_program assemble resolve
assemble_program-nonempty pred [] made =
    let before = emit_ret accept_len (mark 0 (body pred)) in
    let (insn, now, cut) =
      resolve_from-drop _ 0 (length before.ins) _ [] (plain (ret_constant 0)) made
        (get_elem?-append before.ins [] (plain (ret_constant 0))) in
    let none_there = drop-nil {A = Instruction} (length before.ins) in cc
assemble_program-nonempty pred (insn ∷ rest) made = omega arith

-- A filter that parses answers for each frame, when the machine takes its program, whether the
-- parsed predicate holds of the frame. A frame that is too short for the predicate is refused.
pub match_func-holds_of :
    (readers : Readers) (vm : Machine) (loads : List Instruction → Bool) (toks : List String)
    (pkt : List ℕ) (pred : Predicate) (answer : Bool)
    → 0 < length toks
    → parse_all readers toks ≡ ok pred
    → match_func readers vm loads toks pkt ≡ ok answer
    → answer ≡ holds_of pred pkt
unfolding match_func compile_instructions
match_func-holds_of readers vm loads [] pkt pred answer some_tokens parsed h = absurd (omega arith)
match_func-holds_of readers vm loads (tok ∷ toks) pkt pred answer some_tokens parsed h =
    let (insts, compiled, answered) = >>=-eq-ok (compile_instructions readers (tok ∷ toks)) _ h in
    let (pred', parsed', made) =
      >>=-eq-ok (parse_all readers (tok ∷ toks)) assemble_program compiled in
    let same : pred' ≡ pred = cc in
    let made' = ap assemble_program (sym same) ∙ made in
    match_insts vm loads pred pkt insts answer made' (assemble_program-nonempty pred insts made')
      answered
