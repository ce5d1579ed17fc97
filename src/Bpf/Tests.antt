-- ===== src/Bpf/Tests.antt =====
-- A machine for the programs, filters compiled and run on concrete frames, and the theorems on
-- these.
use goscapy.Base.{
  get_be, if◌then◌else◌, drop, replicate, ok, Returns, ℕ, zero, suc, ◌+◌, ◌*◌, bit_and, String,
  str_eq, ◌≡◌, refl, true, none, some, List, [], ◌∷◌, ◌++◌, arith,
}
use goscapy.Fields.Addresses.{to4}
use goscapy.Bpf.Assembler.{
  resolve_insn, jump_equal, Instruction, load_absolute, load_indirect, load_mem_shift, ret_constant,
  jump_if,
}
use goscapy.Bpf.Predicates.{
  dir_any, Predicate, ether_type_pred, host_pred, port_pred, or_pred, accept_len, assemble_program,
}
use goscapy.Bpf.Machine.{load, passes, or_reject, Machine, matches, verdict}
use goscapy.Bpf.Parser.{Readers, parse_all, compile_instructions}
use goscapy.Bpf.Filter.{match_func, holds_of, match_func-holds_of}
use goscapy.Bpf.Correct.{assemble_program-run}
use goscapy.Bpf.Parser.Total.{compile_instructions-Returns}

-- `skip` instructions are left out before the next one runs.
run_from : (pkt : List ℕ) (a x skip : ℕ) → List Instruction → ℕ
run_from pkt a x skip [] = 0
run_from pkt a x (suc skip) (insn ∷ rest) = run_from pkt a x skip rest
run_from pkt a x zero (load_absolute off size ∷ rest) =
    or_reject (load pkt off size) (λ v. run_from pkt v x 0 rest)
run_from pkt a x zero (load_indirect off size ∷ rest) =
    or_reject (load pkt (x + off) size) (λ v. run_from pkt v x 0 rest)
run_from pkt a x zero (load_mem_shift off ∷ rest) =
    or_reject (load pkt off 1) (λ v. run_from pkt a (4 * bit_and v 0xf) 0 rest)
run_from pkt a x zero (ret_constant val ∷ rest) = val
run_from pkt a x zero (jump_if test val st sf ∷ rest) =
    run_from pkt a x (if passes test a val then st else sf) rest

run_from-drop :
    (pkt : List ℕ) (a x skip : ℕ) (prog : List Instruction)
    → run_from pkt a x skip prog ≡ run_from pkt a x 0 (drop skip prog)
unfolding run_from
run_from-drop pkt a x zero prog = refl
run_from-drop pkt a x (suc skip) [] = refl
run_from-drop pkt a x (suc skip) (insn ∷ rest) = run_from-drop pkt a x skip rest

interpreter : Machine
unfolding run_from
interpreter = record {
  run = λ pkt a x prog. run_from pkt a x 0 prog;
  run-load_absolute = λ pkt a x off size prog. refl;
  run-load_indirect = λ pkt a x off size prog. refl;
  run-load_mem_shift = λ pkt a x off prog. refl;
  run-ret_constant = λ pkt a x val prog. refl;
  run-jump_if = λ pkt a x test val st sf prog. run_from-drop pkt a x _ prog;
}

readers : Readers
readers = record {
  parse_ip = λ s. if str_eq s "10.0.0.1" then some (10 ∷ 0 ∷ 0 ∷ 1 ∷ []) else none;
  parse_uint16 = λ s. if str_eq s "80" then some 80 else none;
  parse_ip-empty = refl;
  parse_uint16-empty = refl;
}

abbrev web_or_host : List String
web_or_host = "tcp" ∷ "port" ∷ "80" ∷ "or" ∷ "host" ∷ "10.0.0.1" ∷ []

abbrev web_or_host_pred : Predicate
web_or_host_pred = or_pred (port_pred dir_any 6 80) (host_pred dir_any 0x0a000001)

-- Ethernet, IPv4 and the ports of a TCP segment to port 80 of 10.0.0.2.
abbrev frame : List ℕ
frame =
    replicate 12 0
    ++ (8 ∷ 0 ∷ [])
    ++ (0x45 ∷ 0 ∷ 0 ∷ 24 ∷ 0 ∷ 1 ∷ 0 ∷ 0 ∷ 64 ∷ 6 ∷ 0 ∷ 0 ∷ [])
    ++ (10 ∷ 0 ∷ 0 ∷ 3 ∷ 10 ∷ 0 ∷ 0 ∷ 2 ∷ [])
    ++ (4 ∷ 0 ∷ 0 ∷ 80 ∷ [])

parse_web_or_host : parse_all readers web_or_host ≡ ok web_or_host_pred
unfolding parse_all readers to4
parse_web_or_host = refl

made :
    assemble_program (ether_type_pred 0x0806)
    ≡ ok (
        load_absolute 12 2
        ∷ jump_if jump_equal 0x0806 0 1
        ∷ ret_constant accept_len
        ∷ ret_constant 0
        ∷ [])
unfolding assemble_program resolve_insn
made = refl

assemble_program-run_example :
    interpreter.run frame 0 0 (
      load_absolute 12 2
      ∷ jump_if jump_equal 0x0806 0 1
      ∷ ret_constant accept_len
      ∷ ret_constant 0
      ∷ [])
    ≡ verdict (matches (ether_type_pred 0x0806) frame)
assemble_program-run_example =
    assemble_program-run interpreter (ether_type_pred 0x0806) frame _ made

answered : match_func readers interpreter (λ prog. true) web_or_host frame ≡ ok true
unfolding match_func readers interpreter to4 resolve_insn get_be
answered = refl

match_func-holds_of_example : true ≡ holds_of web_or_host_pred frame
match_func-holds_of_example =
    match_func-holds_of readers interpreter (λ prog. true) web_or_host frame web_or_host_pred true
      (omega arith) parse_web_or_host answered

compile_instructions-Returns_example : Returns (compile_instructions readers web_or_host)
compile_instructions-Returns_example = compile_instructions-Returns readers web_or_host
