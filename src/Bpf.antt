-- ===== src/Bpf.antt =====
-- pkg/bpf: a compiler from filter expressions to classic BPF programs. The machine that runs
-- the programs is golang.org/x/net/bpf, a parameter here.
pub mod Assembler
pub mod Predicates
pub mod Machine
pub mod Grows
pub mod Runs
pub mod Guards
pub mod Leaves
pub mod Correct
pub mod Parser
pub mod Filter
mod Tests
