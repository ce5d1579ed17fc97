-- ===== src/Bpf/Machine.antt =====
-- golang.org/x/net/bpf's virtual machine as a parameter, and the meaning of a predicate on a
-- frame, which pkg/bpf's comments describe.
use goscapy.Base.{
  leb, ◌==◌, if◌then◌else◌, length, take, drop, get_be, ℕ, ◌+◌, ◌*◌, bit_and, ◌≡◌, Bool, true,
  false, not, ◌||◌, Option, none, some, List, ◌∷◌,
}
use goscapy.Bpf.Assembler.{
  JumpTest, jump_equal, jump_bits_set, Instruction, load_absolute, load_indirect, load_mem_shift,
  ret_constant, jump_if,
}
use goscapy.Bpf.Predicates.{
  Direction, dir_any, dir_src, dir_dst, Predicate, ether_type_pred, ip_proto_pred, host_pred,
  port_pred, and_pred, or_pred, not_pred, accept_len,
}

-- `size` bytes of the packet as a big-endian number; `none` when they leave the packet.
abbrev pub load : List ℕ → (off size : ℕ) → Option ℕ
load pkt off size =
    if leb (off + size) (length pkt) then some (get_be (take size (drop off pkt))) else none

abbrev pub passes : JumpTest → (a val : ℕ) → Bool
passes jump_equal a val = a == val
passes jump_bits_set a val = not (bit_and a val == 0)

-- A load out of the packet ends the program with verdict 0.
abbrev pub or_reject : Option ℕ → (ℕ → ℕ) → ℕ
or_reject none next = 0
or_reject (some v) next = next v

-- `run pkt a x prog` is the verdict of the rest of a program with the registers at `a` and `x`.
-- The laws are x/net/bpf's documentation of each instruction.
pub record Machine : Type 0 where
  pub run : (pkt : List ℕ) (a x : ℕ) (prog : List Instruction) → ℕ
  pub run-load_absolute :
      (pkt : List ℕ) (a x off size : ℕ) (prog : List Instruction)
      → run pkt a x (load_absolute off size ∷ prog)
        ≡ or_reject (load pkt off size) (λ v. run pkt v x prog)
  pub run-load_indirect :
      (pkt : List ℕ) (a x off size : ℕ) (prog : List Instruction)
      → run pkt a x (load_indirect off size ∷ prog)
        ≡ or_reject (load pkt (x + off) size) (λ v. run pkt v x prog)
  pub run-load_mem_shift :
      (pkt : List ℕ) (a x off : ℕ) (prog : List Instruction)
      → run pkt a x (load_mem_shift off ∷ prog)
        ≡ or_reject (load pkt off 1) (λ v. run pkt a (4 * bit_and v 0xf) prog)
  pub run-ret_constant :
      (pkt : List ℕ) (a x val : ℕ) (prog : List Instruction)
      → run pkt a x (ret_constant val ∷ prog) ≡ val
  pub run-jump_if :
      (pkt : List ℕ) (a x : ℕ) (test : JumpTest) (val st sf : ℕ) (prog : List Instruction)
      → run pkt a x (jump_if test val st sf ∷ prog)
        ≡ run pkt a x (drop (if passes test a val then st else sf) prog)

infixl 5 ◌then_load◌
abbrev pub ◌then_load◌ : Option ℕ → (ℕ → Option Bool) → Option Bool
none then_load next = none
some v then_load next = next v

-- The frame has EtherType IPv4, and the rest holds.
abbrev pub on_ipv4 : List ℕ → Option Bool → Option Bool
on_ipv4 pkt rest = load pkt 12 2 then_load λ etype. if etype == 0x0800 then rest else some false

abbrev pub host_matches : Direction → (ip : ℕ) → List ℕ → Option Bool
host_matches dir_src ip pkt = load pkt 26 4 then_load λ src. some (src == ip)
host_matches dir_dst ip pkt = load pkt 30 4 then_load λ dst. some (dst == ip)
host_matches dir_any ip pkt = load pkt 26 4 then_load λ src.
    if src == ip then some true else (load pkt 30 4 then_load λ dst. some (dst == ip))

-- `start` is the length of the IPv4 header, behind the 14 bytes of Ethernet.
abbrev pub port_matches : Direction → (port : ℕ) → List ℕ → (start : ℕ) → Option Bool
port_matches dir_src port pkt start =
    load pkt (start + 14) 2 then_load λ sport. some (sport == port)
port_matches dir_dst port pkt start =
    load pkt (start + 16) 2 then_load λ dport. some (dport == port)
port_matches dir_any port pkt start = load pkt (start + 14) 2 then_load λ sport.
    if sport == port
    then some true
    else (load pkt (start + 16) 2 then_load λ dport. some (dport == port))

abbrev pub proto_matches : (proto found : ℕ) → Bool
proto_matches proto found = if proto == 0 then found == 6 || found == 17 else found == proto

-- What a predicate says of a frame; `none` when it needs bytes that the frame does not have.
unfoldable pub matches : Predicate → List ℕ → Option Bool
matches (ether_type_pred etype) pkt = load pkt 12 2 then_load λ found. some (found == etype)
matches (ip_proto_pred proto) pkt =
    on_ipv4 pkt (load pkt 23 1 then_load λ found. some (found == proto))
matches (host_pred dir ip) pkt = on_ipv4 pkt (host_matches dir ip pkt)
matches (port_pred dir proto port) pkt = on_ipv4 pkt (
    load pkt 23 1 then_load λ found.
    if proto_matches proto found
    then (load pkt 20 2 then_load λ fragment.
        if bit_and fragment 0x1fff == 0
        then (load pkt 14 1 then_load λ first. port_matches dir port pkt (4 * bit_and first 0xf))
        else some false)
    else some false)
matches (and_pred p q) pkt = elim (matches p pkt) [
  | none ↦ none
  | some holds ↦ if holds then matches q pkt else some false
]
matches (or_pred p q) pkt = elim (matches p pkt) [
  | none ↦ none
  | some holds ↦ if holds then some true else matches q pkt
]
matches (not_pred p) pkt = elim (matches p pkt) [ none ↦ none | some holds ↦ some (not holds) ]

-- The accept length: a frame that is too short for the question is rejected.
abbrev pub verdict : Option Bool → ℕ
verdict none = 0
verdict (some holds) = if holds then accept_len else 0
