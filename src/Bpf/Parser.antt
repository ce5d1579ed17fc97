-- ===== src/Bpf/Parser.antt =====
-- pkg/bpf/bpf.go: the parser from tokens to predicates, and `CompileInstructions` behind the
-- tokenizer. Positions are the source's, and may pass the end of the tokens.
pub mod Sound
pub mod Total
use goscapy.Base.{
  ltb, ◌==◌, if◌then◌else◌, length, get_or, unsupported, Outcome, ok, err, panic, stuck, ◌>>=◌, ℕ,
  zero, suc, ◌+◌, ◌-◌, ◌*◌, ◌/◌, ◌^◌, String, str_eq, ◌≡◌, Bool, true, false, not, ◌&&◌, ◌||◌,
  Option, none, some, List, [], ◌∷◌,
}
use goscapy.Fields.Addresses.{to4}
use goscapy.Bpf.Assembler.{Instruction, empty}
use goscapy.Bpf.Predicates.{
  Direction, dir_any, dir_src, dir_dst, Predicate, ether_type_pred, ip_proto_pred, host_pred,
  port_pred, and_pred, or_pred, not_pred, assemble_program,
}

-- `net.ParseIP`, with `none` for nil, and `strconv.ParseUint` of base 10 and 16 bits, with `none`
-- for an error. Neither reads an empty text.
pub record Readers : Type 0 where
  pub parse_ip : String → Option (List ℕ)
  pub parse_uint16 : String → Option ℕ
  pub parse_ip-empty : parse_ip "" ≡ none
  pub parse_uint16-empty : parse_uint16 "" ≡ none

abbrev pub is_one_of : List String → String → Bool
is_one_of [] t = false
is_one_of (w ∷ ws) t = str_eq t w || is_one_of ws t

unfoldable pub is_primary_start : String → Bool
is_primary_start = is_one_of (
    "src" ∷ "dst" ∷ "host" ∷ "port" ∷ "ip" ∷ "ip6" ∷ "arp" ∷ "rarp" ∷ "tcp" ∷ "udp" ∷ "icmp" ∷ "not"
    ∷ "!" ∷ "(" ∷ [])

unfoldable pub ether_type_for : String → ℕ
ether_type_for tok =
    if str_eq tok "ip"
    then 0x0800
    else if str_eq tok "ip6"
    then 0x86dd
    else if str_eq tok "arp"
    then 0x0806
    else if str_eq tok "rarp"
    then 0x8035
    else 0

unfoldable pub proto_for : String → ℕ
proto_for tok =
    if str_eq tok "tcp"
    then 6
    else if str_eq tok "udp"
    then 17
    else if str_eq tok "icmp"
    then 1
    else 0

-- Of the four bytes that `To4` gave.
abbrev pub ip_to_u32 : List ℕ → ℕ
ip_to_u32 ip =
    get_or ip 0 0 * 2 ^ 24 + get_or ip 1 0 * 2 ^ 16 + get_or ip 2 0 * 2 ^ 8 + get_or ip 3 0

abbrev pub is_any : Direction → Bool
is_any dir_any = true
is_any dir_src = false
is_any dir_dst = false

-- What a parsing method returns, with the position it leaves.
abbrev pub Parsed : Type 0
Parsed = Outcome (Predicate × ℕ)

module _ (readers : Readers) (toks : List String) where
  open readers use {parse_ip, parse_uint16}

  unfoldable pub peek_ahead : (at n : ℕ) → String
  peek_ahead at n = get_or toks (at + n) ""

  abbrev pub peek : ℕ → String
  peek at = get_or toks at ""

  -- A qualifier in front of `host`, `port` or a protocol, and the position behind it.
  unfoldable pub direction_at : ℕ → Direction × ℕ
  direction_at at =
      if str_eq (peek at) "src"
      then (dir_src, at + 1)
      else if str_eq (peek at) "dst"
      then (dir_dst, at + 1)
      else (dir_any, at)

  abbrev pub parse_port : String → Outcome ℕ
  parse_port s = elim (parse_uint16 s) [ none ↦ err unsupported | some n ↦ ok n ]

  -- `case "host"`, behind the word.
  unfoldable pub parse_host : Direction → (at : ℕ) → Parsed
  unfolding to4
  parse_host dir at = elim (parse_ip (peek at)) [
    | none ↦ err unsupported
    | some ip ↦ elim (to4 ip) [
      | none ↦ err unsupported
      | some ip4 ↦ ok (host_pred dir (ip_to_u32 ip4), at + 1)
    ]
  ]

  -- A port number, with the direction and the protocol read before it.
  unfoldable pub parse_port_of : Direction → (proto at : ℕ) → Parsed
  parse_port_of dir proto at = do n ← parse_port (peek at); ok (port_pred dir proto n, at + 1)

  -- "port" follows, with or without a direction in front of it.
  unfoldable pub port_follows : ℕ → Bool
  unfolding peek_ahead
  port_follows at =
      str_eq (peek at) "port"
      || (str_eq (peek at) "src" || str_eq (peek at) "dst") && str_eq (peek_ahead at 1) "port"

  -- `case "tcp", "udp", "icmp"`, behind the word `tok`.
  unfoldable pub parse_proto : Direction → (tok : String) (at : ℕ) → Parsed
  unfolding proto_for port_follows direction_at parse_port_of
  parse_proto dir tok at =
      if not (str_eq tok "icmp") && port_follows at
      then parse_port_of (direction_at at).0 (proto_for tok) ((direction_at at).1 + 1)
      else if not (is_any dir)
      then err unsupported
      else ok (ip_proto_pred (proto_for tok), at)

  unfoldable pub parse_predicate : ℕ → Parsed
  unfolding direction_at parse_host parse_port_of ether_type_for parse_proto
  parse_predicate start =
      let (dir, at) = direction_at start in
      let tok = peek at in
      if str_eq tok "host"
      then parse_host dir (at + 1)
      else if str_eq tok "port"
      then parse_port_of dir 0 (at + 1)
      else if is_one_of ("ip" ∷ "ip6" ∷ "arp" ∷ "rarp" ∷ []) tok
      then if not (is_any dir)
        then err unsupported
        else ok (ether_type_pred (ether_type_for tok), at + 1)
      else if is_one_of ("tcp" ∷ "udp" ∷ "icmp" ∷ []) tok
      then parse_proto dir tok (at + 1)
      else err unsupported

  unfoldable mutual
    unfolding is_primary_start parse_predicate

    pub parse_or : (fuel at : ℕ) → Parsed
    parse_or zero at = stuck
    parse_or (suc fuel) at = do (left, next) ← parse_and fuel at; or_loop fuel left next

    -- The loop of `parseOr`.
    pub or_loop : (fuel : ℕ) (left : Predicate) (at : ℕ) → Parsed
    or_loop zero left at = stuck
    or_loop (suc fuel) left at = elim (str_eq (peek at) "or" || str_eq (peek at) "||") [
      | false ↦ ok (left, at)
      | true ↦ parse_and fuel (at + 1) >>= λ (right, next). or_loop fuel (or_pred left right) next
    ]

    pub parse_and : (fuel at : ℕ) → Parsed
    parse_and zero at = stuck
    parse_and (suc fuel) at = do (left, next) ← parse_not fuel at; and_loop fuel left next

    -- The loop of `parseAnd`.
    pub and_loop : (fuel : ℕ) (left : Predicate) (at : ℕ) → Parsed
    and_loop zero left at = stuck
    and_loop (suc fuel) left at = elim (str_eq (peek at) "and" || str_eq (peek at) "&&") [
      | true ↦ parse_not fuel (at + 1) >>= λ (right, next). and_loop fuel (and_pred left right) next
      | false ↦ elim (is_primary_start (peek at)) [
        | false ↦ ok (left, at)
        | true ↦ parse_not fuel at >>= λ (right, next). and_loop fuel (and_pred left right) next
      ]
    ]

    pub parse_not : (fuel at : ℕ) → Parsed
    parse_not zero at = stuck
    parse_not (suc fuel) at = elim (str_eq (peek at) "not" || str_eq (peek at) "!") [
      | true ↦ parse_not fuel (at + 1) >>= λ (inner, next). ok (not_pred inner, next)
      | false ↦ parse_primary fuel at
    ]

    pub parse_primary : (fuel at : ℕ) → Parsed
    parse_primary zero at = stuck
    parse_primary (suc fuel) at = elim (str_eq (peek at) "(") [
      | false ↦ parse_predicate at
      | true ↦ parse_or fuel (at + 1) >>= λ (inner, next).
          if str_eq (peek next) ")" then ok (inner, next + 1) else err unsupported
    ]

  -- Each token is read by six methods at most.
  abbrev pub enough : ℕ
  enough = 8 * length toks + 6

  -- The check that no token is left. The error's text reads `toks[p.at]`, a panic past the end.
  unfoldable pub parse_all : Outcome Predicate
  unfolding parse_or
  parse_all = do
    (pred, at) ← parse_or enough 0
    if at == length toks then ok pred else if ltb at (length toks) then err unsupported else panic

  -- `CompileInstructions` behind `tokenize`; no token means no instructions.
  unfoldable pub compile_instructions : Outcome (List Instruction)
  unfolding parse_all assemble_program
  compile_instructions = elim toks [ [] ↦ ok [] | _ ∷ _ ↦ parse_all >>= assemble_program ]
