-- ===== src/TcpOptions.antt =====
-- pkg/layers/tcp_options.go: TCP options in kind, length, value form.
pub mod RoundTrip
mod Tests
use goscapy.Base.{
  ℕ, zero, suc, ◌+◌, ◌-◌, ◌*◌, ◌/◌, ◌%◌, ◌≤◌, ◌<◌, String, List, [], ◌∷◌, ◌++◌, some, none, ltb,
  ◌==◌, ◌||◌, if◌then◌else◌, length, take, drop, replicate, Outcome, ok, err, wrong_type, stuck,
  put_be, ◌>>=◌,
}
use goscapy.Values.{TcpOption, Value, nil, options}
use goscapy.Fields.{Field, described, copy_into}

abbrev pub eol : ℕ
eol = 0

abbrev pub nop : ℕ
nop = 1

-- `TCPOptMSSVal`, `TCPOptWScaleVal`, `TCPOptSACKPermVal`, `TCPOptTimestampVal`, `TCPOptNOPVal`
pub mss_val : ℕ → TcpOption
mss_val mss = record { kind = 2; len = 4; body = put_be 2 mss }

pub wscale_val : ℕ → TcpOption
wscale_val shift = record { kind = 3; len = 3; body = shift ∷ [] }

pub sack_perm_val : TcpOption
sack_perm_val = record { kind = 4; len = 2; body = [] }

pub timestamp_val : ℕ → ℕ → TcpOption
timestamp_val ts_val ts_ecr = record {
  kind = 8;
  len = 10;
  body = put_be 4 ts_val ++ put_be 4 ts_ecr;
}

abbrev pub nop_val : TcpOption
nop_val = record { kind = 1; len = 1; body = [] }

-- The loop of `ParseTCPOptions`; the list is what stands from index `i` on.
parse_loop : ℕ → List ℕ → List TcpOption → Outcome (List TcpOption)
parse_loop fuel [] opts = ok opts
parse_loop zero (kind ∷ tail) opts = stuck
parse_loop (suc fuel) (kind ∷ []) opts =
    let more = parse_loop fuel [] (opts ++ (nop_val ∷ [])) in
    if kind == eol then ok opts else if kind == nop then more else ok opts
parse_loop (suc fuel) (kind ∷ len ∷ body) opts =
    let after_nop = parse_loop fuel (len ∷ body) (opts ++ (nop_val ∷ [])) in
    let opt : TcpOption = record { kind = kind; len = len; body = take (len - 2) body } in
    let more = parse_loop fuel (drop (len - 2) body) (opts ++ (opt ∷ [])) in
    if kind == eol
    then ok opts
    else if kind == nop
    then after_nop
    else if ltb len 2 || ltb (2 + length body) len
    then ok opts
    else more

-- `ParseTCPOptions`. A round takes a byte at least, so the input's length is enough fuel.
unfoldable pub parse_tcp_options : List ℕ → Outcome (List TcpOption)
unfolding parse_loop
parse_tcp_options bytes = parse_loop (length bytes) bytes []

-- The bytes of one option in the loop of `SerializeTCPOptions`.
abbrev pub option_bytes : TcpOption → List ℕ
option_bytes o =
    if o.kind == nop
    then nop ∷ []
    else if o.kind == eol
    then eol ∷ []
    else o.kind ∷ o.len ∷ (if ltb 2 o.len then o.body else [])

unfoldable pub unpadded : List TcpOption → List ℕ
unpadded [] = []
unpadded (o ∷ opts) = option_bytes o ++ unpadded opts

-- The padding to a multiple of four bytes.
abbrev pub padding : ℕ → List ℕ
padding n = if n % 4 == 0 then [] else replicate (4 - n % 4) eol

-- `SerializeTCPOptions`; no options give a nil slice.
unfoldable pub serialize_tcp_options : List TcpOption → List ℕ
unfolding unpadded
serialize_tcp_options [] = []
serialize_tcp_options (o ∷ opts) = let buf = unpadded (o ∷ opts) in buf ++ padding (length buf)

abbrev pub expect_options : Value → Outcome (List ℕ)
expect_options nil = ok []
expect_options (options opts) = ok (serialize_tcp_options opts)
expect_options _ = err wrong_type

-- `tcpOptionsField`: `Unpack` leaves the bytes to the hook that runs after the fixed fields.
unfoldable pub tcp_options_field : Field
tcp_options_field = record {
  desc = described "options" 0 (options []);
  pack = expect_options;
  unpack = λ b. ok (options [], 0);
  pack_into = some (λ buf val. do b ← expect_options val; copy_into buf b (length b));
  active = none;
}
