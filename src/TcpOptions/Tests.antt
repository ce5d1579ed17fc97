-- ===== src/TcpOptions/Tests.antt =====
-- Runs of the TCP option functions, and their theorems at concrete inputs.
use goscapy.Base.{◌+◌, ◌%◌, ◌≤◌, ◌≡◌, refl, List, [], ◌∷◌, ok, arith, All, length, put_be}
use goscapy.Values.{TcpOption}
use goscapy.TcpOptions.{nop_val, mss_val, parse_tcp_options, serialize_tcp_options, unpadded}
use goscapy.TcpOptions.RoundTrip.{
  IsWf, is_nop, is_long, parse-serialize, length-serialize, parse_tcp_options-total,
}

abbrev mss : TcpOption
mss = record { kind = 2; len = 4; body = 5 ∷ 180 ∷ [] }

mss_bytes : mss_val 1460 ≡ mss
unfolding mss_val put_be
mss_bytes = refl

serialized : serialize_tcp_options (mss ∷ nop_val ∷ []) ≡ 2 ∷ 4 ∷ 5 ∷ 180 ∷ 1 ∷ 0 ∷ 0 ∷ 0 ∷ []
unfolding serialize_tcp_options
serialized = refl

-- A length byte that points behind the input ends the list.
parsed_short : parse_tcp_options (1 ∷ 2 ∷ 9 ∷ 5 ∷ []) ≡ ok (nop_val ∷ [])
unfolding parse_tcp_options
parsed_short = refl

parse-serialize_example :
    parse_tcp_options (serialize_tcp_options (mss ∷ nop_val ∷ [])) ≡ ok (mss ∷ nop_val ∷ [])
parse-serialize_example =
    parse-serialize (mss ∷ nop_val ∷ []) (is_long (omega arith) refl, (is_nop refl, tt))

length-serialize_example :
    (length (serialize_tcp_options (mss ∷ nop_val ∷ [])) % 4 ≡ 0)
    × (length (unpadded (mss ∷ nop_val ∷ [])) ≤ length (serialize_tcp_options (mss ∷ nop_val ∷ [])))
    × (length (serialize_tcp_options (mss ∷ nop_val ∷ []))
        ≤ length (unpadded (mss ∷ nop_val ∷ [])) + 3)
length-serialize_example = length-serialize (mss ∷ nop_val ∷ [])

parse_tcp_options-total_example :
    (opts : List TcpOption) × (parse_tcp_options (1 ∷ 2 ∷ 9 ∷ 5 ∷ []) ≡ ok opts) × All IsWf opts
parse_tcp_options-total_example = parse_tcp_options-total (1 ∷ 2 ∷ 9 ∷ 5 ∷ [])
