-- ===== src/Tlv/Tests.antt =====
-- Runs of the TLV functions, and their theorems at concrete inputs.
use goscapy.Base.{ℕ, ◌≡◌, ◌≢◌, refl, List, [], ◌∷◌, ◌++◌, ok, err, stuck, truncated, arith}
use goscapy.Tlv.{TlvOption, parse_loop, parse_tlv, build_tlv}
use goscapy.Tlv.RoundTrip.{
  at_zero, Parsed, parse_tlv-build_tlv, parse_tlv-Parsed, parse_tlv-ne-stuck,
}

abbrev mtu : TlvOption
mtu = record { typ = 5; len = 2; value = 5 ∷ 220 ∷ [] }

abbrev empty : TlvOption
empty = record { typ = 7; len = 0; value = [] }

abbrev wire : List ℕ
wire = 5 ∷ 2 ∷ 5 ∷ 220 ∷ 7 ∷ 0 ∷ 0 ∷ 9 ∷ []

parse_wire : parse_tlv wire ≡ ok (mtu ∷ empty ∷ [])
unfolding parse_tlv parse_loop
parse_wire = refl

parse_short : parse_tlv (5 ∷ 2 ∷ 1 ∷ []) ≡ err truncated
unfolding parse_tlv parse_loop
parse_short = refl

parse_tlv-build_tlv_example :
    parse_tlv (build_tlv (mtu ∷ empty ∷ []) ++ (0 ∷ 9 ∷ [])) ≡ ok (mtu ∷ empty ∷ [])
parse_tlv-build_tlv_example =
    parse_tlv-build_tlv (mtu ∷ empty ∷ []) (ground arith) (at_zero (9 ∷ []))

parse_tlv-Parsed_example : Parsed wire (mtu ∷ empty ∷ [])
parse_tlv-Parsed_example = parse_tlv-Parsed wire (mtu ∷ empty ∷ []) parse_wire

parse_tlv-ne-stuck_example : parse_tlv (5 ∷ 2 ∷ 1 ∷ []) ≢ stuck
parse_tlv-ne-stuck_example = parse_tlv-ne-stuck (5 ∷ 2 ∷ 1 ∷ [])
