-- ===== src/Checksum/Tests.antt =====
-- Checksums of concrete messages, and their theorems at concrete inputs.
use goscapy.Base.{ℕ, ◌<◌, ◌≡◌, ◌^◌, refl, List, [], ◌∷◌, put_be, ok, arith}
use goscapy.Checksum.{checksum, pseudo_header_checksum, checksum_ipv4_pseudo}
use goscapy.Checksum.Chain.{with_word, checksum-with_word}
use goscapy.Checksum.Regions.{joined, checksum_ipv4_pseudo-pseudo_header_checksum}

some_bytes : checksum (0x45 ∷ 0x00 ∷ 0xFF ∷ []) ≡ ok 0xBBFE
unfolding checksum
some_bytes = refl

carries_twice : checksum (0xFF ∷ 0xFF ∷ 0x00 ∷ 0x01 ∷ []) ≡ ok 0xFFFE
unfolding checksum
carries_twice = refl

checksum-with_word_example :
    (c : ℕ) × (c < 2 ^ 16)
    × (checksum (with_word (0x45 ∷ 0x00 ∷ []) (0 ∷ 0 ∷ []) (0xFF ∷ [])) ≡ ok c)
    × (checksum (with_word (0x45 ∷ 0x00 ∷ []) (put_be 2 c) (0xFF ∷ [])) ≡ ok 0)
checksum-with_word_example =
    checksum-with_word (0x45 ∷ 0x00 ∷ []) (0xFF ∷ []) (omega arith) (omega arith, (omega arith, tt))
      (omega arith, tt) (omega arith)

abbrev regions : List (List ℕ)
regions = (1 ∷ 2 ∷ []) ∷ (3 ∷ []) ∷ []

checksum_ipv4_pseudo-pseudo_header_checksum_example :
    checksum_ipv4_pseudo (10 ∷ 0 ∷ 0 ∷ 1 ∷ []) (10 ∷ 0 ∷ 0 ∷ 2 ∷ []) 6 regions
    ≡ pseudo_header_checksum (10 ∷ 0 ∷ 0 ∷ 1 ∷ []) (10 ∷ 0 ∷ 0 ∷ 2 ∷ []) 6 (joined regions)
unfolding joined
checksum_ipv4_pseudo-pseudo_header_checksum_example =
    checksum_ipv4_pseudo-pseudo_header_checksum (10 ∷ 0 ∷ 0 ∷ 1 ∷ []) (10 ∷ 0 ∷ 0 ∷ 2 ∷ []) 6
      regions (omega arith) (omega arith) (omega arith, tt) (omega arith)
