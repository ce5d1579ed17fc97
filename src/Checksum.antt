-- ===== src/Checksum.antt =====
-- pkg/layers/checksum.go: the Internet checksum, over one stretch of bytes or over several.
pub mod Fold
pub mod Chain
pub mod Regions
pub mod Valid
mod Tests
use goscapy.Base.{
  ℕ, zero, suc, ◌+◌, ◌-◌, ◌*◌, ◌/◌, ◌%◌, ◌^◌, ◌==◌, List, [], ◌∷◌, ◌++◌, if◌then◌else◌, length,
  take, copy, replicate, byte, Outcome, ok, stuck, ◌>>=◌,
}

-- The loop over the 16-bit words; a last byte without a partner is the high byte of a word.
unfoldable pub sum_words : ℕ → List ℕ → ℕ
sum_words sum [] = sum
sum_words sum (b ∷ []) = (sum + b * 2 ^ 8) % 2 ^ 32
sum_words sum (hi ∷ lo ∷ bs) = sum_words ((sum + (hi * 2 ^ 8 + lo)) % 2 ^ 32) bs

-- `checksumSum`
unfoldable pub checksum_sum : List ℕ → ℕ
unfolding sum_words
checksum_sum b = sum_words 0 b

-- The loop that folds the carries.
unfoldable pub fold_loop : ℕ → ℕ → Outcome ℕ
fold_loop zero sum = stuck
fold_loop (suc fuel) sum =
    let more = fold_loop fuel ((sum % 2 ^ 16 + sum / 2 ^ 16) % 2 ^ 32) in
    if sum / 2 ^ 16 == 0 then ok sum else more

-- `foldChecksum`. A 32-bit sum has no carry left after two rounds.
unfoldable pub fold_checksum : ℕ → Outcome ℕ
unfolding fold_loop
fold_checksum sum = do folded ← fold_loop 3 sum; ok (65535 - folded % 2 ^ 16)

-- `Checksum`, and by other names `IPChecksum` and `ICMPChecksum`.
unfoldable pub checksum : List ℕ → Outcome ℕ
unfolding checksum_sum fold_checksum
checksum b = fold_checksum (checksum_sum b)

-- The pseudo-header of twelve bytes that `pseudoHeaderChecksum` builds; an address is cut or padded
-- to four bytes.
abbrev pub pseudo_header : List ℕ → List ℕ → ℕ → ℕ → List ℕ
pseudo_header src_ip dst_ip proto transport_len =
    copy (replicate 4 0) (take 4 src_ip)
    ++ copy (replicate 4 0) (take 4 dst_ip)
    ++ (0 ∷ proto ∷ byte (transport_len / 2 ^ 8) ∷ byte transport_len ∷ [])

-- `pseudoHeaderChecksum`
unfoldable pub pseudo_header_checksum : List ℕ → List ℕ → ℕ → List ℕ → Outcome ℕ
unfolding checksum
pseudo_header_checksum src_ip dst_ip proto bytes =
    checksum (pseudo_header src_ip dst_ip proto (length bytes % 2 ^ 16) ++ bytes)

-- `TCPChecksum`
unfoldable pub tcp_checksum : List ℕ → List ℕ → List ℕ → Outcome ℕ
unfolding pseudo_header_checksum
tcp_checksum src_ip dst_ip segment = pseudo_header_checksum src_ip dst_ip 6 segment

-- `UDPChecksum`
unfoldable pub udp_checksum : List ℕ → List ℕ → List ℕ → Outcome ℕ
unfolding pseudo_header_checksum
udp_checksum src_ip dst_ip datagram = pseudo_header_checksum src_ip dst_ip 17 datagram

-- The loops over the regions.
unfoldable pub regions_length : List (List ℕ) → ℕ
regions_length [] = 0
regions_length (r ∷ rs) = length r + regions_length rs

unfoldable pub add_regions : ℕ → List (List ℕ) → ℕ
unfolding checksum_sum
add_regions sum [] = sum
add_regions sum (r ∷ rs) = add_regions ((sum + checksum_sum r) % 2 ^ 32) rs

-- `checksumIPv4Pseudo`
unfoldable pub checksum_ipv4_pseudo : List ℕ → List ℕ → ℕ → List (List ℕ) → Outcome ℕ
unfolding regions_length add_regions fold_checksum
checksum_ipv4_pseudo src_ip dst_ip proto regions =
    let addresses = (checksum_sum src_ip + checksum_sum dst_ip) % 2 ^ 32 in
    let header = ((addresses + proto) % 2 ^ 32 + regions_length regions % 2 ^ 32) % 2 ^ 32 in
    fold_checksum (add_regions header regions)

-- `checksumIPv6Pseudo`
unfoldable pub checksum_ipv6_pseudo : List ℕ → List ℕ → ℕ → List (List ℕ) → Outcome ℕ
unfolding regions_length add_regions fold_checksum
checksum_ipv6_pseudo src_ip dst_ip next_header regions =
    let len = regions_length regions in
    let addresses = (checksum_sum src_ip + checksum_sum dst_ip) % 2 ^ 32 in
    let with_length = (addresses + ((len / 2 ^ 16) % 2 ^ 32 + len % 2 ^ 16) % 2 ^ 32) % 2 ^ 32 in
    fold_checksum (add_regions ((with_length + next_header) % 2 ^ 32) regions)
