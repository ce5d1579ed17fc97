-- ===== src/Protocols/Hooks/UdpChecksum.antt =====
-- udpBuildHook of pkg/layers/udp.go as the receiver of the datagram checks it.
use goscapy.Base.{
  ◌==◌, if◌then◌else◌, ==_iff, Bool-cases, length, get_elem?, set, All, length-append, IsByte,
  put_be, ok, ℕ, zero, suc, ◌+◌, ◌-◌, ◌*◌, ◌%◌, ◌^◌, ◌≤◌, ◌<◌, ◌≡◌, refl, ap, ap₂, ◌∙◌, inl, inr,
  List, [], ◌∷◌, ◌++◌, append-nil, arith,
}
use goscapy.Fields.Addresses.{Net}
use goscapy.Layer.{Layer}
use goscapy.Packet.{Packet}
use goscapy.Checksum.{checksum, checksum_ipv4_pseudo, pseudo_header, pseudo_header_checksum}
use goscapy.Checksum.Chain.{words, words-append, words_bound}
use goscapy.Checksum.Regions.{
  joined, words-pseudo_header, checksum_ipv4_pseudo-pseudo_header_checksum,
}
use goscapy.Checksum.Valid.{checksum-Completes, checksum-zero}
use goscapy.Protocols.Hooks.{with_layer, search_at, find_ip_addresses_any}
use goscapy.Protocols.Hooks.Udp.{udp_header}

get_elem?-set :
    {A : Type 0} (xs : List A) (i j : ℕ) (x : A) → j < i → get_elem? (set xs i x) j ≡ get_elem? xs j
get_elem?-set [] i j x h = refl
get_elem?-set (y ∷ ys) zero j x h = absurd (omega arith)
get_elem?-set (y ∷ ys) (suc i) zero x h = refl
get_elem?-set (y ∷ ys) (suc i) (suc j) x h = get_elem?-set ys i j x (omega arith)

-- The search looks below the layer only.
pub find_below :
    (net : Net) (p : Packet) (i j : ℕ) (l : Layer)
    → j ≤ i
    → find_ip_addresses_any net (with_layer p i l) j ≡ find_ip_addresses_any net p j
unfolding find_ip_addresses_any
find_below net p i zero l h = refl
find_below net p i (suc j) l h =
    ap₂ (search_at net) (get_elem?-set p.layers i j l (omega arith))
      (find_below net p i j l (omega arith))

words-udp_header :
    (sport dport len csum : ℕ)
    → csum < 2 ^ 16
    → words (udp_header sport dport len csum) ≡ words (udp_header sport dport len 0) + csum
unfolding words put_be
words-udp_header sport dport len csum h = omega arith

length-udp_header : (sport dport len csum : ℕ) → length (udp_header sport dport len csum) ≡ 8
unfolding put_be
length-udp_header sport dport len csum = refl

-- The words that the receiver adds up, with the checksum apart.
words-datagram :
    (src dst upper : List ℕ) (sport dport len csum : ℕ)
    → length src ≡ 4
    → length dst ≡ 4
    → 8 + length upper < 2 ^ 16
    → csum < 2 ^ 16
    → words (
        pseudo_header src dst 17 (8 + length upper)
        ++ joined (udp_header sport dport len csum ∷ upper ∷ []))
      ≡ words src
        + words dst
        + (17 + (8 + length upper))
        + (words (udp_header sport dport len 0) + csum + words upper)
unfolding joined
words-datagram src dst upper sport dport len csum hs hd short small =
    let header = udp_header sport dport len csum in
    omega (
      arith,
      words-pseudo_header src dst (header ++ (upper ++ [])) 17 (8 + length upper) hs hd short,
      words-append header (upper ++ []) (omega (arith, length-udp_header sport dport len csum)),
      words-udp_header sport dport len csum small,
      ap words (append-nil upper),
    )

-- The receiver's computation is one checksum over the pseudo-header and the datagram.
received :
    (src dst upper : List ℕ) (sport dport len csum : ℕ)
    → length src ≡ 4
    → length dst ≡ 4
    → 8 + length upper < 2 ^ 16
    → checksum_ipv4_pseudo src dst 17 (udp_header sport dport len csum ∷ upper ∷ [])
      ≡ checksum (
          pseudo_header src dst 17 (8 + length upper)
          ++ joined (udp_header sport dport len csum ∷ upper ∷ []))
unfolding pseudo_header_checksum joined
received src dst upper sport dport len csum hs hd short =
    let header = udp_header sport dport len csum in
    let eight = length-udp_header sport dport len csum in
    let size : length (header ++ (upper ++ [])) ≡ 8 + length upper =
      omega (arith, length-append header (upper ++ []), eight, ap length (append-nil upper)) in
    let kept : (8 + length upper) % 2 ^ 16 ≡ 8 + length upper = omega arith in
    checksum_ipv4_pseudo-pseudo_header_checksum src dst 17 (header ∷ upper ∷ []) hs hd
      (omega (arith, eight), tt) (omega (arith, size))
    ∙ rw (size, kept) refl

udp_header-IsByte : (sport dport len : ℕ) → All IsByte (udp_header sport dport len 0)
unfolding put_be
udp_header-IsByte sport dport len = omega arith

-- A checksum as `udpBuildHook` writes it, for which the receiver's is 0.
unfoldable pub Sent : (src dst upper : List ℕ) (sport dport : ℕ) → Type 0
Sent src dst upper sport dport =
    (sum : ℕ) × (checksum_ipv4_pseudo src dst 17
        (udp_header sport dport (8 + length upper) 0 ∷ upper ∷ [])
      ≡ ok sum)
    × ((if sum == 0 then 0xffff else sum) < 2 ^ 16)
    × (0 < (if sum == 0 then 0xffff else sum))
    × (checksum_ipv4_pseudo src dst 17 (
          udp_header sport dport (8 + length upper) (if sum == 0 then 0xffff else sum) ∷ upper ∷ [])
        ≡ ok 0)

-- What is written for the sum of the words and a multiple of 65535.
written_word :
    (total sum rounds : ℕ)
    → total + sum ≡ 65535 * rounds
    → sum ≤ 65535
    → 0 < total
    → (k : ℕ) × (total + (if sum == 0 then 0xffff else sum) ≡ 65535 * k)
      × ((if sum == 0 then 0xffff else sum) < 2 ^ 16)
      × (0 < (if sum == 0 then 0xffff else sum))
written_word total sum rounds whole fits some_word = elim (Bool-cases (sum == 0)) [
  | inl zero_sum ↦
      let none_left : sum ≡ 0 = (==_iff _ _).0 zero_sum in
      rw zero_sum (rounds + 1, omega arith, omega arith, omega arith)
  | inr used ↦
      let some_left : 0 < sum = ground arith in rw used (rounds, whole, omega arith, some_left)
]

pub sent :
    (src dst upper : List ℕ) (sport dport : ℕ)
    → length src ≡ 4
    → length dst ≡ 4
    → All IsByte src
    → All IsByte dst
    → All IsByte upper
    → 8 + length upper < 2 ^ 16
    → Sent src dst upper sport dport
unfolding Sent
sent src dst upper sport dport hs hd bytes_src bytes_dst bytes_upper short =
    let len = 8 + length upper in
    let message = λ (csum : ℕ).
      pseudo_header src dst 17 len ++ joined (udp_header sport dport len csum ∷ upper ∷ []) in
    let total = words-datagram src dst upper sport dport len 0 hs hd short (omega arith) in
    let header_bound =
      words_bound (udp_header sport dport len 0) (udp_header-IsByte sport dport len) in
    let bound : words (message 0) < 2 ^ 32 - 65536 = omega (
      arith,
      total,
      words_bound src bytes_src,
      words_bound dst bytes_dst,
      words_bound upper bytes_upper,
      header_bound,
      length-udp_header sport dport len 0,
    ) in
    let some_word : 0 < words (message 0) = omega (arith, total) in
    let c = checksum-Completes (message 0) (omega arith) in
    let (k, whole, small, positive) =
      written_word (words (message 0)) c.csum c.rounds c.whole c.fits some_word in
    let csum = if c.csum == 0 then 0xffff else c.csum in
    let filled : words (message csum) ≡ words (message 0) + csum =
      omega (arith, total, words-datagram src dst upper sport dport len csum hs hd short small) in
    (
      c.csum,
      received src dst upper sport dport len 0 hs hd short ∙ c.computed,
      small,
      positive,
      received src dst upper sport dport len csum hs hd short
          ∙ checksum-zero (message csum) k (omega arith) (filled ∙ whole) (omega arith),
    )
