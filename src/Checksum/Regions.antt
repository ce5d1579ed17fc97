-- ===== src/Checksum/Regions.antt =====
-- The checksum over several stretches, without building the pseudo-header, against the one that
-- builds it.
use goscapy.Base.{
  ℕ, ◌+◌, ◌/◌, ◌%◌, ◌^◌, ◌<◌, ◌≡◌, refl, ap, List, [], ◌∷◌, ◌++◌, length, take, copy, replicate,
  byte, arith, length-append, append-nil,
}
use goscapy.Checksum.{
  sum_words, checksum_sum, fold_checksum, checksum, pseudo_header, pseudo_header_checksum,
  regions_length, add_regions, checksum_ipv4_pseudo,
}
use goscapy.Checksum.Chain.{words, words-append, sum_words-words}

-- The stretches put together; all but the last have an even length.
unfoldable pub joined : List (List ℕ) → List ℕ
joined [] = []
joined (r ∷ rs) = r ++ joined rs

abbrev pub Aligned : List (List ℕ) → Type 0
Aligned [] = Unit
Aligned (r ∷ []) = Unit
Aligned (r ∷ q ∷ rs) = (length r % 2 ≡ 0) × Aligned (q ∷ rs)

regions_length-joined : (rs : List (List ℕ)) → regions_length rs ≡ length (joined rs)
unfolding regions_length joined
regions_length-joined [] = refl
regions_length-joined (r ∷ rs) =
    omega (arith, regions_length-joined rs, length-append r (joined rs))

add_regions-words :
    (sum : ℕ) (rs : List (List ℕ))
    → sum < 2 ^ 32
    → Aligned rs
    → add_regions sum rs ≡ (sum + words (joined rs)) % 2 ^ 32
unfolding add_regions checksum_sum joined words
add_regions-words sum [] h a = omega arith
add_regions-words sum (r ∷ []) h a =
    rw (append-nil r) (omega (arith, sum_words-words 0 r (omega arith)))
add_regions-words sum (r ∷ q ∷ rs) h (even, a) = omega (
  arith,
  sum_words-words 0 r (omega arith),
  words-append r (joined (q ∷ rs)) even,
  add_regions-words ((sum + sum_words 0 r) % 2 ^ 32) (q ∷ rs) (omega arith) a,
)

four_bytes : (a : List ℕ) → length a ≡ 4 → copy (replicate 4 0) (take 4 a) ≡ a
four_bytes [] h = absurd (omega arith)
four_bytes (a ∷ []) h = absurd (omega arith)
four_bytes (a ∷ b ∷ []) h = absurd (omega arith)
four_bytes (a ∷ b ∷ c ∷ []) h = absurd (omega arith)
four_bytes (a ∷ b ∷ c ∷ d ∷ []) h = refl
four_bytes (a ∷ b ∷ c ∷ d ∷ e ∷ more) h = absurd (omega arith)

words_tail :
    (proto len : ℕ)
    → len < 2 ^ 16
    → words (0 ∷ proto ∷ byte (len / 2 ^ 8) ∷ byte len ∷ []) ≡ proto + len
unfolding words
words_tail proto len h = omega arith

pub words-pseudo_header :
    (src dst bytes : List ℕ) (proto len : ℕ)
    → length src ≡ 4
    → length dst ≡ 4
    → len < 2 ^ 16
    → words (pseudo_header src dst proto len ++ bytes)
      ≡ words src + words dst + (proto + len) + words bytes
words-pseudo_header src dst bytes proto len hs hd h =
    let tail : List ℕ = 0 ∷ proto ∷ byte (len / 2 ^ 8) ∷ byte len ∷ [] in
    let four : length tail % 2 ≡ 0 = omega arith in
    let inner : length (src ++ dst) % 2 ≡ 0 = omega (arith, length-append src dst) in
    let outer : length ((src ++ dst) ++ tail) % 2 ≡ 0 =
      omega (arith, length-append (src ++ dst) tail, length-append src dst) in
    rw (four_bytes src hs, four_bytes dst hd)
      (omega (
        arith,
        words-append ((src ++ dst) ++ tail) bytes outer,
        words-append (src ++ dst) tail inner,
        words-append src dst (omega arith),
        words_tail proto len h,
      ))

-- For addresses of four bytes and stretches of less than 65536 bytes in all, of which only the last
-- may have an odd length: the checksum that adds up the stretches is that of the pseudo-header with
-- the stretches behind it.
pub checksum_ipv4_pseudo-pseudo_header_checksum :
    (src dst : List ℕ) (proto : ℕ) (regions : List (List ℕ))
    → length src ≡ 4
    → length dst ≡ 4
    → Aligned regions
    → length (joined regions) < 2 ^ 16
    → checksum_ipv4_pseudo src dst proto regions
      ≡ pseudo_header_checksum src dst proto (joined regions)
unfolding checksum_ipv4_pseudo pseudo_header_checksum checksum checksum_sum
checksum_ipv4_pseudo-pseudo_header_checksum src dst proto regions hs hd a short =
    let n : ℕ = length (joined regions) in
    let len : regions_length regions ≡ n = regions_length-joined regions in
    let small : n % 2 ^ 16 ≡ n = omega arith in
    let header : ℕ =
      (((sum_words 0 src + sum_words 0 dst) % 2 ^ 32 + proto) % 2 ^ 32 + n % 2 ^ 32) % 2 ^ 32 in
    let sums : add_regions header regions
        ≡ sum_words 0 (pseudo_header src dst proto n ++ joined regions) =
      omega (
        arith,
        add_regions-words header regions (omega arith) a,
        sum_words-words 0 src (omega arith),
        sum_words-words 0 dst (omega arith),
        sum_words-words 0 (pseudo_header src dst proto n ++ joined regions) (omega arith),
        words-pseudo_header src dst (joined regions) proto n hs hd short,
      ) in
    rw (len, small) (ap fold_checksum sums)
