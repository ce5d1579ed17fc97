-- ===== src/Checksum/Chain.antt =====
-- The sum of words over stretches of bytes, and the check of a message that carries its checksum.
use goscapy.Base.{
  ℕ, ◌+◌, ◌-◌, ◌*◌, ◌%◌, ◌^◌, ◌≤◌, ◌<◌, ◌≡◌, ap, ◌∙◌, List, [], ◌∷◌, ◌++◌, length, All, IsByte,
  put_be, ok, arith,
}
use goscapy.Checksum.{sum_words, checksum_sum, fold_checksum, checksum}
use goscapy.Checksum.Fold.{IsFolded, fold_loop-Folds}

-- The sum of the 16-bit words, with no limit on its size.
unfoldable pub words : List ℕ → ℕ
words [] = 0
words (b ∷ []) = b * 2 ^ 8
words (hi ∷ lo ∷ bs) = hi * 2 ^ 8 + lo + words bs

pub sum_words-words :
    (sum : ℕ) (b : List ℕ) → sum < 2 ^ 32 → sum_words sum b ≡ (sum + words b) % 2 ^ 32
unfolding sum_words words
sum_words-words sum [] h = omega arith
sum_words-words sum (b ∷ []) h = omega arith
sum_words-words sum (hi ∷ lo ∷ bs) h =
    omega (arith, sum_words-words ((sum + (hi * 2 ^ 8 + lo)) % 2 ^ 32) bs (omega arith))

-- Only the last of the stretches may have an odd length.
pub words-append : (a b : List ℕ) → length a % 2 ≡ 0 → words (a ++ b) ≡ words a + words b
unfolding words
words-append [] b h = omega arith
words-append (x ∷ []) b h = absurd (omega arith)
words-append (hi ∷ lo ∷ a) b h = omega (arith, words-append a b (omega arith))

pub words_bound : (b : List ℕ) → All IsByte b → words b * 2 ≤ 65535 * (length b + 1)
unfolding words
words_bound [] h = omega arith
words_bound (x ∷ []) (hx, h) = omega arith
words_bound (hi ∷ lo ∷ bs) (hh, (hl, h)) = omega (arith, words_bound bs h)

-- A message, with a word for its checksum behind `pre`.
abbrev pub with_word : List ℕ → List ℕ → List ℕ → List ℕ
with_word pre word post = pre ++ (word ++ post)

words-with_word :
    (pre post : List ℕ) (c : ℕ)
    → length pre % 2 ≡ 0
    → c < 2 ^ 16
    → words (with_word pre (put_be 2 c) post) ≡ words pre + c + words post
unfolding words put_be
words-with_word pre post c h lt = omega (arith, words-append pre (put_be 2 c ++ post) h)

pub checksum_of_words :
    (b : List ℕ) → words b < 2 ^ 32 → (r : ℕ) × (checksum b ≡ ok (65535 - r)) × IsFolded (words b) r
unfolding checksum checksum_sum fold_checksum
checksum_of_words b lt =
    let sum : sum_words 0 b ≡ words b = omega (arith, sum_words-words 0 b (omega arith)) in
    let (r, e, w) = fold_loop-Folds (words b) lt in
    let small : r % 2 ^ 16 ≡ r = omega (arith, w.fits) in (r, rw (sum, e, small), w)

-- The checksum of a message of at most 65535 bytes, computed with zeros in its (aligned) checksum
-- field and then put there, makes the checksum of the whole message zero. Neither computation runs
-- out of fuel.
pub checksum-with_word :
    (pre post : List ℕ)
    → length pre % 2 ≡ 0
    → All IsByte pre
    → All IsByte post
    → length pre + 2 + length post ≤ 65535
    → (c : ℕ) × (c < 2 ^ 16)
      × (checksum (with_word pre (0 ∷ 0 ∷ []) post) ≡ ok c)
      × (checksum (with_word pre (put_be 2 c) post) ≡ ok 0)
unfolding put_be
checksum-with_word pre post even hp hq short =
    let zeroed : words (with_word pre (0 ∷ 0 ∷ []) post) ≡ words pre + 0 + words post =
      words-with_word pre post 0 even (omega arith) in
    let bound_pre : words pre * 2 ≤ 65535 * (length pre + 1) = words_bound pre hp in
    let bound_post : words post * 2 ≤ 65535 * (length post + 1) = words_bound post hq in
    let (r, e, w) = checksum_of_words (with_word pre (0 ∷ 0 ∷ []) post) (omega arith) in
    let c : ℕ = 65535 - r in
    let filled : words (with_word pre (put_be 2 c) post) ≡ words pre + c + words post =
      words-with_word pre post c even (omega arith) in
    let (s, e', w') = checksum_of_words (with_word pre (put_be 2 c) post) (omega arith) in
    let all_ones : s ≡ 65535 =
      full (words pre + words post) r s w.carries w'.carries (omega (arith, w.congruent)) w.fits
        (omega (arith, w'.congruent)) w'.fits (λ h. w'.positive (omega arith))
        (λ h. w.positive (omega arith)) in
    (c, omega arith, e, e' ∙ ap (λ (k : ℕ). ok (65535 - k)) all_ones)
  where
    full :
        (n r s k j : ℕ)
        → n ≡ r + 65535 * k
        → r ≤ 65535
        → n + (65535 - r) ≡ s + 65535 * j
        → s ≤ 65535
        → (0 < n + (65535 - r) → 0 < s)
        → (0 < n → 0 < r)
        → s ≡ 65535
    full n r s k j a b c d p q = ground arith
