-- ===== src/Checksum/Valid.antt =====
-- The checksum of pkg/layers/checksum.go in arithmetic: with it, the words add up to a multiple of
-- 65535.
use goscapy.Base.{ok, ℕ, ◌+◌, ◌-◌, ◌*◌, ◌^◌, ◌≤◌, ◌<◌, ◌≡◌, sym, ap, ◌∙◌, List, arith}
use goscapy.Checksum.{checksum}
use goscapy.Checksum.Chain.{words, checksum_of_words}

-- A checksum that a message has.
pub record Completes (b : List ℕ) : Type 0 where
  pub csum : ℕ
  pub computed : checksum b ≡ ok csum
  pub fits : csum ≤ 65535
  pub rounds : ℕ
  pub whole : words b + csum ≡ 65535 * rounds

pub checksum-Completes : (b : List ℕ) → words b < 2 ^ 32 → Completes b
checksum-Completes b h =
    let (r, e, w) = checksum_of_words b h in
    record {
      csum = 65535 - r;
      computed = e;
      fits = omega arith;
      rounds = w.carries + 1;
      whole = omega (arith, w.congruent, w.fits);
    }

only_full : (r k j : ℕ) → 65535 * k ≡ r + 65535 * j → r ≤ 65535 → 0 < r → r ≡ 65535
only_full r k j a b c = ground arith

-- Words that add up to a multiple of 65535, but not to 0, have the checksum 0.
pub checksum-zero :
    (b : List ℕ) (rounds : ℕ)
    → words b < 2 ^ 32
    → words b ≡ 65535 * rounds
    → 0 < words b
    → checksum b ≡ ok 0
checksum-zero b rounds h whole some_word =
    let (r, e, w) = checksum_of_words b h in
    let full : r ≡ 65535 =
      only_full r rounds w.carries (sym whole ∙ w.congruent) w.fits (w.positive some_word) in
    e ∙ ap (λ (k : ℕ). ok (65535 - k)) full
