-- ===== src/Checksum/Fold.antt =====
-- The folding of carries, against arithmetic modulo 65535.
use goscapy.Base.{
  ℕ, suc, ◌+◌, ◌*◌, ◌/◌, ◌%◌, ◌^◌, ◌≤◌, ◌<◌, ◌≡◌, ◌==◌, refl, inl, inr, true, false, ok, arith,
  Bool-cases,
}
use goscapy.Checksum.{fold_loop}

-- What the folding of a sum gives: it is congruent to the sum modulo 65535, fits 16 bits, and is zero
-- for a zero sum only.
pub record IsFolded (sum folded : ℕ) : Type 0 where
  pub carries : ℕ
  pub congruent : sum ≡ folded + 65535 * carries
  pub fits : folded ≤ 65535
  pub positive : 0 < sum → 0 < folded

-- One round.
abbrev round : ℕ → ℕ
round s = (s % 2 ^ 16 + s / 2 ^ 16) % 2 ^ 32

round-IsFolded : (s r : ℕ) → s < 2 ^ 32 → IsFolded (round s) r → IsFolded s r
round-IsFolded s r lt f = record {
  carries = f.carries + s / 2 ^ 16;
  congruent = omega (arith, f.congruent);
  fits = f.fits;
  positive = λ h. f.positive (omega arith);
}

stop : (s : ℕ) → (s / 2 ^ 16 == 0) ≡ true → IsFolded s s
stop s h = record { carries = 0; congruent = omega arith; fits = ground arith; positive = λ p. p }

abbrev Folds : ℕ → ℕ → Type 0
Folds fuel s = (r : ℕ) × (fold_loop fuel s ≡ ok r) × IsFolded s r

-- A round more, on a sum with a bound that the round brings down.
fold_step :
    (fuel s : ℕ)
    → s < 2 ^ 32
    → ((s / 2 ^ 16 == 0) ≡ false → Folds fuel (round s))
    → Folds (suc fuel) s
unfolding fold_loop
fold_step fuel s lt next = elim (Bool-cases (s / 2 ^ 16 == 0)) [
  | inl t ↦ rw t (s, refl, stop s t)
  | inr f ↦ let (r, e, w) = next f in rw (f, e) (r, refl, round-IsFolded s r lt w)
]

pub fold_loop-Folds : (s : ℕ) → s < 2 ^ 32 → Folds 3 s
fold_loop-Folds s lt = fold_step 2 s lt (λ h.
    fold_step 1 (round s) (omega arith)
      (λ h'. fold_step 0 (round (round s)) (omega arith) (λ h''. absurd (ground arith))))
