-- ===== src/Base/Masks.antt =====
-- Masks on a byte as arithmetic, by a table of its values.
use Prim.Native.Nat.{ℕ, zero, suc, ◌+◌, ◌%◌, ◌<◌, bit_and, bit_or}
use mathlib.Core.Path.{◌≡◌, refl}
use mathlib.Core.Bool.{Bool, true, false, ◌&&◌}
use native.Mathlib.Omega.{arith}
use goscapy.Base.Tests.{◌==◌, ==_iff, ltb}

holds_below : (ℕ → Bool) → ℕ → Bool
holds_below test zero = true
holds_below test (suc n) = test n && holds_below test n

holds_below→holds :
    (test : ℕ → Bool) (n : ℕ) → holds_below test n ≡ true → (i : ℕ) → i < n → test i ≡ true
unfolding holds_below
holds_below→holds test zero table i h = absurd (omega arith)
holds_below→holds test (suc n) table i h = ground (arith, holds_below→holds test n (ground arith) i)

pub bit_or-tag : (k : ℕ) → k < 128 → bit_or 0x80 k ≡ 128 + k
unfolding holds_below
bit_or-tag k h = (==_iff _ _).0 (holds_below→holds (λ i. bit_or 0x80 i == 128 + i) 128 refl k h)

pub bit_and-low_bits : (b : ℕ) → b < 256 → bit_and b 0x7f ≡ b % 128
unfolding holds_below
bit_and-low_bits b h =
    (==_iff _ _).0 (holds_below→holds (λ i. bit_and i 0x7f == i % 128) 256 refl b h)

abbrev agree : Bool → Bool → Bool
agree true b = b
agree false true = false
agree false false = true

same_test : (a b : Bool) → agree a b ≡ true → a ≡ b
same_test true true h = refl
same_test true false h = cc
same_test false true h = cc
same_test false false h = refl

-- The highest bit of a byte is clear.
pub bit_and-high_bit : (b : ℕ) → b < 256 → (bit_and b 0x80 == 0) ≡ ltb b 128
unfolding holds_below
bit_and-high_bit b h =
    same_test (bit_and b 0x80 == 0) (ltb b 128)
      (holds_below→holds (λ i. agree (bit_and i 0x80 == 0) (ltb i 128)) 256 refl b h)
