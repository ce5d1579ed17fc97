-- ===== src/Base/Int.antt =====
-- Go's signed `int` where an index may be negative: `negsuc n` is -(n + 1).
use Prim.Native.Nat.{ℕ, ◌<◌}
use mathlib.Core.Bool.{Bool, true, false}
use mathlib.Core.Path.{◌≡◌}
use native.Mathlib.Omega.{arith}
use goscapy.Base.Tests.{ltb, leb}

pub data ℤ : Type 0 where
  pos : ℕ → ℤ
  negsuc : ℕ → ℤ

-- `n >= limit` and `n > limit` of a count and a limit.
abbrev pub reaches : (n : ℕ) (limit : ℤ) → Bool
reaches n (pos limit) = leb limit n
reaches n (negsuc k) = true

abbrev pub exceeds : (n : ℕ) (limit : ℤ) → Bool
exceeds n (pos limit) = ltb limit n
exceeds n (negsuc k) = true

-- The largest count within a limit; a negative one lets nothing in.
abbrev pub at_most : ℤ → ℕ
at_most (pos limit) = limit
at_most (negsuc k) = 0

pub reaches-below : (n : ℕ) (limit : ℤ) → reaches n limit ≡ false → n < at_most limit
reaches-below n (pos limit) h = ground arith
reaches-below n (negsuc k) h = ground arith
