-- ===== src/Base/Bytes.antt =====
-- Bytes, and encoding/binary's big-endian and little-endian integers of `w` bytes.
use Prim.Native.Nat.{ℕ, zero, suc, ◌+◌, ◌*◌, ◌/◌, ◌%◌, ◌^◌, ◌<◌}
use mathlib.Core.Path.{◌≡◌, refl, ap}
use mathlib.Core.List.{List, [], ◌∷◌, ◌++◌}
use native.Mathlib.Omega.{arith}
use goscapy.Base.Lists.{length, length-append, All, All-append}

abbrev pub IsByte : ℕ → Type 0
IsByte b = b < 256

-- `byte(v)`
abbrev pub byte : ℕ → ℕ
byte v = v % 256

unfoldable pub put_le : ℕ → ℕ → List ℕ
put_le zero v = []
put_le (suc w) v = byte v ∷ put_le w (v / 256)

unfoldable pub get_le : List ℕ → ℕ
get_le [] = 0
get_le (b ∷ bs) = b + 256 * get_le bs

unfoldable pub put_be : ℕ → ℕ → List ℕ
put_be zero v = []
put_be (suc w) v = put_be w (v / 256) ++ (byte v ∷ [])

unfoldable pub get_be_from : ℕ → List ℕ → ℕ
get_be_from acc [] = acc
get_be_from acc (b ∷ bs) = get_be_from (acc * 256 + b) bs

unfoldable pub get_be : List ℕ → ℕ
unfolding get_be_from
get_be bs = get_be_from 0 bs

pub length-put_le : (w v : ℕ) → length (put_le w v) ≡ w
unfolding put_le
length-put_le zero v = refl
length-put_le (suc w) v = ap suc (length-put_le w (v / 256))

pub length-put_be : (w v : ℕ) → length (put_be w v) ≡ w
unfolding put_be
length-put_be zero v = refl
length-put_be (suc w) v =
    omega (arith, length-append {0} (put_be w (v / 256)) (byte v ∷ []), length-put_be w (v / 256))

pub put_be-IsByte : (w v : ℕ) → All IsByte (put_be w v)
unfolding put_be
put_be-IsByte zero v = tt
put_be-IsByte (suc w) v =
    All-append IsByte (put_be w (v / 256)) (byte v ∷ []) (put_be-IsByte w (v / 256)) (omega arith)

get_be_from-append :
    (acc : ℕ) (bs : List ℕ) (b : ℕ)
    → get_be_from acc (bs ++ (b ∷ [])) ≡ get_be_from acc bs * 256 + b
unfolding get_be_from
get_be_from-append acc [] b = refl
get_be_from-append acc (x ∷ bs) b = get_be_from-append (acc * 256 + x) bs b

pub get_be-append : (bs : List ℕ) (b : ℕ) → get_be (bs ++ (b ∷ [])) ≡ get_be bs * 256 + b
unfolding get_be
get_be-append bs b = get_be_from-append 0 bs b

-- Reading back what was written, for every width.
pub get_be-put_be : (w v : ℕ) → v < 256 ^ w → get_be (put_be w v) ≡ v
unfolding put_be
get_be-put_be zero v h = unfold get_be in omega arith
get_be-put_be (suc w) v h =
    omega
      (arith, get_be-append (put_be w (v / 256)) (byte v), get_be-put_be w (v / 256) (omega arith))

pub get_le-put_le : (w v : ℕ) → v < 256 ^ w → get_le (put_le w v) ≡ v
unfolding put_le get_le
get_le-put_le zero v h = omega arith
get_le-put_le (suc w) v h = omega (arith, get_le-put_le w (v / 256) (omega arith))
