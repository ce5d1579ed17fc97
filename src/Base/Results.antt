-- ===== src/Base/Results.antt =====
-- What a Go call with an error result can do: return, return an error, or panic.
-- `stuck` is no Go behaviour: the fuel of a modelled loop ran out.
use mathlib.Core.Path.{◌≡◌, refl}
use mathlib.Core.Logic.{◌⊎◌, inl, inr}

-- The reasons that the source's error texts give.
pub data Error : Type 0 where
  wrong_type too_large bad_address bad_name truncated bad_index bad_length : Error
  too_deep empty_input unsupported no_layer : Error

pub data Outcome {ℓ} (A : Type ℓ) : Type ℓ where
  ok : A → Outcome A
  err : Error → Outcome A
  panic : Outcome A
  stuck : Outcome A

-- Go's `if err != nil { return …, err }`; a panic leaves the caller as well.
infixl 5 ◌>>=◌
abbrev pub ◌>>=◌ {ℓ₁ ℓ₂} :
    {From : Type ℓ₁} {To : Type ℓ₂} → Outcome From → (From → Outcome To) → Outcome To
stuck >>= next = stuck
panic >>= next = panic
err why >>= next = err why
ok value >>= next = next value

-- Inversion of a successful bind, for proofs where the parts stay shut.
pub >>=-eq-ok {ℓ₁ ℓ₂} :
    {From : Type ℓ₁} {To : Type ℓ₂} (first : Outcome From) (next : From → Outcome To) {out : To}
    → (first >>= next) ≡ ok out
    → (value : From) × (first ≡ ok value) × (next value ≡ ok out)
>>=-eq-ok stuck next h = cc
>>=-eq-ok panic next h = cc
>>=-eq-ok (err why) next h = cc
>>=-eq-ok (ok value) next h = (value, refl, h)

-- A value or an error, and neither a panic nor a lack of fuel.
abbrev pub Returns {ℓ} : {A : Type ℓ} → Outcome A → Type ℓ
Returns {A = A} outcome =
    ((value : A) × (outcome ≡ ok value)) ⊎ ((why : Error) × (outcome ≡ err why))

pub Returns->>= {ℓ₁ ℓ₂} :
    {From : Type ℓ₁} {To : Type ℓ₂} (first : Outcome From) (next : From → Outcome To)
    → Returns first
    → ((value : From) → Returns (next value))
    → Returns (first >>= next)
Returns->>= stuck next (inl (value, h)) on = cc
Returns->>= stuck next (inr (why, h)) on = cc
Returns->>= panic next (inl (value, h)) on = cc
Returns->>= panic next (inr (why, h)) on = cc
Returns->>= (err why) next h on = inr (why, refl)
Returns->>= (ok value) next h on = on value
