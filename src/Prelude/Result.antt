-- ===== src/Prelude/Result.antt =====
-- A call that may raise an exception with a message: its value, or the message.
use Prim.Native.String.{String}
use mathlib.Core.Path.{◌≡◌, refl, ap}
use mathlib.Core.Logic.{◌⊎◌, inl, inr}

pub data Result {ℓ} (Value : Type ℓ) : Type ℓ where
  err : String → Result Value
  ok : Value → Result Value

-- the rest of a body after a call that may raise
infixl 5 ◌>>=◌
abbrev pub ◌>>=◌ {ℓ ι} : {X : Type ℓ} {Y : Type ι} → Result X → (X → Result Y) → Result Y
err message >>= rest = err message
ok value >>= rest = rest value

module _ {ℓ ι} {X : Type ℓ} {Y : Type ι} where
  -- A body that returns has returned from its first call.
  pub >>=-eq-ok :
      (call : Result X) (rest : X → Result Y) {y : Y}
      → (call >>= rest) ≡ ok y
      → (x : X) × (call ≡ ok x) × (rest x ≡ ok y)
  >>=-eq-ok (err message) rest h = cc
  >>=-eq-ok (ok value) rest h = (value, refl, h)

-- The value of a call, or another where it raised.
abbrev pub or_value {ℓ} : {X : Type ℓ} → X → Result X → X
or_value d (err message) = d
or_value d (ok value) = value

pub ok_injective {ℓ} : {X : Type ℓ} {x y : X} → ok x ≡ ok y → x ≡ y
ok_injective {x = x} h = ap (or_value x) h

pub Result-cases {ℓ} :
    {X : Type ℓ} (call : Result X)
    → ((x : X) × (call ≡ ok x)) ⊎ ((message : String) × (call ≡ err message))
Result-cases (err message) = inr (message, refl)
Result-cases (ok value) = inl (value, refl)
