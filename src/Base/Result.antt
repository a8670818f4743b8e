-- ===== src/Base/Result.antt =====
-- A Python call that may raise: `ok` with the value returned, or `err` with the exception.
pub data Result {ℓ κ} (Error : Type ℓ) (Value : Type κ) : Type (ℓ ⊔ κ) where
  ok : Value → Result Error Value
  err : Error → Result Error Value

-- The next call, unless this one raised.
module _ {ℓ κ μ} {Error : Type ℓ} {Value : Type κ} {Next : Type μ} where
  infixl 5 ◌>>=◌
  abbrev pub ◌>>=◌ : Result Error Value → (Value → Result Error Next) → Result Error Next
  ok value >>= next = next value
  err raised >>= next = err raised
