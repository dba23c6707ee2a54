-- ===== src/Base/Errors.antt =====
-- Constructors that throw `std::invalid_argument`: the message tells which check failed.
pub data Error : Type 0 where
  capacity_below_two capacity_above_maximum capacity_not_power_of_two : Error

pub data Result {ℓ} (A : Type ℓ) : Type ℓ where
  ok : A → Result A
  err : Error → Result A

-- A member initialiser that throws ends the construction.
infixl 5 ◌>>=◌
abbrev pub ◌>>=◌ {ℓ κ} : {A : Type ℓ} {B : Type κ} → Result A → (A → Result B) → Result B
ok a >>= f = f a
err e >>= f = err e
