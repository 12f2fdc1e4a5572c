-- ===== src/Except.antt =====
-- How a call ends: with a value, with one of the framework's exceptions, with `std::out_of_range`,
-- with any other exception, or in undefined behaviour (`fault`).
use de_co_f.Types.Errors.{Error}

pub data Except {ℓ} (A : Type ℓ) : Type ℓ where
  ok : A → Except A
  err : Error → Except A
  out_of_range : Except A
  other_exception : Except A
  fault : Except A

infixl 5 ◌>>=◌
abbrev pub ◌>>=◌ {ℓ κ} : {A : Type ℓ} {B : Type κ} → Except A → (A → Except B) → Except B
ok a >>= f = f a
err e >>= f = err e
out_of_range >>= f = out_of_range
other_exception >>= f = other_exception
fault >>= f = fault

-- The result of a `void` function.
abbrev pub Void : Type 0
Void = Unit
