-- ===== src/Types.antt =====
-- The parameter values of include/decof/types.h; the children hold the userlevels and exceptions.
-- `real_t` is a double, written as its 64-bit pattern; `string_t` and `binary_t` are byte strings.
pub mod Userlevel
pub mod Errors
use de_co_f.Base.{ℕ, Bool, List, Bytes}

-- `negsuc n` is -(n + 1).
pub data ℤ : Type 0 where
  pos : ℕ → ℤ
  negsuc : ℕ → ℤ

pub data Scalar : Type 0 where
  boolean_t : Bool → Scalar
  integer_t : ℤ → Scalar
  real_t : ℕ → Scalar
  string_t : Bytes → Scalar
  binary_t : Bytes → Scalar

pub data Value : Type 0 where
  scalar_t : Scalar → Value
  sequence_t : List Scalar → Value
  tuple_t : List Scalar → Value
