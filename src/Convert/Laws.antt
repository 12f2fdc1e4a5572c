-- ===== src/Convert/Laws.antt =====
-- The integer conversions of include/decof/conversion.h and the values of each type.
use native.Mathlib.Nat.{mod-eq_of_lt}
use de_co_f.Base.{ℕ, ◌*◌, ◌%◌, ◌≤◌, ◌<◌, ◌≡◌, ◌⊎◌, inl, inr, refl, ap, true, false, arith}
use de_co_f.Types.{ℤ, pos, negsuc, Scalar, integer_t}
use de_co_f.Types.Errors.{invalid_value_error}
use de_co_f.Except.{Except, ok, err, ◌>>=◌}
use de_co_f.Convert.{
  IntType, int64, max, static_cast, is_lossy, convert_lossless_integer, from_generic, to_generic,
}

-- The values of a type.
abbrev pub IsValue : IntType → ℤ → Type 0
IsValue t (pos n) = n ≤ max t
IsValue t (negsuc n) = (t.signed ≡ true) × (n < t.half)

mod_small : (n m : ℕ) → n < m → n % m ≡ n
mod_small n m h = mod-eq_of_lt h

static_cast_value : (t : IntType) (i : ℤ) → 0 < t.half → IsValue t i → static_cast t i ≡ i
static_cast_value t (pos n) h v = ground (arith, mod_small n (2 * t.half))
static_cast_value t (negsuc n) h v = ground (arith, v.0, v.1, mod_small n (2 * t.half))

is_lossy_iff :
    (to from : IntType) (i : ℤ)
    → 0 < to.half
    → IsValue from i
    → ((is_lossy to from i ≡ true) × ¬ IsValue to i) ⊎ ((is_lossy to from i ≡ false) × IsValue to i)
unfolding is_lossy
is_lossy_iff to from (pos n) z h = ground arith
is_lossy_iff to from (negsuc n) z h = ground (arith, h.0, h.1)

-- A conversion between integer types succeeds exactly on the values that both types have, and then
-- returns the value unchanged; on every other value it throws invalid-value.
pub convert_lossless_integer_lem :
    (to from : IntType) (i : ℤ)
    → 0 < to.half
    → IsValue from i
    → ((convert_lossless_integer to from i ≡ err invalid_value_error) × ¬ IsValue to i)
      ⊎ ((convert_lossless_integer to from i ≡ ok i) × IsValue to i)
unfolding convert_lossless_integer
convert_lossless_integer_lem to from i z h = elim (is_lossy_iff to from i z h) [
  | inl (e, n) ↦ inl (rw e refl, n)
  | inr (e, v) ↦ inr (rw e (ap ok (static_cast_value to i z v)), v)
]

-- A value of an integral type that a long long holds is converted by `to_generic` to an integer that
-- `from_generic` reads back as the same value; for every other value `to_generic` throws invalid-value.
pub from_generic_integral :
    (real : IntType → ℕ → Except ℤ) (t : IntType) (i : ℤ)
    → 0 < t.half
    → IsValue t i
    → ((to_generic t i ≡ err invalid_value_error) × ¬ IsValue int64 i)
      ⊎ ((s : Scalar) × (to_generic t i ≡ ok s) × (from_generic real t s ≡ ok i))
unfolding to_generic from_generic
from_generic_integral real t i z v = elim (convert_lossless_integer_lem int64 t i (omega arith) v) [
  | inl (f, n) ↦ inl (ap (λ o. o >>= λ j. ok (integer_t j)) f, n)
  | inr (f, w) ↦ elim (convert_lossless_integer_lem t int64 i z w) [
    | inl (_, n) ↦ absurd (n v)
    | inr (g, _) ↦ inr (integer_t i, ap (λ o. o >>= λ j. ok (integer_t j)) f, g)
  ]
]
