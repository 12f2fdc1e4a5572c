-- ===== src/Convert.antt =====
-- The conversions between integer types of include/decof/conversion.h: `convert_lossless_integer`, and
-- `scalar_conversion_helper` for the integral types other than bool. A C++ integer type is its
-- signedness and its width; its values are integers.
pub mod Laws
pub mod Scalars
pub mod Values
pub mod RoundTrip
use de_co_f.Base.{
  ℕ, zero, suc, ◌+◌, ◌-◌, ◌*◌, ◌%◌, ◌^◌, Bool, true, false, not, ◌&&◌, ◌||◌, ltb, leb,
  if◌then◌else◌,
}
use de_co_f.Types.{ℤ, pos, negsuc, Scalar, integer_t, real_t}
use de_co_f.Types.Errors.{invalid_value_error, wrong_type_error}
use de_co_f.Except.{Except, ok, err, ◌>>=◌}

-- Half the number of the type's values: 2 ^ 63 for 64 bits.
pub record IntType : Type 0 where
  pub signed : Bool
  pub half : ℕ

abbrev pub int64 : IntType
int64 = record { signed = true; half = 2 ^ 63 }

-- `numeric_limits<T>::max()`, and the negation of `lowest()`.
abbrev pub max : IntType → ℕ
max t = if t.signed then t.half - 1 else 2 * t.half - 1

abbrev pub below_lowest : IntType → ℤ → Bool
below_lowest t (pos n) = false
below_lowest t (negsuc n) = if t.signed then leb t.half n else true

abbrev pub above_max : IntType → ℤ → Bool
above_max t (pos n) = ltb (max t) n
above_max t (negsuc n) = false

-- `static_cast<To>`: the two's complement pattern, read in the target type.
abbrev pub pattern_of : IntType → ℤ → ℕ
pattern_of t (pos n) = n % (2 * t.half)
pattern_of t (negsuc n) = 2 * t.half - 1 - n % (2 * t.half)

abbrev pub read_pattern : IntType → ℕ → ℤ
read_pattern t b = if t.signed && leb t.half b then negsuc (2 * t.half - 1 - b) else pos b

abbrev pub static_cast : IntType → ℤ → ℤ
static_cast t i = read_pattern t (pattern_of t i)

abbrev pub is_negative : ℤ → Bool
is_negative (pos n) = false
is_negative (negsuc n) = true

-- The test of the `if constexpr` that the two types choose.
unfoldable pub is_lossy : IntType → IntType → ℤ → Bool
is_lossy to from i =
    if not to.signed && from.signed
    then is_negative i || above_max to i
    else if to.signed && not from.signed
    then above_max to i
    else below_lowest to i || above_max to i

unfoldable pub convert_lossless_integer : IntType → IntType → ℤ → Except ℤ
unfolding is_lossy
convert_lossless_integer to from i =
    if is_lossy to from i then err invalid_value_error else ok (static_cast to i)

-- `from_generic` and `to_generic`. The conversion of a double, `convert_lossless_to_integral` of
-- Convert/Scalars, is an argument of the first.
unfoldable pub from_generic : (IntType → ℕ → Except ℤ) → IntType → Scalar → Except ℤ
unfolding convert_lossless_integer
from_generic real t (integer_t i) = convert_lossless_integer t int64 i
from_generic real t (real_t r) = real t r
from_generic real t _ = err wrong_type_error

unfoldable pub to_generic : IntType → ℤ → Except Scalar
unfolding convert_lossless_integer
to_generic t i = do j ← convert_lossless_integer int64 t i; ok (integer_t j)
