-- ===== src/Convert/Scalars.antt =====
-- `scalar_conversion_helper` of include/decof/conversion.h. A type of C++ that is converted both ways is a
-- `ScalarType`, and its values are the elements of `Element`: bytes for a string and for whatever is
-- converted by its object representation. The arithmetic of floating point numbers is a parameter.
use de_co_f.Base.{
  ℕ, suc, ◌*◌, ◌%◌, ◌^◌, ◌-◌, ◌<◌, ◌≤◌, ◌≡◌, ◌⊎◌, Bool, true, false, ◌||◌, not, ◌&&◌, ltb, ◌==◌,
  if◌then◌else◌, is_empty, length, take, Bytes,
}
use de_co_f.Types.{ℤ, pos, negsuc, Scalar, boolean_t, integer_t, real_t, string_t, binary_t}
use de_co_f.Types.Errors.{invalid_value_error, wrong_type_error}
use de_co_f.Except.{Except, ok, err, fault, ◌>>=◌}
use de_co_f.Convert
use de_co_f.Convert.{IntType}
use de_co_f.Convert.Laws.{IsValue}

-- The digits of a floating point type: `numeric_limits<T>::digits`, of a float or a double.
pub record FloatType : Type 0 where
  pub digits : ℕ

-- `raw n` is a type of `n` bytes that no specialisation covers, `raw_array n m` a std::array of `n` elements
-- of `m` bytes with the binary hint, `raw_sequence m` another container of them, `binary_string` a
-- std::string with that hint.
pub data ScalarType : Type 0 where
  boolean : ScalarType
  integral : IntType → ScalarType
  floating : FloatType → ScalarType
  string binary_string : ScalarType
  raw : ℕ → ScalarType
  raw_array : ℕ → ℕ → ScalarType
  raw_sequence : ℕ → ScalarType

abbrev pub Element : ScalarType → Type 0
Element boolean = Bool
Element (integral t) = ℤ
Element (floating t) = ℕ
Element string = Bytes
Element binary_string = Bytes
Element (raw n) = Bytes
Element (raw_array n m) = Bytes
Element (raw_sequence m) = Bytes

abbrev pub double : FloatType
double = record { digits = 53 }

-- What the hardware does with floating point numbers: `x < y` for numbers of two types, `==` and `trunc` of
-- doubles, the bounds of a type, and the casts: from an integer, to an integer (a fault where it does not
-- fit), and between two types.
pub record Floats : Type 0 where
  pub less : FloatType → FloatType → ℕ → ℕ → Bool
  pub equal : ℕ → ℕ → Bool
  pub trunc : ℕ → ℕ
  pub lowest : FloatType → ℕ
  pub max : FloatType → ℕ
  pub cast : FloatType → ℤ → ℕ
  pub to_int : IntType → ℕ → Except ℤ
  pub to_float : FloatType → FloatType → ℕ → ℕ

-- `numeric_limits<T>::lowest()` of an integer type.
abbrev pub int_lowest : IntType → ℤ
int_lowest t = if t.signed then negsuc (t.half - 1) else pos 0

-- `i > limit || i < -limit`.
abbrev pub is_beyond : ℕ → ℤ → Bool
is_beyond limit (pos n) = ltb limit n
is_beyond limit (negsuc n) = ltb limit (suc n)

module _ (lib : Floats) where
  unfoldable pub convert_lossless_to_floating_point : FloatType → ℤ → Except ℕ
  convert_lossless_to_floating_point t i =
      if is_beyond (2 ^ t.digits) i then err invalid_value_error else ok (lib.cast t i)

  unfoldable pub convert_lossless_to_integral : IntType → ℕ → Except ℤ
  convert_lossless_to_integral t r =
      if not (lib.equal (lib.trunc r) r)
        || lib.less double double r (lib.cast double (int_lowest t))
        || lib.less double double (lib.cast double (pos (Convert.max t))) r
      then err invalid_value_error
      else lib.to_int t r

  -- From the second type to the first.
  unfoldable pub convert_floating_point_with_range_checking : FloatType → FloatType → ℕ → Except ℕ
  convert_floating_point_with_range_checking to from x =
      if lib.less from to x (lib.lowest to) || lib.less to from (lib.max to) x
      then err invalid_value_error
      else ok (lib.to_float to from x)

  unfoldable pub from_floating : FloatType → Scalar → Except ℕ
  unfolding convert_lossless_to_floating_point convert_floating_point_with_range_checking
  from_floating t (integer_t i) = convert_lossless_to_floating_point t i
  from_floating t (real_t r) = convert_floating_point_with_range_checking t double r
  from_floating t _ = err wrong_type_error

  unfoldable pub from_boolean : Scalar → Except Bool
  from_boolean (boolean_t b) = ok b
  from_boolean _ = err wrong_type_error

  unfoldable pub from_string : Scalar → Except Bytes
  from_string (string_t s) = ok s
  from_string _ = err wrong_type_error

  unfoldable pub from_binary_string : Scalar → Except Bytes
  from_binary_string (string_t s) = ok s
  from_binary_string (binary_t s) = ok s
  from_binary_string _ = err wrong_type_error

  -- `n` values of the type are copied to where there is one.
  unfoldable pub from_raw : ℕ → Scalar → Except Bytes
  from_raw n (binary_t s) = if n == 1 && not (is_empty s) then ok (take 1 s) else fault
  from_raw n _ = err wrong_type_error

  unfoldable pub from_raw_array : ℕ → ℕ → Scalar → Except Bytes
  from_raw_array n m (binary_t s) = if length s == n * m then ok s else err invalid_value_error
  from_raw_array n m _ = err wrong_type_error

  unfoldable pub from_raw_sequence : ℕ → Scalar → Except Bytes
  from_raw_sequence m (binary_t s) = if length s % m == 0 then ok s else err invalid_value_error
  from_raw_sequence m _ = err wrong_type_error

  unfoldable pub from_generic : (t : ScalarType) → Scalar → Except (Element t)
  unfolding convert_lossless_to_integral from_floating from_boolean from_string from_binary_string
      from_raw from_raw_array from_raw_sequence
  from_generic boolean v = from_boolean v
  from_generic (integral t) v = Convert.from_generic convert_lossless_to_integral t v
  from_generic (floating t) v = from_floating t v
  from_generic string v = from_string v
  from_generic binary_string v = from_binary_string v
  from_generic (raw n) v = from_raw n v
  from_generic (raw_array n m) v = from_raw_array n m v
  from_generic (raw_sequence m) v = from_raw_sequence m v

  unfoldable pub to_generic : (t : ScalarType) → Element t → Except Scalar
  unfolding convert_floating_point_with_range_checking
  to_generic boolean b = ok (boolean_t b)
  to_generic (integral t) i = Convert.to_generic t i
  to_generic (floating t) x = do
    r ← convert_floating_point_with_range_checking double t x
    ok (real_t r)
  to_generic string s = ok (string_t s)
  to_generic binary_string s = ok (binary_t s)
  to_generic (raw n) s = ok (binary_t s)
  to_generic (raw_array n m) s = ok (binary_t s)
  to_generic (raw_sequence m) s = ok (binary_t s)

  -- A `const char*`, up to its end, is converted in one direction only.
  unfoldable pub to_generic_c_string : Bytes → Scalar
  to_generic_c_string s = string_t s

  unfoldable pub to_generic_binary_c_string : Bytes → Scalar
  to_generic_binary_c_string s = binary_t s

  -- A number of the type, which is no infinity and no NaN.
  pub record IsFinite (t : FloatType) (x : ℕ) : Type 0 where
    pub number : (lib.less t t (lib.lowest t) x ≡ true) ⊎ (x ≡ lib.lowest t)
    pub not_below : lib.less t t x (lib.lowest t) ≡ false
    pub not_above : lib.less t t (lib.max t) x ≡ false

  -- IEEE 754: no digits get lost from a type of no more digits than a double to a double, so the number
  -- compares as before, and casts back to itself.
  pub record IsWidening : Type 0 where
    pub exact :
        (t : FloatType) (x : ℕ)
        → t.digits ≤ double.digits
        → IsFinite t x
        → lib.to_float t double (lib.to_float double t x) ≡ x
    pub less_left :
        (t : FloatType) (x y : ℕ)
        → t.digits ≤ double.digits
        → IsFinite t x
        → lib.less double t (lib.to_float double t x) y ≡ lib.less t t x y
    pub less_right :
        (t : FloatType) (x y : ℕ)
        → t.digits ≤ double.digits
        → IsFinite t x
        → lib.less t double y (lib.to_float double t x) ≡ lib.less t t y x

  -- The elements that are values of the type: a number in its range, an object representation of its size.
  -- A floating point type has no more digits than a double, and a type without a specialisation one byte.
  abbrev pub IsElement : (t : ScalarType) → Element t → Type 0
  IsElement boolean b = Unit
  IsElement (integral t) i = (0 < t.half) × IsValue t i
  IsElement (floating t) x = (t.digits ≤ double.digits) × IsFinite t x
  IsElement string s = Unit
  IsElement binary_string s = Unit
  IsElement (raw n) s = (n ≡ 1) × (length s ≡ 1)
  IsElement (raw_array n m) s = length s ≡ n * m
  IsElement (raw_sequence m) s = length s % m ≡ 0
