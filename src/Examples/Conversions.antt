-- ===== src/Examples/Conversions.antt =====
-- The theorem on conversions, for a tuple of a byte and a string.
use de_co_f.Base.{◌≡◌, ◌==◌, ◌^◌, ltb, inl, refl, false, [], ◌∷◌, ◌++◌, arith, codes}
use de_co_f.Types.{pos, Value, tuple_t, integer_t, real_t, string_t}
use de_co_f.Except.{ok, fault}
use de_co_f.Convert.{IntType, is_lossy}
use de_co_f.Convert
use de_co_f.Convert.Scalars
use de_co_f.Convert.Scalars.{
  Floats, FloatType, IsWidening, IsFinite, convert_floating_point_with_range_checking, from_string,
  floating, integral, string,
}
use de_co_f.Convert.Values.{
  ValueType, tuple, Contents, from_tuple, to_tuple, to_generic, from_generic,
}
use de_co_f.Convert.RoundTrip.{from_tuple-append, from_generic-to_generic}

abbrev uint8 : IntType
uint8 = record { signed = false; half = 128 }

-- Numbers that are integers, in place of floating point numbers.
abbrev floats : Floats
floats = record {
  less = λ t u a b. ltb a b;
  equal = λ a b. a == b;
  trunc = λ a. a;
  lowest = λ t. 0;
  max = λ t. 2 ^ t.digits;
  cast = λ t i. 0;
  to_int = λ t r. fault;
  to_float = λ t u x. x;
}

floats-IsWidening : IsWidening floats
floats-IsWidening = record {
  exact = λ t x l f. refl;
  less_left = λ t x y l f. refl;
  less_right = λ t x y l f. refl;
}

abbrev single : FloatType
single = record { digits = 24 }

five-IsFinite : IsFinite floats single 5
five-IsFinite = record { number = inl refl; not_below = refl; not_above = refl }

abbrev pair : ValueType
pair = tuple (integral uint8 ∷ floating single ∷ string ∷ [])

abbrev contents : Contents pair
contents = (pos 200, (5, (codes "ab", tt)))

abbrev generic : Value
generic = tuple_t (integer_t (pos 200) ∷ real_t 5 ∷ string_t (codes "ab") ∷ [])

from_generic-to_generic_example : from_generic floats pair generic ≡ ok contents
unfolding to_generic to_tuple Scalars.to_generic Convert.to_generic
    convert_floating_point_with_range_checking
from_generic-to_generic_example =
    from_generic-to_generic floats floats-IsWidening pair contents generic
      ((omega arith, omega arith), ((omega arith, five-IsFinite), (tt, tt))) refl

from_tuple-append_example :
    from_generic floats
      (tuple ((string ∷ []) ++ (string ∷ [])))
      (tuple_t (string_t (codes "ab") ∷ []))
    ≡ fault
unfolding from_tuple Scalars.from_generic from_string
from_tuple-append_example =
    from_tuple-append floats (string ∷ []) [] string (string_t (codes "ab") ∷ []) (codes "ab", tt)
      refl refl
