-- ===== src/Convert/Values.antt =====
-- `conversion_helper` of include/decof/conversion.h: scalars, std::array, other containers and std::tuple. An
-- iteration with transform_iterator (include/decof/transform_iterator.h) ends at the first exception.
use de_co_f.Base.{ℕ, ◌≡◌, List, [], ◌∷◌, ◌==◌, if◌then◌else◌, length, All}
use de_co_f.Types.{Scalar, Value, scalar_t, sequence_t, tuple_t}
use de_co_f.Types.Errors.{invalid_value_error, wrong_type_error}
use de_co_f.Except.{Except, ok, err, fault, ◌>>=◌}
use de_co_f.Convert.Scalars
use de_co_f.Convert.Scalars.{ScalarType, Element, Floats, IsElement}

-- `array t n` is a std::array, `sequence t` any other container, of elements without a hint.
pub data ValueType : Type 0 where
  scalar sequence : ScalarType → ValueType
  array : ScalarType → ℕ → ValueType
  tuple : List ScalarType → ValueType

-- The elements of a tuple.
abbrev pub Components : List ScalarType → Type 0
Components [] = Unit
Components (t ∷ ts) = Element t × Components ts

abbrev pub Contents : ValueType → Type 0
Contents (scalar t) = Element t
Contents (sequence t) = List (Element t)
Contents (array t n) = List (Element t)
Contents (tuple ts) = Components ts

abbrev pub traverse : {A B : Type 0} → (A → Except B) → List A → Except (List B)
traverse f [] = ok []
traverse f (x ∷ xs) = do y ← f x; ys ← traverse f xs; ok (y ∷ ys)

module _ (lib : Floats) where
  -- Component by component; an element that is not there is undefined behaviour, and more are ignored.
  unfoldable pub from_tuple : (ts : List ScalarType) → List Scalar → Except (Components ts)
  from_tuple [] vs = ok tt
  from_tuple (t ∷ ts) [] = fault
  from_tuple (t ∷ ts) (v ∷ vs) = do
    x ← Scalars.from_generic lib t v
    xs ← from_tuple ts vs
    ok (x, xs)

  unfoldable pub to_tuple : (ts : List ScalarType) → Components ts → Except (List Scalar)
  to_tuple [] x = ok []
  to_tuple (t ∷ ts) (x, xs) = do v ← Scalars.to_generic lib t x; vs ← to_tuple ts xs; ok (v ∷ vs)

  unfoldable pub from_sequence : (t : ScalarType) → List Scalar → Except (List (Element t))
  from_sequence t vs = traverse (Scalars.from_generic lib t) vs

  abbrev from_scalar : (t : ScalarType) → Value → Except (Element t)
  from_scalar t (scalar_t v) = Scalars.from_generic lib t v
  from_scalar t _ = err wrong_type_error

  abbrev from_container : (t : ScalarType) → Value → Except (List (Element t))
  from_container t (sequence_t vs) = from_sequence t vs
  from_container t _ = err wrong_type_error

  abbrev from_array : (t : ScalarType) → ℕ → Value → Except (List (Element t))
  from_array t n (sequence_t vs) =
      if length vs == n then from_sequence t vs else err invalid_value_error
  from_array t n _ = err wrong_type_error

  abbrev from_tuple_value : (ts : List ScalarType) → Value → Except (Components ts)
  from_tuple_value ts (tuple_t vs) = from_tuple ts vs
  from_tuple_value ts _ = err wrong_type_error

  unfoldable pub from_generic : (t : ValueType) → Value → Except (Contents t)
  unfolding from_tuple from_sequence
  from_generic (scalar t) v = from_scalar t v
  from_generic (sequence t) v = from_container t v
  from_generic (array t n) v = from_array t n v
  from_generic (tuple ts) v = from_tuple_value ts v

  unfoldable pub to_generic : (t : ValueType) → Contents t → Except Value
  unfolding to_tuple
  to_generic (scalar t) x = do v ← Scalars.to_generic lib t x; ok (scalar_t v)
  to_generic (sequence t) xs = do vs ← traverse (Scalars.to_generic lib t) xs; ok (sequence_t vs)
  to_generic (array t n) xs = do vs ← traverse (Scalars.to_generic lib t) xs; ok (sequence_t vs)
  to_generic (tuple ts) x = do vs ← to_tuple ts x; ok (tuple_t vs)

  abbrev pub AreComponents : (ts : List ScalarType) → Components ts → Type 0
  AreComponents [] x = Unit
  AreComponents (t ∷ ts) (x, xs) = IsElement lib t x × AreComponents ts xs

  -- The values of a type.
  abbrev pub IsContents : (t : ValueType) → Contents t → Type 0
  IsContents (scalar t) x = IsElement lib t x
  IsContents (sequence t) xs = All (IsElement lib t) xs
  IsContents (array t n) xs = All (IsElement lib t) xs × (length xs ≡ n)
  IsContents (tuple ts) x = AreComponents ts x
