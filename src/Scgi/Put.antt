-- ===== src/Scgi/Put.antt =====
-- The decoding of a request body in `scgi_context::handle_put_request` of src/scgi/scgi_context.cpp,
-- up to the call of `set_parameter`. Boost's `trim_if` and `lexical_cast` are parameters; `none` is
-- `bad_lexical_cast`. The host is little-endian and its `char` is signed.
pub mod Strings
pub mod Fuel
pub mod Numbers
pub mod Trimmed
use de_co_f.Base.{
  ℕ, zero, suc, ◌+◌, ◌-◌, ◌/◌, ◌%◌, ◌^◌, Bool, true, false, ◌&&◌, ◌||◌, Option, none, some, List,
  [], ◌∷◌, map, ◌==◌, leb, ltb, if◌then◌else◌, length, take, drop, Bytes, bytes_eq, codes,
}
use de_co_f.Base.Endian.{le_value}
use de_co_f.Except.{Except, ok, err, fault, ◌>>=◌}
use de_co_f.Scgi.Bencode
use de_co_f.Scgi.Bencode.{ResultType, good, bad, indeterminate, BencodeStringParser, parse, reset}
use de_co_f.Types.{
  ℤ, pos, negsuc, Scalar, boolean_t, integer_t, real_t, string_t, Value, scalar_t, sequence_t,
}
use de_co_f.Types.Errors.{invalid_value_error, wrong_type_error, not_implemented_error}

-- `std::isspace` in the C locale.
abbrev pub is_space : ℕ → Bool
is_space c = c == b' ' || (leb 9 c && leb c 13)

abbrev skip_spaces : Bytes → Bytes
skip_spaces [] = []
skip_spaces (c ∷ cs) = if is_space c then skip_spaces cs else c ∷ cs

abbrev word : Bytes → Bytes
word [] = []
word (c ∷ cs) = if is_space c then [] else c ∷ word cs

-- `ss >> str`.
abbrev pub first_word : Bytes → Bytes
first_word s = word (skip_spaces s)

-- `c > 0`, for a char.
abbrev pub is_positive : ℕ → Bool
is_positive c = ltb 0 c && ltb c 128

-- The integer with a 64-bit two's complement pattern.
unfoldable pub from_int64 : ℕ → ℤ
from_int64 n = if ltb n (2 ^ 63) then pos n else negsuc (2 ^ 64 - 1 - n)

-- The elements of `array_view`: `size` patterns of eight bytes.
unfoldable pub elements : ℕ → Bytes → List ℕ
elements zero body = []
elements (suc size) body = le_value (take 8 body) ∷ elements size (drop 8 body)

unfoldable pub integer_seq : Bytes → Except Value
unfolding elements from_int64
integer_seq body =
    if length body % 8 == 0
    then ok (sequence_t (map (λ n. integer_t (from_int64 n)) (elements (length body / 8) body)))
    else err invalid_value_error

unfoldable pub real_seq : Bytes → Except Value
unfolding elements
real_seq body =
    if length body % 8 == 0
    then ok (sequence_t (map real_t (elements (length body / 8) body)))
    else err invalid_value_error

unfoldable pub boolean_seq : Bytes → Except Value
boolean_seq body = ok (sequence_t (map (λ c. boolean_t (is_positive c)) body))

-- A fresh parser; its uninitialised `length_` is read in no run from here.
abbrev pub fresh : BencodeStringParser
fresh = record { state = Bencode.string_length; data' = []; length_str = []; length = 0 }

module _ (lexical_cast : Bytes → Option ℕ) where
  -- The body of the loop behind `parser.parse`: `it += 2` past the end of the body is undefined.
  abbrev pub after_string :
      ResultType × Bytes × BencodeStringParser
      → (Bytes → Except (List Scalar))
      → Except (List Scalar)
  after_string (good, [], p) next = ok (string_t p.data' ∷ [])
  after_string (good, c ∷ [], p) next = fault
  after_string (good, c ∷ d ∷ it, p) next = do seq ← next it; ok (string_t p.data' ∷ seq)
  after_string (bad, it, p) next = err invalid_value_error
  after_string (indeterminate, it, p) next = err invalid_value_error

  -- The loop over the body; each round consumes at least two bytes.
  unfoldable pub string_loop : ℕ → Bytes → Except (List Scalar)
  string_loop zero it = fault
  string_loop (suc fuel) [] = ok []
  string_loop (suc fuel) (c ∷ cs) =
      after_string (parse lexical_cast (c ∷ cs) (reset fresh)) (string_loop fuel)

  unfoldable pub string_seq : Bytes → Except Value
  unfolding string_loop
  string_seq body = do seq ← string_loop (suc (length body)) body; ok (sequence_t seq)

-- What the handler takes from Boost.
pub record Boost : Type 0 where
  pub trim : Bytes → Bytes
  pub cast_size : Bytes → Option ℕ
  pub cast_integer : Bytes → Option ℤ
  pub cast_real : Bytes → Option ℕ

abbrev pub or_invalid {ℓ} : {A : Type ℓ} → Option A → (A → Value) → Except Value
or_invalid none f = err invalid_value_error
or_invalid (some a) f = ok (f a)

boolean_body : Bytes → Except Value
boolean_body body =
    if bytes_eq body (codes "true")
    then ok (scalar_t (boolean_t true))
    else if bytes_eq body (codes "false")
    then ok (scalar_t (boolean_t false))
    else err invalid_value_error

-- The chain of tests of the content type, on the trimmed body.
decode_body : Boost → Bytes → Bytes → Except Value
unfolding boolean_body boolean_seq integer_seq real_seq string_seq
decode_body lib content_type body =
    if bytes_eq content_type (codes "vnd/com.toptica.decof.boolean")
    then boolean_body body
    else if bytes_eq content_type (codes "vnd/com.toptica.decof.integer")
    then or_invalid (lib.cast_integer (first_word body)) (λ i. scalar_t (integer_t i))
    else if bytes_eq content_type (codes "vnd/com.toptica.decof.real")
    then or_invalid (lib.cast_real (first_word body)) (λ r. scalar_t (real_t r))
    else if bytes_eq content_type (codes "vnd/com.toptica.decof.string")
    then ok (scalar_t (string_t body))
    else if bytes_eq content_type (codes "vnd/com.toptica.decof.boolean_seq")
    then boolean_seq body
    else if bytes_eq content_type (codes "vnd/com.toptica.decof.integer_seq")
    then integer_seq body
    else if bytes_eq content_type (codes "vnd/com.toptica.decof.real_seq")
    then real_seq body
    else if bytes_eq content_type (codes "vnd/com.toptica.decof.string_seq")
    then string_seq lib.cast_size body
    else if bytes_eq content_type (codes "vnd/com.toptica.decof.tuple")
    then err not_implemented_error
    else err wrong_type_error

-- The value that `handle_put_request` sets.
unfoldable pub put_value : Boost → Bytes → Bytes → Except Value
unfolding decode_body
put_value lib content_type body = decode_body lib content_type (lib.trim body)
