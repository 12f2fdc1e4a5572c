-- ===== src/Cli/Parser/Scalars.antt =====
-- The scalars that the actions of src/cli/parse.cpp read from the text of a token, and `base64decode`
-- of src/cli/decoder.cpp. std::stoi, std::stod and the iterators of Boost are parameters.
use de_co_f.Base.{
  ℕ, ◌+◌, ◌-◌, Option, none, some, [], ◌∷◌, ◌==◌, ltb, if◌then◌else◌, length, take, drop, Bytes,
  bytes_eq, codes,
}
use de_co_f.Types.{ℤ, Scalar, boolean_t, integer_t, real_t, string_t, binary_t}
use de_co_f.Types.Errors.{parse_error}
use de_co_f.Except.{Except, ok, err, out_of_range, other_exception, fault}
use de_co_f.Cli.Decoder.{backslash_escape_decoder}

-- What the actions take from libraries.
pub record Readers : Type 0 where
  pub stoi : Bytes → Except ℤ
  pub stod : Bytes → Except ℕ
  pub octets : Bytes → Except Bytes

abbrev pub count_padding : Bytes → ℕ
count_padding [] = 0
count_padding (c ∷ cs) = (if c == b'=' then 1 else 0) + count_padding cs

abbrev pub replace_padding : Bytes → Bytes
replace_padding [] = []
replace_padding (c ∷ cs) = (if c == b'=' then b'A' else c) ∷ replace_padding cs

-- `result.erase(result.end() - n, result.end())`.
abbrev pub erase_last : ℕ → Except Bytes → Except Bytes
erase_last n (ok s) = if ltb (length s) n then fault else ok (take (length s - n) s)
erase_last n e = e

-- `base64decode` of src/cli/decoder.cpp.
unfoldable pub base64decode : Readers → Bytes → Except Bytes
base64decode lib s = erase_last (count_padding s) (lib.octets (replace_padding s))

-- A parse_error of the decoder.
abbrev pub escaped_text : Option Bytes → Except Scalar
escaped_text none = err parse_error
escaped_text (some s) = ok (string_t s)

abbrev pub map_ok : {A : Type 0} → (A → Scalar) → Except A → Except Scalar
map_ok f (ok x) = ok (f x)
map_ok f (err e) = err e
map_ok f out_of_range = out_of_range
map_ok f other_exception = other_exception
map_ok f fault = fault

-- The scalars of the productions 4 to 8, of the matched text.
unfoldable pub read_scalar : Readers → ℕ → Bytes → Except Scalar
unfolding base64decode
read_scalar lib production text =
    if production == 4
    then ok (boolean_t (bytes_eq text (codes "#t")))
    else if production == 5
    then map_ok integer_t (lib.stoi text)
    else if production == 6
    then map_ok real_t (lib.stod text)
    else if production == 7
    then escaped_text (backslash_escape_decoder (take (length text - 2) (drop 1 text)))
    else map_ok binary_t (base64decode lib (drop 1 text))
