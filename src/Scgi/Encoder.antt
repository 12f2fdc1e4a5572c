-- ===== src/Scgi/Encoder.antt =====
-- `js_value_encoder` and `sequence_element_encoder` of src/scgi/js_value_encoder.cpp. The stream is
-- the list of the bytes written. How an ostream prints a double is the parameter `print_real`.
-- The host is little-endian, so `native_to_little_endian` changes nothing.
use de_co_f.Base.{ℕ, suc, ◌-◌, ◌%◌, ◌^◌, List, [], ◌∷◌, ◌++◌, if◌then◌else◌, length, Bytes, codes}
use de_co_f.Base.Decimal.{decimal}
use de_co_f.Base.Endian.{le_bytes}
use de_co_f.Types.{
  ℤ, pos, negsuc, Scalar, boolean_t, integer_t, real_t, string_t, binary_t, Value, scalar_t,
  sequence_t, tuple_t,
}

-- What an ostream writes for a signed integer.
unfoldable pub print_integer : ℤ → Bytes
print_integer (pos n) = decimal n
print_integer (negsuc n) = b'-' ∷ decimal (suc n)

-- The low 32 bits of a long long.
unfoldable pub int32_bits : ℤ → ℕ
int32_bits (pos n) = n % 2 ^ 32
int32_bits (negsuc n) = 2 ^ 32 - 1 - n % 2 ^ 32

abbrev pub crlf : Bytes
crlf = 13 ∷ 10 ∷ []

-- A Bencode string and its line end; a binary value converts to a string.
unfoldable pub bencode : Bytes → Bytes
bencode s = decimal (length s) ++ (b':' ∷ (s ++ crlf))

-- `sequence_element_encoder`.
unfoldable pub encode_element : Scalar → Bytes
encode_element (boolean_t b) = (if b then 1 else 0) ∷ []
encode_element (integer_t i) = le_bytes 4 (int32_bits i)
encode_element (real_t r) = le_bytes 8 r
encode_element (string_t s) = bencode s
encode_element (binary_t s) = bencode s

module _ (print_real : ℕ → Bytes) where
  unfoldable pub encode_scalar : Scalar → Bytes
  encode_scalar (boolean_t b) = if b then codes "true" else codes "false"
  encode_scalar (integer_t i) = print_integer i
  encode_scalar (real_t r) = print_real r
  encode_scalar (string_t s) = s
  encode_scalar (binary_t s) = s

  unfoldable pub encode_tuple : List Scalar → Bytes
  encode_tuple [] = []
  encode_tuple (x ∷ xs) = encode_scalar x ++ (crlf ++ encode_tuple xs)

unfoldable pub encode_sequence : List Scalar → Bytes
encode_sequence [] = []
encode_sequence (x ∷ xs) = encode_element x ++ encode_sequence xs

unfoldable pub encode_value : (ℕ → Bytes) → Value → Bytes
unfolding encode_scalar encode_tuple encode_sequence
encode_value print_real (scalar_t x) = encode_scalar print_real x
encode_value print_real (sequence_t xs) = encode_sequence xs
encode_value print_real (tuple_t xs) = encode_tuple print_real xs
