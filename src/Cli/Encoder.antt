-- ===== src/Cli/Encoder.antt =====
-- `encoder` of src/cli/encoder.cpp. The stream is what has been written to it and the base in
-- which it prints integers: `std::hex` stays set. Two functions of libraries are parameters: how
-- an ostream prints a double, and Boost's base64 iterators.
use de_co_f.Base.{
  ℕ, zero, suc, ◌+◌, ◌-◌, ◌/◌, ◌%◌, ◌^◌, Bool, true, false, not, ◌&&◌, ◌||◌, Option, none, some,
  List, [], ◌∷◌, ◌++◌, ◌==◌, leb, ltb, if◌then◌else◌, length, Bytes, codes,
}
use de_co_f.Base.Decimal.{decimal}
use de_co_f.Types.{
  ℤ, pos, negsuc, Scalar, boolean_t, integer_t, real_t, string_t, binary_t, Value, scalar_t,
  sequence_t, tuple_t,
}

pub record Stream : Type 0 where
  pub out : Bytes
  pub hex : Bool

abbrev pub write : Bytes → Stream → Stream
write s st = record st { out = st.out ++ s }

-- A digit of `std::hex`.
unfoldable pub hex_digit : ℕ → ℕ
hex_digit n = if ltb n 10 then b'0' + n else b'a' - 10 + n

hex_digits : ℕ → ℕ → Bytes
unfolding hex_digit
hex_digits zero n = []
hex_digits (suc fuel) n =
    let rest = hex_digits fuel (n / 16) ++ hex_digit (n % 16) ∷ [] in
    if ltb n 16 then hex_digit n ∷ [] else rest

-- A 64-bit pattern has at most sixteen digits.
unfoldable pub hexadecimal : ℕ → Bytes
unfolding hex_digits
hexadecimal n = hex_digits 16 n

-- The two's complement pattern, which `std::hex` prints.
unfoldable pub int64_bits : ℤ → ℕ
int64_bits (pos n) = n % 2 ^ 64
int64_bits (negsuc n) = 2 ^ 64 - 1 - n % 2 ^ 64

unfoldable pub print_decimal : ℤ → Bytes
print_decimal (pos n) = decimal n
print_decimal (negsuc n) = b'-' ∷ decimal (suc n)

unfoldable pub encode_boolean : Bool → Stream → Stream
encode_boolean b = write (if b then codes "#t" else codes "#f")

unfoldable pub encode_integer : ℤ → Stream → Stream
encode_integer i st = write (if st.hex then hexadecimal (int64_bits i) else print_decimal i) st

-- The table `escape_characters`.
unfoldable pub escape_character : ℕ → Option ℕ
escape_character c =
    if c == 7
    then some b'a'
    else if c == 8
    then some b'b'
    else if c == 12
    then some b'f'
    else if c == 10
    then some b'n'
    else if c == 13
    then some b'r'
    else if c == 9
    then some b't'
    else if c == 11
    then some b'v'
    else if c == b'\\'
    then some b'\\'
    else if c == b'\''
    then some b'\''
    else if c == b'"'
    then some b'"'
    else if c == b'?'
    then some b'?'
    else none

-- The first test of the loop.
unfoldable pub is_plain : ℕ → Bool
is_plain c =
    leb 0x20 c
    && leb c 0x7f
    && not (c == b'\\')
    && not (c == b'\'')
    && not (c == b'"')
    && not (c == b'?')

-- What a byte of a string is written as, and whether it is written by `std::hex`.
unfoldable pub escape_byte : ℕ → Bytes × Bool
unfolding is_plain escape_character hex_digit
escape_byte c = if is_plain c then (c ∷ [], false) else elim (escape_character c) [
  | some e ↦ (b'\\' ∷ e ∷ [], false)
  | none ↦ (b'\\' ∷ b'x' ∷ hex_digit (c / 16) ∷ hex_digit (c % 16) ∷ [], true)
]

unfoldable pub encode_bytes : Bytes → Stream → Stream
encode_bytes [] st = st
encode_bytes (c ∷ cs) st =
    let (s, hex) = escape_byte c in
    encode_bytes cs (record { out = st.out ++ s; hex = st.hex || hex })

unfoldable pub encode_string : Bytes → Stream → Stream
unfolding encode_bytes
encode_string s st = write (codes "\"") (encode_bytes s (write (codes "\"") st))

abbrev pub padding : ℕ → Bytes
padding zero = []
padding (suc n) = b'=' ∷ padding n

-- `base64_encode`: the padding, around the iterators of Boost.
unfoldable pub base64_encode : (Bytes → Bytes) → Bytes → Bytes
base64_encode sextets bin = sextets bin ++ padding ((3 - length bin % 3) % 3)

-- What the encoder takes from libraries.
pub record Printers : Type 0 where
  pub print_real : ℕ → Bytes
  pub sextets : Bytes → Bytes

module _ (lib : Printers) where
  unfoldable pub encode_scalar : Scalar → Stream → Stream
  encode_scalar (boolean_t b) = encode_boolean b
  encode_scalar (integer_t i) = encode_integer i
  encode_scalar (real_t r) = write (lib.print_real r)
  encode_scalar (string_t s) = encode_string s
  encode_scalar (binary_t s) = write (b'&' ∷ base64_encode lib.sextets s)

  -- The loop of a sequence or tuple, behind its first element.
  unfoldable pub encode_more : List Scalar → Stream → Stream
  encode_more [] st = st
  encode_more (x ∷ xs) st = encode_more xs (encode_scalar x (write (codes ",") st))

  unfoldable pub encode_elements : List Scalar → Stream → Stream
  unfolding encode_more
  encode_elements [] st = st
  encode_elements (x ∷ xs) st = encode_more xs (encode_scalar x st)

  unfoldable pub encode_sequence : List Scalar → Stream → Stream
  unfolding encode_elements
  encode_sequence xs st = write (codes "]") (encode_elements xs (write (codes "[") st))

  unfoldable pub encode_tuple : List Scalar → Stream → Stream
  unfolding encode_elements
  encode_tuple xs st = write (codes "}") (encode_elements xs (write (codes "{") st))

  unfoldable pub encode_value : Value → Stream → Stream
  encode_value (scalar_t x) = encode_scalar x
  encode_value (sequence_t xs) = encode_sequence xs
  encode_value (tuple_t xs) = encode_tuple xs
