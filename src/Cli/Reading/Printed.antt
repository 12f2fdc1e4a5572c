-- ===== src/Cli/Reading/Printed.antt =====
-- What src/cli/encoder.cpp writes for a scalar, and what the actions of src/cli/parse.cpp read from it.
use de_co_f.Base.{
  ℕ, zero, suc, ◌+◌, ◌-◌, ◌%◌, ◌^◌, ◌<◌, ◌≡◌, refl, ap, Bool, true, false, ◌||◌, [], ◌∷◌, ◌++◌,
  arith, length, length-append, Bytes, bytes_eq, All, codes, if◌then◌else◌, take, ◌==◌, ltb,
}
use de_co_f.Types.{ℤ, pos, negsuc, Scalar, boolean_t, integer_t, real_t, string_t, binary_t}
use de_co_f.Except.{ok}
use de_co_f.Cli.Encoder.{
  Stream, Printers, encode_scalar, encode_boolean, encode_integer, print_decimal, padding,
  base64_encode,
}
use de_co_f.Cli.Codec.{escapes, needs_hex, encode_string_lem, backslash_escape_decoder-escapes}
use de_co_f.Cli.Scanner.Texts.{is_base64}
use de_co_f.Cli.Parser.Scalars.{
  Readers, base64decode, count_padding, replace_padding, erase_last, read_scalar,
}
use de_co_f.Cli.Parser.Grammar.{ScalarKind, boolean, integer, real, string, binary, production}

-- The values of an int.
abbrev pub FitsInt : ℤ → Type 0
FitsInt (pos n) = n < 2 ^ 31
FitsInt (negsuc n) = n < 2 ^ 31

abbrev pub repeat : ℕ → ℕ → Bytes
repeat c zero = []
repeat c (suc n) = c ∷ repeat c n

abbrev pub pad : Bytes → ℕ
pad s = (3 - length s % 3) % 3

abbrev pub IsDigit64 : ℕ → Type 0
IsDigit64 c = (is_base64 c ≡ true) × ((c == b'=') ≡ false)

-- std::stoi reads an int that an ostream has written, and Boost's iterators read the base64 that
-- Boost's iterators have written, when it is filled up by zeros.
pub record AreInverse (print : Printers) (read : Readers) : Type 0 where
  pub stoi_decimal : (i : ℤ) → FitsInt i → read.stoi (print_decimal i) ≡ ok i
  pub alphabet : (s : Bytes) → All (λ c. c < 256) s → All IsDigit64 (print.sextets s)
  pub octets_sextets :
      (s : Bytes)
      → All (λ c. c < 256) s
      → read.octets (print.sextets s ++ repeat b'A' (pad s)) ≡ ok (s ++ repeat 0 (pad s))

abbrev pub kind : Scalar → ScalarKind
kind (boolean_t b) = boolean
kind (integer_t i) = integer
kind (real_t r) = real
kind (string_t s) = string
kind (binary_t s) = binary

-- A scalar sets the base of the stream.
abbrev pub uses_hex : Scalar → Bool
uses_hex (string_t s) = needs_hex s
uses_hex _ = false

-- A scalar that can be read back from a stream in such a base: an integer is an int and comes in
-- decimal, the bytes of a string are bytes; of doubles nothing is said.
abbrev pub IsReadable : Bool → Scalar → Type 0
IsReadable hex (boolean_t b) = Unit
IsReadable hex (integer_t i) = (hex ≡ false) × FitsInt i
IsReadable hex (real_t r) = ⊥
IsReadable hex (string_t s) = All (λ c. c < 256) s
IsReadable hex (binary_t s) = All (λ c. c < 256) s

count_padding_lem :
    (s : Bytes) (n : ℕ)
    → All IsDigit64 s
    → (count_padding (s ++ padding n) ≡ n) × (replace_padding (s ++ padding n) ≡ s ++ repeat b'A' n)
count_padding_lem [] zero h = (refl, refl)
count_padding_lem [] (suc n) h =
    let (a, b) = count_padding_lem [] n h in (omega (arith, a), ap (λ x. b'A' ∷ x) b)
count_padding_lem (c ∷ s) n ((d, e), h) =
    let (a, b) = count_padding_lem s n h in (rw e (omega (arith, a)), rw e (ap (λ x. c ∷ x) b))

length-repeat : (c n : ℕ) → length (repeat c n) ≡ n
length-repeat c zero = refl
length-repeat c (suc n) = ap suc (length-repeat c n)

take-append : (s t : Bytes) → take (length s) (s ++ t) ≡ s
take-append [] t = refl
take-append (c ∷ s) t = ap (λ x. c ∷ x) (take-append s t)

erase_last_lem : (n : ℕ) (s t : Bytes) → length t ≡ n → erase_last n (ok (s ++ t)) ≡ ok s
erase_last_lem n s t e =
    let l : length (s ++ t) ≡ length s + n = omega (arith, e, length-append s t) in
    let m : length s + n - n ≡ length s = omega arith in
    let f : ltb (length s + n) n ≡ false = ground arith in
    rw l (rw (f, m) (ap ok (take-append s t)))

module _ (print : Printers) (read : Readers) where
  abbrev pub text_of : Scalar → Bytes
  text_of (boolean_t b) = if b then codes "#t" else codes "#f"
  text_of (integer_t i) = print_decimal i
  text_of (real_t r) = print.print_real r
  text_of (string_t s) = b'"' ∷ (escapes s ++ b'"' ∷ [])
  text_of (binary_t s) = b'&' ∷ base64_encode print.sextets s

  pub encode_scalar_lem :
      (x : Scalar) (st : Stream)
      → IsReadable st.hex x
      → encode_scalar print x st ≡ record { out = st.out ++ text_of x; hex = st.hex || uses_hex x }
  unfolding encode_scalar encode_boolean encode_integer
  encode_scalar_lem (boolean_t b) st h = ground arith
  encode_scalar_lem (integer_t i) st (e, h) = rw e refl
  encode_scalar_lem (real_t r) st h = absurd h
  encode_scalar_lem (string_t s) st h = encode_string_lem s st
  encode_scalar_lem (binary_t s) st h = ground arith

  base64decode_lem :
      (s : Bytes)
      → AreInverse print read
      → All (λ c. c < 256) s
      → base64decode read (base64_encode print.sextets s) ≡ ok s
  unfolding base64decode base64_encode
  base64decode_lem s i h =
      let (a, b) = count_padding_lem (print.sextets s) (pad s) (i.alphabet s h) in
      rw (a, b, i.octets_sextets s h)
        (erase_last_lem (pad s) s (repeat 0 (pad s)) (length-repeat 0 (pad s)))

  -- The text of each is read back.
  pub read_scalar-text_of :
      (x : Scalar) (hex : Bool)
      → AreInverse print read
      → IsReadable hex x
      → read_scalar read (production (kind x)) (text_of x) ≡ ok x
  unfolding read_scalar bytes_eq
  read_scalar-text_of (boolean_t true) hex i h = refl
  read_scalar-text_of (boolean_t false) hex i h = refl
  read_scalar-text_of (integer_t n) hex i (e, h) = rw (i.stoi_decimal n h) refl
  read_scalar-text_of (real_t r) hex i h = absurd h
  read_scalar-text_of (string_t s) hex i h =
      let n : suc (length (escapes s ++ b'"' ∷ [])) - 2 ≡ length (escapes s) =
        omega (arith, length-append (escapes s) (b'"' ∷ [])) in
      rw (n, take-append (escapes s) (b'"' ∷ []), backslash_escape_decoder-escapes s h) refl
  read_scalar-text_of (binary_t s) hex i h = rw (base64decode_lem s i h) refl
