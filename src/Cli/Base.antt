-- ===== src/Cli/Base.antt =====
-- The number base of the stream of src/cli/encoder.cpp.
use de_co_f.Base.{◌≡◌, false, [], ◌∷◌, ◌++◌, append_assoc, if◌then◌else◌, Bytes, codes}
use de_co_f.Cli.Codec.{escapes, needs_hex, encode_string_lem}
use de_co_f.Cli.Encoder.{
  hexadecimal, int64_bits, print_decimal, encode_integer, Printers, encode_scalar, encode_tuple,
  encode_value,
}
use de_co_f.Types.{ℤ, integer_t, string_t, tuple_t}

-- A tuple of a string and an integer, on a stream that prints decimals: the integer is printed in
-- hexadecimal exactly if some byte of the string was.
pub encode_tuple_base :
    (lib : Printers) (s out : Bytes) (i : ℤ)
    → (encode_value lib
        (tuple_t (string_t s ∷ integer_t i ∷ []))
        (record { out = out; hex = false })).out
      ≡ out
        ++ (codes "{\""
            ++ (escapes s
                ++ (codes "\","
                    ++ ((if needs_hex s then hexadecimal (int64_bits i) else print_decimal i)
                        ++ codes "}"))))
unfolding encode_value encode_tuple encode_scalar encode_integer
encode_tuple_base lib s out i = rw encode_string_lem (simp append_assoc)
