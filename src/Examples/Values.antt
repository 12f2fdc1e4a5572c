-- ===== src/Examples/Values.antt =====
-- The theorems on encoders and decoders. `read_decimal` stands for `lexical_cast<size_t>`.
use de_co_f.Base.{
  ℕ, ◌≡◌, ◌^◌, ◌∙◌, ap, refl, false, List, none, some, [], ◌∷◌, ◌++◌, map, arith, if◌then◌else◌,
  Bytes, codes,
}
use de_co_f.Base.Decimal.{decimal, read_decimal, read_decimal-decimal}
use de_co_f.Types.{pos, integer_t, string_t, sequence_t, tuple_t}
use de_co_f.Types.Errors.{invalid_value_error}
use de_co_f.Except.{ok, err, fault}
use de_co_f.Scgi.Bencode
use de_co_f.Scgi.Bencode.{BencodeStringParser, good, parse, reset}
use de_co_f.Scgi.Bencode.RoundTrip.{parse-encoded}
use de_co_f.Scgi.Encoder.{encode_sequence, encode_element, int32_bits}
use de_co_f.Base.Endian.{le_bytes}
use de_co_f.Scgi.Put.{Boost, fresh, is_space, put_value}
use de_co_f.Scgi.Put.Trimmed.{
  IsTrim, AreSpaces, begins_with_space, ends_in_space, of_strings, of_integers,
  put_value-encode_sequence, put_value-cut, put_value-overrun, put_value-odd,
}
use de_co_f.Scgi.Put.Strings.{strings, unterminated}
use de_co_f.Cli.Base.{encode_tuple_base}
use de_co_f.Cli.Codec.{escapes, needs_hex, backslash_escape_decoder-escapes}
use de_co_f.Cli.Decoder.{backslash_escape_decoder}
use de_co_f.Cli.Encoder.{Printers, Stream, encode_value, hexadecimal, int64_bits, print_decimal}
use de_co_f.Convert.{IntType}

abbrev words : List Bytes
words = codes "ab" ∷ (13 ∷ 10 ∷ []) ∷ []

-- A trim that removes whitespace on both sides.
abbrev trim_front : Bytes → Bytes
trim_front [] = []
trim_front (c ∷ cs) = if is_space c then trim_front cs else c ∷ cs

abbrev cons_solid : ℕ → Bytes → Bytes
cons_solid c [] = if is_space c then [] else c ∷ []
cons_solid c (d ∷ cs) = c ∷ d ∷ cs

abbrev trim_back : Bytes → Bytes
trim_back [] = []
trim_back (c ∷ cs) = cons_solid c (trim_back cs)

trim_front-spaces : (v b : Bytes) → AreSpaces v → trim_front (v ++ b) ≡ trim_front b
trim_front-spaces [] b h = refl
trim_front-spaces (c ∷ v) b (e, h) = rw e (trim_front-spaces v b h)

trim_front-all : (w : Bytes) → AreSpaces w → trim_front w ≡ []
trim_front-all [] h = refl
trim_front-all (c ∷ w) (e, h) = rw e (trim_front-all w h)

trim_back-spaces : (w : Bytes) → AreSpaces w → trim_back w ≡ []
trim_back-spaces [] h = refl
trim_back-spaces (c ∷ w) (e, h) = rw (trim_back-spaces w h, e) refl

trim_back-solid : (b w : Bytes) → ends_in_space b ≡ false → AreSpaces w → trim_back (b ++ w) ≡ b
trim_back-solid [] w h k = trim_back-spaces w k
trim_back-solid (c ∷ []) w h k = rw (trim_back-spaces w k, h) refl
trim_back-solid (c ∷ d ∷ b) w h k = rw (trim_back-solid (d ∷ b) w h k) refl

trim_lem :
    (v b w : Bytes)
    → AreSpaces v
    → begins_with_space b ≡ false
    → ends_in_space b ≡ false
    → AreSpaces w
    → trim_back (trim_front (v ++ (b ++ w))) ≡ b
trim_lem v [] w hv hb he hw = ap trim_back (trim_front-spaces v w hv ∙ trim_front-all w hw)
trim_lem v (c ∷ b) w hv hb he hw =
    ap trim_back (trim_front-spaces v (c ∷ (b ++ w)) hv) ∙ rw hb (trim_back-solid (c ∷ b) w he hw)

abbrev boost : Boost
boost = record {
  trim = λ s. trim_back (trim_front s);
  cast_size = read_decimal;
  cast_integer = λ s. none;
  cast_real = λ s. none;
}

trims : IsTrim boost.trim
trims = record { trims = trim_lem }

put_value-encode_sequence_example :
    put_value boost of_strings (encode_sequence (strings (words ++ codes " c" ∷ [])))
    ≡ ok (sequence_t (strings (words ++ codes " c" ∷ [])))
put_value-encode_sequence_example =
    put_value-encode_sequence boost trims read_decimal-decimal words (codes " c")
      (omega arith, (omega arith, tt)) (omega arith) refl

put_value-cut_example :
    put_value boost of_strings (encode_sequence (strings (words ++ (codes "c" ++ 32 ∷ []) ∷ [])))
    ≡ err invalid_value_error
put_value-cut_example =
    put_value-cut boost trims read_decimal-decimal words (codes "c") (32 ∷ [])
      (omega arith, (omega arith, tt)) (omega arith) refl (refl, tt) refl

put_value-overrun_example :
    put_value boost of_strings
      (encode_sequence (strings words) ++ (unterminated (codes "c") ++ b'x' ∷ []))
    ≡ fault
put_value-overrun_example =
    put_value-overrun boost trims read_decimal-decimal words (codes "c") b'x'
      (omega arith, (omega arith, tt)) (omega arith) refl

parse-encoded_example :
    parse read_decimal (decimal 2 ++ (b':' ∷ (codes "ab" ++ codes "cd"))) (reset fresh) ≡ (
      good,
      codes "cd",
      record { state = Bencode.string; data' = codes "ab"; length_str = decimal 2; length = 0 },
    )
parse-encoded_example =
    parse-encoded read_decimal read_decimal-decimal (codes "ab") (codes "cd") fresh (omega arith)

put_value-odd_example :
    put_value boost of_integers (encode_sequence (map integer_t (pos 7 ∷ [])))
    ≡ err invalid_value_error
unfolding encode_sequence encode_element le_bytes int32_bits
put_value-odd_example = put_value-odd boost trims (pos 7 ∷ []) refl refl refl

backslash_escape_decoder-escapes_example :
    backslash_escape_decoder (escapes (10 ∷ 200 ∷ b'a' ∷ [])) ≡ some (10 ∷ 200 ∷ b'a' ∷ [])
backslash_escape_decoder-escapes_example =
    backslash_escape_decoder-escapes (10 ∷ 200 ∷ b'a' ∷ [])
      (omega arith, (omega arith, (omega arith, tt)))

abbrev printers : Printers
printers = record { print_real = decimal; sextets = λ s. s }

abbrev start : Stream
start = record { out = []; hex = false }

encode_tuple_base_example :
    (encode_value printers (tuple_t (string_t (200 ∷ []) ∷ integer_t (pos 26) ∷ [])) start).out
    ≡ []
      ++ (codes "{\""
          ++ (escapes (200 ∷ [])
              ++ (codes "\","
                  ++ ((if needs_hex (200 ∷ [])
                        then hexadecimal (int64_bits (pos 26))
                        else print_decimal (pos 26))
                      ++ codes "}"))))
encode_tuple_base_example = encode_tuple_base printers (200 ∷ []) [] (pos 26)

abbrev uint8 : IntType
uint8 = record { signed = false; half = 2 ^ 7 }
