-- ===== src/Scgi/Put/Numbers.antt =====
-- Sequences of numbers between src/scgi/js_value_encoder.cpp and src/scgi/scgi_context.cpp.
use de_co_f.Base.{
  ℕ, ◌*◌, ◌/◌, ◌%◌, ◌^◌, ◌<◌, ◌≡◌, refl, ap, Bool, true, false, List, [], ◌∷◌, map, arith, length,
  length-append, All,
}
use de_co_f.Base.Endian.{le_bytes, length-le_bytes, le_value-le_bytes, take-le_bytes, drop-le_bytes}
use de_co_f.Except.{ok, err}
use de_co_f.Scgi.Encoder.{int32_bits, encode_element, encode_sequence}
use de_co_f.Scgi.Put.{is_positive, elements, boolean_seq, integer_seq, real_seq}
use de_co_f.Types.{ℤ, boolean_t, integer_t, real_t, sequence_t}
use de_co_f.Types.Errors.{invalid_value_error}

length-reals : (rs : List ℕ) → length (encode_sequence (map real_t rs)) ≡ length rs * 8
unfolding encode_sequence encode_element
length-reals [] = refl
length-reals (r ∷ rs) = omega (
  arith,
  length-append (le_bytes 8 r) (encode_sequence (map real_t rs)),
  length-le_bytes 8 r,
  length-reals rs,
)

elements-reals :
    (rs : List ℕ)
    → All (λ r. r < 2 ^ 64) rs
    → elements (length rs) (encode_sequence (map real_t rs)) ≡ rs
unfolding elements encode_sequence encode_element
elements-reals [] h = refl
elements-reals (r ∷ rs) h = rw (
  take-le_bytes 8 r (encode_sequence (map real_t rs)),
  drop-le_bytes 8 r (encode_sequence (map real_t rs)),
  le_value-le_bytes 8 r (omega arith),
  elements-reals rs h.1,
)

-- A sequence of doubles, each a pattern of 64 bits, that GET sends is read back by PUT, bit by bit.
pub real_seq-encode_sequence :
    (rs : List ℕ)
    → All (λ r. r < 2 ^ 64) rs
    → real_seq (encode_sequence (map real_t rs)) ≡ ok (sequence_t (map real_t rs))
unfolding real_seq
real_seq-encode_sequence rs h =
    let n : length rs * 8 / 8 ≡ length rs = omega arith in
    let m : length rs * 8 % 8 ≡ 0 = omega arith in rw (length-reals rs, m, n, elements-reals rs h)

booleans :
    (bs : List Bool)
    → map (λ c. boolean_t (is_positive c)) (encode_sequence (map boolean_t bs)) ≡ map boolean_t bs
unfolding encode_sequence encode_element
booleans [] = refl
booleans (true ∷ bs) = rw (booleans bs)
booleans (false ∷ bs) = rw (booleans bs)

-- A sequence of booleans that GET sends is read back by PUT.
pub boolean_seq-encode_sequence :
    (bs : List Bool)
    → boolean_seq (encode_sequence (map boolean_t bs)) ≡ ok (sequence_t (map boolean_t bs))
unfolding boolean_seq
boolean_seq-encode_sequence bs = ap (λ seq. ok (sequence_t seq)) (booleans bs)

length-integers : (is : List ℤ) → length (encode_sequence (map integer_t is)) ≡ length is * 4
unfolding encode_sequence encode_element
length-integers [] = refl
length-integers (i ∷ is) = omega (
  arith,
  length-append (le_bytes 4 (int32_bits i)) (encode_sequence (map integer_t is)),
  length-le_bytes 4 (int32_bits i),
  length-integers is,
)

-- GET sends four bytes for an integer of a sequence and PUT reads eight: a body that was not trimmed is
-- refused, if GET sent it for a sequence of an odd length.
pub integer_seq_odd :
    (is : List ℤ)
    → length is % 2 ≡ 1
    → integer_seq (encode_sequence (map integer_t is)) ≡ err invalid_value_error
unfolding integer_seq
integer_seq_odd is h = ground (arith, length-integers is)
