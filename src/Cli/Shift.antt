-- ===== src/Cli/Shift.antt =====
-- The encoder of src/cli/encoder.cpp does not look at what the stream has got before.
use de_co_f.Base.{◌≡◌, refl, ap, sym, ◌∙◌, ◌||◌, List, [], ◌∷◌, ◌++◌, append_assoc, Bytes, codes}
use de_co_f.Types.{
  Scalar, Value, boolean_t, integer_t, real_t, string_t, binary_t, scalar_t, sequence_t, tuple_t,
}
use de_co_f.Cli.Codec.{escapes, needs_hex, encode_string_lem}
use de_co_f.Cli.Encoder.{
  Stream, write, Printers, encode_boolean, encode_integer, encode_string, encode_scalar,
  encode_more, encode_elements, encode_sequence, encode_tuple, encode_value,
}

-- A stream that has got `p` before.
abbrev pub shift : Bytes → Stream → Stream
shift p st = record { out = p ++ st.out; hex = st.hex }

abbrev pub Shifts : (Stream → Stream) → Type 0
Shifts f = (p : Bytes) (st : Stream) → f (shift p st) ≡ shift p (f st)

pub write-Shifts : (s : Bytes) → Shifts (write s)
write-Shifts s p st =
    ap (λ b. let r : Stream = record { out = b; hex = st.hex } in r) (append_assoc p st.out s)

pub after-Shifts : (f g : Stream → Stream) → Shifts f → Shifts g → Shifts (λ st. f (g st))
after-Shifts f g h k p st = ap f (k p st) ∙ h p (g st)

string-Shifts : (s : Bytes) → Shifts (encode_string s)
string-Shifts s p st =
    let x : Bytes = b'"' ∷ (escapes s ++ b'"' ∷ []) in
    encode_string_lem s (shift p st)
    ∙ ap (λ b. let r : Stream = record { out = b; hex = st.hex || needs_hex s } in r)
        (append_assoc p st.out x)
    ∙ ap (shift p) (sym (encode_string_lem s st))

module _ (lib : Printers) where
  scalar-Shifts : (v : Scalar) → Shifts (encode_scalar lib v)
  unfolding encode_scalar encode_boolean encode_integer
  scalar-Shifts (boolean_t b) = write-Shifts _
  scalar-Shifts (integer_t i) = λ p st. write-Shifts _ p st
  scalar-Shifts (real_t r) = write-Shifts _
  scalar-Shifts (string_t s) = string-Shifts s
  scalar-Shifts (binary_t s) = write-Shifts _

  more-Shifts : (vs : List Scalar) → Shifts (encode_more lib vs)
  unfolding encode_more
  more-Shifts [] = λ p st. refl
  more-Shifts (v ∷ vs) =
      after-Shifts (encode_more lib vs) (λ st. encode_scalar lib v (write (codes ",") st))
        (more-Shifts vs)
        (after-Shifts (encode_scalar lib v) (write (codes ",")) (scalar-Shifts v) (write-Shifts _))

  elements-Shifts : (vs : List Scalar) → Shifts (encode_elements lib vs)
  unfolding encode_elements
  elements-Shifts [] = λ p st. refl
  elements-Shifts (v ∷ vs) =
      after-Shifts (encode_more lib vs) (encode_scalar lib v) (more-Shifts vs) (scalar-Shifts v)

  between-Shifts :
      (left right : Bytes) (vs : List Scalar)
      → Shifts (λ st. write right (encode_elements lib vs (write left st)))
  between-Shifts left right vs =
      after-Shifts (write right) (λ st. encode_elements lib vs (write left st)) (write-Shifts right)
        (after-Shifts (encode_elements lib vs) (write left) (elements-Shifts vs)
          (write-Shifts left))

  pub value-Shifts : (v : Value) → Shifts (encode_value lib v)
  unfolding encode_value encode_sequence encode_tuple
  value-Shifts (scalar_t v) = scalar-Shifts v
  value-Shifts (sequence_t vs) = between-Shifts (codes "[") (codes "]") vs
  value-Shifts (tuple_t vs) = between-Shifts (codes "{") (codes "}") vs
