-- ===== src/Cli/Growth.antt =====
-- The stream before and after the encoder of src/cli/encoder.cpp.
use de_co_f.Base.{
  ◌≤◌, ◌≡◌, refl, ap, ◌∙◌, List, [], ◌∷◌, ◌++◌, append_assoc, append-nil, arith, length,
  length-append, Bytes, codes,
}
use de_co_f.Types.{
  Scalar, Value, boolean_t, integer_t, real_t, string_t, binary_t, scalar_t, sequence_t, tuple_t,
}
use de_co_f.Cli.Codec.{encode_string_lem}
use de_co_f.Cli.Encoder.{
  Stream, write, Printers, encode_boolean, encode_integer, encode_scalar, encode_more,
  encode_elements, encode_sequence, encode_tuple, encode_value,
}

-- `t` is `s` with more behind it.
abbrev pub Extends : Bytes → Bytes → Type 0
Extends s t = (x : Bytes) × (t ≡ s ++ x)

pub Extends-self : (s : Bytes) → Extends s s
Extends-self s = ([], simp append-nil)

pub Extends-trans : (s t u : Bytes) → Extends s t → Extends t u → Extends s u
Extends-trans s t u (x, e) (y, f) = (x ++ y, f ∙ ap (λ r. r ++ y) e ∙ append_assoc s x y)

pub length-Extends : (s t : Bytes) → Extends s t → length s ≤ length t
length-Extends s t (x, e) = omega (arith, ap length e, length-append s x)

module _ (lib : Printers) where
  encode_scalar-Extends : (v : Scalar) (st : Stream) → Extends st.out (encode_scalar lib v st).out
  unfolding encode_scalar encode_boolean encode_integer
  encode_scalar-Extends (boolean_t b) st = (_, refl)
  encode_scalar-Extends (integer_t i) st = (_, refl)
  encode_scalar-Extends (real_t r) st = (_, refl)
  encode_scalar-Extends (string_t s) st = (_, ap (λ (x : Stream). x.out) (encode_string_lem s st))
  encode_scalar-Extends (binary_t s) st = (_, refl)

  encode_more-Extends :
      (vs : List Scalar) (st : Stream) → Extends st.out (encode_more lib vs st).out
  unfolding encode_more
  encode_more-Extends [] st = Extends-self st.out
  encode_more-Extends (v ∷ vs) st =
      let st1 = write (codes ",") st in
      let st2 = encode_scalar lib v st1 in
      Extends-trans st.out st1.out (encode_more lib vs st2).out (codes ",", refl)
        (Extends-trans st1.out st2.out (encode_more lib vs st2).out (encode_scalar-Extends v st1)
          (encode_more-Extends vs st2))

  encode_elements-Extends :
      (vs : List Scalar) (st : Stream) → Extends st.out (encode_elements lib vs st).out
  unfolding encode_elements
  encode_elements-Extends [] st = Extends-self st.out
  encode_elements-Extends (v ∷ vs) st =
      let st1 = encode_scalar lib v st in
      Extends-trans st.out st1.out (encode_more lib vs st1).out (encode_scalar-Extends v st)
        (encode_more-Extends vs st1)

  between :
      (left right : Bytes) (vs : List Scalar) (st : Stream)
      → Extends st.out (write right (encode_elements lib vs (write left st))).out
  between left right vs st =
      let st1 = write left st in
      let st2 = encode_elements lib vs st1 in
      Extends-trans st.out st1.out (write right st2).out (left, refl)
        (Extends-trans st1.out st2.out (write right st2).out (encode_elements-Extends vs st1)
          (right, refl))

  -- Whatever the encoder writes for a value stands behind what the stream has got.
  pub encode_value-Extends : (v : Value) (st : Stream) → Extends st.out (encode_value lib v st).out
  unfolding encode_value encode_sequence encode_tuple
  encode_value-Extends (scalar_t v) st = encode_scalar-Extends v st
  encode_value-Extends (sequence_t vs) st = between (codes "[") (codes "]") vs st
  encode_value-Extends (tuple_t vs) st = between (codes "{") (codes "}") vs st
