-- ===== src/Cli/Reading/Scanned.antt =====
-- The tokens of what src/cli/encoder.cpp writes for a value.
use de_co_f.Base.{
  ℕ, zero, suc, ◌<◌, ◌≡◌, ◌⊎◌, inl, inr, refl, ap, sym, subst, ◌∙◌, Bool, true, false, ◌||◌, some,
  List, [], ◌∷◌, ◌++◌, arith, length, append_assoc, append-nil, Bytes, All, codes, is_empty,
}
use de_co_f.Base.Decimal.{is_digit, decimal, decimal_digits, decimal-ne_empty}
use de_co_f.Types.{
  ℤ, pos, negsuc, Scalar, boolean_t, integer_t, real_t, string_t, binary_t, Value, scalar_t,
  sequence_t, tuple_t,
}
use de_co_f.Cli.Encoder.{
  Stream, write, Printers, encode_more, encode_elements, encode_sequence, encode_tuple,
  encode_value, padding, base64_encode, print_decimal,
}
use de_co_f.Cli.Scanner.{Scanner, lex}
use de_co_f.Cli.Scanner.Longest.{Returned, Offers, lex-offered, lex-end}
use de_co_f.Cli.Scanner.Matches.{Reads, Stops, state_after}
use de_co_f.Cli.Scanner.Texts.{is_base64, boolean-run, print_decimal-run, string-run, binary-run}
use de_co_f.Cli.Scanner.Stops.{
  IsDelimited, BeginsWithByte, mark-Stops, mark_run, digit_no_blank, begin_no_blank, Stops_lem,
  rule_of_end, execute_end, end_state, end_rule,
}
use de_co_f.Cli.Parser.Tables.{end_of_input}
use de_co_f.Cli.Parser.Automaton.{token_of}
use de_co_f.Cli.Parser.Scalars.{Readers}
use de_co_f.Cli.Parser.Grammar.{ScalarKind, boolean, integer, real, string, binary, number, Lexeme}
use de_co_f.Cli.Reading.{Tokens}
use de_co_f.Cli.Reading.Printed.{
  AreInverse, IsDigit64, kind, uses_hex, IsReadable, text_of, encode_scalar_lem, pad,
}

-- The scalars of a list, in a base that those before may have set.
abbrev pub AreReadable : Bool → List Scalar → Type 0
AreReadable hex [] = Unit
AreReadable hex (x ∷ xs) = IsReadable hex x × AreReadable (hex || uses_hex x) xs

abbrev pub IsReadableValue : Value → Type 0
IsReadableValue (scalar_t x) = IsReadable false x
IsReadableValue (sequence_t xs) = AreReadable false xs
IsReadableValue (tuple_t xs) = AreReadable false xs

-- A punctuation mark as a token.
abbrev pub mark : ℕ → Lexeme
mark c = record { kind = c; text = c ∷ [] }

digits_begin :
    (w rest : Bytes)
    → All (λ c. is_digit c ≡ true) w
    → is_empty w ≡ false
    → BeginsWithByte (w ++ rest)
digits_begin [] rest h e = absurd cc
digits_begin (c ∷ w) rest (d, h) e = ground arith

integer_begins : (i : ℤ) (rest : Bytes) → BeginsWithByte (print_decimal i ++ rest)
unfolding print_decimal
integer_begins (pos n) rest = digits_begin (decimal n) rest (decimal_digits n) (decimal-ne_empty n)
integer_begins (negsuc n) rest = omega arith

base64_append :
    (s : Bytes) (n : ℕ) → All IsDigit64 s → All (λ c. is_base64 c ≡ true) (s ++ padding n)
base64_append [] zero h = tt
base64_append [] (suc n) h = (refl, base64_append [] n h)
base64_append (c ∷ s) n ((d, e), h) = (d, base64_append s n h)

digits_length : (w : Bytes) → is_empty w ≡ false → 0 < length w
digits_length [] e = absurd cc
digits_length (c ∷ w) e = omega arith

digits_no_blank : (w : Bytes) → All (λ c. is_digit c ≡ true) w → Stops 1 w
digits_no_blank [] h = tt
digits_no_blank (c ∷ w) (d, h) = (digit_no_blank c d, ground arith)

token_of_end : token_of (pos 0) ≡ end_of_input
unfolding token_of
token_of_end = refl

number_bounds : (k : ScalarKind) → (0 < number k) × (number k < 262)
number_bounds boolean = (omega arith, omega arith)
number_bounds integer = (omega arith, omega arith)
number_bounds real = (omega arith, omega arith)
number_bounds string = (omega arith, omega arith)
number_bounds binary = (omega arith, omega arith)

abbrev IsClosing : ℕ → Type 0
IsClosing c = (c ≡ b']') ⊎ (c ≡ b'}')

module _ (print : Printers) (read : Readers) where
  abbrev pub more_text : List Scalar → Bytes
  more_text [] = []
  more_text (x ∷ xs) = b',' ∷ (text_of print read x ++ more_text xs)

  abbrev pub elements_text : List Scalar → Bytes
  elements_text [] = []
  elements_text (x ∷ xs) = text_of print read x ++ more_text xs

  -- What a value is written as.
  abbrev pub value_text : Value → Bytes
  value_text (scalar_t x) = text_of print read x
  value_text (sequence_t xs) = b'[' ∷ (elements_text xs ++ b']' ∷ [])
  value_text (tuple_t xs) = b'{' ∷ (elements_text xs ++ b'}' ∷ [])

  encode_more_lem :
      (xs : List Scalar) (st : Stream)
      → AreReadable st.hex xs
      → (encode_more print xs st).out ≡ st.out ++ more_text xs
  unfolding encode_more
  encode_more_lem [] st h = sym (append-nil st.out)
  encode_more_lem (x ∷ xs) st (h, k) =
      ap (λ (s : Stream). (encode_more print xs s).out)
        (encode_scalar_lem print read x (write (codes ",") st) h)
      ∙ encode_more_lem xs
          (record {
            out = (st.out ++ b',' ∷ []) ++ text_of print read x;
            hex = st.hex || uses_hex x;
          })
          k
      ∙ simp append_assoc

  encode_elements_lem :
      (xs : List Scalar) (st : Stream)
      → AreReadable st.hex xs
      → (encode_elements print xs st).out ≡ st.out ++ elements_text xs
  unfolding encode_elements
  encode_elements_lem [] st h = sym (append-nil st.out)
  encode_elements_lem (x ∷ xs) st (h, k) =
      ap (λ (s : Stream). (encode_more print xs s).out) (encode_scalar_lem print read x st h)
      ∙ encode_more_lem xs
          (record { out = st.out ++ text_of print read x; hex = st.hex || uses_hex x }) k
      ∙ append_assoc st.out (text_of print read x) (more_text xs)

  pub encode_value_lem :
      (v : Value)
      → IsReadableValue v
      → (encode_value print v (record { out = []; hex = false })).out ≡ value_text v
  unfolding encode_value encode_sequence encode_tuple
  encode_value_lem (scalar_t x) h = ap (λ (s : Stream). s.out) (encode_scalar_lem print read x _ h)
  encode_value_lem (sequence_t xs) h =
      ap (λ o. o ++ codes "]") (encode_elements_lem xs (record { out = codes "["; hex = false }) h)
  encode_value_lem (tuple_t xs) h =
      ap (λ o. o ++ codes "}") (encode_elements_lem xs (record { out = codes "{"; hex = false }) h)

  abbrev pub lexeme : Scalar → Lexeme
  lexeme x = record { kind = number (kind x); text = text_of print read x }

  abbrev pub more_lexemes : List Scalar → List Lexeme
  more_lexemes [] = []
  more_lexemes (x ∷ xs) = mark b',' ∷ lexeme x ∷ more_lexemes xs

  abbrev pub element_lexemes : List Scalar → List Lexeme
  element_lexemes [] = []
  element_lexemes (x ∷ xs) = lexeme x ∷ more_lexemes xs

  abbrev pub value_lexemes : Value → List Lexeme
  value_lexemes (scalar_t x) = lexeme x ∷ []
  value_lexemes (sequence_t xs) = mark b'[' ∷ (element_lexemes xs ++ mark b']' ∷ [])
  value_lexemes (tuple_t xs) = mark b'{' ∷ (element_lexemes xs ++ mark b'}' ∷ [])

  begins :
      (x : Scalar) (hex : Bool) (rest : Bytes)
      → IsReadable hex x
      → BeginsWithByte (text_of print read x ++ rest)
  begins (boolean_t true) hex rest h = omega arith
  begins (boolean_t false) hex rest h = omega arith
  begins (integer_t i) hex rest h = integer_begins i rest
  begins (real_t r) hex rest h = absurd h
  begins (string_t s) hex rest h = omega arith
  begins (binary_t s) hex rest h = omega arith

  scalar_run :
      (x : Scalar) (hex : Bool)
      → AreInverse print read
      → IsReadable hex x
      → state_after 0 (text_of print read x) ≡ some (end_state (kind x))
  unfolding base64_encode
  scalar_run (boolean_t b) hex i h = boolean-run b
  scalar_run (integer_t n) hex i h = print_decimal-run n
  scalar_run (real_t r) hex i h = absurd h
  scalar_run (string_t s) hex i h = string-run s h
  scalar_run (binary_t s) hex i h =
      binary-run (base64_encode print.sextets s)
        (base64_append (print.sextets s) (pad s) (i.alphabet s h))

  text_length : (x : Scalar) (hex : Bool) → IsReadable hex x → 0 < length (text_of print read x)
  unfolding print_decimal
  text_length (boolean_t true) hex h = omega arith
  text_length (boolean_t false) hex h = omega arith
  text_length (integer_t (pos n)) hex h = digits_length (decimal n) (decimal-ne_empty n)
  text_length (integer_t (negsuc n)) hex h = omega arith
  text_length (real_t r) hex h = absurd h
  text_length (string_t s) hex h = omega arith
  text_length (binary_t s) hex h = omega arith

  no_blank : (x : Scalar) (hex : Bool) → IsReadable hex x → Stops 1 (text_of print read x)
  unfolding print_decimal
  no_blank (boolean_t true) hex h = begin_no_blank b'#' (inl refl)
  no_blank (boolean_t false) hex h = begin_no_blank b'#' (inl refl)
  no_blank (integer_t (pos n)) hex h = digits_no_blank (decimal n) (decimal_digits n)
  no_blank (integer_t (negsuc n)) hex h = begin_no_blank b'-' (inr (inl refl))
  no_blank (real_t r) hex h = absurd h
  no_blank (string_t s) hex h = begin_no_blank b'"' (inr (inr (inl refl)))
  no_blank (binary_t s) hex h = begin_no_blank b'&' (inr (inr (inr (inl refl))))

  -- No value begins with a blank.
  pub value_no_blank : (v : Value) → IsReadableValue v → Stops 1 (value_text v)
  value_no_blank (scalar_t x) h = no_blank x false h
  value_no_blank (sequence_t xs) h = begin_no_blank b'[' (inr (inr (inr (inr (inl refl)))))
  value_no_blank (tuple_t xs) h = begin_no_blank b'{' (inr (inr (inr (inr (inr refl)))))

  -- The scanner reads a scalar.
  scalar_lex :
      (x : Scalar) (hex : Bool) (s : Scanner) (rest : Bytes)
      → AreInverse print read
      → IsReadable hex x
      → IsDelimited rest
      → Offers s.input (text_of print read x ++ rest)
      → Returned (lex s) (pos (number (kind x))) (text_of print read x) rest
  scalar_lex x hex s rest i h d r =
      lex-offered (text_of print read x) (end_state (kind x)) (end_rule (kind x)) s rest
        (pos (number (kind x))) (scalar_run x hex i h) (rule_of_end (kind x))
        (Stops_lem (kind x) rest d) r (text_length x hex h)
        (execute_end (kind x) (text_of print read x))

  mark_lex :
      (c : ℕ) (s : Scanner) (rest : Bytes)
      → (c ≡ b',') ⊎ (c ≡ b'[') ⊎ (c ≡ b']') ⊎ (c ≡ b'{') ⊎ (c ≡ b'}')
      → BeginsWithByte rest
      → Offers s.input (c ∷ rest)
      → Returned (lex s) (pos c) (c ∷ []) rest
  mark_lex c s rest m b r =
      let (x, y, z) = mark_run c m in
      lex-offered (c ∷ []) 2 6 s rest (pos c) x y (mark-Stops rest b) r (omega arith) z

  end-Tokens : (s : Scanner) → Reads s.input [] → Tokens read s []
  end-Tokens s r = let (s', e) = lex-end s r in (pos 0, s', e, token_of_end)

  closing-Tokens :
      (c : ℕ) (s : Scanner) → IsClosing c → Reads s.input (c ∷ []) → Tokens read s (mark c ∷ [])
  closing-Tokens c s (inl z) r =
      let (s', e, m, r') = mark_lex c s [] (inr (inr (inl z))) tt (inl r) in
      (s', e, m, omega (arith, z), omega (arith, z), end-Tokens s' r')
  closing-Tokens c s (inr z) r =
      let (s', e, m, r') = mark_lex c s [] (inr (inr (inr (inr z)))) tt (inl r) in
      (s', e, m, omega (arith, z), omega (arith, z), end-Tokens s' r')

  more-IsDelimited : (xs : List Scalar) (c : ℕ) → IsClosing c → IsDelimited (more_text xs ++ c ∷ [])
  more-IsDelimited [] c z = inr z
  more-IsDelimited (x ∷ xs) c z = inl refl

  -- The scanner reads a scalar, and the rest as these tokens.
  scalar-Tokens :
      (x : Scalar) (hex : Bool) (s : Scanner) (rest : Bytes) (ts : List Lexeme)
      → AreInverse print read
      → IsReadable hex x
      → IsDelimited rest
      → Offers s.input (text_of print read x ++ rest)
      → ((s' : Scanner) → Reads s'.input rest → Tokens read s' ts)
      → Tokens read s (lexeme x ∷ ts)
  scalar-Tokens x hex s rest ts i h d r k =
      let (s', e, m, r') = scalar_lex x hex s rest i h d r in
      let (z, l) = number_bounds (kind x) in (s', e, m, z, l, k s' r')

  more-Tokens :
      (xs : List Scalar) (hex : Bool) (c : ℕ) (s : Scanner)
      → AreInverse print read
      → AreReadable hex xs
      → IsClosing c
      → Reads s.input (more_text xs ++ c ∷ [])
      → Tokens read s (more_lexemes xs ++ mark c ∷ [])
  more-Tokens [] hex c s i h z r = closing-Tokens c s z r
  more-Tokens (x ∷ xs) hex c s i (h, k) z r =
      let rest = more_text xs ++ c ∷ [] in
      let a : (text_of print read x ++ more_text xs) ++ c ∷ [] ≡ text_of print read x ++ rest =
        append_assoc (text_of print read x) (more_text xs) (c ∷ []) in
      let (s', e, m, r') =
        mark_lex b',' s (text_of print read x ++ rest) (inl refl) (begins x hex rest h)
          (inl (subst (λ t. Reads s.input (b',' ∷ t)) a r)) in
      (
        s',
        e,
        m,
        omega arith,
        omega arith,
        scalar-Tokens x hex s' rest (more_lexemes xs ++ mark c ∷ []) i h (more-IsDelimited xs c z)
            (inl r') (λ s'' r''. more-Tokens xs (hex || uses_hex x) c s'' i k z r''),
      )

  element-Tokens :
      (xs : List Scalar) (hex : Bool) (c : ℕ) (s : Scanner)
      → AreInverse print read
      → AreReadable hex xs
      → IsClosing c
      → Reads s.input (elements_text xs ++ c ∷ [])
      → Tokens read s (element_lexemes xs ++ mark c ∷ [])
  element-Tokens [] hex c s i h z r = closing-Tokens c s z r
  element-Tokens (x ∷ xs) hex c s i (h, k) z r =
      let rest = more_text xs ++ c ∷ [] in
      scalar-Tokens x hex s rest (more_lexemes xs ++ mark c ∷ []) i h (more-IsDelimited xs c z)
        (inl (
          subst (λ t. Reads s.input t) (append_assoc (text_of print read x) (more_text xs) (c ∷ []))
            r))
        (λ s'' r''. more-Tokens xs (hex || uses_hex x) c s'' i k z r'')

  elements_begin :
      (xs : List Scalar) (hex : Bool) (c : ℕ)
      → AreReadable hex xs
      → IsClosing c
      → BeginsWithByte (elements_text xs ++ c ∷ [])
  elements_begin [] hex c h (inl z) = omega (arith, z)
  elements_begin [] hex c h (inr z) = omega (arith, z)
  elements_begin (x ∷ xs) hex c (h, k) z =
      subst BeginsWithByte (sym (append_assoc (text_of print read x) (more_text xs) (c ∷ [])))
        (begins x hex (more_text xs ++ c ∷ []) h)

  -- The scanner reads the text of a value as the tokens of the value.
  pub value-Tokens :
      (v : Value) (s : Scanner)
      → AreInverse print read
      → IsReadableValue v
      → Offers s.input (value_text v)
      → Tokens read s (value_lexemes v)
  value-Tokens (scalar_t x) s i h r =
      scalar-Tokens x false s [] [] i h tt
        (subst (λ t. Offers s.input t) (sym (append-nil (text_of print read x))) r) end-Tokens
  value-Tokens (sequence_t xs) s i h r =
      let (s', e, m, r') =
        mark_lex b'[' s (elements_text xs ++ b']' ∷ []) (inr (inl refl))
          (elements_begin xs false b']' h (inl refl)) r in
      (s', e, m, omega arith, omega arith, element-Tokens xs false b']' s' i h (inl refl) r')
  value-Tokens (tuple_t xs) s i h r =
      let (s', e, m, r') =
        mark_lex b'{' s (elements_text xs ++ b'}' ∷ []) (inr (inr (inr (inl refl))))
          (elements_begin xs false b'}' h (inr refl)) r in
      (s', e, m, omega arith, omega arith, element-Tokens xs false b'}' s' i h (inr refl) r')
