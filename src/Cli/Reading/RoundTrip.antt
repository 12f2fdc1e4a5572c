-- ===== src/Cli/Reading/RoundTrip.antt =====
-- The values that src/cli/encoder.cpp writes, read back by src/cli/parse.cpp and src/cli/lex.cpp.
use de_co_f.Base.{
  ℕ, ◌+◌, ◌*◌, ◌≡◌, inl, inr, refl, ap, sym, ◌∙◌, Bool, false, ◌||◌, none, some, List, [], ◌∷◌,
  ◌++◌, arith, append_assoc, append-nil, Bytes, length, ◌==◌,
}
use de_co_f.Types.{Scalar, Value, scalar_t, sequence_t, tuple_t}
use de_co_f.Except.{ok}
use de_co_f.Cli.Encoder.{Printers, encode_value}
use de_co_f.Cli.Scanner.{lex, new_scanner}
use de_co_f.Cli.Scanner.Longest.{Offers}
use de_co_f.Cli.Scanner.Matches.{Reads}
use de_co_f.Cli.Parser.Scalars.{Readers}
use de_co_f.Cli.Parser.Actions.{accepted}
use de_co_f.Cli.Parser.Grammar.{
  ScalarKind, boolean, integer, real, string, binary, number, kind_of, Lexeme, scalar, listed,
  more_elements, elements, expression, closed, single,
}
use de_co_f.Cli.Parser.Equivalence.{parse-expression}
use de_co_f.Cli.Reading.{matched, parse_value, value_of, Tokens-length, new_remaining}
use de_co_f.Cli.Reading.Printed.{AreInverse, kind, uses_hex, IsReadable, read_scalar-text_of}
use de_co_f.Cli.Reading.Scanned.{
  AreReadable, IsReadableValue, mark, lexeme, more_lexemes, element_lexemes, value_lexemes,
  value_text, value-Tokens, value_no_blank, encode_value_lem,
}

kind_of-number : (k : ScalarKind) → kind_of (number k) ≡ some k
unfolding kind_of
kind_of-number boolean = refl
kind_of-number integer = refl
kind_of-number real = refl
kind_of-number string = refl
kind_of-number binary = refl

scalar-mark : (read : Readers) (c : ℕ) → kind_of c ≡ none → scalar read (mark c) ≡ none
unfolding scalar
scalar-mark read c e = rw (scalar, e) refl

single_lem :
    (read : Readers) (k : ScalarKind) (x : Lexeme)
    → x.kind ≡ number k
    → expression read (x ∷ []) ≡ single (scalar read x) []
unfolding expression
single_lem read boolean x e = ground arith
single_lem read integer x e = ground arith
single_lem read real x e = ground arith
single_lem read string x e = ground arith
single_lem read binary x e = ground arith

module _ (print : Printers) (read : Readers) where
  scalar-lexeme :
      (x : Scalar) (hex : Bool)
      → AreInverse print read
      → IsReadable hex x
      → scalar read (lexeme print read x) ≡ some (ok x)
  unfolding scalar
  scalar-lexeme x hex i h =
      rw (scalar, kind_of-number (kind x)) (ap some (read_scalar-text_of print read x hex i h))

  more-lexemes :
      (xs vs : List Scalar) (hex : Bool) (c : ℕ)
      → AreInverse print read
      → AreReadable hex xs
      → (c == b',') ≡ false
      → more_elements read vs (more_lexemes print read xs ++ mark c ∷ [])
        ≡ listed (vs ++ xs) (mark c ∷ [])
  unfolding more_elements
  more-lexemes [] vs hex c i h z =
      rw (more_elements, z) (ap (λ (l : List Scalar). listed l (mark c ∷ [])) (sym (append-nil vs)))
  more-lexemes (x ∷ xs) vs hex c i (h, k) z =
      rw (more_elements, scalar-lexeme x hex i h)
        (more-lexemes xs (vs ++ x ∷ []) (hex || uses_hex x) c i k z
          ∙ ap (λ (l : List Scalar). listed l (mark c ∷ [])) (append_assoc vs (x ∷ []) xs))

  elements-lexemes :
      (xs : List Scalar) (hex : Bool) (c : ℕ)
      → AreInverse print read
      → AreReadable hex xs
      → (c == b',') ≡ false
      → scalar read (mark c) ≡ none
      → elements read (element_lexemes print read xs ++ mark c ∷ []) ≡ listed xs (mark c ∷ [])
  unfolding elements
  elements-lexemes [] hex c i h z n = rw (elements, n) refl
  elements-lexemes (x ∷ xs) hex c i (h, k) z n =
      rw (elements, scalar-lexeme x hex i h) (more-lexemes xs (x ∷ []) (hex || uses_hex x) c i k z)

  -- The grammar gives the value of its tokens.
  expression-lexemes :
      (v : Value)
      → AreInverse print read
      → IsReadableValue v
      → expression read (value_lexemes print read v) ≡ accepted v
  unfolding expression
  expression-lexemes (scalar_t x) i h =
      single_lem read (kind x) (lexeme print read x) refl
      ∙ ap (λ o. single o []) (scalar-lexeme x false i h)
  expression-lexemes (sequence_t xs) i h =
      ap (closed b']' sequence_t)
        (elements-lexemes xs false b']' i h refl (scalar-mark read b']' refl))
  expression-lexemes (tuple_t xs) i h =
      ap (closed b'}' tuple_t)
        (elements-lexemes xs false b'}' i h refl (scalar-mark read b'}' refl))

  start_Reads : (s : Bytes) → Reads (new_scanner s).input s
  unfolding new_scanner
  start_Reads s = (s, refl, refl)

  -- A text that offers that of a value is read as the value.
  read_text :
      (v : Value) (s : Bytes)
      → AreInverse print read
      → IsReadableValue v
      → Offers (new_scanner s).input (value_text print read v)
      → parse_value read s ≡ ok v
  unfolding parse_value
  read_text v s i h r =
      let ts = value_lexemes print read v in
      let tokens = value-Tokens print read v (new_scanner s) i h r in
      let l = Tokens-length read ts (new_scanner s) tokens in
      ap value_of (
        parse-expression read lex matched ts (new_scanner s) (4 * length s + 16) tokens
          (omega (arith, l, new_remaining read s))
        ∙ ap some (expression-lexemes v i h))

  -- Let `stoi` read decimal ints back, and Boost's iterators the base64 they write. Then a value that the
  -- encoder writes, of any type and with any elements but doubles, is read back by the scanner and the
  -- parser, behind a blank or not, if its integers are ints and stand behind no string that sets the
  -- stream's base.
  pub parse_value-encode_value :
      (v : Value)
      → AreInverse print read
      → IsReadableValue v
      → let text = (encode_value print v (record { out = []; hex = false })).out in
        (parse_value read text ≡ ok v) × (parse_value read (b' ' ∷ text) ≡ ok v)
  parse_value-encode_value v i h =
      let e = encode_value_lem print read v h in
      (
        ap (parse_value read) e
            ∙ read_text v (value_text print read v) i h
                (inl (start_Reads (value_text print read v))),
        ap (λ s. parse_value read (b' ' ∷ s)) e
            ∙ read_text v (b' ' ∷ value_text print read v) i h
                (inr (start_Reads (b' ' ∷ value_text print read v), value_no_blank print read v h)),
      )
