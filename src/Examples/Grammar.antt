-- ===== src/Examples/Grammar.antt =====
-- The theorems on the scanner and the parser of values, with a printer and a reader of base64 that count.
use de_co_f.Base.{
  ℕ, zero, suc, ◌+◌, ◌<◌, ◌≡◌, inr, refl, ap, ◌∙◌, sym, subst, true, false, Option, none, some,
  List, [], ◌∷◌, ◌++◌, append_assoc, arith, Bytes, All, codes, ◌==◌, if◌then◌else◌, bytes_eq, ltb,
  Bool-cases, inl, ◌^◌,
}
use de_co_f.Base.Decimal.{decimal, read_decimal, read_decimal-decimal, is_digit, decimal_digits}
use de_co_f.Types.{
  ℤ, pos, negsuc, Value, scalar_t, sequence_t, tuple_t, boolean_t, integer_t, string_t, binary_t,
}
use de_co_f.Except.{Except, ok, err, out_of_range, other_exception, fault}
use de_co_f.Access.Authorization.{MayWrite}
use de_co_f.Visitor.{string_tag}
use de_co_f.Cli.Encoder.{
  Printers, write, encode_value, encode_scalar, encode_integer, print_decimal,
}
use de_co_f.Cli.Words.{is_space, to_lower, strip_quote}
use de_co_f.Cli.Words.Reading.{IsWord, word}
use de_co_f.Cli.Commands.{Callbacks, fresh, process_request}
use de_co_f.Cli.Commands.Requests.{Answered}
use de_co_f.Cli.Scanner.{lex, new_scanner, execute_rule}
use de_co_f.Cli.Scanner.Characters.{remaining}
use de_co_f.Cli.Scanner.Progress.{Returns, lex-Returns}
use de_co_f.Cli.Scanner.Longest.{Returned, lex-offered}
use de_co_f.Cli.Scanner.Tables.{transition, rule_of, range_of}
use de_co_f.Cli.Parser.Scalars.{Readers, read_scalar}
use de_co_f.Cli.Parser.Actions.{aborted}
use de_co_f.Cli.Parser.Automaton.{parse, token_of}
use de_co_f.Cli.Parser.Grammar.{Lexeme, expression, scalar}
use de_co_f.Cli.Parser.Equivalence.{parse-expression}
use de_co_f.Cli.Reading.{matched, parse_value, Tokens, parse-total, parse_value_trailing}
use de_co_f.Cli.Reading.Printed.{AreInverse, IsDigit64, FitsInt, repeat, pad}
use de_co_f.Cli.Reading.Scanned.{IsReadableValue}
use de_co_f.Cli.Reading.Typed.{IsTypedValue, parse_value-IsTyped}
use de_co_f.Cli.Reading.RoundTrip.{parse_value-encode_value}
use de_co_f.Cli.Reading.Requests.{process_request-encode_value}
use de_co_f.Tree.Lookup.{find_child, find_descendant_object}
use de_co_f.Examples.Data.{tree, device, client}

-- A byte as so many letters and a last one.
abbrev letters : Bytes → Bytes
letters [] = []
letters (c ∷ cs) = repeat b'B' c ++ (b'C' ∷ letters cs)

abbrev unletters : ℕ → Bytes → Bytes
unletters n [] = []
unletters n (c ∷ cs) =
    if c == b'A'
    then 0 ∷ unletters 0 cs
    else if c == b'B'
    then unletters (suc n) cs
    else n ∷ unletters 0 cs

unletters_lem :
    (m n : ℕ) (rest : Bytes)
    → unletters n (repeat b'B' m ++ (b'C' ∷ rest)) ≡ (m + n) ∷ unletters 0 rest
unletters_lem zero n rest = let e : n ≡ 0 + n = omega arith in ap (λ x. x ∷ unletters 0 rest) e
unletters_lem (suc m) n rest =
    let e : m + suc n ≡ suc m + n = omega arith in
    unletters_lem m (suc n) rest ∙ ap (λ x. x ∷ unletters 0 rest) e

unletters-repeat : (n : ℕ) → unletters 0 (repeat b'A' n) ≡ repeat 0 n
unletters-repeat zero = refl
unletters-repeat (suc n) = ap (λ x. 0 ∷ x) (unletters-repeat n)

unletters-letters : (s : Bytes) (n : ℕ) → unletters 0 (letters s ++ repeat b'A' n) ≡ s ++ repeat 0 n
unletters-letters [] n = unletters-repeat n
unletters-letters (c ∷ s) n =
    let e : c + 0 ≡ c = omega arith in
    ap (unletters 0) (append_assoc (repeat b'B' c) (b'C' ∷ letters s) (repeat b'A' n))
    ∙ unletters_lem c 0 (letters s ++ repeat b'A' n)
    ∙ ap (λ x. x ∷ unletters 0 (letters s ++ repeat b'A' n)) e
    ∙ ap (λ x. c ∷ x) (unletters-letters s n)

letters_lem :
    (m : ℕ) (rest : Bytes) → All IsDigit64 rest → All IsDigit64 (repeat b'B' m ++ (b'C' ∷ rest))
letters_lem zero rest h = ((refl, refl), h)
letters_lem (suc m) rest h = ((refl, refl), letters_lem m rest h)

letters_digits : (s : Bytes) → All (λ c. c < 256) s → All IsDigit64 (letters s)
letters_digits [] h = tt
letters_digits (c ∷ s) (l, h) = letters_lem c (letters s) (letters_digits s h)

abbrev negated : Option ℕ → Except ℤ
negated none = other_exception
negated (some zero) = ok (pos 0)
negated (some (suc n)) = ok (negsuc n)

abbrev positive : Option ℕ → Except ℤ
positive none = other_exception
positive (some n) = ok (pos n)

abbrev read_int : Bytes → Except ℤ
read_int [] = other_exception
read_int (c ∷ cs) =
    if c == b'-' then negated (read_decimal cs) else positive (read_decimal (c ∷ cs))

read_digits :
    (s : Bytes)
    → All (λ c. is_digit c ≡ true) s
    → (n : ℕ) → read_decimal s ≡ some n
    → read_int s ≡ ok (pos n)
unfolding read_decimal
read_digits [] h n e = absurd (let e' = sym e in cc)
read_digits (c ∷ cs) (d, h) n e = let f : (c == b'-') ≡ false = ground arith in rw f (ap positive e)

read_int-print_decimal : (i : ℤ) → FitsInt i → read_int (print_decimal i) ≡ ok i
unfolding print_decimal
read_int-print_decimal (pos n) h =
    read_digits (decimal n) (decimal_digits n) n (read_decimal-decimal n (omega arith))
read_int-print_decimal (negsuc n) h = ap negated (read_decimal-decimal (suc n) (omega arith))

abbrev print : Printers
print = record { print_real = decimal; sextets = letters }

abbrev read : Readers
read = record { stoi = read_int; stod = λ s. ok 0; octets = λ s. ok (unletters 0 s) }

inverse : AreInverse print read
inverse = record {
  stoi_decimal = read_int-print_decimal;
  alphabet = letters_digits;
  octets_sextets = λ s h. ap ok (unletters-letters s (pad s));
}

abbrev values : Value
values =
    sequence_t
      (integer_t (negsuc 11) ∷ boolean_t true ∷ binary_t (0 ∷ 2 ∷ []) ∷ string_t (codes "a\"") ∷ [])

values-IsReadable : IsReadableValue values
values-IsReadable = (
  (refl, omega arith),
  (tt, ((omega arith, (omega arith, tt)), ((omega arith, (omega arith, tt)), tt))),
)

parse_value-encode_value_example :
    let text = (encode_value print values (record { out = []; hex = false })).out in
    (parse_value read text ≡ ok values) × (parse_value read (b' ' ∷ text) ≡ ok values)
parse_value-encode_value_example =
    parse_value-encode_value print read values inverse values-IsReadable

abbrev one_two : List Lexeme
one_two = record { kind = 258; text = codes "1" } ∷ record { kind = 258; text = codes "2" } ∷ []

one_two-Tokens : Tokens read (new_scanner (codes "1 2")) one_two
unfolding new_scanner lex token_of rule_of transition range_of
one_two-Tokens = (
  _,
  refl,
  refl,
  omega arith,
  omega arith,
  (_, refl, refl, omega arith, omega arith, (_, _, refl, refl)),
)

parse-expression_example :
    parse read lex matched 24 (new_scanner (codes "1 2")) ≡ some (expression read one_two)
parse-expression_example =
    parse-expression read lex matched one_two (new_scanner (codes "1 2")) 24 one_two-Tokens
      (omega arith)

one_scalar : scalar read (record { kind = 258; text = codes "1" }) ≡ some (ok (integer_t (pos 1)))
unfolding scalar read_decimal read_scalar
one_scalar = refl

parse_value_trailing_example :
    (parse read lex matched 28 (new_scanner (codes "1 2"))
      ≡ some (aborted (scalar_t (integer_t (pos 1)))))
    × (parse_value read (codes "1 2") ≡ ok (scalar_t (integer_t (pos 1))))
parse_value_trailing_example =
    parse_value_trailing read (codes "1 2") (record { kind = 258; text = codes "1" })
      (record { kind = 258; text = codes "2" }) [] (integer_t (pos 1)) one_two-Tokens one_scalar

lex-Returns_example :
    Returns (remaining (new_scanner (codes "\n #x")).input) (lex (new_scanner (codes "\n #x")))
lex-Returns_example = lex-Returns (new_scanner (codes "\n #x"))

parse-total_example :
    (ts : List Lexeme) × Tokens read (new_scanner (codes "[1,")) ts
    × (parse read lex matched 28 (new_scanner (codes "[1,")) ≡ some (expression read ts))
parse-total_example = parse-total read (codes "[1,")

lex-offered_example :
    Returned (lex (new_scanner (codes " -12,"))) (pos 258) (codes "-12") (codes ",")
unfolding new_scanner transition rule_of range_of execute_rule
lex-offered_example =
    lex-offered (codes "-12") 8 1 (new_scanner (codes " -12,")) (codes ",") (pos 258) refl refl
      (refl, omega arith) (inr ((codes " -12,", refl, refl), (refl, omega arith))) (omega arith)
      refl

-- A result that does not fit an int is thrown as std::out_of_range.
abbrev in_range : Except ℤ → Except ℤ
in_range (ok (pos n)) = if ltb n (2 ^ 31) then ok (pos n) else out_of_range
in_range (ok (negsuc n)) = if ltb n (2 ^ 31) then ok (negsuc n) else out_of_range
in_range e = e

ok_inj : {i j : ℤ} → ok i ≡ ok j → i ≡ j
ok_inj e = cc

in_range-FitsInt : (e : Except ℤ) (i : ℤ) → in_range e ≡ ok i → FitsInt i
in_range-FitsInt (ok (pos n)) i h = elim (Bool-cases (ltb n (2 ^ 31))) [
  | inl l ↦ let h' = rw l at h in subst FitsInt (ok_inj h') (ground arith)
  | inr l ↦ let h' = rw l at h in absurd cc
]
in_range-FitsInt (ok (negsuc n)) i h = elim (Bool-cases (ltb n (2 ^ 31))) [
  | inl l ↦ let h' = rw l at h in subst FitsInt (ok_inj h') (ground arith)
  | inr l ↦ let h' = rw l at h in absurd cc
]
in_range-FitsInt (err z) i h = absurd cc
in_range-FitsInt out_of_range i h = absurd cc
in_range-FitsInt other_exception i h = absurd cc
in_range-FitsInt fault i h = absurd cc

abbrev ranged : Readers
ranged = record { stoi = λ s. in_range (read_int s); stod = read.stod; octets = read.octets }

abbrev pair : Value
pair = tuple_t (integer_t (pos 1) ∷ integer_t (negsuc 1) ∷ [])

parse_value-IsTyped_example : IsTypedValue FitsInt pair
unfolding parse_value new_scanner lex token_of rule_of transition range_of read_decimal read_scalar
    parse
parse_value-IsTyped_example =
    parse_value-IsTyped ranged FitsInt (λ s i. in_range-FitsInt (read_int s) i) (codes "{1,-2} 3")
      pair refl

abbrev callbacks : Callbacks Value
callbacks = record {
  trim_request = λ s. s;
  trim_quotes = λ s. s;
  read_int = λ s. (pos 2, none);
  userlevel_cb = λ c ul password d. (d, ok true);
  request_cb = λ kind request d. d;
}

set_IsWord : IsWord (codes "Set")
unfolding is_space
set_IsWord = word b'S' (codes "et") refl (refl, (refl, tt))

p_IsWord : IsWord (codes "'p")
unfolding is_space
p_IsWord = word b'\'' (codes "p") refl (refl, tt)

abbrev twelve : Value
twelve = scalar_t (integer_t (pos 12))

process_request-encode_value_example :
    Answered callbacks print
      (parse_value read)
      device
      9
      (λ a. string_tag)
      tree
      0
      (MayWrite client tree 1)
      client
      (device.write 1 twelve)
      (λ _.
        write
          (codes "0" ++ 10 ∷ [])
          (fresh callbacks print (parse_value read) device 9 (λ a. string_tag) tree 0))
      twelve
      (process_request callbacks print
        (parse_value read)
        device
        9
        (λ a. string_tag)
        tree
        0
        (codes "Set 'p 12")
        client
        (record { context = none; device = twelve }))
unfolding to_lower strip_quote bytes_eq find_descendant_object find_child encode_value encode_scalar
    encode_integer print_decimal decimal
process_request-encode_value_example =
    process_request-encode_value callbacks print read device 9 (λ a. string_tag) tree 0
      (codes "Set 'p 12") (codes "Set") (codes "'p") twelve client
      (record { context = none; device = twelve }) 1 inverse (refl, omega arith) refl set_IsWord
      p_IsWord refl refl refl
