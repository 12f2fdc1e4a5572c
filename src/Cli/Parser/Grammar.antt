-- ===== src/Cli/Parser/Grammar.antt =====
-- The grammar of src/cli/grammar.bisonc++, read from left to right: what the parser of
-- src/cli/parse.cpp is compared with.
use de_co_f.Base.{
  ℕ, true, false, Option, none, some, List, [], ◌∷◌, ◌++◌, ◌==◌, if◌then◌else◌, Bytes,
}
use de_co_f.Types.{Scalar, Value, scalar_t, sequence_t, tuple_t}
use de_co_f.Except.{Except, ok, err, out_of_range, other_exception, fault}
use de_co_f.Cli.Parser.Scalars.{Readers, read_scalar}
use de_co_f.Cli.Parser.Actions.{Outcome, accepted, aborted, thrown, undefined, default_value}

-- A token and its text.
pub record Lexeme : Type 0 where
  pub kind : ℕ
  pub text : Bytes

-- The alternatives of `scalar`.
pub data ScalarKind : Type 0 where
  boolean integer real string binary : ScalarKind

abbrev pub number : ScalarKind → ℕ
number boolean = 257
number integer = 258
number real = 259
number string = 260
number binary = 261

abbrev pub production : ScalarKind → ℕ
production boolean = 4
production integer = 5
production real = 6
production string = 7
production binary = 8

unfoldable pub kind_of : ℕ → Option ScalarKind
kind_of n =
    if n == 257
    then some boolean
    else if n == 258
    then some integer
    else if n == 259
    then some real
    else if n == 260
    then some string
    else if n == 261
    then some binary
    else none

-- What a series comes to: its elements and what follows them, or how the parse ends.
pub data Series : Type 0 where
  listed : List Scalar → List Lexeme → Series
  stopped : Outcome → Series

-- Where an element is not a scalar.
abbrev pub syntax_error : Outcome
syntax_error = aborted default_value

abbrev pub failure : Except Scalar → Outcome
failure fault = undefined
failure _ = thrown

-- Nothing may follow the value; the value is set already when something does.
abbrev pub at_end : Value → List Lexeme → Outcome
at_end v [] = accepted v
at_end v (x ∷ rest) = aborted v

abbrev pub closed : ℕ → (List Scalar → Value) → Series → Outcome
closed bracket make (stopped o) = o
closed bracket make (listed vs []) = syntax_error
closed bracket make (listed vs (x ∷ rest)) =
    if x.kind == bracket then at_end (make vs) rest else syntax_error

abbrev pub single : Option (Except Scalar) → List Lexeme → Outcome
single none rest = syntax_error
single (some (ok v)) rest = at_end (scalar_t v) rest
single (some (err e)) rest = thrown
single (some out_of_range) rest = thrown
single (some other_exception) rest = thrown
single (some fault) rest = undefined

module _ (lib : Readers) where
  -- The value of a scalar; `none` for any other token.
  unfoldable pub scalar : Lexeme → Option (Except Scalar)
  unfolding kind_of
  scalar x = elim (kind_of x.kind) [
    | none ↦ none
    | some k ↦ some (read_scalar lib (production k) x.text)
  ]

  -- The elements behind the first ones: each has a comma before it.
  unfoldable pub more_elements : List Scalar → List Lexeme → Series
  unfolding scalar
  more_elements vs [] = listed vs []
  more_elements vs (c ∷ []) = if c.kind == b',' then stopped syntax_error else listed vs (c ∷ [])
  more_elements vs (c ∷ x ∷ rest) = elim (c.kind == b',') [
    | false ↦ listed vs (c ∷ x ∷ rest)
    | true ↦ elim (scalar x) [
      | none ↦ stopped syntax_error
      | some (ok v) ↦ more_elements (vs ++ v ∷ []) rest
      | some (err e) ↦ stopped thrown
      | some out_of_range ↦ stopped thrown
      | some other_exception ↦ stopped thrown
      | some fault ↦ stopped undefined
    ]
  ]

  -- `opt_series`.
  unfoldable pub elements : List Lexeme → Series
  unfolding scalar more_elements
  elements [] = listed [] []
  elements (x ∷ rest) = elim (scalar x) [
    | none ↦ listed [] (x ∷ rest)
    | some (ok v) ↦ more_elements (v ∷ []) rest
    | some (err e) ↦ stopped thrown
    | some out_of_range ↦ stopped thrown
    | some other_exception ↦ stopped thrown
    | some fault ↦ stopped undefined
  ]

  -- `expression`.
  unfoldable pub expression : List Lexeme → Outcome
  unfolding elements scalar
  expression [] = syntax_error
  expression (x ∷ rest) =
      if x.kind == b'['
      then closed b']' sequence_t (elements rest)
      else if x.kind == b'{'
      then closed b'}' tuple_t (elements rest)
      else single (scalar x) rest
