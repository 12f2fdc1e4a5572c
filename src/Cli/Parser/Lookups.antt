-- ===== src/Cli/Parser/Lookups.antt =====
-- What the tables of src/cli/parse.cpp hold for each token.
use de_co_f.Base.{ℕ, suc, ◌<◌, ◌≡◌, refl, false, none, some, ◌==◌, arith}
use de_co_f.Types.{pos}
use de_co_f.Cli.Parser.Tables.{token, same_token, shift, reduce, lookup}
use de_co_f.Cli.Parser.Automaton.{token_of}
use de_co_f.Cli.Parser.Grammar.{
  ScalarKind, boolean, integer, real, string, binary, number, production, kind_of,
}

-- The states in which a scalar may come.
pub data Place : Type 0 where
  at_start in_sequence in_tuple behind_comma : Place

abbrev pub place_state : Place → ℕ
place_state at_start = 0
place_state in_sequence = 10
place_state in_tuple = 11
place_state behind_comma = 17

-- The state behind the scalar.
abbrev pub scalar_state : Place → ℕ
scalar_state at_start = 2
scalar_state in_sequence = 14
scalar_state in_tuple = 14
scalar_state behind_comma = 19

pub kind_of_lem : (n : ℕ) (k : ScalarKind) → kind_of n ≡ some k → n ≡ number k
unfolding kind_of
kind_of_lem n boolean h = ground arith
kind_of_lem n integer h = ground arith
kind_of_lem n real h = ground arith
kind_of_lem n string h = ground arith
kind_of_lem n binary h = ground arith

pub lookup-start :
    (n : ℕ)
    → n < 262
    → kind_of n ≡ none
    → (n == 91) ≡ false
    → (n == 123) ≡ false
    → lookup (token n) 0 ≡ none
unfolding lookup same_token kind_of
lookup-start n l h a b = ground arith

pub lookup-comma : (n : ℕ) → n < 262 → kind_of n ≡ none → lookup (token n) 17 ≡ none
unfolding lookup same_token kind_of
lookup-comma n l h = ground arith

pub lookup-sequence : (n : ℕ) → n < 262 → kind_of n ≡ none → lookup (token n) 10 ≡ some (reduce 9)
unfolding lookup same_token kind_of
lookup-sequence n l h = ground arith

pub lookup-tuple : (n : ℕ) → n < 262 → kind_of n ≡ none → lookup (token n) 11 ≡ some (reduce 9)
unfolding lookup same_token kind_of
lookup-tuple n l h = ground arith

pub lookup-series : (n : ℕ) → (n == 44) ≡ false → lookup (token n) 13 ≡ some (reduce 10)
unfolding lookup same_token
lookup-series n h = ground arith

pub lookup-scalar :
    (k : ScalarKind) (p : Place)
    → lookup (token (number k)) (place_state p) ≡ some (shift (suc (production k)))
unfolding lookup
lookup-scalar boolean at_start = refl
lookup-scalar boolean in_sequence = refl
lookup-scalar boolean in_tuple = refl
lookup-scalar boolean behind_comma = refl
lookup-scalar integer at_start = refl
lookup-scalar integer in_sequence = refl
lookup-scalar integer in_tuple = refl
lookup-scalar integer behind_comma = refl
lookup-scalar real at_start = refl
lookup-scalar real in_sequence = refl
lookup-scalar real in_tuple = refl
lookup-scalar real behind_comma = refl
lookup-scalar string at_start = refl
lookup-scalar string in_sequence = refl
lookup-scalar string in_tuple = refl
lookup-scalar string behind_comma = refl
lookup-scalar binary at_start = refl
lookup-scalar binary in_sequence = refl
lookup-scalar binary in_tuple = refl
lookup-scalar binary behind_comma = refl

pub token_of-number : (k : ScalarKind) → token_of (pos (number k)) ≡ token (number k)
unfolding token_of
token_of-number boolean = refl
token_of-number integer = refl
token_of-number real = refl
token_of-number string = refl
token_of-number binary = refl
