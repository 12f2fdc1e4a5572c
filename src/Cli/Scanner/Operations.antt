-- ===== src/Cli/Scanner/Operations.antt =====
-- What single operations of the scanner of src/cli/lex.cpp do, and its tables.
use de_co_f.Base.{
  ℕ, zero, suc, ◌+◌, ◌<◌, ◌≤◌, ◌≡◌, refl, Bool, true, false, ◌&&◌, Option, none, some, List, [],
  ◌∷◌, arith, length, Bytes,
}
use de_co_f.Cli.Scanner.{FinalData, triangle, char_text, final_of}
use de_co_f.Cli.Scanner.Characters.{
  remaining, Input, get, re_read, re_read_all, re_read_char, char_to_size,
}
use de_co_f.Cli.Scanner.Tables.{transition, rule_of, range_of_eof, Row, row, row_at, next_in, dfa}

pub triangle_lem : (a b : ℕ) → a < b → triangle a + a < triangle b
triangle_lem a zero l = absurd (omega (arith, l))
triangle_lem zero (suc b) l = omega arith
triangle_lem (suc a) (suc b) l = omega (arith, triangle_lem a b (omega (arith, l)))

get_cases :
    (pending : Bytes) (stream : Option Bytes) (n : ℕ)
    → let i : Input = record { pending = pending; stream = stream; line_nr = n } in
      (c : Option ℕ) × (j : Input) × (get i ≡ (c, j))
      × (remaining i ≡ length (char_text c) + remaining j)
unfolding get remaining
get_cases [] none n = (none, _, refl, omega arith)
get_cases [] (some []) n = (none, _, refl, omega arith)
get_cases [] (some (c ∷ cs)) n = (some c, _, refl, ground arith)
get_cases (c ∷ cs) stream n = (some c, _, refl, ground arith)

-- What `get` takes.
pub get_lem :
    (i : Input)
    → (c : Option ℕ) × (j : Input) × (get i ≡ (c, j))
      × (remaining i ≡ length (char_text c) + remaining j)
get_lem i = get_cases i.pending i.stream i.line_nr

remaining-re_read : (c : ℕ) (i : Input) → remaining (re_read c i) ≤ suc (remaining i)
unfolding re_read remaining
remaining-re_read c i = ground arith

pub remaining-re_read_all :
    (cs : Bytes) (i : Input) → remaining (re_read_all cs i) ≤ length cs + remaining i
unfolding re_read_all
remaining-re_read_all [] i = omega arith
remaining-re_read_all (c ∷ cs) i =
    omega (arith, remaining-re_read_all cs i, remaining-re_read (char_to_size c) (re_read_all cs i))

pub remaining-re_read_char :
    (c : Option ℕ) (i : Input) → remaining (re_read_char c i) ≤ length (char_text c) + remaining i
remaining-re_read_char none i = omega arith
remaining-re_read_char (some c) i = omega (arith, remaining-re_read c i)

abbrev all_rows : (Row → Bool) → List Row → Bool
all_rows p [] = true
all_rows p (r ∷ rs) = p r && all_rows p rs

row_at_lem :
    (p : Row → Bool) (rows : List Row) (n : ℕ)
    → p (row [] none) ≡ true
    → all_rows p rows ≡ true
    → p (row_at rows n) ≡ true
row_at_lem p [] n e a = e
row_at_lem p (r ∷ rs) zero e a = ground arith
row_at_lem p (r ∷ rs) (suc n) e a = row_at_lem p rs n e (ground arith)

abbrev pub is_none : Option ℕ → Bool
is_none none = true
is_none (some n) = false

pub is_none_lem : (o : Option ℕ) → is_none o ≡ true → o ≡ none
is_none_lem none e = refl
is_none_lem (some n) e = absurd cc

-- No state goes on at the end of the input.
pub transition-eof : (n : ℕ) → transition n range_of_eof ≡ none
unfolding transition
transition-eof n =
    is_none_lem (next_in (row_at dfa n).next range_of_eof)
      (row_at_lem (λ r. is_none (next_in r.next range_of_eof)) dfa n refl refl)

-- Nothing is matched in the first state.
pub rule_of_zero : rule_of 0 ≡ none
unfolding rule_of
rule_of_zero = refl

pub final_of_std : (b : Bool) (f : FinalData) → final_of b none (some f) ≡ some f
final_of_std true f = refl
final_of_std false f = refl
