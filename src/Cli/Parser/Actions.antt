-- ===== src/Cli/Parser/Actions.antt =====
-- The members and the semantic actions of the parser, src/cli/parse.cpp and src/cli/parserbase.h. A
-- semantic value is shared by no two places that are both read after one of them has been changed, so
-- the stack holds the values themselves. The counts of tokens and of errors, which nothing reads, are
-- left out.
use de_co_f.Base.{
  ℕ, zero, suc, false, Option, none, some, List, [], ◌∷◌, ◌++◌, ◌==◌, ltb, if◌then◌else◌, length,
  drop, Bytes,
}
use de_co_f.Types.{Scalar, boolean_t, Value, scalar_t, sequence_t, tuple_t}
use de_co_f.Types.Errors.{parse_error}
use de_co_f.Except.{Except, ok, err, out_of_range, other_exception, fault}
use de_co_f.Cli.Parser.Tables.{Token, undetermined, end_of_input, token, production_info}
use de_co_f.Cli.Parser.Scalars.{Readers, read_scalar}

-- `SType`: a null pointer, or a value with its tag.
pub data Semantic : Type 0 where
  null_value : Semantic
  scl : Scalar → Semantic
  seq : List Scalar → Semantic

-- `data<Tag__::SCL>()` and `data<Tag__::SEQ>()`; `none` is undefined.
unfoldable pub data_scl : Semantic → Option Scalar
data_scl (scl x) = some x
data_scl _ = none

unfoldable pub data_seq : Semantic → Option (List Scalar)
data_seq (seq xs) = some xs
data_seq _ = none

-- `get<Tag__::SEQ>()`, which makes an empty one where there is none.
unfoldable pub get_seq : Semantic → List Scalar
get_seq (seq xs) = xs
get_seq _ = []

-- The members of the parser; the head of the stack is its top. `vsp` is the head of the stack.
pub record Parser (S : Type 0) : Type 0 where
  pub stack : List (ℕ × Semantic)
  pub state : ℕ
  pub cur_token : Token
  pub saved_token : Token
  pub val : Semantic
  pub saved_val : Semantic
  pub scanner : S
  pub result : Value

-- How `parse` ends: it returns 0 or 1 with `result_`, an exception leaves it, or it is undefined.
pub data Outcome : Type 0 where
  accepted : Value → Outcome
  aborted : Value → Outcome
  thrown : Outcome
  undefined : Outcome

-- The default of `result_`.
abbrev pub default_value : Value
default_value = scalar_t (boolean_t false)

abbrev pub top_state : List (ℕ × Semantic) → ℕ
top_state [] = 0
top_state ((n, v) ∷ stack) = n

abbrev pub value_at : ℕ → List (ℕ × Semantic) → Semantic
value_at n [] = null_value
value_at zero ((s, v) ∷ stack) = v
value_at (suc n) (x ∷ stack) = value_at n stack

-- The function try block: every std::exception becomes a parse_error.
abbrev pub handled : {A : Type 0} → Except A → Except A
handled (ok a) = ok a
handled (err e) = err parse_error
handled out_of_range = err parse_error
handled other_exception = err parse_error
handled fault = fault

module _ {S : Type 0} where
  unfoldable pub new_parser : S → Parser S
  new_parser s = record {
    stack = [];
    state = 0;
    cur_token = undetermined;
    saved_token = undetermined;
    val = null_value;
    saved_val = null_value;
    scanner = s;
    result = default_value;
  }

  -- `push__`.
  unfoldable pub push : ℕ → Parser S → Parser S
  push n p = record p { stack = (n, p.val) ∷ p.stack; state = n }

  -- `clearin`.
  unfoldable pub clearin : Parser S → Parser S
  clearin p = record p { cur_token = undetermined; saved_token = undetermined }

  -- `popToken__`.
  unfoldable pub pop_token : Parser S → Parser S
  pop_token p = record p {
    cur_token = p.saved_token;
    val = p.saved_val;
    saved_val = null_value;
    saved_token = undetermined;
  }

  -- `pushToken__`.
  unfoldable pub push_token : Token → Parser S → Parser S
  push_token t p = record p { saved_token = p.cur_token; saved_val = p.val; cur_token = t }

  -- `pop__`; `none` is ABORT.
  unfoldable pub pop : ℕ → Parser S → Option (Parser S)
  pop count p =
      if ltb count (length p.stack)
      then some (record p { stack = drop count p.stack; state = top_state (drop count p.stack) })
      else none

  -- `reduce__`.
  unfoldable pub reduce_by : ℕ → Parser S → Option (Parser S)
  unfolding pop production_info
  reduce_by production p =
      let (non_term, size) = production_info production in
      pop size (record p { cur_token = token non_term })

  abbrev pub with_scalar : (Scalar → Parser S) → Except Scalar → Except (Parser S)
  with_scalar f (ok x) = ok (f x)
  with_scalar f (err e) = err e
  with_scalar f out_of_range = out_of_range
  with_scalar f other_exception = other_exception
  with_scalar f fault = fault

  abbrev pub defined : {A : Type 0} → (A → Parser S) → Option A → Except (Parser S)
  defined f none = fault
  defined f (some x) = ok (f x)

  -- `d_val__.get<Tag__::SCL>() = x`, of what reading the text has given.
  abbrev pub set_scalar : Parser S → Except Scalar → Except (Parser S)
  set_scalar p = with_scalar (λ x. record p { val = scl x })

  -- `d_val__.get<Tag__::SEQ>().swap(...)`, as far as what is swapped out is never read.
  abbrev pub swap_seq : Parser S → Semantic → Except (Parser S)
  swap_seq p v = defined (λ xs. record p { val = seq xs }) (data_seq v)

  abbrev pub append_scalar : Parser S → Option (List Scalar) → Option Scalar → Except (Parser S)
  append_scalar p (some xs) (some x) = ok (record p { val = seq (xs ++ x ∷ []) })
  append_scalar p _ _ = fault

  -- Case 12: `$1.push_back($3)`, which is `$$` then.
  abbrev pub append_series : Parser S → Except (Parser S)
  append_series p = append_scalar p (data_seq (value_at 2 p.stack)) (data_scl (value_at 0 p.stack))

  abbrev pub result_seq : (List Scalar → Value) → Parser S → Except (Parser S)
  result_seq f p = defined (λ xs. record p { result = f xs }) (data_seq (value_at 0 p.stack))

  abbrev pub result_scl : Parser S → Except (Parser S)
  result_scl p = defined (λ x. record p { result = scalar_t x }) (data_scl (value_at 0 p.stack))

  -- The switch.
  unfoldable pub run_production : Readers → ℕ → Bytes → Parser S → Except (Parser S)
  unfolding data_scl data_seq get_seq read_scalar
  run_production lib production matched p =
      if production == 1
      then result_scl p
      else if production == 2
      then result_seq sequence_t p
      else if production == 3
      then result_seq tuple_t p
      else if ltb production 9
      then set_scalar p (read_scalar lib production matched)
      else if production == 9
      then ok (record p { val = seq (get_seq p.val) })
      else if production == 10
      then swap_seq p (value_at 0 p.stack)
      else if production == 11
      then append_scalar p (some []) (data_scl (value_at 0 p.stack))
      else if production == 12
      then append_series p
      else if ltb production 15
      then swap_seq p (value_at 1 p.stack)
      else ok p

  -- A token that is there already is saved.
  unfoldable pub save_token : Parser S → Parser S
  unfolding push_token
  save_token p = elim p.cur_token [
    | undetermined ↦ p
    | end_of_input ↦ push_token end_of_input p
    | token n ↦ push_token (token n) p
  ]

  abbrev pub set_default : ℕ → Parser S → Parser S
  set_default zero p = p
  set_default (suc n) p = record p { val = value_at n p.stack }

  -- `executeAction`, on what the scanner has matched.
  unfoldable pub execute_action : Readers → Bytes → ℕ → Parser S → Except (Parser S)
  unfolding run_production production_info save_token
  execute_action lib matched production p =
      let q = set_default (production_info production).1 (save_token p) in
      handled (run_production lib production matched q)
