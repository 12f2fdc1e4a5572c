-- ===== src/Cli/Parser/Rounds.antt =====
-- What the rounds of the parser of src/cli/parse.cpp do in its states.
use de_co_f.Base.{
  ℕ, suc, ◌≡◌, refl, ap, ◌∙◌, true, false, Option, none, some, List, [], ◌∷◌, arith, Bytes,
}
use de_co_f.Types.{ℤ, pos, Scalar, Value}
use de_co_f.Except.{Except, ok, err, out_of_range, other_exception, fault}
use de_co_f.Cli.Parser.Tables.{
  Token, undetermined, end_of_input, token, shift, reduce, lookup, state_at, needs_token,
  production_info, StateType, req_token, def_red, req_def, has_error_item,
}
use de_co_f.Cli.Parser.Scalars.{Readers, read_scalar}
use de_co_f.Cli.Parser.Actions.{
  Semantic, null_value, scl, seq, Parser, top_state, aborted, thrown, undefined, pop, reduce_by,
  execute_action, handled, set_scalar,
}
use de_co_f.Cli.Parser.Automaton.{
  token_of, Round, again, ended, parse_round, looked_up, act, executed, error_states,
  error_recovery,
}
use de_co_f.Cli.Parser.Grammar.{
  ScalarKind, boolean, integer, real, string, binary, number, production,
}
use de_co_f.Cli.Parser.Lookups.{
  place_state, scalar_state, lookup-scalar, token_of-number, Place, at_start, in_sequence, in_tuple,
  behind_comma,
}

-- A token that has been read.
pub data IsRead : Token → Type 0 where
  is_end : IsRead end_of_input
  is_token : (n : ℕ) → IsRead (token n)

module _ {S : Type 0} where
  -- A parser, by its stack, its two tokens, its value, its scanner and its result.
  abbrev pub cfg : List (ℕ × Semantic) → Token → Token → Semantic → S → Value → Parser S
  cfg stack current saved v s r = record {
    stack = stack;
    state = top_state stack;
    cur_token = current;
    saved_token = saved;
    val = v;
    saved_val = null_value;
    scanner = s;
    result = r;
  }

has_error_item_lem : (t : StateType) → has_error_item t ≡ false
unfolding has_error_item
has_error_item_lem req_token = refl
has_error_item_lem def_red = refl
has_error_item_lem req_def = refl

error_states_lem : (stack : List (ℕ × Semantic)) → error_states stack ≡ false
error_states_lem [] = refl
error_states_lem ((n, v) ∷ stack) =
    rw (has_error_item_lem (state_at n).type_of) (error_states_lem stack)

module _ {S : Type 0} (lib : Readers) (lex : S → Option (ℤ × S)) (matched : S → Bytes) where
  abbrev round : Parser S → Round S
  round = parse_round lib lex matched

  -- A state that wants a token gets it from the scanner.
  pub read_token :
      (n : ℕ) (u : Semantic) (stack : List (ℕ × Semantic)) (s s' : S) (t : ℤ) (r : Value)
      → needs_token (state_at n).type_of ≡ true
      → lex s ≡ some (t, s')
      → round (cfg ((n, u) ∷ stack) undetermined undetermined null_value s r)
        ≡ looked_up lib lex matched
            (some (cfg ((n, u) ∷ stack) (token_of t) undetermined null_value s' r))
  unfolding parse_round
  read_token n u stack s s' t r h e = rw (h, e) refl

  wants : (p : Place) → needs_token (state_at (place_state p)).type_of ≡ true
  unfolding needs_token state_at
  wants at_start = refl
  wants in_sequence = refl
  wants in_tuple = refl
  wants behind_comma = refl

  shifted :
      (k : ScalarKind) (p : Place) (u : Semantic) (stack : List (ℕ × Semantic)) (s : S) (r : Value)
      → looked_up lib lex matched (
          some (
            cfg
              ((place_state p, u) ∷ stack)
              (token_of (pos (number k)))
              undetermined
              null_value
              s
              r))
        ≡ again (
            cfg
              ((suc (production k), null_value) ∷ (place_state p, u) ∷ stack)
              undetermined
              undetermined
              null_value
              s
              r)
  unfolding looked_up act
  shifted k p u stack s r = rw (token_of-number k, lookup-scalar k p) refl

  pub shift_scalar :
      (k : ScalarKind) (p : Place) (u : Semantic) (stack : List (ℕ × Semantic)) (s s' : S)
      (r : Value)
      → lex s ≡ some (pos (number k), s')
      → round (cfg ((place_state p, u) ∷ stack) undetermined undetermined null_value s r)
        ≡ again (
            cfg
              ((suc (production k), null_value) ∷ (place_state p, u) ∷ stack)
              undetermined
              undetermined
              null_value
              s'
              r)
  shift_scalar k p u stack s s' r e =
      read_token (place_state p) u stack s s' (pos (number k)) r (wants p) e
      ∙ shifted k p u stack s' r

  -- How a scalar is reduced, by what its text reads as.
  abbrev pub after_scalar :
      Place → Semantic → List (ℕ × Semantic) → S → Value → Except Scalar → Round S
  after_scalar p u stack s r (ok v) =
      again (cfg ((place_state p, u) ∷ stack) (token 269) undetermined (scl v) s r)
  after_scalar p u stack s r (err e) = ended thrown
  after_scalar p u stack s r out_of_range = ended thrown
  after_scalar p u stack s r other_exception = ended thrown
  after_scalar p u stack s r fault = ended undefined

  -- The stack at the reduction of a scalar.
  abbrev pub reducing : ScalarKind → Place → Semantic → List (ℕ × Semantic) → S → Value → Parser S
  reducing k p u stack s r =
      cfg ((suc (production k), null_value) ∷ (place_state p, u) ∷ stack) undetermined undetermined
        null_value s r

  executed_scalar :
      (k : ScalarKind) (p : Place) (u : Semantic) (stack : List (ℕ × Semantic)) (s : S) (r : Value)
      → round (reducing k p u stack s r)
        ≡ executed lib lex matched (production k) (
            handled
              (set_scalar (reducing k p u stack s r) (read_scalar lib (production k) (matched s))))
  unfolding parse_round state_at
  executed_scalar boolean p u stack s r = refl
  executed_scalar integer p u stack s r = refl
  executed_scalar real p u stack s r = refl
  executed_scalar string p u stack s r = refl
  executed_scalar binary p u stack s r = refl

  popped_scalar :
      (k : ScalarKind) (p : Place) (u : Semantic) (stack : List (ℕ × Semantic)) (s : S) (r : Value)
      (v : Except Scalar)
      → executed lib lex matched (production k) (handled (set_scalar (reducing k p u stack s r) v))
        ≡ after_scalar p u stack s r v
  unfolding executed reduce_by pop production_info
  popped_scalar boolean p u stack s r (ok v) = ground arith
  popped_scalar integer p u stack s r (ok v) = ground arith
  popped_scalar real p u stack s r (ok v) = ground arith
  popped_scalar string p u stack s r (ok v) = ground arith
  popped_scalar binary p u stack s r (ok v) = ground arith
  popped_scalar k p u stack s r (err e) = refl
  popped_scalar k p u stack s r out_of_range = refl
  popped_scalar k p u stack s r other_exception = refl
  popped_scalar k p u stack s r fault = refl

  pub reduce_scalar :
      (k : ScalarKind) (p : Place) (u : Semantic) (stack : List (ℕ × Semantic)) (s : S) (r : Value)
      (v : Except Scalar)
      → read_scalar lib (production k) (matched s) ≡ v
      → round (reducing k p u stack s r) ≡ after_scalar p u stack s r v
  reduce_scalar k p u stack s r v e =
      executed_scalar k p u stack s r
      ∙ ap
          (λ w.
            executed lib lex matched (production k)
              (handled (set_scalar (reducing k p u stack s r) w)))
          e
      ∙ popped_scalar k p u stack s r v

  pub goto_scalar :
      (p : Place) (u v : Semantic) (stack : List (ℕ × Semantic)) (s : S) (r : Value)
      → round (cfg ((place_state p, u) ∷ stack) (token 269) undetermined v s r)
        ≡ again (
            cfg
              ((scalar_state p, v) ∷ (place_state p, u) ∷ stack)
              undetermined
              undetermined
              null_value
              s
              r)
  unfolding parse_round state_at lookup
  goto_scalar at_start u v stack s r = refl
  goto_scalar in_sequence u v stack s r = refl
  goto_scalar in_tuple u v stack s r = refl
  goto_scalar behind_comma u v stack s r = refl

  -- A state that has its token does what the table says.
  pub hold_token :
      (n m : ℕ) (u : Semantic) (stack : List (ℕ × Semantic)) (s : S) (r : Value)
      → round (cfg ((m, u) ∷ stack) (token n) undetermined null_value s r)
        ≡ looked_up lib lex matched
            (some (cfg ((m, u) ∷ stack) (token n) undetermined null_value s r))
  unfolding parse_round
  hold_token n m u stack s r = ground arith

  pub hold_end :
      (m : ℕ) (u : Semantic) (stack : List (ℕ × Semantic)) (s : S) (r : Value)
      → round (cfg ((m, u) ∷ stack) end_of_input undetermined null_value s r)
        ≡ looked_up lib lex matched
            (some (cfg ((m, u) ∷ stack) end_of_input undetermined null_value s r))
  unfolding parse_round
  hold_end m u stack s r = ground arith

  -- A token that has no entry ends the parse.
  pub unexpected :
      (p : Parser S)
      → lookup p.cur_token p.state ≡ none
      → looked_up lib lex matched (some p) ≡ ended (aborted p.result)
  unfolding looked_up act error_recovery
  unexpected p e = rw (e, error_states_lem p.stack) refl

  -- A shift from a state without a pending token.
  pub shifts :
      (n m : ℕ) (u : Semantic) (stack : List (ℕ × Semantic)) (t : Token) (s : S) (r : Value)
      → lookup t m ≡ some (shift n)
      → looked_up lib lex matched (some (cfg ((m, u) ∷ stack) t undetermined null_value s r))
        ≡ again (cfg ((n, null_value) ∷ (m, u) ∷ stack) undetermined undetermined null_value s r)
  unfolding looked_up act
  shifts n m u stack t s r e = rw e refl

  -- The end of a series: its token is saved.
  pub end_series :
      (m : ℕ) (u : Semantic) (stack : List (ℕ × Semantic)) (t : Token) (vs : List Scalar) (s : S)
      (r : Value)
      → IsRead t
      → lookup t 13 ≡ some (reduce 10)
      → looked_up lib lex matched
          (some (cfg ((13, seq vs) ∷ (m, u) ∷ stack) t undetermined null_value s r))
        ≡ again (cfg ((m, u) ∷ stack) (token 270) t (seq vs) s r)
  unfolding looked_up act executed reduce_by pop production_info execute_action
  end_series m u stack _ vs s r is_end e = ground arith
  end_series m u stack _ vs s r (is_token n) e = rw e (ground arith)

  -- No element: likewise.
  pub no_series :
      (m : ℕ) (u : Semantic) (stack : List (ℕ × Semantic)) (t : Token) (s : S) (r : Value)
      → IsRead t
      → lookup t m ≡ some (reduce 9)
      → looked_up lib lex matched (some (cfg ((m, u) ∷ stack) t undetermined null_value s r))
        ≡ again (cfg ((m, u) ∷ stack) (token 270) t (seq []) s r)
  unfolding looked_up act executed reduce_by pop production_info execute_action
  no_series m u stack _ s r is_end e = rw e (ground arith)
  no_series m u stack _ s r (is_token n) e = rw e (ground arith)
