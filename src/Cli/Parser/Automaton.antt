-- ===== src/Cli/Parser/Automaton.antt =====
-- The loop of the parser, src/cli/parse.cpp with `lex` of src/cli/parser.ih. The scanner is what `lex`
-- takes and returns, with what it has matched.
use de_co_f.Base.{
  ℕ, zero, suc, Bool, true, false, Option, none, some, List, [], ◌∷◌, ◌==◌, if◌then◌else◌, Bytes,
}
use de_co_f.Types.{ℤ, pos, negsuc, Value}
use de_co_f.Except.{Except, ok, err, out_of_range, other_exception, fault}
use de_co_f.Cli.Parser.Tables.{
  Token, undetermined, end_of_input, token, ParserAction, shift, reduce, accept, needs_token,
  has_error_item, state_at, lookup,
}
use de_co_f.Cli.Parser.Scalars.{Readers}
use de_co_f.Cli.Parser.Actions.{
  Semantic, Parser, Outcome, accepted, aborted, thrown, undefined, new_parser, push, clearin,
  pop_token, reduce_by, execute_action,
}

-- `_EOF_` is what is not positive.
unfoldable pub token_of : ℤ → Token
token_of (pos n) = if n == 0 then end_of_input else token n
token_of (negsuc n) = end_of_input

-- `while (not (... & ERR_ITEM)) pop__()`: the states that are on the stack.
abbrev pub error_states : List (ℕ × Semantic) → Bool
error_states [] = false
error_states ((n, v) ∷ stack) =
    let rest = error_states stack in if has_error_item (state_at n).type_of then true else rest

-- A round of the loop of `parse`: it goes on, or the function ends.
pub data Round (S : Type 0) : Type 0 where
  again : Parser S → Round S
  ended : Outcome → Round S

module _ {S : Type 0} (lib : Readers) (lex : S → Option (ℤ × S)) (matched : S → Bytes) where
  unfoldable pub lexed : Parser S → Option (ℤ × S) → Option (Parser S)
  unfolding token_of
  lexed p none = none
  lexed p (some (t, s)) = some (record p { cur_token = token_of t; scanner = s })

  unfoldable pub take_token : Token → Parser S → Option (Parser S)
  unfolding pop_token lexed
  take_token undetermined p = lexed p (lex p.scanner)
  take_token end_of_input p = some (pop_token p)
  take_token (token n) p = some (pop_token p)

  -- `nextToken`; `none` when the scanner does not return.
  unfoldable pub next_token : Parser S → Option (Parser S)
  unfolding take_token lexed
  next_token p = elim p.cur_token [
    | undetermined ↦ take_token p.saved_token p
    | end_of_input ↦ some p
    | token n ↦ some p
  ]

  -- `errorRecovery`. No state has an error item; what follows the search for one is left out.
  unfoldable pub error_recovery : Parser S → Round S
  unfolding has_error_item state_at
  error_recovery p = if error_states p.stack then ended undefined else ended (aborted p.result)

  abbrev pub reduced : Value → Option (Parser S) → Round S
  reduced v none = ended (aborted v)
  reduced v (some p) = again p

  unfoldable pub executed : ℕ → Except (Parser S) → Round S
  unfolding reduce_by
  executed production (ok p) = reduced p.result (reduce_by production p)
  executed production fault = ended undefined
  executed production (err e) = ended thrown
  executed production out_of_range = ended thrown
  executed production other_exception = ended thrown

  unfoldable pub act : Option ParserAction → Parser S → Round S
  unfolding error_recovery push pop_token execute_action executed
  act none p = error_recovery p
  act (some (shift n)) p = again (pop_token (push n p))
  act (some (reduce production)) p =
      executed production (execute_action lib (matched p.scanner) production p)
  act (some accept) p = ended (accepted p.result)

  unfoldable pub looked_up : Option (Parser S) → Round S
  unfolding lookup act
  looked_up none = ended undefined
  looked_up (some p) = act (lookup p.cur_token p.state) p

  -- The body of the loop.
  unfoldable pub parse_round : Parser S → Round S
  unfolding next_token needs_token state_at looked_up
  parse_round p =
      looked_up (if needs_token (state_at p.state).type_of then next_token p else some p)

  -- The loop; `none` when the fuel does not suffice.
  unfoldable pub parse_loop : ℕ → Parser S → Option Outcome
  unfolding parse_round
  parse_loop zero p = none
  parse_loop (suc fuel) p = elim (parse_round p) [ again q ↦ parse_loop fuel q | ended o ↦ some o ]

  -- `parse` on a new parser.
  unfoldable pub parse : ℕ → S → Option Outcome
  unfolding parse_loop new_parser push clearin
  parse fuel s = parse_loop fuel (clearin (push 0 (new_parser s)))
