-- ===== src/Cli/Scanner.antt =====
-- The scanner of values, src/cli/lex.cpp and src/cli/scannerbase.h. `none` stands for AT_EOF as a
-- character and for `s_unavailable` as a rule; the stream is what is left of it, `none` when it has
-- been closed. The members that only other rules would use (`more`, the stack of streams, the
-- look-ahead operator) keep their initial values and are left out.
pub mod Tables
pub mod Characters
pub mod Operations
pub mod Rounds
pub mod Progress
pub mod Matches
pub mod Longest
pub mod Texts
pub mod Stops
use de_co_f.Base.{
  ℕ, zero, suc, ◌+◌, ◌-◌, ◌*◌, ◌^◌, Bool, true, false, ◌&&◌, ◌||◌, not, Option, none, some, List,
  [], ◌∷◌, ◌++◌, ◌==◌, ltb, if◌then◌else◌, length, take, drop, is_empty, Bytes,
}
use de_co_f.Types.{ℤ, pos, negsuc}
use Tables.{range_of, range_of_eof, transition, rule_of}
use Characters.{Input, count, get, re_read, re_read_char, re_read_all, close, remaining}

pub record FinalData : Type 0 where
  pub rule : ℕ
  pub length : ℕ

pub record Scanner : Type 0 where
  pub input : Input
  pub state : ℕ
  pub matched : Bytes
  pub at_bol : Bool
  pub final_std : Option FinalData
  pub final_bol : Option FinalData
  pub returns : Bool
  pub out : Bytes

-- The constructor from a stream.
unfoldable pub new_scanner : Bytes → Scanner
new_scanner s = record {
  input = record { pending = []; stream = some s; line_nr = 1 };
  state = 0;
  matched = [];
  at_bol = true;
  final_std = none;
  final_bol = none;
  returns = true;
  out = [];
}

-- `reset__`.
unfoldable pub reset : Scanner → Scanner
reset s = record s { final_std = none; final_bol = none; state = 0; returns = true; matched = [] }

-- `getRange__`.
unfoldable pub get_range : Option ℕ → ℕ
get_range none = range_of_eof
get_range (some c) = range_of c

abbrev pub updated : Option ℕ → Scanner → Scanner
updated none s = s
updated (some r) s = record s { final_std = some (record { rule = r; length = length s.matched }) }

-- `updateFinals__`; the column of the rules at the beginning of a line is -1 in every row.
unfoldable pub update_finals : Scanner → Scanner
update_finals s = updated (rule_of s.state) s

abbrev pub available : Option FinalData → Bool
available none = false
available (some f) = true

-- `knownFinalState`.
unfoldable pub known_final_state : Scanner → Bool
known_final_state s = s.at_bol && available s.final_bol || available s.final_std

-- `continue_with` holds `d_nextState`.
pub data ActionType : Type 0 where
  continue_with : ℕ → ActionType
  echo_char echo_first match_rule return_end : ActionType

abbrev pub no_transition : ℕ → Scanner → ActionType
no_transition range s =
    if known_final_state s
    then match_rule
    else if not (is_empty s.matched)
    then echo_first
    else if not (range == range_of_eof)
    then echo_char
    else return_end

abbrev pub action_after : Option ℕ → ℕ → Scanner → ActionType
action_after (some state) range s = continue_with state
action_after none range s = no_transition range s

-- `actionType__`.
unfoldable pub action_type : ℕ → Scanner → ActionType
unfolding known_final_state
action_type range s = action_after (transition s.state range) range s

abbrev pub char_text : Option ℕ → Bytes
char_text none = []
char_text (some c) = c ∷ []

-- `continue__`.
unfoldable pub continue_char : ℕ → Option ℕ → Scanner → Scanner
continue_char state ch s = record s { state = state; matched = s.matched ++ char_text ch }

abbrev pub is_newline : Option ℕ → Bool
is_newline none = false
is_newline (some c) = c == 10

-- `echoCh__`.
unfoldable pub echo_ch : Option ℕ → Scanner → Scanner
echo_ch ch s = record s { out = s.out ++ char_text ch; at_bol = is_newline ch }

abbrev pub first_char : Bytes → Option ℕ
first_char [] = none
first_char (c ∷ cs) = some c

-- `echoFirst__`.
unfoldable pub put_back_first : Option ℕ → Scanner → Scanner
unfolding re_read re_read_all echo_ch
put_back_first ch s =
    echo_ch (first_char s.matched)
      (record s { input = re_read_all (drop 1 s.matched) (re_read_char ch s.input) })

-- The rule of two that are available.
abbrev pub longer : FinalData → FinalData → FinalData
longer bol std =
    if not (bol.length == std.length)
    then (if ltb std.length bol.length then bol else std)
    else if ltb bol.rule std.rule
    then bol
    else std

abbrev pub final_of : Bool → Option FinalData → Option FinalData → Option FinalData
final_of false bol std = std
final_of true bol none = bol
final_of true none (some std) = some std
final_of true (some bol) (some std) = some (longer bol std)

-- `setMatchedSize`.
unfoldable pub set_matched_size : ℕ → Scanner → Scanner
unfolding re_read_all
set_matched_size n s = record s {
  input = re_read_all (drop n s.matched) s.input;
  matched = take n s.matched;
}

abbrev pub last_newline : Bytes → Bool
last_newline [] = false
last_newline (c ∷ []) = c == 10
last_newline (c ∷ d ∷ cs) = last_newline (d ∷ cs)

abbrev pub matched_as : Option FinalData → Scanner → Option (ℕ × Scanner)
matched_as none s = none
matched_as (some f) s =
    let s' = set_matched_size f.length s in
    some (f.rule, record s' { at_bol = last_newline s'.matched })

-- `matched__`; `none` where no rule is available, which its caller has tested.
unfoldable pub match_final : Option ℕ → Scanner → Option (ℕ × Scanner)
unfolding re_read set_matched_size
match_final ch s =
    let s' = record s { input = re_read_char ch s.input } in
    matched_as (final_of s'.at_bol s'.final_bol s'.final_std) s'

-- A `char`, which is signed, as an int.
abbrev pub char_to_int : ℕ → ℤ
char_to_int c = if ltb c 128 then pos c else negsuc (255 - c)

abbrev pub first_token : Bytes → ℤ
first_token [] = pos 0
first_token (c ∷ cs) = char_to_int c

abbrev pub boolean_token : ℕ
boolean_token = 257

abbrev pub integer_token : ℕ
integer_token = 258

abbrev pub real_token : ℕ
real_token = 259

abbrev pub string_token : ℕ
string_token = 260

abbrev pub binary_token : ℕ
binary_token = 261

-- `executeAction__`: the token, and whether `lex` returns it.
unfoldable pub execute_rule : ℕ → Bytes → ℤ × Bool
execute_rule rule matched =
    if rule == 0
    then (pos boolean_token, true)
    else if rule == 1
    then (pos integer_token, true)
    else if rule == 2
    then (pos real_token, true)
    else if rule == 3
    then (pos string_token, true)
    else if rule == 4
    then (pos binary_token, true)
    else if rule == 6
    then (first_token matched, true)
    else (pos 0, false)

-- A round of the loop of `lex`: it goes on, or returns a token.
pub data Round : Type 0 where
  again : Scanner → Round
  returned : ℤ → Scanner → Round
  undefined : Round

abbrev pub acted : ℤ × Bool → Scanner → Round
acted (token, true) s = returned token s
acted (token, false) s = again (reset (record s { returns = false }))

abbrev pub matched_round : Option (ℕ × Scanner) → Round
matched_round none = undefined
matched_round (some (rule, s)) = acted (execute_rule rule s.matched) s

unfoldable pub act : ActionType → Option ℕ → Scanner → Round
unfolding reset continue_char echo_ch put_back_first match_final execute_rule
act (continue_with state) ch s = again (continue_char state ch s)
act match_rule ch s = matched_round (match_final ch s)
act echo_first ch s = again (reset (put_back_first ch s))
act echo_char ch s = again (reset (echo_ch ch s))
act return_end ch s = returned (pos 0) (record s { input = close s.input })

-- The body of the loop.
unfoldable pub lex_round : Scanner → Round
unfolding get get_range update_finals action_type act
lex_round s =
    let (ch, input) = get s.input in
    let s' = update_finals (record s { input = input }) in act (action_type (get_range ch) s') ch s'

-- The loop; `none` when the fuel does not suffice.
unfoldable pub lex_loop : ℕ → Scanner → Option (ℤ × Scanner)
unfolding lex_round
lex_loop zero s = none
lex_loop (suc fuel) s = elim (lex_round s) [
  | again s' ↦ lex_loop fuel s'
  | returned token s' ↦ some (token, s')
  | undefined ↦ none
]

-- Enough rounds: each match or echo is of the first characters of those left, and puts the others
-- back.
abbrev pub triangle : ℕ → ℕ
triangle zero = 0
triangle (suc n) = triangle n + suc n

-- `lex`.
unfoldable pub lex : Scanner → Option (ℤ × Scanner)
unfolding reset lex_loop remaining
lex s = let n = remaining s.input in lex_loop (suc (triangle n + n)) (reset s)
