-- ===== src/Cli/Scanner/Matches.antt =====
-- What the automaton of src/cli/lex.cpp reads, and where it stops.
use de_co_f.Base.{
  ℕ, ◌<◌, ◌≡◌, refl, ap, sym, subst, ◌∙◌, true, Option, none, some, [], ◌∷◌, ◌++◌, arith, length,
  take, drop, Bytes, lt→ltb, some_inj,
}
use de_co_f.Cli.Scanner.{
  Scanner, FinalData, update_finals, updated, lex_round, again, get_range, action_type,
  action_after, act, known_final_state, match_final, continue_char, matched_as, final_of,
  set_matched_size, first_char, match_rule, matched_round, last_newline,
}
use de_co_f.Cli.Scanner.Characters.{Input, get, re_read, re_read_all, re_read_char}
use de_co_f.Cli.Scanner.Tables.{transition, rule_of, range_of}
use de_co_f.Cli.Scanner.Operations.{final_of_std}

-- The state behind some characters.
abbrev pub state_after : ℕ → Bytes → Option ℕ
state_after n [] = some n
state_after n (c ∷ cs) = elim (transition n (range_of c)) [
  | none ↦ none
  | some m ↦ state_after m cs
]

-- No character that comes next goes on from the state.
abbrev pub Stops : ℕ → Bytes → Type 0
Stops n [] = Unit
Stops n (c ∷ cs) = (transition n (range_of c) ≡ none) × (c < 256)

-- What is left of the input.
abbrev pub Reads : Input → Bytes → Type 0
Reads i text = (rest : Bytes) × (i.stream ≡ some rest) × (i.pending ++ rest ≡ text)

get_cases :
    (pending : Bytes) (stream : Option Bytes) (n : ℕ) (text rest : Bytes)
    → stream ≡ some rest
    → pending ++ rest ≡ text
    → let i : Input = record { pending = pending; stream = stream; line_nr = n } in
      (j : Input) × (get i ≡ (first_char text, j)) × Reads j (drop 1 text)
unfolding get
get_cases pending none n text rest e f = absurd cc
get_cases [] (some []) n text rest e f =
    let z = some_inj e in rw (sym f, sym z) (_, refl, ([], refl, refl))
get_cases [] (some (c ∷ cs)) n text rest e f =
    let z = some_inj e in rw (sym f, sym z) (_, refl, (cs, ground arith, ground arith))
get_cases (c ∷ cs) (some s) n text rest e f =
    rw (sym f) (_, refl, (rest, ground arith, ground arith))

pub get-Reads :
    (i : Input) (text : Bytes)
    → Reads i text
    → (j : Input) × (get i ≡ (first_char text, j)) × Reads j (drop 1 text)
get-Reads i text (rest, e, f) = get_cases i.pending i.stream i.line_nr text rest e f

pub re_read-Reads :
    (c : ℕ) (i : Input) (text : Bytes) → c < 256 → Reads i text → Reads (re_read c i) (c ∷ text)
unfolding re_read
re_read-Reads c i text l (rest, e, f) = rw (lt→ltb c 256 l) (rest, e, ap (λ x. c ∷ x) f)

-- A round, when the character and the rule are known.
pub round_lem :
    (s : Scanner) (ch : Option ℕ) (j : Input) (r : Option ℕ)
    → get s.input ≡ (ch, j)
    → rule_of s.state ≡ r
    → let s' = updated r (record s { input = j }) in
      lex_round s ≡ act (action_type (get_range ch) s') ch s'
unfolding lex_round update_finals
round_lem s ch j r e q =
    subst
      (λ x.
        lex_round s
        ≡ act (action_type (get_range ch) (updated x (record s { input = j }))) ch
            (updated x (record s { input = j })))
      q
      (subst
        (λ x.
          lex_round s
          ≡ act (action_type (get_range x.0) (update_finals (record s { input = x.1 }))) x.0
              (update_finals (record s { input = x.1 })))
        e refl)

-- A transition is taken.
pub continue_lem :
    (r : Option ℕ) (s : Scanner) (c m : ℕ)
    → transition s.state (range_of c) ≡ some m
    → act (action_type (get_range (some c)) (updated r s)) (some c) (updated r s)
      ≡ again (continue_char m (some c) (updated r s))
unfolding action_type get_range act
continue_lem none s c m e = rw e refl
continue_lem (some r) s c m e = rw e refl

known_some :
    (s : Scanner) (f : FinalData) → known_final_state (record s { final_std = some f }) ≡ true
unfolding known_final_state
known_some s f = ground arith

action_lem :
    (o : Option ℕ) (range : ℕ) (s : Scanner)
    → o ≡ none
    → known_final_state s ≡ true
    → action_after o range s ≡ match_rule
action_lem o range s e k = rw (e, k) refl

-- A token is matched where nothing goes on.
pub stop_lem :
    (r : ℕ) (s : Scanner) (ch : Option ℕ)
    → transition s.state (get_range ch) ≡ none
    → act (action_type (get_range ch) (updated (some r) s)) ch (updated (some r) s)
      ≡ matched_round (match_final ch (updated (some r) s))
unfolding action_type act
stop_lem r s ch e =
    let f : FinalData = record { rule = r; length = length s.matched } in
    ap (λ a. act a ch (updated (some r) s))
      (action_lem (transition s.state (get_range ch)) (get_range ch) (updated (some r) s) e
        (known_some s f))

take-all : (s : Bytes) → take (length s) s ≡ s
take-all [] = refl
take-all (c ∷ s) = ap (λ x. c ∷ x) (take-all s)

drop-all : (s : Bytes) → drop (length s) s ≡ []
drop-all [] = refl
drop-all (c ∷ s) = drop-all s

-- The scanner when all that was matched is the token.
abbrev pub whole : ℕ → Option ℕ → Scanner → Scanner
whole r ch s = record s {
  input = re_read_char ch s.input;
  final_std = some (record { rule = r; length = length s.matched });
  at_bol = last_newline s.matched;
}

matched_size :
    (n r : ℕ) (s : Scanner) (a b : Bytes)
    → take n s.matched ≡ a
    → drop n s.matched ≡ []
    → set_matched_size n s ≡ record s { matched = a }
unfolding set_matched_size re_read_all
matched_size n r s a b e d = rw (e, d) refl

pub match_lem :
    (r : ℕ) (s : Scanner) (ch : Option ℕ)
    → s.final_bol ≡ none
    → match_final ch (updated (some r) s) ≡ some (r, whole r ch s)
unfolding match_final
match_lem r s ch b =
    let f : FinalData = record { rule = r; length = length s.matched } in
    let s' : Scanner = record s { input = re_read_char ch s.input; final_std = some f } in
    ap (λ o. matched_as o s') (ap (λ o. final_of s.at_bol o (some f)) b ∙ final_of_std s.at_bol f)
    ∙ ap (λ x. some (r, record x { at_bol = last_newline x.matched }))
        (matched_size (length s.matched) r s' s.matched [] (take-all s.matched)
          (drop-all s.matched))
