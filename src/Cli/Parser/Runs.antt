-- ===== src/Cli/Parser/Runs.antt =====
-- The runs of the parser of src/cli/parse.cpp behind the closing bracket or the last element.
use de_co_f.Base.{
  ℕ, zero, suc, ◌<◌, ◌≤◌, ◌≡◌, refl, ◌∙◌, subst, sym, Bool-cases, inl, inr, Option, none, some,
  List, if◌then◌else◌, [], ◌∷◌, ◌==◌, arith, Bytes,
}
use de_co_f.Types.{ℤ, pos, Scalar, Value, sequence_t, tuple_t}
use de_co_f.Cli.Parser.Tables.{
  Token, undetermined, end_of_input, token, same_token, shift, lookup, state_at, needs_token,
}
use de_co_f.Cli.Parser.Scalars.{Readers}
use de_co_f.Cli.Parser.Actions.{Semantic, null_value, seq, Parser, Outcome, default_value}
use de_co_f.Cli.Parser.Automaton.{token_of, Round, again, ended, parse_round, parse_loop, looked_up}
use de_co_f.Cli.Parser.Grammar.{Lexeme, listed, closed, at_end}
use de_co_f.Cli.Parser.Rounds.{
  cfg, read_token, hold_token, hold_end, unexpected, shifts, IsRead, is_end, is_token,
}

-- The two brackets, with the states and the non-terminal of each.
pub data Bracket : Type 0 where
  square curly : Bracket

abbrev pub opened : Bracket → ℕ
opened square = 10
opened curly = 11

abbrev pub filled : Bracket → ℕ
filled square = 12
filled curly = 15

abbrev pub complete : Bracket → ℕ
complete square = 16
complete curly = 18

abbrev pub kept : Bracket → ℕ
kept square = 3
kept curly = 4

abbrev pub non_terminal : Bracket → ℕ
non_terminal square = 272
non_terminal curly = 273

abbrev pub opening : Bracket → ℕ
opening square = b'['
opening curly = b'{'

abbrev pub closing : Bracket → ℕ
closing square = b']'
closing curly = b'}'

abbrev pub make : Bracket → List Scalar → Value
make square = sequence_t
make curly = tuple_t

abbrev pub base : Bracket → List (ℕ × Semantic)
base b = (opened b, null_value) ∷ (0, null_value) ∷ []

module _ {S : Type 0} (lib : Readers) (lex : S → Option (ℤ × S)) (matched : S → Bytes) where
  -- What the scanner returns from a state on, up to the end of the input.
  abbrev pub Lexes : S → List Lexeme → Type 0
  Lexes s [] = (t : ℤ) × (s' : S) × (lex s ≡ some (t, s')) × (token_of t ≡ end_of_input)
  Lexes s (x ∷ xs) =
      (s' : S) × (lex s ≡ some (pos x.kind, s'))
      × (matched s' ≡ x.text)
      × (0 < x.kind)
      × (x.kind < 262)
      × Lexes s' xs

  -- The token that is read, and what comes behind it.
  abbrev pub Ahead : Token → S → List Lexeme → Type 0
  Ahead t s [] = t ≡ end_of_input
  Ahead t s (x ∷ xs) = (t ≡ token x.kind) × (x.kind < 262) × Lexes s xs

  abbrev pub round : Parser S → Round S
  round = parse_round lib lex matched

  -- The loop ends so when it has so much fuel.
  abbrev pub Ends : ℕ → Parser S → Outcome → Type 0
  Ends n p o = (fuel : ℕ) → n ≤ fuel → parse_loop lib lex matched fuel p ≡ some o

  pub Ends-again :
      (n : ℕ) (p q : Parser S) (o : Outcome) → round p ≡ again q → Ends n q o → Ends (suc n) p o
  unfolding parse_loop
  Ends-again n p q o e h zero l = absurd (omega (arith, l))
  Ends-again n p q o e h (suc fuel) l = rw e (h fuel (omega (arith, l)))

  pub Ends-ended : (n : ℕ) (p : Parser S) (o : Outcome) → round p ≡ ended o → Ends (suc n) p o
  unfolding parse_loop
  Ends-ended n p o e zero l = absurd (omega (arith, l))
  Ends-ended n p o e (suc fuel) l = rw e refl

  pub Ends-le : (n m : ℕ) (p : Parser S) (o : Outcome) → n ≤ m → Ends n p o → Ends m p o
  Ends-le n m p o l h f k = h f (omega (arith, l, k))

  pub Ends-eq : (n : ℕ) (p : Parser S) (o o' : Outcome) → o ≡ o' → Ends n p o' → Ends n p o
  Ends-eq n p o o' e h = subst (Ends n p) (sym e) h

  pub Ahead_lem :
      (s : S) (ts : List Lexeme)
      → Lexes s ts
      → (t : ℤ) × (s' : S) × (lex s ≡ some (t, s')) × Ahead (token_of t) s' ts
  unfolding token_of
  Ahead_lem s [] (t, s', e, h) = (t, s', e, h)
  Ahead_lem s (x ∷ xs) (s', e, m, z, l, h) = (pos x.kind, s', e, (ground arith, l, h))

  -- The end of the input, or a syntax error.
  pub at_one :
      (ts : List Lexeme) (t : Token) (v : Semantic) (s : S) (r : Value)
      → Ahead t s ts
      → looked_up lib lex matched
          (some (cfg ((1, v) ∷ (0, null_value) ∷ []) t undetermined null_value s r))
        ≡ ended (at_end r ts)
  unfolding looked_up lookup
  at_one [] t v s r e = rw e refl
  at_one (x ∷ xs) t v s r (e, l, h) = rw e refl

  pub finish :
      (ts : List Lexeme) (v : Semantic) (s : S) (r : Value)
      → Lexes s ts
      → Ends 2 (cfg ((0, null_value) ∷ []) (token 268) undetermined v s r) (at_end r ts)
  unfolding parse_round lookup needs_token state_at
  finish ts v s r h =
      let (t, s', e, a) = Ahead_lem s ts h in
      Ends-again 1 _ (cfg ((1, v) ∷ (0, null_value) ∷ []) undetermined undetermined null_value s r)
        _ refl
        (Ends-ended 0 _ _ (
          read_token lib lex matched 1 v ((0, null_value) ∷ []) s s' t r refl e
          ∙ at_one ts (token_of t) v s' r a))

  -- Behind the closing bracket.
  pub finish_list :
      (b : Bracket) (ts : List Lexeme) (vs : List Scalar) (s : S) (r : Value)
      → Lexes s ts
      → Ends 6
          (cfg
            ((complete b, null_value) ∷ (filled b, seq vs) ∷ base b)
            undetermined
            undetermined
            null_value
            s
            r)
          (at_end (make b vs) ts)
  unfolding parse_round lookup state_at
  finish_list square ts vs s r h =
      Ends-again 5 _ (cfg ((0, null_value) ∷ []) (token 272) undetermined (seq vs) s r) _ refl (
        Ends-again 4 _
          (cfg ((3, seq vs) ∷ (0, null_value) ∷ []) undetermined undetermined null_value s r) _ refl
          (Ends-again 3 _
            (cfg ((0, null_value) ∷ []) (token 268) undetermined (seq vs) s (sequence_t vs)) _ refl
            (λ f l. finish ts (seq vs) s (sequence_t vs) h f (omega (arith, l)))))
  finish_list curly ts vs s r h =
      Ends-again 5 _ (cfg ((0, null_value) ∷ []) (token 273) undetermined (seq vs) s r) _ refl (
        Ends-again 4 _
          (cfg ((4, seq vs) ∷ (0, null_value) ∷ []) undetermined undetermined null_value s r) _ refl
          (Ends-again 3 _
            (cfg ((0, null_value) ∷ []) (token 268) undetermined (seq vs) s (tuple_t vs)) _ refl
            (λ f l. finish ts (seq vs) s (tuple_t vs) h f (omega (arith, l)))))

  pub lookup-closing :
      (b : Bracket) (n : ℕ)
      → lookup (token n) (filled b) ≡ (if n == closing b then some (shift (complete b)) else none)
  unfolding lookup same_token
  lookup-closing square n = ground arith
  lookup-closing curly n = ground arith

  pub lookup-closing-end : (b : Bracket) → lookup end_of_input (filled b) ≡ none
  unfolding lookup
  lookup-closing-end square = refl
  lookup-closing-end curly = refl

  -- Where the series is complete: the closing bracket has to come.
  pub close_list :
      (b : Bracket) (ts : List Lexeme) (t : Token) (vs : List Scalar) (s : S)
      → Ahead t s ts
      → Ends 7
          (cfg ((filled b, seq vs) ∷ base b) t undetermined null_value s default_value)
          (closed (closing b) (make b) (listed vs ts))
  close_list b [] t vs s e = Ends-ended 6 _ _ (
      rw e (
        hold_end lib lex matched (filled b) (seq vs) (base b) s default_value
        ∙ unexpected lib lex matched _ (lookup-closing-end b)))
  close_list b (x ∷ xs) t vs s (e, l, h) = elim (Bool-cases (x.kind == closing b)) [
    | inl y ↦
        rw (e, y)
          (Ends-again 6 _ _ _
            (hold_token lib lex matched x.kind (filled b) (seq vs) (base b) s default_value
              ∙ shifts lib lex matched (complete b) (filled b) (seq vs) (base b) (token x.kind) s
                  default_value (rw (lookup-closing b x.kind, y) refl))
            (finish_list b xs vs s default_value h))
    | inr n ↦
        rw (e, n)
          (Ends-ended 6 _ _ (
            hold_token lib lex matched x.kind (filled b) (seq vs) (base b) s default_value
            ∙ unexpected lib lex matched _ (rw (lookup-closing b x.kind, n) refl)))
  ]

  -- The series is reduced: `opt_series`, with the token ahead saved.
  pub reduce_list :
      (b : Bracket) (ts : List Lexeme) (t : Token) (vs : List Scalar) (s : S)
      → Ahead t s ts
      → Ends 8
          (cfg (base b) (token 270) t (seq vs) s default_value)
          (closed (closing b) (make b) (listed vs ts))
  unfolding parse_round lookup state_at
  reduce_list square ts t vs s h =
      Ends-again 7 _ (cfg ((12, seq vs) ∷ base square) t undetermined null_value s default_value) _
        refl (close_list square ts t vs s h)
  reduce_list curly ts t vs s h =
      Ends-again 7 _ (cfg ((15, seq vs) ∷ base curly) t undetermined null_value s default_value) _
        refl (close_list curly ts t vs s h)

  pub Ahead-IsRead : (ts : List Lexeme) (t : Token) (s : S) → Ahead t s ts → IsRead t
  Ahead-IsRead [] t s e = rw e is_end
  Ahead-IsRead (x ∷ xs) t s (e, l, h) = rw e (is_token x.kind)
