-- ===== src/Cli/Parser/Equivalence.antt =====
-- The parser of src/cli/parse.cpp against the grammar.
use de_co_f.Base.{
  ℕ, suc, ◌+◌, ◌*◌, ◌≤◌, ◌≡◌, refl, ap, ◌∙◌, ==_iff, true, false, Bool-cases, inl, inr, Option,
  none, some, List, [], ◌∷◌, ◌==◌, arith, Bytes, length,
}
use de_co_f.Types.{ℤ, pos, Scalar, Value, scalar_t}
use de_co_f.Except.{Except, ok, err, out_of_range, other_exception, fault}
use de_co_f.Cli.Parser.Tables.{
  Token, undetermined, end_of_input, token, shift, reduce, lookup, state_at, needs_token,
}
use de_co_f.Cli.Parser.Scalars.{Readers, read_scalar}
use de_co_f.Cli.Parser.Actions.{null_value, scl, seq, Parser, Outcome, default_value}
use de_co_f.Cli.Parser.Automaton.{token_of, Round, parse_round, looked_up, parse}
use de_co_f.Cli.Parser.Grammar.{
  Lexeme, listed, closed, at_end, more_elements, elements, expression, single, scalar, syntax_error,
  ScalarKind, number, production, kind_of,
}
use de_co_f.Cli.Parser.Rounds.{cfg, read_token, unexpected, shifts, no_series}
use de_co_f.Cli.Parser.Lookups.{
  Place, at_start, in_sequence, in_tuple, lookup-start, lookup-sequence, lookup-tuple,
}
use de_co_f.Cli.Parser.Runs.{
  opened, opening, closing, make, base, Bracket, square, curly, Lexes, Ahead, Ends, Ends-again,
  Ends-ended, Ends-le, Ends-eq, Ahead_lem, finish, reduce_list, Ahead-IsRead,
}
use de_co_f.Cli.Parser.Series.{after, element_lem, scalar-cases, shift_first, NoScalar, series}

module _ {S : Type 0} (lib : Readers) (lex : S → Option (ℤ × S)) (matched : S → Bytes) where
  abbrev round : Parser S → Round S
  round = parse_round lib lex matched

  elements-scalar :
      (x : Lexeme) (rest : List Lexeme) (v : Except Scalar) (bracket : ℕ) (f : List Scalar → Value)
      → scalar lib x ≡ some v
      → closed bracket f (elements lib (x ∷ rest))
        ≡ after lib lex matched v (λ w. closed bracket f (more_elements lib (w ∷ []) rest))
  unfolding elements
  elements-scalar x rest (ok v) bracket f e = rw (elements, e) refl
  elements-scalar x rest (err g) bracket f e = rw (elements, e) refl
  elements-scalar x rest out_of_range bracket f e = rw (elements, e) refl
  elements-scalar x rest other_exception bracket f e = rw (elements, e) refl
  elements-scalar x rest fault bracket f e = rw (elements, e) refl

  lookup-empty :
      (b : Bracket) (ts : List Lexeme) (t : Token) (s : S)
      → Ahead lib lex matched t s ts
      → NoScalar lib lex matched ts
      → lookup t (opened b) ≡ some (reduce 9)
  unfolding lookup
  lookup-empty square [] t s e n = rw e refl
  lookup-empty curly [] t s e n = rw e refl
  lookup-empty square (x ∷ xs) t s (e, l, h) n = rw e (lookup-sequence x.kind l n)
  lookup-empty curly (x ∷ xs) t s (e, l, h) n = rw e (lookup-tuple x.kind l n)

  bracket_place : Bracket → Place
  bracket_place square = in_sequence
  bracket_place curly = in_tuple

  opened_needs : (b : Bracket) → needs_token (state_at (opened b)).type_of ≡ true
  unfolding needs_token state_at
  opened_needs square = refl
  opened_needs curly = refl

  -- Brackets with nothing between them.
  no_elements :
      (b : Bracket) (ts : List Lexeme) (s : S)
      → Lexes lib lex matched s ts
      → NoScalar lib lex matched ts
      → Ends lib lex matched 9
          (cfg (base b) undetermined undetermined null_value s default_value)
          (closed (closing b) (make b) (listed [] ts))
  no_elements b ts s h n =
      let (t, s', e, a) = Ahead_lem lib lex matched s ts h in
      Ends-again lib lex matched 8 _
        (cfg (base b) (token 270) (token_of t) (seq []) s' default_value) _
        (read_token lib lex matched (opened b) null_value ((0, null_value) ∷ []) s s' t
            default_value (opened_needs b) e
          ∙ no_series lib lex matched (opened b) null_value ((0, null_value) ∷ []) (token_of t) s'
              default_value (Ahead-IsRead lib lex matched ts (token_of t) s' a)
              (lookup-empty b ts (token_of t) s' a n))
        (reduce_list lib lex matched b ts (token_of t) [] s' a)

  first_element :
      (b : Bracket) (x : Lexeme) (k : ScalarKind) (s s' : S) (n : ℕ) (f : Scalar → Outcome)
      → x.kind ≡ number k
      → lex s ≡ some (pos x.kind, s')
      → matched s' ≡ x.text
      → ((v : Scalar)
          → Ends lib lex matched n
              (cfg ((14, scl v) ∷ base b) undetermined undetermined null_value s' default_value)
              (f v))
      → Ends lib lex matched
          (suc (suc (suc n)))
          (cfg (base b) undetermined undetermined null_value s default_value)
          (after lib lex matched (read_scalar lib (production k) x.text) f)
  first_element square x k s s' n f i e m h =
      element_lem lib lex matched x k in_sequence null_value ((0, null_value) ∷ []) s s' n f i e m h
  first_element curly x k s s' n f i e m h =
      element_lem lib lex matched x k in_tuple null_value ((0, null_value) ∷ []) s s' n f i e m h

  -- What stands between the brackets.
  opt_series :
      (ts : List Lexeme) (b : Bracket) (s : S)
      → Lexes lib lex matched s ts
      → Ends lib lex matched
          (4 * length ts + 10)
          (cfg (base b) undetermined undetermined null_value s default_value)
          (closed (closing b) (make b) (elements lib ts))
  unfolding elements
  opt_series [] b s h = (Ends-le lib lex matched 9 _ _ _ (omega arith) (no_elements b [] s h tt))
  opt_series (x ∷ rest) b s h = elim (scalar-cases lib lex matched x) [
    | inl (e, n) ↦
        Ends-eq lib lex matched _ _ _ _ (rw (elements, e) refl)
          (Ends-le lib lex matched 9 _ _ _ (omega arith) (no_elements b (x ∷ rest) s h n))
    | inr (k, i, r) ↦
        let (s', e, m, z, l, h') = h in
        Ends-eq lib lex matched _ _ _ _ (elements-scalar x rest _ (closing b) (make b) r) (
          Ends-le lib lex matched (suc (suc (suc (suc (suc (4 * length rest + 9)))))) _ _ _
            (omega arith)
            (first_element b x k s s' (suc (suc (4 * length rest + 9))) _ i e m (λ v.
              shift_first lib lex matched b v s' _ _
                (series lib lex matched rest b (v ∷ []) s' h'))))
  ]

  single_scalar :
      (rest : List Lexeme) (o : Option (Except Scalar)) (v : Except Scalar)
      → o ≡ some v
      → single o rest ≡ after lib lex matched v (λ w. at_end (scalar_t w) rest)
  single_scalar rest o (ok v) e = rw e refl
  single_scalar rest o (err g) e = rw e refl
  single_scalar rest o out_of_range e = rw e refl
  single_scalar rest o other_exception e = rw e refl
  single_scalar rest o fault e = rw e refl

  -- A scalar alone: state 2.
  finish_scalar :
      (ts : List Lexeme) (v : Scalar) (s : S)
      → Lexes lib lex matched s ts
      → Ends lib lex matched 3
          (cfg
            ((2, scl v) ∷ (0, null_value) ∷ [])
            undetermined
            undetermined
            null_value
            s
            default_value)
          (at_end (scalar_t v) ts)
  unfolding parse_round state_at lookup
  finish_scalar ts v s h =
      Ends-again lib lex matched 2 _
        (cfg ((0, null_value) ∷ []) (token 268) undetermined (scl v) s (scalar_t v)) _ refl
        (finish lib lex matched ts (scl v) s (scalar_t v) h)

  -- The first token of a value.
  start_round :
      (s s' : S) (t : ℤ)
      → lex s ≡ some (t, s')
      → round (cfg ((0, null_value) ∷ []) undetermined undetermined null_value s default_value)
        ≡ looked_up lib lex matched (
            some (cfg ((0, null_value) ∷ []) (token_of t) undetermined null_value s' default_value))
  unfolding needs_token state_at
  start_round s s' t e = read_token lib lex matched 0 null_value [] s s' t default_value refl e

  lookup-open : (b : Bracket) → lookup (token_of (pos (opening b))) 0 ≡ some (shift (opened b))
  unfolding lookup token_of
  lookup-open square = refl
  lookup-open curly = refl

  open_list :
      (b : Bracket) (s s' : S) (x : Lexeme) (n : ℕ) (o : Outcome)
      → lex s ≡ some (pos x.kind, s')
      → (x.kind == opening b) ≡ true
      → Ends lib lex matched n
          (cfg (base b) undetermined undetermined null_value s' default_value)
          o
      → Ends lib lex matched
          (suc n)
          (cfg ((0, null_value) ∷ []) undetermined undetermined null_value s default_value)
          o
  open_list b s s' x n o e y h =
      Ends-again lib lex matched n _ _ o
        (start_round s s' (pos x.kind) e
          ∙ shifts lib lex matched (opened b) 0 null_value [] (token_of (pos x.kind)) s'
              default_value
              (ap (λ (j : ℕ). lookup (token_of (pos j)) 0) ((==_iff x.kind (opening b)).0 y)
                ∙ lookup-open b))
        h

  lookup_end_start : lookup end_of_input 0 ≡ none
  unfolding lookup
  lookup_end_start = refl

  -- No value begins so.
  no_value :
      (x : Lexeme) (rest : List Lexeme) (s : S)
      → Lexes lib lex matched s (x ∷ rest)
      → kind_of x.kind ≡ none
      → (x.kind == b'[') ≡ false
      → (x.kind == b'{') ≡ false
      → Ends lib lex matched 1
          (cfg ((0, null_value) ∷ []) undetermined undetermined null_value s default_value)
          syntax_error
  no_value x rest s h n a b =
      let (t, s', e, ahead) = Ahead_lem lib lex matched s (x ∷ rest) h in
      Ends-ended lib lex matched 0 _ _ (
        start_round s s' t e
        ∙ unexpected lib lex matched
            (cfg ((0, null_value) ∷ []) (token_of t) undetermined null_value s' default_value)
            (ap (λ u. lookup u 0) ahead.0 ∙ lookup-start x.kind ahead.1 n a b))

  single_value :
      (x : Lexeme) (rest : List Lexeme) (s : S)
      → Lexes lib lex matched s (x ∷ rest)
      → (x.kind == b'[') ≡ false
      → (x.kind == b'{') ≡ false
      → Ends lib lex matched 6
          (cfg ((0, null_value) ∷ []) undetermined undetermined null_value s default_value)
          (single (scalar lib x) rest)
  single_value x rest s h a b = elim (scalar-cases lib lex matched x) [
    | inl (e, n) ↦ rw e (Ends-le lib lex matched 1 6 _ _ (omega arith) (no_value x rest s h n a b))
    | inr (k, i, r) ↦
        let (s', e, m, z, l, h') = h in
        Ends-eq lib lex matched _ _ _ _ (single_scalar rest (scalar lib x) _ r) (
          element_lem lib lex matched x k at_start null_value [] s s' 3 _ i e m
            (λ v. finish_scalar rest v s' h'))
  ]

  value :
      (ts : List Lexeme) (s : S)
      → Lexes lib lex matched s ts
      → Ends lib lex matched
          (4 * length ts + 16)
          (cfg ((0, null_value) ∷ []) undetermined undetermined null_value s default_value)
          (expression lib ts)
  unfolding expression
  value [] s (t, s', e, h) = Ends-le lib lex matched 1 _ _ _ (omega arith) (
      Ends-ended lib lex matched 0 _ _ (
        start_round s s' t e
        ∙ unexpected lib lex matched
            (cfg ((0, null_value) ∷ []) (token_of t) undetermined null_value s' default_value)
            (rw h lookup_end_start)))
  value (x ∷ rest) s h =
      let (s', e, m, z, l, h') = h in
      elim (Bool-cases (x.kind == b'[')) [
        | inl y ↦ rw y (
            Ends-le lib lex matched (suc (4 * length rest + 10)) _ _ _ (omega arith)
              (open_list square s s' x _ _ e y (opt_series rest square s' h')))
        | inr n ↦ elim (Bool-cases (x.kind == b'{')) [
          | inl y ↦
              rw (n, y)
                (Ends-le lib lex matched (suc (4 * length rest + 10)) _ _ _ (omega arith)
                  (open_list curly s s' x _ _ e y (opt_series rest curly s' h')))
          | inr m ↦
              rw (n, m)
                (Ends-le lib lex matched 6 _ _ _ (omega arith) (single_value x rest s h n m))
        ]
      ]

  -- The parser ends, and does what the grammar says of the tokens that the scanner returns.
  pub parse-expression :
      (ts : List Lexeme) (s : S) (fuel : ℕ)
      → Lexes lib lex matched s ts
      → 4 * length ts + 16 ≤ fuel
      → parse lib lex matched fuel s ≡ some (expression lib ts)
  unfolding parse
  parse-expression ts s fuel h l = value ts s h fuel l
