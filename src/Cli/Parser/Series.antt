-- ===== src/Cli/Parser/Series.antt =====
-- The runs of the parser of src/cli/parse.cpp through a series of scalars.
use de_co_f.Base.{
  ℕ, suc, ◌+◌, ◌*◌, ◌≡◌, ◌⊎◌, refl, ap, ◌∙◌, ==_iff, true, false, Bool-cases, Option-cases, inl,
  inr, Option, none, some, List, [], ◌∷◌, ◌++◌, ◌==◌, arith, Bytes, length,
}
use de_co_f.Types.{ℤ, pos, Scalar, Value}
use de_co_f.Except.{Except, ok, err, out_of_range, other_exception, fault}
use de_co_f.Cli.Parser.Tables.{
  undetermined, end_of_input, token, reduce, lookup, state_at, needs_token,
}
use de_co_f.Cli.Parser.Scalars.{Readers, read_scalar}
use de_co_f.Cli.Parser.Actions.{
  Semantic, null_value, scl, seq, Parser, Outcome, thrown, undefined, default_value,
}
use de_co_f.Cli.Parser.Automaton.{token_of, Round, again, parse_round}
use de_co_f.Cli.Parser.Grammar.{
  Lexeme, listed, closed, more_elements, scalar, syntax_error, ScalarKind, number, production,
  kind_of,
}
use de_co_f.Cli.Parser.Rounds.{
  cfg, read_token, unexpected, shifts, end_series, reducing, shift_scalar, reduce_scalar,
  goto_scalar,
}
use de_co_f.Cli.Parser.Lookups.{
  Place, behind_comma, place_state, scalar_state, kind_of_lem, lookup-series, lookup-comma,
}
use de_co_f.Cli.Parser.Runs.{
  opened, closing, make, base, Bracket, square, curly, Lexes, Ahead, Ends, Ends-again, Ends-ended,
  Ends-le, Ends-eq, Ahead_lem, reduce_list, Ahead-IsRead,
}

module _ {S : Type 0} (lib : Readers) (lex : S → Option (ℤ × S)) (matched : S → Bytes) where
  abbrev round : Parser S → Round S
  round = parse_round lib lex matched

  -- The end of a series, at a token that is not a comma.
  pub close_series :
      (b : Bracket) (ts : List Lexeme) (t : ℤ) (vs : List Scalar) (s s' : S)
      → lex s ≡ some (t, s')
      → Ahead lib lex matched (token_of t) s' ts
      → lookup (token_of t) 13 ≡ some (reduce 10)
      → Ends lib lex matched 9
          (cfg ((13, seq vs) ∷ base b) undetermined undetermined null_value s default_value)
          (closed (closing b) (make b) (listed vs ts))
  unfolding needs_token state_at
  close_series b ts t vs s s' e h d =
      Ends-again lib lex matched 8 _
        (cfg (base b) (token 270) (token_of t) (seq vs) s' default_value) _
        (read_token lib lex matched 13 (seq vs) (base b) s s' t default_value refl e
          ∙ end_series lib lex matched (opened b) null_value ((0, null_value) ∷ []) (token_of t) vs
              s' default_value (Ahead-IsRead lib lex matched ts (token_of t) s' h) d)
        (reduce_list lib lex matched b ts (token_of t) vs s' h)

  -- An element behind a comma.
  pub comma_lem :
      (b : Bracket) (vs : List Scalar) (s s' : S)
      → lex s ≡ some (pos 44, s')
      → round (cfg ((13, seq vs) ∷ base b) undetermined undetermined null_value s default_value)
        ≡ again (
            cfg
              ((17, null_value) ∷ (13, seq vs) ∷ base b)
              undetermined
              undetermined
              null_value
              s'
              default_value)
  unfolding needs_token state_at token_of lookup
  comma_lem b vs s s' e =
      read_token lib lex matched 13 (seq vs) (base b) s s' (pos 44) default_value refl e
      ∙ shifts lib lex matched 17 13 (seq vs) (base b) (token 44) s' default_value refl

  -- What an element makes of the parse, by what its text reads as.
  abbrev pub after : Except Scalar → (Scalar → Outcome) → Outcome
  after (ok v) f = f v
  after (err e) f = thrown
  after out_of_range f = thrown
  after other_exception f = thrown
  after fault f = undefined

  pub read_element :
      (k : ScalarKind) (p : Place) (u : Semantic) (stack : List (ℕ × Semantic)) (s : S)
      (v : Except Scalar) (n : ℕ) (f : Scalar → Outcome)
      → read_scalar lib (production k) (matched s) ≡ v
      → ((x : Scalar)
          → Ends lib lex matched n
              (cfg
                ((scalar_state p, scl x) ∷ (place_state p, u) ∷ stack)
                undetermined
                undetermined
                null_value
                s
                default_value)
              (f x))
      → Ends lib lex matched
          (suc (suc n))
          (reducing lib lex matched k p u stack s default_value)
          (after v f)
  read_element k p u stack s (ok x) n f r h =
      Ends-again lib lex matched (suc n) _ _ _
        (reduce_scalar lib lex matched k p u stack s default_value (ok x) r)
        (Ends-again lib lex matched n _ _ _
          (goto_scalar lib lex matched p u (scl x) stack s default_value) (h x))
  read_element k p u stack s (err e) n f r h =
      Ends-ended lib lex matched (suc n) _ _
        (reduce_scalar lib lex matched k p u stack s default_value (err e) r)
  read_element k p u stack s out_of_range n f r h =
      Ends-ended lib lex matched (suc n) _ _
        (reduce_scalar lib lex matched k p u stack s default_value out_of_range r)
  read_element k p u stack s other_exception n f r h =
      Ends-ended lib lex matched (suc n) _ _
        (reduce_scalar lib lex matched k p u stack s default_value other_exception r)
  read_element k p u stack s fault n f r h =
      Ends-ended lib lex matched (suc n) _ _
        (reduce_scalar lib lex matched k p u stack s default_value fault r)

  -- A scalar where one may come.
  pub element_lem :
      (x : Lexeme) (k : ScalarKind) (p : Place) (u : Semantic) (stack : List (ℕ × Semantic))
      (s s' : S) (n : ℕ) (f : Scalar → Outcome)
      → x.kind ≡ number k
      → lex s ≡ some (pos x.kind, s')
      → matched s' ≡ x.text
      → ((v : Scalar)
          → Ends lib lex matched n
              (cfg
                ((scalar_state p, scl v) ∷ (place_state p, u) ∷ stack)
                undetermined
                undetermined
                null_value
                s'
                default_value)
              (f v))
      → Ends lib lex matched
          (suc (suc (suc n)))
          (cfg ((place_state p, u) ∷ stack) undetermined undetermined null_value s default_value)
          (after (read_scalar lib (production k) x.text) f)
  element_lem x k p u stack s s' n f i e m h =
      Ends-again lib lex matched (suc (suc n)) _ _ _
        (shift_scalar lib lex matched k p u stack s s' default_value
          (e ∙ ap (λ (j : ℕ). some (pos j, s')) i))
        (read_element k p u stack s' (read_scalar lib (production k) x.text) n f
          (ap (read_scalar lib (production k)) m) h)

  pub scalar-cases :
      (x : Lexeme)
      → ((scalar lib x ≡ none) × (kind_of x.kind ≡ none))
        ⊎ ((k : ScalarKind) × (x.kind ≡ number k)
            × (scalar lib x ≡ some (read_scalar lib (production k) x.text)))
  unfolding scalar
  scalar-cases x = elim (Option-cases (kind_of x.kind)) [
    | inl e ↦ inl (rw (scalar, e) refl, e)
    | inr (k, e) ↦ inr (k, kind_of_lem x.kind k e, rw (scalar, e) refl)
  ]

  -- The series is reduced to its next length.
  pub shift_first :
      (b : Bracket) (v : Scalar) (s : S)
      → (n : ℕ) (o : Outcome)
      → Ends lib lex matched n
          (cfg ((13, seq (v ∷ [])) ∷ base b) undetermined undetermined null_value s default_value)
          o
      → Ends lib lex matched
          (suc (suc n))
          (cfg ((14, scl v) ∷ base b) undetermined undetermined null_value s default_value)
          o
  unfolding parse_round state_at lookup
  shift_first square v s n o h =
      Ends-again lib lex matched (suc n) _
        (cfg (base square) (token 271) undetermined (seq (v ∷ [])) s default_value) o refl
        (Ends-again lib lex matched n _ _ o refl h)
  shift_first curly v s n o h =
      Ends-again lib lex matched (suc n) _
        (cfg (base curly) (token 271) undetermined (seq (v ∷ [])) s default_value) o refl
        (Ends-again lib lex matched n _ _ o refl h)

  pub shift_next :
      (b : Bracket) (vs : List Scalar) (v : Scalar) (s : S)
      → (n : ℕ) (o : Outcome)
      → Ends lib lex matched n
          (cfg
            ((13, seq (vs ++ v ∷ [])) ∷ base b)
            undetermined
            undetermined
            null_value
            s
            default_value)
          o
      → Ends lib lex matched
          (suc (suc n))
          (cfg
            ((19, scl v) ∷ (17, null_value) ∷ (13, seq vs) ∷ base b)
            undetermined
            undetermined
            null_value
            s
            default_value)
          o
  unfolding parse_round state_at lookup
  shift_next square vs v s n o h =
      Ends-again lib lex matched (suc n) _
        (cfg (base square) (token 271) undetermined (seq (vs ++ v ∷ [])) s default_value) o refl
        (Ends-again lib lex matched n _ _ o refl h)
  shift_next curly vs v s n o h =
      Ends-again lib lex matched (suc n) _
        (cfg (base curly) (token 271) undetermined (seq (vs ++ v ∷ [])) s default_value) o refl
        (Ends-again lib lex matched n _ _ o refl h)

  pub more_scalar :
      (vs : List Scalar) (c x : Lexeme) (rest : List Lexeme) (v : Except Scalar) (bracket : ℕ)
      (f : List Scalar → Value)
      → (c.kind == b',') ≡ true
      → scalar lib x ≡ some v
      → closed bracket f (more_elements lib vs (c ∷ x ∷ rest))
        ≡ after v (λ w. closed bracket f (more_elements lib (vs ++ w ∷ []) rest))
  unfolding more_elements
  more_scalar vs c x rest (ok v) bracket f a e = rw (more_elements, a, e) refl
  more_scalar vs c x rest (err g) bracket f a e = rw (more_elements, a, e) refl
  more_scalar vs c x rest out_of_range bracket f a e = rw (more_elements, a, e) refl
  more_scalar vs c x rest other_exception bracket f a e = rw (more_elements, a, e) refl
  more_scalar vs c x rest fault bracket f a e = rw (more_elements, a, e) refl

  pub lookup_end : lookup end_of_input 13 ≡ some (reduce 10)
  unfolding lookup
  lookup_end = refl

  -- A series that ends where no comma comes.
  pub no_comma :
      (b : Bracket) (c : Lexeme) (rest : List Lexeme) (vs : List Scalar) (s : S)
      → Lexes lib lex matched s (c ∷ rest)
      → (c.kind == b',') ≡ false
      → Ends lib lex matched 9
          (cfg ((13, seq vs) ∷ base b) undetermined undetermined null_value s default_value)
          (closed (closing b) (make b) (listed vs (c ∷ rest)))
  no_comma b c rest vs s h n =
      let (t, s', e, a) = Ahead_lem lib lex matched s (c ∷ rest) h in
      close_series b (c ∷ rest) t vs s s' e a (rw a.0 (lookup-series c.kind n))

  pub behind_comma_lem :
      (b : Bracket) (vs : List Scalar) (s s' : S) (c : Lexeme)
      → {n : ℕ} → {o : Outcome} → lex s ≡ some (pos c.kind, s')
      → (c.kind == b',') ≡ true
      → Ends lib lex matched n
          (cfg
            ((17, null_value) ∷ (13, seq vs) ∷ base b)
            undetermined
            undetermined
            null_value
            s'
            default_value)
          o
      → Ends lib lex matched
          (suc n)
          (cfg ((13, seq vs) ∷ base b) undetermined undetermined null_value s default_value)
          o
  behind_comma_lem b vs s s' c {n} {o} e y h =
      Ends-again lib lex matched n _ _ o
        (comma_lem b vs s s' (e ∙ ap (λ (j : ℕ). some (pos j, s')) ((==_iff c.kind 44).0 y))) h

  -- The first token is not a scalar.
  abbrev pub NoScalar : List Lexeme → Type 0
  NoScalar [] = Unit
  NoScalar (x ∷ xs) = kind_of x.kind ≡ none

  pub expected_scalar :
      (v : Semantic) (b : Bracket) (s : S) (ts : List Lexeme)
      → Lexes lib lex matched s ts
      → NoScalar ts
      → Ends lib lex matched 1
          (cfg
            ((17, null_value) ∷ (13, v) ∷ base b)
            undetermined
            undetermined
            null_value
            s
            default_value)
          syntax_error
  unfolding needs_token state_at lookup
  expected_scalar v b s [] (t, s', e, h) n = Ends-ended lib lex matched 0 _ _ (
      read_token lib lex matched 17 null_value ((13, v) ∷ base b) s s' t default_value refl e
      ∙ unexpected lib lex matched _ (rw h refl))
  expected_scalar v b s (x ∷ xs) h n =
      let (t, s', e, a) = Ahead_lem lib lex matched s (x ∷ xs) h in
      Ends-ended lib lex matched 0 _ _ (
        read_token lib lex matched 17 null_value ((13, v) ∷ base b) s s' t default_value refl e
        ∙ unexpected lib lex matched _ (ap (λ u. lookup u 17) a.0 ∙ lookup-comma x.kind a.1 n))

  -- A series that is not at its end.
  pub series :
      (ts : List Lexeme) (b : Bracket) (vs : List Scalar) (s : S)
      → Lexes lib lex matched s ts
      → Ends lib lex matched
          (4 * length ts + 9)
          (cfg ((13, seq vs) ∷ base b) undetermined undetermined null_value s default_value)
          (closed (closing b) (make b) (more_elements lib vs ts))
  unfolding more_elements
  series [] b vs s (t, s', e, h) =
      Ends-le lib lex matched 9 _ _ _ (omega arith)
        (close_series b [] t vs s s' e h (rw h lookup_end))
  series (c ∷ []) b vs s (s', e, m, z, l, h) = elim (Bool-cases (c.kind == b',')) [
    | inl y ↦ rw y (
        Ends-le lib lex matched 2 _ _ _ (omega arith)
          (behind_comma_lem b vs s s' c e y (expected_scalar (seq vs) b s' [] h tt)))
    | inr n ↦
        rw n (
          Ends-le lib lex matched 9 _ _ _ (omega arith)
            (no_comma b c [] vs s (s', e, m, z, l, h) n))
  ]
  series (c ∷ x ∷ rest) b vs s (s', e, m, z, l, h) = elim (Bool-cases (c.kind == b',')) [
    | inl y ↦ elim (scalar-cases x) [
      | inl (none_s, none_k) ↦
          Ends-eq lib lex matched _ _ _ _ (rw (more_elements, y, none_s) refl) (
            Ends-le lib lex matched 2 _ _ _ (omega arith) (
              behind_comma_lem b vs s s' c e y (expected_scalar (seq vs) b s' (x ∷ rest) h none_k)))
      | inr (k, i, r) ↦
          let (s2, e2, m2, z2, l2, h2) = h in
          Ends-eq lib lex matched _ _ _ _ (more_scalar vs c x rest _ (closing b) (make b) y r) (
            Ends-le lib lex matched (suc (suc (suc (suc (suc (suc (4 * length rest + 9))))))) _ _ _
              (omega arith)
              (behind_comma_lem b vs s s' c e y (
                element_lem x k behind_comma null_value ((13, seq vs) ∷ base b) s' s2
                  (suc (suc (4 * length rest + 9))) _ i e2 m2
                  (λ v. shift_next b vs v s2 _ _ (series rest b (vs ++ v ∷ []) s2 h2)))))
    ]
    | inr n ↦ Ends-eq lib lex matched _ _ _ _ (rw (more_elements, n) refl) (
        Ends-le lib lex matched 9 _ _ _ (omega arith)
          (no_comma b c (x ∷ rest) vs s (s', e, m, z, l, h) n))
  ]
