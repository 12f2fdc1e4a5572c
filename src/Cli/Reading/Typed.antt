-- ===== src/Cli/Reading/Typed.antt =====
-- The type of the integers that src/cli/parse.cpp reads with std::stoi.
use de_co_f.Base.{
  ℕ, ◌≡◌, inl, inr, refl, ap, sym, subst, ◌∙◌, true, Bool-cases, Option-cases, Option, none, some,
  List, [], ◌∷◌, ◌++◌, Bytes, All, ◌==◌,
}
use de_co_f.Types.{ℤ, Scalar, integer_t, real_t, binary_t, Value, scalar_t, sequence_t, tuple_t}
use de_co_f.Except.{Except, ok, err, out_of_range, other_exception, fault}
use de_co_f.Cli.Parser.Scalars.{Readers, read_scalar, map_ok, escaped_text}
use de_co_f.Cli.Parser.Actions.{Outcome, accepted, aborted, thrown, undefined, default_value}
use de_co_f.Cli.Parser.Grammar.{
  Lexeme, Series, listed, stopped, ScalarKind, boolean, integer, real, string, binary, production,
  kind_of, scalar, more_elements, elements, expression, closed, at_end, single,
}
use de_co_f.Cli.Reading.{parse_value, value_of, parse-total}

module _ (P : ℤ → Type 0) where
  -- The integers of a scalar, and of a value.
  abbrev pub IsTyped : Scalar → Type 0
  IsTyped (integer_t i) = P i
  IsTyped _ = Unit

  abbrev pub IsTypedValue : Value → Type 0
  IsTypedValue (scalar_t x) = IsTyped x
  IsTypedValue (sequence_t xs) = All IsTyped xs
  IsTypedValue (tuple_t xs) = All IsTyped xs

module _ (read : Readers) (P : ℤ → Type 0)
    (ints : (text : Bytes) (i : ℤ) → read.stoi text ≡ ok i → P i) where
  -- A result, if there is one.
  abbrev Ensures : Except Scalar → Type 0
  Ensures (ok x) = IsTyped P x
  Ensures _ = Unit

  map_ok-Ensures :
      {A : Type 0} (f : A → Scalar) (e : Except A)
      → ((a : A) → e ≡ ok a → IsTyped P (f a))
      → Ensures (map_ok f e)
  map_ok-Ensures f (ok a) h = h a refl
  map_ok-Ensures f (err e) h = tt
  map_ok-Ensures f out_of_range h = tt
  map_ok-Ensures f other_exception h = tt
  map_ok-Ensures f fault h = tt

  escaped_text-Ensures : (o : Option Bytes) → Ensures (escaped_text o)
  escaped_text-Ensures none = tt
  escaped_text-Ensures (some s) = tt

  read_scalar-Ensures :
      (k : ScalarKind) (text : Bytes) → Ensures (read_scalar read (production k) text)
  unfolding read_scalar
  read_scalar-Ensures boolean text = tt
  read_scalar-Ensures integer text = map_ok-Ensures integer_t (read.stoi text) (ints text)
  read_scalar-Ensures real text = map_ok-Ensures real_t (read.stod text) (λ a e. tt)
  read_scalar-Ensures string text = escaped_text-Ensures _
  read_scalar-Ensures binary text = map_ok-Ensures binary_t _ (λ a e. tt)

  abbrev EnsuresSome : Option (Except Scalar) → Type 0
  EnsuresSome none = Unit
  EnsuresSome (some e) = Ensures e

  scalar-Ensures : (x : Lexeme) → EnsuresSome (scalar read x)
  unfolding scalar
  scalar-Ensures x = elim (Option-cases (kind_of x.kind)) [
    | inl e ↦ rw (scalar, e) tt
    | inr (k, e) ↦ rw (scalar, e) (read_scalar-Ensures k x.text)
  ]

  All-concat :
      (vs : List Scalar) (v : Scalar)
      → All (IsTyped P) vs
      → IsTyped P v
      → All (IsTyped P) (vs ++ v ∷ [])
  All-concat [] v h k = (k, tt)
  All-concat (w ∷ vs) v (i, h) k = (i, All-concat vs v h k)

  -- What is read is typed, if it is read at all.
  abbrev IsTypedOutcome : Outcome → Type 0
  IsTypedOutcome (accepted v) = IsTypedValue P v
  IsTypedOutcome (aborted v) = IsTypedValue P v
  IsTypedOutcome thrown = Unit
  IsTypedOutcome undefined = Unit

  abbrev IsTypedSeries : Series → Type 0
  IsTypedSeries (listed vs rest) = All (IsTyped P) vs
  IsTypedSeries (stopped o) = IsTypedOutcome o

  abbrev go_on : List Scalar → List Lexeme → Option (Except Scalar) → Series
  go_on vs rest none = stopped (aborted default_value)
  go_on vs rest (some (ok v)) = more_elements read (vs ++ v ∷ []) rest
  go_on vs rest (some (err e)) = stopped thrown
  go_on vs rest (some out_of_range) = stopped thrown
  go_on vs rest (some other_exception) = stopped thrown
  go_on vs rest (some fault) = stopped undefined

  go_on-IsTypedSeries :
      (vs : List Scalar) (rest : List Lexeme) (o : Option (Except Scalar))
      → EnsuresSome o
      → ((v : Scalar) → IsTyped P v → IsTypedSeries (more_elements read (vs ++ v ∷ []) rest))
      → IsTypedSeries (go_on vs rest o)
  go_on-IsTypedSeries vs rest none h k = tt
  go_on-IsTypedSeries vs rest (some (ok v)) h k = k v h
  go_on-IsTypedSeries vs rest (some (err e)) h k = tt
  go_on-IsTypedSeries vs rest (some out_of_range) h k = tt
  go_on-IsTypedSeries vs rest (some other_exception) h k = tt
  go_on-IsTypedSeries vs rest (some fault) h k = tt

  more_elements-go_on :
      (vs : List Scalar) (c x : Lexeme) (rest : List Lexeme) (o : Option (Except Scalar))
      → (c.kind == b',') ≡ true
      → scalar read x ≡ o
      → more_elements read vs (c ∷ x ∷ rest) ≡ go_on vs rest o
  unfolding more_elements
  more_elements-go_on vs c x rest none e f = rw (more_elements, e, f) refl
  more_elements-go_on vs c x rest (some (ok v)) e f = rw (more_elements, e, f) refl
  more_elements-go_on vs c x rest (some (err z)) e f = rw (more_elements, e, f) refl
  more_elements-go_on vs c x rest (some out_of_range) e f = rw (more_elements, e, f) refl
  more_elements-go_on vs c x rest (some other_exception) e f = rw (more_elements, e, f) refl
  more_elements-go_on vs c x rest (some fault) e f = rw (more_elements, e, f) refl

  more_elements-IsTypedSeries :
      (ts : List Lexeme) (vs : List Scalar)
      → All (IsTyped P) vs
      → IsTypedSeries (more_elements read vs ts)
  unfolding more_elements
  more_elements-IsTypedSeries [] vs h = h
  more_elements-IsTypedSeries (c ∷ []) vs h = elim (Bool-cases (c.kind == b',')) [
    | inl e ↦ rw e tt
    | inr e ↦ rw e h
  ]
  more_elements-IsTypedSeries (c ∷ x ∷ rest) vs h = elim (Bool-cases (c.kind == b',')) [
    | inr e ↦ rw (more_elements, e) h
    | inl e ↦ subst IsTypedSeries (sym (more_elements-go_on vs c x rest (scalar read x) e refl)) (
        go_on-IsTypedSeries vs rest (scalar read x) (scalar-Ensures x)
          (λ v t. more_elements-IsTypedSeries rest (vs ++ v ∷ []) (All-concat vs v h t)))
  ]

  -- What the rule for a first element makes of the value of its scalar.
  elements-first :
      (x : Lexeme) (rest : List Lexeme) (o : Option (Except Scalar))
      → scalar read x ≡ o
      → EnsuresSome o
      → ((v : Scalar) → IsTyped P v → IsTypedSeries (more_elements read (v ∷ []) rest))
      → IsTypedSeries (elements read (x ∷ rest))
  unfolding elements
  elements-first x rest none e h k = rw (elements, e) tt
  elements-first x rest (some (ok v)) e h k = rw (elements, e) (k v h)
  elements-first x rest (some (err z)) e h k = rw (elements, e) tt
  elements-first x rest (some out_of_range) e h k = rw (elements, e) tt
  elements-first x rest (some other_exception) e h k = rw (elements, e) tt
  elements-first x rest (some fault) e h k = rw (elements, e) tt

  elements-IsTypedSeries : (ts : List Lexeme) → IsTypedSeries (elements read ts)
  unfolding elements
  elements-IsTypedSeries [] = tt
  elements-IsTypedSeries (x ∷ rest) =
      elements-first x rest (scalar read x) refl (scalar-Ensures x)
        (λ v t. more_elements-IsTypedSeries rest (v ∷ []) (t, tt))

  at_end-IsTyped :
      (v : Value) (rest : List Lexeme) → IsTypedValue P v → IsTypedOutcome (at_end v rest)
  at_end-IsTyped v [] h = h
  at_end-IsTyped v (x ∷ rest) h = h

  closed-IsTyped :
      (bracket : ℕ) (make : List Scalar → Value) (s : Series)
      → ((vs : List Scalar) → All (IsTyped P) vs → IsTypedValue P (make vs))
      → IsTypedSeries s
      → IsTypedOutcome (closed bracket make s)
  closed-IsTyped bracket make (stopped o) k h = h
  closed-IsTyped bracket make (listed vs []) k h = tt
  closed-IsTyped bracket make (listed vs (x ∷ rest)) k h = elim (Bool-cases (x.kind == bracket)) [
    | inl e ↦ rw e (at_end-IsTyped (make vs) rest (k vs h))
    | inr e ↦ rw e tt
  ]

  single-IsTyped :
      (o : Option (Except Scalar)) (rest : List Lexeme)
      → EnsuresSome o
      → IsTypedOutcome (single o rest)
  single-IsTyped none rest h = tt
  single-IsTyped (some (ok v)) rest h = at_end-IsTyped (scalar_t v) rest h
  single-IsTyped (some (err e)) rest h = tt
  single-IsTyped (some out_of_range) rest h = tt
  single-IsTyped (some other_exception) rest h = tt
  single-IsTyped (some fault) rest h = tt

  expression-IsTyped : (ts : List Lexeme) → IsTypedOutcome (expression read ts)
  unfolding expression
  expression-IsTyped [] = tt
  expression-IsTyped (x ∷ rest) = elim (Bool-cases (x.kind == b'[')) [
    | inl e ↦
        rw (expression, e)
          (closed-IsTyped b']' sequence_t _ (λ vs h. h) (elements-IsTypedSeries rest))
    | inr e ↦ elim (Bool-cases (x.kind == b'{')) [
      | inl f ↦
          rw (expression, e, f)
            (closed-IsTyped b'}' tuple_t _ (λ vs h. h) (elements-IsTypedSeries rest))
      | inr f ↦ rw (expression, e, f) (single-IsTyped (scalar read x) rest (scalar-Ensures x))
    ]
  ]

  ok_inj : {v w : Value} → ok w ≡ ok v → w ≡ v
  ok_inj e = cc

  value_of-IsTyped :
      (o : Outcome) (v : Value) → IsTypedOutcome o → value_of (some o) ≡ ok v → IsTypedValue P v
  value_of-IsTyped (accepted w) v h e = subst (IsTypedValue P) (ok_inj e) h
  value_of-IsTyped (aborted w) v h e = subst (IsTypedValue P) (ok_inj e) h
  value_of-IsTyped thrown v h e = absurd cc
  value_of-IsTyped undefined v h e = absurd cc

  -- Let every integer that std::stoi returns satisfy a property, for instance that it fits an int. Then so
  -- do the integer that `parse_value` reads, and every integer of the sequence or tuple that it reads.
  pub parse_value-IsTyped : (s : Bytes) (v : Value) → parse_value read s ≡ ok v → IsTypedValue P v
  unfolding parse_value
  parse_value-IsTyped s v e =
      let (ts, h, p) = parse-total read s in
      value_of-IsTyped (expression read ts) v (expression-IsTyped ts) (sym (ap value_of p) ∙ e)
