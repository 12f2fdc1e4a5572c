-- ===== src/Cli/Reading.antt =====
-- How src/cli/clisrv_context.cpp reads the value of a request: the parser of src/cli/parse.cpp on the
-- scanner of src/cli/lex.cpp.
pub mod Printed
pub mod Scanned
pub mod RoundTrip
pub mod Requests
pub mod Typed
use de_co_f.Base.{
  ℕ, zero, suc, ◌+◌, ◌*◌, ◌<◌, ◌≤◌, ◌≡◌, ◌⊎◌, inl, inr, refl, ap, sym, subst, ◌∙◌, Bool-cases,
  false, Option-cases, Option, none, some, List, [], ◌∷◌, arith, length, Bytes, ◌==◌, ==_iff,
  some_inj, some-none,
}
use de_co_f.Types.{ℤ, pos, negsuc, Scalar, Value, scalar_t}
use de_co_f.Types.Errors.{parse_error}
use de_co_f.Except.{Except, ok, err, fault}
use de_co_f.Cli.Scanner.{Scanner, lex, new_scanner}
use de_co_f.Cli.Scanner.Characters.{remaining}
use de_co_f.Cli.Scanner.Progress.{Returns, lex-Returns}
use de_co_f.Cli.Scanner.Rounds.{IsToken}
use de_co_f.Cli.Parser.Tables.{end_of_input}
use de_co_f.Cli.Parser.Scalars.{Readers}
use de_co_f.Cli.Parser.Actions.{Outcome, accepted, aborted, thrown, undefined}
use de_co_f.Cli.Parser.Automaton.{token_of, parse}
use de_co_f.Cli.Parser.Grammar.{
  Lexeme, expression, scalar, kind_of, single, number, ScalarKind, boolean, integer, real, string,
  binary,
}
use de_co_f.Cli.Parser.Lookups.{kind_of_lem}
use de_co_f.Cli.Parser.Runs.{Lexes}
use de_co_f.Cli.Parser.Equivalence.{parse-expression}

abbrev pub matched : Scanner → Bytes
matched s = s.matched

-- What is read when the parser ends: what `parse` returns is not looked at.
abbrev pub value_of : Option Outcome → Except Value
value_of none = fault
value_of (some (accepted v)) = ok v
value_of (some (aborted v)) = ok v
value_of (some thrown) = err parse_error
value_of (some undefined) = fault

suc_inj : (m n : ℕ) → suc m ≡ suc n → m ≡ n
suc_inj m n e = omega (arith, e)

pos_inj : {m n : ℕ} → pos m ≡ pos n → m ≡ n
pos_inj e = cc

numbers : (k : ScalarKind) → ((number k == b'[') ≡ false) × ((number k == b'{') ≡ false)
numbers boolean = (refl, refl)
numbers integer = (refl, refl)
numbers real = (refl, refl)
numbers string = (refl, refl)
numbers binary = (refl, refl)

kind_no_bracket :
    (n : ℕ) (k : ScalarKind) → kind_of n ≡ some k → ((n == b'[') ≡ false) × ((n == b'{') ≡ false)
kind_no_bracket n k h = let e = kind_of_lem n k h in rw e (numbers k)

module _ (lib : Readers) where
  no_bracket :
      (x : Lexeme) (v : Except Scalar)
      → scalar lib x ≡ some v
      → ((x.kind == b'[') ≡ false) × ((x.kind == b'{') ≡ false)
  unfolding scalar
  no_bracket x v e = elim (Option-cases (kind_of x.kind)) [
    | inl n ↦ absurd (let e' = rw (scalar, n) at e in some-none (sym e'))
    | inr (k, h) ↦ kind_no_bracket x.kind k h
  ]

  -- The value behind the words of a request.
  unfoldable pub parse_value : Bytes → Except Value
  parse_value s = value_of (parse lib lex matched (4 * length s + 16) (new_scanner s))

  trailing :
      (x y : Lexeme) (rest : List Lexeme) (v : Scalar)
      → scalar lib x ≡ some (ok v)
      → expression lib (x ∷ y ∷ rest) ≡ aborted (scalar_t v)
  unfolding expression
  trailing x y rest v e =
      let (a, b) = no_bracket x (ok v) e in rw (expression, a, b) (ap (λ o. single o (y ∷ rest)) e)

  -- The tokens of an input.
  abbrev pub Tokens : Scanner → List Lexeme → Type 0
  Tokens = Lexes lib lex matched

  -- The tokens from a scanner on, no more than so many.
  abbrev Found : ℕ → Scanner → Type 0
  Found n s = (ts : List Lexeme) × Tokens s ts × (length ts ≤ n)

  Found-token :
      (n : ℕ) (s : Scanner) (t : ℤ) (s' : Scanner)
      → lex s ≡ some (t, s')
      → IsToken t
      → (t ≡ pos 0) ⊎ (remaining s'.input < remaining s.input)
      → remaining s.input ≤ n
      → ((m : ℕ) → n ≡ suc m → remaining s'.input ≤ m → Found m s')
      → Found n s
  unfolding token_of
  Found-token n s (negsuc k) s' e i a l ih = ([], (_, s', e, refl), omega arith)
  Found-token n s (pos zero) s' e i a l ih = ([], (_, s', e, refl), omega arith)
  Found-token n s (pos (suc k)) s' e i (inl z) l ih = absurd cc
  Found-token zero s (pos (suc k)) s' e i (inr r) l ih = absurd (omega (arith, r, l))
  Found-token (suc n) s (pos (suc k)) s' e i (inr r) l ih =
      let (ts, h, m) = ih n refl (omega (arith, r, l)) in
      (
        record { kind = suc k; text = s'.matched } ∷ ts,
        (s', e, refl, omega arith, omega (arith, i), h),
        omega (arith, m),
      )

  tokens_at : (n : ℕ) (s : Scanner) → remaining s.input ≤ n → Found n s
  tokens_at zero s l =
      let (t, s', e, i, a, r) = lex-Returns s in
      Found-token zero s t s' e i a l (λ m z k. absurd (omega (arith, z)))
  tokens_at (suc n) s l =
      let (t, s', e, i, a, r) = lex-Returns s in
      Found-token (suc n) s t s' e i a l
        (λ m z k. subst (λ j. Found j s') (suc_inj n m z) (tokens_at n s' (omega (arith, z, k))))

  taken :
      (total n : ℕ) (o : Option (ℤ × Scanner)) (s' : Scanner)
      → Returns total o
      → o ≡ some (pos n, s')
      → 0 < n
      → remaining s'.input < total
  taken total n o s' (t, s'', e, i, inl z, l) f p =
      let g = some_inj (sym e ∙ f) in absurd (omega (arith, p, pos_inj (sym z ∙ ap (λ x. x.0) g)))
  taken total n o s' (t, s'', e, i, inr k, l) f p =
      let g = some_inj (sym e ∙ f) in
      subst (λ (x : Scanner). remaining x.input < total) (ap (λ x. x.1) g) k

  -- There are no more tokens than bytes.
  pub Tokens-length : (ts : List Lexeme) (s : Scanner) → Tokens s ts → length ts ≤ remaining s.input
  Tokens-length [] s h = omega arith
  Tokens-length (x ∷ xs) s (s', e, m, z, l, h) = omega (
    arith,
    Tokens-length xs s' h,
    taken (remaining s.input) x.kind (lex s) s' (lex-Returns s) e z,
  )

  pub new_remaining : (s : Bytes) → remaining (new_scanner s).input ≡ length s
  unfolding new_scanner remaining
  new_remaining s = omega arith

  -- On every input the scanner and the parser end: the input has tokens, up to the end or to a byte
  -- that counts as the end, and the parser does what the grammar says of them.
  pub parse-total :
      (s : Bytes)
      → (ts : List Lexeme) × Tokens (new_scanner s) ts
        × (parse lib lex matched (4 * length s + 16) (new_scanner s) ≡ some (expression lib ts))
  parse-total s =
      let (ts, h, l) = tokens_at (length s) (new_scanner s) (omega (arith, new_remaining s)) in
      (
        ts,
        h,
        parse-expression lib lex matched ts (new_scanner s) (4 * length s + 16) h
            (omega (arith, l)),
      )

  -- Let the tokens of an input be a scalar that can be read, and more. Then `parse` fails, but the scalar is
  -- the value that is read.
  pub parse_value_trailing :
      (s : Bytes) (x y : Lexeme) (rest : List Lexeme) (v : Scalar)
      → Tokens (new_scanner s) (x ∷ y ∷ rest)
      → scalar lib x ≡ some (ok v)
      → (parse lib lex matched (4 * length s + 16) (new_scanner s) ≡ some (aborted (scalar_t v)))
        × (parse_value s ≡ ok (scalar_t v))
  unfolding parse_value
  parse_value_trailing s x y rest v h e =
      let l = Tokens-length (x ∷ y ∷ rest) (new_scanner s) h in
      let p =
        parse-expression lib lex matched (x ∷ y ∷ rest) (new_scanner s) (4 * length s + 16) h
          (omega (arith, l, new_remaining s))
        ∙ ap some (trailing x y rest v e) in
      (p, ap value_of p)
