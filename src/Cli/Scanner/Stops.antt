-- ===== src/Cli/Scanner/Stops.antt =====
-- What stands behind a text, and what a value begins with.
use de_co_f.Base.{
  ℕ, ◌<◌, ◌≡◌, ◌⊎◌, inl, inr, refl, ap, ◌∙◌, true, none, some, [], ◌∷◌, arith, Bytes,
}
use de_co_f.Base.Decimal.{is_digit}
use de_co_f.Types.{pos}
use de_co_f.Cli.Scanner.{execute_rule}
use de_co_f.Cli.Parser.Grammar.{ScalarKind, boolean, integer, real, string, binary, number}
use de_co_f.Cli.Scanner.Tables.{transition, rule_of, range_of}
use de_co_f.Cli.Scanner.Matches.{state_after, Stops}
use de_co_f.Cli.Scanner.Operations.{is_none, is_none_lem}
use de_co_f.Cli.Scanner.Texts.{all_below_lem, implies, implies_lem}

-- What stands behind a scalar in a printed value.
abbrev pub IsDelimited : Bytes → Type 0
IsDelimited [] = Unit
IsDelimited (c ∷ cs) = (c ≡ b',') ⊎ (c ≡ b']') ⊎ (c ≡ b'}')

Stops-at :
    (n : ℕ) (rest : Bytes)
    → transition n (range_of b',') ≡ none
    → transition n (range_of b']') ≡ none
    → transition n (range_of b'}') ≡ none
    → IsDelimited rest
    → Stops n rest
Stops-at n [] x y z d = tt
Stops-at n (c ∷ cs) x y z (inl e) = (ap (λ j. transition n (range_of j)) e ∙ x, omega (arith, e))
Stops-at n (c ∷ cs) x y z (inr (inl e)) =
    (ap (λ j. transition n (range_of j)) e ∙ y, omega (arith, e))
Stops-at n (c ∷ cs) x y z (inr (inr e)) =
    (ap (λ j. transition n (range_of j)) e ∙ z, omega (arith, e))

-- The state behind a scalar of each kind, and the rule that is matched there.
abbrev pub end_state : ScalarKind → ℕ
end_state boolean = 12
end_state integer = 8
end_state real = 7
end_state string = 10
end_state binary = 5

abbrev pub end_rule : ScalarKind → ℕ
end_rule boolean = 0
end_rule integer = 1
end_rule real = 2
end_rule string = 3
end_rule binary = 4

pub rule_of_end : (k : ScalarKind) → rule_of (end_state k) ≡ some (end_rule k)
unfolding rule_of
rule_of_end boolean = refl
rule_of_end integer = refl
rule_of_end real = refl
rule_of_end string = refl
rule_of_end binary = refl

-- Such a character ends each of them.
pub Stops_lem : (k : ScalarKind) (rest : Bytes) → IsDelimited rest → Stops (end_state k) rest
unfolding transition range_of
Stops_lem boolean rest d = Stops-at 12 rest refl refl refl d
Stops_lem integer rest d = Stops-at 8 rest refl refl refl d
Stops_lem real rest d = Stops-at 7 rest refl refl refl d
Stops_lem string rest d = Stops-at 10 rest refl refl refl d
Stops_lem binary rest d = Stops-at 5 rest refl refl refl d

pub execute_end :
    (k : ScalarKind) (text : Bytes) → execute_rule (end_rule k) text ≡ (pos (number k), true)
unfolding execute_rule
execute_end boolean text = refl
execute_end integer text = refl
execute_end real text = refl
execute_end string text = refl
execute_end binary text = refl

abbrev pub BeginsWithByte : Bytes → Type 0
BeginsWithByte [] = Unit
BeginsWithByte (c ∷ cs) = c < 256

-- A punctuation mark is a token by itself.
pub mark-Stops : (rest : Bytes) → BeginsWithByte rest → Stops 2 rest
unfolding transition
mark-Stops [] h = tt
mark-Stops (c ∷ cs) l = (refl, l)

pub mark_run :
    (c : ℕ)
    → (c ≡ b',') ⊎ (c ≡ b'[') ⊎ (c ≡ b']') ⊎ (c ≡ b'{') ⊎ (c ≡ b'}')
    → (state_after 0 (c ∷ []) ≡ some 2)
      × (rule_of 2 ≡ some 6)
      × (execute_rule 6 (c ∷ []) ≡ (pos c, true))
unfolding transition range_of execute_rule rule_of
mark_run c (inl e) = rw e (refl, refl, refl)
mark_run c (inr (inl e)) = rw e (refl, refl, refl)
mark_run c (inr (inr (inl e))) = rw e (refl, refl, refl)
mark_run c (inr (inr (inr (inl e)))) = rw e (refl, refl, refl)
mark_run c (inr (inr (inr (inr e)))) = rw e (refl, refl, refl)

-- A digit is no blank, and no first byte of a value is.
pub digit_no_blank : (c : ℕ) → is_digit c ≡ true → transition 1 (range_of c) ≡ none
unfolding transition range_of
digit_no_blank c d = is_none_lem (transition 1 (range_of c)) (
    implies_lem (is_digit c) (is_none (transition 1 (range_of c)))
      (all_below_lem 256 (λ c. implies (is_digit c) (is_none (transition 1 (range_of c)))) refl c
        (ground arith))
      d)

pub begin_no_blank :
    (c : ℕ)
    → (c ≡ b'#') ⊎ (c ≡ b'-') ⊎ (c ≡ b'"') ⊎ (c ≡ b'&') ⊎ (c ≡ b'[') ⊎ (c ≡ b'{')
    → (transition 1 (range_of c) ≡ none) × (c < 256)
unfolding transition range_of
begin_no_blank c (inl e) = rw e (refl, omega arith)
begin_no_blank c (inr (inl e)) = rw e (refl, omega arith)
begin_no_blank c (inr (inr (inl e))) = rw e (refl, omega arith)
begin_no_blank c (inr (inr (inr (inl e)))) = rw e (refl, omega arith)
begin_no_blank c (inr (inr (inr (inr (inl e))))) = rw e (refl, omega arith)
begin_no_blank c (inr (inr (inr (inr (inr e))))) = rw e (refl, omega arith)
