-- ===== src/Cli/Scanner/Rounds.antt =====
-- A round of the scanner of src/cli/lex.cpp.
use de_co_f.Base.{
  ℕ, ◌+◌, ◌<◌, ◌≤◌, ◌≡◌, ◌⊎◌, inl, inr, refl, ap, sym, subst, ◌≢◌, is_empty, ◌∙◌, Bool, true, false,
  ltb, ◌==◌, if◌then◌else◌, Bool-cases, Option-cases, Option, none, some, [], ◌∷◌, ◌++◌, arith,
  length, length-append, length-drop, take, drop, Bytes, some_inj, some-none,
}
use de_co_f.Types.{ℤ, pos, negsuc}
use de_co_f.Cli.Scanner.{
  Scanner, FinalData, reset, update_finals, updated, lex_round, Round, again, returned, undefined,
  triangle, get_range, action_type, action_after, known_final_state, match_final, char_text,
  ActionType, continue_with, echo_char, echo_first, match_rule, return_end, available,
  no_transition, act, continue_char, put_back_first, echo_ch, execute_rule, acted, first_token,
  matched_round, matched_as, set_matched_size, final_of,
}
use de_co_f.Cli.Scanner.Characters.{remaining, close, Input, re_read_char}
use de_co_f.Cli.Scanner.Tables.{rule_of, range_of_eof}
use de_co_f.Cli.Scanner.Operations.{
  triangle_lem, get_lem, remaining-re_read_all, remaining-re_read_char, transition-eof,
  rule_of_zero, final_of_std,
}

-- The invariant of the loop: the rule that may be matched has matched a character.
pub record IsScanning (s : Scanner) : Type 0 where
  no_bol : s.final_bol ≡ none
  advanced : (s.state ≡ 0) ⊎ (0 < length s.matched)
  matches : (f : FinalData) → s.final_std ≡ some f → (0 < f.length) × (f.length ≤ length s.matched)

abbrev pub measure : Scanner → ℕ
measure s = triangle (remaining s.input + length s.matched) + remaining s.input

pub reset-IsScanning : (s : Scanner) → IsScanning (reset s)
unfolding reset
reset-IsScanning s = record { no_bol = refl; advanced = inl refl; matches = λ f e. absurd cc }

updated-IsScanning :
    (r : Option ℕ) (s : Scanner) → rule_of s.state ≡ r → IsScanning s → IsScanning (updated r s)
updated-IsScanning none s e h = h
updated-IsScanning (some r) s e h = record {
  no_bol = h.no_bol;
  advanced = h.advanced;
  matches = λ f g. elim h.advanced [
    | inl z ↦ absurd (some-none (sym e ∙ ap rule_of z ∙ rule_of_zero))
    | inr l ↦ let i = some_inj g in rw (sym i) (l, omega arith)
  ];
}

update_finals-IsScanning : (s : Scanner) → IsScanning s → IsScanning (update_finals s)
unfolding update_finals
update_finals-IsScanning s h = updated-IsScanning (rule_of s.state) s refl h

-- What a round comes to: the loop goes on with less before it, or a token is returned, that has been
-- taken from the input unless it is the end.
abbrev pub IsToken : ℤ → Type 0
IsToken (pos n) = n < 262
IsToken (negsuc n) = Unit

abbrev pub Advances : ℕ → ℕ → Round → Type 0
Advances total m (again s) =
    IsScanning s × (measure s < m) × (remaining s.input + length s.matched ≤ total)
Advances total m (returned t s) =
    IsToken t × (remaining s.input ≤ total) × ((t ≡ pos 0) ⊎ (remaining s.input < total))
Advances total m undefined = ⊥

-- When each action is taken.
abbrev Allowed : ActionType → Option ℕ → Scanner → Type 0
Allowed (continue_with n) ch s = (c : ℕ) × (ch ≡ some c)
Allowed echo_char ch s = (c : ℕ) × (ch ≡ some c)
Allowed echo_first ch s = 0 < length s.matched
Allowed match_rule ch s = (f : FinalData) × (s.final_std ≡ some f)
Allowed return_end ch s = Unit

reset-Advances :
    (s : Scanner) (total r : ℕ)
    → remaining s.input < total
    → Advances total (triangle total + r) (again (reset s))
unfolding reset
reset-Advances s total r l = (
  reset-IsScanning s,
  omega (arith, triangle_lem (remaining s.input + 0) total (omega (arith, l))),
  omega (arith, l),
)

first_token-IsToken : (cs : Bytes) → IsToken (first_token cs)
first_token-IsToken [] = omega arith
first_token-IsToken (c ∷ cs) = elim (Bool-cases (ltb c 128)) [
  | inl y ↦ rw y (ground arith)
  | inr n ↦ rw n tt
]

if-IsToken :
    (b : Bool) (x y : ℤ × Bool) → IsToken x.0 → IsToken y.0 → IsToken (if b then x else y).0
if-IsToken true x y h k = h
if-IsToken false x y h k = k

execute_rule-IsToken : (rule : ℕ) (cs : Bytes) → IsToken (execute_rule rule cs).0
unfolding execute_rule
execute_rule-IsToken rule cs = if-IsToken (rule == 0) _ _ (omega arith) (
    if-IsToken (rule == 1) _ _ (omega arith) (
      if-IsToken (rule == 2) _ _ (omega arith) (
        if-IsToken (rule == 3) _ _ (omega arith) (
          if-IsToken (rule == 4) _ _ (omega arith)
            (if-IsToken (rule == 6) _ _ (first_token-IsToken cs) (omega arith))))))

acted-Advances :
    (a : ℤ × Bool) (s : Scanner) (total r : ℕ)
    → IsToken a.0
    → remaining s.input < total
    → Advances total (triangle total + r) (acted a s)
acted-Advances (t, true) s total r k l = (k, omega (arith, l), inr l)
acted-Advances (t, false) s total r k l = reset-Advances (record s { returns = false }) total r l

-- A rule that has matched leaves less than there was.
matched-Advances :
    (f : FinalData) (s : Scanner) (total r : ℕ)
    → 0 < f.length
    → f.length ≤ length s.matched
    → remaining s.input + length s.matched ≤ total
    → Advances total (triangle total + r) (matched_round (matched_as (some f) s))
unfolding set_matched_size
matched-Advances f s total r z l e =
    acted-Advances _ _ total r (execute_rule-IsToken f.rule (take f.length s.matched)) (
      omega (
        arith,
        remaining-re_read_all (drop f.length s.matched) s.input,
        length-drop f.length s.matched,
      ))

continue-Advances :
    (n c : ℕ) (s : Scanner) (total : ℕ)
    → total ≡ 1 + remaining s.input + length s.matched
    → IsScanning s
    → Advances total (triangle total + (1 + remaining s.input)) (again (continue_char n (some c) s))
unfolding continue_char
continue-Advances n c s total e h =
    let l : length (s.matched ++ c ∷ []) ≡ length s.matched + 1 =
      length-append s.matched (c ∷ []) in
    let k : remaining s.input + length (s.matched ++ c ∷ []) ≡ total = omega (arith, l, e) in
    (
      record {
        no_bol = h.no_bol;
        advanced = inr (omega (arith, l));
        matches = λ g i. let (z, m) = h.matches g i in (z, omega (arith, l, m));
      },
      omega (arith, ap triangle k),
      omega (arith, k),
    )

remaining-close : (i : Input) → remaining (close i) ≤ remaining i
unfolding remaining
remaining-close i = omega arith

is_empty_length : (s : Bytes) → is_empty s ≡ false → 0 < length s
is_empty_length [] e = absurd cc
is_empty_length (c ∷ s) e = omega arith

final_lem :
    (f : FinalData) (s : Scanner)
    → IsScanning s
    → s.final_std ≡ some f
    → final_of s.at_bol s.final_bol s.final_std ≡ some f
final_lem f s h g =
    ap (λ o. final_of s.at_bol o s.final_std) h.no_bol
    ∙ ap (final_of s.at_bol none) g
    ∙ final_of_std s.at_bol f

act-Advances :
    (a : ActionType) (ch : Option ℕ) (s : Scanner) (total : ℕ)
    → total ≡ length (char_text ch) + remaining s.input + length s.matched
    → IsScanning s
    → Allowed a ch s
    → Advances total (triangle total + (length (char_text ch) + remaining s.input)) (act a ch s)
unfolding act continue_char put_back_first match_final echo_ch
act-Advances (continue_with n) _ s total e h (c, f) =
    rw f (continue-Advances n c s total (rw f at e) h)
act-Advances echo_char ch s total e h (c, f) =
    reset-Advances (echo_ch ch s) total _ (rw (e, f) (omega arith))
act-Advances echo_first ch s total e h l = reset-Advances (put_back_first ch s) total _ (
    omega (
      arith,
      remaining-re_read_all (drop 1 s.matched) (re_read_char ch s.input),
      remaining-re_read_char ch s.input,
      length-drop 1 s.matched,
    ))
act-Advances match_rule ch s total e h (f, g) =
    let (z, l) = h.matches f g in
    let s' = record s { input = re_read_char ch s.input } in
    subst
      (λ o.
        Advances total (triangle total + (length (char_text ch) + remaining s.input))
          (matched_round (matched_as o s')))
      (sym (final_lem f s h g))
      (matched-Advances f s' total (length (char_text ch) + remaining s.input) z l
        (omega (arith, e, remaining-re_read_char ch s.input)))
act-Advances return_end ch s total e h l =
    (omega arith, omega (arith, remaining-close s.input), inl refl)

known_lem : (s : Scanner) → IsScanning s → known_final_state s ≡ available s.final_std
unfolding known_final_state
known_lem s h = rw h.no_bol (ground arith)

no_transition-Allowed :
    (range : ℕ) (ch : Option ℕ) (s : Scanner)
    → IsScanning s
    → ((range == range_of_eof) ≡ false → (c : ℕ) × (ch ≡ some c))
    → Allowed (no_transition range s) ch s
no_transition-Allowed range ch s h k = elim (Option-cases s.final_std) [
  | inr (f, e) ↦ rw (known_lem s h, e) (f, refl)
  | inl e ↦ elim (Bool-cases (is_empty s.matched)) [
    | inr m ↦ rw (known_lem s h, e, m) (is_empty_length s.matched m)
    | inl m ↦ elim (Bool-cases (range == range_of_eof)) [
      | inl y ↦ rw (known_lem s h, e, m, y) tt
      | inr n ↦ rw (known_lem s h, e, m, n) (k n)
    ]
  ]
]

after-Allowed :
    (o : Option ℕ) (range : ℕ) (ch : Option ℕ) (s : Scanner)
    → IsScanning s
    → ((range == range_of_eof) ≡ false → (c : ℕ) × (ch ≡ some c))
    → (o ≢ none → (c : ℕ) × (ch ≡ some c))
    → Allowed (action_after o range s) ch s
after-Allowed none range ch s h k l = no_transition-Allowed range ch s h k
after-Allowed (some n) range ch s h k l = l some-none

action_type-Allowed :
    (ch : Option ℕ) (s : Scanner) → IsScanning s → Allowed (action_type (get_range ch) s) ch s
unfolding action_type get_range
action_type-Allowed none s h =
    after-Allowed _ range_of_eof none s h (λ e. absurd cc)
      (λ n. absurd (n (transition-eof s.state)))
action_type-Allowed (some c) s h =
    after-Allowed _ (get_range (some c)) (some c) s h (λ e. (c, refl)) (λ n. (c, refl))

-- The round behind `get`.
acts-Advances :
    (r : Option ℕ) (ch : Option ℕ) (s : Scanner) (total : ℕ)
    → rule_of s.state ≡ r
    → total ≡ length (char_text ch) + remaining s.input + length s.matched
    → IsScanning s
    → Advances total
        (triangle total + (length (char_text ch) + remaining s.input))
        (act (action_type (get_range ch) (updated r s)) ch (updated r s))
acts-Advances none ch s total q e h = act-Advances _ ch s total e h (action_type-Allowed ch s h)
acts-Advances (some r) ch s total q e h =
    let k = updated-IsScanning (some r) s q h in
    act-Advances _ ch (updated (some r) s) total e k (action_type-Allowed ch (updated (some r) s) k)

-- A round goes on nearer to the end, or returns.
pub lex_round-Advances :
    (s : Scanner)
    → IsScanning s
    → Advances (remaining s.input + length s.matched) (measure s) (lex_round s)
unfolding lex_round update_finals
lex_round-Advances s h =
    let (c, j, e, r) = get_lem s.input in
    let total = remaining s.input + length s.matched in
    let s' = record s { input = j } in
    subst
      (λ x. Advances total (measure s) (
        act (action_type (get_range x.0) (update_finals (record s { input = x.1 }))) x.0
          (update_finals (record s { input = x.1 }))))
      (sym e)
      (subst
        (λ m.
          Advances total (triangle total + m)
            (act (action_type (get_range c) (update_finals s')) c (update_finals s')))
        (sym r)
        (acts-Advances (rule_of s.state) c s' total refl (omega (arith, r))
          (record { no_bol = h.no_bol; advanced = h.advanced; matches = h.matches })))
