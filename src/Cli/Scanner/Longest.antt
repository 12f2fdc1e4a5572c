-- ===== src/Cli/Scanner/Longest.antt =====
-- What the scanner of src/cli/lex.cpp matches, by the automaton.
use de_co_f.Base.{
  ℕ, zero, suc, ◌+◌, ◌<◌, ◌≡◌, ◌⊎◌, inl, inr, refl, ap, sym, subst, ◌∙◌, true, false, Option-cases,
  Option, none, some, [], ◌∷◌, ◌++◌, arith, length, length-append, append_assoc, append-nil, Bytes,
  some_inj, some-none,
}
use de_co_f.Types.{ℤ, pos}
use de_co_f.Cli.Scanner.{
  Scanner, reset, updated, lex_round, lex_loop, lex, again, returned, triangle, get_range,
  action_type, act, known_final_state, execute_rule, continue_char, acted, matched_round,
}
use de_co_f.Cli.Scanner.Characters.{remaining, close, Input, get}
use de_co_f.Cli.Scanner.Operations.{transition-eof}
use de_co_f.Cli.Scanner.Tables.{transition, rule_of, range_of}
use de_co_f.Cli.Scanner.Matches.{
  state_after, Stops, Reads, get-Reads, re_read-Reads, round_lem, continue_lem, stop_lem, whole,
  match_lem,
}

-- A round that returns what was matched.
return_round :
    (r : ℕ) (s : Scanner) (ch : Option ℕ) (j : Input) (t : ℤ)
    → get s.input ≡ (ch, j)
    → transition s.state (get_range ch) ≡ none
    → rule_of s.state ≡ some r
    → s.final_bol ≡ none
    → execute_rule r s.matched ≡ (t, true)
    → lex_round s ≡ returned t (whole r ch (record s { input = j }))
return_round r s ch j t g z q b e =
    round_lem s ch j (some r) g q
    ∙ stop_lem r (record s { input = j }) ch z
    ∙ ap matched_round (match_lem r (record s { input = j }) ch b)
    ∙ ap (λ a. acted a (whole r ch (record s { input = j }))) e

-- What a returned token leaves.
abbrev pub Returned : Option (ℤ × Scanner) → ℤ → Bytes → Bytes → Type 0
Returned o t text rest = (s : Scanner) × (o ≡ some (t, s)) × (s.matched ≡ text) × Reads s.input rest

loop_returned :
    (fuel : ℕ) (s s' : Scanner) (t : ℤ)
    → lex_round s ≡ returned t s'
    → lex_loop (suc fuel) s ≡ some (t, s')
unfolding lex_loop
loop_returned fuel s s' t e = rw (lex_loop, e) refl

loop_again :
    (fuel : ℕ) (s s' : Scanner) → lex_round s ≡ again s' → lex_loop (suc fuel) s ≡ lex_loop fuel s'
unfolding lex_loop
loop_again fuel s s' e = rw (lex_loop, e) refl

stop_loop :
    (fuel r : ℕ) (s : Scanner) (rest : Bytes) (t : ℤ)
    → Reads s.input rest
    → Stops s.state rest
    → rule_of s.state ≡ some r
    → s.final_bol ≡ none
    → execute_rule r s.matched ≡ (t, true)
    → Returned (lex_loop (suc fuel) s) t s.matched rest
unfolding get_range
stop_loop fuel r s [] t h z q b e =
    let (j, g, k) = get-Reads s.input [] h in
    (
      _,
      loop_returned fuel s _ t (return_round r s none j t g (transition-eof s.state) q b e),
      refl,
      k,
    )
stop_loop fuel r s (c ∷ cs) t h (z, l) q b e =
    let (j, g, k) = get-Reads s.input (c ∷ cs) h in
    (
      _,
      loop_returned fuel s _ t (return_round r s (some c) j t g z q b e),
      refl,
      re_read-Reads c j cs l k,
    )

updated_fields :
    (r : Option ℕ) (s : Scanner)
    → ((updated r s).input ≡ s.input)
      × ((updated r s).matched ≡ s.matched)
      × ((updated r s).final_bol ≡ s.final_bol)
updated_fields none s = (refl, refl, refl)
updated_fields (some r) s = (refl, refl, refl)

pub state_after-none :
    (n c : ℕ) (w : Bytes) → transition n (range_of c) ≡ none → state_after n (c ∷ w) ≡ none
state_after-none n c w e = rw (state_after, e) refl

pub state_after-some :
    (n c m : ℕ) (w : Bytes)
    → transition n (range_of c) ≡ some m
    → state_after n (c ∷ w) ≡ state_after m w
state_after-some n c m w e = rw (state_after, e) refl

-- The loop on characters that lead to a state that nothing continues.
scan_loop :
    (w : Bytes) (fuel q r : ℕ) (s : Scanner) (rest : Bytes) (t : ℤ)
    → state_after s.state w ≡ some q
    → rule_of q ≡ some r
    → Stops q rest
    → Reads s.input (w ++ rest)
    → s.final_bol ≡ none
    → execute_rule r (s.matched ++ w) ≡ (t, true)
    → length w < fuel
    → Returned (lex_loop fuel s) t (s.matched ++ w) rest
unfolding continue_char
scan_loop w zero q r s rest t a k z h b e l = absurd (omega (arith, l))
scan_loop [] (suc fuel) q r s rest t a k z h b e l =
    let i = some_inj a in
    let m = append-nil s.matched in
    subst (λ x. Returned (lex_loop (suc fuel) s) t x rest) (sym m)
      (stop_loop fuel r s rest t h (subst (λ x. Stops x rest) (sym i) z) (ap rule_of i ∙ k) b
        (ap (execute_rule r) (sym m) ∙ e))
scan_loop (c ∷ w) (suc fuel) q r s rest t a k z h b e l =
    elim (Option-cases (transition s.state (range_of c))) [
      | inl n ↦ absurd (some-none (sym a ∙ state_after-none s.state c w n))
      | inr (m, i) ↦
          let (j, g, h') = get-Reads s.input (c ∷ (w ++ rest)) h in
          let s1 : Scanner = record s { input = j } in
          let (f0, f1, f2) = updated_fields (rule_of s.state) s1 in
          let s2 : Scanner = continue_char m (some c) (updated (rule_of s.state) s1) in
          let d =
            round_lem s (some c) j (rule_of s.state) g refl
            ∙ continue_lem (rule_of s.state) s1 c m i in
          let text : s2.matched ++ w ≡ s.matched ++ (c ∷ w) =
            ap (λ x. (x ++ c ∷ []) ++ w) f1 ∙ append_assoc s.matched (c ∷ []) w in
          subst (λ o. Returned o t (s.matched ++ (c ∷ w)) rest) (sym (loop_again fuel s s2 d))
            (subst (λ x. Returned (lex_loop fuel s2) t x rest) text
              (scan_loop w fuel q r s2 rest t (sym (state_after-some s.state c m w i) ∙ a) k z
                (subst (λ x. Reads x (w ++ rest)) (sym f0) h') (f2 ∙ b)
                (ap (execute_rule r) text ∙ e) (omega (arith, l))))
    ]

remaining_lem : (i : Input) (text : Bytes) → Reads i text → remaining i ≡ length text
unfolding remaining
remaining_lem i text (rest, e, f) = rw e (omega (arith, ap length f, length-append i.pending rest))

longest_reset :
    (w : Bytes) (q r : ℕ) (s : Scanner) (rest : Bytes) (t : ℤ) (fuel : ℕ)
    → state_after 0 w ≡ some q
    → rule_of q ≡ some r
    → Stops q rest
    → Reads s.input (w ++ rest)
    → execute_rule r w ≡ (t, true)
    → length w < fuel
    → Returned (lex_loop fuel (reset s)) t w rest
unfolding reset
longest_reset w q r s rest t fuel a k z h e l =
    scan_loop w fuel q r (reset s) rest t a k z h refl e l

-- What the automaton reads up to a state that matches a rule, and that nothing continues, is the next
-- token, and what follows it is left.
pub lex-longest :
    (w : Bytes) (q r : ℕ) (s : Scanner) (rest : Bytes) (t : ℤ)
    → state_after 0 w ≡ some q
    → rule_of q ≡ some r
    → Stops q rest
    → Reads s.input (w ++ rest)
    → execute_rule r w ≡ (t, true)
    → Returned (lex s) t w rest
unfolding lex reset
lex-longest w q r s rest t a k z h e =
    scan_loop w (suc (triangle (remaining s.input) + remaining s.input)) q r (reset s) rest t a k z
      h refl e (omega (arith, remaining_lem s.input (w ++ rest) h, length-append w rest))

rule_of_start : rule_of 0 ≡ none
unfolding rule_of
rule_of_start = refl

end_round :
    (s : Scanner) (j : Input)
    → get s.input ≡ (none, j)
    → lex_round (reset s) ≡ returned (pos 0) (record (reset s) { input = close j })
unfolding reset act action_type get_range known_final_state
end_round s j g =
    round_lem (reset s) none j none g rule_of_start ∙ rw (transition-eof 0) (ground arith)

-- Nothing is left: the end of the input.
pub lex-end : (s : Scanner) → Reads s.input [] → (s' : Scanner) × (lex s ≡ some (pos 0, s'))
unfolding lex
lex-end s h =
    let (j, g, k) = get-Reads s.input [] h in
    (
      _,
      loop_returned (triangle (remaining s.input) + remaining s.input) (reset s) _ (pos 0)
          (end_round s j g),
    )

-- The rule for blanks does not return.
blank_round :
    (s : Scanner) (ch : Option ℕ) (j : Input)
    → get s.input ≡ (ch, j)
    → s.state ≡ 1
    → transition 1 (get_range ch) ≡ none
    → s.final_bol ≡ none
    → lex_round s ≡ again (reset (record (whole 5 ch (record s { input = j })) { returns = false }))
unfolding rule_of execute_rule
blank_round s ch j g q z b =
    round_lem s ch j (some 5) g (ap rule_of q)
    ∙ stop_lem 5 (record s { input = j }) ch (ap (λ n. transition n (get_range ch)) q ∙ z)
    ∙ ap matched_round (match_lem 5 (record s { input = j }) ch b)

blank_transition : transition 0 (range_of b' ') ≡ some 1
unfolding transition range_of
blank_transition = refl

-- A blank before a token is skipped.
skip_blank :
    (s : Scanner) (c : ℕ) (text : Bytes)
    → Reads s.input (b' ' ∷ c ∷ text)
    → Stops 1 (c ∷ text)
    → (s' : Scanner) × ((fuel : ℕ) → lex_loop (suc (suc fuel)) (reset s) ≡ lex_loop fuel (reset s'))
      × Reads s'.input (c ∷ text)
unfolding reset get_range continue_char
skip_blank s c text h (z, l) =
    let (j, g, h1) = get-Reads s.input (b' ' ∷ c ∷ text) h in
    let s1 : Scanner = continue_char 1 (some b' ') (record (reset s) { input = j }) in
    let d =
      round_lem (reset s) (some b' ') j none g rule_of_start
      ∙ continue_lem none (record (reset s) { input = j }) b' ' 1 blank_transition in
    let (k, g2, h2) = get-Reads j (c ∷ text) h1 in
    (
      record (whole 5 (some c) (record s1 { input = k })) { returns = false },
      λ fuel.
          loop_again (suc fuel) (reset s) s1 d
          ∙ loop_again fuel s1 _ (blank_round s1 (some c) k g2 refl z refl),
      re_read-Reads c k text l h2,
    )

-- The input, with at most a blank before it.
abbrev pub Offers : Input → Bytes → Type 0
Offers i text = Reads i text ⊎ (Reads i (b' ' ∷ text) × Stops 1 text)

fuel_lem : (n : ℕ) → suc (triangle (suc n) + suc n) ≡ suc (suc (suc (triangle n + n + n)))
fuel_lem n = omega arith

longest_blank :
    (w : Bytes) (q r : ℕ) (s : Scanner) (rest : Bytes) (t : ℤ)
    → state_after 0 w ≡ some q
    → rule_of q ≡ some r
    → Stops q rest
    → Reads s.input (b' ' ∷ (w ++ rest))
    → Stops 1 (w ++ rest)
    → 0 < length w
    → execute_rule r w ≡ (t, true)
    → Returned (lex s) t w rest
unfolding lex
longest_blank [] q r s rest t a k z h n p e = absurd (omega (arith, p))
longest_blank (c ∷ w) q r s rest t a k z h n p e =
    let (s', f, h') = skip_blank s c (w ++ rest) h n in
    let m : remaining s.input ≡ suc (suc (length (w ++ rest))) = remaining_lem s.input _ h in
    let n1 : ℕ = suc (length (w ++ rest)) in
    let fuel : ℕ = suc (triangle n1 + n1 + n1) in
    let x : suc (triangle (suc n1) + suc n1) ≡ suc (suc fuel) = fuel_lem n1 in
    let y : length (c ∷ w) < fuel = omega (arith, length-append w rest) in
    subst (λ o. Returned o t (c ∷ w) rest)
      (sym (
        ap (λ x. lex_loop (suc (triangle x + x)) (reset s)) m
        ∙ ap (λ x. lex_loop x (reset s)) x
        ∙ f fuel))
      (longest_reset (c ∷ w) q r s' rest t fuel a k z h' e y)

-- The token that comes next, behind a blank or not.
pub lex-offered :
    (w : Bytes) (q r : ℕ) (s : Scanner) (rest : Bytes) (t : ℤ)
    → state_after 0 w ≡ some q
    → rule_of q ≡ some r
    → Stops q rest
    → Offers s.input (w ++ rest)
    → 0 < length w
    → execute_rule r w ≡ (t, true)
    → Returned (lex s) t w rest
lex-offered w q r s rest t a k z (inl h) p e = lex-longest w q r s rest t a k z h e
lex-offered w q r s rest t a k z (inr (h, n)) p e = longest_blank w q r s rest t a k z h n p e
