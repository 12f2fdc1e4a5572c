-- ===== src/Cli/Scanner/Progress.antt =====
-- Every round of the scanner of src/cli/lex.cpp brings it nearer to the end of the input.
use de_co_f.Base.{
  ℕ, zero, suc, ◌+◌, ◌<◌, ◌≤◌, ◌≡◌, ◌⊎◌, inl, inr, refl, ap, Option, some, arith, length,
}
use de_co_f.Types.{ℤ, pos}
use de_co_f.Cli.Scanner.{
  Scanner, reset, lex_round, lex_loop, lex, Round, again, returned, undefined, triangle,
}
use de_co_f.Cli.Scanner.Characters.{remaining}
use de_co_f.Cli.Scanner.Rounds.{
  IsScanning, measure, reset-IsScanning, IsToken, Advances, lex_round-Advances,
}

-- A token comes, and has been taken from the input unless it is the end.
abbrev pub Returns : ℕ → Option (ℤ × Scanner) → Type 0
Returns total o =
    (t : ℤ) × (s : Scanner) × (o ≡ some (t, s))
    × IsToken t
    × ((t ≡ pos 0) ⊎ (remaining s.input < total))
    × (remaining s.input ≤ total)

loop_round :
    (fuel : ℕ) (r : Round) (s : Scanner) (here total m : ℕ)
    → lex_round s ≡ r
    → ((s' : Scanner)
        → IsScanning s'
        → measure s' < fuel
        → remaining s'.input + length s'.matched ≤ total
        → Returns total (lex_loop fuel s'))
    → Advances here m r
    → m ≤ fuel
    → here ≤ total
    → Returns total (lex_loop (suc fuel) s)
unfolding lex_loop
loop_round fuel (again s') s here total m e ih (h, l, k) f g =
    rw (lex_loop, e) (ih s' h (omega (arith, l, f)) (omega (arith, k, g)))
loop_round fuel (returned t s') s here total m e ih (i, l, inl z) f g =
    (t, s', rw (lex_loop, e) refl, i, inl z, omega (arith, l, g))
loop_round fuel (returned t s') s here total m e ih (i, l, inr k) f g =
    (t, s', rw (lex_loop, e) refl, i, inr (omega (arith, k, g)), omega (arith, l, g))
loop_round fuel undefined s here total m e ih a f g = absurd a

-- The loop returns when it has more fuel than the measure.
lex_loop-Returns :
    (fuel : ℕ) (s : Scanner) (total : ℕ)
    → IsScanning s
    → measure s < fuel
    → remaining s.input + length s.matched ≤ total
    → Returns total (lex_loop fuel s)
lex_loop-Returns zero s total h l k = absurd (omega (arith, l))
lex_loop-Returns (suc fuel) s total h l k =
    loop_round fuel (lex_round s) s (remaining s.input + length s.matched) total (measure s) refl
      (λ s' h' l' k'. lex_loop-Returns fuel s' total h' l' k') (lex_round-Advances s h)
      (omega (arith, l)) k

triangle_start : (n : ℕ) → triangle (n + 0) + n < suc (triangle n + n)
triangle_start n = let e : n + 0 ≡ n = omega arith in omega (arith, ap triangle e)

start_lem :
    (s : Scanner) → measure (reset s) < suc (triangle (remaining s.input) + remaining s.input)
unfolding reset
start_lem s = triangle_start (remaining s.input)

remaining-reset :
    (s : Scanner) → remaining (reset s).input + length (reset s).matched ≤ remaining s.input
unfolding reset
remaining-reset s = omega arith

-- The scanner always returns a token: the end of the input, or one that takes from the input.
pub lex-Returns : (s : Scanner) → Returns (remaining s.input) (lex s)
unfolding lex
lex-Returns s =
    lex_loop-Returns (suc (triangle (remaining s.input) + remaining s.input)) (reset s)
      (remaining s.input) (reset-IsScanning s) (start_lem s) (remaining-reset s)
