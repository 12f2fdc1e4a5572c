-- ===== src/Cli/Scanner/Tables.antt =====
-- The tables of the scanner of src/cli/lex.cpp: the ranges of characters and the automaton of the
-- rules of src/cli/scanner.flexc++. A line of a table is written by its runs of equal entries.
use de_co_f.Base.{ℕ, zero, suc, ◌&&◌, Option, none, some, List, [], ◌∷◌, leb, if◌then◌else◌}

-- The last character of each range, and the range.
abbrev ranges : List (ℕ × ℕ)
ranges =
    (8, 0)
    ∷ (9, 1)
    ∷ (10, 2)
    ∷ (31, 3)
    ∷ (32, 4)
    ∷ (33, 5)
    ∷ (34, 6)
    ∷ (35, 7)
    ∷ (37, 8)
    ∷ (38, 9)
    ∷ (42, 10)
    ∷ (43, 11)
    ∷ (44, 12)
    ∷ (45, 13)
    ∷ (46, 14)
    ∷ (47, 15)
    ∷ (57, 16)
    ∷ (60, 17)
    ∷ (61, 18)
    ∷ (64, 19)
    ∷ (68, 20)
    ∷ (69, 21)
    ∷ (90, 22)
    ∷ (91, 23)
    ∷ (92, 24)
    ∷ (96, 25)
    ∷ (100, 26)
    ∷ (101, 27)
    ∷ (102, 28)
    ∷ (115, 29)
    ∷ (116, 30)
    ∷ (122, 31)
    ∷ (255, 32)
    ∷ []

-- The range of the first entry that reaches the character.
abbrev range_in : List (ℕ × ℕ) → ℕ → ℕ
range_in [] c = 32
range_in ((last, r) ∷ more) c = if leb c last then r else range_in more c

-- `s_ranges__`.
unfoldable pub range_of : ℕ → ℕ
range_of c = range_in ranges c

abbrev pub range_of_eof : ℕ
range_of_eof = 33

-- A row: the states that follow, by the first and the last range that leads there, and the rule that
-- is matched when nothing follows. No entry is -1; no rule is bound to the beginning of a line.
pub record Row : Type 0 where
  pub next : List (ℕ × ℕ × ℕ)
  pub rule : Option ℕ

abbrev pub row : List (ℕ × ℕ × ℕ) → Option ℕ → Row
row next rule = record { next = next; rule = rule }

-- `s_dfa__`.
abbrev pub dfa : List Row
dfa =
    row
      ((1, 1, 1)
        ∷ (3, 3, 2)
        ∷ (4, 4, 1)
        ∷ (5, 5, 2)
        ∷ (6, 6, 3)
        ∷ (7, 7, 4)
        ∷ (8, 8, 2)
        ∷ (9, 9, 5)
        ∷ (10, 12, 2)
        ∷ (13, 13, 6)
        ∷ (14, 14, 7)
        ∷ (15, 15, 2)
        ∷ (16, 16, 8)
        ∷ (17, 32, 2)
        ∷ [])
      none
    ∷ row ((1, 1, 1) ∷ (4, 4, 1) ∷ []) (some 5)
    ∷ row [] (some 6)
    ∷ row ((1, 5, 9) ∷ (6, 6, 10) ∷ (7, 23, 9) ∷ (24, 24, 11) ∷ (25, 32, 9) ∷ []) (some 6)
    ∷ row ((28, 28, 12) ∷ (30, 30, 12) ∷ []) (some 6)
    ∷ row ((11, 11, 5) ∷ (15, 16, 5) ∷ (18, 18, 5) ∷ (20, 22, 5) ∷ (26, 31, 5) ∷ []) (some 4)
    ∷ row ((14, 14, 7) ∷ (16, 16, 8) ∷ []) (some 6)
    ∷ row ((16, 16, 7) ∷ (21, 21, 13) ∷ (27, 27, 13) ∷ []) (some 2)
    ∷ row ((14, 14, 7) ∷ (16, 16, 8) ∷ []) (some 1)
    ∷ row ((1, 5, 9) ∷ (6, 6, 10) ∷ (7, 23, 9) ∷ (24, 24, 11) ∷ (25, 32, 9) ∷ []) none
    ∷ row [] (some 3)
    ∷ row ((1, 1, 9) ∷ (3, 32, 9) ∷ []) none
    ∷ row [] (some 0)
    ∷ row ((13, 13, 14) ∷ (16, 16, 15) ∷ []) none
    ∷ row ((16, 16, 15) ∷ []) none
    ∷ row ((16, 16, 15) ∷ []) (some 2)
    ∷ []

abbrev pub row_at : List Row → ℕ → Row
row_at [] n = row [] none
row_at (r ∷ rows) zero = r
row_at (r ∷ rows) (suc n) = row_at rows n

abbrev pub next_in : List (ℕ × ℕ × ℕ) → ℕ → Option ℕ
next_in [] range = none
next_in ((first, last, state) ∷ more) range =
    if leb first range && leb range last then some state else next_in more range

-- `d_dfaBase__[d_state][range]`.
unfoldable pub transition : ℕ → ℕ → Option ℕ
transition state range = next_in (row_at dfa state).next range

-- `d_dfaBase__[d_state][s_finIdx__]`.
unfoldable pub rule_of : ℕ → Option ℕ
rule_of state = (row_at dfa state).rule
