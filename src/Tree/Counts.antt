-- ===== src/Tree/Counts.antt =====
-- How often a child stands in a list of children, for src/core/node.cpp.
use de_co_f.Base.{ℕ, ◌+◌, ◌≡◌, refl, true, false, List, [], ◌∷◌, ◌++◌, arith, ◌==◌, if◌then◌else◌}
use de_co_f.Tree.{mem, without}

abbrev pub count : ℕ → List ℕ → ℕ
count c [] = 0
count c (x ∷ xs) = (if x == c then 1 else 0) + count c xs

pub count-without :
    (c d : ℕ) (xs : List ℕ) → count c (without d xs) ≡ (if d == c then 0 else count c xs)
count-without c d [] = ground arith
count-without c d (x ∷ xs) = ground (arith, count-without c d xs)

pub count-concat :
    (c d : ℕ) (xs : List ℕ) → count c (xs ++ d ∷ []) ≡ count c xs + (if d == c then 1 else 0)
count-concat c d [] = ground arith
count-concat c d (x ∷ xs) = ground (arith, count-concat c d xs)

-- `mem` is the test that the count is positive.
pub mem-count : (c : ℕ) (xs : List ℕ) → mem c xs ≡ (if count c xs == 0 then false else true)
mem-count c [] = refl
mem-count c (x ∷ xs) = ground (arith, mem-count c xs)

pub without_absent : (c : ℕ) (xs : List ℕ) → count c xs ≡ 0 → without c xs ≡ xs
without_absent c [] h = refl
without_absent c (x ∷ xs) h = ground (arith, without_absent c xs)
