-- ===== src/Tree/Lookup/Fuel.antt =====
-- The fuel of `find_descendant_object` of src/core/node.cpp.
use de_co_f.Base.{ℕ, zero, suc, ◌≤◌, ◌≡◌, refl, Option, none, some, [], ◌∷◌, arith, length, Bytes}
use de_co_f.Tree.{Store}
use de_co_f.Tree.Lookup.{
  until, from, find_child, continue_lookup, find_descendant, find_descendant_object,
}

length-from : (sep : ℕ) (uri : Bytes) → length (from sep uri) ≤ length uri
length-from sep [] = omega arith
length-from sep (c ∷ cs) = ground (arith, length-from sep cs)

-- Two calls that agree on every shorter uri give the same lookup.
continue_lookup_cong :
    (rest : Bytes) (obj : Option ℕ) (s : Store) (f g : Bytes → ℕ → Option ℕ)
    → ((r : Bytes) (c : ℕ) → suc (length r) ≤ length rest → f r c ≡ g r c)
    → continue_lookup rest obj s f ≡ continue_lookup rest obj s g
continue_lookup_cong [] obj s f g h = refl
continue_lookup_cong (x ∷ []) obj s f g h = refl
continue_lookup_cong (x ∷ c ∷ cs) none s f g h = refl
continue_lookup_cong (x ∷ c ∷ cs) (some d) s f g h = ground (arith, h (c ∷ cs) d)

find_descendant_enough :
    (k m : ℕ) (p : ℕ) (uri : Bytes) (sep : ℕ) (s : Store)
    → suc (length uri) ≤ k
    → suc (length uri) ≤ m
    → find_descendant k p uri sep s ≡ find_descendant m p uri sep s
unfolding find_descendant
find_descendant_enough zero m p uri sep s h l = absurd (omega arith)
find_descendant_enough (suc k) zero p uri sep s h l = absurd (omega arith)
find_descendant_enough (suc k) (suc m) p uri sep s h l =
    continue_lookup_cong (from sep uri) (find_child p (until sep uri) s) s
      (λ rest c. find_descendant k c rest sep s) (λ rest c. find_descendant m c rest sep s)
      (λ r c shorter.
        find_descendant_enough k m c r sep s (omega (arith, length-from sep uri))
          (omega (arith, length-from sep uri)))

-- `find_descendant_object` looks up the first segment, and calls itself on the rest.
pub find_descendant_object_step :
    (p : ℕ) (uri : Bytes) (sep : ℕ) (s : Store)
    → find_descendant_object p uri sep s
      ≡ continue_lookup
          (from sep uri)
          (find_child p (until sep uri) s)
          s
          (λ rest c. find_descendant_object c rest sep s)
unfolding find_descendant_object
find_descendant_object_step p uri sep s =
    continue_lookup_cong (from sep uri) (find_child p (until sep uri) s) s
      (λ rest c. find_descendant (length uri) c rest sep s)
      (λ rest c. find_descendant (suc (length rest)) c rest sep s)
      (λ r c shorter.
        find_descendant_enough (length uri) (suc (length r)) c r sep s
          (omega (arith, length-from sep uri)) (omega arith))
