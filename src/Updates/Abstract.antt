-- ===== src/Updates/Abstract.antt =====
-- The queue that src/cli/update_container.cpp stands for: one entry for each key, in the order in
-- which the keys were first pushed.
use de_co_f.Base.{
  ℕ, Bool, false, ◌≡◌, ◌||◌, Option, none, some, List, [], ◌∷◌, ◌++◌, if◌then◌else◌, Bytes,
  bytes_eq,
}
use de_co_f.Types.{Value}

abbrev pub Queue : Type 0
Queue = List (Bytes × Value × ℕ)

abbrev pub has_key : Bytes → Queue → Bool
has_key k [] = false
has_key k ((j, _, _) ∷ q) = bytes_eq j k || has_key k q

abbrev pub replace : Bytes → Value → ℕ → Queue → Queue
replace k v t [] = []
replace k v t ((j, w, s) ∷ q) =
    (j, (if bytes_eq j k then v else w), (if bytes_eq j k then t else s)) ∷ replace k v t q

-- A pending key keeps its place and gets the new value and time; a new key goes to the end.
abbrev pub enqueue : Bytes → Value → ℕ → Queue → Queue
enqueue k v t q = if has_key k q then replace k v t q else q ++ (k, v, t) ∷ []

abbrev pub Distinct : Queue → Type 0
Distinct [] = Unit
Distinct ((k, _, _) ∷ q) = (has_key k q ≡ false) × Distinct q

abbrev pub last_key : Queue → Option Bytes
last_key [] = none
last_key ((k, _, _) ∷ []) = some k
last_key (_ ∷ x ∷ q) = last_key (x ∷ q)
