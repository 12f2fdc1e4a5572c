-- ===== src/Base/Decimal.antt =====
-- What an ostream writes for an unsigned integer, and a reader of it.
use Prim.Native.Nat.{ℕ, zero, suc, ◌+◌, ◌-◌, ◌*◌, ◌/◌, ◌%◌, ◌^◌, ◌<◌}
use mathlib.Core.Path.{◌≡◌, refl, ◌∙◌}
use mathlib.Core.Logic.{inl, inr}
use mathlib.Core.Bool.{Bool, true, false, ◌&&◌}
use mathlib.Core.List.{[], ◌∷◌, ◌++◌}
use mathlib.Core.Option.{Option, none, some}
use native.Mathlib.Omega.{arith}
use de_co_f.Base.Tests.{ltb, leb, if◌then◌else◌, Bool-cases, lt→ltb}
use de_co_f.Base.Lists.{Bytes, All, is_empty}

-- `std::isdigit` in the C locale.
abbrev pub is_digit : ℕ → Bool
is_digit c = leb b'0' c && leb c b'9'

-- The fuel bounds the number of digits.
digits : ℕ → ℕ → Bytes
digits zero n = []
digits (suc fuel) n =
    let rest = digits fuel (n / 10) ++ (b'0' + n % 10) ∷ [] in
    if ltb n 10 then (b'0' + n) ∷ [] else rest

unfoldable pub decimal : ℕ → Bytes
unfolding digits
decimal n = digits (suc n) n

-- The number that digits spell behind `acc`.
abbrev value : ℕ → Bytes → ℕ
value acc [] = acc
value acc (c ∷ cs) = value (acc * 10 + (c - b'0')) cs

abbrev all_digits : Bytes → Bool
all_digits [] = true
all_digits (c ∷ cs) = is_digit c && all_digits cs

-- Reads a non-empty run of digits that fits into a size_t.
unfoldable pub read_decimal : Bytes → Option ℕ
read_decimal s =
    if is_empty s
    then none
    else if all_digits s && ltb (value 0 s) (2 ^ 64)
    then some (value 0 s)
    else none

all_digits-concat :
    (s : Bytes) (c : ℕ) → all_digits s ≡ true → is_digit c ≡ true → all_digits (s ++ c ∷ []) ≡ true
all_digits-concat [] c h d = ground arith
all_digits-concat (x ∷ s) c h d = ground (arith, all_digits-concat s c)

value-concat : (s : Bytes) (acc c : ℕ) → value acc (s ++ c ∷ []) ≡ value acc s * 10 + (c - b'0')
value-concat [] acc c = refl
value-concat (x ∷ s) acc c = value-concat s (acc * 10 + (x - b'0')) c

digits_lem :
    (fuel n : ℕ) → n < fuel → (all_digits (digits fuel n) ≡ true) × (value 0 (digits fuel n) ≡ n)
unfolding digits
digits_lem zero n h = absurd (omega arith)
digits_lem (suc fuel) n h = elim (Bool-cases (ltb n 10)) [
  | inl small ↦ rw small (ground arith, ground arith)
  | inr large ↦
      let (d, v) = digits_lem fuel (n / 10) (ground arith) in
      rw large (
        all_digits-concat (digits fuel (n / 10)) (b'0' + n % 10) d (ground arith),
        value-concat (digits fuel (n / 10)) 0 (b'0' + n % 10) ∙ omega arith,
      )
]

is_empty-concat : (s : Bytes) (c : ℕ) → is_empty (s ++ c ∷ []) ≡ false
is_empty-concat [] c = refl
is_empty-concat (x ∷ s) c = refl

All-of_all_digits : (s : Bytes) → all_digits s ≡ true → All (λ c. is_digit c ≡ true) s
All-of_all_digits [] h = tt
All-of_all_digits (c ∷ s) h = (ground arith, All-of_all_digits s (ground arith))

digits-ne_empty : (fuel n : ℕ) → is_empty (digits (suc fuel) n) ≡ false
unfolding digits
digits-ne_empty fuel n = elim (Bool-cases (ltb n 10)) [
  | inl small ↦ rw small
  | inr large ↦ rw large (is_empty-concat (digits fuel (n / 10)) (b'0' + n % 10))
]

-- A printed number is one or more digits.
pub decimal_digits : (n : ℕ) → All (λ c. is_digit c ≡ true) (decimal n)
unfolding decimal
decimal_digits n = All-of_all_digits (digits (suc n) n) (digits_lem (suc n) n (omega arith)).0

pub decimal-ne_empty : (n : ℕ) → is_empty (decimal n) ≡ false
unfolding decimal
decimal-ne_empty n = digits-ne_empty n n

-- Every size_t is read back from its print.
pub read_decimal-decimal : (n : ℕ) → n < 2 ^ 64 → read_decimal (decimal n) ≡ some n
unfolding read_decimal decimal
read_decimal-decimal n h =
    let (d, v) = digits_lem (suc n) n (omega arith) in
    rw (digits-ne_empty n n, d, v, lt→ltb n (2 ^ 64) h)
