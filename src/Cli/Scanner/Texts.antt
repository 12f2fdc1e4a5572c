-- ===== src/Cli/Scanner/Texts.antt =====
-- The texts that src/cli/encoder.cpp writes for scalars, as the scanner of src/cli/lex.cpp reads them.
use de_co_f.Base.{
  ℕ, zero, suc, ◌<◌, ◌≡◌, ◌⊎◌, inl, inr, refl, ap, sym, ◌∙◌, Bool, true, false, ◌&&◌, ◌||◌,
  Bool-cases, Option-cases, Option, none, some, [], ◌∷◌, ◌++◌, arith, is_empty, Bytes, All, leb,
  ◌==◌, ==_iff, codes, if◌then◌else◌, some_inj, some-none,
}
use de_co_f.Base.Decimal.{is_digit, decimal, decimal_digits, decimal-ne_empty}
use de_co_f.Types.{ℤ, pos, negsuc}
use de_co_f.Cli.Encoder.{escape_byte, print_decimal}
use de_co_f.Cli.Codec.{escapes}
use de_co_f.Cli.Scanner.Tables.{transition, range_of}
use de_co_f.Cli.Scanner.Longest.{state_after-none, state_after-some}
use de_co_f.Cli.Scanner.Matches.{state_after}

-- A test of every byte.
abbrev pub all_below : ℕ → (ℕ → Bool) → Bool
all_below zero p = true
all_below (suc n) p = p n && all_below n p

pub all_below_lem : (n : ℕ) (p : ℕ → Bool) → all_below n p ≡ true → (c : ℕ) → c < n → p c ≡ true
all_below_lem zero p h c l = absurd (omega (arith, l))
all_below_lem (suc n) p h c l = elim (Bool-cases (c == n)) [
  | inl e ↦ rw ((==_iff c n).0 e) (ground arith)
  | inr e ↦ all_below_lem n p (ground arith) c (ground arith)
]

-- A state behind some characters is the one meant.
abbrev is_state : ℕ → Option ℕ → Bool
is_state m none = false
is_state m (some n) = n == m

is_state_lem : (m : ℕ) (o : Option ℕ) → is_state m o ≡ true → o ≡ some m
is_state_lem m none e = absurd cc
is_state_lem m (some n) e = ap some ((==_iff n m).0 e)

abbrev pub implies : Bool → Bool → Bool
implies true b = b
implies false b = true

pub implies_lem : (a b : Bool) → implies a b ≡ true → a ≡ true → b ≡ true
implies_lem true b h e = h
implies_lem false b h e = absurd cc

-- A transition that is the same for a kind of bytes.
kind_of_byte :
    (n m : ℕ) (p : ℕ → Bool)
    → all_below 256 (λ c. implies (p c) (is_state m (transition n (range_of c)))) ≡ true
    → (c : ℕ) → c < 256
    → p c ≡ true
    → transition n (range_of c) ≡ some m
kind_of_byte n m p h c l e = is_state_lem m (transition n (range_of c)) (
    implies_lem (p c) (is_state m (transition n (range_of c)))
      (all_below_lem 256 (λ c. implies (p c) (is_state m (transition n (range_of c)))) h c l) e)

state_after-append :
    (n m : ℕ) (a b : Bytes) → state_after n a ≡ some m → state_after n (a ++ b) ≡ state_after m b
state_after-append n m [] b e = ap (λ k. state_after k b) (some_inj e)
state_after-append n m (c ∷ a) b e = elim (Option-cases (transition n (range_of c))) [
  | inl z ↦ absurd (some-none (sym e ∙ state_after-none n c a z))
  | inr (k, z) ↦
      state_after-some n c k (a ++ b) z
      ∙ state_after-append k m a b (sym (state_after-some n c k a z) ∙ e)
]

digit_transition :
    (n : ℕ)
    → (n ≡ 0) ⊎ (n ≡ 6) ⊎ (n ≡ 8)
    → (c : ℕ) → is_digit c ≡ true
    → transition n (range_of c) ≡ some 8
unfolding transition range_of
digit_transition n (inl e) c d = rw e (kind_of_byte 0 8 is_digit refl c (ground arith) d)
digit_transition n (inr (inl e)) c d = rw e (kind_of_byte 6 8 is_digit refl c (ground arith) d)
digit_transition n (inr (inr e)) c d = rw e (kind_of_byte 8 8 is_digit refl c (ground arith) d)

-- A byte of a string, escaped, leaves the scanner inside the string.
escape_byte_lem : (c : ℕ) → c < 256 → state_after 9 (escape_byte c).0 ≡ some 9
unfolding transition range_of escape_byte
escape_byte_lem c l =
    is_state_lem 9 (state_after 9 (escape_byte c).0)
      (all_below_lem 256 (λ c. is_state 9 (state_after 9 (escape_byte c).0)) refl c l)

digits_run : (w : Bytes) → All (λ c. is_digit c ≡ true) w → state_after 8 w ≡ some 8
digits_run [] h = refl
digits_run (c ∷ w) (d, h) =
    state_after-some 8 c 8 w (digit_transition 8 (inr (inr refl)) c d) ∙ digits_run w h

number_run :
    (n : ℕ) (w : Bytes)
    → (n ≡ 0) ⊎ (n ≡ 6)
    → All (λ c. is_digit c ≡ true) w
    → is_empty w ≡ false
    → state_after n w ≡ some 8
number_run n [] s h e = absurd cc
number_run n (c ∷ w) (inl s) (d, h) e =
    state_after-some n c 8 w (digit_transition n (inl s) c d) ∙ digits_run w h
number_run n (c ∷ w) (inr s) (d, h) e =
    state_after-some n c 8 w (digit_transition n (inr (inl s)) c d) ∙ digits_run w h

minus_transition : transition 0 (range_of b'-') ≡ some 6
unfolding transition range_of
minus_transition = refl

-- A printed integer is read by the rule for integers.
pub print_decimal-run : (i : ℤ) → state_after 0 (print_decimal i) ≡ some 8
unfolding print_decimal
print_decimal-run (pos n) =
    number_run 0 (decimal n) (inl refl) (decimal_digits n) (decimal-ne_empty n)
print_decimal-run (negsuc n) =
    state_after-some 0 b'-' 6 (decimal (suc n)) minus_transition
    ∙ number_run 6 (decimal (suc n)) (inr refl) (decimal_digits (suc n)) (decimal-ne_empty (suc n))

escapes-run : (s : Bytes) → All (λ c. c < 256) s → state_after 9 (escapes s) ≡ some 9
escapes-run [] h = refl
escapes-run (c ∷ cs) (l, h) =
    state_after-append 9 9 (escape_byte c).0 (escapes cs) (escape_byte_lem c l) ∙ escapes-run cs h

same_rows : (c : ℕ) (w : Bytes) → state_after 3 (c ∷ w) ≡ state_after 9 (c ∷ w)
unfolding transition
same_rows c w = refl

-- Behind the opening quote.
behind_quote :
    (w : Bytes) (n : ℕ)
    → state_after 9 (w ++ b'"' ∷ []) ≡ some n
    → state_after 3 (w ++ b'"' ∷ []) ≡ some n
behind_quote [] n e = same_rows b'"' [] ∙ e
behind_quote (c ∷ w) n e = same_rows c (w ++ b'"' ∷ []) ∙ e

quote_run : state_after 9 (b'"' ∷ []) ≡ some 10
unfolding transition range_of
quote_run = refl

opening_quote : transition 0 (range_of b'"') ≡ some 3
unfolding transition range_of
opening_quote = refl

-- A printed string is read by the rule for strings.
pub string-run :
    (s : Bytes) → All (λ c. c < 256) s → state_after 0 (b'"' ∷ (escapes s ++ b'"' ∷ [])) ≡ some 10
string-run s h =
    state_after-some 0 b'"' 3 (escapes s ++ b'"' ∷ []) opening_quote
    ∙ behind_quote (escapes s) 10
        (state_after-append 9 9 (escapes s) (b'"' ∷ []) (escapes-run s h) ∙ quote_run)

-- The characters of base64, with the padding.
abbrev pub is_base64 : ℕ → Bool
is_base64 c =
    is_digit c
    || leb b'A' c && leb c b'Z'
    || leb b'a' c && leb c b'z'
    || c == b'+'
    || c == b'/'
    || c == b'='

base64_transition : (c : ℕ) → is_base64 c ≡ true → transition 5 (range_of c) ≡ some 5
unfolding transition range_of
base64_transition c h = kind_of_byte 5 5 is_base64 refl c (ground arith) h

base64_run : (w : Bytes) → All (λ c. is_base64 c ≡ true) w → state_after 5 w ≡ some 5
base64_run [] h = refl
base64_run (c ∷ w) (d, h) = state_after-some 5 c 5 w (base64_transition c d) ∙ base64_run w h

ampersand : transition 0 (range_of b'&') ≡ some 5
unfolding transition range_of
ampersand = refl

-- A printed byte string is read by the rule for binary values.
pub binary-run : (w : Bytes) → All (λ c. is_base64 c ≡ true) w → state_after 0 (b'&' ∷ w) ≡ some 5
binary-run w h = state_after-some 0 b'&' 5 w ampersand ∙ base64_run w h

pub boolean-run : (b : Bool) → state_after 0 (if b then codes "#t" else codes "#f") ≡ some 12
unfolding transition range_of
boolean-run true = refl
boolean-run false = refl
