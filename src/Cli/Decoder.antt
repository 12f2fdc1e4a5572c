-- ===== src/Cli/Decoder.antt =====
-- `backslash_escape_decoder` of src/cli/decoder.h: `none` is its `parse_error`. The range is the
-- list of its bytes, `out` what has been written through the output iterator.
use de_co_f.Base.{
  ℕ, ◌+◌, ◌-◌, ◌*◌, ◌%◌, Bool, ◌&&◌, ◌||◌, Option, none, some, [], ◌∷◌, ◌++◌, ◌==◌, leb, ltb,
  if◌then◌else◌, Bytes,
}
use de_co_f.Base.Decimal.{is_digit}

-- The local enumeration `state`; `none` is `ordinary`.
pub data State : Type 0 where
  ordinary backslash hex_digit1 hex_digit2 : State

-- The local variables; `hex` is what stands in the stringstream.
pub record Decoder : Type 0 where
  pub state : State
  pub hex : Bytes
  pub out : Bytes

-- `std::toupper` in the C locale.
abbrev pub to_upper : ℕ → ℕ
to_upper c = if leb b'a' c && leb c b'z' then c - 32 else c

abbrev pub is_hex_digit : ℕ → Bool
is_hex_digit c = is_digit c || (leb b'A' (to_upper c) && leb (to_upper c) b'F')

-- The value of a digit in `hex >> std::hex >> n`.
abbrev pub digit_value : ℕ → ℕ
digit_value c = if is_digit c then c - b'0' else to_upper c - (b'A' - 10)

abbrev pub hex_value : ℕ → Bytes → ℕ
hex_value acc [] = acc
hex_value acc (c ∷ cs) = hex_value (acc * 16 + digit_value c) cs

-- The table `escape_characters`; `none` is the exception of `at`.
unfoldable pub escaped : ℕ → Option ℕ
escaped c =
    if c == b'a'
    then some 7
    else if c == b'b'
    then some 8
    else if c == b'f'
    then some 12
    else if c == b'n'
    then some 10
    else if c == b'r'
    then some 13
    else if c == b't'
    then some 9
    else if c == b'v'
    then some 11
    else if c == b'\\'
    then some b'\\'
    else if c == b'\''
    then some b'\''
    else if c == b'"'
    then some b'"'
    else if c == b'?'
    then some b'?'
    else none

abbrev put_escaped : Option ℕ → Decoder → Option Decoder
put_escaped none d = none
put_escaped (some c) d = some (record d { out = d.out ++ c ∷ []; state = ordinary })

-- The switch of the loop.
unfoldable pub step_in : State → ℕ → Decoder → Option Decoder
unfolding escaped
step_in ordinary c d =
    if c == b'\\'
    then some (record d { state = backslash })
    else if ltb c 0x20 || ltb 0x7f c
    then none
    else some (record d { out = d.out ++ c ∷ [] })
step_in backslash c d =
    if to_upper c == b'X' then some (record d { state = hex_digit1 }) else put_escaped (escaped c) d
step_in hex_digit1 c d =
    if is_hex_digit c then some (record d { hex = d.hex ++ c ∷ []; state = hex_digit2 }) else none
step_in hex_digit2 c d =
    if is_hex_digit c
    then some (record {
      state = ordinary;
      hex = [];
      out = d.out ++ (hex_value 0 (d.hex ++ c ∷ []) % 256) ∷ [];
    })
    else none

-- The end of the loop: only an ordinary state is good.
abbrev finish : State → Bytes → Option Bytes
finish ordinary out = some out
finish _ out = none

unfoldable pub run : Bytes → Decoder → Option Bytes
unfolding step_in
run [] d = finish d.state d.out
run (c ∷ cs) d = elim (step_in d.state c d) [ none ↦ none | some d' ↦ run cs d' ]

unfoldable pub backslash_escape_decoder : Bytes → Option Bytes
unfolding run
backslash_escape_decoder s = run s (record { state = ordinary; hex = []; out = [] })
