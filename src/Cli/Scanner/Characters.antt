-- ===== src/Cli/Scanner/Characters.antt =====
-- The characters that the scanner of src/cli/lex.cpp takes and puts back.
use de_co_f.Base.{
  ℕ, ◌+◌, ◌-◌, ◌^◌, Option, none, some, [], ◌∷◌, ◌==◌, ltb, if◌then◌else◌, length, Bytes,
}

-- `Input`: the characters that were put back, and the stream behind them.
pub record Input : Type 0 where
  pub pending : Bytes
  pub stream : Option Bytes
  pub line_nr : ℕ

abbrev pub count : Option Bytes → ℕ
count none = 0
count (some s) = length s

abbrev pub from_stream : Option Bytes → Input → Option ℕ × Input
from_stream none i = (none, i)
from_stream (some []) i = (none, i)
from_stream (some (c ∷ cs)) i = (some c, record i { stream = some cs })

abbrev pub next_in : Bytes → Input → Option ℕ × Input
next_in [] i = from_stream i.stream i
next_in (c ∷ cs) i = (some c, record i { pending = cs })

-- `Input::next`.
unfoldable pub next : Input → Option ℕ × Input
next i = next_in i.pending i

abbrev pub count_line : Option ℕ × Input → Option ℕ × Input
count_line (none, i) = (none, i)
count_line (some c, i) = (some c, if c == 10 then record i { line_nr = i.line_nr + 1 } else i)

-- `Input::get`.
unfoldable pub get : Input → Option ℕ × Input
unfolding next
get i = count_line (next i)

-- `Input::reRead` of a size_t: only a byte is put back.
unfoldable pub re_read : ℕ → Input → Input
re_read c i =
    if ltb c 0x100
    then record i {
      pending = c ∷ i.pending;
      line_nr = if c == 10 then i.line_nr - 1 else i.line_nr;
    }
    else i

abbrev pub re_read_char : Option ℕ → Input → Input
re_read_char none i = i
re_read_char (some c) i = re_read c i

-- A `char`, which is signed, as a size_t.
abbrev pub char_to_size : ℕ → ℕ
char_to_size c = if ltb c 128 then c else 2 ^ 64 - 256 + c

-- The loop of `Input::reRead` of a string, over its characters from `fm` on.
unfoldable pub re_read_all : Bytes → Input → Input
unfolding re_read
re_read_all [] i = i
re_read_all (c ∷ cs) i = re_read (char_to_size c) (re_read_all cs i)

-- `popStream` with an empty stack of streams: the stream is closed.
abbrev pub close : Input → Input
close i = record i { stream = none }

-- What is still to be read.
unfoldable pub remaining : Input → ℕ
remaining i = length i.pending + count i.stream
