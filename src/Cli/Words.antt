-- ===== src/Cli/Words.antt =====
-- What the requests of src/cli/clisrv_context.cpp and src/cli/pubsub_context.cpp are read by: the
-- extraction of words from an istream, in the C locale, and the operators on a std::string.
pub mod Reading
use de_co_f.Base.{
  ℕ, ◌+◌, Bool, true, false, ◌&&◌, ◌||◌, List, [], ◌∷◌, ◌==◌, leb, if◌then◌else◌, map, Bytes,
  bytes_eq,
}

unfoldable pub is_space : ℕ → Bool
is_space c = c == 32 || leb 9 c && leb c 13

unfoldable pub skip_spaces : Bytes → Bytes
unfolding is_space
skip_spaces [] = []
skip_spaces (c ∷ cs) = if is_space c then skip_spaces cs else c ∷ cs

-- The bytes up to the next space, and the rest from there on.
unfoldable pub split_word : Bytes → Bytes × Bytes
unfolding is_space
split_word [] = ([], [])
split_word (c ∷ cs) =
    let (w, rest) = split_word cs in if is_space c then ([], c ∷ cs) else (c ∷ w, rest)

-- `in >> word`; where no word is left it stays empty.
unfoldable pub read_word : Bytes → Bytes × Bytes
unfolding skip_spaces split_word
read_word s = split_word (skip_spaces s)

unfoldable pub to_lower : Bytes → Bytes
to_lower = map (λ c. if leb b'A' c && leb c b'Z' then c + 32 else c)

-- `if (uri[0] == '\'') uri.erase(0, 1)`.
unfoldable pub strip_quote : Bytes → Bytes
strip_quote [] = []
strip_quote (c ∷ cs) = if c == b'\'' then cs else c ∷ cs

-- The first two words of a line, the first in lower case and the second without its quote, and the rest.
unfoldable pub words_of : Bytes → Bytes × Bytes × Bytes
unfolding read_word to_lower strip_quote
words_of line =
    let (first, rest) = read_word line in
    let (second, last) = read_word rest in (to_lower first, strip_quote second, last)

-- One of two words.
abbrev pub is_one : Bytes → Bytes → Bytes → Bool
is_one op a b = bytes_eq op a || bytes_eq op b
