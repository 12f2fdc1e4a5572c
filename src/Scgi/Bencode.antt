-- ===== src/Scgi/Bencode.antt =====
-- `bencode_string_parser` of src/scgi/bencode_string_parser.{h,cpp}. `boost::lexical_cast<size_t>`
-- is a parameter: `none` is its `bad_lexical_cast`. The range of `parse` is the list of its bytes,
-- and the iterator that it returns is the list of the bytes from there on.
pub mod RoundTrip
use de_co_f.Base.{
  ℕ, ◌+◌, ◌-◌, ◌%◌, ◌^◌, Bool, true, false, Option, none, some, List, [], ◌∷◌, ◌++◌, ◌==◌,
  if◌then◌else◌, Bytes,
}
use de_co_f.Base.Decimal.{is_digit}

pub data ResultType : Type 0 where
  good bad indeterminate : ResultType

pub data State : Type 0 where
  string_length string : State

pub record BencodeStringParser : Type 0 where
  pub state : State
  pub data' : Bytes
  pub length_str : Bytes
  pub length : ℕ

-- `reset`, which the constructor calls; `length_` keeps its value.
unfoldable pub reset : BencodeStringParser → BencodeStringParser
reset p = record p { data' = []; state = string_length; length_str = [] }

-- `length_ - 1` in size_t.
abbrev pub pred_size : ℕ → ℕ
pred_size n = (n + (2 ^ 64 - 1)) % 2 ^ 64

module _ (lexical_cast : Bytes → Option ℕ) where
  -- `case string_length`, at a ':'.
  abbrev pub at_colon : BencodeStringParser → Option ℕ → BencodeStringParser × ResultType
  at_colon p none = (p, bad)
  at_colon p (some n) =
      (record p { length = n; state = string }, if n == 0 then good else indeterminate)

  unfoldable pub consume_in : State → ℕ → BencodeStringParser → BencodeStringParser × ResultType
  consume_in string_length c p =
      if is_digit c
      then (record p { length_str = p.length_str ++ c ∷ [] }, indeterminate)
      else if c == b':'
      then at_colon p (lexical_cast p.length_str)
      else (p, bad)
  consume_in string c p = (
    record p { data' = p.data' ++ c ∷ []; length = pred_size p.length },
    if pred_size p.length == 0 then good else indeterminate,
  )

  abbrev pub consume : ℕ → BencodeStringParser → BencodeStringParser × ResultType
  consume c p = consume_in p.state c p

  -- `parse`: the result, the rest of the range, and the parser afterwards.
  unfoldable pub parse : Bytes → BencodeStringParser → ResultType × Bytes × BencodeStringParser
  unfolding consume_in
  parse [] p = (indeterminate, [], p)
  parse (c ∷ cs) p =
      let (p', r) = consume c p in
      elim r [ good ↦ (good, cs, p') | bad ↦ (bad, cs, p') | indeterminate ↦ parse cs p' ]
