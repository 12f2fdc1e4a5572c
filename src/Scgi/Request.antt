-- ===== src/Scgi/Request.antt =====
-- `request_parser` of src/scgi/request_parser.cpp and include/decof/scgi/request_parser.h. A byte of
-- the input is a number. Boost's `lexical_cast<size_t>` (`none` is `bad_lexical_cast`) and its
-- `split` at "; \t" are parameters. `std::map` is an association list.
pub mod Headers
pub mod AllHeaders
pub mod Ends
pub mod RoundTrip
use de_co_f.Base.{
  ℕ, ◌+◌, ◌%◌, ◌^◌, Bool, true, false, not, ◌&&◌, ◌||◌, Option, none, some, List, [], ◌∷◌, ◌++◌,
  ◌==◌, ltb, leb, if◌then◌else◌, length, is_empty, Bytes, bytes_eq, codes,
}
use de_co_f.Base.Decimal.{is_digit}
use de_co_f.Scgi.Bencode.{pred_size}

pub data Method : Type 0 where
  get post head put delete trace options connect undefined : Method

pub data ResultType : Type 0 where
  good bad indeterminate : ResultType

pub data State : Type 0 where
  netstring_length header_start header_name header_value body_range : State

abbrev pub Headers : Type 0
Headers = List (Bytes × Bytes)

-- `headers[name] = value`.
unfoldable pub assign : Bytes → Bytes → Headers → Headers
assign k v [] = (k, v) ∷ []
assign k v ((j, w) ∷ m) = if bytes_eq j k then (j, v) ∷ m else (j, w) ∷ assign k v m

-- `headers.at(name)`; `none` is its `out_of_range`.
unfoldable pub at : Bytes → Headers → Option Bytes
at k [] = none
at k ((j, w) ∷ m) = if bytes_eq j k then some w else at k m

pub record RequestParser : Type 0 where
  pub method : Method
  pub uri : Bytes
  pub headers : Headers
  pub content_type : Bytes
  pub encoding : Bytes
  pub body : Bytes
  pub state : State
  pub length_str : Bytes
  pub netstring_length : ℕ
  pub count : ℕ
  pub current_header : Bytes
  pub current_value : Bytes
  pub content_length : ℕ

-- `reset`: it leaves `content_type`, `encoding` and two counters as they are.
unfoldable pub reset : RequestParser → RequestParser
reset p = record p {
  state = State.netstring_length;
  method = undefined;
  uri = [];
  headers = [];
  body = [];
  length_str = [];
  current_header = [];
  current_value = [];
  content_length = 0;
}

-- What the parser takes from Boost.
pub record Boost : Type 0 where
  pub cast_size : Bytes → Option ℕ
  pub split : Bytes → List Bytes

abbrev push : ℕ → Bytes → Bytes
push c s = s ++ c ∷ []

-- The value of REQUEST_METHOD; other methods leave `method` alone.
abbrev pub method_of : Bytes → Method → Method
method_of v m =
    if bytes_eq v (codes "GET")
    then get
    else if bytes_eq v (codes "PUT")
    then put
    else if bytes_eq v (codes "POST")
    then post
    else m

-- `content_type = values.at(0); encoding = values.at(1)`, up to the first `out_of_range`.
abbrev pub set_content_type : List Bytes → RequestParser → RequestParser
set_content_type [] p = p
set_content_type (t ∷ []) p = record p { content_type = t }
set_content_type (t ∷ e ∷ _) p = record p { content_type = t; encoding = e }

module _ (lib : Boost) where
  -- The headers with a meaning for the parser.
  unfoldable pub interpret : Bytes → Bytes → RequestParser → RequestParser
  interpret name value p =
      if bytes_eq name (codes "REQUEST_METHOD")
      then record p { method = method_of value p.method }
      else if bytes_eq name (codes "REQUEST_URI")
      then record p { uri = value }
      else if bytes_eq name (codes "CONTENT_TYPE")
      then set_content_type (lib.split value) p
      else p

  -- `headers[current_header_].swap(current_value_)`, both cleared, and the next header.
  abbrev pub store_header : Bytes → Bytes → RequestParser → RequestParser
  store_header name value p = record p {
    headers = assign name value p.headers;
    current_header = [];
    current_value = [];
    state = header_start;
  }

  -- The checks on the first two headers; `none` is `bad`.
  unfoldable pub check_order : Bytes → Bytes → RequestParser → Option RequestParser
  check_order name value p =
      if is_empty p.headers
      then (if bytes_eq name (codes "CONTENT_LENGTH")
          then elim (lib.cast_size value) [
            | none ↦ none
            | some n ↦ some (record p { content_length = n })
          ]
          else none)
      else if length p.headers == 1
          && not (bytes_eq name (codes "SCGI") && bytes_eq value (codes "1"))
      then none
      else some p

  -- The end of a header: its value's final NUL.
  unfoldable pub end_header : Bytes → Bytes → RequestParser → Option RequestParser
  end_header name value p = elim (check_order name value p) [
    | none ↦ none
    | some q ↦ some (store_header name value (interpret name value q))
  ]

  abbrev or_bad : RequestParser → Option RequestParser → RequestParser × ResultType
  or_bad p none = (p, bad)
  or_bad p (some q) = (q, indeterminate)

  -- `case header_start` and `case header_name`; the flag is `state_ == header_start`.
  abbrev in_header : Bool → ℕ → RequestParser → RequestParser × ResultType
  in_header start c p =
      if start && c == b','
      then (if p.netstring_length == pred_size p.count
          then (if ltb 0 p.content_length
              then (record p { state = body_range }, indeterminate)
              else (p, good))
          else (p, bad))
      else if ltb p.count p.netstring_length
      then (if c == 0
          then (if ltb 0 (length p.current_header)
              then (record p { state = header_value }, indeterminate)
              else (p, bad))
          else (record p { current_header = push c p.current_header }, indeterminate))
      else (p, bad)

  -- The switch, after the count has been raised.
  unfoldable pub consume_in : State → ℕ → RequestParser → RequestParser × ResultType
  consume_in State.netstring_length c p =
      if is_digit c
      then (record p { length_str = push c p.length_str }, indeterminate)
      else if c == b':'
      then (elim (lib.cast_size p.length_str) [
        | none ↦ (p, bad)
        | some n ↦
            (record p { netstring_length = n; count = 0; state = header_start }, indeterminate)
      ])
      else (p, bad)
  consume_in header_start c p = in_header true c p
  consume_in header_name c p = in_header false c p
  consume_in header_value c p =
      if leb p.count p.netstring_length
      then (if c == 0
          then or_bad p (end_header p.current_header p.current_value p)
          else (record p { current_value = push c p.current_value }, indeterminate))
      else (p, bad)
  consume_in body_range c p =
      if leb (length p.body) p.content_length
      then (
        record p { body = push c p.body },
        if length (push c p.body) == p.content_length then good else indeterminate,
      )
      else (p, bad)

  -- `netstring_count_ += 1` in size_t.
  abbrev pub tick : RequestParser → RequestParser
  tick p = record p { count = (p.count + 1) % 2 ^ 64 }

  abbrev pub consume : ℕ → RequestParser → RequestParser × ResultType
  consume c p = consume_in p.state c (tick p)

  -- `parse`; `result` is the variable of that name, undetermined before the first byte.
  unfoldable pub parse : ResultType → Bytes → RequestParser → RequestParser × ResultType
  unfolding consume_in end_header check_order interpret
  parse result [] p = (p, result)
  parse result (c ∷ cs) p =
      let (p', r) = consume c p in
      elim r [
        | bad ↦ (p', bad)
        | good ↦ parse good cs p'
        | indeterminate ↦ parse indeterminate cs p'
      ]
