-- ===== src/Scgi/Put/Trimmed.antt =====
-- What `handle_put_request` of src/scgi/scgi_context.cpp makes of the sequences that js_value_encoder of
-- src/scgi/js_value_encoder.cpp writes, `trim_if` included.
use de_co_f.Base.{
  ℕ, suc, ◌<◌, ◌^◌, ◌%◌, ◌≡◌, refl, ap, sym, ◌∙◌, Bool, true, false, Option, some, List, [], ◌∷◌,
  ◌++◌, append_assoc, append-nil, map, arith, length, length-append, is_empty, All, Bytes, codes,
  bytes_eq,
}
use mathlib.Core.List.{map-append}
use de_co_f.Base.Decimal.{decimal, decimal-ne_empty, decimal_digits, is_digit}
use de_co_f.Except.{Except, ok, err, fault, ◌>>=◌}
use de_co_f.Scgi.Bencode.{
  pred_size, indeterminate, good, bad, string, BencodeStringParser, ResultType, parse, reset,
}
use de_co_f.Scgi.Bencode.RoundTrip.{parse-digits}
use de_co_f.Scgi.Encoder.{crlf, bencode, encode_element, encode_sequence}
use de_co_f.Scgi.Put.{
  Boost, is_space, fresh, after_string, string_loop, string_seq, integer_seq, put_value,
}
use de_co_f.Scgi.Put.Numbers.{integer_seq_odd}
use de_co_f.Scgi.Put.Strings.{
  strings, unterminated, is_empty-append, length-encode_sequence, string_loop_step,
  string_loop_string, string_loop-strings, string_seq_overrun,
}
use de_co_f.Types.{ℤ, Scalar, string_t, integer_t, sequence_t}
use de_co_f.Types.Errors.{invalid_value_error}

abbrev pub begins_with_space : Bytes → Bool
begins_with_space [] = false
begins_with_space (c ∷ cs) = is_space c

abbrev pub ends_in_space : Bytes → Bool
ends_in_space [] = false
ends_in_space (c ∷ []) = is_space c
ends_in_space (c ∷ d ∷ cs) = ends_in_space (d ∷ cs)

abbrev pub AreSpaces : Bytes → Type 0
AreSpaces = All (λ c. is_space c ≡ true)

-- `trim_if` with `is_space` removes the whitespace on both sides, and nothing else.
pub record IsTrim (trim : Bytes → Bytes) : Type 0 where
  pub trims :
      (v b w : Bytes)
      → AreSpaces v
      → begins_with_space b ≡ false
      → ends_in_space b ≡ false
      → AreSpaces w
      → trim (v ++ (b ++ w)) ≡ b

ends-append : (x y : Bytes) → is_empty y ≡ false → ends_in_space (x ++ y) ≡ ends_in_space y
ends-append [] y h = refl
ends-append (c ∷ []) [] h = absurd cc
ends-append (c ∷ []) (d ∷ y) h = refl
ends-append (c ∷ d ∷ x) y h = ends-append (d ∷ x) y h

ends-colon : (s : Bytes) → ends_in_space s ≡ false → ends_in_space (b':' ∷ s) ≡ false
ends-colon [] h = refl
ends-colon (c ∷ s) h = h

digits_begin :
    (w rest : Bytes)
    → is_empty w ≡ false
    → All (λ c. is_digit c ≡ true) w
    → begins_with_space (w ++ rest) ≡ false
digits_begin [] rest h d = absurd cc
digits_begin (c ∷ w) rest h (d, _) = ground arith

decimal_begins : (n : ℕ) (rest : Bytes) → begins_with_space (decimal n ++ rest) ≡ false
decimal_begins n rest = digits_begin (decimal n) rest (decimal-ne_empty n) (decimal_digits n)

-- The strings that GET wrote, with another length behind them.
sequence_begins :
    (ss : List Bytes) (n : ℕ) (rest : Bytes)
    → begins_with_space (encode_sequence (strings ss) ++ (decimal n ++ rest)) ≡ false
unfolding encode_sequence encode_element bencode
sequence_begins [] n rest = decimal_begins n rest
sequence_begins (s ∷ ss) n rest =
    let more = encode_sequence (strings ss) ++ (decimal n ++ rest) in
    ap begins_with_space (
      append_assoc (bencode s) (encode_sequence (strings ss)) (decimal n ++ rest)
      ∙ append_assoc (decimal (length s)) (b':' ∷ (s ++ crlf)) more)
    ∙ decimal_begins (length s) _

sequence_ends :
    (ss : List Bytes) (n : ℕ) (s : Bytes)
    → ends_in_space s ≡ false
    → ends_in_space (encode_sequence (strings ss) ++ (decimal n ++ (b':' ∷ s))) ≡ false
sequence_ends ss n s h =
    ends-append (encode_sequence (strings ss)) (decimal n ++ (b':' ∷ s))
      (is_empty-append (decimal n) (b':' ∷ s) (decimal-ne_empty n))
    ∙ ends-append (decimal n) (b':' ∷ s) refl
    ∙ ends-colon s h

one_more-begins :
    (ss : List Bytes) (s : Bytes) (c : ℕ)
    → begins_with_space (encode_sequence (strings ss) ++ (unterminated s ++ c ∷ [])) ≡ false
one_more-begins ss s c =
    ap (λ t. begins_with_space (encode_sequence (strings ss) ++ t))
      (append_assoc (decimal (length s)) (b':' ∷ s) (c ∷ []))
    ∙ sequence_begins ss (length s) ((b':' ∷ s) ++ c ∷ [])

one_more-ends :
    (ss : List Bytes) (s : Bytes) (c : ℕ)
    → is_space c ≡ false
    → ends_in_space (encode_sequence (strings ss) ++ (unterminated s ++ c ∷ [])) ≡ false
one_more-ends ss s c k =
    ends-append (encode_sequence (strings ss)) (unterminated s ++ c ∷ []) (
      is_empty-append (unterminated s) (c ∷ [])
        (is_empty-append (decimal (length s)) (b':' ∷ s) (decimal-ne_empty (length s))))
    ∙ ends-append (unterminated s) (c ∷ []) refl
    ∙ k

encode_sequence-last :
    (ss : List Bytes) (s : Bytes)
    → encode_sequence (strings (ss ++ s ∷ [])) ≡ encode_sequence (strings ss) ++ bencode s
unfolding encode_sequence encode_element
encode_sequence-last [] s = append-nil (bencode s)
encode_sequence-last (t ∷ ss) s =
    ap (λ b. bencode t ++ b) (encode_sequence-last ss s)
    ∙ sym (append_assoc (bencode t) (encode_sequence (strings ss)) (bencode s))

AreSpaces-append : (v w : Bytes) → AreSpaces v → AreSpaces w → AreSpaces (v ++ w)
AreSpaces-append [] w h k = k
AreSpaces-append (c ∷ v) w (e, h) k = (e, AreSpaces-append v w h k)

crlf-AreSpaces : AreSpaces crlf
crlf-AreSpaces = (refl, (refl, tt))

-- A parser that waits for more bytes than there are.
parse-short :
    (lexical_cast : Bytes → Option ℕ) (s : Bytes) (p : BencodeStringParser)
    → p.state ≡ string
    → length s < p.length
    → p.length < 2 ^ 64
    → (parse lexical_cast s p).0 ≡ indeterminate
unfolding parse
parse-short lexical_cast [] p e l m = refl
parse-short lexical_cast (c ∷ s) p e l m = ground (
  arith,
  parse-short lexical_cast s (record p { data' = p.data' ++ c ∷ []; length = pred_size p.length })
      e,
)

parse-cut :
    (lexical_cast : Bytes → Option ℕ) (n : ℕ) (s : Bytes)
    → lexical_cast (decimal n) ≡ some n
    → length s < n
    → n < 2 ^ 64
    → (parse lexical_cast (decimal n ++ (b':' ∷ s)) (reset fresh)).0 ≡ indeterminate
unfolding parse reset
parse-cut lexical_cast n s e l m =
    ap (λ r. r.0)
      (parse-digits lexical_cast (decimal n) (b':' ∷ s) (reset fresh) refl (decimal_digits n))
    ∙ ground (
      arith,
      e,
      parse-short lexical_cast s
          (record fresh { length_str = decimal n; length = n; state = string }) refl,
    )

after_string-indeterminate :
    (lexical_cast : Bytes → Option ℕ) (r : ResultType × Bytes × BencodeStringParser)
    (next : Bytes → Except (List Scalar))
    → r.0 ≡ indeterminate
    → after_string lexical_cast r next ≡ err invalid_value_error
after_string-indeterminate lexical_cast (good, it, p) next e = absurd cc
after_string-indeterminate lexical_cast (bad, it, p) next e = absurd cc
after_string-indeterminate lexical_cast (indeterminate, it, p) next e = refl

abbrev pub of_strings : Bytes
of_strings = codes "vnd/com.toptica.decof.string_seq"

abbrev pub of_integers : Bytes
of_integers = codes "vnd/com.toptica.decof.integer_seq"

module _ (lib : Boost) (trimmed : IsTrim lib.trim) where
  put_value-strings :
      (body b : Bytes)
      → lib.trim body ≡ b
      → put_value lib of_strings body ≡ string_seq lib.cast_size b
  unfolding put_value bytes_eq
  put_value-strings body b e = ap (string_seq lib.cast_size) e

  put_value-integers :
      (body b : Bytes) → lib.trim body ≡ b → put_value lib of_integers body ≡ integer_seq b
  unfolding put_value bytes_eq
  put_value-integers body b e = ap integer_seq e

  trim_kept : (b : Bytes) → begins_with_space b ≡ false → ends_in_space b ≡ false → lib.trim b ≡ b
  trim_kept b h k = ap lib.trim (sym (append-nil b)) ∙ trimmed.trims [] b [] tt h k tt

  -- What is left of the strings that GET wrote, the last of which ends in the whitespace `w`.
  trim-strings :
      (ss : List Bytes) (s w : Bytes)
      → ends_in_space s ≡ false
      → AreSpaces w
      → lib.trim (encode_sequence (strings (ss ++ (s ++ w) ∷ [])))
        ≡ encode_sequence (strings ss) ++ (decimal (length (s ++ w)) ++ (b':' ∷ s))
  unfolding bencode
  trim-strings ss s w h k =
      let n = length (s ++ w) in
      let b : Bytes = encode_sequence (strings ss) ++ (decimal n ++ (b':' ∷ s)) in
      let e : encode_sequence (strings (ss ++ (s ++ w) ∷ [])) ≡ b ++ (w ++ crlf) =
        encode_sequence-last ss (s ++ w) ∙ simp append_assoc in
      ap lib.trim e
      ∙ trimmed.trims [] b (w ++ crlf) tt (sequence_begins ss n (b':' ∷ s)) (sequence_ends ss n s h)
          (AreSpaces-append w crlf k crlf-AreSpaces)

  module _ (reads : (n : ℕ) → n < 2 ^ 64 → lib.cast_size (decimal n) ≡ some n) where
    -- The loop on the strings that GET wrote, by what it does on the rest.
    string_seq-rest :
        (ss : List Bytes) (rest : Bytes) (r : Except (List Scalar))
        → All (λ s. length s < 2 ^ 64) ss
        → ((fuel : ℕ) → string_loop lib.cast_size (suc fuel) rest ≡ r)
        → string_seq lib.cast_size (encode_sequence (strings ss) ++ rest)
          ≡ (r >>= (λ seq. ok (strings ss ++ seq)) >>= λ seq. ok (sequence_t seq))
    unfolding string_seq
    string_seq-rest ss rest r h k =
        let (fuel, e) =
          string_loop-strings lib.cast_size reads ss
            (suc (length (encode_sequence (strings ss) ++ rest))) rest h
            (omega (
              arith,
              length-encode_sequence ss,
              length-append (encode_sequence (strings ss)) rest,
            )) in
        rw e
          (ap (λ m. m >>= (λ seq. ok (strings ss ++ seq)) >>= λ seq. ok (sequence_t seq)) (k fuel))

    last_string :
        (s : Bytes) (fuel : ℕ)
        → length s < 2 ^ 64
        → string_loop lib.cast_size (suc fuel) (unterminated s) ≡ ok (string_t s ∷ [])
    last_string s fuel h =
        ap (λ t. string_loop lib.cast_size (suc fuel) (decimal (length s) ++ (b':' ∷ t)))
          (sym (append-nil s))
        ∙ string_loop_string lib.cast_size reads fuel s [] h

    cut_string :
        (s : Bytes) (n fuel : ℕ)
        → length s < n
        → n < 2 ^ 64
        → string_loop lib.cast_size (suc fuel) (decimal n ++ (b':' ∷ s)) ≡ err invalid_value_error
    cut_string s n fuel l m =
        string_loop_step lib.cast_size reads fuel (decimal n ++ (b':' ∷ s))
          (is_empty-append (decimal n) (b':' ∷ s) (decimal-ne_empty n))
        ∙ after_string-indeterminate lib.cast_size _ _ (parse-cut lib.cast_size n s (reads n m) l m)

    -- Let `trim_if` remove whitespace on both sides and `lexical_cast<size_t>` read decimals back. A sequence
    -- of strings of less than 2^64 bytes that GET sends is read back by PUT, whatever bytes the strings
    -- hold, if the last one does not end in whitespace.
    pub put_value-encode_sequence :
        (ss : List Bytes) (s : Bytes)
        → All (λ s. length s < 2 ^ 64) ss
        → length s < 2 ^ 64
        → ends_in_space s ≡ false
        → put_value lib of_strings (encode_sequence (strings (ss ++ s ∷ [])))
          ≡ ok (sequence_t (strings (ss ++ s ∷ [])))
    put_value-encode_sequence ss s h l k =
        let e = trim-strings ss s [] k tt in
        let e' = simp append-nil at e in
        put_value-strings _ _ e'
        ∙ string_seq-rest ss (unterminated s) (ok (string_t s ∷ [])) h
            (λ fuel. last_string s fuel l)
        ∙ ap (λ seq. ok (sequence_t seq)) (sym (map-append string_t ss (s ∷ [])))

    -- Let `trim_if` remove whitespace on both sides and `lexical_cast<size_t>` read decimals back. A sequence
    -- of strings of less than 2^64 bytes that GET sends is refused by PUT as an invalid value, if the last
    -- one ends in whitespace: the trim takes bytes of the string with it.
    pub put_value-cut :
        (ss : List Bytes) (s w : Bytes)
        → All (λ s. length s < 2 ^ 64) ss
        → length (s ++ w) < 2 ^ 64
        → ends_in_space s ≡ false
        → AreSpaces w
        → is_empty w ≡ false
        → put_value lib of_strings (encode_sequence (strings (ss ++ (s ++ w) ∷ [])))
          ≡ err invalid_value_error
    put_value-cut ss s w h l k a n =
        put_value-strings _ _ (trim-strings ss s w k a)
        ∙ string_seq-rest ss _ (err invalid_value_error) h
            (λ fuel. cut_string s (length (s ++ w)) fuel (ground (arith, length-append s w)) l)

    -- Let `trim_if` remove whitespace on both sides and `lexical_cast<size_t>` read decimals back. A single
    -- byte that is no whitespace, behind the last string, which has no line end, makes the loop of PUT step
    -- over the end of the body, whatever the strings, of less than 2^64 bytes each, are.
    pub put_value-overrun :
        (ss : List Bytes) (s : Bytes) (c : ℕ)
        → All (λ s. length s < 2 ^ 64) ss
        → length s < 2 ^ 64
        → is_space c ≡ false
        → put_value lib of_strings (encode_sequence (strings ss) ++ (unterminated s ++ c ∷ []))
          ≡ fault
    put_value-overrun ss s c h l k =
        put_value-strings _ _ (trim_kept _ (one_more-begins ss s c) (one_more-ends ss s c k))
        ∙ string_seq_overrun lib.cast_size reads ss s c h l

  -- Let `trim_if` remove whitespace on both sides. GET sends four bytes for an integer of a sequence and PUT
  -- reads eight: what GET sends for a sequence of an odd length is refused by PUT, if its first and its
  -- last byte are no whitespace, which the trim would remove.
  pub put_value-odd :
      (is : List ℤ)
      → length is % 2 ≡ 1
      → begins_with_space (encode_sequence (map integer_t is)) ≡ false
      → ends_in_space (encode_sequence (map integer_t is)) ≡ false
      → put_value lib of_integers (encode_sequence (map integer_t is)) ≡ err invalid_value_error
  put_value-odd is h b e = put_value-integers _ _ (trim_kept _ b e) ∙ integer_seq_odd is h
