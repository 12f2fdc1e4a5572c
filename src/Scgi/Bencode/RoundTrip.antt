-- ===== src/Scgi/Bencode/RoundTrip.antt =====
-- The parser of src/scgi/bencode_string_parser.cpp on a string as js_value_encoder writes it.
use de_co_f.Base.{
  ℕ, suc, ◌^◌, ◌<◌, ◌≡◌, refl, ◌∙◌, true, Option, some, [], ◌∷◌, ◌++◌, append_assoc, append-nil,
  arith, length, All, Bytes,
}
use de_co_f.Base.Decimal.{is_digit, decimal, decimal_digits}
use de_co_f.Scgi.Bencode.{good, string_length, string, BencodeStringParser, reset, parse}

module _ (lexical_cast : Bytes → Option ℕ) where
  pub parse-digits :
      (ds rest : Bytes) (p : BencodeStringParser)
      → p.state ≡ string_length
      → All (λ c. is_digit c ≡ true) ds
      → parse lexical_cast (ds ++ rest) p
        ≡ parse lexical_cast rest (record p { length_str = p.length_str ++ ds })
  unfolding parse
  parse-digits [] rest p e h = rw append-nil
  parse-digits (d ∷ ds) rest p e h = ground (
    arith,
    h.0,
    append_assoc p.length_str (d ∷ []) ds,
    parse-digits ds rest (record p { length_str = p.length_str ++ d ∷ [] }) e h.1,
  )

  parse-string :
      (s rest : Bytes) (c : ℕ) (p : BencodeStringParser)
      → p.state ≡ string
      → p.length ≡ suc (length s)
      → p.length < 2 ^ 64
      → parse lexical_cast (c ∷ (s ++ rest)) p
        ≡ (good, rest, record p { data' = p.data' ++ c ∷ s; length = 0 })
  unfolding parse
  parse-string [] rest c p e n l = ground arith
  parse-string (d ∷ s) rest c p e n l = ground (
    arith,
    append_assoc p.data' (c ∷ []) (d ∷ s),
    parse-string s rest d (record p { data' = p.data' ++ c ∷ []; length = suc (length s) }) e refl,
  )

  -- The documented behaviour of `lexical_cast<size_t>` on the print of a size_t.
  module _ (reads : (n : ℕ) → n < 2 ^ 64 → lexical_cast (decimal n) ≡ some n) where
    parse_from :
        (s rest : Bytes) (p : BencodeStringParser)
        → p.state ≡ string_length
        → p.length_str ≡ []
        → p.data' ≡ []
        → length s < 2 ^ 64
        → parse lexical_cast (decimal (length s) ++ (b':' ∷ (s ++ rest))) p ≡ (
          good,
          rest,
          record { state = string; data' = s; length_str = decimal (length s); length = 0 },
        )
    unfolding parse
    parse_from [] rest p e l d h =
        parse-digits (decimal 0) _ p e (decimal_digits 0) ∙ ground (arith, reads 0)
    parse_from (c ∷ s) rest p e l d h =
        let n = suc (length s) in
        parse-digits (decimal n) _ p e (decimal_digits n)
        ∙ ground (
          arith,
          reads n,
          parse-string s rest c (record p { length_str = decimal n; length = n; state = string })
              refl refl,
        )

    -- Let `lexical_cast<size_t>` read decimals back. A string of less than 2^64 bytes, written as its length, a colon and its bytes, is read back
    -- by a parser that has been reset, whatever follows; the range is left at what follows.
    pub parse-encoded :
        (s rest : Bytes) (p : BencodeStringParser)
        → length s < 2 ^ 64
        → parse lexical_cast (decimal (length s) ++ (b':' ∷ (s ++ rest))) (reset p) ≡ (
          good,
          rest,
          record { state = string; data' = s; length_str = decimal (length s); length = 0 },
        )
    unfolding reset
    parse-encoded s rest p h = parse_from s rest (reset p) refl refl refl h
