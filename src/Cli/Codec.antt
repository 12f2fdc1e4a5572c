-- ===== src/Cli/Codec.antt =====
-- The string escapes of src/cli/encoder.cpp, read by src/cli/decoder.h.
use de_co_f.Base.{
  ℕ, ◌/◌, ◌%◌, ◌<◌, ◌≡◌, sym, ◌∙◌, ap, Bool, true, false, ◌||◌, some, [], ◌∷◌, ◌++◌, append_assoc,
  append-nil, arith, ◌==◌, ltb, Bool-cases, Option-cases, inl, inr, All, Bytes,
}
use de_co_f.Cli.Encoder.{
  Stream, hex_digit, escape_byte, encode_bytes, encode_string, escape_character, is_plain,
}
use de_co_f.Cli.Decoder.{
  ordinary, run, is_hex_digit, digit_value, hex_value, to_upper, escaped, backslash_escape_decoder,
}

hex_digit_lem :
    (n : ℕ) → n < 16 → (is_hex_digit (hex_digit n) ≡ true) × (digit_value (hex_digit n) ≡ n)
unfolding hex_digit
hex_digit_lem n h = (ground arith, ground arith)

-- The table of the decoder inverts that of the encoder.
escaped_lem :
    (c : ℕ)
    → (e : ℕ) → escape_character c ≡ some e
    → (escaped e ≡ some c) × ((to_upper e == b'X') ≡ false)
unfolding escape_character escaped
escaped_lem c e h = ground arith

hex_pair_lem :
    (c : ℕ) → c < 256 → hex_value 0 (hex_digit (c / 16) ∷ hex_digit (c % 16) ∷ []) % 256 ≡ c
hex_pair_lem c h =
    let (_, hi) = hex_digit_lem (c / 16) (omega arith) in
    let (_, lo) = hex_digit_lem (c % 16) (omega arith) in rw (hi, lo) (omega arith)

plain_lem :
    (c : ℕ) → is_plain c ≡ true → ((c == b'\\') ≡ false) × ((ltb c 0x20 || ltb 0x7f c) ≡ false)
unfolding is_plain
plain_lem c h = ground arith

-- The decoder takes what the encoder writes for one byte, and puts out that byte.
run-escape_byte :
    (c : ℕ) (rest out : Bytes)
    → c < 256
    → run ((escape_byte c).0 ++ rest) (record { state = ordinary; hex = []; out = out })
      ≡ run rest (record { state = ordinary; hex = []; out = out ++ c ∷ [] })
unfolding escape_byte
run-escape_byte c rest out h = elim (Bool-cases (is_plain c)) [
  | inl plain ↦ let (a, b) = plain_lem c plain in rw plain (unfold run in rw (a, run) (rw (b, run)))
  | inr special ↦ elim (Option-cases (escape_character c)) [
    | inr (e, he) ↦
        rw (special, he)
          (unfold run in let (back, other) = escaped_lem c e he in rw (other, run) (rw (back, run)))
    | inl he ↦
        rw (special, he)
          (unfold run in
            let (hi, _) = hex_digit_lem (c / 16) (omega arith) in
            let (lo, _) = hex_digit_lem (c % 16) (omega arith) in
            rw (hi, run) (rw (lo, run) (rw (hex_pair_lem c h))))
  ]
]

-- The escapes of a string, without the quotes.
abbrev pub escapes : Bytes → Bytes
escapes [] = []
escapes (c ∷ cs) = (escape_byte c).0 ++ escapes cs

run-escapes :
    (s out : Bytes)
    → All (λ c. c < 256) s
    → run (escapes s) (record { state = ordinary; hex = []; out = out }) ≡ some (out ++ s)
run-escapes [] out h = unfold run in ap some (sym (append-nil out))
run-escapes (c ∷ cs) out h =
    run-escape_byte c (escapes cs) out h.0
    ∙ run-escapes cs (out ++ c ∷ []) h.1
    ∙ ap some (append_assoc out (c ∷ []) cs)

-- Some byte of the string is written by `std::hex`.
abbrev pub needs_hex : Bytes → Bool
needs_hex [] = false
needs_hex (c ∷ cs) = (escape_byte c).1 || needs_hex cs

encode_bytes_lem :
    (s : Bytes) (st : Stream)
    → encode_bytes s st ≡ record { out = st.out ++ escapes s; hex = st.hex || needs_hex s }
unfolding encode_bytes
encode_bytes_lem [] st = ground (arith, append-nil st.out)
encode_bytes_lem (c ∷ cs) st =
    encode_bytes_lem cs
      (record { out = st.out ++ (escape_byte c).0; hex = st.hex || (escape_byte c).1 })
    ∙ ground (arith, append_assoc st.out (escape_byte c).0 (escapes cs))

-- What the encoder writes for a string is its escapes between quotes; the base of the stream is
-- decimal afterwards if it was before and no byte is written by `std::hex`.
pub encode_string_lem :
    (s : Bytes) (st : Stream)
    → encode_string s st
      ≡ record { out = st.out ++ (b'"' ∷ (escapes s ++ b'"' ∷ [])); hex = st.hex || needs_hex s }
unfolding encode_string
encode_string_lem s st = rw encode_bytes_lem (simp append_assoc)

-- The decoder reads back, from between the quotes, every string of bytes.
pub backslash_escape_decoder-escapes :
    (s : Bytes) → All (λ c. c < 256) s → backslash_escape_decoder (escapes s) ≡ some s
unfolding backslash_escape_decoder
backslash_escape_decoder-escapes s h = run-escapes s [] h
