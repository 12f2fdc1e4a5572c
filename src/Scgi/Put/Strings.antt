-- ===== src/Scgi/Put/Strings.antt =====
-- Sequences of strings between src/scgi/js_value_encoder.cpp and src/scgi/scgi_context.cpp.
use de_co_f.Base.{
  ℕ, zero, suc, ◌^◌, ◌≤◌, ◌<◌, ◌≡◌, refl, ◌∙◌, ap, false, Option, some, List, [], ◌∷◌, ◌++◌,
  append_assoc, map, arith, length, length-append, is_empty, All, Bytes,
}
use de_co_f.Base.Decimal.{decimal, decimal-ne_empty}
use de_co_f.Except.{Except, ok, err, out_of_range, other_exception, fault, ◌>>=◌}
use de_co_f.Scgi.Bencode
use de_co_f.Scgi.Bencode.{good, bad, indeterminate, BencodeStringParser, parse, reset}
use de_co_f.Scgi.Bencode.RoundTrip.{parse-encoded}
use de_co_f.Scgi.Encoder.{crlf, bencode, encode_element, encode_sequence}
use de_co_f.Scgi.Put.{fresh, after_string, string_loop, string_seq}
use de_co_f.Types.{Scalar, string_t, sequence_t}

abbrev pub strings : List Bytes → List Scalar
strings = map string_t

pub is_empty-append : (s t : Bytes) → is_empty s ≡ false → is_empty (s ++ t) ≡ false
is_empty-append [] t h = absurd (cc)
is_empty-append (c ∷ s) t h = refl

bind-ok : {A : Type 0} (m : Except A) → m ≡ (do a ← m; ok a)
bind-ok (ok a) = refl
bind-ok (err e) = refl
bind-ok out_of_range = refl
bind-ok other_exception = refl
bind-ok fault = refl

bind_assoc :
    {A B C : Type 0} (m : Except A) (f : A → Except B) (g : B → Except C)
    → (m >>= f >>= g) ≡ (m >>= λ a. f a >>= g)
bind_assoc (ok a) f g = refl
bind_assoc (err e) f g = refl
bind_assoc out_of_range f g = refl
bind_assoc other_exception f g = refl
bind_assoc fault f g = refl

-- A Bencode string with no line end, as it ends a body.
abbrev pub unterminated : Bytes → Bytes
unterminated s = decimal (length s) ++ (b':' ∷ s)

bencode_pos : (s : Bytes) → 0 < length (bencode s)
unfolding bencode
bencode_pos s = omega (arith, length-append (decimal (length s)) (b':' ∷ (s ++ crlf)))

pub length-encode_sequence : (ss : List Bytes) → length ss ≤ length (encode_sequence (strings ss))
unfolding encode_sequence encode_element
length-encode_sequence [] = omega arith
length-encode_sequence (s ∷ ss) = omega (
  arith,
  length-append (bencode s) (encode_sequence (strings ss)),
  length-encode_sequence ss,
  bencode_pos s,
)

module _ (lexical_cast : Bytes → Option ℕ)
    (reads : (n : ℕ) → n < 2 ^ 64 → lexical_cast (decimal n) ≡ some n) where
  pub string_loop_step :
      (fuel : ℕ) (body : Bytes)
      → is_empty body ≡ false
      → string_loop lexical_cast (suc fuel) body
        ≡ after_string lexical_cast
            (parse lexical_cast body (reset fresh))
            (string_loop lexical_cast fuel)
  unfolding string_loop
  string_loop_step fuel [] h = absurd (cc)
  string_loop_step fuel (c ∷ cs) h = refl

  -- One string, with `rest` behind it.
  pub string_loop_string :
      (fuel : ℕ) (s rest : Bytes)
      → length s < 2 ^ 64
      → string_loop lexical_cast (suc fuel) (decimal (length s) ++ (b':' ∷ (s ++ rest)))
        ≡ after_string lexical_cast
            (
              good,
              rest,
              record {
                state = Bencode.string;
                data' = s;
                length_str = decimal (length s);
                length = 0;
              },
            )
            (string_loop lexical_cast fuel)
  string_loop_string fuel s rest h =
      let body = decimal (length s) ++ (b':' ∷ (s ++ rest)) in
      string_loop_step fuel body
        (is_empty-append (decimal (length s)) (b':' ∷ (s ++ rest)) (decimal-ne_empty (length s)))
      ∙ ap (λ r. after_string lexical_cast r (string_loop lexical_cast fuel))
          (parse-encoded lexical_cast reads s rest fresh h)

  string_loop-bencode :
      (fuel : ℕ) (s rest : Bytes)
      → length s < 2 ^ 64
      → string_loop lexical_cast (suc fuel) (bencode s ++ rest)
        ≡ (do seq ← string_loop lexical_cast fuel rest; ok (string_t s ∷ seq))
  unfolding bencode
  string_loop-bencode fuel s rest h =
      simp append_assoc (rw (string_loop_string fuel s (crlf ++ rest) h))

  -- Strings that GET wrote, with `rest` behind them; some fuel is left for `rest`.
  pub string_loop-strings :
      (ss : List Bytes) (k : ℕ) (rest : Bytes)
      → All (λ s. length s < 2 ^ 64) ss
      → length ss < k
      → (fuel : ℕ) × (string_loop lexical_cast k (encode_sequence (strings ss) ++ rest)
          ≡ (do seq ← string_loop lexical_cast (suc fuel) rest; ok (strings ss ++ seq)))
  unfolding encode_sequence encode_element
  string_loop-strings ss zero rest h l = absurd (omega arith)
  string_loop-strings [] (suc k) rest h l = (k, bind-ok _)
  string_loop-strings (s ∷ ss) (suc k) rest h l =
      let (fuel, e) = string_loop-strings ss k rest h.1 (omega arith) in
      (
        fuel,
        rw
            (
              append_assoc (bencode s) (encode_sequence (strings ss)) rest,
              string_loop-bencode k s _ h.0,
              e,
            )
            (bind_assoc (string_loop lexical_cast (suc fuel) rest) (λ seq. ok (strings ss ++ seq))
              (λ seq. ok (string_t s ∷ seq))),
      )

  -- Let `lexical_cast<size_t>` read decimals back. A single byte behind the last string, which has no line
  -- end, makes the loop over a body step over its end, whatever the byte and the strings, of less than
  -- 2^64 bytes each, are.
  pub string_seq_overrun :
      (ss : List Bytes) (s : Bytes) (c : ℕ)
      → All (λ s. length s < 2 ^ 64) ss
      → length s < 2 ^ 64
      → string_seq lexical_cast (encode_sequence (strings ss) ++ (unterminated s ++ c ∷ [])) ≡ fault
  unfolding string_seq
  string_seq_overrun ss s c h hs =
      let body = unterminated s ++ c ∷ [] in
      let (fuel, e) =
        string_loop-strings ss (suc (length (encode_sequence (strings ss) ++ body))) body h (
          omega (
            arith,
            length-encode_sequence ss,
            length-append (encode_sequence (strings ss)) body,
          )) in
      let at_end = string_loop_string fuel s (c ∷ []) hs in
      rw e (
        ap (λ m. m >>= (λ seq. ok (strings ss ++ seq)) >>= λ seq. ok (sequence_t seq))
          (ap (string_loop lexical_cast (suc fuel))
              (append_assoc (decimal (length s)) (b':' ∷ s) (c ∷ []))
            ∙ at_end))
