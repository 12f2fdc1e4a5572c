-- ===== src/Scgi/Put/Fuel.antt =====
-- The fuel of the loop over a string sequence, in src/scgi/scgi_context.cpp.
use de_co_f.Base.{
  ℕ, zero, suc, ◌+◌, ◌≤◌, ◌≡◌, refl, ap, Option, List, [], ◌∷◌, arith, length, Bytes,
}
use de_co_f.Except.{Except, ok, ◌>>=◌}
use de_co_f.Scgi.Bencode.{
  ResultType, good, bad, indeterminate, BencodeStringParser, consume, parse, reset,
}
use de_co_f.Scgi.Put.{fresh, after_string, string_loop, string_seq}
use de_co_f.Types.{Scalar, sequence_t}

module _ (lexical_cast : Bytes → Option ℕ) where
  -- The parser leaves a part of what it is given.
  length-parse :
      (cs : Bytes) (p : BencodeStringParser) → length (parse lexical_cast cs p).1 ≤ length cs
  unfolding parse
  length-parse [] p = omega arith
  length-parse (c ∷ cs) p = ground (arith, length-parse cs (consume lexical_cast c p).0)

  after_string_cong :
      (r : ResultType × Bytes × BencodeStringParser) (f g : Bytes → Except (List Scalar))
      → ((it : Bytes) → suc (suc (length it)) ≤ length r.1 → f it ≡ g it)
      → after_string lexical_cast r f ≡ after_string lexical_cast r g
  after_string_cong (good, [], p) f g h = refl
  after_string_cong (good, c ∷ [], p) f g h = refl
  after_string_cong (good, c ∷ d ∷ it, p) f g h =
      ap (λ m. m >>= λ seq. ok (Scalar.string_t p.data' ∷ seq)) (h it (omega arith))
  after_string_cong (bad, it, p) f g h = refl
  after_string_cong (indeterminate, it, p) f g h = refl

  string_loop_enough :
      (k m : ℕ) (body : Bytes)
      → suc (length body) ≤ k
      → suc (length body) ≤ m
      → string_loop lexical_cast k body ≡ string_loop lexical_cast m body
  unfolding string_loop
  string_loop_enough zero m body h l = absurd (omega arith)
  string_loop_enough (suc k) zero body h l = absurd (omega arith)
  string_loop_enough (suc k) (suc m) [] h l = refl
  string_loop_enough (suc k) (suc m) (c ∷ cs) h l =
      let r = parse lexical_cast (c ∷ cs) (reset fresh) in
      after_string_cong r (string_loop lexical_cast k) (string_loop lexical_cast m) (λ it shorter.
        let n = length-parse (c ∷ cs) (reset fresh) in
        string_loop_enough k m it (omega arith) (omega arith))

  -- More fuel than `string_seq` takes changes nothing: the loop ends by itself.
  pub string_seq_fuel :
      (extra : ℕ) (body : Bytes)
      → string_seq lexical_cast body
        ≡ (do seq ← string_loop lexical_cast (suc (length body + extra)) body; ok (sequence_t seq))
  unfolding string_seq
  string_seq_fuel extra body =
      ap (λ m. m >>= λ seq. ok (sequence_t seq))
        (string_loop_enough (suc (length body)) (suc (length body + extra)) body (omega arith)
          (omega arith))
