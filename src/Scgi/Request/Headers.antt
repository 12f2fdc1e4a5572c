-- ===== src/Scgi/Request/Headers.antt =====
-- `parse` of include/decof/scgi/request_parser.h over one header of a request.
use de_co_f.Base.{
  ℕ, ◌+◌, ◌%◌, ◌^◌, ◌≤◌, ◌<◌, ◌≡◌, ◌≢◌, refl, ap, subst, ◌∙◌, true, some, [], ◌∷◌, ◌++◌,
  append_assoc, append-nil, arith, leb, length, All, Bytes,
}
use de_co_f.Scgi.Request.{
  RequestParser, ResultType, good, bad, indeterminate, header_start, header_value, Boost,
  end_header, consume_in, consume, parse,
}

-- Bytes of a header's name: the end of the name is a NUL, and a comma is taken for the end of all
-- headers.
abbrev pub IsNameByte : ℕ → Type 0
IsNameByte c = (c ≢ 0) × (c ≢ b',')

module _ (lib : Boost) where
  parse-name :
      (n rest : Bytes) (p : RequestParser)
      → p.state ≡ header_start
      → All IsNameByte n
      → p.count + length n < p.netstring_length
      → p.netstring_length < 2 ^ 64
      → parse lib indeterminate (n ++ rest) p
        ≡ parse lib indeterminate rest
            (record p { current_header = p.current_header ++ n; count = p.count + length n })
  unfolding parse
  parse-name [] rest p e h l m =
      let z : p.count + 0 ≡ p.count = omega arith in rw (append-nil p.current_header, z)
  parse-name (c ∷ n) rest p e h l m = ground (
    arith,
    h.0,
    append_assoc p.current_header (c ∷ []) n,
    parse-name n rest
        (record p { current_header = p.current_header ++ c ∷ []; count = p.count + 1 }) e h.1,
  )

  parse-value :
      (v rest : Bytes) (p : RequestParser)
      → p.state ≡ header_value
      → All (λ c. c ≢ 0) v
      → p.count + length v ≤ p.netstring_length
      → p.netstring_length < 2 ^ 64
      → parse lib indeterminate (v ++ rest) p
        ≡ parse lib indeterminate rest
            (record p { current_value = p.current_value ++ v; count = p.count + length v })
  unfolding parse
  parse-value [] rest p e h l m =
      let z : p.count + 0 ≡ p.count = omega arith in rw (append-nil p.current_value, z)
  parse-value (c ∷ v) rest p e h l m = ground (
    arith,
    h.0,
    append_assoc p.current_value (c ∷ []) v,
    parse-value v rest (record p { current_value = p.current_value ++ c ∷ []; count = p.count + 1 })
        e h.1,
  )

  -- The parser at the final NUL of a header, and what the header's end makes of it.
  abbrev pub at_end : Bytes → Bytes → RequestParser → RequestParser
  at_end n v p = record p {
    state = header_value;
    current_header = n;
    current_value = v;
    count = p.count + (length n + length v + 2);
  }

  parse-name_end :
      (rest : Bytes) (p : RequestParser)
      → p.state ≡ header_start
      → 0 < length p.current_header
      → p.count + 1 < p.netstring_length
      → p.netstring_length < 2 ^ 64
      → parse lib indeterminate (0 ∷ rest) p
        ≡ parse lib indeterminate rest (record p { state = header_value; count = p.count + 1 })
  unfolding parse
  parse-name_end rest p e h l m = ground arith

  -- One step of the loop, by what `consume` returns.
  pub parse_step :
      (c : ℕ) (cs : Bytes) (p q : RequestParser)
      → consume lib c p ≡ (q, indeterminate)
      → parse lib indeterminate (c ∷ cs) p ≡ parse lib indeterminate cs q
  unfolding parse
  parse_step c cs p q e =
      ap
        (λ (x : RequestParser × ResultType). elim x.1 [
          | bad ↦ (x.0, bad)
          | good ↦ parse lib good cs x.0
          | indeterminate ↦ parse lib indeterminate cs x.0
        ])
        e

  parse-value_end :
      (rest : Bytes) (p q : RequestParser)
      → p.state ≡ header_value
      → p.count + 1 ≤ p.netstring_length
      → p.netstring_length < 2 ^ 64
      → end_header lib p.current_header p.current_value
          (record p { state = header_value; count = p.count + 1 })
        ≡ some q
      → parse lib indeterminate (0 ∷ rest) p ≡ parse lib indeterminate rest q
  parse-value_end rest p q e l m h =
      let small : (p.count + 1) % 2 ^ 64 ≡ p.count + 1 = omega arith in
      let within : leb (p.count + 1) p.netstring_length ≡ true = ground arith in
      let taken : consume lib 0 p ≡ (q, indeterminate) =
        rw (e, small) (unfold consume_in in rw (within, h)) in
      parse_step 0 rest p q taken

  pub parse-header :
      (n v rest : Bytes) (p q : RequestParser)
      → p.state ≡ header_start
      → p.current_header ≡ []
      → p.current_value ≡ []
      → All IsNameByte n
      → 0 < length n
      → All (λ c. c ≢ 0) v
      → p.count + (length n + length v + 2) ≤ p.netstring_length
      → p.netstring_length < 2 ^ 64
      → end_header lib n v (at_end n v p) ≡ some q
      → parse lib indeterminate (n ++ (0 ∷ (v ++ (0 ∷ rest)))) p ≡ parse lib indeterminate rest q
  parse-header n v rest p q e eh ev hn ln hv l m h =
      let p1 : RequestParser = record p { current_header = n; count = p.count + length n } in
      let p2 : RequestParser = record p1 { state = header_value; count = p.count + length n + 1 } in
      let p3 : RequestParser = record p2 {
        current_value = v;
        count = p.count + length n + 1 + length v;
      } in
      let s1 : parse lib indeterminate (n ++ (0 ∷ (v ++ (0 ∷ rest)))) p
          ≡ parse lib indeterminate (0 ∷ (v ++ (0 ∷ rest))) p1 =
        parse-name n (0 ∷ (v ++ (0 ∷ rest))) p e hn (omega arith) m
        ∙ ap
            (λ h.
              parse lib indeterminate (0 ∷ (v ++ (0 ∷ rest)))
                (record p { current_header = h ++ n; count = p.count + length n }))
            eh in
      let s2 : parse lib indeterminate (0 ∷ (v ++ (0 ∷ rest))) p1
          ≡ parse lib indeterminate (v ++ (0 ∷ rest)) p2 =
        parse-name_end (v ++ (0 ∷ rest)) p1 e ln (omega arith) m in
      let s3 : parse lib indeterminate (v ++ (0 ∷ rest)) p2
          ≡ parse lib indeterminate (0 ∷ rest) p3 =
        parse-value v (0 ∷ rest) p2 refl hv (omega arith) m
        ∙ ap
            (λ h.
              parse lib indeterminate (0 ∷ rest)
                (record p2 { current_value = h ++ v; count = p.count + length n + 1 + length v }))
            ev in
      let total : p.count + (length n + length v + 2) ≡ p.count + length n + 1 + length v + 1 =
        omega arith in
      s1
      ∙ s2
      ∙ s3
      ∙ parse-value_end rest p3 q refl (omega arith) m
          (subst (λ k. end_header lib n v (record p3 { count = k }) ≡ some q) total h)
