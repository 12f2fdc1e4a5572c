-- ===== src/Scgi/Request/Ends.antt =====
-- `parse` of include/decof/scgi/request_parser.h before the headers of a request and behind them.
use de_co_f.Base.{
  ℕ, ◌+◌, ◌%◌, ◌^◌, ◌<◌, ◌≡◌, refl, sym, ap, ◌∙◌, true, false, some, [], ◌∷◌, ◌++◌, append_assoc,
  append-nil, arith, ◌==◌, ltb, length, length-append, is_empty, All, Bytes,
}
use de_co_f.Base.Decimal.{is_digit}
use de_co_f.Scgi.Bencode.{pred_size}
use de_co_f.Scgi.Request.{
  RequestParser, ResultType, good, bad, indeterminate, State, header_start, body_range, Boost,
  consume_in, consume, tick, parse,
}
use de_co_f.Scgi.Request.Headers.{parse_step}

module _ (lib : Boost) where
  -- The body, up to its last byte.
  pub parse-body :
      (c : ℕ) (cs : Bytes) (p : RequestParser)
      → p.state ≡ body_range
      → length p.body + length (c ∷ cs) ≡ p.content_length
      → (q : RequestParser) × (parse lib indeterminate (c ∷ cs) p ≡ (q, good))
        × (q.body ≡ p.body ++ c ∷ cs)
        × (q.headers ≡ p.headers)
        × (q.uri ≡ p.uri)
        × (q.method ≡ p.method)
        × (q.content_type ≡ p.content_type)
  unfolding parse
  parse-body c [] p e l = (
    record p { body = p.body ++ c ∷ []; count = (p.count + 1) % 2 ^ 64 },
    ground (arith, length-append p.body (c ∷ [])),
    refl,
    refl,
    refl,
    refl,
    refl,
  )
  parse-body c (d ∷ cs) p e l =
      let p' : RequestParser = record p {
        body = p.body ++ c ∷ [];
        count = (p.count + 1) % 2 ^ 64;
      } in
      let (q, run, b, h, u, m, z) =
        parse-body d cs p' e (omega (arith, length-append p.body (c ∷ []))) in
      (
        q,
        parse_step lib c (d ∷ cs) p p' (ground (arith, length-append p.body (c ∷ []))) ∙ run,
        b ∙ append_assoc p.body (c ∷ []) (d ∷ cs),
        h,
        u,
        m,
        z,
      )

  pub parse-length :
      (ds rest : Bytes) (p : RequestParser)
      → p.state ≡ State.netstring_length
      → All (λ c. is_digit c ≡ true) ds
      → (k : ℕ) × (parse lib indeterminate (ds ++ rest) p
          ≡ parse lib indeterminate rest (record p { length_str = p.length_str ++ ds; count = k }))
  parse-length [] rest p e h = (
    p.count,
    ap (λ s. parse lib indeterminate rest (record p { length_str = s }))
        (sym (append-nil p.length_str)),
  )
  parse-length (d ∷ ds) rest p e h =
      let p' : RequestParser = record p {
        length_str = p.length_str ++ d ∷ [];
        count = (p.count + 1) % 2 ^ 64;
      } in
      let (k, run) = parse-length ds rest p' e h.1 in
      let d' = h.0 in
      (
        k,
        parse_step lib d (ds ++ rest) p p' (rw e (unfold consume_in in rw d'))
            ∙ run
            ∙ ap (λ s. parse lib indeterminate rest (record p { length_str = s; count = k }))
                (append_assoc p.length_str (d ∷ []) ds),
      )

  -- The colon behind the length.
  pub parse-colon :
      (n : ℕ) (rest : Bytes) (p : RequestParser)
      → p.state ≡ State.netstring_length
      → lib.cast_size p.length_str ≡ some n
      → parse lib indeterminate (b':' ∷ rest) p
        ≡ parse lib indeterminate rest
            (record p { netstring_length = n; count = 0; state = header_start })
  parse-colon n rest p e c =
      parse_step lib b':' rest p
        (record p { netstring_length = n; count = 0; state = header_start })
        (rw e (unfold consume_in in rw c))

  -- The comma behind the headers, in front of a body and in front of none.
  pred-tick : (c : ℕ) → c < 2 ^ 64 → pred_size ((c + 1) % 2 ^ 64) ≡ c
  pred-tick c l = ground arith

  pub parse-comma :
      (rest : Bytes) (p : RequestParser)
      → p.state ≡ header_start
      → p.count ≡ p.netstring_length
      → p.netstring_length < 2 ^ 64
      → 0 < p.content_length
      → parse lib indeterminate (b',' ∷ rest) p
        ≡ parse lib indeterminate rest
            (record p { state = body_range; count = (p.count + 1) % 2 ^ 64 })
  parse-comma rest p e l m b =
      let at_end : (p.netstring_length == pred_size ((p.count + 1) % 2 ^ 64)) ≡ true =
        rw (pred-tick p.count (omega arith)) (ground arith) in
      let more : ltb 0 p.content_length ≡ true = ground arith in
      parse_step lib b',' rest p (record p { state = body_range; count = (p.count + 1) % 2 ^ 64 })
        (rw e (unfold consume_in in rw (at_end, more)))

  parse_last :
      (c : ℕ) (p q : RequestParser)
      → consume lib c p ≡ (q, good)
      → parse lib indeterminate (c ∷ []) p ≡ (q, good)
  unfolding parse
  parse_last c p q e =
      ap
        (λ (x : RequestParser × ResultType). elim x.1 [
          | bad ↦ (x.0, bad)
          | good ↦ (x.0, good)
          | indeterminate ↦ (x.0, indeterminate)
        ])
        e

  pub parse-last_comma :
      (p : RequestParser)
      → p.state ≡ header_start
      → p.count ≡ p.netstring_length
      → p.netstring_length < 2 ^ 64
      → p.content_length ≡ 0
      → parse lib indeterminate (b',' ∷ []) p ≡ (tick lib p, good)
  parse-last_comma p e l m b =
      let at_end : (p.netstring_length == pred_size ((p.count + 1) % 2 ^ 64)) ≡ true =
        rw (pred-tick p.count (omega arith)) (ground arith) in
      let none_left : ltb 0 p.content_length ≡ false = ground arith in
      parse_last b',' p (tick lib p) (rw e (unfold consume_in in rw (at_end, none_left)))

  pub parse-nonempty :
      (r : ResultType) (xs ys : Bytes) (p : RequestParser)
      → is_empty xs ≡ false
      → parse lib r (xs ++ ys) p ≡ parse lib indeterminate (xs ++ ys) p
  unfolding parse
  parse-nonempty r [] ys p h = grind arith
  parse-nonempty r (x ∷ xs) ys p h = refl
