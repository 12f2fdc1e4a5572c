-- ===== src/Scgi/Request/RoundTrip.antt =====
-- `parse` of include/decof/scgi/request_parser.h over a whole request.
use de_co_f.Base.{
  ℕ, ◌+◌, ◌%◌, ◌^◌, ◌≤◌, ◌<◌, ◌≡◌, ◌≢◌, refl, ap, ◌∙◌, true, some, [], ◌∷◌, ◌++◌, arith, length,
  All, Bytes, bytes_eq, codes,
}
use de_co_f.Base.Decimal.{is_digit, decimal, decimal_digits, decimal-ne_empty}
use de_co_f.Scgi.Request.{
  RequestParser, ResultType, good, indeterminate, header_start, body_range, undefined, Headers,
  assign, Boost, tick, parse, reset,
}
use de_co_f.Scgi.Request.AllHeaders.{
  wire, size, IsHeader, header_map, uri_of, request_method, content_type_of, first_two, second,
  parse-first_two, parse-laters, After, After-nil, After-cons, Between, later,
}
use de_co_f.Scgi.Request.Ends.{
  parse-body, parse-length, parse-colon, parse-comma, parse-last_comma, parse-nonempty,
}

module _ (lib : Boost) where
  After-second :
      (n : Bytes) (k : ℕ) (more : Headers) (p q : RequestParser)
      → After lib more (second lib n p k) q
      → After lib (first_two lib n ++ more) (record p { content_length = k }) q
  After-second n k more p q a =
      After-cons lib (codes "CONTENT_LENGTH") n ((codes "SCGI", codes "1") ∷ more)
        (record p { content_length = k }) q
        (After-cons lib (codes "SCGI") (codes "1") more
          (later lib (codes "CONTENT_LENGTH") n (record p { content_length = k })) q a)

  -- What was read of a request with the headers `hs` and the body `body`, by a parser that had the content
  -- type `before`.
  pub record Received (before : Bytes) (hs : Headers) (body : Bytes) (p : RequestParser)
      : Type 0 where
    pub headers : p.headers ≡ header_map [] hs
    pub body_read : p.body ≡ body
    pub uri : p.uri ≡ uri_of [] hs
    pub method : p.method ≡ request_method undefined hs
    pub content_type : p.content_type ≡ content_type_of lib before hs

  not_nul : (s : Bytes) → All (λ c. is_digit c ≡ true) s → All (λ c. c ≢ 0) s
  not_nul [] h = h
  not_nul (c ∷ s) h = (ground (arith, h.0), not_nul s h.1)

  two_headers :
      (n : Bytes) (k : ℕ) (p : RequestParser)
      → p.headers ≡ []
      → 2 ≤ length (second lib n p k).headers
  two_headers n k p e =
      let a = After-second n k [] p (second lib n p k) (After-nil lib (second lib n p k)) in
      rw (a.headers, e) (unfold assign in unfold bytes_eq in omega arith)

  -- The comma and the body, from a parser that has read all headers.
  parse-rest :
      (body : Bytes) (p : RequestParser)
      → p.state ≡ header_start
      → p.count ≡ p.netstring_length
      → p.netstring_length < 2 ^ 64
      → p.content_length ≡ length body
      → p.body ≡ []
      → (q : RequestParser) × (parse lib indeterminate (b',' ∷ body) p ≡ (q, good))
        × (q.body ≡ body)
        × (q.headers ≡ p.headers)
        × (q.uri ≡ p.uri)
        × (q.method ≡ p.method)
        × (q.content_type ≡ p.content_type)
  parse-rest [] p e l m c b =
      (tick lib p, parse-last_comma lib p e l m c, b, refl, refl, refl, refl)
  parse-rest (x ∷ xs) p e l m c b =
      let p' : RequestParser = record p { state = body_range; count = (p.count + 1) % 2 ^ 64 } in
      let (q, run, qb, h, u, t, z) = parse-body lib x xs p' refl (omega (arith, ap length b)) in
      (
        q,
        parse-comma lib (x ∷ xs) p e l m (omega arith) ∙ run,
        qb ∙ ap (λ s. s ++ x ∷ xs) b,
        h,
        u,
        t,
        z,
      )

  parse-request_from :
      (n : Bytes) (more : Headers) (body : Bytes) (p : RequestParser)
      → Between lib p
      → p.headers ≡ []
      → p.body ≡ []
      → p.uri ≡ []
      → p.method ≡ undefined
      → All (λ c. c ≢ 0) n
      → lib.cast_size n ≡ some (length body)
      → All IsHeader more
      → p.count ≡ 0
      → p.netstring_length ≡ size (first_two lib n ++ more)
      → p.netstring_length < 2 ^ 64
      → (q : RequestParser) × (parse lib indeterminate
            (wire (first_two lib n ++ more) (b',' ∷ body))
            p
          ≡ (q, good))
        × Received p.content_type (first_two lib n ++ more) body q
  parse-request_from n more body p b eh eb eu em hn c h z l m =
      let p3 : RequestParser = second lib n p (length body) in
      let a3 = After-second n (length body) [] p p3 (After-nil lib p3) in
      let (q4, run4, b4, a) =
        parse-laters lib more (b',' ∷ body) p3 (refl, refl, refl) h
          (two_headers n (length body) p eh) (omega (arith, a3.count, a3.netstring_length))
          (omega (arith, a3.netstring_length)) in
      let a' = After-second n (length body) more p q4 a in
      let (q, run, qb, qh, qu, qm, qc) =
        parse-rest body q4 b4.0 (omega (arith, a'.count, a'.netstring_length))
          (omega (arith, a'.netstring_length)) a'.content_length (a'.body ∙ eb) in
      (
        q,
        parse-first_two lib n (wire more (b',' ∷ body)) (length body) p b eh hn c (omega arith) m
            ∙ run4
            ∙ run,
        record {
          headers = qh ∙ a'.headers ∙ ap (λ x. header_map x (first_two lib n ++ more)) eh;
          body_read = qb;
          uri = qu ∙ a'.uri ∙ ap (λ x. uri_of x (first_two lib n ++ more)) eu;
          method = qm ∙ a'.method ∙ ap (λ x. request_method x (first_two lib n ++ more)) em;
          content_type = qc ∙ a'.content_type;
        },
      )

  -- Let `lexical_cast<size_t>` read decimals back. Whatever state a parser was in, after `reset` it
  -- accepts a netstring of headers followed by the body, if the sizes of both fit into a size_t, the
  -- first header is CONTENT_LENGTH with the size of the body, the second SCGI with "1", and all further
  -- ones have non-empty names without NUL and comma and values without NUL. The headers, the body, the
  -- uri, the method and the content type that the parser holds are those of the request; without a content
  -- type in the request it is the one that the parser had.
  pub parse-request :
      (r : ResultType) (p : RequestParser) (more : Headers) (body : Bytes)
      → ((n : ℕ) → n < 2 ^ 64 → lib.cast_size (decimal n) ≡ some n)
      → All IsHeader more
      → size (first_two lib (decimal (length body)) ++ more) < 2 ^ 64
      → length body < 2 ^ 64
      → (q : RequestParser) × (parse lib r
            (decimal (size (first_two lib (decimal (length body)) ++ more))
              ++ (b':' ∷ wire (first_two lib (decimal (length body)) ++ more) (b',' ∷ body)))
            (reset p)
          ≡ (q, good))
        × Received p.content_type (first_two lib (decimal (length body)) ++ more) body q
  unfolding reset
  parse-request r p more body cast h l m =
      let n = decimal (length body) in
      let total = size (first_two lib n ++ more) in
      let rest : Bytes = b':' ∷ wire (first_two lib n ++ more) (b',' ∷ body) in
      let (k, run1) = parse-length lib (decimal total) rest (reset p) refl (decimal_digits total) in
      let p1 : RequestParser = record (reset p) { length_str = decimal total; count = k } in
      let p2 : RequestParser = record p1 {
        netstring_length = total;
        count = 0;
        state = header_start;
      } in
      let (q, run2, got) =
        parse-request_from n more body p2 (refl, refl, refl) refl refl refl refl
          (not_nul n (decimal_digits (length body))) (cast (length body) m) h refl refl l in
      (
        q,
        parse-nonempty lib r (decimal total) rest (reset p) (decimal-ne_empty total)
            ∙ run1
            ∙ parse-colon lib total (wire (first_two lib n ++ more) (b',' ∷ body)) p1 refl
                (cast total l)
            ∙ run2,
        got,
      )
