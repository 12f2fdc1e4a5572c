-- ===== src/Scgi/Request/AllHeaders.antt =====
-- `parse` of include/decof/scgi/request_parser.h over all headers of a request.
use de_co_f.Base.{
  ℕ, ◌+◌, ◌^◌, ◌≤◌, ◌<◌, ◌≡◌, ◌≢◌, refl, ap, ◌∙◌, true, false, some, List, [], ◌∷◌, ◌++◌, arith,
  if◌then◌else◌, length, All, Bytes, bytes_eq, bytes_eq_iff, codes, Bool-cases, inl, inr,
}
use de_co_f.Scgi.Request.{
  RequestParser, indeterminate, header_start, Method, Headers, assign, method_of, Boost, end_header,
  interpret, check_order, store_header, set_content_type, parse,
}
use de_co_f.Scgi.Request.Headers.{IsNameByte, at_end, parse-header}

-- The headers on the wire, with what follows them, and their size.
abbrev pub wire : Headers → Bytes → Bytes
wire [] rest = rest
wire ((n, v) ∷ hs) rest = n ++ (0 ∷ (v ++ (0 ∷ wire hs rest)))

abbrev pub size : Headers → ℕ
size [] = 0
size ((n, v) ∷ hs) = length n + length v + 2 + size hs

abbrev pub IsHeader : Bytes × Bytes → Type 0
IsHeader (n, v) = All IsNameByte n × (0 < length n) × All (λ c. c ≢ 0) v

-- What a request says: its headers in a map, its method and its uri.
abbrev pub header_map : Headers → Headers → Headers
header_map m [] = m
header_map m ((n, v) ∷ hs) = header_map (assign n v m) hs

abbrev pub uri_of : Bytes → Headers → Bytes
uri_of u [] = u
uri_of u ((n, v) ∷ hs) = uri_of (if bytes_eq n (codes "REQUEST_URI") then v else u) hs

abbrev pub request_method : Method → Headers → Method
request_method m [] = m
request_method m ((n, v) ∷ hs) =
    request_method (if bytes_eq n (codes "REQUEST_METHOD") then method_of v m else m) hs

pub record Same (p q : RequestParser) : Type 0 where
  pub count : q.count ≡ p.count
  pub netstring_length : q.netstring_length ≡ p.netstring_length
  pub content_length : q.content_length ≡ p.content_length
  pub headers : q.headers ≡ p.headers
  pub body : q.body ≡ p.body

-- The first part of a CONTENT_TYPE.
abbrev pub first_part : List Bytes → Bytes → Bytes
first_part [] t = t
first_part (x ∷ xs) t = x

content_type_first :
    (ts : List Bytes) (p : RequestParser)
    → (set_content_type ts p).content_type ≡ first_part ts p.content_type
content_type_first [] p = refl
content_type_first (t ∷ []) p = refl
content_type_first (t ∷ e ∷ ts) p = refl

content_not_others :
    (n : Bytes)
    → bytes_eq n (codes "CONTENT_TYPE") ≡ true
    → (bytes_eq n (codes "REQUEST_METHOD") ≡ false) × (bytes_eq n (codes "REQUEST_URI") ≡ false)
unfolding bytes_eq
content_not_others n h = rw ((bytes_eq_iff n (codes "CONTENT_TYPE")).0 h) (refl, refl)

content_type_lem :
    (ts : List Bytes) (p : RequestParser)
    → Same p (set_content_type ts p)
      × ((set_content_type ts p).uri ≡ p.uri)
      × ((set_content_type ts p).method ≡ p.method)
content_type_lem [] p = ground arith
content_type_lem (t ∷ []) p = ground arith
content_type_lem (t ∷ e ∷ ts) p = ground arith

uri_not_method :
    (n : Bytes)
    → bytes_eq n (codes "REQUEST_URI") ≡ true
    → bytes_eq n (codes "REQUEST_METHOD") ≡ false
unfolding bytes_eq
uri_not_method n h = rw ((bytes_eq_iff n (codes "REQUEST_URI")).0 h)

module _ (lib : Boost) where
  abbrev pub content_type_of : Bytes → Headers → Bytes
  content_type_of t [] = t
  content_type_of t ((n, v) ∷ hs) =
      content_type_of (if bytes_eq n (codes "CONTENT_TYPE") then first_part (lib.split v) t else t)
        hs

  -- One header behind the first two.
  abbrev pub later : Bytes → Bytes → RequestParser → RequestParser
  later n v p = store_header lib n v (interpret lib n v (at_end lib n v p))

  abbrev laters : Headers → RequestParser → RequestParser
  laters [] p = p
  laters ((n, v) ∷ hs) p = laters hs (later n v p)

  length-assign : (n v : Bytes) (m : Headers) → length m ≤ length (assign n v m)
  unfolding assign
  length-assign n v [] = omega arith
  length-assign n v ((j, w) ∷ m) = ground (arith, length-assign n v m)

  -- What `interpret` leaves alone, and what it makes of the uri and the method.
  pub interpret_lem :
      (n v : Bytes) (p : RequestParser)
      → Same p (interpret lib n v p)
        × ((interpret lib n v p).uri ≡ (if bytes_eq n (codes "REQUEST_URI") then v else p.uri))
        × ((interpret lib n v p).method
            ≡ (if bytes_eq n (codes "REQUEST_METHOD") then method_of v p.method else p.method))
  unfolding interpret
  interpret_lem n v p =
      let (s, u, m) = content_type_lem (lib.split v) p in
      (ground arith, ground (arith, uri_not_method n), ground arith)

  interpret-content_type :
      (n v : Bytes) (p : RequestParser)
      → (interpret lib n v p).content_type ≡ (
          if bytes_eq n (codes "CONTENT_TYPE")
          then first_part (lib.split v) p.content_type
          else p.content_type)
  unfolding interpret
  interpret-content_type n v p = elim (Bool-cases (bytes_eq n (codes "CONTENT_TYPE"))) [
    | inl e ↦
        let (a, b) = content_not_others n e in rw (e, a, b) (content_type_first (lib.split v) p)
    | inr e ↦ ground (arith, e)
  ]

  end_header-later :
      (n v : Bytes) (p : RequestParser)
      → 2 ≤ length p.headers
      → end_header lib n v (at_end lib n v p) ≡ some (later n v p)
  unfolding end_header check_order
  end_header-later n v p h = ground (arith, interpret_lem n v (at_end lib n v p))

  -- The parser between two headers, after the headers `hs` were read from `p`.
  pub record After (hs : Headers) (p q : RequestParser) : Type 0 where
    pub count : q.count ≡ p.count + size hs
    pub netstring_length : q.netstring_length ≡ p.netstring_length
    pub content_length : q.content_length ≡ p.content_length
    pub headers : q.headers ≡ header_map p.headers hs
    pub body : q.body ≡ p.body
    pub uri : q.uri ≡ uri_of p.uri hs
    pub method : q.method ≡ request_method p.method hs
    pub content_type : q.content_type ≡ content_type_of p.content_type hs

  abbrev pub Between : RequestParser → Type 0
  Between p = (p.state ≡ header_start) × (p.current_header ≡ []) × (p.current_value ≡ [])

  pub After-nil : (p : RequestParser) → After [] p p
  After-nil p = record {
    count = omega arith;
    netstring_length = refl;
    content_length = refl;
    headers = refl;
    body = refl;
    uri = refl;
    method = refl;
    content_type = refl;
  }

  pub After-cons :
      (n v : Bytes) (hs : Headers) (p q : RequestParser)
      → After hs (later n v p) q
      → After ((n, v) ∷ hs) p q
  After-cons n v hs p q a =
      let (same, u, m) = interpret_lem n v (at_end lib n v p) in
      record {
        count = omega arith;
        netstring_length = a.netstring_length ∙ same.netstring_length;
        content_length = a.content_length ∙ same.content_length;
        headers = a.headers ∙ ap (λ h. header_map (assign n v h) hs) same.headers;
        body = a.body ∙ same.body;
        uri = a.uri ∙ ap (λ x. uri_of x hs) u;
        method = a.method ∙ ap (λ x. request_method x hs) m;
        content_type =
            a.content_type
            ∙ ap (λ x. content_type_of x hs) (interpret-content_type n v (at_end lib n v p));
      }

  pub parse-laters :
      (hs : Headers) (rest : Bytes) (p : RequestParser)
      → Between p
      → All IsHeader hs
      → 2 ≤ length p.headers
      → p.count + size hs ≤ p.netstring_length
      → p.netstring_length < 2 ^ 64
      → (q : RequestParser) × (parse lib indeterminate (wire hs rest) p
          ≡ parse lib indeterminate rest q)
        × Between q
        × After hs p q
  parse-laters [] rest p b h two l m = (p, refl, b, After-nil p)
  parse-laters ((n, v) ∷ hs) rest p b ((hn, ln, hv), h) two l m =
      let (same, _, _) = interpret_lem n v (at_end lib n v p) in
      let more : length p.headers
          ≤ length (assign n v (interpret lib n v (at_end lib n v p)).headers) =
        rw same.headers (length-assign n v p.headers) in
      let (q, e, b', a) =
        parse-laters hs rest (later n v p) (refl, refl, refl) h (omega arith)
          (omega (arith, same.count, same.netstring_length))
          (omega (arith, same.netstring_length)) in
      (
        q,
        parse-header lib n v (wire hs rest) p (later n v p) b.0 b.1 b.2 hn ln hv (omega arith) m
              (end_header-later n v p two)
            ∙ e,
        b',
        After-cons n v hs p q a,
      )

  -- The first two headers.
  abbrev pub first_two : Bytes → Headers
  first_two n = (codes "CONTENT_LENGTH", n) ∷ (codes "SCGI", codes "1") ∷ []

  abbrev pub second : Bytes → RequestParser → ℕ → RequestParser
  second n p k =
      let q = later (codes "CONTENT_LENGTH") n (record p { content_length = k }) in
      later (codes "SCGI") (codes "1") q

  end_header_first :
      (n : Bytes) (k : ℕ) (p : RequestParser)
      → p.headers ≡ []
      → lib.cast_size n ≡ some k
      → end_header lib (codes "CONTENT_LENGTH") n (at_end lib (codes "CONTENT_LENGTH") n p)
        ≡ some (later (codes "CONTENT_LENGTH") n (record p { content_length = k }))
  unfolding end_header check_order interpret bytes_eq
  end_header_first n k p e c = rw (e, check_order) (rw (c, check_order))

  end_header_second :
      (p : RequestParser)
      → length p.headers ≡ 1
      → end_header lib (codes "SCGI") (codes "1") (at_end lib (codes "SCGI") (codes "1") p)
        ≡ some (later (codes "SCGI") (codes "1") p)
  unfolding end_header check_order interpret bytes_eq
  end_header_second p e = ground arith

  pub parse-first_two :
      (n rest : Bytes) (k : ℕ) (p : RequestParser)
      → Between p
      → p.headers ≡ []
      → All (λ c. c ≢ 0) n
      → lib.cast_size n ≡ some k
      → p.count + size (first_two n) ≤ p.netstring_length
      → p.netstring_length < 2 ^ 64
      → parse lib indeterminate (wire (first_two n) rest) p
        ≡ parse lib indeterminate rest (second n p k)
  parse-first_two n rest k p b e hn c l m =
      let (same, _, _) =
        interpret_lem (codes "CONTENT_LENGTH") n
          (at_end lib (codes "CONTENT_LENGTH") n (record p { content_length = k })) in
      let p1 : RequestParser = later (codes "CONTENT_LENGTH") n (record p { content_length = k }) in
      let one : length p1.headers ≡ 1 =
        ap (λ h. length (assign (codes "CONTENT_LENGTH") n h)) (same.headers ∙ e)
        ∙ unfold assign in refl in
      parse-header lib (codes "CONTENT_LENGTH") n (codes "SCGI" ++ (0 ∷ (codes "1" ++ (0 ∷ rest))))
        p p1 b.0 b.1 b.2 (omega arith) (omega arith) hn (omega arith) m (end_header_first n k p e c)
      ∙ parse-header lib (codes "SCGI") (codes "1") rest p1 (second n p k) refl refl refl
          (omega arith) (omega arith) (omega arith)
          (omega (arith, same.count, same.netstring_length)) (omega (arith, same.netstring_length))
          (end_header_second p1 one)
