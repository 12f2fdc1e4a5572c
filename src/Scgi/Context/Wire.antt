-- ===== src/Scgi/Context/Wire.antt =====
-- `read_handler` of src/scgi/scgi_context.cpp, from the bytes of a request to its answer.
use de_co_f.Base.{
  ℕ, ◌≡◌, ◌<◌, ◌^◌, ◌⊎◌, inl, inr, refl, sym, ap, ◌∙◌, false, Option, some, [], ◌∷◌, ◌++◌, length,
  All, Bytes, bytes_eq, codes, subst,
}
use de_co_f.Base.Decimal.{decimal}
use de_co_f.Types.{Value}
use de_co_f.Types.Errors.{
  Error, access_denied_error, invalid_parameter_error, wrong_type_error, invalid_value_error,
  unknown_operation_error, parse_error, not_implemented_error, invalid_userlevel_error,
  not_subscribed_error,
}
use de_co_f.Except.{Except, ok, err, out_of_range, other_exception, fault, Void, ◌>>=◌}
use de_co_f.Tree.{Store}
use de_co_f.Access.{Client, Device, State, get_parameter, set_parameter, signal_event}
use de_co_f.Access.Authorization.{
  MayRead, MayWrite, MaySignal, Performed, Refused, get_parameter_lem, set_parameter_lem,
  signal_event_lem,
}
use de_co_f.Scgi.Encoder.{encode_value}
use de_co_f.Scgi.Put.{put_value}
use de_co_f.Scgi.Request.{
  Headers, Method, get, put, post, head, delete, trace, options, connect, undefined, ResultType,
  RequestParser, at, reset,
}
use de_co_f.Scgi.Request.AllHeaders.{
  wire, size, IsHeader, first_two, header_map, uri_of, content_type_of, request_method,
}
use de_co_f.Scgi.Request.RoundTrip.{parse-request}
use de_co_f.Scgi.Response.{
  StatusCode, unauthorized, not_found, bad_request, internal_server_error, Response, stock_response,
}
use de_co_f.Scgi.Context.{
  Environment, Action, send, crash, answer, find, response_with, handle_put_request,
  handle_post_request, and_then, set_decoded, dispatch, read_handler,
}
use de_co_f.Scgi.Context.Requests.{
  read_handler_good, handle_request-dispatch, handle_get_request-found, answer-refused,
  answer-and_then, and_then-state,
}

-- What is sent for the outcome of a call: the response that it asks for, or the status of its exception.
abbrev pub replied : {B : Type 0} → (B → Response) → Except B → Action
replied f (ok b) = send (f b)
replied f (err access_denied_error) = send (stock_response unauthorized)
replied f (err invalid_parameter_error) = send (stock_response not_found)
replied f (err e) = send (stock_response bad_request)
replied f out_of_range = send (stock_response bad_request)
replied f other_exception = send (stock_response internal_server_error)
replied f fault = crash

abbrev pub success : Void → Response
success _ = stock_response StatusCode.ok

answer-err : {B : Type 0} (f : B → Response) (e : Error) → answer (err e) ≡ replied f (err e)
unfolding answer
answer-err f access_denied_error = refl
answer-err f invalid_parameter_error = refl
answer-err f wrong_type_error = refl
answer-err f invalid_value_error = refl
answer-err f unknown_operation_error = refl
answer-err f parse_error = refl
answer-err f not_implemented_error = refl
answer-err f invalid_userlevel_error = refl
answer-err f not_subscribed_error = refl

answer-replied :
    {B : Type 0} (f : B → Response) (r : Except B)
    → answer (r >>= λ b. ok (send (f b))) ≡ replied f r
unfolding answer
answer-replied f (ok b) = refl
answer-replied f (err e) = answer-err f e
answer-replied f out_of_range = refl
answer-replied f other_exception = refl
answer-replied f fault = refl

module _ {D : Type 0} (env : Environment) (device : Device D) (fuel : ℕ) (c : Client) (tree : Store)
    (root : ℕ) where
  -- A call of the application where it is allowed: its effect and its outcome; or a refusal without effect.
  abbrev pub Called :
      {B : Type 0} → Type 0 → (B → Response) → D × Except B → State D → State D × Action → Type 0
  Called May f result s o =
      (May × (o.0.device ≡ result.0) × (o.1 ≡ replied f result.1))
      ⊎ (¬ May
          × (o.0.device ≡ s.device)
          × ((o.1 ≡ send (stock_response unauthorized)) ⊎ (o.1 ≡ send (stock_response not_found))))

  -- The body of a PUT is decoded first.
  abbrev pub PutHandled : Except Value → ℕ → State D → State D × Action → Type 0
  PutHandled (ok v) a s o =
      Called (MayWrite c tree a) success (device.write a v (some c.address) s.device) s o
  PutHandled r a s o = (o.0.device ≡ s.device) × (o.1 ≡ replied success (r >>= λ v. ok tt))

  abbrev pub value_response : Value → Response
  value_response v =
      response_with env device fuel c tree root (codes "text/plain") (encode_value env.print_real v)

  -- What is done for a request of the object at `a`, by its method, content type and body.
  abbrev pub Handled : Method → Bytes → Bytes → ℕ → State D → State D × Action → Type 0
  Handled get type body a s o =
      Called (MayRead c tree a) value_response (device.read a (some c.address) s.device) s o
  Handled put type body a s o = PutHandled (put_value env.put_lib type body) a s o
  Handled post type body a s o =
      Called (MaySignal c tree a) success (device.signal a (some c.address) s.device) s o
  Handled _ type body a s o = (o.0.device ≡ s.device) × (o.1 ≡ send (stock_response bad_request))

  abbrev answered : State D × Except Action → State D × Action
  answered (s, r) = (s, answer r)

  call-Called :
      {B : Type 0} (May : Type 0) (f : B → Response) (call : Option ℕ → D → D × Except B)
      (s : State D) (g : State D × Except B)
      → (May × Performed c s call g) ⊎ (¬ May × Refused s g)
      → Called May f
          (call (some c.address) s.device)
          s
          (answered (and_then g (λ b. ok (send (f b)))))
  call-Called {B = B} May f call s g (inl (m, (_, d, r))) =
      let reply : B → Except Action = λ b. ok (send (f b)) in
      inl (
        m,
        ap (λ (x : State D). x.device) (and_then-state env device fuel c tree root g reply) ∙ d,
        answer-and_then env device fuel c tree root g reply (call (some c.address) s.device).1 r
            ∙ answer-replied f (call (some c.address) s.device).1,
      )
  call-Called {B = B} May f call s g (inr (m, (_, d, r))) =
      let reply : B → Except Action = λ b. ok (send (f b)) in
      inr (
        m,
        ap (λ (x : State D). x.device) (and_then-state env device fuel c tree root g reply) ∙ d,
        answer-refused env device fuel c tree root g reply r,
      )

  put-PutHandled :
      (r : Except Value) (q : RequestParser) (a : ℕ) (s : State D)
      → find env device fuel c tree root q.uri ≡ some a
      → PutHandled r a s (answered (set_decoded env device fuel c tree root r q s))
  unfolding answer
  put-PutHandled (ok v) q a s f =
      subst
        (λ o.
          Called (MayWrite c tree a) success (device.write a v (some c.address) s.device) s
            (answered (and_then (set_parameter device c tree o v s) (λ x. ok (send (success x))))))
        (sym f)
        (call-Called (MayWrite c tree a) success (device.write a v) s
          (set_parameter device c tree (some a) v s) (set_parameter_lem device c tree a v s))
  put-PutHandled (err e) q a s f = (refl, answer-err success e)
  put-PutHandled out_of_range q a s f = (refl, refl)
  put-PutHandled other_exception q a s f = (refl, refl)
  put-PutHandled fault q a s f = (refl, refl)

  dispatch-Handled :
      (m : Method) (q : RequestParser) (a : ℕ) (s : State D) (x y : Bytes)
      → bytes_eq q.uri (codes "/browse") ≡ false
      → bytes_eq q.uri (codes "/browse/") ≡ false
      → find env device fuel c tree root q.uri ≡ some a
      → Handled m q.content_type q.body a s
          (answered (dispatch env device fuel c tree root (some x) (some y) m q s))
  unfolding dispatch handle_put_request handle_post_request answer
  dispatch-Handled get q a s x y n1 n2 f =
      subst (λ g. Handled get q.content_type q.body a s (answered g))
        (sym (handle_get_request-found env device fuel c tree root q s a n1 n2 f))
        (call-Called (MayRead c tree a) value_response (device.read a) s
          (get_parameter device c tree (some a) s) (get_parameter_lem device c tree a s))
  dispatch-Handled put q a s x y n1 n2 f =
      put-PutHandled (put_value env.put_lib q.content_type q.body) q a s f
  dispatch-Handled post q a s x y n1 n2 f =
      subst
        (λ o.
          Handled post q.content_type q.body a s
            (answered (and_then (signal_event device c tree o s) (λ x. ok (send (success x))))))
        (sym f)
        (call-Called (MaySignal c tree a) success (device.signal a) s
          (signal_event device c tree (some a) s) (signal_event_lem device c tree a s))
  dispatch-Handled head q a s x y n1 n2 f = (refl, refl)
  dispatch-Handled delete q a s x y n1 n2 f = (refl, refl)
  dispatch-Handled trace q a s x y n1 n2 f = (refl, refl)
  dispatch-Handled options q a s x y n1 n2 f = (refl, refl)
  dispatch-Handled connect q a s x y n1 n2 f = (refl, refl)
  dispatch-Handled undefined q a s x y n1 n2 f = (refl, refl)

  Handled-same :
      (m : Method) (t t' b b' : Bytes) (a : ℕ) (s : State D) (o : State D × Action)
      → t ≡ t'
      → b ≡ b'
      → Handled m t b a s o
      → Handled m t' b' a s o
  Handled-same m t t' b b' a s o e f h =
      subst (λ b. Handled m t' b a s o) f (subst (λ t. Handled m t b a s o) e h)

  -- The application and the answer.
  abbrev pub outcome : RequestParser × State D × Action → State D × Action
  outcome (p, s, action) = (s, action)

  abbrev pub headers_of : Headers → Bytes → Headers
  headers_of more body = first_two env.request_lib (decimal (length body)) ++ more

  -- Let `lexical_cast<size_t>` read decimals back. The bytes of a request (headers, the first two being
  -- CONTENT_LENGTH and SCGI, further ones with non-empty names without NUL and comma and values without
  -- NUL, and a body, of sizes that fit into a size_t), with the headers of the peer's address and the uri
  -- of an object, read by a parser that was reset, have the effect and the answer of their method: a GET
  -- answers with the value, a PUT sets the value that its body decodes to, a POST signals, each where the
  -- client may do so, with 200 or the status of the exception; where it may not, the answer is 401 or 404
  -- and the application is as before. A body that does not decode, and any other method, have no effect.
  pub read_handler-request :
      (r : ResultType) (p : RequestParser) (more : Headers) (body : Bytes) (s : State D)
      (x y : Bytes) (a : ℕ)
      → ((n : ℕ) → n < 2 ^ 64 → env.request_lib.cast_size (decimal n) ≡ some n)
      → All IsHeader more
      → size (headers_of more body) < 2 ^ 64
      → length body < 2 ^ 64
      → at (codes "REMOTE_ADDR") (header_map [] (headers_of more body)) ≡ some x
      → at (codes "REMOTE_PORT") (header_map [] (headers_of more body)) ≡ some y
      → bytes_eq (uri_of [] (headers_of more body)) (codes "/browse") ≡ false
      → bytes_eq (uri_of [] (headers_of more body)) (codes "/browse/") ≡ false
      → find env device fuel c tree root (uri_of [] (headers_of more body)) ≡ some a
      → Handled
          (request_method undefined (headers_of more body))
          (content_type_of env.request_lib p.content_type (headers_of more body))
          body
          a
          s
          (outcome (
            read_handler env device fuel c tree root r false
              (decimal (size (headers_of more body))
                ++ (b':' ∷ wire (headers_of more body) (b',' ∷ body)))
              (reset p)
              s))
  read_handler-request r p more body s x y a cast h l m ex ey n1 n2 f =
      let hs = headers_of more body in
      let m' = request_method undefined hs in
      let (q, run, got) = parse-request env.request_lib r p more body cast h l m in
      let good = read_handler_good env device fuel c tree root r _ (reset p) q s run in
      let e =
        ap outcome good
        ∙ ap answered (
            handle_request-dispatch env device fuel c tree root q s x y
              (request_method undefined hs) (ap (at (codes "REMOTE_ADDR")) got.headers ∙ ex)
              (ap (at (codes "REMOTE_PORT")) got.headers ∙ ey) got.method) in
      let handled = subst (Handled m' q.content_type q.body a s) (sym e) (
        dispatch-Handled m' q a s x y (ap (λ u. bytes_eq u (codes "/browse")) got.uri ∙ n1)
          (ap (λ u. bytes_eq u (codes "/browse/")) got.uri ∙ n2)
          (ap (find env device fuel c tree root) got.uri ∙ f)) in
      Handled-same m' q.content_type (content_type_of env.request_lib p.content_type hs) q.body body
        a s _ got.content_type got.body_read handled
