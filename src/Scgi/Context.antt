-- ===== src/Scgi/Context.antt =====
-- `scgi_context` of src/scgi/scgi_context.cpp, without its sockets: what a completed read makes of the
-- parser, the dictionary and the application, and what the context does next.
pub mod Requests
pub mod Wire
use de_co_f.Base.{
  ℕ, Bool, true, false, ◌||◌, Option, none, some, List, [], ◌∷◌, ◌++◌, if◌then◌else◌, Bytes,
  bytes_eq, codes,
}
use de_co_f.Types.{Value}
use de_co_f.Types.Errors.{Error, access_denied_error, invalid_parameter_error, parse_error}
use de_co_f.Except.{Except, ok, err, out_of_range, other_exception, fault, Void}
use de_co_f.Tree.{Store}
use de_co_f.Tree.Lookup.{find_object}
use de_co_f.Access.{
  Client, Device, State, set_parameter, get_parameter, signal_event, browse_object,
}
use de_co_f.Visitor.{TypeTag}
use de_co_f.Scgi.Encoder.{encode_value}
use de_co_f.Scgi.Put
use de_co_f.Scgi.Put.{put_value}
use de_co_f.Scgi.Request
use de_co_f.Scgi.Request.{
  Method, get, put, post, ResultType, good, bad, indeterminate, RequestParser, at, parse,
}
use de_co_f.Scgi.Response.{
  StatusCode, unauthorized, not_found, bad_request, internal_server_error, Response, stock_response,
}
use de_co_f.Scgi.Xml.{document}

-- What is not under src/: Boost's casts, `split` and `trim`, the prints of a double and of an address,
-- the type tags, which the compiler knows, and what `std::move` leaves of a string.
pub record Environment : Type 0 where
  pub request_lib : Request.Boost
  pub put_lib : Put.Boost
  pub print_real : ℕ → Bytes
  pub print_address : ℕ → Bytes
  pub tag : ℕ → TypeTag
  pub moved : Bytes → Bytes

-- `send_response`, `preload` or `disconnect`; `crash` is undefined behaviour.
pub data Action : Type 0 where
  send : Response → Action
  preload disconnect crash : Action

-- The `catch` clauses, in their order.
unfoldable pub answer : Except Action → Action
answer (ok action) = action
answer (err access_denied_error) = send (stock_response unauthorized)
answer (err invalid_parameter_error) = send (stock_response not_found)
answer (err e) = send (stock_response bad_request)
answer out_of_range = send (stock_response bad_request)
answer other_exception = send (stock_response internal_server_error)
answer fault = crash

-- Goes on with the result of a call.
abbrev pub and_then : {B C D : Type 0} → State D × Except B → (B → Except C) → State D × Except C
and_then (s, ok b) f = (s, f b)
and_then (s, err e) f = (s, err e)
and_then (s, out_of_range) f = (s, out_of_range)
and_then (s, other_exception) f = (s, other_exception)
and_then (s, fault) f = (s, fault)

module _ {D : Type 0} (env : Environment) (device : Device D) (fuel : ℕ) (c : Client) (tree : Store)
    (root : ℕ) where
  abbrev pub find : Bytes → Option ℕ
  find uri = find_object root uri b'/' tree

  abbrev pub response_with : Bytes → Bytes → Response
  response_with content_type body = record (stock_response StatusCode.ok) {
    headers = (codes "Content-Type", content_type) ∷ [];
    body = body;
  }

  -- The objects that `browse_object` visits; on too little fuel the walk does not end.
  browse_response : Except (Option (List ℕ)) → Except Action
  browse_response (ok (some visited)) = ok (
      send (
        response_with (codes "text/xml")
          (document env.print_address env.tag tree (codes "DeCoF2 server") visited)))
  browse_response (ok none) = fault
  browse_response (err e) = err e
  browse_response out_of_range = out_of_range
  browse_response other_exception = other_exception
  browse_response fault = fault

  unfoldable pub handle_get_request : RequestParser → State D → State D × Except Action
  unfolding browse_response
  handle_get_request p s =
      if bytes_eq p.uri (codes "/browse") || bytes_eq p.uri (codes "/browse/")
      then (s, browse_response (browse_object fuel c tree (some root)))
      else and_then (get_parameter device c tree (find p.uri) s)
          (λ v. ok (send (response_with (codes "text/plain") (encode_value env.print_real v))))

  -- The value is decoded before the object is looked up.
  abbrev pub set_decoded : Except Value → RequestParser → State D → State D × Except Action
  set_decoded (ok v) p s =
      and_then (set_parameter device c tree (find p.uri) v s)
        (λ _. ok (send (stock_response StatusCode.ok)))
  set_decoded (err e) p s = (s, err e)
  set_decoded out_of_range p s = (s, out_of_range)
  set_decoded other_exception p s = (s, other_exception)
  set_decoded fault p s = (s, fault)

  unfoldable pub handle_put_request : RequestParser → State D → State D × Except Action
  handle_put_request p s = set_decoded (put_value env.put_lib p.content_type p.body) p s

  unfoldable pub handle_post_request : RequestParser → State D → State D × Except Action
  handle_post_request p s =
      and_then (signal_event device c tree (find p.uri) s)
        (λ _. ok (send (stock_response StatusCode.ok)))

  -- The test of the method, behind the two headers of the peer's address.
  unfoldable pub dispatch :
      Option Bytes → Option Bytes → Method → RequestParser → State D → State D × Except Action
  unfolding handle_get_request handle_put_request handle_post_request
  dispatch none _ method p s = (s, out_of_range)
  dispatch (some _) none method p s = (s, out_of_range)
  dispatch (some _) (some _) get p s = handle_get_request p s
  dispatch (some _) (some _) put p s = handle_put_request p s
  dispatch (some _) (some _) post p s = handle_post_request p s
  dispatch (some _) (some _) _ p s = (s, err parse_error)

  unfoldable pub handle_request : RequestParser → State D → State D × Except Action
  unfolding dispatch
  handle_request p s =
      dispatch (at (codes "REMOTE_ADDR") p.headers) (at (codes "REMOTE_PORT") p.headers) p.method p
        s

  -- What a request leaves of the parser: `handle_put_request` trims the body in place, and moves from it
  -- where it is a string.
  abbrev spent_body : RequestParser → RequestParser
  spent_body p =
      let body = env.put_lib.trim p.body in
      record p {
        body =
            if bytes_eq p.content_type (codes "vnd/com.toptica.decof.string")
            then env.moved body
            else body;
      }

  unfoldable pub spent : RequestParser → RequestParser
  spent p = elim (at (codes "REMOTE_ADDR") p.headers) [
    | none ↦ p
    | some _ ↦ elim (at (codes "REMOTE_PORT") p.headers) [
      | none ↦ p
      | some _ ↦ elim p.method [ put ↦ spent_body p | _ ↦ p ]
    ]
  ]

  unfoldable pub after_parse :
      ResultType → RequestParser → State D → RequestParser × State D × Action
  unfolding handle_request answer spent
  after_parse good p s = let (s', o) = handle_request p s in (spent p, s', answer o)
  after_parse bad p s = (p, s, answer (err parse_error))
  after_parse indeterminate p s = (p, s, preload)

  -- `read_handler` on the bytes that were read; the flag is `error`.
  unfoldable pub read_handler :
      ResultType → Bool → Bytes → RequestParser → State D → RequestParser × State D × Action
  unfolding after_parse
  read_handler result true bytes p s = (p, s, disconnect)
  read_handler result false bytes p s =
      let (p', r) = parse env.request_lib result bytes p in after_parse r p' s
