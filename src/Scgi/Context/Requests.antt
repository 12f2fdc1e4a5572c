-- ===== src/Scgi/Context/Requests.antt =====
-- The handlers of src/scgi/scgi_context.cpp, from the bytes on the wire to the response.
use de_co_f.Base.{
  ℕ, ◌≡◌, ◌⊎◌, inl, inr, refl, sym, ap, ◌∙◌, false, some, Bytes, bytes_eq, codes, subst,
}
use de_co_f.Types.{Value}
use de_co_f.Types.Errors.{access_denied_error, invalid_parameter_error}
use de_co_f.Except.{Except, ok, err, out_of_range, other_exception, fault, Void, ◌>>=◌}
use de_co_f.Tree.{Store}
use de_co_f.Access.{Client, Device, State, get_parameter, set_parameter}
use de_co_f.Access.Authorization.{MayRead, MayWrite, get_parameter_lem, set_parameter_lem}
use de_co_f.Scgi.Encoder.{encode_value}
use de_co_f.Scgi.Put.{put_value}
use de_co_f.Scgi.Request.{Method, get, put, ResultType, good, RequestParser, at, parse}
use de_co_f.Scgi.Response.{StatusCode, unauthorized, not_found, stock_response}
use de_co_f.Scgi.Context.{
  Environment, Action, send, answer, find, response_with, handle_get_request, handle_put_request,
  and_then, set_decoded, handle_request, dispatch, after_parse, spent, read_handler,
}

module _ {D : Type 0} (env : Environment) (device : Device D) (fuel : ℕ) (c : Client) (tree : Store)
    (root : ℕ) where
  pub read_handler_good :
      (r : ResultType) (bytes : Bytes) (p q : RequestParser) (s : State D)
      → parse env.request_lib r bytes p ≡ (q, good)
      → read_handler env device fuel c tree root r false bytes p s ≡ (
        spent env device fuel c tree root q,
        (handle_request env device fuel c tree root q s).0,
        answer (handle_request env device fuel c tree root q s).1,
      )
  unfolding read_handler after_parse
  read_handler_good r bytes p q s e =
      ap (λ (x : RequestParser × ResultType). after_parse env device fuel c tree root x.1 x.0 s) e

  pub handle_request-dispatch :
      (q : RequestParser) (s : State D) (x y : Bytes) (m : Method)
      → at (codes "REMOTE_ADDR") q.headers ≡ some x
      → at (codes "REMOTE_PORT") q.headers ≡ some y
      → q.method ≡ m
      → handle_request env device fuel c tree root q s
        ≡ dispatch env device fuel c tree root (some x) (some y) m q s
  unfolding handle_request
  handle_request-dispatch q s x y m ex ey em =
      ap
        (λ o.
          dispatch env device fuel c tree root o (at (codes "REMOTE_PORT") q.headers) q.method q s)
        ex
      ∙ ap (λ o. dispatch env device fuel c tree root (some x) o q.method q s) ey
      ∙ ap (λ n. dispatch env device fuel c tree root (some x) (some y) n q s) em

  abbrev pub get_reply : Value → Except Action
  get_reply v = ok (
      send (
        response_with env device fuel c tree root (codes "text/plain")
          (encode_value env.print_real v)))

  abbrev pub done : Void → Except Action
  done _ = ok (send (stock_response StatusCode.ok))

  pub handle_get_request-found :
      (q : RequestParser) (s : State D) (a : ℕ)
      → bytes_eq q.uri (codes "/browse") ≡ false
      → bytes_eq q.uri (codes "/browse/") ≡ false
      → find env device fuel c tree root q.uri ≡ some a
      → handle_get_request env device fuel c tree root q s
        ≡ and_then (get_parameter device c tree (some a) s) get_reply
  unfolding handle_get_request
  handle_get_request-found q s a n1 n2 f =
      rw (n1, n2) (ap (λ o. and_then (get_parameter device c tree o s) get_reply) f)

  handle_put_request-found :
      (q : RequestParser) (s : State D) (a : ℕ) (v : Value)
      → put_value env.put_lib q.content_type q.body ≡ ok v
      → find env device fuel c tree root q.uri ≡ some a
      → handle_put_request env device fuel c tree root q s
        ≡ and_then (set_parameter device c tree (some a) v s) done
  unfolding handle_put_request
  handle_put_request-found q s a v e f =
      ap (λ o. set_decoded env device fuel c tree root o q s) e
      ∙ ap (λ o. and_then (set_parameter device c tree o v s) done) f

  -- The answer to a GET: a call of the getter, or a refusal that reaches no part of the application.
  abbrev pub GetAnswer : ℕ → State D → State D × Except Action → Type 0
  GetAnswer a s o =
      (MayRead c tree a
        × (o.0.device ≡ (device.read a (some c.address) s.device).0)
        × (answer o.1 ≡ answer ((device.read a (some c.address) s.device).1 >>= get_reply)))
      ⊎ (¬ MayRead c tree a
          × (o.0.device ≡ s.device)
          × ((answer o.1 ≡ send (stock_response unauthorized))
              ⊎ (answer o.1 ≡ send (stock_response not_found))))

  pub answer-refused :
      {B : Type 0} (g : State D × Except B) (f : B → Except Action)
      → (g.1 ≡ err access_denied_error) ⊎ (g.1 ≡ err invalid_parameter_error)
      → (answer (and_then g f).1 ≡ send (stock_response unauthorized))
        ⊎ (answer (and_then g f).1 ≡ send (stock_response not_found))
  unfolding answer
  answer-refused (s, r) f (inl e) = inl (ap (λ x. answer (and_then (s, x) f).1) e)
  answer-refused (s, r) f (inr e) = inr (ap (λ x. answer (and_then (s, x) f).1) e)

  pub answer-and_then :
      {B : Type 0} (g : State D × Except B) (f : B → Except Action) (r : Except B)
      → g.1 ≡ r
      → answer (and_then g f).1 ≡ answer (r >>= f)
  answer-and_then (s, ok b) f r e = ap (λ x. answer (x >>= f)) e
  answer-and_then (s, err c) f r e = ap (λ x. answer (x >>= f)) e
  answer-and_then (s, out_of_range) f r e = ap (λ x. answer (x >>= f)) e
  answer-and_then (s, other_exception) f r e = ap (λ x. answer (x >>= f)) e
  answer-and_then (s, fault) f r e = ap (λ x. answer (x >>= f)) e

  pub and_then-state :
      {B : Type 0} (g : State D × Except B) (f : B → Except Action) → (and_then g f).0 ≡ g.0
  and_then-state (s, ok b) f = refl
  and_then-state (s, err e) f = refl
  and_then-state (s, out_of_range) f = refl
  and_then-state (s, other_exception) f = refl
  and_then-state (s, fault) f = refl

  get_found :
      (a : ℕ) (s : State D)
      → GetAnswer a s (and_then (get_parameter device c tree (some a) s) get_reply)
  unfolding answer
  get_found a s =
      let g = get_parameter device c tree (some a) s in
      let same = ap (λ (x : State D). x.device) (and_then-state g get_reply) in
      elim (get_parameter_lem device c tree a s) [
        | inl (m, p) ↦ inl (
          m,
          same ∙ p.1,
          answer-and_then g get_reply (device.read a (some c.address) s.device).1 p.2,
        )
        | inr (m, p) ↦ inr (m, same ∙ p.1, answer-refused g get_reply p.2)
      ]

  -- A GET of an object whose uri is not that of the XML description, with the headers of the peer's
  -- address: if the client may read the object, the getter runs, its value `v` is answered by 200 with
  -- what js_value_encoder prints for `v`, its exception by the status of that exception, and the
  -- application's state is what the getter left. If the client may not, the answer is 401 or 404 and the
  -- application's state is as before.
  pub handle_request-get :
      (q : RequestParser) (s : State D) (x y : Bytes) (a : ℕ)
      → at (codes "REMOTE_ADDR") q.headers ≡ some x
      → at (codes "REMOTE_PORT") q.headers ≡ some y
      → q.method ≡ get
      → bytes_eq q.uri (codes "/browse") ≡ false
      → bytes_eq q.uri (codes "/browse/") ≡ false
      → find env device fuel c tree root q.uri ≡ some a
      → GetAnswer a s (handle_request env device fuel c tree root q s)
  unfolding dispatch handle_get_request
  handle_request-get q s x y a ex ey m n1 n2 f =
      subst (GetAnswer a s)
        (sym (handle_request-dispatch q s x y get ex ey m ∙ handle_get_request-found q s a n1 n2 f))
        (get_found a s)

  -- The answer to a PUT of the value `v`.
  abbrev pub PutAnswer : ℕ → Value → State D → State D × Except Action → Type 0
  PutAnswer a v s o =
      (MayWrite c tree a
        × (o.0.device ≡ (device.write a v (some c.address) s.device).0)
        × (answer o.1 ≡ answer ((device.write a v (some c.address) s.device).1 >>= done)))
      ⊎ (¬ MayWrite c tree a
          × (o.0.device ≡ s.device)
          × ((answer o.1 ≡ send (stock_response unauthorized))
              ⊎ (answer o.1 ≡ send (stock_response not_found))))

  put_found :
      (a : ℕ) (v : Value) (s : State D)
      → PutAnswer a v s (and_then (set_parameter device c tree (some a) v s) done)
  unfolding answer
  put_found a v s =
      let g = set_parameter device c tree (some a) v s in
      let same = ap (λ (x : State D). x.device) (and_then-state g done) in
      elim (set_parameter_lem device c tree a v s) [
        | inl (m, p) ↦ inl (
          m,
          same ∙ p.1,
          answer-and_then g done (device.write a v (some c.address) s.device).1 p.2,
        )
        | inr (m, p) ↦ inr (m, same ∙ p.1, answer-refused g done p.2)
      ]

  -- A PUT whose body is decoded to `v`, with the headers of the peer's address: if the client may write
  -- the object, its setter runs on `v`; the answer is 200 where it succeeds, and the status of its
  -- exception where it throws. If the client may not, the answer is 401 or 404 and the application's
  -- state is as before.
  pub handle_request-put :
      (q : RequestParser) (s : State D) (x y : Bytes) (a : ℕ) (v : Value)
      → at (codes "REMOTE_ADDR") q.headers ≡ some x
      → at (codes "REMOTE_PORT") q.headers ≡ some y
      → q.method ≡ put
      → put_value env.put_lib q.content_type q.body ≡ ok v
      → find env device fuel c tree root q.uri ≡ some a
      → PutAnswer a v s (handle_request env device fuel c tree root q s)
  unfolding dispatch handle_put_request
  handle_request-put q s x y a v ex ey m e f =
      subst (PutAnswer a v s)
        (sym (handle_request-dispatch q s x y put ex ey m ∙ handle_put_request-found q s a v e f))
        (put_found a v s)
