-- ===== src/Cli/Commands/Requests.antt =====
-- Requests of src/cli/clisrv_context.cpp that read or set an object.
use de_co_f.Base.{
  ℕ, ◌≡◌, ◌⊎◌, inl, inr, refl, sym, subst, ap, ◌∙◌, true, false, Option, some, [], ◌∷◌, ◌++◌,
  if◌then◌else◌, is_empty, Bytes, bytes_eq, bytes_eq_iff, codes, Bool-cases,
}
use de_co_f.Types.{Value}
use de_co_f.Types.Errors.{access_denied_error, invalid_parameter_error}
use de_co_f.Except.{Except, ok, err, out_of_range, other_exception, fault, ◌>>=◌}
use de_co_f.Tree.{Store}
use de_co_f.Access.{Client, Device, State, set_parameter, get_parameter}
use de_co_f.Access.Authorization.{
  MayWrite, MayRead, Performed, Refused, set_parameter_lem, get_parameter_lem,
}
use de_co_f.Visitor.{TypeTag}
use de_co_f.Cli.Encoder.{Stream, write, Printers, encode_value}
use de_co_f.Cli.Words.{is_one, words_of, to_lower, strip_quote}
use de_co_f.Cli.Words.Reading.{space, IsWord, is_empty-words, words_of-words, words_of-two}
use de_co_f.Cli.Commands.{
  get, set, Callbacks, find, reply, fresh, logged, value_command, plain_command, get_command,
  command, ended, finish, by_words, by_line, process_request,
}

is_one-cases : (op a b : Bytes) → is_one op a b ≡ true → (op ≡ a) ⊎ (op ≡ b)
is_one-cases op a b h = elim (Bool-cases (bytes_eq op a)) [
  | inl e ↦ inl ((bytes_eq_iff op a).0 e)
  | inr e ↦ let h' = rw e at h in inr ((bytes_eq_iff op b).0 h')
]

-- A word that is one of two others is none of a third.
is_one-other :
    (op a b c : Bytes)
    → bytes_eq a c ≡ false
    → bytes_eq b c ≡ false
    → is_one op a b ≡ true
    → bytes_eq op c ≡ false
is_one-other op a b c h k e = elim (is_one-cases op a b e) [
  | inl l ↦ subst (λ x. bytes_eq x c ≡ false) (sym l) h
  | inr l ↦ subst (λ x. bytes_eq x c ≡ false) (sym l) k
]

module _ {D : Type 0} (cb : Callbacks D) (lib : Printers) (parse_value : Bytes → Except Value)
    (device : Device D) (fuel : ℕ) (tag : ℕ → TypeTag) (tree : Store) (root : ℕ) where
  -- The text of a `reply`.
  replied :
      {B : Type 0} (c : Client) (f : B → Stream) (x : State D × Except B)
      → ended cb lib parse_value device fuel tag tree root
          (reply cb lib parse_value device fuel tag tree root c f x)
        ≡ (x.0, c, finish cb lib parse_value device fuel tag tree root (x.1 >>= λ b. ok (f b)))
  replied c f (s, ok b) = refl
  replied c f (s, err e) = refl
  replied c f (s, out_of_range) = refl
  replied c f (s, other_exception) = refl
  replied c f (s, fault) = refl

  at_words :
      (request line : Bytes) (ws : Bytes × Bytes × Bytes) (c : Client) (s : State D)
      → is_empty line ≡ false
      → words_of line ≡ ws
      → by_line cb lib parse_value device fuel tag tree root line request c s
        ≡ by_words cb lib parse_value device fuel tag tree root ws request c s
  at_words request line ws c s e f =
      ap
        (λ b.
          if b
          then (s, c, some [])
          else by_words cb lib parse_value device fuel tag tree root (words_of line) request c s)
        e
      ∙ ap (λ w. by_words cb lib parse_value device fuel tag tree root w request c s) f

  -- The answer to a request for `f`, for those who may make it; `d` is the application before it.
  pub record Answered {B : Type 0} (P : Type 0) (c : Client) (f : Option ℕ → D → D × Except B)
      (text : B → Stream) (d : D) (o : State D × Client × Option Bytes) : Type 0 where
    pub client : o.1 ≡ c
    pub answer :
        (P
          × (o.0.device ≡ (f (some c.address) d).0)
          × (o.2
              ≡ finish cb lib parse_value device fuel tag tree root
                  ((f (some c.address) d).1 >>= λ b. ok (text b))))
        ⊎ (¬ P
            × (o.0.device ≡ d)
            × ((o.2 ≡ finish cb lib parse_value device fuel tag tree root (err access_denied_error))
                ⊎ (o.2
                    ≡ finish cb lib parse_value device fuel tag tree root
                        (err invalid_parameter_error))))

  answered :
      {B P : Type 0} (c : Client) (f : Option ℕ → D → D × Except B) (text : B → Stream)
      (s : State D) (x : State D × Except B) (o : State D × Client × Option Bytes)
      → o
        ≡ ended cb lib parse_value device fuel tag tree root
            (reply cb lib parse_value device fuel tag tree root c text x)
      → (P × Performed c s f x) ⊎ (¬ P × Refused s x)
      → Answered P c f text s.device o
  answered {P} c f text s x o e h =
      subst (Answered P c f text s.device) (sym (e ∙ replied c text x)) (record {
        client = refl;
        answer = elim h [
          | inl (p, (_, d, r)) ↦ inl (
            p,
            d,
            ap (λ r. finish cb lib parse_value device fuel tag tree root (r >>= λ b. ok (text b)))
                r,
          )
          | inr (p, (_, d, r)) ↦ inr (
            p,
            d,
            elim r [
              | inl r ↦ inl (
                  ap
                    (λ r.
                      finish cb lib parse_value device fuel tag tree root (r >>= λ b. ok (text b)))
                    r)
              | inr r ↦ inr (
                  ap
                    (λ r.
                      finish cb lib parse_value device fuel tag tree root (r >>= λ b. ok (text b)))
                    r)
            ],
          )
        ];
      })

  requested :
      (request line : Bytes) (op uri rest : Bytes) (c : Client) (s : State D)
      → cb.trim_request request ≡ line
      → is_empty line ≡ false
      → words_of line ≡ (op, uri, rest)
      → process_request cb lib parse_value device fuel tag tree root request c s
        ≡ ended cb lib parse_value device fuel tag tree root
            (command cb lib parse_value device fuel tag tree root op uri rest request c s)
  unfolding process_request command
  requested request line op uri rest c s e n w =
      ap (λ line. by_line cb lib parse_value device fuel tag tree root line request c s) e
      ∙ at_words request line (op, uri, rest) c s n w

  set_command :
      (op uri rest request : Bytes) (v : Value) (c : Client) (s : State D) (a : ℕ)
      → is_one op (codes "set") (codes "param-set!") ≡ true
      → is_empty uri ≡ false
      → parse_value (space ∷ rest) ≡ ok v
      → find cb lib parse_value device fuel tag tree root uri ≡ some a
      → command cb lib parse_value device fuel tag tree root op uri (space ∷ rest) request c s
        ≡ reply cb lib parse_value device fuel tag tree root c
            (λ _. write (codes "0" ++ 10 ∷ []) (fresh cb lib parse_value device fuel tag tree root))
            (set_parameter device c tree
              (some a)
              v
              (logged cb lib parse_value device fuel tag tree root set request s))
  unfolding command value_command bytes_eq
  set_command op uri rest request v c s a o e p f =
      rw (is_one-other op (codes "set") (codes "param-set!") (codes "exec") refl refl o, p, o, e, f)
        refl

  -- Let a request line be `set` or `param-set!` (in either case), the uri of an object, and the text of a
  -- value. Then exactly where the client may write the object, its setter runs once, under this client, on
  -- what the request callback left, and the answer is `0`, or the line of the setter's exception.
  -- Otherwise the application's state stays what the callback left, and the answer is the line of
  -- access-denied or invalid-parameter. The client stays as it was.
  pub process_request-set :
      (request op uri rest : Bytes) (v : Value) (c : Client) (s : State D) (a : ℕ)
      → cb.trim_request request ≡ op ++ (space ∷ (uri ++ (space ∷ rest)))
      → IsWord op
      → IsWord uri
      → is_one (to_lower op) (codes "set") (codes "param-set!") ≡ true
      → is_empty (strip_quote uri) ≡ false
      → parse_value (space ∷ rest) ≡ ok v
      → find cb lib parse_value device fuel tag tree root (strip_quote uri) ≡ some a
      → Answered
          (MayWrite c tree a)
          c
          (device.write a v)
          (λ _. write (codes "0" ++ 10 ∷ []) (fresh cb lib parse_value device fuel tag tree root))
          (cb.request_cb set request s.device)
          (process_request cb lib parse_value device fuel tag tree root request c s)
  process_request-set request op uri rest v c s a e h k o n p f =
      let s1 = logged cb lib parse_value device fuel tag tree root set request s in
      answered c (device.write a v) _ s1 (set_parameter device c tree (some a) v s1) _
        (requested request (op ++ (space ∷ (uri ++ (space ∷ rest)))) (to_lower op) (strip_quote uri)
            (space ∷ rest) c s e (is_empty-words op (space ∷ (uri ++ (space ∷ rest))) h)
            (words_of-words op uri rest h k)
          ∙ ap (ended cb lib parse_value device fuel tag tree root)
              (set_command (to_lower op) (strip_quote uri) rest request v c s a o n p f))
        (set_parameter_lem device c tree a v s1)

  get_command_lem :
      (op uri request : Bytes) (c : Client) (s : State D) (a : ℕ)
      → is_one op (codes "get") (codes "param-ref") ≡ true
      → is_empty uri ≡ false
      → bytes_eq uri (codes "ul") ≡ false
      → find cb lib parse_value device fuel tag tree root uri ≡ some a
      → command cb lib parse_value device fuel tag tree root op uri [] request c s
        ≡ reply cb lib parse_value device fuel tag tree root c
            (λ v.
              write
                (10 ∷ [])
                (encode_value lib v (fresh cb lib parse_value device fuel tag tree root)))
            (get_parameter device c tree
              (some a)
              (logged cb lib parse_value device fuel tag tree root get request s))
  unfolding command plain_command get_command bytes_eq
  get_command_lem op uri request c s a o e u f =
      rw (is_one-other op (codes "get") (codes "param-ref") (codes "exec") refl refl o, o, e, u, f)
        refl

  -- Let a request line be `get` or `param-ref` (in either case) and the uri of an object, which is not
  -- `ul`. Then exactly where the client may read the object, its getter runs once, under this client, on
  -- what the request callback left, and the answer is the encoded value, or the line of the getter's
  -- exception. Otherwise the application's state stays what the callback left, and the answer is the line
  -- of access-denied or invalid-parameter. The client stays as it was.
  pub process_request-get :
      (request op uri : Bytes) (c : Client) (s : State D) (a : ℕ)
      → cb.trim_request request ≡ op ++ (space ∷ uri)
      → IsWord op
      → IsWord uri
      → is_one (to_lower op) (codes "get") (codes "param-ref") ≡ true
      → is_empty (strip_quote uri) ≡ false
      → bytes_eq (strip_quote uri) (codes "ul") ≡ false
      → find cb lib parse_value device fuel tag tree root (strip_quote uri) ≡ some a
      → Answered
          (MayRead c tree a)
          c
          (device.read a)
          (λ v.
            write
              (10 ∷ [])
              (encode_value lib v (fresh cb lib parse_value device fuel tag tree root)))
          (cb.request_cb get request s.device)
          (process_request cb lib parse_value device fuel tag tree root request c s)
  process_request-get request op uri c s a e h k o n u f =
      let s1 = logged cb lib parse_value device fuel tag tree root get request s in
      answered c (device.read a) _ s1 (get_parameter device c tree (some a) s1) _
        (requested request (op ++ (space ∷ uri)) (to_lower op) (strip_quote uri) [] c s e
            (is_empty-words op (space ∷ uri) h) (words_of-two op uri h k)
          ∙ ap (ended cb lib parse_value device fuel tag tree root)
              (get_command_lem (to_lower op) (strip_quote uri) request c s a o n u f))
        (get_parameter_lem device c tree a s1)
