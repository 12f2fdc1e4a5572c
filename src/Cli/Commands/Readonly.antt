-- ===== src/Cli/Commands/Readonly.antt =====
-- Requests of read-only clients to src/cli/clisrv_context.cpp.
use de_co_f.Base.{
  ℕ, ◌≡◌, refl, ◌∙◌, Bool, true, false, not, ◌&&◌, Option, some, [], ◌∷◌, ◌++◌, if◌then◌else◌,
  is_empty, Bytes, bytes_eq, codes,
}
use de_co_f.Types.{ℤ, Value}
use de_co_f.Types.Userlevel.{readonly}
use de_co_f.Types.Errors.{parse_error}
use de_co_f.Except.{Except, ok, err, out_of_range, other_exception, fault}
use de_co_f.Tree.{Store}
use de_co_f.Access.{
  Client, Device, State, set_parameter, get_parameter, signal_event, browse_object,
}
use de_co_f.Access.Calls.{read_keeps, readonly_keeps}
use de_co_f.Access.Calls
use de_co_f.Visitor.{TypeTag}
use de_co_f.Cli.Encoder.{write, Printers, encode_value}
use de_co_f.Cli.Words.{is_one, words_of}
use de_co_f.Cli.Commands.{
  RequestKind, get, signal, set, browse, Callbacks, granted, password_of, change_userlevel, find,
  Result, reply, fresh, logged, target, userlevel_line, level_changed, get_command, browse_command,
  tree_command, plain_command, value_command, with_value, command, by_words, process_request,
}
use de_co_f.Cli.Commands.Browsing.{replied_keeps, browsed_keeps, treed_keeps}

module _ {D : Type 0} (cb : Callbacks D) (lib : Printers) (parse_value : Bytes → Except Value)
    (device : Device D) (fuel : ℕ) (tag : ℕ → TypeTag) (tree : Store) (root : ℕ)
    (getters : (a : ℕ) (x : Option ℕ) (d : D) → (device.read a x d).0 ≡ d) where
  either :
      (b : Bool) (x y : Result cb lib parse_value device fuel tag tree root) (d : D)
      → x.0.device ≡ d
      → y.0.device ≡ d
      → (if b then x else y).0.device ≡ d
  either true x y d h k = h
  either false x y d h k = k

  level_keeps :
      (c : Client) (x : State D × Except Client)
      → (level_changed cb lib parse_value device fuel tag tree root c x).0.device ≡ x.0.device
  level_keeps c (s, ok d) = refl
  level_keeps c (s, err e) = refl
  level_keeps c (s, out_of_range) = refl
  level_keeps c (s, other_exception) = refl
  level_keeps c (s, fault) = refl

  granted_keeps :
      (ul : ℤ) (c : Client) (x : State D × Except Bool) → (granted ul c x).0.device ≡ x.0.device
  granted_keeps ul c (s, ok true) = refl
  granted_keeps ul c (s, ok false) = refl
  granted_keeps ul c (s, err e) = refl
  granted_keeps ul c (s, out_of_range) = refl
  granted_keeps ul c (s, other_exception) = refl
  granted_keeps ul c (s, fault) = refl

  -- The callbacks only look.
  pub record AreWatching : Type 0 where
    pub request_keeps : (k : RequestKind) (r : Bytes) (d : D) → cb.request_cb k r d ≡ d
    pub userlevel_keeps :
        (c : Client) (ul : ℤ) (p : Bytes) (d : D) → (cb.userlevel_cb c ul p d).0 ≡ d

  change_keeps :
      (rest : Bytes) (c : Client) (s : State D)
      → AreWatching
      → (change_userlevel cb rest c s).0.device ≡ s.device
  unfolding change_userlevel
  change_keeps rest c s w =
      granted_keeps (cb.read_int rest).0 c _
      ∙ w.userlevel_keeps c (cb.read_int rest).0 (password_of cb.trim_quotes (cb.read_int rest).1)
          s.device

  get_keeps :
      (uri : Bytes) (c : Client) (s : State D)
      → (get_command cb lib parse_value device fuel tag tree root uri c s).0.device ≡ s.device
  unfolding get_command
  get_keeps uri c s =
      either (bytes_eq uri (codes "ul"))
        (s, c, ok (userlevel_line cb lib parse_value device fuel tag tree root c))
        (reply cb lib parse_value device fuel tag tree root c
          (λ v.
            write (10 ∷ [])
              (encode_value lib v (fresh cb lib parse_value device fuel tag tree root)))
          (get_parameter device c tree (find cb lib parse_value device fuel tag tree root uri) s))
        s.device refl
        (replied_keeps cb lib parse_value device fuel tag tree root getters c
            (λ v.
              write (10 ∷ [])
                (encode_value lib v (fresh cb lib parse_value device fuel tag tree root)))
            (get_parameter device c tree (find cb lib parse_value device fuel tag tree root uri) s)
          ∙ read_keeps device c tree (find cb lib parse_value device fuel tag tree root uri) s
              getters)

  abbrev signal_command :
      Bytes → Client → State D → Result cb lib parse_value device fuel tag tree root
  signal_command uri c s =
      reply cb lib parse_value device fuel tag tree root c
        (λ _. write (codes "()" ++ 10 ∷ []) (fresh cb lib parse_value device fuel tag tree root))
        (signal_event device c tree (find cb lib parse_value device fuel tag tree root uri) s)

  signal_keeps :
      (uri : Bytes) (c : Client) (s : State D)
      → c.userlevel ≡ readonly
      → (signal_command uri c s).0.device ≡ s.device
  signal_keeps uri c s e =
      replied_keeps cb lib parse_value device fuel tag tree root getters c
        (λ _. write (codes "()" ++ 10 ∷ []) (fresh cb lib parse_value device fuel tag tree root))
        (signal_event device c tree (find cb lib parse_value device fuel tag tree root uri) s)
      ∙ readonly_keeps device c tree
          (Calls.signal (find cb lib parse_value device fuel tag tree root uri)) s e getters

  plain_keeps :
      (op uri request : Bytes) (c : Client) (s : State D)
      → AreWatching
      → c.userlevel ≡ readonly
      → (plain_command cb lib parse_value device fuel tag tree root op uri request c s).0.device
        ≡ s.device
  unfolding plain_command get_command browse_command tree_command
  plain_keeps op uri request c s w e =
      let t4 : Result cb lib parse_value device fuel tag tree root =
        if bytes_eq op (codes "tree")
        then tree_command cb lib parse_value device fuel tag tree root uri c
            (logged cb lib parse_value device fuel tag tree root RequestKind.tree request s)
        else (s, c, err parse_error) in
      let t3 : Result cb lib parse_value device fuel tag tree root =
        if is_one op (codes "browse") (codes "param-disp")
        then browse_command cb lib parse_value device fuel tag tree root uri c
            (logged cb lib parse_value device fuel tag tree root browse request s)
        else t4 in
      let t2 : Result cb lib parse_value device fuel tag tree root =
        if is_one op (codes "signal") (codes "exec") && not (is_empty uri)
        then signal_command uri c
            (logged cb lib parse_value device fuel tag tree root signal request s)
        else t3 in
      either (is_one op (codes "get") (codes "param-ref") && not (is_empty uri))
        (get_command cb lib parse_value device fuel tag tree root uri c
          (logged cb lib parse_value device fuel tag tree root get request s))
        t2 s.device
        (get_keeps uri c (logged cb lib parse_value device fuel tag tree root get request s)
          ∙ w.request_keeps get request s.device)
        (either (is_one op (codes "signal") (codes "exec") && not (is_empty uri))
          (signal_command uri c
            (logged cb lib parse_value device fuel tag tree root signal request s))
          t3 s.device
          (signal_keeps uri c (logged cb lib parse_value device fuel tag tree root signal request s)
              e
            ∙ w.request_keeps signal request s.device)
          (either (is_one op (codes "browse") (codes "param-disp"))
            (browse_command cb lib parse_value device fuel tag tree root uri c
              (logged cb lib parse_value device fuel tag tree root browse request s))
            t4 s.device
            (browsed_keeps cb lib parse_value device fuel tag tree root getters c
                (logged cb lib parse_value device fuel tag tree root browse request s)
                (browse_object fuel c tree
                  (target cb lib parse_value device fuel tag tree root uri))
              ∙ w.request_keeps browse request s.device)
            (either (bytes_eq op (codes "tree"))
              (tree_command cb lib parse_value device fuel tag tree root uri c
                (logged cb lib parse_value device fuel tag tree root RequestKind.tree request s))
              (s, c, err parse_error) s.device
              (treed_keeps cb lib parse_value device fuel tag tree root getters c
                  (logged cb lib parse_value device fuel tag tree root RequestKind.tree request s)
                  (browse_object fuel c tree
                    (target cb lib parse_value device fuel tag tree root uri))
                ∙ w.request_keeps RequestKind.tree request s.device)
              refl)))

  value_keeps :
      (op uri request : Bytes) (v : Value) (c : Client) (s : State D)
      → AreWatching
      → c.userlevel ≡ readonly
      → (value_command cb lib parse_value device fuel tag tree root op uri request v c s).0.device
        ≡ s.device
  unfolding value_command
  value_keeps op uri request v c s w e =
      let s1 = logged cb lib parse_value device fuel tag tree root set request s in
      let x =
        set_parameter device c tree (find cb lib parse_value device fuel tag tree root uri) v s1 in
      either (is_one op (codes "set") (codes "param-set!") && not (is_empty uri))
        (reply cb lib parse_value device fuel tag tree root c
          (λ _. write (codes "0" ++ 10 ∷ []) (fresh cb lib parse_value device fuel tag tree root))
          x)
        (s, c, err parse_error) s.device
        (replied_keeps cb lib parse_value device fuel tag tree root getters c
            (λ _. write (codes "0" ++ 10 ∷ []) (fresh cb lib parse_value device fuel tag tree root))
            x
          ∙ readonly_keeps device c tree
              (Calls.write (find cb lib parse_value device fuel tag tree root uri) v) s1 e getters
          ∙ w.request_keeps set request s.device)
        refl

  with_value_keeps :
      (op uri request : Bytes) (c : Client) (s : State D) (r : Except Value)
      → AreWatching
      → c.userlevel ≡ readonly
      → (with_value cb lib parse_value device fuel tag tree root op uri request c s r).0.device
        ≡ s.device
  with_value_keeps op uri request c s (ok v) w e = value_keeps op uri request v c s w e
  with_value_keeps op uri request c s (err x) w e = refl
  with_value_keeps op uri request c s out_of_range w e = refl
  with_value_keeps op uri request c s other_exception w e = refl
  with_value_keeps op uri request c s fault w e = refl

  command_keeps :
      (op uri rest request : Bytes) (c : Client) (s : State D)
      → AreWatching
      → c.userlevel ≡ readonly
      → (command cb lib parse_value device fuel tag tree root op uri rest request c s).0.device
        ≡ s.device
  unfolding command
  command_keeps op uri rest request c s w e =
      let t : Result cb lib parse_value device fuel tag tree root =
        if is_empty rest
        then plain_command cb lib parse_value device fuel tag tree root op uri request c s
        else with_value cb lib parse_value device fuel tag tree root op uri request c s
            (parse_value rest) in
      either (bytes_eq op (codes "exec") && bytes_eq uri (codes "change-ul"))
        (level_changed cb lib parse_value device fuel tag tree root c
          (change_userlevel cb rest c s))
        t s.device (level_keeps c (change_userlevel cb rest c s) ∙ change_keeps rest c s w)
        (either (is_empty rest)
          (plain_command cb lib parse_value device fuel tag tree root op uri request c s)
          (with_value cb lib parse_value device fuel tag tree root op uri request c s
            (parse_value rest))
          s.device (plain_keeps op uri request c s w e)
          (with_value_keeps op uri request c s (parse_value rest) w e))

  by_line_keeps :
      (empty : Bool) (ws : Bytes × Bytes × Bytes) (request : Bytes) (c : Client) (s : State D)
      → AreWatching
      → c.userlevel ≡ readonly
      → (if empty
          then (s, c, some [])
          else by_words cb lib parse_value device fuel tag tree root ws request c s).0.device
        ≡ s.device
  unfolding command
  by_line_keeps true ws request c s w e = refl
  by_line_keeps false (op, uri, rest) request c s w e = command_keeps op uri rest request c s w e

  -- Let the getters and the callbacks of the application leave its state alone. Then whatever a read-only
  -- client sends in a request line, `process_request` leaves that state as it was.
  pub process_request-readonly :
      (request : Bytes) (c : Client) (s : State D)
      → AreWatching
      → c.userlevel ≡ readonly
      → (process_request cb lib parse_value device fuel tag tree root request c s).0.device
        ≡ s.device
  unfolding process_request
  process_request-readonly request c s w e =
      by_line_keeps (is_empty (cb.trim_request request)) (words_of (cb.trim_request request))
        request c s w e
