-- ===== src/Cli/Pubsub.antt =====
-- `pubsub_context` of src/cli/pubsub_context.cpp, without its socket: notifications, the chain of write
-- operations, and requests. The print of a time stamp is a parameter. `async_write` of Boost.Asio sends
-- what stands in the buffer when it is called, and on success removes it from the front.
pub mod Drain
pub mod Printed
pub mod Flush
pub mod Bound
pub mod Preload
pub mod Writing
use de_co_f.Base.{
  ℕ, zero, suc, ◌+◌, Bool, true, false, not, ◌&&◌, ◌||◌, Option, none, some, List, [], ◌∷◌, ◌++◌,
  ltb, ◌==◌, if◌then◌else◌, is_empty, length, take, drop, Bytes, bytes_eq, codes,
}
use de_co_f.Base.Decimal.{decimal}
use de_co_f.Types.{ℤ, pos, Value, scalar_t, integer_t}
use de_co_f.Types.Errors.{
  Error, invalid_parameter_error, unknown_operation_error, code_number, error_code, error_what,
}
use de_co_f.Except.{Except, ok, err, out_of_range, other_exception, fault, Void, ◌>>=◌}
use de_co_f.Updates
use de_co_f.Updates.{UpdateContainer, Outcome, push, pop_front, empty}
use de_co_f.Tree.{Store}
use de_co_f.Tree.Lookup.{find_descendant_object}
use de_co_f.Access.{Client, State}
use de_co_f.Parameters.Subscriptions.{observe, unobserve}
use de_co_f.Parameters.{Application, World, update}
use de_co_f.Cli.Encoder.{Stream, write, Printers, encode_value}
use de_co_f.Cli.Words.{is_one, read_word, to_lower, strip_quote}
use de_co_f.Cli.Commands.{RequestKind, subscribe, unsubscribe, Callbacks, change_userlevel}

-- The members that concern writing: `in_flight` is the size of the active write operation, and `sent` what
-- the peer has got.
pub record Session : Type 0 where
  pub pending : UpdateContainer
  pub outbuf : Bytes
  pub in_flight : Option ℕ
  pub sent : Bytes

abbrev pub lifted : {A : Type 0} → Outcome A → Except A
lifted (Outcome.ok a) = ok a
lifted Outcome.out_of_range = out_of_range
lifted Outcome.fault = fault

module _ (lib : Printers) (print_time : ℕ → Bytes) (limit : ℕ) (root_name : Bytes) where
  -- One notification.
  unfoldable pub write_update : Bytes × Value × ℕ → Stream → Stream
  write_update (uri, v, time) st = write (codes ")" ++ 10 ∷ []) (
      encode_value lib v
        (write (codes "(" ++ (print_time time ++ (codes " '" ++ (uri ++ codes " ")))) st))

  -- A round of the loop, by its test; `again` is the loop.
  abbrev pub round :
      (Stream → UpdateContainer → Except (Stream × UpdateContainer))
      → Stream
      → UpdateContainer
      → Bool
      → Except (Stream × UpdateContainer)
  round again st c false = ok (st, c)
  round again st c true = do x ← lifted (pop_front c); again (write_update x.0 st) x.1

  -- The loop of `preload_writing`; each round takes one update. `limit` is the socket's send buffer.
  unfoldable pub drain : ℕ → Stream → UpdateContainer → Except (Stream × UpdateContainer)
  unfolding write_update
  drain zero st c = fault
  drain (suc fuel) st c = round (drain fuel) st c (not (empty c) && ltb (length st.out) limit)

  -- The end of `preload_writing`: a write operation if there is something to write.
  abbrev pub start_writing : Session → Stream × UpdateContainer → Session
  start_writing s (st, c) = record s {
    pending = c;
    outbuf = st.out;
    in_flight = if length st.out == 0 then none else some (length st.out);
  }

  abbrev pub preload_idle : Session → Except Session
  preload_idle s = do
    r ← drain (suc (length s.pending.updates)) (record { out = s.outbuf; hex = false }) s.pending
    ok (start_writing s r)

  abbrev pub preload_by : Option ℕ → Session → Except Session
  preload_by none s = preload_idle s
  preload_by (some _) s = ok s

  -- `preload_writing`: nothing while a write operation is active.
  unfoldable pub preload_writing : Session → Except Session
  unfolding drain
  preload_writing s = preload_by s.in_flight s

  abbrev pub completed : ℕ → Session → Session
  completed n s = record s {
    sent = s.sent ++ take n s.outbuf;
    outbuf = drop n s.outbuf;
    in_flight = none;
  }

  abbrev pub complete_by : Option ℕ → Session → Except Session
  complete_by none s = ok s
  complete_by (some n) s = preload_writing (completed n s)

  -- `write_handler` without an error.
  unfoldable pub write_handler : Session → Except Session
  write_handler s = complete_by s.in_flight s

  -- The name of the root and the separator are cut off.
  unfoldable pub cut_root : Bytes → Bytes
  cut_root uri = if bytes_eq uri root_name then uri else drop (length root_name + 1) uri

  -- `notify`; `now` is what the clock returns in `push`.
  unfoldable pub notify : ℕ → Bytes → Value → Session → Except Session
  unfolding cut_root preload_writing
  notify now uri v s = do
    c ← lifted (push (cut_root uri) v now s.pending)
    preload_writing (record s { pending = c })

  abbrev pub report_by : Option ℕ → Bytes → Session → Except Session
  report_by none line s = preload_writing (record s { outbuf = s.outbuf ++ line })
  report_by (some _) line s = fault

  -- A line of a `catch` clause. It changes the buffer also while a write operation on it is active, which is
  -- undefined.
  unfoldable pub report : Bytes → Session → Except Session
  unfolding preload_writing
  report line s = report_by s.in_flight line s

  abbrev pub error_head : ℕ → ℕ → Bytes
  error_head code now =
      codes "(Error: "
      ++ (decimal code ++ (codes " (" ++ (print_time now ++ codes " 'COMMAND_ERROR) ")))

  abbrev pub newline : Bytes
  newline = 10 ∷ []

  abbrev pub error_line : ℕ → Bytes → Error → Bytes
  error_line now uri invalid_parameter_error =
      error_head (code_number (error_code invalid_parameter_error)) now
      ++ (codes "Parameter '" ++ (uri ++ (codes " not found)" ++ newline)))
  error_line now uri e = error_head (code_number (error_code e)) now ++ (error_what e ++ newline)

  -- The `catch` clauses.
  unfoldable pub catch : {B : Type 0} → ℕ → Bytes → Except B → Session → Except Session
  unfolding report
  catch now uri (ok b) s = ok s
  catch now uri (err e) s = report (error_line now uri e) s
  catch now uri out_of_range s = report (error_head 1 now ++ (codes "Unknown error" ++ newline)) s
  catch now uri other_exception s =
      report (error_head 1 now ++ (codes "Unknown error" ++ newline)) s
  catch now uri fault s = fault

  -- All sessions, by the address of their client; a slot's call notifies its session.
  abbrev pub Sessions : Type 0
  Sessions = ℕ → Except Session

  unfoldable pub deliver : ℕ → ℕ → Bytes → Value → Sessions → Sessions
  unfolding notify
  deliver now c uri v ss = update ss c (ss c >>= notify now uri v)

  module _ {V D : Type 0} (app : Application V D) (cb : Callbacks (World V D Sessions))
      (fuel now : ℕ) (tree : Store) (root : ℕ) where
    -- Every run of the code below is one call of `process_request`, at the time `now`.
    abbrev pub Now : Type 0
    Now = State (World V D Sessions)

    abbrev pub with_sessions : (Sessions → Sessions) → Now → Now
    with_sessions f s =
        let w = s.device in record s { device = record w { sessions = f w.sessions } }

    abbrev pub notify_level : Client → Now → Now
    notify_level c =
        with_sessions (
          deliver now c.address (root_name ++ codes ":ul") (scalar_t (integer_t (pos c.userlevel))))

    abbrev pub logged : RequestKind → Bytes → Now → Now
    logged kind request s = record s { device = cb.request_cb kind request s.device }

    abbrev kept : Client → Now × Except Void → Now × Client × Except Void
    kept c (s, r) = (s, c, r)

    abbrev find : Bytes → Option ℕ
    find uri = find_descendant_object root uri b':' tree

    abbrev level_changed : Client → Now × Except Client → Now × Client × Except Void
    level_changed c (s, ok c') = (notify_level c' s, c', ok tt)
    level_changed c (s, err e) = (s, c, err e)
    level_changed c (s, out_of_range) = (s, c, out_of_range)
    level_changed c (s, other_exception) = (s, c, other_exception)
    level_changed c (s, fault) = (s, c, fault)

    -- The `try` block behind the command; `uri` has lost its quote.
    unfoldable pub subscribe_command :
        Bytes → Bytes → Bytes → Client → Now → Now × Client × Except Void
    unfolding deliver
    subscribe_command command uri request c s =
        if is_one command (codes "subscribe") (codes "add")
        then (if bytes_eq uri (codes "ul")
            then (notify_level c (logged subscribe request s), c, ok tt)
            else kept c
                (observe app fuel tree (deliver now) c (find uri) (logged subscribe request s)))
        else if is_one command (codes "unsubscribe") (codes "remove")
        then kept c
            (unobserve app fuel tree (deliver now) c (find uri) (logged unsubscribe request s))
        else (s, c, err unknown_operation_error)

    abbrev caught : Bytes → Now × Client × Except Void → Now × Client
    caught uri (s, c, r) =
        (with_sessions (λ ss. update ss c.address (ss c.address >>= catch now uri r)) s, c)

    -- `process_request`.
    unfoldable pub process_request : Bytes → Client → Now → Now × Client
    unfolding subscribe_command change_userlevel catch read_word to_lower strip_quote
    process_request request c s =
        let (command, rest) = read_word (cb.trim_request request) in
        let uri = strip_quote (read_word rest).0 in
        if bytes_eq command (codes "change-ul")
        then caught [] (level_changed c (change_userlevel cb rest c s))
        else caught uri (subscribe_command (to_lower command) uri request c s)
