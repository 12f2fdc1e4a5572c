-- ===== src/Cli/Pubsub/Writing.antt =====
-- The chain of write operations of src/cli/pubsub_context.cpp, over any sequence of notifications, error
-- reports and completed writes.
use de_co_f.Base.{
  ℕ, zero, suc, ◌<◌, ◌≡◌, refl, sym, ap, subst, ◌∙◌, Option, none, some, List, [], ◌∷◌, ◌++◌,
  append_assoc, append-nil, arith, ◌⊎◌, inl, inr, Option-cases, length-append, take, drop, Bytes,
}
use de_co_f.Except.{Except, ok, fault, ◌>>=◌}
use de_co_f.Types.{Value}
use de_co_f.Updates.{push}
use de_co_f.Updates.Abstract.{Queue}
use de_co_f.Updates.Refine.{push-enqueue}
use de_co_f.Cli.Encoder.{Printers}
use de_co_f.Cli.Growth.{Extends, Extends-self, Extends-trans}
use de_co_f.Cli.Pubsub.{
  Session, completed, complete_by, write_handler, cut_root, notify, report, report_by,
}
use de_co_f.Cli.Pubsub.Preload.{
  IsLive, stream, Preloaded, Preloaded-from, pushed, preload-Preloaded,
}

-- What happens to a session: a notification, the end of a `catch` clause, a completed write.
pub data Event : Type 0 where
  notified : ℕ → Bytes → Value → Event
  reported : Bytes → Event
  written : Event

pub take-drop : (n : ℕ) (xs : Bytes) → take n xs ++ drop n xs ≡ xs
take-drop zero xs = refl
take-drop (suc n) [] = refl
take-drop (suc n) (x ∷ xs) = ap (λ t. x ∷ t) (take-drop n xs)

module _ (lib : Printers) (print_time : ℕ → Bytes) (limit : ℕ) (root_name : Bytes) where
  notify-Preloaded :
      (now : ℕ) (uri : Bytes) (v : Value) (s : Session) (q : Queue)
      → IsLive s q
      → 0 < limit
      → Preloaded lib print_time limit root_name s
          (notify lib print_time limit root_name now uri v s)
  unfolding notify
  notify-Preloaded now uri v s q h l =
      let k = cut_root lib print_time limit root_name uri in
      pushed lib print_time limit root_name s (push k v now s.pending) h.positive h.covered l
        (push-enqueue s.pending q k v now h.pending)

  report-Preloaded :
      (line : Bytes) (s : Session) (q : Queue)
      → s.in_flight ≡ none
      → IsLive s q
      → 0 < limit
      → Preloaded lib print_time limit root_name s (report lib print_time limit root_name line s)
  unfolding report
  report-Preloaded line s q e h l =
      let t : Session = record s { outbuf = s.outbuf ++ line } in
      subst
        (λ o.
          Preloaded lib print_time limit root_name s
            (report_by lib print_time limit root_name o line s))
        (sym e)
        (Preloaded-from lib print_time limit root_name s t _
          (line, sym (append_assoc s.sent s.outbuf line))
          (preload-Preloaded lib print_time limit root_name t q h.pending h.positive
            (λ n e. omega (arith, h.covered n e, length-append s.outbuf line)) l))

  complete-Preloaded :
      (s : Session) (q : Queue) (o : Option ℕ)
      → s.in_flight ≡ o
      → IsLive s q
      → 0 < limit
      → Preloaded lib print_time limit root_name s (complete_by lib print_time limit root_name o s)
  complete-Preloaded s q none e h l = record {
    next = s;
    queue = q;
    ran = refl;
    live = h;
    extends = Extends-self (stream s);
  }
  complete-Preloaded s q (some n) e h l =
      let t = completed lib print_time limit root_name n s in
      Preloaded-from lib print_time limit root_name s t _
        (
          [],
          append_assoc s.sent (take n s.outbuf) (drop n s.outbuf)
              ∙ ap (λ b. s.sent ++ b) (take-drop n s.outbuf)
              ∙ sym (append-nil (stream s)),
        )
        (preload-Preloaded lib print_time limit root_name t q h.pending (λ n e. absurd (cc))
          (λ n e. absurd (cc)) l)

  abbrev pub step : Event → Session → Except Session
  step (notified now uri v) s = notify lib print_time limit root_name now uri v s
  step (reported line) s = report lib print_time limit root_name line s
  step written s = write_handler lib print_time limit root_name s

  unfoldable pub run : List Event → Session → Except Session
  run [] s = ok s
  run (e ∷ es) s = do s' ← step e s; run es s'

  -- An error report while a write operation is active.
  pub record Clashes (e : Event) (s : Session) : Type 0 where
    pub line : Bytes
    pub reports : e ≡ reported line
    pub size : ℕ
    pub active : s.in_flight ≡ some size

  clash-fault : (e : Event) (s : Session) → Clashes e s → step e s ≡ fault
  unfolding report
  clash-fault e s c = rw (c.reports, c.active) refl

  step-Preloaded :
      (e : Event) (s : Session) (q : Queue)
      → IsLive s q
      → 0 < limit
      → Preloaded lib print_time limit root_name s (step e s) ⊎ Clashes e s
  unfolding write_handler
  step-Preloaded (notified now uri v) s q h l = inl (notify-Preloaded now uri v s q h l)
  step-Preloaded (reported line) s q h l = elim (Option-cases s.in_flight) [
    | inl e ↦ inl (report-Preloaded line s q e h l)
    | inr (n, e) ↦ inr (record { line = line; reports = refl; size = n; active = e })
  ]
  step-Preloaded written s q h l = inl (complete-Preloaded s q s.in_flight refl h l)

  -- A run that is defined up to its end.
  pub record Defined (es : List Event) (s : Session) : Type 0 where
    pub last : Session
    pub queue : Queue
    pub ran : run es s ≡ ok last
    pub live : IsLive last queue
    pub extends : Extends (stream s) (stream last)

  -- A run that is defined up to an error report while a write operation is active.
  pub record Undefined (es : List Event) (s : Session) : Type 0 where
    pub before : List Event
    pub event : Event
    pub after : List Event
    pub split : es ≡ before ++ event ∷ after
    pub defined : Defined before s
    pub clash : Clashes event defined.last
    pub ran : run es s ≡ fault

  Defined-first :
      (e : Event) (es : List Event) (s : Session)
      → (p : Preloaded lib print_time limit root_name s (step e s)) → Defined es p.next
      → Defined (e ∷ es) s
  unfolding run
  Defined-first e es s p d = record {
    last = d.last;
    queue = d.queue;
    ran = rw p.ran d.ran;
    live = d.live;
    extends = Extends-trans (stream s) (stream p.next) (stream d.last) p.extends d.extends;
  }

  -- Let nothing be left behind in a session, and let the socket buffer be not empty. A sequence of
  -- notifications, error reports and completed writes is defined up to its end, if no error is reported
  -- while a write operation is active; then it ends in such a session: an idle one has nothing pending and
  -- an empty buffer, and what the peer has got or gets at once is only appended to. Otherwise it is so up to
  -- the first such report, report_by, which is undefined.
  pub run-IsLive :
      (es : List Event) (s : Session) (q : Queue)
      → IsLive s q
      → 0 < limit
      → Defined es s ⊎ Undefined es s
  unfolding run Defined-first
  run-IsLive [] s q h l =
      inl (record { last = s; queue = q; ran = refl; live = h; extends = Extends-self (stream s) })
  run-IsLive (e ∷ es) s q h l = elim (step-Preloaded e s q h l) [
    | inr c ↦ inr (record {
      before = [];
      event = e;
      after = es;
      split = refl;
      defined = record {
        last = s;
        queue = q;
        ran = refl;
        live = h;
        extends = Extends-self (stream s);
      };
      clash = c;
      ran = rw (clash-fault e s c) refl;
    })
    | inl p ↦ elim (run-IsLive es p.next p.queue p.live l) [
      | inl d ↦ inl (Defined-first e es s p d)
      | inr u ↦ inr (record {
        before = e ∷ u.before;
        event = u.event;
        after = u.after;
        split = ap (λ t. e ∷ t) u.split;
        defined = Defined-first e u.before s p u.defined;
        clash = u.clash;
        ran = rw p.ran u.ran;
      })
    ]
  ]
