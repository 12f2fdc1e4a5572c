-- ===== src/Cli/Pubsub/Flush.antt =====
-- The end of the chain of write operations of src/cli/pubsub_context.cpp, when nothing else happens.
use de_co_f.Base.{
  ◌++◌, append_assoc, append-nil, sym, take, ℕ, zero, suc, ◌≤◌, ◌<◌, ◌≡◌, inl, inr, refl, subst, ap,
  ◌∙◌, false, none, some, List, [], ◌∷◌, arith, ltb, length, drop, Option-cases, Bytes, Bool-cases,
}
use de_co_f.Except.{ok}
use de_co_f.Types.{Value}
use de_co_f.Updates.Abstract.{Queue}
use de_co_f.Updates.Refine.{Represents}
use de_co_f.Cli.Encoder.{Stream, Printers}
use de_co_f.Cli.Pubsub.{
  Session, start_writing, preload_writing, completed, write_handler, write_update,
}
use de_co_f.Cli.Pubsub.Drain.{batch}
use de_co_f.Cli.Pubsub.Preload.{IsLive, Started, preload_idle-Started}
use de_co_f.Cli.Pubsub.Printed.{Printed, Printed-append, batch-Batched}
use de_co_f.Cli.Pubsub.Writing.{take-drop, Event, written, run}

-- The active write operation covers the whole buffer.
abbrev IsWhole : Session → Type 0
IsWhole s = (n : ℕ) → s.in_flight ≡ some n → n ≡ length s.outbuf

abbrev pub writes : ℕ → List Event
writes zero = []
writes (suc n) = written ∷ writes n

drop-length : (n : ℕ) (xs : Bytes) → n ≡ length xs → drop n xs ≡ []
drop-length zero [] h = refl
drop-length zero (x ∷ xs) h = absurd (omega arith)
drop-length (suc n) [] h = refl
drop-length (suc n) (x ∷ xs) h = drop-length n xs (omega arith)

joined :
    (k : ℕ) (sent buf x y : Bytes)
    → (sent ++ take k buf) ++ ((drop k buf ++ x) ++ y) ≡ sent ++ (buf ++ (x ++ y))
joined k sent buf x y =
    append_assoc sent (take k buf) ((drop k buf ++ x) ++ y)
    ∙ ap (λ t. sent ++ t)
        (ap (λ t. take k buf ++ t) (append_assoc (drop k buf) x y)
          ∙ sym (append_assoc (take k buf) (drop k buf) (x ++ y))
          ∙ ap (λ b. b ++ (x ++ y)) (take-drop k buf))

module _ (lib : Printers) (print_time : ℕ → Bytes) (limit : ℕ) (root_name : Bytes) where
  batch-shrinks :
      (q : Queue) (st : Stream) → length (batch lib print_time limit root_name q st).1 ≤ length q
  batch-shrinks [] st = omega arith
  batch-shrinks (u ∷ q) st = elim (Bool-cases (ltb (length st.out) limit)) [
    | inl more ↦
        rw more (omega (arith, batch-shrinks q (write_update lib print_time limit root_name u st)))
    | inr full ↦ rw full (omega arith)
  ]

  batch-takes :
      (u : Bytes × Value × ℕ) (q : Queue) (st : Stream)
      → st.out ≡ []
      → 0 < limit
      → length (batch lib print_time limit root_name (u ∷ q) st).1 ≤ length q
  batch-takes u q st e l = elim (Bool-cases (ltb (length st.out) limit)) [
    | inl more ↦ rw more (batch-shrinks q (write_update lib print_time limit root_name u st))
    | inr full ↦ absurd (ground (arith, ap length e))
  ]

  start_writing-IsWhole :
      (s : Session) (r : Stream × _) → IsWhole (start_writing lib print_time limit root_name s r)
  start_writing-IsWhole s r n e = ground arith

  -- The session after `n` completed writes: the peer has got what was in the buffer, and the notifications of
  -- all pending updates.
  pub record Flushed (n : ℕ) (s : Session) (q : Queue) : Type 0 where
    pub last : Session
    pub ran : run lib print_time limit root_name (writes n) s ≡ ok last
    pub idle : last.in_flight ≡ none
    pub live : IsLive last []
    pub bytes : Bytes
    pub sent : last.sent ≡ s.sent ++ (s.outbuf ++ bytes)
    pub printed : Printed lib print_time limit root_name q bytes

  idle_complete :
      (s : Session) → s.in_flight ≡ none → write_handler lib print_time limit root_name s ≡ ok s
  unfolding write_handler
  idle_complete s e = rw e refl

  idle_run :
      (n : ℕ) (s : Session)
      → s.in_flight ≡ none
      → run lib print_time limit root_name (writes n) s ≡ ok s
  unfolding run
  idle_run zero s e = refl
  idle_run (suc n) s e = rw (idle_complete s e) (idle_run n s e)

  idle-Flushed : (n : ℕ) (s : Session) (q : Queue) → IsLive s q → s.in_flight ≡ none → Flushed n s q
  idle-Flushed n s q h e = record {
    last = s;
    ran = idle_run n s e;
    idle = e;
    live = subst (λ q. IsLive s q) (h.idle_queue e) h;
    bytes = [];
    sent = sym (append-nil s.sent) ∙ ap (λ b. s.sent ++ (b ++ [])) (sym (h.idle_buffer e));
    printed = subst (λ q. Printed lib print_time limit root_name q []) (sym (h.idle_queue e)) refl;
  }

  -- One completed write.
  complete_lem :
      (k : ℕ) (s : Session) (q : Queue)
      → s.in_flight ≡ some k
      → (d : Started lib print_time limit root_name
          (completed lib print_time limit root_name k s)
          q)
      → write_handler lib print_time limit root_name s
        ≡ ok (
            start_writing lib print_time limit root_name
              (completed lib print_time limit root_name k s)
              (
                (batch lib print_time limit root_name q
                    (record { out = drop k s.outbuf; hex = false })).0,
                d.left,
              ))
  unfolding write_handler preload_writing
  complete_lem k s q e d = rw e d.ran

  after_write :
      (n k : ℕ) (s : Session) (q : Queue)
      → s.in_flight ≡ some k
      → IsLive s q
      → 0 < limit
      → ((t : Session) (r : Queue)
          → IsLive t r
          → IsWhole t
          → r
            ≡ (batch lib print_time limit root_name q
                (record { out = drop k s.outbuf; hex = false })).1
          → (t.outbuf
              ≡ (batch lib print_time limit root_name q
                  (record { out = drop k s.outbuf; hex = false })).0.out)
          → Flushed n t r)
      → Flushed (suc n) s q
  unfolding run
  after_write n k s q e h l next =
      let s' = completed lib print_time limit root_name k s in
      let d = preload_idle-Started lib print_time limit root_name s' q h.pending l in
      let b =
        batch lib print_time limit root_name q (record { out = drop k s.outbuf; hex = false }) in
      let t = start_writing lib print_time limit root_name s' (b.0, d.left) in
      let f = next t b.1 d.live (start_writing-IsWhole s' (b.0, d.left)) refl refl in
      let st : Stream = record { out = drop k s.outbuf; hex = false } in
      let w = batch-Batched lib print_time limit root_name q st in
      record {
        last = f.last;
        ran = rw (complete_lem k s q e d) f.ran;
        idle = f.idle;
        live = f.live;
        bytes = w.bytes ++ f.bytes;
        sent =
            f.sent
            ∙ ap (λ o. (s.sent ++ take k s.outbuf) ++ (o ++ f.bytes)) w.out
            ∙ joined k s.sent s.outbuf w.bytes f.bytes;
        printed =
            subst (λ q. Printed lib print_time limit root_name q (w.bytes ++ f.bytes)) (sym w.queue)
              (Printed-append lib print_time limit root_name w.taken b.1 w.bytes f.bytes w.printed
                f.printed);
      }

  empty-idle : (s : Session) (q : Queue) → IsLive s q → s.outbuf ≡ [] → s.in_flight ≡ none
  empty-idle s q h e = elim (Option-cases s.in_flight) [
    | inl i ↦ i
    | inr (n, i) ↦ absurd (omega (arith, h.positive n i, h.covered n i, ap length e))
  ]

  whole_flush :
      (n : ℕ) (s : Session) (q : Queue)
      → IsLive s q
      → IsWhole s
      → 0 < limit
      → length q < n
      → Flushed n s q
  whole_flush zero s q h w l b = elim b [ ]
  whole_flush (suc n) s [] h w l b = elim (Option-cases s.in_flight) [
    | inl e ↦ idle-Flushed (suc n) s [] h e
    | inr (k, e) ↦ after_write n k s [] e h l (λ t r h' w' er eo.
        idle-Flushed n t r h' (empty-idle t r h' (eo ∙ drop-length k s.outbuf (w k e))))
  ]
  whole_flush (suc n) s (u ∷ q) h w l b = elim (Option-cases s.in_flight) [
    | inl e ↦ idle-Flushed (suc n) s (u ∷ q) h e
    | inr (k, e) ↦
        let st : Stream = record { out = drop k s.outbuf; hex = false } in
        let taken = batch-takes u q st (drop-length k s.outbuf (w k e)) l in
        after_write n k s (u ∷ q) e h l
          (λ t r h' w' er eo. whole_flush n t r h' w' l (omega (arith, taken, ap length er)))
  ]

  -- A live session with `q` pending updates and a socket buffer that is not empty, to which nothing else
  -- happens, is idle after `length q + 2` completed writes at the latest, and then has nothing pending and
  -- an empty buffer. The peer has got what was in the buffer and then the notification of every pending
  -- update, in their order, each with its integers in decimal or in hexadecimal, and nothing else.
  pub flush :
      (n : ℕ) (s : Session) (q : Queue)
      → IsLive s q
      → 0 < limit
      → suc (length q) < n
      → (t : Session) × (run lib print_time limit root_name (writes n) s ≡ ok t)
        × (t.in_flight ≡ none)
        × (t.outbuf ≡ [])
        × Represents t.pending []
        × ((x : Bytes) × (t.sent ≡ s.sent ++ (s.outbuf ++ x))
            × Printed lib print_time limit root_name q x)
  flush zero s q h l b = elim b [ ]
  flush (suc n) s q h l b =
      let f : Flushed (suc n) s q = elim (Option-cases s.in_flight) [
        | inl e ↦ idle-Flushed (suc n) s q h e
        | inr (k, e) ↦
            let shrinks = batch-shrinks q (record { out = drop k s.outbuf; hex = false }) in
            after_write n k s q e h l
              (λ t r h' w' er eo. whole_flush n t r h' w' l (omega (arith, shrinks, ap length er)))
      ] in
      (
        f.last,
        f.ran,
        f.idle,
        f.live.idle_buffer f.idle,
        f.live.pending,
        (f.bytes, f.sent, f.printed),
      )
