-- ===== src/Cli/Pubsub/Preload.antt =====
-- What `preload_writing` of src/cli/pubsub_context.cpp leaves of a session.
use de_co_f.Base.{
  ℕ, suc, ◌≤◌, ◌<◌, ◌≡◌, inl, inr, refl, sym, subst, ap, ◌∙◌, false, Option, none, some, [], ◌∷◌,
  ◌++◌, append_assoc, arith, ltb, length, length-append, Option-cases, Bytes, Bool-cases, codes,
}
use de_co_f.Except.{Except, ok, ◌>>=◌}
use de_co_f.Types.{Value}
use de_co_f.Updates.{UpdateContainer, Outcome}
use de_co_f.Updates.Abstract.{Queue}
use de_co_f.Updates.Refine.{Represents, Returns, returns}
use de_co_f.Updates.Size.{length-Represents}
use de_co_f.Cli.Encoder.{Stream, Printers, encode_value, write}
use de_co_f.Cli.Growth.{Extends, Extends-self, Extends-trans, length-Extends, encode_value-Extends}
use de_co_f.Cli.Pubsub.{
  Session, write_update, start_writing, preload_idle, preload_by, preload_writing, lifted,
}
use de_co_f.Cli.Pubsub.Drain.{batch, drain-batch}

-- Nothing is left behind: an idle session has an empty buffer and no pending updates, and an active write
-- operation covers a part of the buffer that is not empty. The updates stand for the queue `q`.
pub record IsLive (s : Session) (q : Queue) : Type 0 where
  pub pending : Represents s.pending q
  pub idle_queue : s.in_flight ≡ none → q ≡ []
  pub idle_buffer : s.in_flight ≡ none → s.outbuf ≡ []
  pub positive : (n : ℕ) → s.in_flight ≡ some n → 0 < n
  pub covered : (n : ℕ) → s.in_flight ≡ some n → n ≤ length s.outbuf

-- What the peer has got and what it will get at once.
abbrev pub stream : Session → Bytes
stream s = s.sent ++ s.outbuf

empty_of_length : (xs : Bytes) → length xs ≡ 0 → xs ≡ []
empty_of_length [] h = refl
empty_of_length (x ∷ xs) h = absurd (omega arith)

module _ (lib : Printers) (print_time : ℕ → Bytes) (limit : ℕ) (root_name : Bytes) where
  write_update-Extends :
      (u : Bytes × Value × ℕ) (st : Stream)
      → Extends st.out (write_update lib print_time limit root_name u st).out
        × (length st.out < length (write_update lib print_time limit root_name u st).out)
  unfolding write_update
  write_update-Extends (uri, v, time) st =
      let head : Bytes = codes "(" ++ (print_time time ++ (codes " '" ++ (uri ++ codes " "))) in
      let st1 = write head st in
      let st2 = encode_value lib v st1 in
      let e = Extends-trans st.out st1.out st2.out (head, refl) (encode_value-Extends lib v st1) in
      (
        Extends-trans st.out st2.out (write (codes ")" ++ 10 ∷ []) st2).out e
            (codes ")" ++ 10 ∷ [], refl),
        omega
            (arith, length-Extends st.out st2.out e, length-append st2.out (codes ")" ++ 10 ∷ [])),
      )

  batch-Extends :
      (q : Queue) (st : Stream) → Extends st.out (batch lib print_time limit root_name q st).0.out
  batch-Extends [] st = Extends-self st.out
  batch-Extends (u ∷ q) st = elim (Bool-cases (ltb (length st.out) limit)) [
    | inl more ↦ rw more (
        let st1 = write_update lib print_time limit root_name u st in
        Extends-trans st.out st1.out (batch lib print_time limit root_name q st1).0.out
          (write_update-Extends u st).0 (batch-Extends q st1))
    | inr full ↦ rw full (Extends-self st.out)
  ]

  not_full : (xs : Bytes) → xs ≡ [] → 0 < limit → ltb (length xs) limit ≡ false → ⊥
  not_full xs e l f = ground (arith, ap length e)

  started :
      (s : Session) (st : Stream) (q : Queue) (c : UpdateContainer)
      → Represents c q
      → (st.out ≡ [] → q ≡ [])
      → IsLive (start_writing lib print_time limit root_name s (st, c)) q
  started s st q c r h = record {
    pending = r;
    idle_queue = λ e. h (empty_of_length st.out (ground arith));
    idle_buffer = λ e. empty_of_length st.out (ground arith);
    positive = λ n e. ground arith;
    covered = λ n e. ground arith;
  }

  -- A batch that leaves the buffer empty takes the whole queue; one on a queue and an empty buffer takes
  -- an update at least.
  batch_empty :
      (q : Queue) (st : Stream)
      → 0 < limit
      → (batch lib print_time limit root_name q st).0.out ≡ []
      → (batch lib print_time limit root_name q st).1 ≡ []
  batch_empty [] st l e = refl
  batch_empty (u ∷ q) st l e = elim (Bool-cases (ltb (length st.out) limit)) [
    | inl more ↦
        let st1 = write_update lib print_time limit root_name u st in
        let e' = rw more at e in
        absurd (
          omega (
            arith,
            ap length e',
            (write_update-Extends u st).1,
            length-Extends st1.out (batch lib print_time limit root_name q st1).0.out
                (batch-Extends q st1),
          ))
    | inr full ↦ let e' = rw full at e in absurd (not_full st.out e' l full)
  ]

  -- The session after `preload_writing`.
  pub record Preloaded (s : Session) (e : Except Session) : Type 0 where
    pub next : Session
    pub queue : Queue
    pub ran : e ≡ ok next
    pub live : IsLive next queue
    pub extends : Extends (stream s) (stream next)

  -- The session after the loop of `preload_writing`: the write operation covers the whole buffer.
  pub record Started (s : Session) (q : Queue) : Type 0 where
    pub left : UpdateContainer
    pub ran :
        preload_idle lib print_time limit root_name s
        ≡ ok (
            start_writing lib print_time limit root_name s (
              (batch lib print_time limit root_name q (record { out = s.outbuf; hex = false })).0,
              left,
            ))
    pub live :
        IsLive
          (start_writing lib print_time limit root_name s (
            (batch lib print_time limit root_name q (record { out = s.outbuf; hex = false })).0,
            left,
          ))
          (batch lib print_time limit root_name q (record { out = s.outbuf; hex = false })).1

  pub preload_idle-Started :
      (s : Session) (q : Queue) → Represents s.pending q → 0 < limit → Started s q
  preload_idle-Started s q r l =
      let st : Stream = record { out = s.outbuf; hex = false } in
      let b = batch lib print_time limit root_name q st in
      let d =
        drain-batch lib print_time limit root_name (suc (length s.pending.updates)) q st s.pending r
          (omega (arith, length-Represents s.pending q r)) in
      record {
        left = d.left;
        ran = rw d.ran refl;
        live = started s b.0 b.1 d.left d.stands_for (batch_empty q st l);
      }

  preload_idle-Preloaded :
      (s : Session) (q : Queue)
      → Represents s.pending q
      → 0 < limit
      → Preloaded s (preload_idle lib print_time limit root_name s)
  preload_idle-Preloaded s q r l =
      let st : Stream = record { out = s.outbuf; hex = false } in
      let b = batch lib print_time limit root_name q st in
      let d = preload_idle-Started s q r l in
      let (x, e) = batch-Extends q st in
      record {
        next = start_writing lib print_time limit root_name s (b.0, d.left);
        queue = b.1;
        ran = d.ran;
        live = d.live;
        extends = (x, ap (λ t. s.sent ++ t) e ∙ sym (append_assoc s.sent s.outbuf x));
      }

  by_flight :
      (s : Session) (o : Option ℕ)
      → s.in_flight ≡ o
      → Preloaded s (preload_by lib print_time limit root_name o s)
      → Preloaded s (preload_writing lib print_time limit root_name s)
  unfolding preload_writing
  by_flight s o e = subst (λ o. Preloaded s (preload_by lib print_time limit root_name o s)) (sym e)

  pub preload-Preloaded :
      (s : Session) (q : Queue)
      → Represents s.pending q
      → ((n : ℕ) → s.in_flight ≡ some n → 0 < n)
      → ((n : ℕ) → s.in_flight ≡ some n → n ≤ length s.outbuf)
      → 0 < limit
      → Preloaded s (preload_writing lib print_time limit root_name s)
  preload-Preloaded s q r pos cov l = elim (Option-cases s.in_flight) [
    | inl e ↦ by_flight s none e (preload_idle-Preloaded s q r l)
    | inr (n, e) ↦ by_flight s (some n) e (record {
      next = s;
      queue = q;
      ran = refl;
      live = record {
        pending = r;
        idle_queue = λ h. absurd (cc);
        idle_buffer = λ h. absurd (cc);
        positive = pos;
        covered = cov;
      };
      extends = Extends-self (stream s);
    })
  ]

  -- A change of the session that leaves what is sent in front of what was.
  pub Preloaded-from :
      (s t : Session) (e : Except Session)
      → Extends (stream s) (stream t)
      → Preloaded t e
      → Preloaded s e
  Preloaded-from s t e x p = record {
    next = p.next;
    queue = p.queue;
    ran = p.ran;
    live = p.live;
    extends = Extends-trans (stream s) (stream t) (stream p.next) x p.extends;
  }

  pub pushed :
      {q : Queue} (s : Session) (o : Outcome UpdateContainer)
      → ((n : ℕ) → s.in_flight ≡ some n → 0 < n)
      → ((n : ℕ) → s.in_flight ≡ some n → n ≤ length s.outbuf)
      → 0 < limit
      → Returns q o
      → Preloaded s (
          lifted o >>= λ c.
          preload_writing lib print_time limit root_name (record s { pending = c }))
  pushed {q} s o pos cov l (returns {c} r) =
      Preloaded-from s (record s { pending = c }) _ (Extends-self (stream s))
        (preload-Preloaded (record s { pending = c }) q r pos cov l)
