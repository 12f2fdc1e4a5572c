-- ===== src/Cli/Pubsub/Bound.antt =====
-- The size of the output buffer behind `preload_writing` of src/cli/pubsub_context.cpp.
use de_co_f.Base.{
  ℕ, ◌+◌, ◌≤◌, ◌<◌, ◌≡◌, inl, inr, ap, ◌∙◌, false, none, [], ◌∷◌, arith, ltb, length, All, Bytes,
  Bool-cases,
}
use de_co_f.Except.{ok}
use de_co_f.Types.{Value}
use de_co_f.Updates.Abstract.{Queue}
use de_co_f.Updates.Refine.{Represents}
use de_co_f.Cli.Encoder.{Stream, Printers}
use de_co_f.Cli.Pubsub.{Session, write_update, start_writing, preload_by, preload_writing}
use de_co_f.Cli.Pubsub.Drain.{batch}
use de_co_f.Cli.Pubsub.Preload.{preload_idle-Started}

module _ (lib : Printers) (print_time : ℕ → Bytes) (limit : ℕ) (root_name : Bytes) where
  -- A notification that takes `m` bytes at most.
  abbrev pub Fits : ℕ → Bytes × Value × ℕ → Type 0
  Fits m u =
      (st : Stream)
      → length (write_update lib print_time limit root_name u st).out ≤ length st.out + m

  batch_bound :
      (m : ℕ) (q : Queue) (st : Stream)
      → All (Fits m) q
      → length st.out < limit + m
      → length (batch lib print_time limit root_name q st).0.out < limit + m
  batch_bound m [] st h l = l
  batch_bound m (u ∷ q) st (f, h) l = elim (Bool-cases (ltb (length st.out) limit)) [
    | inl more ↦
        let st1 = write_update lib print_time limit root_name u st in
        let fits = f st in rw more (batch_bound m q st1 h (ground (arith, fits)))
    | inr full ↦ rw full l
  ]

  -- In an idle session each of whose pending notifications takes at most `m` bytes, let the output buffer
  -- hold less than the size of the socket's buffer and `m` bytes. Then so it does behind `preload_writing`,
  -- which returns, however many notifications are pending.
  pub preload_writing_bound :
      (m : ℕ) (s : Session) (q : Queue)
      → Represents s.pending q
      → s.in_flight ≡ none
      → All (Fits m) q
      → 0 < limit
      → length s.outbuf < limit + m
      → (t : Session) × (preload_writing lib print_time limit root_name s ≡ ok t)
        × (length t.outbuf < limit + m)
  unfolding preload_writing
  preload_writing_bound m s q r e h l b =
      let d = preload_idle-Started lib print_time limit root_name s q r l in
      let st : Stream = record { out = s.outbuf; hex = false } in
      (
        start_writing lib print_time limit root_name s
            ((batch lib print_time limit root_name q st).0, d.left),
        ap (λ o. preload_by lib print_time limit root_name o s) e ∙ d.ran,
        batch_bound m q st h b,
      )
