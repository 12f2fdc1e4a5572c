-- ===== src/Cli/Pubsub/Drain.antt =====
-- The loop of `preload_writing` in src/cli/pubsub_context.cpp, on the queue that the pending updates
-- stand for.
use de_co_f.Base.{
  ℕ, zero, suc, ◌<◌, ◌≡◌, inl, inr, refl, sym, subst, ◌∙◌, Bool, true, false, not, ◌&&◌, [], ◌∷◌,
  arith, ltb, if◌then◌else◌, length, is_empty, Bytes, Bool-cases,
}
use de_co_f.Except.{Except, ok, ◌>>=◌}
use de_co_f.Types.{Value}
use de_co_f.Updates.{UpdateContainer, Outcome, pop_front, empty}
use de_co_f.Updates.Abstract.{Queue}
use de_co_f.Updates.Refine.{Represents, Pops, pops, pop_front_lem, empty_lem}
use de_co_f.Cli.Encoder.{Stream, Printers}
use de_co_f.Cli.Pubsub.{lifted, write_update, round, drain}

module _ (lib : Printers) (print_time : ℕ → Bytes) (limit : ℕ) (root_name : Bytes) where
  -- What the loop is to do: it writes updates, oldest first, until the buffer is full.
  abbrev pub batch : Queue → Stream → Stream × Queue
  batch [] st = (st, [])
  batch (u ∷ q) st =
      let rest = batch q (write_update lib print_time limit root_name u st) in
      if ltb (length st.out) limit then rest else (st, u ∷ q)

  -- A run of the loop that returned the stream and the queue `r`.
  pub record Drained (r : Stream × Queue) (e : Except (Stream × UpdateContainer)) : Type 0 where
    pub left : UpdateContainer
    pub ran : e ≡ ok (r.0, left)
    pub stands_for : Represents left r.1

  drain_step :
      (fuel : ℕ) (st : Stream) (u : Bytes × Value × ℕ) (q : Queue)
      (o : Outcome ((Bytes × Value × ℕ) × UpdateContainer))
      → Pops (u ∷ q) o
      → ((c : UpdateContainer)
          → Represents c q
          → Drained (batch q (write_update lib print_time limit root_name u st)) (
              drain lib print_time limit root_name fuel
                (write_update lib print_time limit root_name u st)
                c))
      → Drained (batch q (write_update lib print_time limit root_name u st)) (
          lifted o >>= λ x.
          drain lib print_time limit root_name fuel
            (write_update lib print_time limit root_name x.0 st)
            x.1)
  drain_step fuel st u q o (pops r) next = next _ r

  test :
      (q : Queue) (st : Stream) (c : UpdateContainer)
      → Represents c q
      → (not (empty c) && ltb (length st.out) limit)
        ≡ (not (is_empty q) && ltb (length st.out) limit)
  test q st c r = rw (empty_lem c q r) refl

  by_test :
      (fuel : ℕ) (q : Queue) (st : Stream) (c : UpdateContainer) (b : Bool)
      → (not (empty c) && ltb (length st.out) limit) ≡ b
      → Drained
          (batch q st)
          (round lib print_time limit root_name (drain lib print_time limit root_name fuel) st c b)
      → Drained (batch q st) (drain lib print_time limit root_name (suc fuel) st c)
  unfolding drain
  by_test fuel q st c b e d =
      subst
        (λ b.
          Drained (batch q st) (
            round lib print_time limit root_name (drain lib print_time limit root_name fuel) st c
              b))
        (sym e) d

  -- The loop of `preload_writing` ends, and writes the batch: the pending updates from the oldest on,
  -- until the buffer has reached the size of the socket's buffer. What is left stands for the rest.
  pub drain-batch :
      (fuel : ℕ) (q : Queue) (st : Stream) (c : UpdateContainer)
      → Represents c q
      → length q < fuel
      → Drained (batch q st) (drain lib print_time limit root_name fuel st c)
  unfolding drain
  drain-batch zero q st c r l = elim l [ ]
  drain-batch (suc fuel) [] st c r l =
      by_test fuel [] st c false (test [] st c r) (record { left = c; ran = refl; stands_for = r })
  drain-batch (suc fuel) (u ∷ q) st c r l = elim (Bool-cases (ltb (length st.out) limit)) [
    | inl more ↦ by_test fuel (u ∷ q) st c true (test (u ∷ q) st c r ∙ more) (
        rw more (
          drain_step fuel st u q (pop_front c) (pop_front_lem c (u ∷ q) r)
            (λ c' r'. drain-batch fuel q _ c' r' (omega arith))))
    | inr full ↦
        by_test fuel (u ∷ q) st c false (test (u ∷ q) st c r ∙ full)
          (rw full (record { left = c; ran = refl; stands_for = r }))
  ]
