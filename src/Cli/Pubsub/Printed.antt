-- ===== src/Cli/Pubsub/Printed.antt =====
-- What the loop of `preload_writing` of src/cli/pubsub_context.cpp writes of the pending updates.
use de_co_f.Base.{
  ℕ, ◌≡◌, inl, inr, refl, sym, subst, ap, ◌∙◌, Bool, [], ◌∷◌, ◌++◌, append_assoc, append-nil, ltb,
  length, Bool-cases, Bytes, codes,
}
use de_co_f.Types.{Value}
use de_co_f.Updates.Abstract.{Queue}
use de_co_f.Cli.Encoder.{Stream, Printers, write, encode_value}
use de_co_f.Cli.Shift.{Shifts, write-Shifts, after-Shifts, value-Shifts}
use de_co_f.Cli.Pubsub.{write_update}
use de_co_f.Cli.Pubsub.Drain.{batch}

module _ (lib : Printers) (print_time : ℕ → Bytes) (limit : ℕ) (root_name : Bytes) where
  -- One notification, in decimal, or in hexadecimal where a string before it has set the base.
  abbrev pub notification : Bool → Bytes × Value × ℕ → Bytes
  notification hex u =
      (write_update lib print_time limit root_name u (record { out = []; hex = hex })).out

  -- The bytes are the notifications of all the updates, in their order, and nothing else.
  abbrev pub Printed : Queue → Bytes → Type 0
  Printed [] x = x ≡ []
  Printed (u ∷ q) x =
      (hex : Bool) × (rest : Bytes) × (x ≡ notification hex u ++ rest) × Printed q rest

  pub Printed-append :
      (q r : Queue) (x y : Bytes) → Printed q x → Printed r y → Printed (q ++ r) (x ++ y)
  Printed-append [] r x y h k = subst (λ x. Printed r (x ++ y)) (sym h) k
  Printed-append (u ∷ q) r x y (hex, rest, e, h) k = (
    hex,
    rest ++ y,
    ap (λ b. b ++ y) e ∙ append_assoc (notification hex u) rest y,
    Printed-append q r rest y h k,
  )

  write_update-Shifts :
      (u : Bytes × Value × ℕ) → Shifts (write_update lib print_time limit root_name u)
  unfolding write_update
  write_update-Shifts (uri, v, time) =
      let head : Bytes = codes "(" ++ (print_time time ++ (codes " '" ++ (uri ++ codes " "))) in
      after-Shifts (write (codes ")" ++ 10 ∷ [])) (λ st. encode_value lib v (write head st))
        (write-Shifts _)
        (after-Shifts (encode_value lib v) (write head) (value-Shifts lib v) (write-Shifts head))

  write_update-out :
      (u : Bytes × Value × ℕ) (st : Stream)
      → (write_update lib print_time limit root_name u st).out ≡ st.out ++ notification st.hex u
  write_update-out u st =
      ap
        (λ b.
          (write_update lib print_time limit root_name u (record { out = b; hex = st.hex })).out)
        (sym (append-nil st.out))
      ∙ ap (λ (r : Stream). r.out)
          (write_update-Shifts u st.out (record { out = []; hex = st.hex }))

  -- A batch behind what the stream has got: the notifications of the updates that it takes.
  pub record Batched (q : Queue) (st : Stream) : Type 0 where
    pub taken : Queue
    pub bytes : Bytes
    pub out : (batch lib print_time limit root_name q st).0.out ≡ st.out ++ bytes
    pub queue : q ≡ taken ++ (batch lib print_time limit root_name q st).1
    pub printed : Printed taken bytes

  nothing :
      (q : Queue) (st : Stream) → batch lib print_time limit root_name q st ≡ (st, q) → Batched q st
  nothing q st e = record {
    taken = [];
    bytes = [];
    out = ap (λ (r : Stream × Queue). r.0.out) e ∙ sym (append-nil st.out);
    queue = sym (ap (λ (r : Stream × Queue). r.1) e);
    printed = refl;
  }

  pub batch-Batched : (q : Queue) (st : Stream) → Batched q st
  batch-Batched [] st = nothing [] st refl
  batch-Batched (u ∷ q) st = elim (Bool-cases (ltb (length st.out) limit)) [
    | inr full ↦ nothing (u ∷ q) st (rw full refl)
    | inl more ↦
        let st1 = write_update lib print_time limit root_name u st in
        let b = batch-Batched q st1 in
        let e : batch lib print_time limit root_name (u ∷ q) st
            ≡ batch lib print_time limit root_name q st1 =
          rw more refl in
        record {
          taken = u ∷ b.taken;
          bytes = notification st.hex u ++ b.bytes;
          out =
              ap (λ (r : Stream × Queue). r.0.out) e
              ∙ b.out
              ∙ ap (λ x. x ++ b.bytes) (write_update-out u st)
              ∙ append_assoc st.out (notification st.hex u) b.bytes;
          queue =
              ap (λ t. u ∷ t) b.queue ∙ sym (ap (λ (r : Stream × Queue). u ∷ (b.taken ++ r.1)) e);
          printed = (st.hex, b.bytes, refl, b.printed);
        }
  ]
