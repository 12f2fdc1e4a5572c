-- ===== src/Parameters/Targets.antt =====
-- The places of the parameter classes of include/decof and of src/core/client_context.cpp that change
-- which objects a dictionary ticks.
use de_co_f.Base.{ℕ, Bool, Option, some, List, [], ◌∷◌, ◌++◌, if◌then◌else◌, Bytes}
use de_co_f.Except.{Void}
use de_co_f.Types.{Value}
use de_co_f.Tree.{
  Kind, plain_object, node, object_dictionary, event, managed_readonly_parameter,
  managed_readwrite_parameter, external_readonly_parameter, external_readwrite_parameter,
  writeonly_parameter, Store,
}
use de_co_f.Parameters.Monad.{Action, pure, gets, modify, on_error, ◌>>=◌, ◌>>◌}
use de_co_f.Parameters.Monad.Keeps.{Keeps, after-Keeps, bind-Keeps, undo-Keeps, if-Keeps}
use de_co_f.Parameters.Reads.{value-Keeps}
use de_co_f.Parameters.Subscriptions.{connect, disconnect, connect_and_emit}
use de_co_f.Parameters.{
  Application, World, update, is_news, deliver_all, emit, value, set_managed, set_external, write,
  set_readonly, notify, tick_all, tick, ask, lift, name_of,
}

module _ {V D S : Type 0} (app : Application V D) (fuel : ℕ) (tree : Store)
    (deliver : ℕ → Bytes → Value → S → S) (Q : (ℕ → List ℕ) → Type 0) where
  abbrev Holds : World V D S → Type 0
  Holds w = Q w.tick_targets

  abbrev pub Quiet : {B : Type 0} → Action (World V D S) B → Type 0
  Quiet m = Keeps Holds m

  pub emit-Quiet : (a : ℕ) (v : V) → Quiet (emit app fuel tree deliver a v)
  unfolding emit
  emit-Quiet a v context w p =
      after-Keeps Holds
        (λ uri. lift app fuel tree deliver (app.to_generic a v) >>= λ g. modify (λ w. record w {
          sessions = deliver_all app fuel tree deliver (w.slots a) uri g w.sessions;
        }))
        (λ uri context w p.
          after-Keeps Holds
            (λ g. modify (λ w. record w {
              sessions = deliver_all app fuel tree deliver (w.slots a) uri g w.sessions;
            }))
            (λ g context w p. p) context w (app.to_generic a v) p)
        context w (name_of app fuel tree deliver a context w).1 p

  abbrev store : ℕ → V → Action (World V D S) Void
  store a v = modify (λ w. record w { values = update w.values a v })

  pub set_managed-Quiet : (a : ℕ) (v : V) → Quiet (set_managed app fuel tree deliver a v)
  unfolding set_managed
  set_managed-Quiet a v context w p =
      if-Keeps Holds (app.equal a (w.values a) v) (pure tt)
        (ask app fuel tree deliver (app.verify a v) >> store a v >> emit app fuel tree deliver a v)
        (λ context w p. p)
        (bind-Keeps Holds (ask app fuel tree deliver (app.verify a v) >> store a v)
          (λ _. emit app fuel tree deliver a v)
          (bind-Keeps Holds (ask app fuel tree deliver (app.verify a v)) (λ _. store a v)
            (λ context w p. p) (λ _ context w p. p))
          (λ _. emit-Quiet a v))
        context w p

  pub set_readonly-Quiet : (a : ℕ) (v : V) → Quiet (set_readonly app fuel tree deliver a v)
  unfolding set_readonly
  set_readonly-Quiet a v context w p =
      if-Keeps Holds (app.equal a (w.values a) v) (pure tt)
        (store a v >> emit app fuel tree deliver a v) (λ context w p. p)
        (bind-Keeps Holds (store a v) (λ _. emit app fuel tree deliver a v) (λ context w p. p)
          (λ _. emit-Quiet a v))
        context w p

  abbrev emit_if : ℕ → V → Bool → Action (World V D S) Void
  emit_if a v b = if b then emit app fuel tree deliver a v else pure tt

  set_external-Quiet : (a : ℕ) (v : V) → Quiet (set_external app fuel tree deliver a v)
  unfolding set_external
  set_external-Quiet a v =
      bind-Keeps Holds (ask app fuel tree deliver (app.set_external_value a v)) (emit_if a v)
        (λ context w p. p)
        (λ b.
          if-Keeps Holds b (emit app fuel tree deliver a v) (pure tt) (emit-Quiet a v)
            (λ context w p. p))

  converted :
      (a : ℕ) (g : Value) (f : V → Action (World V D S) Void)
      → ((v : V) → Quiet (f v))
      → Quiet (lift app fuel tree deliver (app.from_generic a g) >>= f)
  converted a g f h =
      bind-Keeps Holds (lift app fuel tree deliver (app.from_generic a g)) f (λ context w p. p) h

  pub write-Quiet : (q : Kind) (a : ℕ) (g : Value) → Quiet (write app fuel tree deliver q a g)
  unfolding write
  write-Quiet managed_readwrite_parameter a g =
      converted a g (set_managed app fuel tree deliver a) (set_managed-Quiet a)
  write-Quiet external_readwrite_parameter a g =
      converted a g (set_external app fuel tree deliver a) (set_external-Quiet a)
  write-Quiet writeonly_parameter a g =
      converted a g (λ v. ask app fuel tree deliver (app.set_value a v)) (λ v context w p. p)
  write-Quiet plain_object a g = λ context w p. p
  write-Quiet node a g = λ context w p. p
  write-Quiet object_dictionary a g = λ context w p. p
  write-Quiet event a g = λ context w p. p
  write-Quiet managed_readonly_parameter a g = λ context w p. p
  write-Quiet external_readonly_parameter a g = λ context w p. p

  abbrev pub remember : ℕ → V → Action (World V D S) Void
  remember a v = modify (λ w. record w { last = update w.last a (some v) })

  abbrev pub by_news : ℕ → V → Option V → Action (World V D S) Void
  by_news a v l =
      if is_news app fuel tree deliver a l v
      then (emit app fuel tree deliver a v >> remember a v)
      else pure tt

  pub notify-Quiet : (a : ℕ) → Quiet (notify app fuel tree deliver a)
  unfolding notify
  notify-Quiet a =
      bind-Keeps Holds (ask app fuel tree deliver (app.external_value a))
        (λ v. gets (λ w. w.last a) >>= by_news a v) (λ context w p. p)
        (λ v.
          bind-Keeps Holds (gets (λ w. w.last a)) (by_news a v) (λ context w p. p)
            (λ l.
              if-Keeps Holds (is_news app fuel tree deliver a l v)
                (emit app fuel tree deliver a v >> remember a v) (pure tt)
                (bind-Keeps Holds (emit app fuel tree deliver a v) (λ _. remember a v)
                  (emit-Quiet a v) (λ _ context w p. p))
                (λ context w p. p)))

  tick_all-Quiet : (as_ : List ℕ) → Quiet (tick_all app fuel tree deliver as_)
  unfolding tick_all
  tick_all-Quiet [] = λ context w p. p
  tick_all-Quiet (a ∷ as_) =
      bind-Keeps Holds (notify app fuel tree deliver a) (λ _. tick_all app fuel tree deliver as_)
        (notify-Quiet a) (λ _. tick_all-Quiet as_)

  pub tick-Quiet : (d : ℕ) → Quiet (tick app fuel tree deliver d)
  unfolding tick
  tick-Quiet d context w p = tick_all-Quiet (w.tick_targets d) context w p

  abbrev pub getter : Kind → ℕ → Action (World V D S) Void
  getter k a = value app fuel tree deliver k a >>= emit app fuel tree deliver a

  pub connect_and_emit-Quiet :
      (k : Kind) (a c : ℕ) → Quiet (connect_and_emit app fuel tree deliver k a c)
  unfolding connect_and_emit
  connect_and_emit-Quiet k a c =
      bind-Keeps Holds
        (connect app fuel tree deliver a c
          >> on_error (getter k a) (disconnect app fuel tree deliver (some a) c))
        (λ _. pure (some a))
        (λ context w p.
          let w1 : World V D S = record w { slots = update w.slots a (w.slots a ++ c ∷ []) } in
          undo-Keeps Holds (disconnect app fuel tree deliver (some a) c) (λ context w p. p) context
            (getter k a context w1).0 (getter k a context w1).1
            (bind-Keeps Holds (value app fuel tree deliver k a) (emit app fuel tree deliver a)
              (value-Keeps app fuel tree deliver Holds (λ w x p. p) k a) (emit-Quiet a) context w1
              p))
        (λ _ context w p. p)
