-- ===== src/Parameters/Operations.antt =====
-- The operations of the parameter classes of include/decof and of src/core/client_context.cpp, on what the
-- subscribers of the managed parameters have got.
use de_co_f.Base.{
  ℕ, ◌≡◌, ◌≢◌, inl, inr, refl, sym, subst, ap, ◌∙◌, true, false, Option, none, some, List, [], ◌∷◌,
  ◌++◌, arith, ◌==◌, if◌then◌else◌, Bool-cases,
}
use de_co_f.Except.{Except, ok, err, fault, Void}
use de_co_f.Types.{Value}
use de_co_f.Tree.{
  Kind, plain_object, node, object_dictionary, event, managed_readonly_parameter,
  managed_readwrite_parameter, external_readonly_parameter, external_readwrite_parameter,
  writeonly_parameter, Store, mem,
}
use de_co_f.Parameters.Monad.{Action, pure, gets, modify, on_error, after, ◌>>=◌, ◌>>◌}
use de_co_f.Parameters.Monad.Keeps.{Keeps, bind-Keeps, undo-Keeps, if-Keeps}
use de_co_f.Parameters.Deliveries.{put}
use de_co_f.Parameters.Targets.{by_news, remember, getter}
use de_co_f.Parameters.Current.{is_managed, W, Current, Distinct, Others, split, emit-Current}
use de_co_f.Parameters.Subscriptions.{connect, disconnect, connect_and_emit}
use de_co_f.Parameters.{
  Application, is_news, tick, update, remove_one, emit, value, set_managed, set_external, write,
  set_readonly, notify, tick_all, ask, lift,
}

abbrev IsAny : (ℕ → List ℕ) → Type 0
IsAny t = Unit

update-other : {B : Type 0} (f : ℕ → B) (a b : ℕ) (v : B) → b ≢ a → update f a v b ≡ f b
update-other f a b v ne = elim (Bool-cases (a == b)) [
  | inl e ↦ absurd (ground (arith, ne))
  | inr e ↦ rw e refl
]

update-same : {B : Type 0} (f : ℕ → B) (a : ℕ) (v : B) → update f a v a ≡ v
update-same f a v = ground arith

mem-remove_one : (c x : ℕ) (xs : List ℕ) → mem c (remove_one x xs) ≡ true → mem c xs ≡ true
mem-remove_one c x [] h = h
mem-remove_one c x (y ∷ ys) h = elim (Bool-cases (y == x)) [
  | inl e ↦ let h' = rw e at h in ground arith
  | inr e ↦ let h' = rw e at h in ground (arith, mem-remove_one c x ys)
]

pub false-ne_true : false ≢ true
false-ne_true e = cc

module _ {V D : Type 0} (app : Application V D) (fuel : ℕ) (tree : Store)
    (d : Distinct app fuel tree) where
  abbrev IsCurrent : W app fuel tree → Type 0
  IsCurrent = Current app fuel tree

  abbrev pub Safe : {B : Type 0} → Action (W app fuel tree) B → Type 0
  Safe m = Keeps IsCurrent m

  ask-Safe : {B : Type 0} (f : Option ℕ → D → D × Except B) → Safe (ask app fuel tree put f)
  ask-Safe f context w k = k

  emit-Safe : (a : ℕ) (v : V) → is_managed (tree a).kind ≡ false → Safe (emit app fuel tree put a v)
  emit-Safe a v u context w k =
      emit-Current app fuel tree a v context w d (λ m. absurd (false-ne_true (sym u ∙ m)))
        (λ b ne. k b)

  store_then_emit :
      (a : ℕ) (v : V)
      → Safe (
          modify (λ (w : W app fuel tree). record w { values = update w.values a v })
          >> emit app fuel tree put a v)
  store_then_emit a v context w k =
      let w1 : W app fuel tree = record w { values = update w.values a v } in
      emit-Current app fuel tree a v context w1 d (λ m. update-same w.values a v)
        (λ b ne c uri g m i n e.
          k b c uri g m i n (ap (app.to_generic b) (sym (update-other w.values a b v ne)) ∙ e))

  abbrev store : ℕ → V → Action (W app fuel tree) Void
  store a v = modify (λ w. record w { values = update w.values a v })

  checked :
      (a : ℕ) (v : V) (context : Option ℕ) (w : W app fuel tree) (r : Except Void)
      → IsCurrent w
      → IsCurrent
          (after
            (λ _. emit app fuel tree put a v)
            context
            (after (λ _. store a v) context w r).0
            (after (λ _. store a v) context w r).1).0
  checked a v context w (ok x) k = store_then_emit a v context w k
  checked a v context w (err e) k = k
  checked a v context w Except.out_of_range k = k
  checked a v context w Except.other_exception k = k
  checked a v context w fault k = k

  pub set_managed-Safe : (a : ℕ) (v : V) → Safe (set_managed app fuel tree put a v)
  unfolding set_managed
  set_managed-Safe a v context w k =
      if-Keeps IsCurrent (app.equal a (w.values a) v) (pure tt)
        (ask app fuel tree put (app.verify a v) >> store a v >> emit app fuel tree put a v)
        (λ context w k. k)
        (λ context w k.
          checked a v context (record w { app = (app.verify a v context w.app).0 })
            (app.verify a v context w.app).1 k)
        context w k

  pub set_readonly-Safe : (a : ℕ) (v : V) → Safe (set_readonly app fuel tree put a v)
  unfolding set_readonly
  set_readonly-Safe a v context w k =
      if-Keeps IsCurrent (app.equal a (w.values a) v) (pure tt)
        (store a v >> emit app fuel tree put a v) (λ context w k. k) (store_then_emit a v) context w
        k

  set_external-Safe :
      (a : ℕ) (v : V) → is_managed (tree a).kind ≡ false → Safe (set_external app fuel tree put a v)
  unfolding set_external
  set_external-Safe a v u =
      bind-Keeps IsCurrent (ask app fuel tree put (app.set_external_value a v))
        (λ b. if b then emit app fuel tree put a v else pure tt) (λ context w k. k)
        (λ b.
          if-Keeps IsCurrent b (emit app fuel tree put a v) (pure tt) (emit-Safe a v u)
            (λ context w k. k))

  converted :
      (a : ℕ) (g : Value) (f : V → Action (W app fuel tree) Void)
      → ((v : V) → Safe (f v))
      → Safe (lift app fuel tree put (app.from_generic a g) >>= f)
  converted a g f h =
      bind-Keeps IsCurrent (lift app fuel tree put (app.from_generic a g)) f (λ context w k. k) h

  pub write-Safe :
      (q : Kind) (a : ℕ) (g : Value) → (tree a).kind ≡ q → Safe (write app fuel tree put q a g)
  unfolding write
  write-Safe managed_readwrite_parameter a g e =
      converted a g (set_managed app fuel tree put a) (set_managed-Safe a)
  write-Safe external_readwrite_parameter a g e =
      converted a g (set_external app fuel tree put a)
        (λ v. set_external-Safe a v (ap is_managed e))
  write-Safe writeonly_parameter a g e =
      converted a g (λ v. ask app fuel tree put (app.set_value a v))
        (λ v. ask-Safe (app.set_value a v))
  write-Safe plain_object a g e = λ context w k. k
  write-Safe node a g e = λ context w k. k
  write-Safe object_dictionary a g e = λ context w k. k
  write-Safe event a g e = λ context w k. k
  write-Safe managed_readonly_parameter a g e = λ context w k. k
  write-Safe external_readonly_parameter a g e = λ context w k. k

  pub notify-Safe : (a : ℕ) → is_managed (tree a).kind ≡ false → Safe (notify app fuel tree put a)
  unfolding notify
  notify-Safe a u =
      bind-Keeps IsCurrent (ask app fuel tree put (app.external_value a))
        (λ v. gets (λ w. w.last a) >>= by_news app fuel tree put IsAny a v) (λ context w k. k)
        (λ v.
          bind-Keeps IsCurrent (gets (λ w. w.last a)) (by_news app fuel tree put IsAny a v)
            (λ context w k. k)
            (λ l.
              if-Keeps IsCurrent (is_news app fuel tree put a l v)
                (emit app fuel tree put a v >> remember app fuel tree put IsAny a v) (pure tt)
                (bind-Keeps IsCurrent (emit app fuel tree put a v)
                  (λ _. remember app fuel tree put IsAny a v) (emit-Safe a v u)
                  (λ _ context w k. k))
                (λ context w k. k)))

  tick_all-Safe :
      (as_ : List ℕ)
      → ((a : ℕ) → mem a as_ ≡ true → is_managed (tree a).kind ≡ false)
      → Safe (tick_all app fuel tree put as_)
  unfolding tick_all
  tick_all-Safe [] h = λ context w k. k
  tick_all-Safe (a ∷ as_) h =
      bind-Keeps IsCurrent (notify app fuel tree put a) (λ _. tick_all app fuel tree put as_)
        (notify-Safe a (h a (ground arith))) (λ _. tick_all-Safe as_ (λ b m. h b (ground arith)))

  pub tick-Current :
      (t : ℕ) (context : Option ℕ) (w : W app fuel tree)
      → ((a : ℕ) → mem a (w.tick_targets t) ≡ true → is_managed (tree a).kind ≡ false)
      → IsCurrent w
      → IsCurrent (tick app fuel tree put t context w).0
  unfolding tick
  tick-Current t context w h k = tick_all-Safe (w.tick_targets t) h context w k

  unmanaged :
      (a : ℕ) (w : W app fuel tree)
      → is_managed (tree a).kind ≡ false
      → Others app fuel tree a w
      → IsCurrent w
  unmanaged a w u k = split app fuel tree a w (λ c uri g m. absurd (false-ne_true (sym u ∙ m))) k

  pub disconnect-Safe : (o : Option ℕ) (c : ℕ) → Safe (disconnect app fuel tree put o c)
  disconnect-Safe none c context w k = k
  disconnect-Safe (some a) c context w k =
      split app fuel tree a (disconnect app fuel tree put (some a) c context w).0
        (λ e uri g m i n f.
          k a e uri g m
            (mem-remove_one e c (w.slots a)
              (subst (λ xs. mem e xs ≡ true) (update-same w.slots a (remove_one c (w.slots a))) i))
            n f)
        (λ b ne e uri g m i n f.
          k b e uri g m
            (subst (λ xs. mem e xs ≡ true) (update-other w.slots a b (remove_one c (w.slots a)) ne)
              i)
            n f)

  abbrev connected : ℕ → ℕ → W app fuel tree → W app fuel tree
  connected a c w = record w { slots = update w.slots a (w.slots a ++ c ∷ []) }

  connected-Others :
      (a c : ℕ) (w : W app fuel tree) → IsCurrent w → Others app fuel tree a (connected a c w)
  connected-Others a c w k b ne e uri g m i n f =
      k b e uri g m
        (subst (λ xs. mem e xs ≡ true) (update-other w.slots a b (w.slots a ++ c ∷ []) ne) i) n f

  -- The getter of a parameter to which a client has just been connected.
  getter-Current :
      (q : Kind) (a : ℕ) (context : Option ℕ) (w : W app fuel tree)
      → (tree a).kind ≡ q
      → Others app fuel tree a w
      → IsCurrent (getter app fuel tree put IsAny q a context w).0
  unfolding value
  getter-Current managed_readonly_parameter a context w e k =
      emit-Current app fuel tree a (w.values a) context w d (λ m. refl) k
  getter-Current managed_readwrite_parameter a context w e k =
      emit-Current app fuel tree a (w.values a) context w d (λ m. refl) k
  getter-Current plain_object a context w e k = unmanaged a w (ap is_managed e) k
  getter-Current node a context w e k = unmanaged a w (ap is_managed e) k
  getter-Current object_dictionary a context w e k = unmanaged a w (ap is_managed e) k
  getter-Current event a context w e k = unmanaged a w (ap is_managed e) k
  getter-Current writeonly_parameter a context w e k = unmanaged a w (ap is_managed e) k
  getter-Current external_readonly_parameter a context w e k =
      bind-Keeps IsCurrent (value app fuel tree put external_readonly_parameter a)
        (emit app fuel tree put a) (λ context w k. k) (λ v. emit-Safe a v (ap is_managed e)) context
        w (unmanaged a w (ap is_managed e) k)
  getter-Current external_readwrite_parameter a context w e k =
      bind-Keeps IsCurrent (value app fuel tree put external_readwrite_parameter a)
        (emit app fuel tree put a) (λ context w k. k) (λ v. emit-Safe a v (ap is_managed e)) context
        w (unmanaged a w (ap is_managed e) k)

  pub connect_and_emit-Safe :
      (q : Kind) (a c : ℕ) → (tree a).kind ≡ q → Safe (connect_and_emit app fuel tree put q a c)
  unfolding connect_and_emit
  connect_and_emit-Safe q a c e =
      bind-Keeps IsCurrent
        (connect app fuel tree put a c
          >> on_error (getter app fuel tree put IsAny q a)
              (disconnect app fuel tree put (some a) c))
        (λ _. pure (some a))
        (λ context w k.
          let w1 = connected a c w in
          undo-Keeps IsCurrent (disconnect app fuel tree put (some a) c)
            (disconnect-Safe (some a) c) context (getter app fuel tree put IsAny q a context w1).0
            (getter app fuel tree put IsAny q a context w1).1
            (getter-Current q a context w1 e (connected-Others a c w k)))
        (λ _ context w k. k)
