-- ===== src/Parameters/Subscribers.antt =====
-- The subscriptions of src/core/client_context.cpp, on what the subscribers of the managed parameters have
-- got and on the objects that are ticked.
use de_co_f.Base.{
  ℕ, ◌+◌, ◌%◌, ◌^◌, ◌≡◌, ◌⊎◌, inl, inr, subst, ap, true, false, Option, none, some, List, [], ◌∷◌,
  ◌++◌, arith, ◌==◌, if◌then◌else◌, Bool-cases,
}
use de_co_f.Except.{Void}
use de_co_f.Tree.{
  Kind, plain_object, node, object_dictionary, event, managed_readonly_parameter,
  managed_readwrite_parameter, external_readonly_parameter, external_readwrite_parameter,
  writeonly_parameter, Store, mem, without,
}
use de_co_f.Scgi.Bencode.{pred_size}
use de_co_f.Parameters.Monad.{Action, pure, modify, ◌>>=◌, ◌>>◌}
use de_co_f.Parameters.Monad.Keeps.{Keeps, bind-Keeps, if-Keeps}
use de_co_f.Parameters.Deliveries.{put}
use de_co_f.Parameters.Current.{is_managed, W, Current, Distinct}
use de_co_f.Parameters.Targets.{connect_and_emit-Quiet}
use de_co_f.Parameters.Operations.{connect_and_emit-Safe}
use de_co_f.Parameters.Subscriptions.{
  observe_external, observe_by, unobserve_by, unregister_if, dictionary_of, connect_and_emit,
}
use de_co_f.Parameters.{Application, update}

module _ {V D : Type 0} (app : Application V D) (fuel : ℕ) (tree : Store) where
  -- Only parameters that are not managed are ticked.
  abbrev pub Targets : (ℕ → List ℕ) → Type 0
  Targets t = (d a : ℕ) → mem a (t d) ≡ true → is_managed (tree a).kind ≡ false

  pub record Consistent (w : W app fuel tree) : Type 0 where
    pub current : Current app fuel tree w
    pub targets : Targets w.tick_targets

  mem-append-one :
      (a b : ℕ) (xs : List ℕ) → mem a (xs ++ b ∷ []) ≡ true → (mem a xs ≡ true) ⊎ (b ≡ a)
  mem-append-one a b [] h = ground arith
  mem-append-one a b (x ∷ xs) h = ground (arith, mem-append-one a b xs)

  mem-without : (a b : ℕ) (xs : List ℕ) → mem a (without b xs) ≡ true → mem a xs ≡ true
  mem-without a b [] h = h
  mem-without a b (x ∷ xs) h = elim (Bool-cases (x == b)) [
    | inl e ↦ let h' = rw e at h in ground (arith, mem-without a b xs)
    | inr e ↦ let h' = rw e at h in ground (arith, mem-without a b xs)
  ]

  updated :
      (t : ℕ → List ℕ) (d : ℕ) (xs : List ℕ)
      → ((a : ℕ) → mem a xs ≡ true → is_managed (tree a).kind ≡ false)
      → Targets t
      → Targets (update t d xs)
  updated t d xs h k e a m = elim (Bool-cases (d == e)) [
    | inl s ↦ let m' = rw s at m in h a m'
    | inr n ↦ let m' = rw n at m in k e a m'
  ]

  registered :
      (t : ℕ → List ℕ) (d a : ℕ)
      → is_managed (tree a).kind ≡ false
      → Targets t
      → Targets (update t d (t d ++ a ∷ []))
  registered t d a u h =
      updated t d (t d ++ a ∷ [])
        (λ b m. elim (mem-append-one b a (t d) m) [
          | inl i ↦ h d b i
          | inr i ↦ subst (λ a. is_managed (tree a).kind ≡ false) i u
        ])
        h

  unregistered : (t : ℕ → List ℕ) (d a : ℕ) → Targets t → Targets (update t d (without a (t d)))
  unregistered t d a h = updated t d (without a (t d)) (λ b m. h d b (mem-without b a (t d) m)) h

  abbrev pub Ready : {B : Type 0} → Action (W app fuel tree) B → Type 0
  Ready m = Keeps Consistent m

  -- An action that keeps both parts.
  pub both :
      {B : Type 0} (m : Action (W app fuel tree) B)
      → Keeps (Current app fuel tree) m
      → Keeps (λ w. Targets w.tick_targets) m
      → Ready m
  both m h k context w i = record {
    current = h context w i.current;
    targets = k context w i.targets;
  }

  module _ (n : Distinct app fuel tree) where
    connect_and_emit-Ready :
        (q : Kind) (a c : ℕ) → (tree a).kind ≡ q → Ready (connect_and_emit app fuel tree put q a c)
    connect_and_emit-Ready q a c e =
        both (connect_and_emit app fuel tree put q a c)
          (connect_and_emit-Safe app fuel tree n q a c e)
          (connect_and_emit-Quiet app fuel tree put Targets q a c)

    abbrev begin : ℕ → ℕ → ℕ → Action (W app fuel tree) Void
    begin d a k =
        modify (λ w. record w { observations = update w.observations a ((k + 1) % 2 ^ 64) })
        >> (if k == 0
            then modify (λ w. record w {
              tick_targets = update w.tick_targets d (w.tick_targets d ++ a ∷ []);
            })
            else pure tt)

    begin-Ready : (d a k : ℕ) → is_managed (tree a).kind ≡ false → Ready (begin d a k)
    begin-Ready d a k u =
        bind-Keeps Consistent
          (modify (λ w. record w { observations = update w.observations a ((k + 1) % 2 ^ 64) }))
          (λ _.
            if k == 0
            then modify (λ w. record w {
              tick_targets = update w.tick_targets d (w.tick_targets d ++ a ∷ []);
            })
            else pure tt)
          (λ context w i. record { current = i.current; targets = i.targets })
          (λ _.
            if-Keeps Consistent (k == 0)
              (modify (λ w. record w {
                tick_targets = update w.tick_targets d (w.tick_targets d ++ a ∷ []);
              }))
              (pure tt)
              (λ context w i. record {
                current = i.current;
                targets = registered w.tick_targets d a u i.targets;
              })
              (λ context w i. i))

    observe_external-Ready :
        (o : Option ℕ) (a c : ℕ)
        → (tree a).kind ≡ external_readonly_parameter
        → Ready (observe_external app fuel tree put o a c)
    unfolding observe_external
    observe_external-Ready none a c e context w i = i
    observe_external-Ready (some d) a c e context w i =
        bind-Keeps Consistent (begin d a (w.observations a))
          (λ _. connect_and_emit app fuel tree put external_readonly_parameter a c)
          (begin-Ready d a (w.observations a) (ap is_managed e))
          (λ _. connect_and_emit-Ready external_readonly_parameter a c e) context w i

    pub observe_by-Ready :
        (q : Kind) (a c : ℕ) → (tree a).kind ≡ q → Ready (observe_by app fuel tree put q a c)
    unfolding observe_by
    observe_by-Ready external_readonly_parameter a c e =
        bind-Keeps Consistent (dictionary_of app fuel tree put a)
          (λ o. observe_external app fuel tree put o a c) (λ context w i. i)
          (λ o. observe_external-Ready o a c e)
    observe_by-Ready plain_object a c e = connect_and_emit-Ready plain_object a c e
    observe_by-Ready node a c e = connect_and_emit-Ready node a c e
    observe_by-Ready object_dictionary a c e = connect_and_emit-Ready object_dictionary a c e
    observe_by-Ready event a c e = connect_and_emit-Ready event a c e
    observe_by-Ready managed_readonly_parameter a c e =
        connect_and_emit-Ready managed_readonly_parameter a c e
    observe_by-Ready managed_readwrite_parameter a c e =
        connect_and_emit-Ready managed_readwrite_parameter a c e
    observe_by-Ready external_readwrite_parameter a c e =
        connect_and_emit-Ready external_readwrite_parameter a c e
    observe_by-Ready writeonly_parameter a c e = connect_and_emit-Ready writeonly_parameter a c e

    abbrev end_with : ℕ → ℕ → Action (W app fuel tree) Void
    end_with a k =
        if pred_size k == 0
        then (dictionary_of app fuel tree put a >>= λ o. unregister_if app fuel tree put o a)
        else pure tt

    unregister_if-Ready : (o : Option ℕ) (a : ℕ) → Ready (unregister_if app fuel tree put o a)
    unregister_if-Ready none a context w i = i
    unregister_if-Ready (some d) a context w i = record {
      current = i.current;
      targets = unregistered w.tick_targets d a i.targets;
    }

    end_with-Ready : (a k : ℕ) → Ready (end_with a k)
    end_with-Ready a k =
        if-Keeps Consistent (pred_size k == 0)
          (dictionary_of app fuel tree put a >>= λ o. unregister_if app fuel tree put o a) (pure tt)
          (bind-Keeps Consistent (dictionary_of app fuel tree put a)
            (λ o. unregister_if app fuel tree put o a) (λ context w i. i)
            (λ o. unregister_if-Ready o a))
          (λ context w i. i)

    pub unobserve_by-Ready : (q : Kind) (a : ℕ) → Ready (unobserve_by app fuel tree put q a)
    unfolding unobserve_by
    unobserve_by-Ready external_readonly_parameter a context w i =
        bind-Keeps Consistent
          (modify (λ w. record w {
            observations = update w.observations a (pred_size (w.observations a));
          }))
          (λ _. end_with a (w.observations a))
          (λ context w i. record { current = i.current; targets = i.targets })
          (λ _. end_with-Ready a (w.observations a)) context w i
    unobserve_by-Ready plain_object a context w i = i
    unobserve_by-Ready node a context w i = i
    unobserve_by-Ready object_dictionary a context w i = i
    unobserve_by-Ready event a context w i = i
    unobserve_by-Ready managed_readonly_parameter a context w i = i
    unobserve_by-Ready managed_readwrite_parameter a context w i = i
    unobserve_by-Ready external_readwrite_parameter a context w i = i
    unobserve_by-Ready writeonly_parameter a context w i = i
