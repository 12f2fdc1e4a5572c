-- ===== src/Parameters/Subscriptions.antt =====
-- `client_context` of src/core/client_context.cpp, and how it observes the parameters of
-- include/decof/observable_parameter.h and include/decof/external_readonly_parameter.h.
use de_co_f.Base.{
  ℕ, ◌+◌, ◌%◌, ◌^◌, Option, none, some, [], ◌∷◌, ◌++◌, ◌==◌, ltb, if◌then◌else◌, Bytes,
}
use de_co_f.Types.{Value}
use de_co_f.Types.Errors.{access_denied_error, invalid_parameter_error, not_subscribed_error}
use de_co_f.Except.{Except, ok, err, fault, Void}
use de_co_f.Scgi.Bencode.{pred_size}
use de_co_f.Tree.{Kind, external_readonly_parameter, Store, without}
use de_co_f.Access.{Client, effective_userlevel, is_readable, State, guarded, call}
use de_co_f.Parameters.Monad.{Action, pure, raise, gets, modify, on_error, ◌>>=◌, ◌>>◌}
use de_co_f.Parameters.{
  Application, Observables, find, erase, World, update, remove_one, is_observable,
  get_object_dictionary, lift, name_of, emit, value, read,
}

module _ {V D S : Type 0} (app : Application V D) (fuel : ℕ) (tree : Store)
    (deliver : ℕ → Bytes → Value → S → S) where
  -- `signal_.connect`, and the end of a `scoped_connection`.
  abbrev pub connect : ℕ → ℕ → Action (World V D S) Void
  connect a c = modify (λ w. record w { slots = update w.slots a (w.slots a ++ c ∷ []) })

  abbrev pub disconnect : Option ℕ → ℕ → Action (World V D S) Void
  disconnect none c = pure tt
  disconnect (some a) c =
      modify (λ w. record w { slots = update w.slots a (remove_one c (w.slots a)) })

  -- `observable_parameter::observe`: an exception of the getter ends the new connection.
  unfoldable pub connect_and_emit : Kind → ℕ → ℕ → Action (World V D S) (Option ℕ)
  unfolding emit value
  connect_and_emit k a c =
      connect a c
      >> on_error (do v ← value app fuel tree deliver k a; emit app fuel tree deliver a v)
          (disconnect (some a) c)
      >> pure (some a)

  abbrev pub dictionary_of : ℕ → Action (World V D S) (Option ℕ)
  dictionary_of a =
      lift app fuel tree deliver
        (elim (get_object_dictionary fuel a tree) [ none ↦ fault | some d ↦ ok d ])

  abbrev register_for_tick : ℕ → ℕ → Action (World V D S) Void
  register_for_tick d a =
      modify (λ w. record w { tick_targets = update w.tick_targets d (w.tick_targets d ++ a ∷ []) })

  abbrev unregister_for_tick : ℕ → ℕ → Action (World V D S) Void
  unregister_for_tick d a =
      modify
        (λ w. record w { tick_targets = update w.tick_targets d (without a (w.tick_targets d)) })

  abbrev set_observations : ℕ → ℕ → Action (World V D S) Void
  set_observations a n = modify (λ w. record w { observations = update w.observations a n })

  -- `external_readonly_parameter::observe`; without a dictionary the connection is empty.
  unfoldable pub observe_external : Option ℕ → ℕ → ℕ → Action (World V D S) (Option ℕ)
  unfolding connect_and_emit
  observe_external none a c = pure none
  observe_external (some d) a c = do
    n ← gets (λ w. w.observations a)
    set_observations a ((n + 1) % 2 ^ 64)
    if n == 0 then register_for_tick d a else pure tt
    connect_and_emit external_readonly_parameter a c

  -- The virtual `observe`.
  unfoldable pub observe_by : Kind → ℕ → ℕ → Action (World V D S) (Option ℕ)
  unfolding observe_external connect_and_emit
  observe_by external_readonly_parameter a c = do d ← dictionary_of a; observe_external d a c
  observe_by k a c = connect_and_emit k a c

  abbrev pub unregister_if : Option ℕ → ℕ → Action (World V D S) Void
  unregister_if none a = pure tt
  unregister_if (some d) a = unregister_for_tick d a

  -- The virtual `unobserve`.
  unfoldable pub unobserve_by : Kind → ℕ → Action (World V D S) Void
  unobserve_by external_readonly_parameter a = do
    n ← gets (λ w. w.observations a)
    set_observations a (pred_size n)
    if pred_size n == 0 then (do d ← dictionary_of a; unregister_if d a) else pure tt
  unobserve_by k a = pure tt

  abbrev pub set_observables : ℕ → (Observables → Observables) → Action (World V D S) Void
  set_observables c f =
      modify (λ w. record w { observables = update w.observables c (f (w.observables c)) })

  -- `client_context::observe` behind its two checks.
  unfoldable pub subscribe : ℕ → Kind → ℕ → Action (World V D S) Void
  unfolding observe_by read
  subscribe c k a = do
    uri ← name_of app fuel tree deliver a
    m ← gets (λ w. w.observables c)
    elim (find uri m) [
      | none ↦ (do connection ← observe_by k a c; set_observables c (λ o. (uri, connection) ∷ o))
      | some _ ↦
          if is_readable k
          then (do
            v ← read app fuel tree deliver k a
            modify (λ w. record w { sessions = deliver c uri v w.sessions }))
          else pure tt
    ]

  -- `client_context::unobserve` behind the null pointer.
  unfoldable pub unsubscribe : ℕ → Kind → ℕ → Action (World V D S) Void
  unfolding unobserve_by
  unsubscribe c k a = do
    uri ← name_of app fuel tree deliver a
    m ← gets (λ w. w.observables c)
    elim (find uri m) [
      | none ↦ raise (err not_subscribed_error)
      | some connection ↦
          if is_observable k
          then (disconnect connection c >> set_observables c (erase uri) >> unobserve_by k a)
          else raise (err invalid_parameter_error)
    ]

  abbrev observe_checked :
      Client → Option ℕ → State (World V D S) → State (World V D S) × Except Void
  observe_checked c none s = (s, err invalid_parameter_error)
  observe_checked c (some a) s =
      if is_observable (tree a).kind
      then (if ltb (tree a).readlevel (effective_userlevel c)
          then (s, err access_denied_error)
          else call (subscribe c.address (tree a).kind a) s)
      else (s, err invalid_parameter_error)

  -- `client_context::observe`.
  unfoldable pub observe :
      Client → Option ℕ → State (World V D S) → State (World V D S) × Except Void
  unfolding subscribe
  observe c obj = guarded c (observe_checked c obj)

  -- `client_context::unobserve`: a null pointer is dereferenced.
  abbrev unobserve_at : Client → Option ℕ → State (World V D S) → State (World V D S) × Except Void
  unobserve_at c none s = (s, fault)
  unobserve_at c (some a) s = call (unsubscribe c.address (tree a).kind a) s

  unfoldable pub unobserve :
      Client → Option ℕ → State (World V D S) → State (World V D S) × Except Void
  unfolding unsubscribe
  unobserve c obj = guarded c (unobserve_at c obj)

  -- `~client_context`: each `scoped_connection` of the map ends; `unobserve` is not called.
  unfoldable pub disconnect_all : Observables → ℕ → Action (World V D S) Void
  disconnect_all [] c = pure tt
  disconnect_all ((uri, connection) ∷ m) c = disconnect connection c >> disconnect_all m c

  unfoldable pub close : ℕ → Action (World V D S) Void
  unfolding disconnect_all
  close c = do m ← gets (λ w. w.observables c); disconnect_all m c; set_observables c (λ _. [])
