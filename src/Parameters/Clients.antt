-- ===== src/Parameters/Clients.antt =====
-- `observe` and `unobserve` of src/core/client_context.cpp, between all other calls of clients and of the
-- server.
use de_co_f.Base.{
  [], ℕ, ◌≡◌, inl, inr, refl, sym, ap, ◌∙◌, true, false, Option, none, some, ◌∷◌, Bytes,
  Option-cases,
}
use de_co_f.Except.{Except, ok, err, fault, Void}
use de_co_f.Types.{Value}
use de_co_f.Types.Errors.{invalid_parameter_error}
use de_co_f.Tree.{
  Kind, plain_object, node, object_dictionary, event, managed_readonly_parameter,
  managed_readwrite_parameter, external_readonly_parameter, external_readwrite_parameter,
  writeonly_parameter, Store,
}
use de_co_f.Tree.Lookup.{fq_name}
use de_co_f.Access.{is_readable}
use de_co_f.Parameters.Monad.{Action, pure, raise, modify, after, ◌>>=◌, ◌>>◌}
use de_co_f.Parameters.Monad.Keeps.{bind-Keeps, if-Keeps}
use de_co_f.Parameters.Deliveries.{put}
use de_co_f.Parameters.Current.{is_managed, W, Distinct, put-Current}
use de_co_f.Parameters.Reads.{read-Keeps}
use de_co_f.Parameters.Operations.{false-ne_true, disconnect-Safe}
use de_co_f.Parameters.Subscribers.{Consistent, Ready, observe_by-Ready, unobserve_by-Ready}
use de_co_f.Parameters.Subscriptions.{
  close, disconnect_all, observe_by, unobserve_by, subscribe, unsubscribe, disconnect,
  set_observables,
}
use de_co_f.Parameters.{Application, Observables, is_observable, find, erase, read}

module _ {V D : Type 0} (app : Application V D) (fuel : ℕ) (tree : Store)
    (n : Distinct app fuel tree) where
  abbrev IsConsistent : W app fuel tree → Type 0
  IsConsistent = Consistent app fuel tree

  abbrev deliver_one : ℕ → Bytes → Value → Action (W app fuel tree) Void
  deliver_one c uri v = modify (λ w. record w { sessions = put c uri v w.sessions })

  -- A subscribed client gets the value once more.
  delivered :
      (a c : ℕ) (uri : Bytes) (context : Option ℕ) (w : W app fuel tree) (r : Except Value)
      → fq_name fuel a tree ≡ some uri
      → (is_managed (tree a).kind ≡ true → app.to_generic a (w.values a) ≡ r)
      → IsConsistent w
      → IsConsistent (after (deliver_one c uri) context w r).0
  delivered a c uri context w (ok g) f h i = record {
    current = put-Current app fuel tree a c uri g w n f h i.current;
    targets = i.targets;
  }
  delivered a c uri context w (err e) f h i = i
  delivered a c uri context w Except.out_of_range f h i = i
  delivered a c uri context w Except.other_exception f h i = i
  delivered a c uri context w fault f h i = i

  deliver-unmanaged :
      (q : Kind) (a c : ℕ) (uri : Bytes)
      → fq_name fuel a tree ≡ some uri
      → is_managed (tree a).kind ≡ false
      → Ready app fuel tree (read app fuel tree put q a >>= deliver_one c uri)
  deliver-unmanaged q a c uri f u =
      bind-Keeps IsConsistent (read app fuel tree put q a) (deliver_one c uri)
        (read-Keeps app fuel tree put IsConsistent
          (λ w x i. record { current = i.current; targets = i.targets }) q a)
        (λ v context w i.
          delivered a c uri context w (ok v) f (λ m. absurd (false-ne_true (sym u ∙ m))) i)

  deliver-Ready :
      (q : Kind) (a c : ℕ) (uri : Bytes)
      → (tree a).kind ≡ q
      → fq_name fuel a tree ≡ some uri
      → Ready app fuel tree (read app fuel tree put q a >>= deliver_one c uri)
  unfolding read
  deliver-Ready managed_readonly_parameter a c uri e f context w i =
      delivered a c uri context w (app.to_generic a (w.values a)) f (λ m. refl) i
  deliver-Ready managed_readwrite_parameter a c uri e f context w i =
      delivered a c uri context w (app.to_generic a (w.values a)) f (λ m. refl) i
  deliver-Ready plain_object a c uri e f context w i =
      deliver-unmanaged plain_object a c uri f (ap is_managed e) context w i
  deliver-Ready node a c uri e f context w i =
      deliver-unmanaged node a c uri f (ap is_managed e) context w i
  deliver-Ready object_dictionary a c uri e f context w i =
      deliver-unmanaged object_dictionary a c uri f (ap is_managed e) context w i
  deliver-Ready event a c uri e f context w i =
      deliver-unmanaged event a c uri f (ap is_managed e) context w i
  deliver-Ready writeonly_parameter a c uri e f context w i =
      deliver-unmanaged writeonly_parameter a c uri f (ap is_managed e) context w i
  deliver-Ready external_readonly_parameter a c uri e f context w i =
      deliver-unmanaged external_readonly_parameter a c uri f (ap is_managed e) context w i
  deliver-Ready external_readwrite_parameter a c uri e f context w i =
      deliver-unmanaged external_readwrite_parameter a c uri f (ap is_managed e) context w i

  set_observables-Ready :
      (c : ℕ) (f : Observables → Observables)
      → Ready app fuel tree (set_observables app fuel tree put c f)
  set_observables-Ready c f context w i = record { current = i.current; targets = i.targets }

  pub subscribe-Ready :
      (c a : ℕ) → Ready app fuel tree (subscribe app fuel tree put c (tree a).kind a)
  unfolding subscribe find
  subscribe-Ready c a context w i = elim (Option-cases (fq_name fuel a tree)) [
    | inl e ↦ rw e i
    | inr (uri, e) ↦ elim (Option-cases (find uri (w.observables c))) [
      | inl f ↦
          rw (e, f)
            (bind-Keeps IsConsistent (observe_by app fuel tree put (tree a).kind a c)
              (λ o. set_observables app fuel tree put c (λ m. (uri, o) ∷ m))
              (observe_by-Ready app fuel tree n (tree a).kind a c refl)
              (λ o. set_observables-Ready c (λ m. (uri, o) ∷ m)) context w i)
      | inr (o, f) ↦
          rw (e, f)
            (if-Keeps IsConsistent (is_readable (tree a).kind)
              (read app fuel tree put (tree a).kind a >>= deliver_one c uri) (pure tt)
              (deliver-Ready (tree a).kind a c uri refl e) (λ context w i. i) context w i)
    ]
  ]

  disconnect-Ready : (o : Option ℕ) (c : ℕ) → Ready app fuel tree (disconnect app fuel tree put o c)
  disconnect-Ready none c context w i = i
  disconnect-Ready (some a) c context w i = record {
    current = disconnect-Safe app fuel tree n (some a) c context w i.current;
    targets = i.targets;
  }

  pub unsubscribe-Ready :
      (c a : ℕ) → Ready app fuel tree (unsubscribe app fuel tree put c (tree a).kind a)
  unfolding unsubscribe find
  unsubscribe-Ready c a context w i = elim (Option-cases (fq_name fuel a tree)) [
    | inl e ↦ rw e i
    | inr (uri, e) ↦ elim (Option-cases (find uri (w.observables c))) [
      | inl f ↦ rw (e, f) i
      | inr (o, f) ↦
          rw (e, f)
            (if-Keeps IsConsistent (is_observable (tree a).kind)
              (disconnect app fuel tree put o c
                >> set_observables app fuel tree put c (erase uri)
                >> unobserve_by app fuel tree put (tree a).kind a)
              (raise (err invalid_parameter_error))
              (bind-Keeps IsConsistent
                (disconnect app fuel tree put o c
                  >> set_observables app fuel tree put c (erase uri))
                (λ _. unobserve_by app fuel tree put (tree a).kind a)
                (bind-Keeps IsConsistent (disconnect app fuel tree put o c)
                  (λ _. set_observables app fuel tree put c (erase uri)) (disconnect-Ready o c)
                  (λ _. set_observables-Ready c (erase uri)))
                (λ _. unobserve_by-Ready app fuel tree n (tree a).kind a))
              (λ context w i. i) context w i)
    ]
  ]

  disconnect_all-Ready :
      (m : Observables) (c : ℕ) → Ready app fuel tree (disconnect_all app fuel tree put m c)
  unfolding disconnect_all
  disconnect_all-Ready [] c = λ context w i. i
  disconnect_all-Ready ((uri, o) ∷ m) c =
      bind-Keeps IsConsistent (disconnect app fuel tree put o c)
        (λ _. disconnect_all app fuel tree put m c) (disconnect-Ready o c)
        (λ _. disconnect_all-Ready m c)

  pub close-Ready : (c : ℕ) → Ready app fuel tree (close app fuel tree put c)
  unfolding close
  close-Ready c context w i =
      bind-Keeps IsConsistent (disconnect_all app fuel tree put (w.observables c) c)
        (λ _. set_observables app fuel tree put c (λ _. []))
        (disconnect_all-Ready (w.observables c) c) (λ _. set_observables-Ready c (λ _. [])) context
        w i
