-- ===== src/Parameters/Calls.antt =====
-- The calls of clients (src/core/basic_client_context.cpp, src/core/client_context.cpp) and of the server
-- on the parameters of include/decof, in any order.
use de_co_f.Base.{
  ℕ, ◌≡◌, inl, inr, refl, sym, subst, ap, Option, none, some, List, [], ◌∷◌, ◌==◌, Bool-cases, All,
  ltb,
}
use de_co_f.Types.{Value}
use de_co_f.Types.Userlevel.{readonly}
use de_co_f.Tree.{managed_readonly_parameter, external_readonly_parameter, Store}
use de_co_f.Access.{Client, State, effective_userlevel, set_parameter, get_parameter, signal_event}
use de_co_f.Access.Authorization.{set_parameter_lem, get_parameter_lem, signal_event_lem}
use de_co_f.Parameters.Monad.{Action}
use de_co_f.Parameters.Deliveries.{put}
use de_co_f.Parameters.Current.{is_managed, W, Distinct}
use de_co_f.Parameters.Reads.{read-Keeps}
use de_co_f.Parameters.Targets.{write-Quiet, set_readonly-Quiet, notify-Quiet, tick-Quiet}
use de_co_f.Parameters.Operations.{write-Safe, set_readonly-Safe, notify-Safe, tick-Current}
use de_co_f.Parameters.Subscribers.{Targets, Consistent, both}
use de_co_f.Parameters.Clients.{close-Ready, subscribe-Ready, unsubscribe-Ready}
use de_co_f.Parameters.Subscriptions.{close, observe, unobserve}
use de_co_f.Parameters.{write, Application, is_observable, set_readonly, parameters, notify, tick}

module _ {V D : Type 0} (app : Application V D) (fuel : ℕ) (tree : Store)
    (n : Distinct app fuel tree) where
  abbrev IsConsistent : W app fuel tree → Type 0
  IsConsistent = Consistent app fuel tree

  -- The calls of clients on the objects, and those of the server: the setter of a
  -- managed_readonly_parameter, `value_changed` of an external_readonly_parameter, `tick`, and the end of a
  -- client.
  pub data Call : Type 0 where
    set : Client → Option ℕ → Value → Call
    get signal observed unobserved : Client → Option ℕ → Call
    assign : ℕ → V → Call
    changed tick_dictionary closed : ℕ → Call

  -- The static types of the server's calls.
  abbrev pub IsTyped : Call → Type 0
  IsTyped (assign a v) = (tree a).kind ≡ managed_readonly_parameter
  IsTyped (changed a) = (tree a).kind ≡ external_readonly_parameter
  IsTyped _ = Unit

  abbrev by_server :
      {B : Type 0} → Action (W app fuel tree) B → State (W app fuel tree) → State (W app fuel tree)
  by_server m s = record s { device = (m s.context s.device).0 }

  abbrev pub serve : Call → State (W app fuel tree) → State (W app fuel tree)
  serve (set c o v) s = (set_parameter (parameters app fuel tree put) c tree o v s).0
  serve (get c o) s = (get_parameter (parameters app fuel tree put) c tree o s).0
  serve (signal c o) s = (signal_event (parameters app fuel tree put) c tree o s).0
  serve (observed c o) s = (observe app fuel tree put c o s).0
  serve (unobserved c o) s = (unobserve app fuel tree put c o s).0
  serve (assign a v) s = by_server (set_readonly app fuel tree put a v) s
  serve (changed a) s = by_server (notify app fuel tree put a) s
  serve (tick_dictionary d) s = by_server (tick app fuel tree put d) s
  serve (closed c) s = by_server (close app fuel tree put c) s

  unfoldable pub serve_all : List Call → State (W app fuel tree) → State (W app fuel tree)
  serve_all [] s = s
  serve_all (x ∷ xs) s = serve_all xs (serve x s)

  set-Consistent :
      (c : Client) (o : Option ℕ) (v : Value) (s : State (W app fuel tree))
      → IsConsistent s.device
      → IsConsistent (set_parameter (parameters app fuel tree put) c tree o v s).0.device
  unfolding set_parameter parameters
  set-Consistent c none v s i = elim (Bool-cases (c.userlevel == readonly)) [
    | inl e ↦ rw e i
    | inr e ↦ rw e i
  ]
  set-Consistent c (some a) v s i =
      elim (set_parameter_lem (parameters app fuel tree put) c tree a v s) [
        | inl (_, p) ↦ subst IsConsistent (sym p.1) (
            both app fuel tree (write app fuel tree put (tree a).kind a v)
              (write-Safe app fuel tree n (tree a).kind a v refl)
              (write-Quiet app fuel tree put (Targets app fuel tree) (tree a).kind a v)
              (some c.address) s.device i)
        | inr (_, p) ↦ subst IsConsistent (sym p.1) i
      ]

  get-Consistent :
      (c : Client) (o : Option ℕ) (s : State (W app fuel tree))
      → IsConsistent s.device
      → IsConsistent (get_parameter (parameters app fuel tree put) c tree o s).0.device
  unfolding get_parameter parameters
  get-Consistent c none s i = i
  get-Consistent c (some a) s i =
      elim (get_parameter_lem (parameters app fuel tree put) c tree a s) [
        | inl (_, p) ↦ subst IsConsistent (sym p.1) (
            read-Keeps app fuel tree put IsConsistent
              (λ w x i. record { current = i.current; targets = i.targets }) (tree a).kind a
              (some c.address) s.device i)
        | inr (_, p) ↦ subst IsConsistent (sym p.1) i
      ]

  signal-Consistent :
      (c : Client) (o : Option ℕ) (s : State (W app fuel tree))
      → IsConsistent s.device
      → IsConsistent (signal_event (parameters app fuel tree put) c tree o s).0.device
  unfolding signal_event parameters
  signal-Consistent c none s i = elim (Bool-cases (c.userlevel == readonly)) [
    | inl e ↦ rw e i
    | inr e ↦ rw e i
  ]
  signal-Consistent c (some a) s i =
      elim (signal_event_lem (parameters app fuel tree put) c tree a s) [
        | inl (_, p) ↦
            subst IsConsistent (sym p.1) (record { current = i.current; targets = i.targets })
        | inr (_, p) ↦ subst IsConsistent (sym p.1) i
      ]

  observe-Consistent :
      (c : Client) (o : Option ℕ) (s : State (W app fuel tree))
      → IsConsistent s.device
      → IsConsistent (observe app fuel tree put c o s).0.device
  unfolding observe
  observe-Consistent c none s i = i
  observe-Consistent c (some a) s i = elim (Bool-cases (is_observable (tree a).kind)) [
    | inr e ↦ rw e i
    | inl e ↦ elim (Bool-cases (ltb (tree a).readlevel (effective_userlevel c))) [
      | inl l ↦ rw (e, l) i
      | inr l ↦ rw (e, l) (subscribe-Ready app fuel tree n c.address a (some c.address) s.device i)
    ]
  ]

  unobserve-Consistent :
      (c : Client) (o : Option ℕ) (s : State (W app fuel tree))
      → IsConsistent s.device
      → IsConsistent (unobserve app fuel tree put c o s).0.device
  unfolding unobserve
  unobserve-Consistent c none s i = i
  unobserve-Consistent c (some a) s i =
      unsubscribe-Ready app fuel tree n c.address a (some c.address) s.device i

  serve-Consistent :
      (x : Call) (s : State (W app fuel tree))
      → IsTyped x
      → IsConsistent s.device
      → IsConsistent (serve x s).device
  serve-Consistent (set c o v) s t i = set-Consistent c o v s i
  serve-Consistent (get c o) s t i = get-Consistent c o s i
  serve-Consistent (signal c o) s t i = signal-Consistent c o s i
  serve-Consistent (observed c o) s t i = observe-Consistent c o s i
  serve-Consistent (unobserved c o) s t i = unobserve-Consistent c o s i
  serve-Consistent (assign a v) s t i =
      both app fuel tree (set_readonly app fuel tree put a v)
        (set_readonly-Safe app fuel tree n a v)
        (set_readonly-Quiet app fuel tree put (Targets app fuel tree) a v) s.context s.device i
  serve-Consistent (changed a) s t i =
      both app fuel tree (notify app fuel tree put a)
        (notify-Safe app fuel tree n a (ap is_managed t))
        (notify-Quiet app fuel tree put (Targets app fuel tree) a) s.context s.device i
  serve-Consistent (closed c) s t i = close-Ready app fuel tree n c s.context s.device i
  serve-Consistent (tick_dictionary d) s t i = record {
    current = tick-Current app fuel tree n d s.context s.device (i.targets d) i.current;
    targets = tick-Quiet app fuel tree put (Targets app fuel tree) d s.context s.device i.targets;
  }

  -- Let no object have the name of a managed parameter but this itself. Over any sequence of calls of
  -- clients (set, get, signal, observe, unobserve) and of the server (the setter of
  -- managed_readonly_parameters, `value_changed` of external_readonly_parameters, `tick`, and the end of
  -- clients), whether they succeed or throw, it stays true that no managed parameter is ticked, and that
  -- what a client connected to a managed parameter has last got under its name is the current value.
  pub serve_all-Consistent :
      (xs : List Call) (s : State (W app fuel tree))
      → All IsTyped xs
      → IsConsistent s.device
      → IsConsistent (serve_all xs s).device
  unfolding serve_all
  serve_all-Consistent [] s t i = i
  serve_all-Consistent (x ∷ xs) s (t, ts) i =
      serve_all-Consistent xs (serve x s) ts (serve-Consistent x s t i)
