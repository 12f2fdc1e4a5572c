-- ===== src/Parameters.antt =====
-- The parameter classes of include/decof (managed_readonly_parameter.h, managed_readwrite_parameter.h,
-- external_readonly_parameter.h, external_readwrite_parameter.h, writeonly_parameter.h,
-- observable_parameter.h, and the typed client interfaces), with the tick of
-- src/core/object_dictionary.cpp. Parameters/Subscriptions has the rest of the observation.
-- A signal of Boost.Signals2 is the list of its connected slots, in the order of connection; a slot is
-- known by the address of the client that connected it, and calling it is a parameter. The virtual
-- functions that the application overrides, the conversions of a parameter's type, and that type's
-- operator== are parameters. No slot connects or disconnects in the call.
pub mod Monad
pub mod Subscriptions
pub mod RoundTrip
pub mod Calls
pub mod Clients
pub mod Subscribers
pub mod Reads
pub mod Targets
pub mod Operations
pub mod Current
pub mod Deliveries
use de_co_f.Base.{
  ℕ, zero, suc, ◌+◌, ◌%◌, ◌^◌, Bool, true, false, not, Option, none, some, List, [], ◌∷◌, ◌++◌, map,
  ◌==◌, ltb, if◌then◌else◌, Bytes, bytes_eq,
}
use de_co_f.Types.{Value, string_t, sequence_t}
use de_co_f.Types.Errors.{access_denied_error, invalid_parameter_error, not_subscribed_error}
use de_co_f.Except.{Except, ok, err, fault, Void}
use de_co_f.Parameters.Monad.{Action, pure, raise, gets, modify, on_error, ◌>>=◌, ◌>>◌}
use de_co_f.Scgi.Bencode.{pred_size}
use de_co_f.Tree.{
  Kind, node, object_dictionary, managed_readonly_parameter, managed_readwrite_parameter,
  external_readonly_parameter, external_readwrite_parameter, writeonly_parameter, Store, children,
  without,
}
use de_co_f.Tree.Lookup.{fq_name}
use de_co_f.Access.{Client, effective_userlevel, is_readable, Device, State, guarded, call}

-- What the application and the type `T` of each parameter provide; `V` holds the values of all `T`s.
pub record Application (V D : Type 0) : Type 0 where
  pub from_generic : ℕ → Value → Except V
  pub to_generic : ℕ → V → Except Value
  pub equal : ℕ → V → V → Bool
  pub external_value : ℕ → Option ℕ → D → D × Except V
  pub set_external_value : ℕ → V → Option ℕ → D → D × Except Bool
  pub set_value : ℕ → V → Option ℕ → D → D × Except Void
  pub verify : ℕ → V → Option ℕ → D → D × Except Void
  pub signal : ℕ → Option ℕ → D → D × Except Void

-- A client's map `observables_`. The connection is the address of the parameter whose signal it is
-- connected to, or none for an empty `scoped_connection`.
abbrev pub Observables : Type 0
Observables = List (Bytes × Option ℕ)

unfoldable pub find : Bytes → Observables → Option (Option ℕ)
find uri [] = none
find uri ((j, c) ∷ m) = if bytes_eq j uri then some c else find uri m

pub erase : Bytes → Observables → Observables
erase uri [] = []
erase uri ((j, c) ∷ m) = if bytes_eq j uri then erase uri m else (j, c) ∷ erase uri m

-- The members of all parameters, dictionaries and clients, by address, and the state of those who own
-- the slots.
pub record World (V D S : Type 0) : Type 0 where
  pub app : D
  pub values : ℕ → V
  pub last : ℕ → Option V
  pub observations : ℕ → ℕ
  pub slots : ℕ → List ℕ
  pub tick_targets : ℕ → List ℕ
  pub observables : ℕ → Observables
  pub sessions : S

abbrev pub update : {B : Type 0} → (ℕ → B) → ℕ → B → ℕ → B
update f a b x = if a == x then b else f x

-- A slot's disconnection; `c` stands there at most once.
abbrev pub remove_one : ℕ → List ℕ → List ℕ
remove_one c [] = []
remove_one c (x ∷ xs) = if x == c then xs else x ∷ remove_one c xs

-- `dynamic_cast<client_observe_interface*>`.
abbrev pub is_observable : Kind → Bool
is_observable managed_readonly_parameter = true
is_observable managed_readwrite_parameter = true
is_observable external_readonly_parameter = true
is_observable external_readwrite_parameter = true
is_observable _ = false

abbrev pub is_dictionary : Kind → Bool
is_dictionary object_dictionary = true
is_dictionary _ = false

-- `get_object_dictionary`: the root above an object, if it is a dictionary. The fuel bounds the number
-- of ancestors; the outer `none` is a walk that does not end.
unfoldable pub get_object_dictionary : ℕ → ℕ → Store → Option (Option ℕ)
get_object_dictionary zero a tree = none
get_object_dictionary (suc fuel) a tree = elim (tree a).parent [
  | none ↦ some (if is_dictionary (tree a).kind then some a else none)
  | some p ↦ get_object_dictionary fuel p tree
]

module _ {V D S : Type 0} (app : Application V D) (fuel : ℕ) (tree : Store)
    (deliver : ℕ → Bytes → Value → S → S) where
  abbrev pub Act : Type 0 → Type 0
  Act B = Action (World V D S) B

  -- A call of the application.
  abbrev pub ask : {B : Type 0} → (Option ℕ → D → D × Except B) → Act B
  ask f context w = let (d, r) = f context w.app in (record w { app = d }, r)

  abbrev pub lift : {B : Type 0} → Except B → Act B
  lift r context w = (w, r)

  -- `fq_name`; too little fuel is `fault`.
  abbrev pub name_of : ℕ → Act Bytes
  name_of a = lift (elim (fq_name fuel a tree) [ none ↦ fault | some uri ↦ ok uri ])

  -- Calls all slots of a signal.
  unfoldable pub deliver_all : List ℕ → Bytes → Value → S → S
  deliver_all [] uri v s = s
  deliver_all (c ∷ cs) uri v s = deliver_all cs uri v (deliver c uri v s)

  -- `observable_parameter::emit`.
  unfoldable pub emit : ℕ → V → Act Void
  unfolding deliver_all
  emit a v = do
    uri ← name_of a
    g ← lift (app.to_generic a v)
    modify (λ w. record w { sessions = deliver_all (w.slots a) uri g w.sessions })

  -- The virtual `value()` of the parameter classes.
  unfoldable pub value : Kind → ℕ → Act V
  value managed_readonly_parameter a = gets (λ w. w.values a)
  value managed_readwrite_parameter a = gets (λ w. w.values a)
  value external_readonly_parameter a = ask (app.external_value a)
  value external_readwrite_parameter a = ask (app.external_value a)
  value _ a = raise fault

  abbrev typed_value : Kind → ℕ → Act Value
  typed_value k a = do v ← value k a; lift (app.to_generic a v)

  -- `client_read_interface::generic_value`; the value of a node is the list of its children's names.
  unfoldable pub read : Kind → ℕ → Act Value
  unfolding value
  read node a = pure (sequence_t (map string_t (children a tree)))
  read object_dictionary a = pure (sequence_t (map string_t (children a tree)))
  read managed_readonly_parameter a = typed_value managed_readonly_parameter a
  read managed_readwrite_parameter a = typed_value managed_readwrite_parameter a
  read external_readonly_parameter a = typed_value external_readonly_parameter a
  read external_readwrite_parameter a = typed_value external_readwrite_parameter a
  read _ a = raise fault

  abbrev store : ℕ → V → Act Void
  store a v = modify (λ w. record w { values = update w.values a v })

  -- `managed_readwrite_parameter::value(const T&)`.
  unfoldable pub set_managed : ℕ → V → Act Void
  unfolding emit
  set_managed a v = do
    old ← gets (λ w. w.values a)
    if app.equal a old v then pure tt else (ask (app.verify a v) >> store a v >> emit a v)

  -- `external_readwrite_parameter::value(const T&)`.
  unfoldable pub set_external : ℕ → V → Act Void
  unfolding emit
  set_external a v = do
    changed ← ask (app.set_external_value a v)
    if changed then emit a v else pure tt

  -- `client_write_interface::generic_value(value)`.
  unfoldable pub write : Kind → ℕ → Value → Act Void
  unfolding set_managed set_external
  write managed_readwrite_parameter a g = do v ← lift (app.from_generic a g); set_managed a v
  write external_readwrite_parameter a g = do v ← lift (app.from_generic a g); set_external a v
  write writeonly_parameter a g = do v ← lift (app.from_generic a g); ask (app.set_value a v)
  write _ a g = raise fault

  -- The server's setter, `managed_readonly_parameter::value(const T&)`.
  unfoldable pub set_readonly : ℕ → V → Act Void
  unfolding emit
  set_readonly a v = do
    old ← gets (λ w. w.values a)
    if app.equal a old v then pure tt else (store a v >> emit a v)

  -- The framework's objects behind the client's interface.
  unfoldable pub parameters : Device (World V D S)
  unfolding read write
  parameters = record {
    read = λ a. read (tree a).kind a;
    write = λ a g. write (tree a).kind a g;
    signal = λ a. ask (app.signal a);
  }

  abbrev pub is_news : ℕ → Option V → V → Bool
  is_news a none v = true
  is_news a (some l) v = not (app.equal a l v)

  -- `external_readonly_parameter::notify`, which `tick` and `value_changed` call.
  unfoldable pub notify : ℕ → Act Void
  unfolding emit
  notify a = do
    v ← ask (app.external_value a)
    l ← gets (λ w. w.last a)
    if is_news a l v
        then (emit a v >> modify (λ w. record w { last = update w.last a (some v) }))
        else pure tt

  -- `object_dictionary::tick`: the first exception ends the loop.
  unfoldable pub tick_all : List ℕ → Act Void
  unfolding notify
  tick_all [] = pure tt
  tick_all (a ∷ as_) = notify a >> tick_all as_

  unfoldable pub tick : ℕ → Act Void
  unfolding tick_all
  tick d = do targets ← gets (λ w. w.tick_targets d); tick_all targets
