-- ===== src/Access/Authorization.antt =====
-- `set_parameter`, `get_parameter` and `signal_event` of src/core/basic_client_context.cpp, and who may
-- call them with effect.
use de_co_f.Base.{
  ℕ, ◌≤◌, ◌≡◌, ◌≢◌, ◌⊎◌, inl, inr, refl, true, false, Option, none, some, arith, ◌==◌, ltb,
  Bool-cases, ltb→lt,
}
use de_co_f.Types.{Value}
use de_co_f.Types.Userlevel.{readonly}
use de_co_f.Types.Errors.{access_denied_error, invalid_parameter_error}
use de_co_f.Except.{Except, err}
use de_co_f.Tree.{Store}
use de_co_f.Access.{
  is_readable, is_writable, is_event, Client, effective_userlevel, Device, State, set_parameter,
  get_parameter, signal_event,
}

-- What the code promises: a client that is not read-only may change what its level reaches.
pub record MayWrite (c : Client) (tree : Store) (a : ℕ) : Type 0 where
  pub not_readonly : c.userlevel ≢ readonly
  pub writable : is_writable (tree a).kind ≡ true
  pub level : c.userlevel ≤ (tree a).writelevel

pub record MaySignal (c : Client) (tree : Store) (a : ℕ) : Type 0 where
  pub not_readonly : c.userlevel ≢ readonly
  pub an_event : is_event (tree a).kind ≡ true
  pub level : c.userlevel ≤ (tree a).writelevel

pub record MayRead (c : Client) (tree : Store) (a : ℕ) : Type 0 where
  pub readable : is_readable (tree a).kind ≡ true
  pub level : effective_userlevel c ≤ (tree a).readlevel

-- A call that was refused, with no effect.
abbrev pub Refused : {D B : Type 0} → State D → State D × Except B → Type 0
Refused s o =
    (o.0.context ≡ none)
    × (o.0.device ≡ s.device)
    × ((o.1 ≡ err access_denied_error) ⊎ (o.1 ≡ err invalid_parameter_error))

-- A call that reached the application: it ran once, under the client's context, and its effect and
-- its result are the application's.
abbrev pub Performed :
    {D B : Type 0} → Client → State D → (Option ℕ → D → D × Except B) → State D × Except B → Type 0
Performed c s f o =
    (o.0.context ≡ none)
    × (o.0.device ≡ (f (some c.address) s.device).0)
    × (o.1 ≡ (f (some c.address) s.device).1)

not_below : (a b : ℕ) → ltb b a ≡ false → a ≤ b
not_below a b h = ground arith

module _ {D : Type 0} (device : Device D) where
  -- `set_parameter` on an object: exactly where the client is not read-only, the object can be written
  -- and the client's level is at most the writelevel, the application's setter runs, once, under this
  -- client as the current context. Everywhere else the call fails with access-denied or
  -- invalid-parameter and the application's state is as before. The context is cleared in all cases.
  pub set_parameter_lem :
      (c : Client) (tree : Store) (a : ℕ) (v : Value) (s : State D)
      → (MayWrite c tree a
          × Performed c s (device.write a v) (set_parameter device c tree (some a) v s))
        ⊎ (¬ MayWrite c tree a × Refused s (set_parameter device c tree (some a) v s))
  unfolding set_parameter
  set_parameter_lem c tree a v s = elim (Bool-cases (c.userlevel == readonly)) [
    | inl e ↦ inr (λ m. m.not_readonly (ground arith), rw e (refl, refl, inl refl))
    | inr e ↦ elim (Bool-cases (is_writable (tree a).kind)) [
      | inr w ↦ inr (λ m. ground (arith, m.writable), rw (e, w) (refl, refl, inr refl))
      | inl w ↦ elim (Bool-cases (ltb (tree a).writelevel c.userlevel)) [
        | inl l ↦ inr (
          λ m. omega (arith, m.level, ltb→lt (tree a).writelevel c.userlevel l),
          rw (e, w, l) (refl, refl, inl refl),
        )
        | inr l ↦ inl (
          record { not_readonly = ground arith; writable = w; level = ground arith },
          rw (e, w, l) (refl, refl, refl),
        )
      ]
    ]
  ]

  -- `get_parameter` on an object: exactly where the object can be read and the client's effective level
  -- is at most the readlevel, the application's getter runs, under this client as the current context.
  -- Everywhere else the call fails and the application's state is as before.
  pub get_parameter_lem :
      (c : Client) (tree : Store) (a : ℕ) (s : State D)
      → (MayRead c tree a × Performed c s (device.read a) (get_parameter device c tree (some a) s))
        ⊎ (¬ MayRead c tree a × Refused s (get_parameter device c tree (some a) s))
  unfolding get_parameter
  get_parameter_lem c tree a s = elim (Bool-cases (is_readable (tree a).kind)) [
    | inr w ↦ inr (λ m. ground (arith, m.readable), rw w (refl, refl, inr refl))
    | inl w ↦ elim (Bool-cases (ltb (tree a).readlevel (effective_userlevel c))) [
      | inl l ↦ inr (
        λ m. omega (arith, m.level, ltb→lt (tree a).readlevel (effective_userlevel c) l),
        rw (w, l) (refl, refl, inl refl),
      )
      | inr l ↦ inl (
        record { readable = w; level = not_below (effective_userlevel c) (tree a).readlevel l },
        rw (w, l) (refl, refl, refl),
      )
    ]
  ]

  -- `signal_event` on an object: exactly where the client is not read-only, the object is an event and
  -- the client's level is at most the writelevel, the application's handler runs, under this client as
  -- the current context. Everywhere else the call fails and the application's state is as before.
  pub signal_event_lem :
      (c : Client) (tree : Store) (a : ℕ) (s : State D)
      → (MaySignal c tree a
          × Performed c s (device.signal a) (signal_event device c tree (some a) s))
        ⊎ (¬ MaySignal c tree a × Refused s (signal_event device c tree (some a) s))
  unfolding signal_event
  signal_event_lem c tree a s = elim (Bool-cases (c.userlevel == readonly)) [
    | inl e ↦ inr (λ m. m.not_readonly (ground arith), rw e (refl, refl, inl refl))
    | inr e ↦ elim (Bool-cases (is_event (tree a).kind)) [
      | inr w ↦ inr (λ m. ground (arith, m.an_event), rw (e, w) (refl, refl, inr refl))
      | inl w ↦ elim (Bool-cases (ltb (tree a).writelevel c.userlevel)) [
        | inl l ↦ inr (
          λ m. omega (arith, m.level, ltb→lt (tree a).writelevel c.userlevel l),
          rw (e, w, l) (refl, refl, inl refl),
        )
        | inr l ↦ inl (
          record { not_readonly = ground arith; an_event = w; level = ground arith },
          rw (e, w, l) (refl, refl, refl),
        )
      ]
    ]
  ]
