-- ===== src/Access.antt =====
-- `basic_client_context` of src/core/basic_client_context.cpp, with `context_guard` of
-- src/core/object_dictionary.cpp: how a client reads, writes, signals and browses the objects of the
-- tree. The virtual functions that the application implements (`generic_value`, `signal`) are a
-- parameter; they see the current context of the dictionary and the application's own state.
pub mod Calls
pub mod Authorization
pub mod Browse
use de_co_f.Base.{
  ℕ, zero, suc, Bool, true, false, Option, none, some, List, [], ◌∷◌, ◌++◌, ◌==◌, ltb, leb,
  if◌then◌else◌,
}
use de_co_f.Types.{ℤ, pos, negsuc, Value}
use de_co_f.Types.Userlevel.{minimum, maximum, normal, readonly}
use de_co_f.Types.Errors.{access_denied_error, invalid_parameter_error, invalid_userlevel_error}
use de_co_f.Except.{Except, ok, err, Void}
use de_co_f.Tree.{
  Kind, node, object_dictionary, event, managed_readonly_parameter, managed_readwrite_parameter,
  external_readonly_parameter, external_readwrite_parameter, writeonly_parameter, is_node, Store,
}

-- `dynamic_cast<client_read_interface*>`, `client_write_interface*` and `event*`.
abbrev pub is_readable : Kind → Bool
is_readable node = true
is_readable object_dictionary = true
is_readable managed_readonly_parameter = true
is_readable managed_readwrite_parameter = true
is_readable external_readonly_parameter = true
is_readable external_readwrite_parameter = true
is_readable _ = false

abbrev pub is_writable : Kind → Bool
is_writable managed_readwrite_parameter = true
is_writable external_readwrite_parameter = true
is_writable writeonly_parameter = true
is_writable _ = false

abbrev pub is_event : Kind → Bool
is_event event = true
is_event _ = false

-- `basic_client_context`: its address and its userlevel.
pub record Client : Type 0 where
  pub address : ℕ
  pub userlevel : ℕ

-- `effective_userlevel`.
abbrev pub effective_userlevel : Client → ℕ
effective_userlevel c = if c.userlevel == readonly then normal else c.userlevel

-- `userlevel(ul)`; a `userlevel_t` that a client sends can be any int.
unfoldable pub set_userlevel : ℤ → Client → Except Client
set_userlevel (negsuc n) c = err invalid_userlevel_error
set_userlevel (pos ul) c =
    if ltb maximum ul then err invalid_userlevel_error else ok (record c { userlevel = ul })

-- The application: the virtual functions of an object at an address, under a current context.
pub record Device (D : Type 0) : Type 0 where
  pub read : ℕ → Option ℕ → D → D × Except Value
  pub write : ℕ → Value → Option ℕ → D → D × Except Void
  pub signal : ℕ → Option ℕ → D → D × Except Void

-- `object_dictionary`'s `current_context_`, and the application's state.
pub record State (D : Type 0) : Type 0 where
  pub context : Option ℕ
  pub device : D

module _ {D : Type 0} where
  -- `context_guard`: set on entry, cleared on every way out.
  abbrev pub guarded :
      {B : Type 0} → Client → (State D → State D × Except B) → State D → State D × Except B
  guarded c body s =
      let (s', r) = body (record s { context = some c.address }) in
      (record s' { context = none }, r)

  -- A call of the application.
  abbrev pub call : {B : Type 0} → (Option ℕ → D → D × Except B) → State D → State D × Except B
  call f s = let (d, r) = f s.context s.device in (record s { device = d }, r)

  module _ (device : Device D) where
    abbrev write_to : Client → Store → Option ℕ → Value → State D → State D × Except Void
    write_to c tree none v s = (s, err invalid_parameter_error)
    write_to c tree (some a) v s =
        if is_writable (tree a).kind
        then (if ltb (tree a).writelevel c.userlevel
            then (s, err access_denied_error)
            else call (device.write a v) s)
        else (s, err invalid_parameter_error)

    -- `set_parameter(obj, value)`.
    unfoldable pub set_parameter :
        Client → Store → Option ℕ → Value → State D → State D × Except Void
    set_parameter c tree obj v = guarded c (λ s.
        if c.userlevel == readonly then (s, err access_denied_error) else write_to c tree obj v s)

    abbrev read_from : Client → Store → Option ℕ → State D → State D × Except Value
    read_from c tree none s = (s, err invalid_parameter_error)
    read_from c tree (some a) s =
        if is_readable (tree a).kind
        then (if ltb (tree a).readlevel (effective_userlevel c)
            then (s, err access_denied_error)
            else call (device.read a) s)
        else (s, err invalid_parameter_error)

    -- `get_parameter(obj)`.
    unfoldable pub get_parameter : Client → Store → Option ℕ → State D → State D × Except Value
    get_parameter c tree obj = guarded c (read_from c tree obj)

    abbrev signal_at : Client → Store → Option ℕ → State D → State D × Except Void
    signal_at c tree none s = (s, err invalid_parameter_error)
    signal_at c tree (some a) s =
        if is_event (tree a).kind
        then (if ltb (tree a).writelevel c.userlevel
            then (s, err access_denied_error)
            else call (device.signal a) s)
        else (s, err invalid_parameter_error)

    -- `signal_event(obj)`.
    unfoldable pub signal_event : Client → Store → Option ℕ → State D → State D × Except Void
    signal_event c tree obj = guarded c (λ s.
        if c.userlevel == readonly then (s, err access_denied_error) else signal_at c tree obj s)

-- The loop over the children: those that the client may read are browsed in turn.
unfoldable pub browse_children : (ℕ → Option (List ℕ)) → ℕ → Store → List ℕ → Option (List ℕ)
browse_children browse ul tree [] = some []
browse_children browse ul tree (c ∷ cs) =
    let rest = browse_children browse ul tree cs in
    if leb ul (tree c).readlevel
    then (elim (browse c) [
      | none ↦ none
      | some xs ↦ elim rest [ none ↦ none | some ys ↦ some (xs ++ ys) ]
    ])
    else rest

-- The objects whose `accept` is called, in order. The fuel bounds the height of the tree.
unfoldable pub browse : ℕ → ℕ → Store → ℕ → Option (List ℕ)
unfolding browse_children
browse zero ul tree a = none
browse (suc fuel) ul tree a =
    let rest = browse_children (browse fuel ul tree) ul tree (tree a).children in
    if is_node (tree a).kind
    then (elim rest [ none ↦ none | some xs ↦ some (a ∷ xs) ])
    else some (a ∷ [])

-- `browse_object(obj, visitor)`; `ok none` is a walk that does not end.
unfoldable pub browse_object : ℕ → Client → Store → Option ℕ → Except (Option (List ℕ))
unfolding browse
browse_object fuel c tree none = err invalid_parameter_error
browse_object fuel c tree (some a) = ok (browse fuel (effective_userlevel c) tree a)
