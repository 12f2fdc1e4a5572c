-- ===== src/Access/Calls.antt =====
-- Sequences of calls of one client, and `userlevel(ul)`, of src/core/basic_client_context.cpp.
use de_co_f.Base.{
  ℕ, ◌≤◌, ◌≡◌, ◌⊎◌, inl, inr, refl, ◌∙◌, Option, none, some, List, [], ◌∷◌, arith, ltb, Bool-cases,
}
use de_co_f.Types.{ℤ, pos, negsuc, Value}
use de_co_f.Types.Userlevel.{maximum, readonly}
use de_co_f.Types.Errors.{invalid_userlevel_error}
use de_co_f.Except.{ok, err}
use de_co_f.Tree.{Store}
use de_co_f.Access.{
  Client, set_userlevel, Device, State, set_parameter, get_parameter, signal_event,
}
use de_co_f.Access.Authorization.{MayWrite, Performed, get_parameter_lem, set_parameter_lem}

-- A level that a client can have.
abbrev pub IsLevel : Client → Type 0
IsLevel c = c.userlevel ≤ maximum

-- An int that is one of the levels.
abbrev pub IsUserlevel : ℤ → Type 0
IsUserlevel (pos n) = n ≤ maximum
IsUserlevel (negsuc n) = ⊥

-- `userlevel(ul)` takes exactly the levels from 0 to 4, one of which is then the client's level; for any
-- other int it throws invalid-userlevel.
pub set_userlevel_lem :
    (ul : ℤ) (c : Client)
    → ((set_userlevel ul c ≡ err invalid_userlevel_error) × ¬ IsUserlevel ul)
      ⊎ ((n : ℕ) × (ul ≡ pos n)
          × (n ≤ maximum)
          × (set_userlevel ul c ≡ ok (record c { userlevel = n })))
unfolding set_userlevel
set_userlevel_lem (negsuc n) c = inl (refl, λ x. x)
set_userlevel_lem (pos n) c = elim (Bool-cases (ltb maximum n)) [
  | inl l ↦ inl (rw l refl, λ x. ground arith)
  | inr l ↦ inr (n, refl, ground arith, rw l refl)
]

-- A smaller level may do more: what a client of an accepted level may write, every client of a level
-- that is not greater may write too, and its call reaches the application.
pub privilege :
    {D : Type 0} (device : Device D) (c d : Client) (tree : Store) (a : ℕ) (v : Value) (s : State D)
    → IsLevel d
    → c.userlevel ≤ d.userlevel
    → MayWrite d tree a
    → Performed c s (device.write a v) (set_parameter device c tree (some a) v s)
privilege device c d tree a v s h l m = elim (set_parameter_lem device c tree a v s) [
  | inl (_, p) ↦ p
  | inr (n, _) ↦ absurd (
      n (record {
        not_readonly = λ e. m.not_readonly (omega arith);
        writable = m.writable;
        level = omega (arith, m.level);
      }))
]

-- What a client asks of the dictionary.
pub data Request : Type 0 where
  write : Option ℕ → Value → Request
  read : Option ℕ → Request
  signal : Option ℕ → Request

module _ {D : Type 0} (device : Device D) (c : Client) (tree : Store) where
  abbrev pub serve : Request → State D → State D
  serve (write a v) s = (set_parameter device c tree a v s).0
  serve (read a) s = (get_parameter device c tree a s).0
  serve (signal a) s = (signal_event device c tree a s).0

  unfoldable pub serve_all : List Request → State D → State D
  serve_all [] s = s
  serve_all (r ∷ rs) s = serve_all rs (serve r s)

  pub read_keeps :
      (a : Option ℕ) (s : State D)
      → ((a : ℕ) (x : Option ℕ) (d : D) → (device.read a x d).0 ≡ d)
      → (get_parameter device c tree a s).0.device ≡ s.device
  unfolding get_parameter
  read_keeps none s h = refl
  read_keeps (some a) s h = elim (get_parameter_lem device c tree a s) [
    | inl (_, p) ↦ p.1 ∙ h a (some c.address) s.device
    | inr (_, p) ↦ p.1
  ]

  pub readonly_keeps :
      (r : Request) (s : State D)
      → c.userlevel ≡ readonly
      → ((a : ℕ) (x : Option ℕ) (d : D) → (device.read a x d).0 ≡ d)
      → (serve r s).device ≡ s.device
  unfolding set_parameter signal_event
  readonly_keeps (write a v) s e h = rw e refl
  readonly_keeps (read a) s e h = read_keeps a s h
  readonly_keeps (signal a) s e h = rw e refl

  -- Let the application's getters leave its state alone. Then no sequence of calls of a read-only
  -- client changes the application's state.
  pub serve_all-readonly :
      (rs : List Request) (s : State D)
      → c.userlevel ≡ readonly
      → ((a : ℕ) (x : Option ℕ) (d : D) → (device.read a x d).0 ≡ d)
      → (serve_all rs s).device ≡ s.device
  unfolding serve_all
  serve_all-readonly [] s e h = refl
  serve_all-readonly (r ∷ rs) s e h = serve_all-readonly rs (serve r s) e h ∙ readonly_keeps r s e h
