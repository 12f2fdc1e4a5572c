-- ===== src/Parameters/Monad.antt =====
-- A call of a virtual function: it sees the current context, changes the state, and ends as in
-- `Except`. What was changed before an exception stays changed.
pub mod Keeps
use de_co_f.Base.{ℕ, Option}
use de_co_f.Except.{Except, ok, err, out_of_range, other_exception, fault, Void}

abbrev pub Action : Type 0 → Type 0 → Type 0
Action W B = Option ℕ → W → W × Except B

module _ {W : Type 0} where
  abbrev pub pure : {B : Type 0} → B → Action W B
  pure b context w = (w, ok b)

  abbrev pub raise : {B : Type 0} → Except B → Action W B
  raise r context w = (w, r)

  abbrev pub gets : {B : Type 0} → (W → B) → Action W B
  gets f context w = (w, ok (f w))

  abbrev pub modify : (W → W) → Action W Void
  modify f context w = (f w, ok tt)

  abbrev pub after : {B C : Type 0} → (B → Action W C) → Option ℕ → W → Except B → W × Except C
  after f context w (ok b) = f b context w
  after f context w (err e) = (w, err e)
  after f context w out_of_range = (w, out_of_range)
  after f context w other_exception = (w, other_exception)
  after f context w fault = (w, fault)

  infixl 5 ◌>>=◌ ◌>>◌
  abbrev pub ◌>>=◌ : {B C : Type 0} → Action W B → (B → Action W C) → Action W C
  ◌>>=◌ m f context w = let (w', r) = m context w in after f context w' r

  abbrev pub ◌>>◌ : {B C : Type 0} → Action W B → Action W C → Action W C
  m >> k = m >>= λ _. k

  abbrev pub undo : {B : Type 0} → Action W Void → Option ℕ → W → Except B → W × Except B
  undo k context w (ok b) = (w, ok b)
  undo k context w (err e) = ((k context w).0, err e)
  undo k context w out_of_range = ((k context w).0, out_of_range)
  undo k context w other_exception = ((k context w).0, other_exception)
  undo k context w fault = ((k context w).0, fault)

  -- `m`, and `k` when `m` ends by an exception: the destructor of a local object.
  abbrev pub on_error : {B : Type 0} → Action W B → Action W Void → Action W B
  on_error m k context w = let (w', r) = m context w in undo k context w' r
