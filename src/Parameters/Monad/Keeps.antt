-- ===== src/Parameters/Monad/Keeps.antt =====
-- Actions that keep a property of the state, however they end.
use de_co_f.Base.{ℕ, Bool, true, false, Option, if◌then◌else◌}
use de_co_f.Except.{Except, ok, err, out_of_range, other_exception, fault, Void}
use de_co_f.Parameters.Monad.{Action, after, undo, ◌>>=◌}

module _ {W : Type 0} (P : W → Type 0) where
  abbrev pub Keeps : {B : Type 0} → Action W B → Type 0
  Keeps m = (context : Option ℕ) (w : W) → P w → P (m context w).0

  pub after-Keeps :
      {B C : Type 0} (f : B → Action W C)
      → ((b : B) → Keeps (f b))
      → (context : Option ℕ) (w : W) (r : Except B) → P w
      → P (after f context w r).0
  after-Keeps f h context w (ok b) k = h b context w k
  after-Keeps f h context w (err e) k = k
  after-Keeps f h context w out_of_range k = k
  after-Keeps f h context w other_exception k = k
  after-Keeps f h context w fault k = k

  pub bind-Keeps :
      {B C : Type 0} (m : Action W B) (f : B → Action W C)
      → Keeps m
      → ((b : B) → Keeps (f b))
      → Keeps (m >>= f)
  bind-Keeps m f k h context w p =
      after-Keeps f h context (m context w).0 (m context w).1 (k context w p)

  pub undo-Keeps :
      {B : Type 0} (m : Action W Void)
      → Keeps m
      → (context : Option ℕ) (w : W) (r : Except B) → P w
      → P (undo m context w r).0
  undo-Keeps m h context w (ok b) k = k
  undo-Keeps m h context w (err e) k = h context w k
  undo-Keeps m h context w out_of_range k = h context w k
  undo-Keeps m h context w other_exception k = h context w k
  undo-Keeps m h context w fault k = h context w k

  pub if-Keeps :
      {B : Type 0} (b : Bool) (m n : Action W B) → Keeps m → Keeps n → Keeps (if b then m else n)
  if-Keeps true m n k h = k
  if-Keeps false m n k h = h
