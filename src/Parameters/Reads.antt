-- ===== src/Parameters/Reads.antt =====
-- The getters of the parameter classes of include/decof, and the state around them.
use de_co_f.Base.{ℕ, Bytes}
use de_co_f.Types.{Value}
use de_co_f.Tree.{
  Kind, plain_object, node, object_dictionary, event, managed_readonly_parameter,
  managed_readwrite_parameter, external_readonly_parameter, external_readwrite_parameter,
  writeonly_parameter, Store,
}
use de_co_f.Parameters.Monad.{◌>>=◌}
use de_co_f.Parameters.Monad.Keeps.{Keeps, bind-Keeps}
use de_co_f.Parameters.{Application, World, value, read, lift}

module _ {V D S : Type 0} (app : Application V D) (fuel : ℕ) (tree : Store)
    (deliver : ℕ → Bytes → Value → S → S) (P : World V D S → Type 0)
    (h : (w : World V D S) (x : D) → P w → P (record w { app = x })) where
  pub value-Keeps : (q : Kind) (a : ℕ) → Keeps P (value app fuel tree deliver q a)
  unfolding value
  value-Keeps plain_object a = λ context w p. p
  value-Keeps node a = λ context w p. p
  value-Keeps object_dictionary a = λ context w p. p
  value-Keeps event a = λ context w p. p
  value-Keeps managed_readonly_parameter a = λ context w p. p
  value-Keeps managed_readwrite_parameter a = λ context w p. p
  value-Keeps external_readonly_parameter a =
      λ context w p. h w (app.external_value a context w.app).0 p
  value-Keeps external_readwrite_parameter a =
      λ context w p. h w (app.external_value a context w.app).0 p
  value-Keeps writeonly_parameter a = λ context w p. p

  typed :
      (q : Kind) (a : ℕ)
      → Keeps P
          (value app fuel tree deliver q a >>= λ v. lift app fuel tree deliver (app.to_generic a v))
  typed q a =
      bind-Keeps P (value app fuel tree deliver q a)
        (λ v. lift app fuel tree deliver (app.to_generic a v)) (value-Keeps q a)
        (λ v context w p. p)

  pub read-Keeps : (q : Kind) (a : ℕ) → Keeps P (read app fuel tree deliver q a)
  unfolding read
  read-Keeps plain_object a = λ context w p. p
  read-Keeps node a = λ context w p. p
  read-Keeps object_dictionary a = λ context w p. p
  read-Keeps event a = λ context w p. p
  read-Keeps managed_readonly_parameter a = typed managed_readonly_parameter a
  read-Keeps managed_readwrite_parameter a = typed managed_readwrite_parameter a
  read-Keeps external_readonly_parameter a = typed external_readonly_parameter a
  read-Keeps external_readwrite_parameter a = typed external_readwrite_parameter a
  read-Keeps writeonly_parameter a = λ context w p. p
