-- ===== src/Parameters/Deliveries.antt =====
-- What the slots of src/include/decof/observable_parameter.h deliver, seen by the clients: the last value
-- that each client has got under each uri.
use de_co_f.Base.{
  ℕ, ◌≡◌, ◌≢◌, inl, inr, refl, subst, ◌∙◌, true, Option, some, List, [], ◌∷◌, arith, ◌==◌,
  if◌then◌else◌, Bytes, Bool-cases, bytes_eq, bytes_eq_iff, bytes_eq_self,
}
use de_co_f.Types.{Value}
use de_co_f.Tree.{Store, mem}
use de_co_f.Parameters.{Application, deliver_all}

eq_of : (c d : ℕ) → (c == d) ≡ true → c ≡ d
eq_of c d e = ground arith

abbrev pub Inboxes : Type 0
Inboxes = ℕ → Bytes → Option Value

abbrev pub put : ℕ → Bytes → Value → Inboxes → Inboxes
put c uri v s d j = if c == d then (if bytes_eq uri j then some v else s d j) else s d j

pub put-same : (c : ℕ) (uri : Bytes) (v : Value) (s : Inboxes) → put c uri v s c uri ≡ some v
put-same c uri v s = rw (bytes_eq_self uri) (ground arith)

pub put-other_uri :
    (c d : ℕ) (uri j : Bytes) (v : Value) (s : Inboxes) → uri ≢ j → put c uri v s d j ≡ s d j
put-other_uri c d uri j v s h = ground (arith, bytes_eq_iff uri j)

pub put-keeps :
    (c d : ℕ) (uri : Bytes) (v : Value) (s : Inboxes)
    → s d uri ≡ some v
    → put c uri v s d uri ≡ some v
put-keeps c d uri v s h = rw (bytes_eq_self uri) (ground arith)

module _ {V D : Type 0} (app : Application V D) (fuel : ℕ) (tree : Store) where
  pub deliver_all-keeps :
      (cs : List ℕ) (d : ℕ) (uri : Bytes) (v : Value) (s : Inboxes)
      → s d uri ≡ some v
      → deliver_all app fuel tree put cs uri v s d uri ≡ some v
  unfolding deliver_all
  deliver_all-keeps [] d uri v s h = h
  deliver_all-keeps (c ∷ cs) d uri v s h =
      deliver_all-keeps cs d uri v (put c uri v s) (put-keeps c d uri v s h)

  pub deliver_all-same :
      (cs : List ℕ) (d : ℕ) (uri : Bytes) (v : Value) (s : Inboxes)
      → mem d cs ≡ true
      → deliver_all app fuel tree put cs uri v s d uri ≡ some v
  unfolding deliver_all
  deliver_all-same [] d uri v s h = absurd (ground arith)
  deliver_all-same (c ∷ cs) d uri v s h = elim (Bool-cases (c == d)) [
    | inl e ↦
        let same = put-same c uri v s in
        deliver_all-keeps cs d uri v (put c uri v s)
          (subst (λ d. put c uri v s d uri ≡ some v) (eq_of c d e) same)
    | inr n ↦ deliver_all-same cs d uri v (put c uri v s) (ground arith)
  ]

  pub deliver_all-other_uri :
      (cs : List ℕ) (d : ℕ) (uri j : Bytes) (v : Value) (s : Inboxes)
      → uri ≢ j
      → deliver_all app fuel tree put cs uri v s d j ≡ s d j
  unfolding deliver_all
  deliver_all-other_uri [] d uri j v s h = refl
  deliver_all-other_uri (c ∷ cs) d uri j v s h =
      deliver_all-other_uri cs d uri j v (put c uri v s) h ∙ put-other_uri c d uri j v s h
