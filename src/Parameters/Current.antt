-- ===== src/Parameters/Current.antt =====
-- What the subscribers of the managed parameters (src/include/decof/managed_readonly_parameter.h and
-- managed_readwrite_parameter.h) have last got, over the operations of src/core/client_context.cpp and of
-- the parameters.
use de_co_f.Base.{
  ℕ, ◌≡◌, ◌≢◌, inl, inr, refl, sym, subst, ap, ◌∙◌, Bool, true, false, Option, none, some, arith,
  ◌==◌, Bytes, Bool-cases, Option-cases, some_inj,
}
use de_co_f.Except.{Except, ok, err, out_of_range, other_exception, fault}
use de_co_f.Types.{Value}
use de_co_f.Types.Errors.{Error}
use de_co_f.Tree.{Kind, managed_readonly_parameter, managed_readwrite_parameter, Store, mem}
use de_co_f.Tree.Lookup.{fq_name}
use de_co_f.Parameters.Monad.{after}
use de_co_f.Parameters.Deliveries.{
  Inboxes, put, put-keeps, put-other_uri, deliver_all-same, deliver_all-other_uri,
}
use de_co_f.Parameters.{Application, World, deliver_all, emit}

abbrev pub is_managed : Kind → Bool
is_managed managed_readonly_parameter = true
is_managed managed_readwrite_parameter = true
is_managed _ = false

ok_inj : {A : Type 0} {x y : A} → ok x ≡ ok y → x ≡ y
ok_inj e = cc

none-ne_some : {A : Type 0} {x : A} → none ≢ some x
none-ne_some e = cc

err-ne_ok : {A : Type 0} {x : A} {y : Error} → err y ≢ ok x
err-ne_ok e = cc

range-ne_ok : {A : Type 0} {x : A} → out_of_range ≢ ok x
range-ne_ok e = cc

other-ne_ok : {A : Type 0} {x : A} → other_exception ≢ ok x
other-ne_ok e = cc

fault-ne_ok : {A : Type 0} {x : A} → fault ≢ ok x
fault-ne_ok e = cc

module _ {V D : Type 0} (app : Application V D) (fuel : ℕ) (tree : Store) where
  abbrev pub W : Type 0
  W = World V D Inboxes

  -- The last thing that each client connected to the managed parameter `a` has got under its name is its
  -- current value.
  abbrev pub CurrentAt : ℕ → W → Type 0
  CurrentAt a w =
      (c : ℕ) (uri : Bytes) (g : Value)
      → is_managed (tree a).kind ≡ true
      → mem c (w.slots a) ≡ true
      → fq_name fuel a tree ≡ some uri
      → app.to_generic a (w.values a) ≡ ok g
      → w.sessions c uri ≡ some g

  abbrev pub Current : W → Type 0
  Current w = (a : ℕ) → CurrentAt a w

  -- No other object has the name of a managed parameter.
  abbrev pub Distinct : Type 0
  Distinct =
      (a b : ℕ) (uri : Bytes)
      → is_managed (tree a).kind ≡ true
      → fq_name fuel a tree ≡ some uri
      → fq_name fuel b tree ≡ some uri
      → a ≡ b

  abbrev pub sent : ℕ → Bytes → Value → W → W
  sent a uri g w = record w {
    sessions = deliver_all app fuel tree put (w.slots a) uri g w.sessions;
  }

  abbrev pub Others : ℕ → W → Type 0
  Others a w = (b : ℕ) → b ≢ a → CurrentAt b w

  pub split : (a : ℕ) (w : W) → CurrentAt a w → Others a w → Current w
  split a w h k b = elim (Bool-cases (b == a)) [
    | inl same ↦ subst (λ b. CurrentAt b w) (ground arith) h
    | inr other ↦ k b (ground arith)
  ]

  pub sent-Current :
      (a : ℕ) (uri : Bytes) (g : Value) (w : W)
      → Distinct
      → fq_name fuel a tree ≡ some uri
      → (is_managed (tree a).kind ≡ true → app.to_generic a (w.values a) ≡ ok g)
      → Others a w
      → Current (sent a uri g w)
  sent-Current a uri g w d n h k =
      split a (sent a uri g w)
        (λ c j x m i o e.
          subst (λ j. (sent a uri g w).sessions c j ≡ some x) (some_inj (sym n ∙ o))
            (deliver_all-same app fuel tree (w.slots a) c uri g w.sessions i
              ∙ ap some (ok_inj (sym (h m) ∙ e))))
        (λ b ne c j x m i o e.
          deliver_all-other_uri app fuel tree (w.slots a) c uri j g w.sessions
            (λ s. ne (d b a j m o (subst (λ j. fq_name fuel a tree ≡ some j) s n)))
          ∙ k b ne c j x m i o e)

  -- `emit` on an object whose value has just changed, by what `to_generic` returns.
  emit_named :
      (a : ℕ) (v : V) (context : Option ℕ) (w : W) (uri : Bytes) (r : Except Value)
      → Distinct
      → fq_name fuel a tree ≡ some uri
      → (is_managed (tree a).kind ≡ true → w.values a ≡ v)
      → Others a w
      → app.to_generic a v ≡ r
      → Current (after (λ g _ w. (sent a uri g w, ok tt)) context w r).0
  emit_named a v context w uri (ok g) d n h k e =
      sent-Current a uri g w d n (λ m. ap (app.to_generic a) (h m) ∙ e) k
  emit_named a v context w uri (err x) d n h k e =
      split a w
        (λ c j x m i o f. absurd (err-ne_ok (sym e ∙ ap (app.to_generic a) (sym (h m)) ∙ f))) k
  emit_named a v context w uri out_of_range d n h k e =
      split a w
        (λ c j x m i o f. absurd (range-ne_ok (sym e ∙ ap (app.to_generic a) (sym (h m)) ∙ f))) k
  emit_named a v context w uri other_exception d n h k e =
      split a w
        (λ c j x m i o f. absurd (other-ne_ok (sym e ∙ ap (app.to_generic a) (sym (h m)) ∙ f))) k
  emit_named a v context w uri fault d n h k e =
      split a w
        (λ c j x m i o f. absurd (fault-ne_ok (sym e ∙ ap (app.to_generic a) (sym (h m)) ∙ f))) k

  pub emit-Current :
      (a : ℕ) (v : V) (context : Option ℕ) (w : W)
      → Distinct
      → (is_managed (tree a).kind ≡ true → w.values a ≡ v)
      → Others a w
      → Current (emit app fuel tree put a v context w).0
  unfolding emit
  emit-Current a v context w d h k = elim (Option-cases (fq_name fuel a tree)) [
    | inl e ↦ rw e (split a w (λ c j x m i o f. absurd (none-ne_some (sym e ∙ o))) k)
    | inr (uri, e) ↦ rw e (emit_named a v context w uri (app.to_generic a v) d e h k refl)
  ]

  -- A single delivery, to a client that is already connected.
  pub put-Current :
      (a c : ℕ) (uri : Bytes) (g : Value) (w : W)
      → Distinct
      → fq_name fuel a tree ≡ some uri
      → (is_managed (tree a).kind ≡ true → app.to_generic a (w.values a) ≡ ok g)
      → Current w
      → Current (record w { sessions = put c uri g w.sessions })
  put-Current a c uri g w d n h k =
      split a (record w { sessions = put c uri g w.sessions })
        (λ e j x m i o f.
          let was = k a e j x m i o f in
          let l = some_inj (sym n ∙ o) in
          let v = ok_inj (sym (h m) ∙ f) in
          subst (λ j. put c uri g w.sessions e j ≡ some x) l
            (subst (λ x. put c uri g w.sessions e uri ≡ some x) v
              (put-keeps c e uri g w.sessions
                (subst (λ j. w.sessions e j ≡ some g) (sym l) (was ∙ ap some (sym v))))))
        (λ b ne e j x m i o f.
          put-other_uri c e uri j g w.sessions
            (λ s. ne (d b a j m o (subst (λ j. fq_name fuel a tree ≡ some j) s n)))
          ∙ k b e j x m i o f)
