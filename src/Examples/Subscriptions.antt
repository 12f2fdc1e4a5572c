-- ===== src/Examples/Subscriptions.antt =====
-- The theorems on subscriptions: a managed parameter that a client observes, and an external one.
use de_co_f.Base.{
  ℕ, ◌≡◌, ◌≢◌, ◌⊎◌, inl, inr, ◌∙◌, sym, ap, Bool-cases, refl, true, false, none, some, List, [],
  ◌∷◌, ◌++◌, arith, ◌==◌, if◌then◌else◌, Option, Bytes, codes,
}
use de_co_f.Types.{Value}
use de_co_f.Except.{ok}
use de_co_f.Tree.{
  Store, object_dictionary, managed_readwrite_parameter, external_readonly_parameter,
}
use de_co_f.Tree.Lookup.{fq_name}
use de_co_f.Parameters.Subscriptions.{subscribe, unsubscribe}
use de_co_f.Parameters.{Application, get_object_dictionary, deliver_all, find}
use de_co_f.Parameters.Deliveries.{put}
use de_co_f.Parameters.Current.{is_managed, Distinct, W}
use de_co_f.Parameters.Subscribers.{Consistent}
use de_co_f.Parameters.Calls.{
  closed, Call, observed, set, changed, tick_dictionary, unobserved, serve_all,
  serve_all-Consistent,
}
use de_co_f.Parameters.RoundTrip.{Restored, unsubscribe-subscribe}
use de_co_f.Examples.Data.{nothing, word, client, guest}

-- Values are generic values, and the application keeps the external one.
abbrev application : Application Value Value
application = record {
  from_generic = λ a g. ok g;
  to_generic = λ a v. ok v;
  equal = λ a u v. false;
  external_value = λ a x d. (d, ok d);
  set_external_value = λ a v x d. (v, ok true);
  set_value = λ a v x d. (d, ok tt);
  verify = λ a v x d. (d, ok tt);
  signal = λ a x d. (d, ok tt);
}

-- "r" with a managed parameter "p" and an external one "px".
abbrev objects : Store
objects a =
    if a == 0
    then record nothing {
      alive = true;
      kind = object_dictionary;
      name = codes "r";
      readlevel = 4;
      children = 1 ∷ 2 ∷ [];
    }
    else if a == 1
    then record nothing {
      alive = true;
      kind = managed_readwrite_parameter;
      name = codes "p";
      parent = some 0;
      readlevel = 4;
      writelevel = 4;
    }
    else if a == 2
    then record nothing {
      alive = true;
      kind = external_readonly_parameter;
      name = codes "px";
      parent = some 0;
      readlevel = 4;
    }
    else nothing

abbrev name_of : ℕ → Option Bytes
name_of a = fq_name 9 a objects

false-ne_true : false ≢ true
false-ne_true e = cc

-- Every object but "p" has another name, and is not managed.
others :
    (a : ℕ) → (a ≡ 1) ⊎ ((is_managed (objects a).kind ≡ false) × (name_of a ≢ some (codes "r:p")))
unfolding fq_name
others a = elim (Bool-cases (a == 0)) [
  | inl e ↦ rw e (inr (refl, λ h. cc))
  | inr e ↦ elim (Bool-cases (a == 1)) [
    | inl f ↦ inl (ground arith)
    | inr f ↦ elim (Bool-cases (a == 2)) [
      | inl g ↦ rw (e, f, g) (inr (refl, λ h. cc))
      | inr g ↦ rw (e, f, g) (inr (refl, λ h. cc))
    ]
  ]
]

objects-Distinct : Distinct application 9 objects
unfolding fq_name
objects-Distinct a b uri m e f = elim (others a) [
  | inr (u, _) ↦ absurd (false-ne_true (sym u ∙ m))
  | inl p ↦ elim (others b) [
    | inl q ↦ p ∙ sym q
    | inr (_, n) ↦ absurd (n (f ∙ sym e ∙ ap name_of p))
  ]
]

abbrev world : W application 9 objects
world = record {
  app = word;
  values = λ a. word;
  last = λ a. none;
  observations = λ a. 0;
  slots = λ a. [];
  tick_targets = λ a. [];
  observables = λ a. [];
  sessions = λ c uri. none;
}

world-Consistent : Consistent application 9 objects world
world-Consistent = record { current = λ a c uri g m i. absurd (cc); targets = λ d a i. absurd (cc) }

abbrev calls : List (Call application 9 objects objects-Distinct)
calls =
    observed guest (some 1)
    ∷ observed guest (some 2)
    ∷ set client (some 1) word
    ∷ changed 2
    ∷ tick_dictionary 0
    ∷ unobserved guest (some 1)
    ∷ closed 101
    ∷ []

serve_all-Consistent_example :
    Consistent application 9 objects
      (serve_all application 9 objects objects-Distinct calls
        (record { context = none; device = world })).device
serve_all-Consistent_example =
    serve_all-Consistent application 9 objects objects-Distinct calls
      (record { context = none; device = world }) (tt, (tt, (tt, (refl, (tt, (tt, (tt, tt)))))))
      world-Consistent

unsubscribe-subscribe_example :
    (t u : W application 9 objects) × (subscribe application 9 objects put 101
        external_readonly_parameter 2
        (some 101)
        world
      ≡ (t, ok tt))
    × (t.sessions
        ≡ deliver_all application 9 objects put
            ([] ++ 101 ∷ [])
            (codes "r:px")
            word
            (λ c uri. none))
    × (unsubscribe application 9 objects put 101 external_readonly_parameter 2 (some 101) t
        ≡ (u, ok tt))
    × Restored application 9 objects put world u
unfolding fq_name get_object_dictionary find
unsubscribe-subscribe_example =
    unsubscribe-subscribe application 9 objects put 0 2 101 (some 101) world (codes "r:px") word
      word word refl refl refl refl refl refl (λ e. refl) (omega arith)
