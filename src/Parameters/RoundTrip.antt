-- ===== src/Parameters/RoundTrip.antt =====
-- `observe` followed by `unobserve` (src/core/client_context.cpp) on an external_readonly_parameter
-- (include/decof/external_readonly_parameter.h).
use de_co_f.Base.{
  ℕ, ◌+◌, ◌%◌, ◌^◌, ◌<◌, ◌≡◌, inl, inr, refl, ap, ◌∙◌, Bool, true, false, Option, none, some, List,
  [], ◌∷◌, ◌++◌, arith, ◌==◌, if◌then◌else◌, Bytes, bytes_eq, bytes_eq_self, Bool-cases,
}
use de_co_f.Except.{ok}
use de_co_f.Types.{Value}
use de_co_f.Tree.{external_readonly_parameter, Store, mem, without}
use de_co_f.Tree.Lookup.{fq_name}
use de_co_f.Scgi.Bencode.{pred_size}
use de_co_f.Parameters.Subscriptions.{
  connect_and_emit, observe_external, observe_by, unobserve_by, subscribe, unsubscribe,
}
use de_co_f.Parameters.{
  Application, World, Observables, find, erase, update, remove_one, get_object_dictionary, value,
  emit, deliver_all,
}

self : (c : ℕ) → (c == c) ≡ true
self c = ground arith

update-at : {B : Type 0} (f : ℕ → B) (a : ℕ) (x : B) → update f a x a ≡ x
update-at f a x = rw (self a) refl

update-back :
    {B : Type 0} (f : ℕ → B) (a : ℕ) (x y : B)
    → y ≡ f a
    → (b : ℕ) → update (update f a x) a y b ≡ f b
update-back f a x y e b = elim (Bool-cases (a == b)) [
  | inl s ↦ rw s (e ∙ ap f (ground arith))
  | inr n ↦ rw n refl
]

remove_one-append : (c : ℕ) (xs : List ℕ) → mem c xs ≡ false → remove_one c (xs ++ c ∷ []) ≡ xs
remove_one-append c [] h = rw (self c) refl
remove_one-append c (x ∷ xs) h = elim (Bool-cases (x == c)) [
  | inl e ↦ let h' = rw e at h in absurd (cc)
  | inr e ↦ let h' = rw e at h in rw (e, remove_one-append c xs h') refl
]

without-append : (a : ℕ) (xs : List ℕ) → mem a xs ≡ false → without a (xs ++ a ∷ []) ≡ xs
without-append a [] h = rw (self a) refl
without-append a (x ∷ xs) h = elim (Bool-cases (x == a)) [
  | inl e ↦ let h' = rw e at h in absurd (cc)
  | inr e ↦ let h' = rw e at h in rw (e, without-append a xs h') refl
]

erase-none : (uri : Bytes) (m : Observables) → find uri m ≡ none → erase uri m ≡ m
unfolding find erase
erase-none uri [] h = refl
erase-none uri ((j, o) ∷ m) h = elim (Bool-cases (bytes_eq j uri)) [
  | inl e ↦ let h' = rw e at h in absurd (cc)
  | inr e ↦ let h' = rw e at h in rw (e, erase-none uri m h') refl
]

find-head : (uri : Bytes) (o : Option ℕ) (m : Observables) → find uri ((uri, o) ∷ m) ≡ some o
unfolding find
find-head uri o m = rw (bytes_eq_self uri) refl

erase-head :
    (uri : Bytes) (o : Option ℕ) (m : Observables)
    → find uri m ≡ none
    → erase uri ((uri, o) ∷ m) ≡ m
unfolding erase
erase-head uri o m h = rw (bytes_eq_self uri) (erase-none uri m h)

pred_succ : (n : ℕ) → n + 1 < 2 ^ 64 → pred_size ((n + 1) % 2 ^ 64) ≡ n
pred_succ n l = omega arith

module _ {V D S : Type 0} (app : Application V D) (fuel : ℕ) (tree : Store)
    (deliver : ℕ → Bytes → Value → S → S) where
  abbrev begun : ℕ → ℕ → ℕ → World V D S → World V D S
  begun d a c w = record w {
    observations = update w.observations a ((w.observations a + 1) % 2 ^ 64);
    tick_targets =
        if w.observations a == 0
        then update w.tick_targets d (w.tick_targets d ++ a ∷ [])
        else w.tick_targets;
    slots = update w.slots a (w.slots a ++ c ∷ []);
  }

  abbrev subscribed : ℕ → ℕ → ℕ → Bytes → D → Value → World V D S → World V D S
  subscribed d a c uri x g w =
      let w1 = begun d a c w in
      record w1 {
        app = x;
        sessions = deliver_all app fuel tree deliver (w1.slots a) uri g w1.sessions;
        observables = update w1.observables c ((uri, some a) ∷ w1.observables c);
      }

  begins :
      (b : Bool) (d a c : ℕ) (context : Option ℕ) (w : World V D S) (uri : Bytes) (x : D) (v : V)
      (g : Value)
      → (w.observations a == 0) ≡ b
      → fq_name fuel a tree ≡ some uri
      → get_object_dictionary fuel a tree ≡ some (some d)
      → app.external_value a context w.app ≡ (x, ok v)
      → app.to_generic a v ≡ ok g
      → find uri (w.observables c) ≡ none
      → subscribe app fuel tree deliver c external_readonly_parameter a context w
        ≡ (subscribed d a c uri x g w, ok tt)
  unfolding subscribe observe_by observe_external connect_and_emit value emit find
      get_object_dictionary
  begins true d a c context w uri x v g z n o e t f = rw (n, f, o, z, e, n, t) refl
  begins false d a c context w uri x v g z n o e t f = rw (n, f, o, z, e, n, t) refl

  abbrev unsubscribed : Bool → ℕ → ℕ → ℕ → Bytes → World V D S → World V D S
  unsubscribed b d a c uri w = record w {
    slots = update w.slots a (remove_one c (w.slots a));
    observables = update w.observables c (erase uri (w.observables c));
    observations = update w.observations a (pred_size (w.observations a));
    tick_targets =
        if b then update w.tick_targets d (without a (w.tick_targets d)) else w.tick_targets;
  }

  ends :
      (b : Bool) (d a c : ℕ) (context : Option ℕ) (w : World V D S) (uri : Bytes)
      → (pred_size (w.observations a) == 0) ≡ b
      → fq_name fuel a tree ≡ some uri
      → get_object_dictionary fuel a tree ≡ some (some d)
      → find uri (w.observables c) ≡ some (some a)
      → unsubscribe app fuel tree deliver c external_readonly_parameter a context w
        ≡ (unsubscribed b d a c uri w, ok tt)
  unfolding unsubscribe unobserve_by find get_object_dictionary
  ends true d a c context w uri z n o f = rw (n, f, z, o) refl
  ends false d a c context w uri z n o f = rw (n, f, z) refl

  -- What a subscription leaves of two states that does not come from the application.
  pub record Restored (w t : World V D S) : Type 0 where
    pub values : t.values ≡ w.values
    pub last : t.last ≡ w.last
    pub slots : (b : ℕ) → t.slots b ≡ w.slots b
    pub observations : (b : ℕ) → t.observations b ≡ w.observations b
    pub tick_targets : (b : ℕ) → t.tick_targets b ≡ w.tick_targets b
    pub observables : (b : ℕ) → t.observables b ≡ w.observables b

  restored_targets :
      (b : Bool) (t : ℕ → List ℕ) (d a : ℕ)
      → (b ≡ true → mem a (t d) ≡ false)
      → (e : ℕ)
      → (if b
            then update
                (if b then update t d (t d ++ a ∷ []) else t)
                d
                (without a ((if b then update t d (t d ++ a ∷ []) else t) d))
            else (if b then update t d (t d ++ a ∷ []) else t))
          e
        ≡ t e
  restored_targets true t d a h e =
      update-back t d (t d ++ a ∷ []) _
        (ap (without a) (update-at t d (t d ++ a ∷ [])) ∙ without-append a (t d) (h refl)) e
  restored_targets false t d a h e = refl

  restored :
      (d a c : ℕ) (w : World V D S) (uri : Bytes) (x : D) (g : Value)
      → find uri (w.observables c) ≡ none
      → mem c (w.slots a) ≡ false
      → (w.observations a ≡ 0 → mem a (w.tick_targets d) ≡ false)
      → w.observations a + 1 < 2 ^ 64
      → Restored w (unsubscribed (w.observations a == 0) d a c uri (subscribed d a c uri x g w))
  restored d a c w uri x g f s h l = record {
    values = refl;
    last = refl;
    slots = update-back w.slots a (w.slots a ++ c ∷ []) _ (
        ap (remove_one c) (update-at w.slots a (w.slots a ++ c ∷ []))
        ∙ remove_one-append c (w.slots a) s);
    observations = update-back w.observations a ((w.observations a + 1) % 2 ^ 64) _ (
        ap pred_size (update-at w.observations a ((w.observations a + 1) % 2 ^ 64))
        ∙ pred_succ (w.observations a) l);
    tick_targets =
        restored_targets (w.observations a == 0) w.tick_targets d a (λ z. h (ground arith));
    observables = update-back w.observables c ((uri, some a) ∷ w.observables c) _ (
        ap (erase uri) (update-at w.observables c ((uri, some a) ∷ w.observables c))
        ∙ erase-head uri (some a) (w.observables c) f);
  }

  -- Let a client that is not subscribed to an external parameter `a`, whose dictionary is `d`, subscribe to
  -- it, and let the getter and the conversion of its value succeed. Let `a` be ticked only if somebody
  -- observes it, and the number of observers not overflow. Then the subscription succeeds, the value goes
  -- to every slot that is connected, the new one included, unsubscribing afterwards succeeds too, and the
  -- slots, the number of observers, the objects that are ticked and the map of each client are as before.
  pub unsubscribe-subscribe :
      (d a c : ℕ) (context : Option ℕ) (w : World V D S) (uri : Bytes) (x : D) (v : V) (g : Value)
      → fq_name fuel a tree ≡ some uri
      → get_object_dictionary fuel a tree ≡ some (some d)
      → app.external_value a context w.app ≡ (x, ok v)
      → app.to_generic a v ≡ ok g
      → find uri (w.observables c) ≡ none
      → mem c (w.slots a) ≡ false
      → (w.observations a ≡ 0 → mem a (w.tick_targets d) ≡ false)
      → w.observations a + 1 < 2 ^ 64
      → (t u : World V D S) × (subscribe app fuel tree deliver c external_readonly_parameter a
            context w
          ≡ (t, ok tt))
        × (t.sessions ≡ deliver_all app fuel tree deliver (w.slots a ++ c ∷ []) uri g w.sessions)
        × (unsubscribe app fuel tree deliver c external_readonly_parameter a context t ≡ (u, ok tt))
        × Restored w u
  unsubscribe-subscribe d a c context w uri x v g n o e t f s h l =
      let w1 = subscribed d a c uri x g w in
      (
        w1,
        unsubscribed (w.observations a == 0) d a c uri w1,
        begins (w.observations a == 0) d a c context w uri x v g refl n o e t f,
        ap (λ cs. deliver_all app fuel tree deliver cs uri g w.sessions)
            (update-at w.slots a (w.slots a ++ c ∷ [])),
        ends (w.observations a == 0) d a c context w1 uri
            (ap (λ k. pred_size k == 0)
                (update-at w.observations a ((w.observations a + 1) % 2 ^ 64))
              ∙ ap (λ k. k == 0) (pred_succ (w.observations a) l))
            n o
            (ap (find uri) (update-at w.observables c ((uri, some a) ∷ w.observables c))
              ∙ find-head uri (some a) (w.observables c)),
        restored d a c w uri x g f s h l,
      )
