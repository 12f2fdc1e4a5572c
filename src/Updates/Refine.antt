-- ===== src/Updates/Refine.antt =====
-- src/cli/update_container.cpp and the abstract queue.
use de_co_f.Base.{
  ℕ, ◌≡◌, refl, true, false, ◌||◌, Option, none, some, [], ◌∷◌, ◌++◌, is_empty, arith, Bool-cases,
  inl, inr, Bytes, bytes_eq, bytes_eq_iff,
}
use de_co_f.Types.{Value}
use de_co_f.Updates.{
  Mapped, Map, find, assign, erase, UpdateContainer, Outcome, ok, out_of_range, link_back, link_new,
  empty_container, push, pop_front, empty,
}
use de_co_f.Updates.Abstract.{Queue, has_key, replace, enqueue, Distinct, last_key}
use de_co_f.Updates.Chain.{
  Chain, Chain-replace, Chain-link, Chain-erase, find_of_Chain, has_key_of_last, find-linked,
}
use de_co_f.Updates.Map.{find-assign, find-erase, empty_of_find, ne_empty_of_find}

-- The container stands for the queue `q`: the iterators lead through its keys, `back_` is at the
-- last one, no key occurs twice, and the map holds nothing else.
pub record Represents (c : UpdateContainer) (q : Queue) : Type 0 where
  pub chain : Chain c.updates c.front q
  pub back_is : c.back ≡ last_key q
  pub distinct : Distinct q
  pub covered : (k : Bytes) → has_key k q ≡ false → find k c.updates ≡ none

-- A container pushed to: the outcome is defined, and stands for `q`.
pub data Returns (q : Queue) : Outcome UpdateContainer → Type 0 where
  returns : {c : UpdateContainer} → Represents c q → Returns q (ok c)

has_key-replace :
    (k : Bytes) (v : Value) (t : ℕ) (q : Queue) (j : Bytes)
    → has_key j (replace k v t q) ≡ has_key j q
has_key-replace k v t [] j = refl
has_key-replace k v t ((i, w, s) ∷ q) j = ground (arith, has_key-replace k v t q j)

Distinct-replace :
    (k : Bytes) (v : Value) (t : ℕ) (q : Queue) → Distinct q → Distinct (replace k v t q)
Distinct-replace k v t [] d = tt
Distinct-replace k v t ((i, w, s) ∷ q) d =
    (rw (has_key-replace k v t q i) d.0, Distinct-replace k v t q d.1)

last_key-replace :
    (k : Bytes) (v : Value) (t : ℕ) (q : Queue) → last_key (replace k v t q) ≡ last_key q
last_key-replace k v t [] = refl
last_key-replace k v t (x ∷ []) = refl
last_key-replace k v t (x ∷ y ∷ q) = last_key-replace k v t (y ∷ q)

has_key-concat :
    (k : Bytes) (v : Value) (t : ℕ) (q : Queue) (j : Bytes)
    → has_key j (q ++ (k, v, t) ∷ []) ≡ (has_key j q || bytes_eq k j)
has_key-concat k v t [] j = ground arith
has_key-concat k v t ((i, w, s) ∷ q) j = ground (arith, has_key-concat k v t q j)

Distinct-concat :
    (k : Bytes) (v : Value) (t : ℕ) (q : Queue)
    → has_key k q ≡ false
    → Distinct q
    → Distinct (q ++ (k, v, t) ∷ [])
Distinct-concat k v t [] n d = (refl, tt)
Distinct-concat k v t ((i, w, s) ∷ q) n d = (
  ground (arith, has_key-concat k v t q i, bytes_eq_iff k i, bytes_eq_iff i k),
  Distinct-concat k v t q (ground arith) d.1,
)

last_key-concat :
    (k : Bytes) (v : Value) (t : ℕ) (q : Queue) → last_key (q ++ (k, v, t) ∷ []) ≡ some k
last_key-concat k v t [] = refl
last_key-concat k v t (x ∷ []) = refl
last_key-concat k v t (x ∷ y ∷ q) = last_key-concat k v t (y ∷ q)

replaced :
    (c : UpdateContainer) (q : Queue) (k : Bytes) (v : Value) (t : ℕ) (d : Mapped)
    → Represents c q
    → find k c.updates ≡ some d
    → has_key k q ≡ true
    → Represents
        (record c { updates = assign k (record d { value = v; time = t }) c.updates })
        (replace k v t q)
replaced c q k v t d r f h = record {
  chain = Chain-replace c.updates k v t d c.front q f r.chain;
  back_is = rw (last_key-replace k v t q) r.back_is;
  distinct = Distinct-replace k v t q r.distinct;
  covered = λ j n. ground (
    arith,
    has_key-replace k v t q j,
    bytes_eq_iff k j,
    r.covered j,
    find-assign k j (record d { value = v; time = t }) c.updates,
  );
}

last_key-some :
    (k : Bytes) (v : Value) (t : ℕ) (q : Queue) → (b : Bytes) × (last_key ((k, v, t) ∷ q) ≡ some b)
last_key-some k v t [] = (k, refl)
last_key-some k v t ((j, w, s) ∷ q) = last_key-some j w s q

linked :
    (c : UpdateContainer) (q : Queue) (k : Bytes) (v : Value) (t : ℕ) (b : Bytes) (d : Mapped)
    → Represents c q
    → has_key k q ≡ false
    → last_key q ≡ some b
    → find b c.updates ≡ some d
    → Represents
        (record {
          updates =
              assign b
                (record d { next = some k })
                (assign k (record { time = t; value = v; next = none }) c.updates);
          front = c.front;
          back = some k;
        })
        (q ++ (k, v, t) ∷ [])
linked c q k v t b d r n l f = record {
  chain = Chain-link c.updates k v t b d c.front q r.chain r.distinct n l f;
  back_is = rw (last_key-concat k v t q);
  distinct = Distinct-concat k v t q n r.distinct;
  covered = λ j out. ground (
    arith,
    has_key-concat k v t q j,
    r.covered j,
    has_key_of_last q b l,
    bytes_eq_iff b j,
    find-linked c.updates k b (record { time = t; value = v; next = none })
        (record d { next = some k }) j,
  );
}

appended :
    (c : UpdateContainer) (q : Queue) (k : Bytes) (v : Value) (t : ℕ)
    → Represents c q
    → has_key k q ≡ false
    → Returns (q ++ (k, v, t) ∷ []) (
        link_new k
          (assign k (record { time = t; value = v; next = none }) c.updates)
          c.front
          c.back)
unfolding link_new link_back
appended c [] k v t r n =
    let new : Mapped = record { time = t; value = v; next = none } in
    rw (r.chain, link_new)
      (returns (record {
        chain = (refl, none, ground (arith, find-assign k k new c.updates, bytes_eq_iff k k), refl);
        back_is = refl;
        distinct = (refl, tt);
        covered = λ j out. ground (arith, find-assign k j new c.updates, r.covered j);
      }))
appended c ((i, w, s) ∷ q) k v t r n =
    let (b, l) = last_key-some i w s q in
    let (d, f) =
      find_of_Chain c.updates c.front ((i, w, s) ∷ q) b r.chain
        (has_key_of_last ((i, w, s) ∷ q) b l) in
    let new : Mapped = record { time = t; value = v; next = none } in
    let kept : find b (assign k new c.updates) ≡ some d = ground (
      arith,
      find-assign k b new c.updates,
      bytes_eq_iff k b,
      has_key_of_last ((i, w, s) ∷ q) b l,
    ) in
    rw (r.chain.0, link_new, r.back_is, l, link_back, kept)
      (returns (rw (← r.chain.0) (linked c ((i, w, s) ∷ q) k v t b d r n l f)))

-- `push` is always defined, and is the abstract insertion: a pending key keeps its place and gets
-- the new value and time, a new one goes to the end.
pub push-enqueue :
    (c : UpdateContainer) (q : Queue) (k : Bytes) (v : Value) (t : ℕ)
    → Represents c q
    → Returns (enqueue k v t q) (push k v t c)
unfolding push
push-enqueue c q k v t r = elim (Bool-cases (has_key k q)) [
  | inl h ↦
      let (d, f) = find_of_Chain c.updates c.front q k r.chain h in
      rw (h, f, push) (returns (replaced c q k v t d r f h))
  | inr h ↦ rw (h, r.covered k h, push) (appended c q k v t r h)
]

-- The outcome of a pop, read off the queue.
pub data Pops : Queue → Outcome ((Bytes × Value × ℕ) × UpdateContainer) → Type 0 where
  exhausted : Pops [] out_of_range
  pops :
      {x : Bytes × Value × ℕ} {q : Queue} {c : UpdateContainer}
      → Represents c q
      → Pops (x ∷ q) (ok (x, c))

popped :
    (c : UpdateContainer) (q : Queue) (k : Bytes) (v : Value) (t : ℕ) (nx : Option Bytes)
    → Represents c ((k, v, t) ∷ q)
    → Chain c.updates nx q
    → Represents
        (record {
          updates = erase k c.updates;
          front = nx;
          back = elim nx [ none ↦ none | some _ ↦ c.back ];
        })
        q
popped c [] k v t nx r h = record {
  chain = h;
  back_is = rw h refl;
  distinct = tt;
  covered = λ j out. ground (arith, find-erase k j c.updates, r.covered j);
}
popped c ((i, w, s) ∷ q) k v t nx r h = record {
  chain = Chain-erase c.updates k nx ((i, w, s) ∷ q) r.distinct.0 h;
  back_is = rw h.0 r.back_is;
  distinct = r.distinct.1;
  covered = λ j out. ground (arith, find-erase k j c.updates, r.covered j);
}

pop_front_parts :
    (m : Map) (front back : Option Bytes) (q : Queue)
    → Represents (record { updates = m; front = front; back = back }) q
    → Pops q (pop_front (record { updates = m; front = front; back = back }))
unfolding pop_front
pop_front_parts m front back [] r = rw r.chain exhausted
pop_front_parts m front back ((k, v, t) ∷ q) r =
    let (e, nx, f, h) = r.chain in
    rw (e, f, pop_front)
      (pops (popped (record { updates = m; front = front; back = back }) q k v t nx r h))

-- `pop_front` throws on an empty queue only; otherwise it returns the oldest entry, and what is
-- left stands for the rest of the queue. It never follows an invalid iterator.
pub pop_front_lem : (c : UpdateContainer) (q : Queue) → Represents c q → Pops q (pop_front c)
pop_front_lem c = pop_front_parts c.updates c.front c.back

-- `empty` tells whether the queue is empty.
pub empty_lem : (c : UpdateContainer) (q : Queue) → Represents c q → empty c ≡ is_empty q
unfolding empty
empty_lem c [] r = rw (empty_of_find c.updates (λ k. r.covered k refl))
empty_lem c ((k, v, t) ∷ q) r = ne_empty_of_find c.updates k _ r.chain.2

pub empty_container-Represents : Represents empty_container []
unfolding empty_container find
empty_container-Represents = record {
  chain = refl;
  back_is = refl;
  distinct = tt;
  covered = λ k out. refl;
}
