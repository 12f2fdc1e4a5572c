-- ===== src/Updates/Chain.antt =====
-- The list that the `next` iterators of src/cli/update_container.cpp lead through, from `front_`.
use de_co_f.Base.{
  ℕ, ◌≡◌, refl, true, false, Option, none, some, [], ◌∷◌, ◌++◌, if◌then◌else◌, arith, Bool-cases,
  inl, inr, Bytes, bytes_eq, bytes_eq_iff,
}
use de_co_f.Types.{Value}
use de_co_f.Updates.{Mapped, Map, find, assign, erase}
use de_co_f.Updates.Abstract.{Queue, has_key, replace, Distinct, last_key}
use de_co_f.Updates.Map.{find-assign, find-erase}

abbrev pub Chain : Map → Option Bytes → Queue → Type 0
Chain m p [] = p ≡ none
Chain m p ((k, v, t) ∷ q) =
    (p ≡ some k)
    × (nx : Option Bytes) × (find k m ≡ some (record { time = t; value = v; next = nx }))
    × Chain m nx q

-- A map that agrees on the keys of the queue has the same chain.
pub Chain-frame :
    (m n : Map) (p : Option Bytes) (q : Queue)
    → ((k : Bytes) → has_key k q ≡ true → find k n ≡ find k m)
    → Chain m p q
    → Chain n p q
Chain-frame m n p [] same c = c
Chain-frame m n p ((k, v, t) ∷ q) same (e, nx, f, r) = (
  e,
  nx,
  ground (arith, same k, bytes_eq_iff k k),
  Chain-frame m n nx q (λ j h. same j (ground arith)) r,
)

pub Chain-replace :
    (m : Map) (k : Bytes) (v : Value) (t : ℕ) (d : Mapped) (p : Option Bytes) (q : Queue)
    → find k m ≡ some d
    → Chain m p q
    → Chain (assign k (record d { value = v; time = t }) m) p (replace k v t q)
Chain-replace m k v t d p [] h c = c
Chain-replace m k v t d p ((j, w, s) ∷ q) h (e, nx, f, r) = (
  e,
  nx,
  ground (
    arith,
    find-assign k j (record d { value = v; time = t }) m,
    bytes_eq_iff j k,
    bytes_eq_iff k j,
  ),
  Chain-replace m k v t d nx q h r,
)

-- The keys found through the chain.
pub find_of_Chain :
    (m : Map) (p : Option Bytes) (q : Queue) (k : Bytes)
    → Chain m p q
    → has_key k q ≡ true
    → (e : Mapped) × (find k m ≡ some e)
find_of_Chain m p [] k c h = absurd (cc)
find_of_Chain m p ((j, v, t) ∷ q) k (e, nx, f, r) h = elim (Bool-cases (bytes_eq j k)) [
  | inl same ↦ (record { time = t; value = v; next = nx }, ground (arith, bytes_eq_iff j k))
  | inr other ↦ find_of_Chain m nx q k r (ground arith)
]

-- The element of the last key leads to the end.
pub last_next :
    (m : Map) (p : Option Bytes) (q : Queue) (b : Bytes) (e : Mapped)
    → Chain m p q
    → last_key q ≡ some b
    → find b m ≡ some e
    → e.next ≡ none
last_next m p [] b e c l h = absurd (cc)
last_next m p ((j, v, t) ∷ []) b e (_, nx, f, r) l h = ground arith
last_next m p ((j, v, t) ∷ x ∷ q) b e (_, nx, f, r) l h = last_next m nx (x ∷ q) b e r l h

pub has_key_of_last : (q : Queue) (b : Bytes) → last_key q ≡ some b → has_key b q ≡ true
has_key_of_last [] b l = absurd (cc)
has_key_of_last ((j, v, t) ∷ []) b l = ground (arith, bytes_eq_iff j b)
has_key_of_last ((j, v, t) ∷ x ∷ q) b l = ground (arith, has_key_of_last (x ∷ q) b l)

-- What the two assignments of `push` leave at a key.
module _ (m : Map) (k b : Bytes) (new old : Mapped) where
  pub find-linked :
      (j : Bytes)
      → find j (assign b old (assign k new m))
        ≡ (if bytes_eq b j then some old else if bytes_eq k j then some new else find j m)
  find-linked j = rw (find-assign b j old (assign k new m), find-assign k j new m)

-- `back_->second.next = current`, for an element `current` that is new.
pub Chain-link :
    (m : Map) (k : Bytes) (v : Value) (t : ℕ) (b : Bytes) (d : Mapped) (p : Option Bytes)
    (q : Queue)
    → Chain m p q
    → Distinct q
    → has_key k q ≡ false
    → last_key q ≡ some b
    → find b m ≡ some d
    → Chain
        (assign b
          (record d { next = some k })
          (assign k (record { time = t; value = v; next = none }) m))
        p
        (q ++ (k, v, t) ∷ [])
Chain-link m k v t b d p [] c u n l h = absurd (cc)
Chain-link m k v t b d p ((j, w, s) ∷ []) (e, nx, f, r) u n l h =
    let new : Mapped = record { time = t; value = v; next = none } in
    let old : Mapped = record d { next = some k } in
    (
      e,
      some k,
      ground (arith, find-linked m k b new old j, bytes_eq_iff b j),
      (
        refl,
        none,
        ground (
          arith,
          find-linked m k b new old k,
          bytes_eq_iff b k,
          bytes_eq_iff j k,
          bytes_eq_iff k k,
        ),
        refl,
      ),
    )
Chain-link m k v t b d p ((j, w, s) ∷ x ∷ q) (e, nx, f, r) u n l h =
    let new : Mapped = record { time = t; value = v; next = none } in
    let old : Mapped = record d { next = some k } in
    (
      e,
      nx,
      ground (
        arith,
        find-linked m k b new old j,
        bytes_eq_iff b j,
        bytes_eq_iff k j,
        bytes_eq_iff j k,
        has_key_of_last (x ∷ q) b l,
      ),
      Chain-link m k v t b d nx (x ∷ q) r u.1 (ground arith) l h,
    )

pub Chain-erase :
    (m : Map) (k : Bytes) (p : Option Bytes) (q : Queue)
    → has_key k q ≡ false
    → Chain m p q
    → Chain (erase k m) p q
Chain-erase m k p q n =
    Chain-frame m (erase k m) p q (λ j h. ground (arith, find-erase k j m, bytes_eq_iff k j))
