-- ===== src/Access/Browse.antt =====
-- `browse_object` of src/core/basic_client_context.cpp, and what it is to visit.
use de_co_f.Base.{
  ℕ, zero, suc, ◌≤◌, ◌<◌, ◌≡◌, ◌⊎◌, ◌↔◌, inl, inr, refl, sym, subst, ap, ◌∙◌, true, false, ◌||◌,
  none, some, List, [], ◌∷◌, ◌++◌, arith, leb, Bool-cases, All,
}
use de_co_f.Tree.{is_node, Store, mem}
use de_co_f.Access.{browse, browse_children}

-- The tree below an address is at most `n` objects high.
abbrev pub IsHigh : ℕ → Store → ℕ → Type 0
IsHigh zero tree a = ⊥
IsHigh (suc n) tree a = All (IsHigh n tree) (tree a).children

-- An object that browsing from `a` promises to visit: `a` itself, and every child that the client may
-- read of a node it visits.
pub data Visible (ul : ℕ) (tree : Store) (a : ℕ) : ℕ → Type 0 where
  here : Visible ul tree a a
  below :
      (p c : ℕ)
      → Visible ul tree a p
      → is_node (tree p).kind ≡ true
      → mem c (tree p).children ≡ true
      → ul ≤ (tree c).readlevel
      → Visible ul tree a c

mem-append : (c : ℕ) (xs ys : List ℕ) → mem c (xs ++ ys) ≡ (mem c xs || mem c ys)
mem-append c [] ys = refl
mem-append c (x ∷ xs) ys = ground (arith, mem-append c xs ys)

mem-head : (d : ℕ) (cs : List ℕ) → mem d (d ∷ cs) ≡ true
mem-head d cs = ground arith

mem-tail : (x d : ℕ) (cs : List ℕ) → mem x cs ≡ true → mem x (d ∷ cs) ≡ true
mem-tail x d cs h = ground arith

mem-cons : (x d : ℕ) (cs : List ℕ) → mem x (d ∷ cs) ≡ true → (d ≡ x) ⊎ (mem x cs ≡ true)
mem-cons x d cs h = ground arith

mem-either :
    (c : ℕ) (xs ys : List ℕ) → mem c (xs ++ ys) ≡ true → (mem c xs ≡ true) ⊎ (mem c ys ≡ true)
mem-either c xs ys h = ground (arith, mem-append c xs ys)

mem-left : (c : ℕ) (xs ys : List ℕ) → mem c xs ≡ true → mem c (xs ++ ys) ≡ true
mem-left c xs ys h = ground (arith, mem-append c xs ys)

mem-right : (c : ℕ) (xs ys : List ℕ) → mem c ys ≡ true → mem c (xs ++ ys) ≡ true
mem-right c xs ys h = ground (arith, mem-append c xs ys)

module _ (ul : ℕ) (tree : Store) where
  -- Visible from one of some objects that the client may read.
  abbrev Below : List ℕ → ℕ → Type 0
  Below cs c = (d : ℕ) × (mem d cs ≡ true) × (ul ≤ (tree d).readlevel) × Visible ul tree d c

  Visible-trans : {a p c : ℕ} → Visible ul tree a p → Visible ul tree p c → Visible ul tree a c
  Visible-trans v Visible.here = v
  Visible-trans v (below p c w k m l) = below p c (Visible-trans v w) k m l

  Visible-front :
      {a c : ℕ}
      → Visible ul tree a c
      → (a ≡ c) ⊎ ((is_node (tree a).kind ≡ true) × Below (tree a).children c)
  Visible-front Visible.here = inl refl
  Visible-front (below p c v k m l) = elim (Visible-front v) [
    | inl e ↦ inr (
      ap (λ q. is_node (tree q).kind) e ∙ k,
      (c, ap (λ q. mem c (tree q).children) e ∙ m, l, here),
    )
    | inr (k', (d, m', l', w)) ↦ inr (k', (d, m', l', below p c w k m l))
  ]

  abbrev Children : ℕ → List ℕ → List ℕ → Type 0
  Children n cs xs =
      (browse_children (browse n ul tree) ul tree cs ≡ some xs)
      × ((c : ℕ) → (mem c xs ≡ true) ↔ Below cs c)

  abbrev pub Visits : ℕ → ℕ → List ℕ → Type 0
  Visits n a xs =
      (browse n ul tree a ≡ some xs) × ((c : ℕ) → (mem c xs ≡ true) ↔ Visible ul tree a c)

  Below-cons :
      (d : ℕ) (cs xs ys : List ℕ) (c : ℕ)
      → ul ≤ (tree d).readlevel
      → ((mem c xs ≡ true) ↔ Visible ul tree d c)
      → ((mem c ys ≡ true) ↔ Below cs c)
      → (mem c (xs ++ ys) ≡ true) ↔ Below (d ∷ cs) c
  Below-cons d cs xs ys c l v b = (
    λ m. elim (mem-either c xs ys m) [
      | inl i ↦ (d, mem-head d cs, l, v.0 i)
      | inr i ↦ let (x, k, r, w) = b.0 i in (x, mem-tail x d cs k, r, w)
    ],
    λ (x, k, r, w). elim (mem-cons x d cs k) [
      | inl e ↦ mem-left c xs ys (v.1 (subst (λ y. Visible ul tree y c) (sym e) w))
      | inr i ↦ mem-right c xs ys (b.1 (x, i, r, w))
    ],
  )

  Below-skip :
      (d : ℕ) (cs ys : List ℕ) (c : ℕ)
      → (tree d).readlevel < ul
      → ((mem c ys ≡ true) ↔ Below cs c)
      → (mem c ys ≡ true) ↔ Below (d ∷ cs) c
  Below-skip d cs ys c l b = (
    λ m. let (x, k, r, w) = b.0 m in (x, mem-tail x d cs k, r, w),
    λ (x, k, r, w). elim (mem-cons x d cs k) [
      | inl e ↦ absurd (omega (arith, ap (λ y. (tree y).readlevel) e))
      | inr i ↦ b.1 (x, i, r, w)
    ],
  )

  children_lem :
      (n : ℕ) (cs : List ℕ)
      → ((a : ℕ) → IsHigh n tree a → (xs : List ℕ) × Visits n a xs)
      → All (IsHigh n tree) cs
      → (xs : List ℕ) × Children n cs xs
  unfolding browse_children
  children_lem n [] b h = ([], (refl, λ c. (λ m. absurd (cc), λ (_, m, _, _). absurd (cc))))
  children_lem n (d ∷ cs) b h =
      let (xs, (e, v)) = b d h.0 in
      let (ys, (r, w)) = children_lem n cs b h.1 in
      elim (Bool-cases (leb ul (tree d).readlevel)) [
        | inl l ↦ (
          xs ++ ys,
          (
            rw (l, e) (ap (λ o. elim o [ none ↦ none | some zs ↦ some (xs ++ zs) ]) r),
            λ c. Below-cons d cs xs ys c (ground arith) (v c) (w c),
          ),
        )
        | inr l ↦ (ys, (rw l r, λ c. Below-skip d cs ys c (ground arith) (w c)))
      ]

  node-Visible :
      (a : ℕ) (xs : List ℕ) (c : ℕ)
      → is_node (tree a).kind ≡ true
      → ((mem c xs ≡ true) ↔ Below (tree a).children c)
      → (mem c (a ∷ xs) ≡ true) ↔ Visible ul tree a c
  node-Visible a xs c k v = (
    λ m. elim (mem-cons c a xs m) [
      | inl e ↦ subst (Visible ul tree a) e here
      | inr i ↦ let (d, j, l, w) = v.0 i in Visible-trans (below a d here k j l) w
    ],
    λ w. elim (Visible-front w) [
      | inl e ↦ subst (λ y. mem y (a ∷ xs) ≡ true) e (mem-head a xs)
      | inr (_, b) ↦ mem-tail c a xs (v.1 b)
    ],
  )

  leaf-Visible :
      (a c : ℕ) → is_node (tree a).kind ≡ false → (mem c (a ∷ []) ≡ true) ↔ Visible ul tree a c
  leaf-Visible a c k = (
    λ m. elim (mem-cons c a [] m) [
      | inl e ↦ subst (Visible ul tree a) e here
      | inr i ↦ absurd (cc)
    ],
    λ w. elim (Visible-front w) [
      | inl e ↦ subst (λ y. mem y (a ∷ []) ≡ true) e (mem-head a [])
      | inr (n, _) ↦ absurd (cc)
    ],
  )

  -- On a tree no higher than the fuel, browsing from `a` ends, and it visits exactly the objects that
  -- are visible: `a`, and each child that the client's level may read of a node that is visible.
  pub browse-visible : (n : ℕ) (a : ℕ) → IsHigh n tree a → (xs : List ℕ) × Visits n a xs
  unfolding browse
  browse-visible zero a h = elim h [ ]
  browse-visible (suc n) a h =
      let (xs, (e, v)) = children_lem n (tree a).children (browse-visible n) h in
      elim (Bool-cases (is_node (tree a).kind)) [
        | inl k ↦ (
          a ∷ xs,
          (
            rw k (ap (λ o. elim o [ none ↦ none | some zs ↦ some (a ∷ zs) ]) e),
            λ c. node-Visible a xs c k (v c),
          ),
        )
        | inr k ↦ (a ∷ [], (rw k refl, λ c. leaf-Visible a c k))
      ]
