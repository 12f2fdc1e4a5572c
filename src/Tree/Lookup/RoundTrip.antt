-- ===== src/Tree/Lookup/RoundTrip.antt =====
-- `find_object` of src/core/object_dictionary.cpp on the names of `fq_name` of src/core/object.cpp.
use de_co_f.Base.{
  ℕ, suc, ◌<◌, ◌≡◌, ◌≢◌, ◌⊎◌, refl, sym, ap, ◌∙◌, true, Option, none, some, List, [], ◌∷◌, ◌++◌,
  append_assoc, arith, Bool-cases, inl, inr, All, Bytes, bytes_eq, bytes_eq_iff, bytes_eq_self,
}
use de_co_f.Tree.{is_node, Store}
use de_co_f.Tree.Counts.{count}
use de_co_f.Tree.Links.{Links}
use de_co_f.Tree.Lookup.{
  until, from, find_name, find_child, continue_lookup, find_descendant_object, find_object, fq_name,
}
use de_co_f.Tree.Lookup.Fuel.{find_descendant_object_step}

-- The separator of `fq_name`.
abbrev pub colon : ℕ
colon = b':'

abbrev pub IsName : Bytes → Type 0
IsName n = (n ≢ []) × All (λ c. c ≢ colon) n

-- Names that tell the objects apart: non-empty, without the separator, and different for two
-- children of one node.
pub record WellNamed (s : Store) : Type 0 where
  pub names : (a : ℕ) → (s a).alive ≡ true → IsName (s a).name
  pub distinct :
      (p c d : ℕ) → (s c).parent ≡ some p → (s d).parent ≡ some p → (s c).name ≡ (s d).name → c ≡ d

-- `a` is `root`, or a descendant of it; the parents on the way are live nodes.
pub data Under (s : Store) (root : ℕ) : ℕ → Type 0 where
  top : (s root).parent ≡ none → (s root).alive ≡ true → Under s root root
  below :
      {p c : ℕ}
      → Under s root p
      → (s c).parent ≡ some p
      → is_node (s p).kind ≡ true
      → (s c).alive ≡ true
      → Under s root c

-- The names on the way down from `p` to `a`, joined by the separator.
data Down (s : Store) : ℕ → ℕ → Bytes → Type 0 where
  last :
      {p c : ℕ} {n : Bytes}
      → (s c).parent ≡ some p
      → (s c).alive ≡ true
      → n ≡ (s c).name
      → Down s p c n
  inner :
      {p c a : ℕ} {uri n : Bytes}
      → (s c).parent ≡ some p
      → (s c).alive ≡ true
      → is_node (s c).kind ≡ true
      → Down s c a uri
      → n ≡ (s c).name ++ (colon ∷ uri)
      → Down s p a n

until-name : (n rest : Bytes) → All (λ c. c ≢ colon) n → until colon (n ++ (colon ∷ rest)) ≡ n
until-name [] rest h = refl
until-name (c ∷ n) rest h = ground (arith, until-name n rest h.1)

until_whole : (n : Bytes) → All (λ c. c ≢ colon) n → until colon n ≡ n
until_whole [] h = refl
until_whole (c ∷ n) h = ground (arith, until_whole n h.1)

from-name :
    (n rest : Bytes) → All (λ c. c ≢ colon) n → from colon (n ++ (colon ∷ rest)) ≡ colon ∷ rest
from-name [] rest h = refl
from-name (c ∷ n) rest h = ground (arith, from-name n rest h.1)

from_whole : (n : Bytes) → All (λ c. c ≢ colon) n → from colon n ≡ []
from_whole [] h = refl
from_whole (c ∷ n) h = ground (arith, from_whole n h.1)

append-cons_ne_nil : (n : Bytes) (c : ℕ) (rest : Bytes) → (n ++ (c ∷ rest)) ≢ []
append-cons_ne_nil [] c rest h = cc
append-cons_ne_nil (x ∷ n) c rest h = cc

continue_lookup_node :
    (uri : Bytes) (c : ℕ) (s : Store) (call : Bytes → ℕ → Option ℕ)
    → uri ≢ []
    → is_node (s c).kind ≡ true
    → continue_lookup (colon ∷ uri) (some c) s call ≡ call uri c
continue_lookup_node [] c s call ne isnode = absurd (ne refl)
continue_lookup_node (x ∷ uri) c s call ne isnode = rw isnode

find_name_self :
    (cs : List ℕ) (c : ℕ) (s : Store)
    → 0 < count c cs
    → ((d : ℕ) → 0 < count d cs → (s d).name ≡ (s c).name → d ≡ c)
    → find_name (s c).name cs s ≡ some c
unfolding find_name
find_name_self [] c s h u = absurd (omega arith)
find_name_self (d ∷ cs) c s h u = elim (Bool-cases (bytes_eq (s d).name (s c).name)) [
  | inl same ↦
      let e : d ≡ c = u d (ground arith) ((bytes_eq_iff (s d).name (s c).name).0 same) in
      rw same (ap some e)
  | inr other ↦
      let ne : d ≢ c =
        λ (e : d ≡ c). ground (arith, bytes_eq_iff (s d).name (s c).name, ap (λ x. (s x).name) e) in
      rw other (find_name_self cs c s (ground arith) (λ x hx. u x (ground arith)))
]

module _ (s : Store) (h : Links s) (w : WellNamed s) where
  find_child_self : (p c : ℕ) → (s c).parent ≡ some p → find_child p (s c).name s ≡ some c
  unfolding find_child
  find_child_self p c e =
      find_name_self (s p).children c s (ground (arith, h.linked p c))
        (λ d hd same. w.distinct p d c (ground (arith, h.linked p d)) e same)

  Down-ne-nil : {p a : ℕ} {uri : Bytes} → Down s p a uri → uri ≢ []
  Down-ne-nil (last {c} e live n) empty = (w.names c live).0 (sym n ∙ empty)
  Down-ne-nil (inner {c} e live isnode rest n) empty =
      append-cons_ne_nil (s c).name colon _ (sym n ∙ empty)

  find-Down :
      {p a : ℕ} {uri : Bytes} → Down s p a uri → find_descendant_object p uri colon s ≡ some a
  find-Down (last {p} {c} e live n) =
      rw
        (
          n,
          find_descendant_object_step,
          from_whole _ (w.names c live).1,
          until_whole _ (w.names c live).1,
        )
        (find_child_self p c e)
  find-Down (inner {p} {c} e live isnode rest n) =
      rw
        (
          n,
          find_descendant_object_step,
          from-name _ _ (w.names c live).1,
          until-name _ _ (w.names c live).1,
          find_child_self p c e,
        )
        (continue_lookup_node _ c s _ (Down-ne-nil rest) isnode ∙ find-Down rest)

fq_name_child :
    (s : Store) (p c fuel : ℕ) (prefix : Bytes)
    → (s c).parent ≡ some p
    → fq_name fuel p s ≡ some prefix
    → fq_name (suc fuel) c s ≡ some (prefix ++ (colon ∷ (s c).name))
unfolding fq_name
fq_name_child s p c fuel prefix e h = rw (e, fq_name) (rw (h, fq_name))

-- The walk up from a descendant of `p`, in terms of the walk up from `p`.
Down-fq_name :
    (s : Store) {p a : ℕ} {uri : Bytes}
    → Down s p a uri
    → (fuel : ℕ) (prefix : Bytes) → fq_name fuel p s ≡ some prefix
    → (k : ℕ) × (fq_name k a s ≡ some (prefix ++ (colon ∷ uri)))
Down-fq_name s (last {p} {c} e live n) fuel prefix h =
    (suc fuel, rw n (fq_name_child s p c fuel prefix e h))
Down-fq_name s (inner {p} {c} e live isnode rest n) fuel prefix h =
    let (k, g) =
      Down-fq_name s rest (suc fuel) (prefix ++ (colon ∷ (s c).name))
        (fq_name_child s p c fuel prefix e h) in
    (k, rw (n) (g ∙ ap some (append_assoc prefix (colon ∷ (s c).name) _)))

Down-snoc :
    (s : Store) {r p : ℕ} {uri : Bytes}
    → Down s r p uri
    → (c : ℕ) → (s c).parent ≡ some p
    → is_node (s p).kind ≡ true
    → (s c).alive ≡ true
    → Down s r c (uri ++ (colon ∷ (s c).name))
Down-snoc s (last e live n) c ec isnode cl = inner e live isnode (last ec cl refl) (rw n)
Down-snoc s (inner e live inn rest n) c ec isnode cl =
    inner e live inn (Down-snoc s rest c ec isnode cl)
      (rw n (append_assoc (s _).name (colon ∷ _) _))

-- `a` is the root, or the walk down to it is not empty.
Under-Down :
    (s : Store) {root a : ℕ} → Under s root a → (a ≡ root) ⊎ ((uri : Bytes) × Down s root a uri)
Under-Down s (top e live) = inl refl
Under-Down s (below {p} {c} u e isnode live) = elim (Under-Down s u) [
  | inl at_root ↦ inr ((s c).name, last (rw at_root at e) live refl)
  | inr (uri, d) ↦ inr (uri ++ (colon ∷ (s c).name), Down-snoc s d c e isnode live)
]

Under-root :
    (s : Store) {root a : ℕ} → Under s root a → ((s root).parent ≡ none) × ((s root).alive ≡ true)
Under-root s (top e live) = (e, live)
Under-root s (below u e isnode live) = Under-root s u

-- A fully qualified name is the root's, and what leads down from it.
find_object_whole :
    (s : Store) (root : ℕ) (n : Bytes)
    → IsName n
    → (s root).name ≡ n
    → find_object root n colon s ≡ some root
unfolding find_object
find_object_whole s root [] name e = absurd (name.0 refl)
find_object_whole s root (c ∷ cs) name e =
    ground (arith, until_whole (c ∷ cs) name.1, from_whole (c ∷ cs) name.1, bytes_eq_self (c ∷ cs))

find_object_below :
    (s : Store) (root : ℕ) (n uri : Bytes)
    → IsName n
    → (s root).name ≡ n
    → find_object root (n ++ (colon ∷ uri)) colon s ≡ find_descendant_object root uri colon s
unfolding find_object
find_object_below s root [] uri name e = absurd (name.0 refl)
find_object_below s root (c ∷ cs) uri name e =
    ground
      (arith, until-name (c ∷ cs) uri name.1, from-name (c ∷ cs) uri name.1, bytes_eq_self (c ∷ cs))

-- In a tree with agreeing links and telling names, `fq_name` of an object under the root ends with
-- a name, and `find_object` finds the object by it.
pub find_object-fq_name :
    (s : Store) (root a : ℕ)
    → Links s
    → WellNamed s
    → Under s root a
    → (fuel : ℕ) × (uri : Bytes) × (fq_name fuel a s ≡ some uri)
      × (find_object root uri colon s ≡ some a)
find_object-fq_name s root a h w u =
    let (orphan, live) = Under-root s u in
    let start : fq_name 1 root s ≡ some (s root).name = unfold fq_name in rw (orphan, fq_name) in
    elim (Under-Down s u) [
      | inl e ↦
          (1, (s root).name, rw e start, rw e (find_object_whole s root _ (w.names root live) refl))
      | inr (uri, d) ↦
          let (k, g) = Down-fq_name s d 1 (s root).name start in
          (
            k,
            (s root).name ++ (colon ∷ uri),
            g,
            find_object_below s root _ uri (w.names root live) refl ∙ find-Down s h w d,
          )
    ]
