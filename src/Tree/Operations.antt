-- ===== src/Tree/Operations.antt =====
-- The operations of src/core/object.cpp and src/core/node.cpp, and the links of the tree.
use de_co_f.Base.{
  ℕ, ◌≡◌, ◌≢◌, refl, sym, subst, true, false, none, some, [], ◌∷◌, ◌++◌, arith, ◌==◌, if◌then◌else◌,
  Option-cases, inl, inr, Bytes,
}
use de_co_f.Tree.{
  Kind, is_node, Object, Store, put, remove_child, leave_parent, attach, add_child, construct,
}
use de_co_f.Tree.Counts.{count-without, mem-count, without_absent}
use de_co_f.Tree.Links.{
  Linked, Links, Keeps, remove_child-Linked, add_child-Linked, add_child-parent, attach-Linked,
  Detached,
}

-- `remove_child` keeps the links between parents and children in agreement.
pub remove_child-Links : (p c : ℕ) (s : Store) → Links s → Links (remove_child p c s)
remove_child-Links p c s h = record {
  linked = remove_child-Linked p c s h.linked;
  dead_parent = λ d e. unfold remove_child in ground (arith, h.dead_parent d);
  dead_children = λ d e. unfold remove_child in ground (arith, h.dead_children d);
  leaf_children = λ d e. unfold remove_child in ground (arith, h.leaf_children d);
}

pub leave_parent-Links : (c : ℕ) (s : Store) → Links s → Links (leave_parent c s)
unfolding leave_parent
leave_parent-Links c s h = elim (Option-cases (s c).parent) [
  | inl e ↦ rw (e, leave_parent) h
  | inr (p, e) ↦ rw (e, leave_parent) (remove_child-Links p c s h)
]

add_child-Keeps : (p c : ℕ) (s : Store) (d : ℕ) → Keeps (s d) (add_child p c s d)
unfolding add_child
add_child-Keeps p c s d = ground arith

-- The arguments are live objects, and the new parent is a node.
pub record CanAdd (p c : ℕ) (s : Store) : Type 0 where
  pub parent_alive : (s p).alive ≡ true
  pub parent_node : is_node (s p).kind ≡ true
  pub child_alive : (s c).alive ≡ true

-- `add_child` keeps the links in agreement, for a live child and a live node.
pub add_child-Links : (p c : ℕ) (s : Store) → Links s → CanAdd p c s → Links (add_child p c s)
add_child-Links p c s h ok = record {
  linked = add_child-Linked p c s h.linked;
  dead_parent = λ d e.
      let k = add_child-Keeps p c s d in
      ground (arith, add_child-parent p c s d h.linked, h.dead_parent d);
  dead_children = λ d e. unfold add_child in ground (arith, h.dead_children d);
  leaf_children = λ d e. unfold add_child in ground (arith, h.leaf_children d);
}

-- In `s'` the object `a` is the last child of `p`; all other links are those of `s`.
pub record Joined (a p : ℕ) (s s' : Store) : Type 0 where
  pub links : Links s'
  pub parents : (d : ℕ) → (s' d).parent ≡ (if a == d then some p else (s d).parent)
  pub lists :
      (q : ℕ)
      → (s' q).children
        ≡ (if p == q then (s q).children ++ a ∷ [] else if a == q then [] else (s q).children)

-- A store with an object at `a` that its parent does not list yet: `construct` before `add_child`.
module _ (a p : ℕ) (s : Store) (o : Object) where
  abbrev fresh : Store
  fresh = remove_child p a (put s a o)

  fresh-Detached :
      ((q d : ℕ) → Linked s q d) → (s a).parent ≡ none → o.children ≡ [] → Detached a fresh
  fresh-Detached h e oc q =
      unfold remove_child in
      ground (
        arith,
        h q a,
        h p a,
        mem-count a ((put s a o) p).children,
        count-without a a ((put s a o) p).children,
      )

  fresh-Linked :
      ((q d : ℕ) → Linked s q d)
      → (s a).parent ≡ none
      → (s a).children ≡ []
      → o.children ≡ []
      → (q d : ℕ) → d ≢ a
      → Linked fresh q d
  fresh-Linked h e sc oc q d ne =
      unfold remove_child in
      ground (
        arith,
        h q d,
        h p a,
        h p d,
        h a d,
        mem-count a ((put s a o) p).children,
        count-without d a ((put s a o) p).children,
      )

  construct_step : o.parent ≡ some p → add_child p a (put s a o) ≡ attach p a fresh
  unfolding add_child leave_parent
  construct_step e = let at : (put s a o a).parent ≡ some p = ground arith in rw (at, leave_parent)

  -- The links after `construct`.
  fresh-attached :
      Links s
      → (s a).alive ≡ false
      → (s p).alive ≡ true
      → is_node (s p).kind ≡ true
      → o.alive ≡ true
      → o.parent ≡ some p
      → o.children ≡ []
      → Joined a p s (attach p a fresh)
  fresh-attached h free live isnode oa op oc =
      let e = h.dead_parent a free in
      let ec = h.dead_children a free in
      record {
        links = record {
          linked =
              attach-Linked p a fresh (λ q d ne. fresh-Linked h.linked e ec oc q d ne)
                (fresh-Detached h.linked e oc);
          dead_parent = λ d dead. unfold attach remove_child in ground (arith, h.dead_parent d);
          dead_children = λ d dead. unfold attach remove_child in ground (arith, h.dead_children d);
          leaf_children = λ d leaf. unfold attach remove_child in ground (arith, h.leaf_children d);
        };
        parents = λ d.
            unfold attach remove_child in ground (arith, h.linked p a, mem-count a (s p).children);
        lists = λ q.
            unfold attach remove_child in
            ground
              (arith, h.linked p a, mem-count a (s p).children, without_absent a (s p).children);
      }

-- The constructor, at a free address and with a live node as parent, adds the object to that parent as
-- its last child, changes no other links, and keeps them in agreement.
pub construct_lem :
    (a : ℕ) (kind : Kind) (name : Bytes) (p : ℕ) (readlevel writelevel : ℕ) (s : Store)
    → Links s
    → (s a).alive ≡ false
    → (s p).alive ≡ true
    → is_node (s p).kind ≡ true
    → Joined a p s (construct a kind name (some p) readlevel writelevel s)
unfolding construct
construct_lem a kind name p readlevel writelevel s h free live isnode =
    let o : Object = record {
      alive = true;
      kind = kind;
      name = name;
      parent = some p;
      readlevel = readlevel;
      writelevel = writelevel;
      children = [];
    } in
    subst (Joined a p s) (sym (construct_step a p s o refl))
      (fresh-attached a p s o h free live isnode refl refl refl)
