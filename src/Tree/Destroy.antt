-- ===== src/Tree/Destroy.antt =====
-- `~node` and `~object` of src/core/node.cpp and src/core/object.cpp, and the links of the tree.
use de_co_f.Base.{
  ℕ, ◌≡◌, ◌≢◌, refl, subst, ◌∙◌, false, none, some, List, [], ◌∷◌, arith, ◌==◌, if◌then◌else◌,
  Option-cases, Bool-cases, inl, inr,
}
use de_co_f.Tree.{
  is_node, Object, Store, put, mem, without, set_parent, remove_child, leave_parent, orphan,
  destroy,
}
use de_co_f.Tree.Counts.{count-without, mem-count, without_absent}
use de_co_f.Tree.Links.{is_parent, Linked, Links, leave_parent-Keeps}

orphan-parent :
    (cs : List ℕ) (s : Store) (d : ℕ)
    → (orphan cs s d).parent ≡ (if mem d cs then none else (s d).parent)
unfolding orphan
orphan-parent [] s d = refl
orphan-parent (c ∷ cs) s d = ground (arith, orphan-parent cs (set_parent s c none) d)

orphan-children :
    (cs : List ℕ) (s : Store) (d : ℕ)
    → ((orphan cs s d).children ≡ (s d).children)
      × ((orphan cs s d).alive ≡ (s d).alive)
      × ((orphan cs s d).kind ≡ (s d).kind)
unfolding orphan
orphan-children [] s d = (refl, refl, refl)
orphan-children (c ∷ cs) s d = ground (arith, orphan-children cs (set_parent s c none) d)

-- An object is of the same class and has the same name and levels.
abbrev pub Same : Object → Object → Type 0
Same o o' =
    (o'.kind ≡ o.kind)
    × (o'.name ≡ o.name)
    × (o'.readlevel ≡ o.readlevel)
    × (o'.writelevel ≡ o.writelevel)

orphan-Same : (cs : List ℕ) (s : Store) (d : ℕ) → Same (s d) (orphan cs s d)
unfolding orphan
orphan-Same [] s d = (refl, refl, refl, refl)
orphan-Same (c ∷ cs) s d = ground (arith, orphan-Same cs (set_parent s c none) d)

-- Nobody's parent is `a`, and the links between the other objects agree.
record Cut (a : ℕ) (s : Store) : Type 0 where
  off : (q d : ℕ) → q ≢ a → Linked s q d
  nobody : (d : ℕ) → is_parent (s d).parent a ≡ false

orphan-Cut : (a : ℕ) (s : Store) → Links s → Cut a (orphan (s a).children s)
orphan-Cut a s h = record {
  off = λ q d ne. ground (
    arith,
    h.linked q d,
    h.linked a d,
    orphan-parent (s a).children s d,
    orphan-children (s a).children s q,
    mem-count d (s a).children,
  );
  nobody = λ d.
      ground (arith, h.linked a d, orphan-parent (s a).children s d, mem-count d (s a).children);
}

remove_child-Cut :
    (p a : ℕ) (s : Store) → p ≢ a → (s a).parent ≡ some p → Cut a s → Cut a (remove_child p a s)
unfolding remove_child
remove_child-Cut p a s ne e h = record {
  off = λ q d nq. ground (
    arith,
    h.off q d nq,
    h.off p a ne,
    h.off p d ne,
    h.off q a nq,
    mem-count a (s p).children,
    count-without d a (s p).children,
  );
  nobody = λ d. ground (arith, h.nobody d);
}

leave_parent-Cut :
    (a : ℕ) (s : Store) → Cut a s → Cut a (leave_parent a s) × ((leave_parent a s a).parent ≡ none)
unfolding leave_parent
leave_parent-Cut a s h = elim (Option-cases (s a).parent) [
  | inl e ↦ rw (e, leave_parent) (h, e)
  | inr (p, e) ↦
      let ne : p ≢ a = ground (arith, h.nobody a) in
      rw (e, leave_parent)
        (
          remove_child-Cut p a s ne e h,
          unfold remove_child in ground (arith, h.off p a ne, mem-count a (s p).children),
        )
]

leave_parent-other :
    (c : ℕ) (s : Store) (d : ℕ) → d ≢ c → (leave_parent c s d).parent ≡ (s d).parent
unfolding leave_parent
leave_parent-other c s d ne = ground arith

leave_parent-lists :
    (c : ℕ) (s : Store) (q : ℕ)
    → (leave_parent c s q).children
      ≡ (if is_parent (s c).parent q then without c (s q).children else (s q).children)
unfolding leave_parent
leave_parent-lists c s q = ground arith

-- What is left of the tree when the object at `a` is gone: its children have no parent, its parent
-- does not list it, and every object keeps its class, name and levels.
pub record Removed (a : ℕ) (s s' : Store) : Type 0 where
  pub links : Links s'
  pub alive : (d : ℕ) → (s' d).alive ≡ (if a == d then false else (s d).alive)
  pub parents :
      (d : ℕ)
      → (s' d).parent
        ≡ (if a == d then none else if is_parent (s d).parent a then none else (s d).parent)
  pub lists : (q : ℕ) → (s' q).children ≡ (if a == q then [] else without a (s q).children)
  pub same : (d : ℕ) → Same (s d) (s' d)

-- The end of `delete`, after `~node`.
abbrev released : ℕ → Store → Store
released a s =
    let s2 = leave_parent a s in
    put s2 a (record (s2 a) { alive = false; parent = none; children = [] })

module _ (a : ℕ) (s : Store) (h : Links s) where
  abbrev orphaned : Store
  orphaned = orphan (s a).children s

  abbrev left : Store
  left = leave_parent a orphaned

  left-Keeps : (d : ℕ) → ((left d).alive ≡ (s d).alive) × ((left d).kind ≡ (s d).kind)
  left-Keeps d = ground (
    arith,
    (leave_parent-Keeps a orphaned d).alive,
    (leave_parent-Keeps a orphaned d).kind,
    orphan-children (s a).children s d,
  )

  left-Same : (d : ℕ) → Same (s d) (left d)
  left-Same d =
      let k = leave_parent-Keeps a orphaned d in
      let (e1, e2, e3, e4) = orphan-Same (s a).children s d in
      (k.kind ∙ e1, k.name ∙ e2, k.readlevel ∙ e3, k.writelevel ∙ e4)

  left-Cut : Cut a left × ((left a).parent ≡ none)
  left-Cut = leave_parent-Cut a orphaned (orphan-Cut a s h)

  left-parent :
      (d : ℕ) → d ≢ a → (left d).parent ≡ (if is_parent (s d).parent a then none else (s d).parent)
  left-parent d ne = ground (
    arith,
    leave_parent-other a orphaned d ne,
    orphan-parent (s a).children s d,
    h.linked a d,
    mem-count d (s a).children,
  )

  left-lists : (q : ℕ) → q ≢ a → (left q).children ≡ without a (s q).children
  left-lists q ne = ground (
    arith,
    leave_parent-lists a orphaned q,
    orphan-parent (s a).children s a,
    orphan-children (s a).children s q,
    h.linked q a,
    h.linked a a,
    mem-count a (s a).children,
    without_absent a (s q).children,
  )

  released-Removed : Removed a s (released a orphaned)
  released-Removed =
      let (cut, gone) = left-Cut in
      record {
        links = record {
          linked = λ q d. ground (arith, cut.off q d, cut.nobody d, cut.off q a, gone);
          dead_parent = λ d e. ground (arith, left-Keeps d, left-parent d, h.dead_parent d);
          dead_children = λ d e. ground (arith, left-Keeps d, left-lists d, h.dead_children d);
          leaf_children =
              λ d e. ground (arith, left-Keeps d, left-Keeps a, left-lists d, h.leaf_children d);
        };
        alive = λ d. ground (arith, left-Keeps d);
        parents = λ d. ground (arith, left-parent d);
        lists = λ q. ground (arith, left-lists q);
        same = λ d. ground (arith, left-Same d);
      }

-- Deleting an object, node or not, from a tree whose links agree leaves them in agreement: the object is
-- dead and has no children, its parent's list no longer holds it, its children have no parent,
-- the other links and the lists, in their order, are as before, and no object's class, name or levels change.
pub destroy_lem : (a : ℕ) (s : Store) → Links s → Removed a s (destroy a s)
unfolding destroy
destroy_lem a s h = elim (Bool-cases (is_node (s a).kind)) [
  | inl isnode ↦ rw isnode (released-Removed a s h)
  | inr leaf ↦
      let e : orphaned a s h ≡ s = rw (h.leaf_children a leaf, orphan) in
      rw leaf (subst (λ t. Removed a s (released a t)) e (released-Removed a s h))
]
