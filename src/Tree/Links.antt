-- ===== src/Tree/Links.antt =====
-- The two directions of the tree agree: an object stands in the children of exactly its parent,
-- and there once. For src/core/object.cpp and src/core/node.cpp.
use de_co_f.Base.{
  ℕ, ◌≡◌, ◌≢◌, Bool, false, Option, none, some, [], arith, ◌==◌, if◌then◌else◌, Option-cases, inl,
  inr,
}
use de_co_f.Tree.{is_node, Object, Store, remove_child, leave_parent, attach, add_child}
use de_co_f.Tree.Counts.{count, count-without, count-concat, mem-count}

abbrev pub is_parent : Option ℕ → ℕ → Bool
is_parent none p = false
is_parent (some q) p = q == p

-- For every two addresses; a dead object has no parent and no children.
abbrev pub Linked : Store → ℕ → ℕ → Type 0
Linked s p c = count c (s p).children ≡ (if is_parent (s c).parent p then 1 else 0)

pub record Links (s : Store) : Type 0 where
  pub linked : (p c : ℕ) → Linked s p c
  pub dead_parent : (c : ℕ) → (s c).alive ≡ false → (s c).parent ≡ none
  pub dead_children : (c : ℕ) → (s c).alive ≡ false → (s c).children ≡ []
  pub leaf_children : (c : ℕ) → is_node (s c).kind ≡ false → (s c).children ≡ []

pub remove_child-Linked :
    (p c : ℕ) (s : Store) → ((q d : ℕ) → Linked s q d) → (q d : ℕ) → Linked (remove_child p c s) q d
unfolding remove_child
remove_child-Linked p c s h q d = ground (
  arith,
  h q d,
  h p c,
  h p d,
  h q c,
  mem-count c (s p).children,
  count-without d c (s p).children,
)

pub leave_parent-Linked :
    (c : ℕ) (s : Store) → ((q d : ℕ) → Linked s q d) → (q d : ℕ) → Linked (leave_parent c s) q d
unfolding leave_parent
leave_parent-Linked c s h q d = elim (Option-cases (s c).parent) [
  | inl e ↦ rw (e, leave_parent) (h q d)
  | inr (p, e) ↦ rw (e, leave_parent) (remove_child-Linked p c s h q d)
]

-- Who is whose parent after `leave_parent`; nothing else of an object changes but the children.
pub leave_parent-parent :
    (c : ℕ) (s : Store) (d : ℕ)
    → ((q d : ℕ) → Linked s q d)
    → (leave_parent c s d).parent ≡ (if c == d then none else (s d).parent)
unfolding leave_parent
leave_parent-parent c s d h = elim (Option-cases (s c).parent) [
  | inl e ↦ rw (e, leave_parent) (ground arith)
  | inr (p, e) ↦
      rw (e, leave_parent)
        (unfold remove_child in ground (arith, h p c, mem-count c (s p).children))
]

-- What the operations leave alone at each address.
pub record Keeps (o o' : Object) : Type 0 where
  pub alive : o'.alive ≡ o.alive
  pub kind : o'.kind ≡ o.kind
  pub name : o'.name ≡ o.name
  pub readlevel : o'.readlevel ≡ o.readlevel
  pub writelevel : o'.writelevel ≡ o.writelevel

pub leave_parent-Keeps : (c : ℕ) (s : Store) (d : ℕ) → Keeps (s d) (leave_parent c s d)
unfolding leave_parent
leave_parent-Keeps c s d = ground arith

-- No list of children holds `c`.
abbrev pub Detached : ℕ → Store → Type 0
Detached c s = (q : ℕ) → count c (s q).children ≡ 0

pub attach-Linked :
    (p c : ℕ) (s : Store)
    → ((q d : ℕ) → d ≢ c → Linked s q d)
    → Detached c s
    → (q d : ℕ) → Linked (attach p c s) q d
unfolding attach
attach-Linked p c s h free q d =
    ground (arith, h q d, h p d, free q, free p, count-concat d c (s p).children)

pub add_child-Linked :
    (p c : ℕ) (s : Store) → ((q d : ℕ) → Linked s q d) → (q d : ℕ) → Linked (add_child p c s) q d
unfolding add_child
add_child-Linked p c s h =
    attach-Linked p c (leave_parent c s) (λ q d ne. leave_parent-Linked c s h q d)
      (λ q. ground (arith, leave_parent-Linked c s h q c, leave_parent-parent c s c h))

pub add_child-parent :
    (p c : ℕ) (s : Store) (d : ℕ)
    → ((q d : ℕ) → Linked s q d)
    → (add_child p c s d).parent ≡ (if c == d then some p else (s d).parent)
unfolding add_child attach
add_child-parent p c s d h = ground (arith, leave_parent-parent c s d h)
