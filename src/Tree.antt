-- ===== src/Tree.antt =====
-- The object tree of src/core/object.cpp and src/core/node.cpp, on an explicit store: an object's
-- address is a number, and `this`, `parent_` and the entries of `children_` are addresses. A null
-- pointer is `none`. The store is total; `alive` says whether an object stands at an address.
mod Counts
pub mod Links
pub mod Operations
pub mod Destroy
pub mod Lookup
use de_co_f.Base.{
  ℕ, Bool, true, false, ◌||◌, Option, none, some, List, [], ◌∷◌, ◌++◌, map, ◌==◌, if◌then◌else◌,
  Bytes,
}

-- The dynamic class of an object, for the dynamic_casts of the framework.
pub data Kind : Type 0 where
  plain_object node object_dictionary event : Kind
  managed_readonly_parameter managed_readwrite_parameter : Kind
  external_readonly_parameter external_readwrite_parameter writeonly_parameter : Kind

-- `object`'s members, and `node`'s `children_` (empty where the object is no node).
pub record Object : Type 0 where
  pub alive : Bool
  pub kind : Kind
  pub name : Bytes
  pub parent : Option ℕ
  pub readlevel : ℕ
  pub writelevel : ℕ
  pub children : List ℕ

abbrev pub Store : Type 0
Store = ℕ → Object

abbrev pub put : Store → ℕ → Object → Store
put s p o q = if p == q then o else s q

-- `dynamic_cast<node*>`.
unfoldable pub is_node : Kind → Bool
is_node node = true
is_node object_dictionary = true
is_node _ = false

abbrev pub mem : ℕ → List ℕ → Bool
mem c [] = false
mem c (x ∷ xs) = x == c || mem c xs

abbrev pub without : ℕ → List ℕ → List ℕ
without c [] = []
without c (x ∷ xs) = if x == c then without c xs else x ∷ without c xs

abbrev set_parent : Store → ℕ → Option ℕ → Store
set_parent s c p = put s c (record (s c) { parent = p })

-- `children_.remove_if`, whose predicate also clears the child's `parent_` when it meets it.
unfoldable pub remove_child : ℕ → ℕ → Store → Store
remove_child p c s =
    let s' = put s p (record (s p) { children = without c (s p).children }) in
    if mem c (s p).children then set_parent s' c none else s'

-- `if (child->parent_) child->parent()->remove_child(child)`, and the same line of `reset_parent`
-- and `~object`.
unfoldable pub leave_parent : ℕ → Store → Store
unfolding remove_child
leave_parent c s = elim (s c).parent [ none ↦ s | some q ↦ remove_child q c s ]

-- `children_.push_back(child); child->parent_ = this`.
unfoldable pub attach : ℕ → ℕ → Store → Store
attach p c s =
    let s' = put s p (record (s p) { children = (s p).children ++ c ∷ [] }) in
    set_parent s' c (some p)

unfoldable pub add_child : ℕ → ℕ → Store → Store
unfolding leave_parent attach
add_child p c s = attach p c (leave_parent c s)

-- `object::object` at the fresh address `a`: `parent_` is initialised before `add_child` is called.
unfoldable pub construct : ℕ → Kind → Bytes → Option ℕ → ℕ → ℕ → Store → Store
unfolding add_child
construct a kind name parent readlevel writelevel s =
    let s1 = put s a (record {
      alive = true;
      kind = kind;
      name = name;
      parent = parent;
      readlevel = readlevel;
      writelevel = writelevel;
      children = [];
    }) in
    elim parent [ none ↦ s1 | some p ↦ add_child p a s1 ]

-- `reset_parent(parent)`.
unfoldable pub reset_parent : ℕ → Option ℕ → Store → Store
unfolding add_child
reset_parent a parent s =
    let s1 = leave_parent a s in elim parent [ none ↦ s1 | some p ↦ add_child p a s1 ]

-- The loop of `~node`: `child->parent_ = nullptr` for each child.
unfoldable pub orphan : List ℕ → Store → Store
orphan [] s = s
orphan (c ∷ cs) s = orphan cs (set_parent s c none)

-- `delete`: `~node` where the object is a node, then `~object`; then its memory is released.
unfoldable pub destroy : ℕ → Store → Store
unfolding orphan leave_parent is_node
destroy a s =
    let s1 = if is_node (s a).kind then orphan (s a).children s else s in
    let s2 = leave_parent a s1 in
    put s2 a (record (s2 a) { alive = false; parent = none; children = [] })

-- `node::children`, which `node::value` returns.
unfoldable pub children : ℕ → Store → List Bytes
children p s = map (λ c. (s c).name) (s p).children

-- The accessors `name(const char*)`, `readlevel(userlevel_t)` and `writelevel(userlevel_t)`.
unfoldable pub set_name : ℕ → Bytes → Store → Store
set_name a name s = put s a (record (s a) { name = name })

unfoldable pub set_readlevel : ℕ → ℕ → Store → Store
set_readlevel a readlevel s = put s a (record (s a) { readlevel = readlevel })

unfoldable pub set_writelevel : ℕ → ℕ → Store → Store
set_writelevel a writelevel s = put s a (record (s a) { writelevel = writelevel })
