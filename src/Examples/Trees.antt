-- ===== src/Examples/Trees.antt =====
-- The theorems on the tree, for a dictionary with a node and a parameter in it.
use de_co_f.Base.{
  ℕ, ◌≡◌, refl, true, false, none, some, [], ◌∷◌, arith, ◌==◌, if◌then◌else◌, Bytes, codes,
}
use de_co_f.Tree.{
  node, object_dictionary, managed_readwrite_parameter, is_node, Object, Store, add_child,
  construct, destroy,
}
use de_co_f.Tree.Links.{Links, add_child-parent}
use de_co_f.Tree.Operations.{Joined, CanAdd, construct_lem}
use de_co_f.Tree.Destroy.{Removed, destroy_lem}
use de_co_f.Tree.Lookup.{find_object, fq_name}
use de_co_f.Tree.Lookup.RoundTrip.{colon, WellNamed, Under, top, below, find_object-fq_name}

abbrev nothing : Object
nothing = record {
  alive = false;
  kind = node;
  name = [];
  parent = none;
  readlevel = 0;
  writelevel = 0;
  children = [];
}

-- "root" with the node "a" in it, and a free node "b".
abbrev small : Store
small p =
    if p == 0
    then record nothing {
      alive = true;
      kind = object_dictionary;
      name = codes "root";
      children = 1 ∷ [];
    }
    else if p == 1
    then record nothing { alive = true; name = codes "a"; parent = some 0 }
    else if p == 2
    then record nothing { alive = true; name = codes "b" }
    else nothing

small-Links : Links small
unfolding is_node
small-Links = record {
  linked = λ p c. ground arith;
  dead_parent = λ c e. ground arith;
  dead_children = λ c e. ground arith;
  leaf_children = λ c e. ground arith;
}

can_add : CanAdd 2 1 small
unfolding is_node
can_add = record { parent_alive = refl; parent_node = refl; child_alive = refl }

add_child-parent_example : (add_child 2 1 small 1).parent ≡ some 2
add_child-parent_example = add_child-parent 2 1 small 1 small-Links.linked

construct_lem_example :
    Joined 3 1 small (construct 3 managed_readwrite_parameter (codes "p") (some 1) 3 3 small)
unfolding is_node
construct_lem_example =
    construct_lem 3 managed_readwrite_parameter (codes "p") 1 3 3 small small-Links refl refl refl

destroy_lem_example : Removed 1 small (destroy 1 small)
destroy_lem_example = destroy_lem 1 small small-Links

small-WellNamed : WellNamed small
small-WellNamed = record { names = λ a e. ground arith; distinct = λ p c d e f g. ground arith }

small-Under : Under small 0 1
unfolding is_node
small-Under = below (top refl refl) refl refl refl

find_object-fq_name_example :
    (fuel : ℕ) × (uri : Bytes) × (fq_name fuel 1 small ≡ some uri)
    × (find_object 0 uri colon small ≡ some 1)
find_object-fq_name_example = find_object-fq_name small 0 1 small-Links small-WellNamed small-Under
