-- ===== src/Visitor.antt =====
-- `object_visitor` of src/core/object_visitor.cpp: the overload that an object's `accept` calls, and
-- the indentation. The type tag of a parameter follows from its C++ type, so `tag` is a parameter.
use de_co_f.Base.{ℕ, zero, suc, ◌-◌, Option, none, some, [], ◌++◌, leb, if◌then◌else◌, Bytes, codes}
use de_co_f.Tree.{
  Kind, plain_object, node, object_dictionary, event, managed_readonly_parameter,
  managed_readwrite_parameter, external_readonly_parameter, external_readwrite_parameter,
  writeonly_parameter, Store,
}

-- The tags of include/decof/types.h.
pub data TypeTag : Type 0 where
  boolean_tag integer_tag real_tag string_tag binary_tag : TypeTag
  boolean_seq_tag integer_seq_tag real_seq_tag string_seq_tag tuple_tag : TypeTag

-- The overload of `visit` that is called.
pub data Visit : Type 0 where
  visit_object visit_event visit_node : Visit
  visit_parameter : TypeTag → Visit

-- The virtual `accept`.
unfoldable pub accept : Kind → TypeTag → Visit
accept plain_object tag = visit_object
accept node tag = visit_node
accept object_dictionary tag = visit_node
accept event tag = visit_event
accept managed_readonly_parameter tag = visit_parameter tag
accept managed_readwrite_parameter tag = visit_parameter tag
accept external_readonly_parameter tag = visit_parameter tag
accept external_readwrite_parameter tag = visit_parameter tag
accept writeonly_parameter tag = visit_parameter tag

unfoldable pub tag_name : TypeTag → Bytes
tag_name boolean_tag = codes "BOOLEAN"
tag_name integer_tag = codes "INTEGER"
tag_name real_tag = codes "REAL"
tag_name string_tag = codes "STRING"
tag_name binary_tag = codes "BINARY"
tag_name boolean_seq_tag = codes "BOOLEAN_SEQ"
tag_name integer_seq_tag = codes "INTEGER_SEQ"
tag_name real_seq_tag = codes "REAL_SEQ"
tag_name string_seq_tag = codes "STRING_SEQ"
tag_name tuple_tag = codes "TUPLE"

-- `indentation`, for a base level.
unfoldable pub indentation : ℕ → Bytes
indentation zero = []
indentation (suc n) = codes "  " ++ indentation n

-- `decrement_indentation`.
unfoldable pub decrement_indentation : ℕ → ℕ → ℕ
decrement_indentation levels base = if leb levels base then base - levels else 0

-- The loop of `write_indentation` over the parents; the fuel bounds their number.
unfoldable pub ancestors : ℕ → ℕ → Store → Option ℕ
ancestors zero a tree = none
ancestors (suc fuel) a tree = elim (tree a).parent [
  | none ↦ some 0
  | some p ↦ elim (ancestors fuel p tree) [ none ↦ none | some n ↦ some (suc n) ]
]

-- `write_indentation`; `none` is a walk that does not end.
unfoldable pub write_indentation : ℕ → ℕ → ℕ → Store → Option Bytes
unfolding indentation ancestors
write_indentation fuel base a tree = elim (ancestors fuel a tree) [
  | none ↦ none
  | some n ↦ some (indentation base ++ indentation n)
]
