-- ===== src/Tree/Lookup.antt =====
-- Names and lookups: `object::fq_name` of src/core/object.cpp, `node::find_child` and
-- `node::find_descendant_object` of src/core/node.cpp, `object_dictionary::find_object` of
-- src/core/object_dictionary.cpp. A `string_view` is a byte string.
pub mod Fuel
pub mod RoundTrip
use de_co_f.Base.{
  ℕ, zero, suc, Bool, true, false, Option, none, some, List, [], ◌∷◌, ◌++◌, ◌==◌, if◌then◌else◌,
  length, Bytes, bytes_eq, codes,
}
use de_co_f.Tree.{is_node, Object, Store}

-- `uri.substr(0, uri.find(separator))`.
abbrev pub until : ℕ → Bytes → Bytes
until sep [] = []
until sep (c ∷ cs) = if c == sep then [] else c ∷ until sep cs

-- `uri` without the first `uri.find(separator)` bytes: what stands from the separator on.
abbrev pub from : ℕ → Bytes → Bytes
from sep [] = []
from sep (c ∷ cs) = if c == sep then c ∷ cs else from sep cs

-- `std::find_if` over the children.
unfoldable pub find_name : Bytes → List ℕ → Store → Option ℕ
find_name name [] s = none
find_name name (c ∷ cs) s = if bytes_eq (s c).name name then some c else find_name name cs s

unfoldable pub find_child : ℕ → Bytes → Store → Option ℕ
unfolding find_name
find_child p name s = find_name name (s p).children s

-- `dynamic_cast<node*>(obj)`, and the recursive call if it is one.
abbrev pub descend : Option ℕ → Store → (ℕ → Option ℕ) → Option ℕ
descend none s call = none
descend (some c) s call = if is_node (s c).kind then call c else none

-- The rest of the lookup behind the first segment; `rest` begins with the separator, if any.
abbrev pub continue_lookup : Bytes → Option ℕ → Store → (Bytes → ℕ → Option ℕ) → Option ℕ
continue_lookup [] obj s call = obj
continue_lookup (_ ∷ []) obj s call = none
continue_lookup (_ ∷ c ∷ cs) obj s call = descend obj s (call (c ∷ cs))

-- `find_descendant_object` on fuel: the uri is shorter at each recursive call.
unfoldable pub find_descendant : ℕ → ℕ → Bytes → ℕ → Store → Option ℕ
find_descendant zero p uri sep s = none
find_descendant (suc fuel) p uri sep s =
    continue_lookup (from sep uri) (find_child p (until sep uri) s) s
      (λ rest c. find_descendant fuel c rest sep s)

unfoldable pub find_descendant_object : ℕ → Bytes → ℕ → Store → Option ℕ
unfolding find_descendant
find_descendant_object p uri sep s = find_descendant (suc (length uri)) p uri sep s

-- `find_object`, behind the removal of a leading separator.
abbrev find_from : ℕ → Bytes → ℕ → Store → Option ℕ
find_from root uri sep s =
    if bytes_eq (s root).name (until sep uri)
    then (elim (from sep uri) [
      | [] ↦ some root
      | _ ∷ rest ↦ find_descendant_object root rest sep s
    ])
    else none

unfoldable pub find_object : ℕ → Bytes → ℕ → Store → Option ℕ
find_object root [] sep s = none
find_object root (c ∷ cs) sep s =
    if c == sep then find_from root cs sep s else find_from root (c ∷ cs) sep s

-- `fq_name` on fuel: it follows the parents. `none` is a walk that does not end.
unfoldable pub fq_name : ℕ → ℕ → Store → Option Bytes
fq_name zero a s = none
fq_name (suc fuel) a s = elim (s a).parent [
  | none ↦ some (s a).name
  | some p ↦ elim (fq_name fuel p s) [
    | none ↦ none
    | some prefix ↦ some (prefix ++ (codes ":" ++ (s a).name))
  ]
]
