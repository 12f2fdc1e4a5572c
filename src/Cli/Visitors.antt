-- ===== src/Cli/Visitors.antt =====
-- `tree_visitor` of src/cli/tree_visitor.cpp and `browse_visitor` of src/cli/browse_visitor.cpp: what
-- the visit of one object writes. The fuel bounds the number of an object's ancestors; too little of it
-- is `none` or, in a call that can throw, `fault`.
use de_co_f.Base.{ℕ, Option, none, some, [], ◌∷◌, ◌++◌, ◌==◌, if◌then◌else◌, Bytes, codes}
use de_co_f.Types.{Value}
use de_co_f.Types.Userlevel.{forbidden}
use de_co_f.Except.{Except, ok, err, out_of_range, other_exception, fault}
use de_co_f.Tree.{Store}
use de_co_f.Tree.Lookup.{fq_name}
use de_co_f.Access.{is_readable, Device, State, call}
use de_co_f.Visitor.{
  TypeTag, Visit, visit_object, visit_event, visit_node, visit_parameter, accept, tag_name,
  write_indentation,
}
use de_co_f.Cli.Encoder.{Stream, write, Printers, encode_value}

abbrev newline : Bytes
newline = 10 ∷ []

-- `tree_visitor`: what follows the name. A parameter's line shows its type and whether it can be set.
unfoldable pub tree_suffix : Visit → ℕ → Bytes
tree_suffix visit_object writelevel = codes " UNKNOWN"
tree_suffix visit_event writelevel = codes " EVENT"
tree_suffix visit_node writelevel = codes " NODE"
tree_suffix (visit_parameter tag) writelevel =
    codes " PARAM "
    ++ ((if writelevel == forbidden then codes "RO" else codes "RW") ++ (codes " " ++ tag_name tag))

unfoldable pub tree_visit : ℕ → (ℕ → TypeTag) → Store → ℕ → Option Bytes
unfolding tree_suffix accept
tree_visit fuel tag tree a = elim (fq_name fuel a tree) [
  | none ↦ none
  | some name ↦
      some (name ++ (tree_suffix (accept (tree a).kind (tag a)) (tree a).writelevel ++ newline))
]

-- The name, with a colon in front of all but a root's.
abbrev browse_name : Store → ℕ → Bytes
browse_name tree a = elim (tree a).parent [
  | none ↦ (tree a).name
  | some _ ↦ codes ":" ++ (tree a).name
]

module _ {D : Type 0} (lib : Printers) (device : Device D) (fuel : ℕ) (tree : Store) where
  abbrev pub write_value : Stream → State D × Except Value → State D × Except Stream
  write_value st (s, ok v) = (s, ok (write newline (encode_value lib v st)))
  write_value st (s, err e) = (s, err e)
  write_value st (s, out_of_range) = (s, out_of_range)
  write_value st (s, other_exception) = (s, other_exception)
  write_value st (s, fault) = (s, fault)

  -- `browse_visitor::visit(object*)`, which the other overloads but the node's call: the name is
  -- written before the value is read.
  unfoldable pub browse_visit_object : ℕ → Stream → State D → State D × Except Stream
  browse_visit_object a st s =
      if is_readable (tree a).kind
      then (elim (write_indentation fuel 0 a tree) [
        | none ↦ (s, fault)
        | some indent ↦
            write_value (write (indent ++ (browse_name tree a ++ codes " = ")) st)
              (call (device.read a) s)
      ])
      else (s, ok st)

  -- `browse_visitor::visit(node*)`.
  unfoldable pub browse_visit_node : ℕ → Stream → State D → State D × Except Stream
  browse_visit_node a st s = elim (write_indentation fuel 0 a tree) [
    | none ↦ (s, fault)
    | some indent ↦ (s, ok (write (indent ++ (browse_name tree a ++ newline)) st))
  ]

  unfoldable pub browse_visit : (ℕ → TypeTag) → ℕ → Stream → State D → State D × Except Stream
  unfolding browse_visit_object browse_visit_node accept
  browse_visit tag a st s = elim (accept (tree a).kind (tag a)) [
    | visit_node ↦ browse_visit_node a st s
    | _ ↦ browse_visit_object a st s
  ]
