-- ===== src/Cli/Commands/Browsing.antt =====
-- The visitor of `browse` and the replies of src/cli/clisrv_context.cpp, and the application's state.
use de_co_f.Base.{
  ℕ, ◌≡◌, inl, inr, refl, ◌∙◌, false, Option, none, some, List, [], ◌∷◌, Bool-cases, Bytes,
  Option-cases,
}
use de_co_f.Types.{Value}
use de_co_f.Except.{Except, ok, err, out_of_range, other_exception, fault}
use de_co_f.Tree.{Store}
use de_co_f.Access.{Client, is_readable, Device, State, call}
use de_co_f.Visitor.{
  TypeTag, Visit, visit_node, visit_object, visit_event, visit_parameter, accept, write_indentation,
}
use de_co_f.Cli.Encoder.{Stream, Printers}
use de_co_f.Cli.Visitors.{write_value, browse_visit_object, browse_visit_node, browse_visit}
use de_co_f.Cli.Commands.{Callbacks, reply, carry, browse_lines, tree_lines, browsed, treed}

module _ {D : Type 0} (cb : Callbacks D) (lib : Printers) (parse_value : Bytes → Except Value)
    (device : Device D) (fuel : ℕ) (tag : ℕ → TypeTag) (tree : Store) (root : ℕ)
    (getters : (a : ℕ) (x : Option ℕ) (d : D) → (device.read a x d).0 ≡ d) where
  write_value_keeps :
      (st : Stream) (x : State D × Except Value)
      → (write_value lib device fuel tree st x).0.device ≡ x.0.device
  write_value_keeps st (s, ok v) = refl
  write_value_keeps st (s, err e) = refl
  write_value_keeps st (s, out_of_range) = refl
  write_value_keeps st (s, other_exception) = refl
  write_value_keeps st (s, fault) = refl

  visit_object_keeps :
      (a : ℕ) (st : Stream) (s : State D)
      → (browse_visit_object lib device fuel tree a st s).0.device ≡ s.device
  unfolding browse_visit_object
  visit_object_keeps a st s = elim (Bool-cases (is_readable (tree a).kind)) [
    | inr e ↦ rw e refl
    | inl e ↦ elim (Option-cases (write_indentation fuel 0 a tree)) [
      | inl f ↦ rw (e, f) refl
      | inr (indent, f) ↦
          rw (e, f) (write_value_keeps _ (call (device.read a) s) ∙ getters a s.context s.device)
    ]
  ]

  visit_node_keeps :
      (a : ℕ) (st : Stream) (s : State D)
      → (browse_visit_node lib device fuel tree a st s).0.device ≡ s.device
  unfolding browse_visit_node
  visit_node_keeps a st s = elim (Option-cases (write_indentation fuel 0 a tree)) [
    | inl f ↦ rw (browse_visit_node, f) refl
    | inr (indent, f) ↦ rw (browse_visit_node, f) refl
  ]

  pub replied_keeps :
      {B : Type 0} (c : Client) (f : B → Stream) (x : State D × Except B)
      → (reply cb lib parse_value device fuel tag tree root c f x).0.device ≡ x.0.device
  replied_keeps c f (s, ok b) = refl
  replied_keeps c f (s, err e) = refl
  replied_keeps c f (s, out_of_range) = refl
  replied_keeps c f (s, other_exception) = refl
  replied_keeps c f (s, fault) = refl

  by_visit :
      (v : Visit) (a : ℕ) (st : Stream) (s : State D)
      → (elim v as (λ w. State D × Except Stream) [
        | visit_node ↦ browse_visit_node lib device fuel tree a st s
        | _ ↦ browse_visit_object lib device fuel tree a st s
      ]).0.device
        ≡ s.device
  by_visit visit_node a st s = visit_node_keeps a st s
  by_visit visit_object a st s = visit_object_keeps a st s
  by_visit visit_event a st s = visit_object_keeps a st s
  by_visit (visit_parameter t) a st s = visit_object_keeps a st s

  visit_keeps :
      (a : ℕ) (st : Stream) (s : State D)
      → (browse_visit lib device fuel tree tag a st s).0.device ≡ s.device
  unfolding browse_visit
  visit_keeps a st s = by_visit (accept (tree a).kind (tag a)) a st s

  carry_keeps :
      (next : Stream → State D → State D × Except Stream) (x : State D × Except Stream)
      → ((st : Stream) (s : State D) → (next st s).0.device ≡ s.device)
      → (carry cb lib parse_value device fuel tag tree root next x).0.device ≡ x.0.device
  carry_keeps next (s, ok st) h = h st s
  carry_keeps next (s, err e) h = refl
  carry_keeps next (s, out_of_range) h = refl
  carry_keeps next (s, other_exception) h = refl
  carry_keeps next (s, fault) h = refl

  lines_keep :
      (as_ : List ℕ) (st : Stream) (s : State D)
      → (browse_lines cb lib parse_value device fuel tag tree root as_ st s).0.device ≡ s.device
  unfolding browse_lines
  lines_keep [] st s = refl
  lines_keep (a ∷ more) st s =
      carry_keeps (browse_lines cb lib parse_value device fuel tag tree root more)
        (browse_visit lib device fuel tree tag a st s) (lines_keep more)
      ∙ visit_keeps a st s

  pub browsed_keeps :
      (c : Client) (s : State D) (r : Except (Option (List ℕ)))
      → (browsed cb lib parse_value device fuel tag tree root c s r).0.device ≡ s.device
  browsed_keeps c s (ok (some visited)) =
      replied_keeps c (λ st. st)
        (browse_lines cb lib parse_value device fuel tag tree root visited
          (record { out = []; hex = false }) s)
      ∙ lines_keep visited (record { out = []; hex = false }) s
  browsed_keeps c s (ok none) = refl
  browsed_keeps c s (err e) = refl
  browsed_keeps c s out_of_range = refl
  browsed_keeps c s other_exception = refl
  browsed_keeps c s fault = refl

  pub treed_keeps :
      (c : Client) (s : State D) (r : Except (Option (List ℕ)))
      → (treed cb lib parse_value device fuel tag tree root c s r).0.device ≡ s.device
  treed_keeps c s (ok (some visited)) =
      elim (Option-cases (tree_lines cb lib parse_value device fuel tag tree root visited)) [
        | inl e ↦ rw (treed, e) refl
        | inr (lines, e) ↦ rw (treed, e) refl
      ]
  treed_keeps c s (ok none) = refl
  treed_keeps c s (err e) = refl
  treed_keeps c s out_of_range = refl
  treed_keeps c s other_exception = refl
  treed_keeps c s fault = refl
