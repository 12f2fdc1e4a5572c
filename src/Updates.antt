-- ===== src/Updates.antt =====
-- `update_container` of src/cli/update_container.cpp: the pending notifications of a subscriber.
-- `updates` is the std::map, in some order; an iterator is the key of its element, and `none` is
-- `updates_.end()`. Keys are unique, so an iterator to a live element is determined by its key.
-- A dereference of `end()` or of an erased element is undefined behaviour: `fault`.
pub mod Abstract
mod Map
mod Chain
pub mod Refine
pub mod Size
use de_co_f.Base.{
  ℕ, Bool, true, false, Option, none, some, List, [], ◌∷◌, if◌then◌else◌, is_empty, Bytes, bytes_eq,
}
use de_co_f.Types.{Value}

-- `mapped_type`.
pub record Mapped : Type 0 where
  pub time : ℕ
  pub value : Value
  pub next : Option Bytes

abbrev pub Map : Type 0
Map = List (Bytes × Mapped)

unfoldable pub find : Bytes → Map → Option Mapped
find k [] = none
find k ((j, e) ∷ m) = if bytes_eq j k then some e else find k m

-- An assignment through the iterator at `k`, or the insertion of a new element.
pub assign : Bytes → Mapped → Map → Map
assign k e [] = (k, e) ∷ []
assign k e ((j, d) ∷ m) = if bytes_eq j k then (j, e) ∷ m else (j, d) ∷ assign k e m

unfoldable pub erase : Bytes → Map → Map
erase k [] = []
erase k ((j, d) ∷ m) = if bytes_eq j k then erase k m else (j, d) ∷ erase k m

pub record UpdateContainer : Type 0 where
  pub updates : Map
  pub front : Option Bytes
  pub back : Option Bytes

pub data Outcome (A : Type 0) : Type 0 where
  ok : A → Outcome A
  out_of_range : Outcome A
  fault : Outcome A

-- The constructor.
unfoldable pub empty_container : UpdateContainer
empty_container = record { updates = []; front = none; back = none }

-- `back_->second.next = current; back_ = current`, in the map that already has `current`.
link_back : Bytes → Map → Option Bytes → Option Bytes → Outcome UpdateContainer
link_back uri m front none = fault
link_back uri m front (some b) = elim (find b m) [
  | none ↦ fault
  | some e ↦ ok (record {
    updates = assign b (record e { next = some uri }) m;
    front = front;
    back = some uri;
  })
]

-- The part under `if (is_new)`.
link_new : Bytes → Map → Option Bytes → Option Bytes → Outcome UpdateContainer
link_new uri m none back = ok (record { updates = m; front = some uri; back = some uri })
link_new uri m (some f) back = link_back uri m (some f) back

-- `push`; `now` is what the system clock returns.
unfoldable pub push : Bytes → Value → ℕ → UpdateContainer → Outcome UpdateContainer
unfolding link_back link_new
push uri value now c = elim (find uri c.updates) [
  | some e ↦
      ok (record c { updates = assign uri (record e { value = value; time = now }) c.updates })
  | none ↦
      link_new uri (assign uri (record { time = now; value = value; next = none }) c.updates)
        c.front c.back
]

-- `pop_front`: the element, and the container without it.
unfoldable pub pop_front : UpdateContainer → Outcome ((Bytes × Value × ℕ) × UpdateContainer)
pop_front c = elim c.front [
  | none ↦ out_of_range
  | some f ↦ elim (find f c.updates) [
    | none ↦ fault
    | some e ↦ ok (
      (f, e.value, e.time),
      record {
        updates = erase f c.updates;
        front = e.next;
        back = elim e.next [ none ↦ none | some _ ↦ c.back ];
      },
    )
  ]
]

unfoldable pub empty : UpdateContainer → Bool
empty c = is_empty c.updates
