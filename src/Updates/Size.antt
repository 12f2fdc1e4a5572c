-- ===== src/Updates/Size.antt =====
-- The number of elements of the map of src/cli/update_container.cpp.
use de_co_f.Base.{
  ◌≤◌, ◌<◌, ◌≡◌, refl, true, false, none, some, ◌∙◌, [], ◌∷◌, arith, if◌then◌else◌, Bool-cases, inl,
  inr, length, Bytes, bytes_eq, bytes_eq_iff, bytes_eq_self,
}
use de_co_f.Updates.{Mapped, Map, UpdateContainer, find, erase}
use de_co_f.Updates.Abstract.{Queue, has_key, Distinct}
use de_co_f.Updates.Chain.{find_of_Chain}
use de_co_f.Updates.Map.{find-erase}
use de_co_f.Updates.Refine.{Represents}

length-erase_le : (k : Bytes) (m : Map) → length (erase k m) ≤ length m
unfolding erase
length-erase_le k [] = omega arith
length-erase_le k ((j, d) ∷ m) = ground (arith, length-erase_le k m)

length-erase :
    (k : Bytes) (m : Map) (e : Mapped) → find k m ≡ some e → length (erase k m) < length m
unfolding find erase
length-erase k [] e h = absurd (cc)
length-erase k ((j, d) ∷ m) e h = ground (arith, length-erase_le k m, length-erase k m e)

-- Another key than the first of a queue without doubles is found as before.
other :
    (k j : Bytes) (q : Queue) (m : Map)
    → has_key k q ≡ false
    → has_key j q ≡ true
    → (if bytes_eq k j then none else find j m) ≡ find j m
other k j q m d h = elim (Bool-cases (bytes_eq k j)) [
  | inl e ↦ absurd (let same = (bytes_eq_iff k j).0 e in cc)
  | inr e ↦ rw e refl
]

length-keys :
    (q : Queue) (m : Map)
    → Distinct q
    → ((k : Bytes) → has_key k q ≡ true → (e : Mapped) × (find k m ≡ some e))
    → length q ≤ length m
length-keys [] m d f = omega arith
length-keys ((k, v, t) ∷ q) m d f =
    let (e, here) = f k (ground (arith, bytes_eq_self k)) in
    let rest = length-keys q (erase k m) d.1 (λ j h.
      let (e', there) = f j (ground arith) in
      (e', find-erase k j m ∙ other k j q m d.0 h ∙ there)) in
    omega (arith, rest, length-erase k m e here)

-- The map has an element for each entry of the queue.
pub length-Represents :
    (c : UpdateContainer) (q : Queue) → Represents c q → length q ≤ length c.updates
length-Represents c q r =
    length-keys q c.updates r.distinct (λ k h. find_of_Chain c.updates c.front q k r.chain h)
