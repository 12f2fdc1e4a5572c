-- ===== src/Updates/Map.antt =====
-- What a lookup in the map of src/cli/update_container.cpp finds after a change.
use de_co_f.Base.{
  ◌≡◌, refl, false, none, some, [], ◌∷◌, if◌then◌else◌, arith, is_empty, Bytes, bytes_eq,
  bytes_eq_iff,
}
use de_co_f.Updates.{Mapped, Map, find, assign, erase}

pub find-assign :
    (k j : Bytes) (e : Mapped) (m : Map)
    → find j (assign k e m) ≡ (if bytes_eq k j then some e else find j m)
unfolding find assign
find-assign k j e [] = refl
find-assign k j e ((i, d) ∷ m) =
    ground (arith, bytes_eq_iff k j, bytes_eq_iff i k, bytes_eq_iff i j, find-assign k j e m)

pub find-erase :
    (k j : Bytes) (m : Map) → find j (erase k m) ≡ (if bytes_eq k j then none else find j m)
unfolding find erase
find-erase k j [] = ground arith
find-erase k j ((i, d) ∷ m) =
    ground (arith, bytes_eq_iff k j, bytes_eq_iff i k, bytes_eq_iff i j, find-erase k j m)

-- A map in which nothing is found is empty.
pub empty_of_find : (m : Map) → ((k : Bytes) → find k m ≡ none) → m ≡ []
unfolding find
empty_of_find [] h = refl
empty_of_find ((i, d) ∷ m) h = ground (arith, h i, bytes_eq_iff i i)

pub ne_empty_of_find : (m : Map) (k : Bytes) (e : Mapped) → find k m ≡ some e → is_empty m ≡ false
unfolding find
ne_empty_of_find [] k e h = absurd (cc)
ne_empty_of_find ((j, d) ∷ m) k e h = refl
