-- ===== src/Examples/Queues.antt =====
-- The theorems on `UpdateContainer`, for a container with two pending updates.
use de_co_f.Base.{◌≡◌, refl, false, none, some, [], ◌∷◌, arith, Bytes, bytes_eq, codes}
use de_co_f.Types.{Value, scalar_t, string_t}
use de_co_f.Updates.{find, UpdateContainer, push, pop_front}
use de_co_f.Updates.Abstract.{Queue, has_key, enqueue}
use de_co_f.Updates.Refine.{Represents, Returns, Pops, push-enqueue, pop_front_lem}

abbrev word : Value
word = scalar_t (string_t (codes "x"))

abbrev two : UpdateContainer
two = record {
  updates =
      (codes "b", record { time = 7; value = word; next = none })
      ∷ (codes "a", record { time = 5; value = word; next = some (codes "b") })
      ∷ [];
  front = some (codes "a");
  back = some (codes "b");
}

abbrev two_updates : Queue
two_updates = (codes "a", word, 5) ∷ (codes "b", word, 7) ∷ []

two_covered : (k : Bytes) → has_key k two_updates ≡ false → find k two.updates ≡ none
unfolding find
two_covered k h = ground arith

two-Represents : Represents two two_updates
unfolding find bytes_eq
two-Represents = record {
  chain = (refl, some (codes "b"), refl, (refl, none, refl, refl));
  back_is = refl;
  distinct = (refl, (refl, tt));
  covered = two_covered;
}

push-enqueue_example :
    Returns (enqueue (codes "a") word 9 two_updates) (push (codes "a") word 9 two)
push-enqueue_example = push-enqueue two two_updates (codes "a") word 9 two-Represents

pop_front_lem_example : Pops two_updates (pop_front two)
pop_front_lem_example = pop_front_lem two two_updates two-Represents
