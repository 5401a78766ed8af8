-- ===== src/Tests/IterateTests.antt =====
-- Loops over a map of two entries, and over a string with a sequence of two bytes.
use ruwren.Prelude.{ℕ, ◌≡◌, refl, not, some, List, [], ◌∷◌, length, get_or, arith}
use ruwren.Map.{ObjMap, empty, tombstone, used}
use ruwren.Iterate.{
  null_iterator, is_used, is_continuation, map_iterate, string_iterate, first, used_from,
}
use ruwren.Iterate.Visits.{visits, positions, visits-map_iterate, visits-string_iterate}

abbrev two_used : ObjMap ℕ ℕ
two_used = record {
  entries = used 5 50 ∷ empty ∷ tombstone ∷ used 7 70 ∷ [];
  capacity = 4;
  count = 2;
}

two_used-visits : visits (map_iterate two_used) 5 null_iterator ≡ some (0 ∷ 3 ∷ [])
unfolding visits map_iterate used_from first
two_used-visits = refl

visits-map_iterate_example :
    visits (map_iterate two_used) 5 null_iterator
    ≡ some (positions (λ i. is_used (get_or two_used.entries i empty)) two_used.capacity 0)
visits-map_iterate_example = visits-map_iterate two_used 5 (omega arith) (omega arith) (omega arith)

-- The letter é.
abbrev accented : List ℕ
accented = 0xc3 ∷ 0xa9 ∷ []

visits-string_iterate_example :
    visits (string_iterate (65 ∷ accented)) 4 null_iterator
    ≡ some (
        0 ∷ positions (λ i. not (is_continuation (get_or (65 ∷ accented) i 0))) (length accented) 1)
visits-string_iterate_example = visits-string_iterate accented 65 4 (omega arith) (omega arith)
