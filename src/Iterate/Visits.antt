-- ===== src/Iterate/Visits.antt =====
-- ruwren-sys/src/wren_core.c: what a loop over a sequence visits.
use ruwren.Prelude.{
  ℕ, zero, suc, ◌+◌, ◌-◌, ◌%◌, ◌^◌, ◌≤◌, ◌<◌, ◌≡◌, ◌≢◌, refl, ◌∙◌, Bool, false, not, Option, none,
  some, List, [], ◌∷◌, leb, ◌==◌, if◌then◌else◌, length, get_or, arith, Bool-cases, inl, inr,
}
use ruwren.Prelude.Int.{pos}
use ruwren.Sequence.{whole}
use ruwren.Map.{empty, ObjMap}
use ruwren.Iterate.{
  Iterator, null_iterator, number, Iterated, stop, next, not_a_number, not_an_integer,
  undefined_index, outcome, first, is_used, used_from, map_iterate, is_continuation, sequence_from,
  string_iterate,
}

-- The indices from `i` on that pass, among the next `n`.
unfoldable pub positions : (ℕ → Bool) → ℕ → ℕ → List ℕ
positions test zero i = []
positions test (suc n) i = let rest = positions test n (i + 1) in if test i then i ∷ rest else rest

abbrev pub prepend : ℕ → Option (List ℕ) → Option (List ℕ)
prepend i none = none
prepend i (some l) = some (i ∷ l)

abbrev pub at : ℕ → Iterator
at i = number (whole (pos i))

-- A loop that asks for the next iterator until there is none; `none` is an error, or too little
-- fuel.
unfoldable pub visits : (Iterator → Iterated) → ℕ → Iterator → Option (List ℕ)
visits step zero it = none
visits step (suc fuel) it = elim (step it) [
  | stop ↦ some []
  | next i ↦ prepend i (visits step fuel (at i))
  | not_a_number ↦ none
  | not_an_integer ↦ none
  | undefined_index ↦ none
]

module _ (step : Iterator → Iterated) (test : ℕ → Bool) (total : ℕ)
    (steps : (i : ℕ)
      → i < total
      → step (at i) ≡ outcome (first test (total - (i + 1)) (i + 1))) where
  visits-positions :
      (n k fuel : ℕ) (it : Iterator)
      → n + k ≡ total
      → n < fuel
      → step it ≡ outcome (first test n k)
      → visits step fuel it ≡ some (positions test n k)
  unfolding visits positions first
  visits-positions zero k (suc fuel) it e l s = rw (visits, s) refl
  visits-positions n k zero it e l s = absurd (omega arith)
  visits-positions (suc n) k (suc fuel) it e l s = elim (Bool-cases (test k)) [
    | inl passes ↦
        let left : total - (k + 1) ≡ n = omega (arith, e) in
        let next_step : step (at k) ≡ outcome (first test n (k + 1)) =
          steps k (omega (arith, e)) ∙ rw left refl in
        let ih =
          visits-positions n (k + 1) fuel (at k) (omega (arith, e)) (omega arith) next_step in
        let here : step it ≡ next k = s ∙ rw passes refl in rw (visits, here, passes, ih) refl
    | inr fails ↦
        let here : step it ≡ outcome (first test n (k + 1)) = s ∙ rw fails refl in
        rw fails (visits-positions n (k + 1) (suc fuel) it (omega (arith, e)) (omega arith) here)
  ]

-- A loop over a map whose count is not 0 and whose capacity is at most 2 ^ 32, with fuel for more
-- rounds than that, ends without an error, and visits the indices of exactly the used entries,
-- each once and in order.
pub visits-map_iterate :
    {K V : Type 0} (map : ObjMap K V) (fuel : ℕ)
    → map.count ≢ 0
    → map.capacity < fuel
    → map.capacity ≤ 2 ^ 32
    → visits (map_iterate map) fuel null_iterator
      ≡ some (positions (λ i. is_used (get_or map.entries i empty)) map.capacity 0)
unfolding map_iterate used_from
visits-map_iterate map fuel some_used enough small =
    let test = λ (i : ℕ). is_used (get_or map.entries i empty) in
    let from_start : map.capacity - 0 ≡ map.capacity = omega arith in
    let filled : (map.count == 0) ≡ false = ground (arith, some_used) in
    visits-positions (map_iterate map) test map.capacity
      (λ i l.
        let fits : leb (2 ^ 32) i ≡ false = ground (arith, l, small) in
        let inside : leb map.capacity i ≡ false = ground (arith, l) in
        rw (filled, fits, inside) refl)
      map.capacity 0 fuel null_iterator (omega arith) enough
      (rw (filled, used_from, from_start) refl)

visits-next :
    (step : Iterator → Iterated) (fuel i : ℕ) (it : Iterator) (l : List ℕ)
    → step it ≡ next i
    → visits step fuel (at i) ≡ some l
    → visits step (suc fuel) it ≡ some (i ∷ l)
unfolding visits
visits-next step fuel i it l h e = rw (visits, h, e) refl

string_steps :
    (bytes : List ℕ)
    → length bytes < 2 ^ 32
    → (i : ℕ) → i < length bytes
    → string_iterate bytes (at i)
      ≡ outcome
          (first (λ j. not (is_continuation (get_or bytes j 0))) (length bytes - (i + 1)) (i + 1))
unfolding string_iterate sequence_from
string_steps bytes small i l =
    let fits : leb (2 ^ 32) i ≡ false = ground (arith, l, small) in
    let same : (i + 1) % 2 ^ 32 ≡ i + 1 = omega (arith, l, small) in rw (fits, same) refl

-- A loop over a string of at least one and less than 2 ^ 32 bytes, with fuel for more rounds than
-- that, ends without an error, and visits the first byte and then exactly the bytes that are not
-- in the middle of a sequence, each once and in order.
pub visits-string_iterate :
    (bytes : List ℕ) (byte fuel : ℕ)
    → suc (length bytes) < fuel
    → suc (length bytes) < 2 ^ 32
    → visits (string_iterate (byte ∷ bytes)) fuel null_iterator
      ≡ some
          (0 ∷ positions (λ i. not (is_continuation (get_or (byte ∷ bytes) i 0))) (length bytes) 1)
unfolding string_iterate sequence_from visits
visits-string_iterate bytes byte zero enough small = absurd (omega arith)
visits-string_iterate bytes byte (suc fuel) enough small =
    let all = byte ∷ bytes in
    let steps = string_steps all small in
    let one : suc (length bytes) - (0 + 1) ≡ length bytes = omega arith in
    let start : string_iterate all null_iterator ≡ next 0 = ground arith in
    visits-next (string_iterate all) fuel 0 null_iterator _ start (
      visits-positions (string_iterate all) (λ i. not (is_continuation (get_or all i 0)))
        (suc (length bytes)) steps (length bytes) 1 fuel (at 0) (omega arith) (omega arith)
        (steps 0 (omega arith) ∙ rw one refl))
