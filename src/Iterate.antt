-- ===== src/Iterate.antt =====
-- ruwren-sys/src/wren_core.c: the `iterate` primitives of lists, maps and strings. An iterator is
-- null at first, and then what the primitive returned last, until that is false.
pub mod Visits
use ruwren.Prelude.{
  ℕ, zero, suc, ◌+◌, ◌-◌, ◌%◌, ◌^◌, bit_and, Bool, true, false, not, Option, none, some, List, [],
  ◌∷◌, ltb, leb, ◌==◌, if◌then◌else◌, length, get_or,
}
use ruwren.Prelude.Int.{ℤ, pos, negsuc}
use ruwren.Sequence.{Double, whole, infinite, fraction}
use ruwren.Map.{MapEntry, empty, tombstone, used, ObjMap}

pub data Iterator : Type 0 where
  null_iterator : Iterator
  number : Double → Iterator
  other_value : Iterator

-- `stop` is false. The conversion to `uint32_t` of a number that does not fit is not defined; of the
-- infinities, which are one case here, this is so for the positive one.
pub data Iterated : Type 0 where
  stop : Iterated
  next : ℕ → Iterated
  not_a_number not_an_integer undefined_index : Iterated

abbrev pub outcome : Option ℕ → Iterated
outcome none = stop
outcome (some i) = next i

unfoldable pub list_iterate : {A : Type 0} → List A → Iterator → Iterated
list_iterate elements null_iterator = if length elements == 0 then stop else next 0
list_iterate elements (number (whole (pos i))) =
    if leb (length elements - 1) i then stop else next (i + 1)
list_iterate elements (number (whole (negsuc _))) = stop
list_iterate elements (number infinite) = stop
list_iterate elements (number fraction) = not_an_integer
list_iterate elements other_value = not_a_number

-- The first index from `i` on that passes, with `rounds` left.
unfoldable pub first : (ℕ → Bool) → ℕ → ℕ → Option ℕ
first test zero i = none
first test (suc rounds) i = let rest = first test rounds (i + 1) in if test i then some i else rest

abbrev pub is_used : {K V : Type 0} → MapEntry K V → Bool
is_used empty = false
is_used tombstone = false
is_used (used _ _) = true

module _ {K V : Type 0} where
  -- The loop of `map_iterate`.
  unfoldable pub used_from : ObjMap K V → ℕ → Option ℕ
  unfolding first
  used_from map index =
      let entries = map.entries in
      first (λ i. is_used (get_or entries i empty)) (map.capacity - index) index

  unfoldable pub map_iterate : ObjMap K V → Iterator → Iterated
  unfolding used_from
  map_iterate map null_iterator = if map.count == 0 then stop else outcome (used_from map 0)
  map_iterate map (number (whole (pos i))) =
      if map.count == 0
      then stop
      else if leb (2 ^ 32) i
      then undefined_index
      else if leb map.capacity i
      then stop
      else outcome (used_from map (i + 1))
  map_iterate map (number (whole (negsuc _))) = stop
  map_iterate map (number infinite) = if map.count == 0 then stop else undefined_index
  map_iterate map (number fraction) = if map.count == 0 then stop else not_an_integer
  map_iterate map other_value = if map.count == 0 then stop else not_a_number

-- A byte in the middle of a sequence.
abbrev pub is_continuation : ℕ → Bool
is_continuation byte = bit_and byte 0xc0 == 0x80

-- The loop of `string_iterate`.
unfoldable pub sequence_from : List ℕ → ℕ → Option ℕ
unfolding first
sequence_from bytes index =
    first (λ i. not (is_continuation (get_or bytes i 0))) (length bytes - index) index

unfoldable pub string_iterate : List ℕ → Iterator → Iterated
unfolding sequence_from
string_iterate bytes null_iterator = if length bytes == 0 then stop else next 0
string_iterate bytes (number (whole (pos i))) =
    if leb (2 ^ 32) i then undefined_index else outcome (sequence_from bytes ((i + 1) % 2 ^ 32))
string_iterate bytes (number (whole (negsuc _))) = stop
string_iterate bytes (number infinite) = undefined_index
string_iterate bytes (number fraction) = not_an_integer
string_iterate bytes other_value = not_a_number

unfoldable pub string_iterate_byte : List ℕ → Iterator → Iterated
string_iterate_byte bytes null_iterator = if length bytes == 0 then stop else next 0
string_iterate_byte bytes (number (whole (pos i))) =
    let index = (i + 1) % 2 ^ 32 in
    if leb (2 ^ 32) i
    then undefined_index
    else if leb (length bytes) index
    then stop
    else next index
string_iterate_byte bytes (number (whole (negsuc _))) = stop
string_iterate_byte bytes (number infinite) = undefined_index
string_iterate_byte bytes (number fraction) = not_an_integer
string_iterate_byte bytes other_value = not_a_number
