-- ===== src/Tests/SequenceTests.antt =====
-- Lists, indices and ranges on short lists.
use ruwren.Prelude.{
  ◌^◌, ℕ, ◌+◌, ◌-◌, ◌≡◌, refl, true, [], ◌∷◌, length, get_or, arith, ltb, ◌==◌, if◌then◌else◌,
}
use ruwren.Prelude.Int.{pos, negsuc, ◌+ℤ◌}
use ruwren.Sequence.Powers.{power_of_2_ceil-least}
use ruwren.Sequence.{
  Buffer, power_of_2_ceil, list_insert, whole, validate_index_value, Range, Span, calculate_range,
}
use ruwren.Sequence.Lists.{list_insert-items}
use ruwren.Sequence.Ranges.{IsInside, calculate_range-IsInside}

power_of_2_ceil_17 : power_of_2_ceil 17 ≡ 32
unfolding power_of_2_ceil
power_of_2_ceil_17 = refl

abbrev three : Buffer ℕ
three = record { data_ = 10 ∷ 20 ∷ 30 ∷ []; capacity = 4 }

list_insert-items_example :
    (length (list_insert 0 three 15 1).data_ ≡ length three.data_ + 1)
    × (get_or (list_insert 0 three 15 1).data_ 2 0 ≡ (
        if 2 == 1
        then 15
        else if ltb 1 2
        then get_or three.data_ (2 - 1) 0
        else get_or three.data_ 2 0))
list_insert-items_example = list_insert-items 0 three 15 1 2 (omega arith) (omega arith)

-- `-1..0`, which turns a sequence around.
abbrev backwards : Range
backwards = record { from = whole (negsuc 0); to = whole (pos 0); is_inclusive = true }

abbrev turned : Span
turned = record { start = 4; count = 5; step = negsuc 0 }

calculate_range-IsInside_example : IsInside 5 turned
unfolding calculate_range validate_index_value ◌+ℤ◌
calculate_range-IsInside_example = calculate_range-IsInside backwards 5 turned (omega arith) refl

power_of_2_ceil-least_example : power_of_2_ceil 17 ≡ 2 ^ 5
power_of_2_ceil-least_example = power_of_2_ceil-least 4 17 (omega arith) (omega arith) (omega arith)
