-- ===== src/Sequence.antt =====
-- Lists and the indices into sequences: `DEFINE_BUFFER` and `wrenPowerOf2Ceil` of
-- ruwren-sys/src/wren_utils.{h,c}, the list operations of wren_value.c, and the validation of
-- indices and ranges in wren_utils.c and wren_primitive.c.
pub mod Lists
pub mod Ranges
pub mod Powers
use ruwren.Prelude.{
  ℕ, zero, suc, ◌+◌, ◌-◌, ◌*◌, ◌/◌, ◌%◌, ◌^◌, bit_or, Bool, true, false, ◌&&◌, ◌||◌, not, Option,
  none, some, List, [], ◌∷◌, ◌++◌, ltb, leb, ◌==◌, if◌then◌else◌, length, get_or, set, take,
  replicate, index_of,
}
use ruwren.Prelude.Int.{ℤ, pos, negsuc, ◌+ℤ◌, ltb_ℤ, eqb_ℤ}

-- For `n` from 1 to 2 ^ 30, where no `int` overflows.
unfoldable pub power_of_2_ceil : ℕ → ℕ
power_of_2_ceil n =
    let n₀ = n - 1 in
    let n₁ = bit_or n₀ (n₀ / 2) in
    let n₂ = bit_or n₁ (n₁ / 2 ^ 2) in
    let n₃ = bit_or n₂ (n₂ / 2 ^ 4) in
    let n₄ = bit_or n₃ (n₃ / 2 ^ 8) in let n₅ = bit_or n₄ (n₄ / 2 ^ 16) in n₅ + 1

-- A buffer's `data` and `capacity`; its `count` is the length of `data`.
pub record Buffer (A : Type 0) : Type 0 where
  pub data_ : List A
  pub capacity : ℕ

module _ {A : Type 0} where
  unfoldable pub buffer_fill : Buffer A → A → ℕ → Buffer A
  buffer_fill b item count =
      let needed = length b.data_ + count in
      record {
        data_ = b.data_ ++ replicate count item;
        capacity = if ltb b.capacity needed then power_of_2_ceil needed else b.capacity;
      }

  unfoldable pub buffer_write : Buffer A → A → Buffer A
  buffer_write b item = buffer_fill b item 1

  -- `for (i = from; i > index; i--) data[i] = data[i - 1];`
  unfoldable pub shift_down : ℕ → ℕ → List A → A → List A
  shift_down zero index xs default = xs
  shift_down (suc i) index xs default =
      let rest = shift_down i index (set xs (suc i) (get_or xs i default)) default in
      if ltb index (suc i) then rest else xs

  -- `null` is `NULL_VAL`.
  unfoldable pub list_insert : A → Buffer A → A → ℕ → Buffer A
  list_insert null b value index =
      let wider = buffer_write b null in
      record wider {
        data_ = set (shift_down (length wider.data_ - 1) index wider.data_ null) index value;
      }

  unfoldable pub list_index_of : (A → A → Bool) → List A → A → Option ℕ
  list_index_of values_equal xs value = index_of (λ item. values_equal item value) xs

  -- `for (i = index; i < count - 1; i++) data[i] = data[i + 1];`, with `fuel` rounds left.
  unfoldable pub shift_up : ℕ → ℕ → List A → A → List A
  shift_up zero i xs default = xs
  shift_up (suc fuel) i xs default =
      shift_up fuel (suc i) (set xs i (get_or xs (suc i) default)) default

  -- The removed value, and the list without it; `null` is only for the type.
  unfoldable pub list_remove_at : A → Buffer A → ℕ → A × Buffer A
  list_remove_at null b index =
      let count = length b.data_ in
      let shifted = shift_up (count - 1 - index) index b.data_ null in
      (
        get_or b.data_ index null,
        record {
          data_ = take (count - 1) shifted;
          capacity = if leb count (b.capacity / 2) then b.capacity / 2 else b.capacity;
        },
      )

-- `wrenValidateIndex`; `none` is `UINT32_MAX`.
unfoldable pub validate_index : ℕ → ℤ → Option ℕ
validate_index count value =
    let from_end = if ltb_ℤ value (pos 0) then pos count +ℤ value else value in
    elim from_end [ pos i ↦ if ltb i count then some i else none | negsuc _ ↦ none ]

-- A double, as far as an index looks at it: one that is its own `trunc`, as an integer, an
-- infinity, or one that has a fraction or is no number.
pub data Double : Type 0 where
  whole : ℤ → Double
  infinite : Double
  fraction : Double

pub data IndexError : Type 0 where
  not_an_integer out_of_bounds : IndexError

pub data Checked (A : Type 0) : Type 0 where
  valid : A → Checked A
  invalid : IndexError → Checked A

-- `validateIndexValue`.
unfoldable pub validate_index_value : ℕ → Double → Checked ℕ
validate_index_value count fraction = invalid not_an_integer
validate_index_value count infinite = invalid out_of_bounds
validate_index_value count (whole value) =
    elim (if ltb_ℤ value (pos 0) then pos count +ℤ value else value) [
      | pos i ↦ if ltb i count then valid i else invalid out_of_bounds
      | negsuc _ ↦ invalid out_of_bounds
    ]

pub record Range : Type 0 where
  pub from : Double
  pub to : Double
  pub is_inclusive : Bool

-- What `calculateRange` returns and writes: the start, the number of steps, and the step.
pub record Span : Type 0 where
  pub start : ℕ
  pub count : ℕ
  pub step : ℤ

abbrev pub is_whole : Double → ℤ → Bool
is_whole (whole a) b = eqb_ℤ a b
is_whole infinite b = false
is_whole fraction b = false

-- The end point, made inclusive; `none` is the empty range.
abbrev pub inclusive_end : Bool → ℕ → ℤ → Option ℤ
inclusive_end true from value = some value
inclusive_end false from value =
    if eqb_ℤ value (pos from)
    then none
    else some (value +ℤ (if ltb_ℤ value (pos from) then pos 1 else negsuc 0))

-- `abs((int)(from - to))` on `uint32_t`.
abbrev pub distance : ℕ → ℕ → ℕ
distance from to = let d = (from + 2 ^ 32 - to) % 2 ^ 32 in if ltb d (2 ^ 31) then d else 2 ^ 32 - d

-- The bounds check of the end, and the results.
abbrev pub span_to : ℕ → ℕ → Option ℤ → Checked Span
span_to length from none = valid (record { start = from; count = 0; step = pos 0 })
span_to length from (some (negsuc _)) = invalid out_of_bounds
span_to length from (some (pos to)) =
    if ltb to length
    then valid (record {
      start = from;
      count = distance from to + 1;
      step = if ltb from to then pos 1 else negsuc 0;
    })
    else invalid out_of_bounds

abbrev pub range_from : Range → ℕ → Checked ℕ → Checked Span
range_from range length (invalid e) = invalid e
range_from range length (valid from) = elim range.to [
  | fraction ↦ invalid not_an_integer
  | infinite ↦ invalid out_of_bounds
  | whole to ↦
      span_to length from
        (inclusive_end range.is_inclusive from (if ltb_ℤ to (pos 0) then pos length +ℤ to else to))
]

unfoldable pub calculate_range : Range → ℕ → Checked Span
calculate_range range length =
    let checked = range_from range length (validate_index_value length range.from) in
    if is_whole range.from (pos length)
      && is_whole range.to (if range.is_inclusive then negsuc 0 else pos length)
    then valid (record { start = 0; count = 0; step = pos 0 })
    else checked
