-- ===== src/Find.antt =====
-- `wrenStringFind` of ruwren-sys/src/wren_value.c, the search for a string inside another. Strings
-- are lists of bytes.
pub mod Shifts
pub mod Search
use ruwren.Prelude.{
  ℕ, zero, suc, ◌+◌, ◌-◌, ◌%◌, ◌^◌, Bool, true, ◌&&◌, Option, none, some, List, ltb, leb, ◌==◌,
  if◌then◌else◌, length, get_or, set, replicate,
}

-- The table of shifts after `n` rounds of the loop over the needle. It has `UINT8_MAX` slots, one
-- less than there are bytes; a write past them changes none.
unfoldable pub shift_table : List ℕ → ℕ → ℕ → List ℕ
shift_table needle needle_end zero = replicate 255 (length needle)
shift_table needle needle_end (suc n) =
    set (shift_table needle needle_end n) (get_or needle n 0) (needle_end - n)

-- `memcmp(haystack->value + index, needle->value, n) == 0`.
unfoldable pub mem_equal : List ℕ → ℕ → List ℕ → ℕ → Bool
mem_equal haystack index needle zero = true
mem_equal haystack index needle (suc n) =
    mem_equal haystack index needle n && get_or haystack (index + n) 0 == get_or needle n 0

module _ (haystack needle : List ℕ) (shift : List ℕ) (needle_end range : ℕ) where
  -- The loop that slides the needle; `none` means that the fuel ran out. A slot past the table is
  -- read as 0.
  unfoldable pub slide : ℕ → ℕ → Option (Option ℕ)
  slide zero index = none
  slide (suc fuel) index =
      let c = get_or haystack (index + needle_end) 0 in
      let rest = slide fuel (index + get_or shift c 0) in
      if ltb range index
      then some none
      else if get_or needle needle_end 0 == c && mem_equal haystack index needle needle_end
      then some (some index)
      else rest

-- The index of the match; `none` inside is `UINT32_MAX`.
unfoldable pub string_find : List ℕ → List ℕ → ℕ → Option (Option ℕ)
string_find haystack needle start =
    let needle_end = length needle - 1 in
    let range = length haystack - length needle in
    let shift = shift_table needle needle_end needle_end in
    let searched = slide haystack needle shift needle_end range (suc (suc range)) start in
    if length needle == 0
    then some (some start)
    else if ltb (length haystack) ((start + length needle) % 2 ^ 32)
    then some none
    else if leb (length haystack) start
    then some none
    else searched
