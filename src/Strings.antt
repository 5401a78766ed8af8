-- ===== src/Strings.antt =====
-- ruwren-sys/src/wren_value.c: strings made from code points and from ranges of other strings, as
-- lists of bytes. Their hashes are left out.
pub mod CodePoints
use ruwren.Prelude.{
  ℕ, zero, suc, ◌+◌, ◌-◌, ◌*◌, Option, none, some, List, [], ◌∷◌, ◌++◌, length, drop, get_or,
  if◌then◌else◌,
}
use ruwren.Prelude.Int.{ℤ, pos, negsuc}
use ruwren.Utf8.{utf8_encode, utf8_decode, utf8_decode_num_bytes}
use ruwren.Sequence.{Checked, valid, invalid, Double, validate_index_value}
use ruwren.Iterate.{is_continuation}

-- `value` is from 0 to 0x10ffff.
unfoldable pub string_from_code_point : ℕ → List ℕ
string_from_code_point value = utf8_encode value

-- `index` is below the length.
unfoldable pub string_code_point_at : List ℕ → ℕ → List ℕ
unfolding string_from_code_point
string_code_point_at bytes index = elim (utf8_decode (drop index bytes) (length bytes - index)) [
  | none ↦ get_or bytes index 0 ∷ []
  | some code_point ↦ string_from_code_point code_point
]

-- `start + i * step`, which is not negative.
abbrev pub range_index : ℕ → ℕ → ℤ → ℕ
range_index start i (pos n) = start + i * n
range_index start i (negsuc n) = start - i * (n + 1)

-- The two loops of `wrenNewStringFromRange` from `i` on, with `rounds` left: the number of bytes to
-- allocate, and the bytes that are written.
unfoldable pub range_length : List ℕ → ℕ → ℤ → ℕ → ℕ → ℕ
range_length from start step zero i = 0
range_length from start step (suc rounds) i =
    utf8_decode_num_bytes (get_or from (range_index start i step) 0)
    + range_length from start step rounds (i + 1)

unfoldable pub range_bytes : List ℕ → ℕ → ℤ → ℕ → ℕ → List ℕ
range_bytes from start step zero i = []
range_bytes from start step (suc rounds) i =
    let index = range_index start i step in
    let rest = range_bytes from start step rounds (i + 1) in
    elim (utf8_decode (drop index from) (length from - index)) [
      | none ↦ rest
      | some code_point ↦ utf8_encode code_point ++ rest
    ]

-- The length of the new string, and the bytes that are written to its front.
unfoldable pub new_string_from_range : List ℕ → ℕ → ℕ → ℤ → ℕ × List ℕ
unfolding range_length range_bytes
new_string_from_range from start count step =
    (range_length from start step count 0, range_bytes from start step count 0)

-- The primitives `string_byteAt` and `string_codePointAt` of wren_core.c. The second gives -1 in the
-- middle of a sequence and where there is none.
unfoldable pub byte_at : List ℕ → Double → Checked ℕ
byte_at bytes value = elim (validate_index_value (length bytes) value) [
  | valid index ↦ valid (get_or bytes index 0)
  | invalid e ↦ invalid e
]

unfoldable pub code_point_at : List ℕ → Double → Checked ℤ
code_point_at bytes value = elim (validate_index_value (length bytes) value) [
  | valid index ↦
      if is_continuation (get_or bytes index 0)
      then valid (negsuc 0)
      else elim (utf8_decode (drop index bytes) (length bytes - index)) [
        | none ↦ valid (negsuc 0)
        | some code_point ↦ valid (pos code_point)
      ]
  | invalid e ↦ invalid e
]
