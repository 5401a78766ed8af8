-- ===== src/Strings/CodePoints.antt =====
-- ruwren-sys/src/wren_value.c, `wrenStringCodePointAt`: the code points of a text.
use ruwren.Prelude.{
  ℕ, ◌-◌, ◌≤◌, ◌<◌, ◌^◌, ◌≡◌, refl, List, [], ◌∷◌, ◌++◌, length, drop, arith, length-append,
}
use ruwren.Utf8.{utf8_encode}
use ruwren.Utf8.RoundTrip.{decode-encode}
use ruwren.Strings.{string_from_code_point, string_code_point_at}

drop-append : (xs ys : List ℕ) → drop (length xs) (xs ++ ys) ≡ ys
drop-append [] ys = refl
drop-append (x ∷ xs) ys = drop-append xs ys

-- Where a code point begins in a text of less than 2 ^ 32 bytes, `wrenStringCodePointAt` gives the
-- string of this code point.
pub string_code_point_at-encode :
    (before : List ℕ) (v : ℕ) (behind : List ℕ)
    → v ≤ 0x10ffff
    → length (before ++ (utf8_encode v ++ behind)) < 2 ^ 32
    → string_code_point_at (before ++ (utf8_encode v ++ behind)) (length before)
      ≡ string_from_code_point v
unfolding string_code_point_at
string_code_point_at-encode before v behind h small =
    let text = utf8_encode v ++ behind in
    let whole = length-append before text in
    let parts = length-append (utf8_encode v) behind in
    let left : length (before ++ text) - length before ≡ length text = omega (arith, whole) in
    let decoded =
      decode-encode v behind (length text) h (omega (arith, parts)) (omega (arith, whole, small)) in
    rw (string_code_point_at, drop-append before text, left, decoded) refl
