-- ===== src/Tests/ValueTests.antt =====
-- A heap of strings.
use ruwren.Prelude.{ℕ, ◌≡◌, refl, true, none, ◌==◌, arith, ==_iff, Bool}
use ruwren.Prelude.Text.{codes, bytes_equal}
use ruwren.Values.{Object, obj_val, string_obj}
use ruwren.Values.Equal.{
  values_equal, hash_value, values_same, shape_of, shape_of_body, shapes_equal, bits_of,
}
use ruwren.Values.Laws.{IsEquality, values_equal-IsEquality}
use ruwren.Values.Hashes.{IsEnd, values_equal-hash_value}

abbrev string_at : ℕ → Object
string_at a = record { class_of = none; body = string_obj (codes "wren") 5 }

-- Numbers that are compared by their bits.
abbrev same_bits : ℕ → ℕ → Bool
same_bits m n = m == n

values_equal-IsEquality_example : IsEquality same_bits string_at
values_equal-IsEquality_example =
    values_equal-IsEquality same_bits string_at (λ (m : ℕ) (n : ℕ). ground arith)
      (λ (m : ℕ) (n : ℕ) (k : ℕ) e f. ground (arith, e, f))

no_ends : (m n : ℕ) → IsEnd string_at m → IsEnd string_at n → same_bits m n ≡ true → m ≡ n
no_ends m n h k e = (==_iff m n).0 e

two_strings : values_equal same_bits string_at (obj_val 1) (obj_val 2) ≡ true
unfolding values_equal values_same shape_of shape_of_body shapes_equal bits_of bytes_equal
two_strings = refl

values_equal-hash_value_example :
    hash_value (λ n. n) string_at (obj_val 1) ≡ hash_value (λ n. n) string_at (obj_val 2)
values_equal-hash_value_example =
    values_equal-hash_value same_bits (λ n. n) string_at no_ends (obj_val 1) (obj_val 2) two_strings
