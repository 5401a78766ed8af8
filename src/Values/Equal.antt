-- ===== src/Values/Equal.antt =====
-- ruwren-sys/src/wren_value.h and wren_value.c: equality and hashes of values, with NaN tagging,
-- which is the default. The comparison of `double`s and the conversion of an `int` to one are the
-- platform's.
use ruwren.Prelude.{
  ℕ, bit_xor, ◌+◌, ◌||◌, not, Bool, false, ◌&&◌, Option, none, some, List, ◌==◌, length,
  if◌then◌else◌,
}
use ruwren.Prelude.Text.{bytes_equal}
use ruwren.Hash.{hash_bits}
use ruwren.Values.{
  Value, null_val, false_val, true_val, undefined_val, num_val, obj_val, Body, class_obj, fn_obj,
  range_obj, string_obj, Object,
}

abbrev pub qnan : ℕ
qnan = 0x7ffc000000000000

-- The bits of a value that is not an object.
unfoldable pub bits_of : Value → ℕ
bits_of null_val = qnan + 1
bits_of false_val = qnan + 2
bits_of true_val = qnan + 3
bits_of undefined_val = qnan + 4
bits_of (num_val bits) = bits
bits_of (obj_val a) = a

-- The kind of bit pattern; its bits are then `bits_of`.
abbrev pub kind_of : Value → ℕ
kind_of (num_val _) = 0
kind_of null_val = 1
kind_of false_val = 2
kind_of true_val = 3
kind_of undefined_val = 4
kind_of (obj_val _) = 5

-- "Value types have unique bit representations": patterns of two kinds differ.
unfoldable pub values_same : Value → Value → Bool
unfolding bits_of
values_same a b = kind_of a == kind_of b && bits_of a == bits_of b

-- What of an object is compared beside its identity.
pub data Shape : Type 0 where
  range_shape : ℕ → ℕ → Bool → Shape
  string_shape : ℕ → List ℕ → Shape
  identity : Shape

unfoldable pub shape_of_body : Body → Shape
shape_of_body (range_obj from to is_inclusive) = range_shape from to is_inclusive
shape_of_body (string_obj bytes hash) = string_shape hash bytes
shape_of_body _ = identity

abbrev pub same_bool : Bool → Bool → Bool
same_bool a b = if a then b else not b

module _ (object : ℕ → Object) where
  unfoldable pub shape_of : Value → Shape
  unfolding shape_of_body
  shape_of (obj_val a) = let o = object a in shape_of_body o.body
  shape_of _ = identity

module _ (num_equal : ℕ → ℕ → Bool) where
  unfoldable pub shapes_equal : Shape → Shape → Bool
  shapes_equal (range_shape f t i) (range_shape f' t' i') =
      num_equal f f' && num_equal t t' && same_bool i i'
  shapes_equal (string_shape h s) (string_shape h' s') = h == h' && bytes_equal s s'
  shapes_equal _ _ = false

  unfoldable pub values_equal : (ℕ → Object) → Value → Value → Bool
  unfolding values_same shape_of shapes_equal
  values_equal object a b = values_same a b || shapes_equal (shape_of object a) (shape_of object b)

unfoldable pub hash_number : ℕ → ℕ
hash_number bits = hash_bits bits

-- The name of a class is a string.
abbrev pub string_hash : Body → ℕ
string_hash (string_obj _ hash) = hash
string_hash _ = 0

module _ (to_double : ℕ → ℕ) (object : ℕ → Object) where
  -- `none` means a failed assertion, or a class without a name.
  unfoldable pub hash_object : Body → Option ℕ
  unfolding hash_number
  hash_object (class_obj c) = elim c.name [
    | none ↦ none
    | some a ↦ let o = object a in some (string_hash o.body)
  ]
  hash_object (fn_obj f) =
      some (bit_xor (hash_number (to_double f.arity)) (hash_number (to_double (length f.code))))
  hash_object (range_obj from to _) = some (bit_xor (hash_number from) (hash_number to))
  hash_object (string_obj _ hash) = some hash
  hash_object _ = none

  unfoldable pub hash_value : Value → Option ℕ
  unfolding hash_object bits_of
  hash_value (obj_val a) = let o = object a in hash_object o.body
  hash_value v = some (hash_bits (bits_of v))
