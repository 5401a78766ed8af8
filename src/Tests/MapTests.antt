-- ===== src/Tests/MapTests.antt =====
-- The theorems on maps at a map with number keys, hashed as `hashBits` does.
use ruwren.Prelude.{ℕ, ◌+◌, ◌*◌, ◌≤◌, ◌<◌, ◌^◌, ◌≡◌, ap, true, not, Option, none, some, arith, ◌==◌}
use ruwren.Hash.{hash_bits}
use ruwren.Map.{Keys, ObjMap, new_map, map_set, map_get, map_remove_key}
use ruwren.Map.Slots.{one_if}
use ruwren.Map.Write.{is_none}
use ruwren.Map.Methods.{Models, update, new_map-Models, map_set-Models, map_get-Models}
use ruwren.Map.Remove.{map_remove_key-Models}

equal_symm : (a b : ℕ) → (a == b) ≡ (b == a)
equal_symm a b = ground arith

equal_trans : (a b c : ℕ) → (a == b) ≡ true → (b == c) ≡ true → (a == c) ≡ true
equal_trans a b c h k = ground arith

equal-hash : (a b : ℕ) → (a == b) ≡ true → hash_bits a ≡ hash_bits b
equal-hash a b h = let e : a ≡ b = ground arith in ap hash_bits e

equal_refl : (a : ℕ) → (a == a) ≡ true
equal_refl a = ground arith

abbrev number_keys : Keys ℕ
number_keys = record {
  values_equal = λ a b. a == b;
  hash_value = hash_bits;
  equal_refl = equal_refl;
  equal_symm = equal_symm;
  equal_trans = equal_trans;
  equal-hash = equal-hash;
}

abbrev empty_map : ObjMap ℕ ℕ
empty_map = new_map

abbrev no_keys : ℕ → Option ℕ
no_keys x = none

abbrev one_key : ℕ → Option ℕ
one_key = update number_keys no_keys 7 (some 70)

map_set-Models_example :
    (m' : ObjMap ℕ ℕ) × (map_set number_keys empty_map 7 70 ≡ some m')
    × Models number_keys one_key m'
    × (m'.count ≡ empty_map.count + one_if (is_none (no_keys 7)))
    × (m'.capacity ≤ empty_map.capacity * 2 + 16)
unfolding new_map
map_set-Models_example = map_set-Models number_keys 7 70 (new_map-Models number_keys) (omega arith)

abbrev one_map : ObjMap ℕ ℕ
one_map = map_set-Models_example.0

map_get-Models_example : map_get number_keys one_map 7 ≡ some (one_key 7)
map_get-Models_example = map_get-Models number_keys 7 map_set-Models_example.2

one_map_small : one_map.capacity * 75 < 2 ^ 32
unfolding new_map
one_map_small = omega (arith, map_set-Models_example.4)

map_remove_key-Models_example :
    (m' : ObjMap ℕ ℕ) × (map_remove_key number_keys one_map 7 ≡ some (one_key 7, m'))
    × Models number_keys (update number_keys one_key 7 none) m'
    × (m'.count + one_if (not (is_none (one_key 7))) ≡ one_map.count)
map_remove_key-Models_example =
    map_remove_key-Models number_keys 7 map_set-Models_example.2 one_map_small
