-- ===== src/Map.antt =====
-- The hash table of ruwren-sys/src/wren_value.c (`ObjMap`, `findEntry`, `insertEntry`, `resizeMap`,
-- `wrenMapGet`, `wrenMapSet`, `wrenMapClear`, `wrenMapRemoveKey`): open addressing with linear
-- probing and tombstones. `none` stands for a write through a null entry pointer.
pub mod Slots
pub mod Probe
pub mod Insert
pub mod Write
pub mod Resize
pub mod Methods
pub mod Remove
use ruwren.Prelude.{
  ℕ, zero, suc, ◌+◌, ◌-◌, ◌*◌, ◌/◌, ◌%◌, ◌^◌, ◌≡◌, Bool, true, false, ◌&&◌, Option, none, some,
  List, [], ◌∷◌, ltb, ◌==◌, if◌then◌else◌, get_or, set, replicate,
}

-- What the table asks of `wrenValuesEqual` and `hashValue`. With NaN tagging the laws hold for the
-- keys that the language allows, except for ranges with an end 0 or -0, which are equal as numbers
-- and hashed by their bits.
pub record Keys (K : Type 0) : Type 0 where
  pub values_equal : K → K → Bool
  pub hash_value : K → ℕ
  pub equal_refl : (a : K) → values_equal a a ≡ true
  pub equal_symm : (a b : K) → values_equal a b ≡ values_equal b a
  pub equal_trans :
      (a b c : K) → values_equal a b ≡ true → values_equal b c ≡ true → values_equal a c ≡ true
  pub equal-hash : (a b : K) → values_equal a b ≡ true → hash_value a ≡ hash_value b

-- A `MapEntry`. An undefined key with the value false is an empty slot, and an undefined key with
-- the value true a deleted one.
pub data MapEntry (K V : Type 0) : Type 0 where
  empty : MapEntry K V
  tombstone : MapEntry K V
  used : K → V → MapEntry K V

pub record ObjMap (K V : Type 0) : Type 0 where
  pub capacity : ℕ
  pub count : ℕ
  pub entries : List (MapEntry K V)

-- What `findEntry` returns: true with the entry, or false with the slot to insert at, if any.
pub data Found : Type 0 where
  found : ℕ → Found
  absent : Option ℕ → Found

abbrev pub min_capacity : ℕ
min_capacity = 16

abbrev pub grow_factor : ℕ
grow_factor = 2

-- `capacity * MAP_LOAD_PERCENT / 100` on `uint32_t`.
abbrev pub load_limit : ℕ → ℕ
load_limit capacity = capacity * 75 % 2 ^ 32 / 100

-- `tombstone != NULL ? tombstone : entry`.
abbrev pub first_free : Option ℕ → ℕ → Option ℕ
first_free none index = some index
first_free (some t) index = some t

-- `entry->value = value`; the key stays.
abbrev pub with_value : {K V : Type 0} → MapEntry K V → V → MapEntry K V
with_value empty value = empty
with_value tombstone value = tombstone
with_value (used k _) value = used k value

abbrev pub value_of : {K V : Type 0} → MapEntry K V → Option V
value_of empty = none
value_of tombstone = none
value_of (used _ v) = some v

unfoldable pub new_map : {K V : Type 0} → ObjMap K V
new_map = record { capacity = 0; count = 0; entries = [] }

pub map_clear : {K V : Type 0} → ObjMap K V → ObjMap K V
map_clear map = record { capacity = 0; count = 0; entries = [] }

module _ {K V : Type 0} (keys : Keys K) where
  open keys use {values_equal, hash_value}

  -- The `do` loop, with as much fuel as there are slots; `none` means that the fuel ran out.
  pub probe : ℕ → List (MapEntry K V) → ℕ → K → ℕ → ℕ → Option ℕ → Option Found
  probe zero entries capacity key start index tomb = none
  probe (suc fuel) entries capacity key start index tomb =
      let index' = (index + 1) % capacity in
      let deeper = probe fuel entries capacity key start index' in
      let next : Option ℕ → Option Found =
        λ t. let rest = deeper t in if index' == start then some (absent t) else rest in
      elim (get_or entries index empty) [
        | empty ↦ some (absent (first_free tomb index))
        | tombstone ↦ next (first_free tomb index)
        | used k v ↦ let on = next tomb in if values_equal k key then some (found index) else on
      ]

  pub find_entry : List (MapEntry K V) → ℕ → K → Option Found
  find_entry entries capacity key =
      let start = hash_value key % capacity in
      let result = probe capacity entries capacity key start start none in
      if capacity == 0 then some (absent none) else result

  -- The new array, and whether the key was not there before.
  pub insert_entry : List (MapEntry K V) → ℕ → K → V → Option (List (MapEntry K V) × Bool)
  insert_entry entries capacity key value = elim (find_entry entries capacity key) [
    | none ↦ none
    | some (found i) ↦ some (set entries i (with_value (get_or entries i empty) value), false)
    | some (absent (some i)) ↦ some (set entries i (used key value), true)
    | some (absent none) ↦ none
  ]

  -- Re-adds the used entries of the old array, in the order of the slots.
  pub rehash : List (MapEntry K V) → ℕ → List (MapEntry K V) → Option (List (MapEntry K V))
  rehash [] capacity entries = some entries
  rehash (empty ∷ old) capacity entries = rehash old capacity entries
  rehash (tombstone ∷ old) capacity entries = rehash old capacity entries
  rehash (used k v ∷ old) capacity entries =
      let rest = rehash old capacity in
      elim (insert_entry entries capacity k v) [ none ↦ none | some (fresh, _) ↦ rest fresh ]

  pub resize_map : ObjMap K V → ℕ → Option (ObjMap K V)
  resize_map map capacity = elim (rehash map.entries capacity (replicate capacity empty)) [
    | none ↦ none
    | some fresh ↦ some (record map { entries = fresh; capacity = capacity })
  ]

  -- `none` inside is `UNDEFINED_VAL`; `none` outside is a fault.
  pub map_get : ObjMap K V → K → Option (Option V)
  map_get map key = elim (find_entry map.entries map.capacity key) [
    | none ↦ none
    | some (absent _) ↦ some none
    | some (found i) ↦ some (value_of (get_or map.entries i empty))
  ]

  -- The first half of `wrenMapSet`, which makes room.
  pub make_room : ObjMap K V → Option (ObjMap K V)
  make_room map =
      let doubled = map.capacity * grow_factor % 2 ^ 32 in
      let capacity = if ltb doubled min_capacity then min_capacity else doubled in
      let grown = resize_map map capacity in
      if ltb (load_limit map.capacity) (map.count + 1) then grown else some map

  pub add_entry : ObjMap K V → K → V → Option (ObjMap K V)
  add_entry map key value = elim (insert_entry map.entries map.capacity key value) [
    | none ↦ none
    | some (entries, is_new) ↦
        some (record map { entries = entries; count = if is_new then map.count + 1 else map.count })
  ]

  pub map_set : ObjMap K V → K → V → Option (ObjMap K V)
  map_set map key value = elim (make_room map) [
    | none ↦ none
    | some room ↦ add_entry room key value
  ]

  -- The second half of `wrenMapRemoveKey`, once the entry is a tombstone and the count is down.
  pub shed_room : ObjMap K V → Option (ObjMap K V)
  shed_room map =
      let half = map.capacity / grow_factor in
      let shrunk = resize_map map (if ltb half min_capacity then min_capacity else half) in
      if map.count == 0
      then some (map_clear map)
      else if ltb min_capacity map.capacity && ltb map.count (load_limit half)
      then shrunk
      else some map

  -- The removed value, or `none` for `NULL_VAL` if the key is not there.
  pub map_remove_key : ObjMap K V → K → Option (Option V × ObjMap K V)
  map_remove_key map key = elim (find_entry map.entries map.capacity key) [
    | none ↦ none
    | some (absent _) ↦ some (none, map)
    | some (found i) ↦
        let cleared = record map { entries = set map.entries i tombstone; count = map.count - 1 } in
        elim (shed_room cleared) [
          | none ↦ none
          | some shed ↦ some (value_of (get_or map.entries i empty), shed)
        ]
  ]
