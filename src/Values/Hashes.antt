-- ===== src/Values/Hashes.antt =====
-- ruwren-sys/src/wren_value.c: equal values have equal hashes.
use ruwren.Prelude.{
  ℕ, ◌≡◌, refl, sym, ap, ◌∙◌, bit_xor, Bool, true, false, ◌&&◌, some, List, arith, inl, inr, ◌⊎◌,
}
use ruwren.Values.{
  Value, null_val, false_val, true_val, undefined_val, num_val, obj_val, Body, class_obj,
  closure_obj, fiber_obj, fn_obj, foreign_obj, instance_obj, list_obj, map_obj, module_obj,
  range_obj, string_obj, upvalue_obj, Object,
}
use ruwren.Values.Equal.{
  values_same, range_shape, string_shape, identity, shape_of_body, same_bool, shape_of,
  shapes_equal, values_equal, hash_number, hash_object, hash_value,
}
use ruwren.Values.Laws.{values_same-eq, either, string_parts}

-- A number is an end of a range on the heap.
pub record IsEnd (object : ℕ → Object) (end : ℕ) : Type 0 where
  pub address : ℕ
  pub from : ℕ
  pub to : ℕ
  pub is_inclusive : Bool
  pub range : (object address).body ≡ range_obj from to is_inclusive
  pub one : (end ≡ from) ⊎ (end ≡ to)

not_true : false ≡ true → ⊥
not_true e = cc

-- What a value is to equality, with its shape and its hash.
data View (to_double : ℕ → ℕ) (object : ℕ → Object) (v : Value) : Type 0 where
  plain : shape_of object v ≡ identity → View to_double object v
  is_range :
      (f t : ℕ) (i : Bool)
      → shape_of object v ≡ range_shape f t i
      → hash_value to_double object v ≡ some (bit_xor (hash_number f) (hash_number t))
      → IsEnd object f
      → IsEnd object t
      → View to_double object v
  is_string :
      (h : ℕ) (s : List ℕ)
      → shape_of object v ≡ string_shape h s
      → hash_value to_double object v ≡ some h
      → View to_double object v

module _ (to_double : ℕ → ℕ) (object : ℕ → Object) where
  range-IsEnd :
      (a f t m : ℕ) (i : Bool)
      → (object a).body ≡ range_obj f t i
      → (m ≡ f) ⊎ (m ≡ t)
      → IsEnd object m
  range-IsEnd a f t m i e one = record {
    address = a;
    from = f;
    to = t;
    is_inclusive = i;
    range = e;
    one = one;
  }

  view_object : (a : ℕ) (b : Body) → (object a).body ≡ b → View to_double object (obj_val a)
  unfolding shape_of shape_of_body hash_value hash_object
  view_object a (range_obj f t i) e =
      is_range f t i (rw e refl) (rw e refl) (range-IsEnd a f t f i e (inl refl))
        (range-IsEnd a f t t i e (inr refl))
  view_object a (string_obj s h) e = is_string h s (rw e refl) (rw e refl)
  view_object a (class_obj _) e = plain (rw e refl)
  view_object a (closure_obj _) e = plain (rw e refl)
  view_object a (fiber_obj _) e = plain (rw e refl)
  view_object a (fn_obj _) e = plain (rw e refl)
  view_object a foreign_obj e = plain (rw e refl)
  view_object a (instance_obj _) e = plain (rw e refl)
  view_object a (list_obj _ _) e = plain (rw e refl)
  view_object a (map_obj _) e = plain (rw e refl)
  view_object a (module_obj _) e = plain (rw e refl)
  view_object a (upvalue_obj _) e = plain (rw e refl)

  view : (v : Value) → View to_double object v
  unfolding shape_of
  view null_val = plain refl
  view false_val = plain refl
  view true_val = plain refl
  view undefined_val = plain refl
  view (num_val _) = plain refl
  view (obj_val a) = view_object a (object a).body refl

module _ (num_equal : ℕ → ℕ → Bool) (to_double : ℕ → ℕ) (object : ℕ → Object)
    (ends : (m n : ℕ) → IsEnd object m → IsEnd object n → num_equal m n ≡ true → m ≡ n) where
  hash_alike :
      (a b : Value)
      → View to_double object a
      → View to_double object b
      → shapes_equal num_equal (shape_of object a) (shape_of object b) ≡ true
      → hash_value to_double object a ≡ hash_value to_double object b
  unfolding shapes_equal
  hash_alike a b (plain p) w e = absurd (not_true (rw p at e))
  hash_alike a b (is_range f t i p q f_end t_end) (is_range f' t' i' p' q' f_end' t_end') e =
      let parts : (num_equal f f' && num_equal t t' && same_bool i i') ≡ true = rw (p, p') at e in
      let from = ends f f' f_end f_end' (ground (arith, parts)) in
      let to = ends t t' t_end t_end' (ground (arith, parts)) in q ∙ rw (from, to) (sym q')
  hash_alike a b (is_string h s p q) (is_string h' s' p' q') e =
      let (same, _) = string_parts h h' s s' (rw (p, p') at e) in q ∙ rw same (sym q')
  hash_alike a b (is_range f t i p q _ _) (plain p') e = absurd (not_true (rw (p, p') at e))
  hash_alike a b (is_range f t i p q _ _) (is_string h s p' q') e =
      absurd (not_true (rw (p, p') at e))
  hash_alike a b (is_string h s p q) (plain p') e = absurd (not_true (rw (p, p') at e))
  hash_alike a b (is_string h s p q) (is_range f t i p' q' _ _) e =
      absurd (not_true (rw (p, p') at e))

  -- On a heap where two ends of ranges that are equal as numbers have the same bits, equal values
  -- have the same hash.
  pub values_equal-hash_value :
      (a b : Value)
      → values_equal num_equal object a b ≡ true
      → hash_value to_double object a ≡ hash_value to_double object b
  unfolding values_equal
  values_equal-hash_value a b h =
      let x = shape_of object a in
      let y = shape_of object b in
      elim (either (values_same a b) (shapes_equal num_equal x y) h) [
        | inl same ↦ ap (hash_value to_double object) (values_same-eq a b same)
        | inr e ↦ hash_alike a b (view to_double object a) (view to_double object b) e
      ]
