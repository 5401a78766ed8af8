-- ===== src/Values/Laws.antt =====
-- ruwren-sys/src/wren_value.c: `wrenValuesEqual` and `hashValue` are fit for the keys of a map.
use ruwren.Prelude.{
  ℕ, ◌≡◌, refl, sym, ap, ◌∙◌, Bool, true, false, ◌&&◌, ◌||◌, List, ◌==◌, if◌then◌else◌, arith, inl,
  inr, ◌⊎◌,
}
use ruwren.Prelude.Text.{bytes_equal, bytes_equal_refl, bytes_equal-eq}
use ruwren.Values.{Value, null_val, false_val, true_val, undefined_val, num_val, obj_val, Object}
use ruwren.Values.Equal.{
  bits_of, kind_of, values_same, Shape, range_shape, string_shape, identity, shape_of, shapes_equal,
  values_equal,
}

-- The value of a kind with these bits.
of_bits : ℕ → ℕ → Value
of_bits kind bits =
    if kind == 0
    then num_val bits
    else if kind == 1
    then null_val
    else if kind == 2
    then false_val
    else if kind == 3
    then true_val
    else if kind == 4
    then undefined_val
    else obj_val bits

of_bits-bits_of : (v : Value) → of_bits (kind_of v) (bits_of v) ≡ v
unfolding of_bits bits_of
of_bits-bits_of null_val = refl
of_bits-bits_of false_val = refl
of_bits-bits_of true_val = refl
of_bits-bits_of undefined_val = refl
of_bits-bits_of (num_val bits) = refl
of_bits-bits_of (obj_val a) = refl

pub values_same-eq : (a b : Value) → values_same a b ≡ true → a ≡ b
unfolding values_same
values_same-eq a b h =
    let kind : kind_of a ≡ kind_of b = ground (arith, h) in
    let bits : bits_of a ≡ bits_of b = ground (arith, h) in
    sym (of_bits-bits_of a)
    ∙ ap (λ (k : ℕ). of_bits k (bits_of a)) kind
    ∙ ap (of_bits (kind_of b)) bits
    ∙ of_bits-bits_of b

values_same_refl : (a : Value) → values_same a a ≡ true
unfolding values_same
values_same_refl a = ground arith

pub string_parts :
    (h h' : ℕ) (s s' : List ℕ) → (h == h' && bytes_equal s s') ≡ true → (h ≡ h') × (s ≡ s')
string_parts h h' s s' e =
    let bytes : bytes_equal s s' ≡ true = ground (arith, e) in
    (ground (arith, e), bytes_equal-eq s s' bytes)

string_refl : (h : ℕ) (s : List ℕ) → (h == h && bytes_equal s s) ≡ true
string_refl h s = ground (arith, bytes_equal_refl s)

pub either : (a b : Bool) → (a || b) ≡ true → (a ≡ true) ⊎ (b ≡ true)
either true b h = inl refl
either false b h = inr h

same_truth : (a b : Bool) → (a ≡ true → b ≡ true) → (b ≡ true → a ≡ true) → a ≡ b
same_truth true b h k = sym (h refl)
same_truth false true h k = k refl
same_truth false false h k = refl

module _ (num_equal : ℕ → ℕ → Bool) (object : ℕ → Object) where
  -- Equality as it must be for the keys of a map.
  pub record IsEquality : Type 0 where
    pub equal_refl : (a : Value) → values_equal num_equal object a a ≡ true
    pub equal_symm :
        (a b : Value) → values_equal num_equal object a b ≡ values_equal num_equal object b a
    pub equal_trans :
        (a b c : Value)
        → values_equal num_equal object a b ≡ true
        → values_equal num_equal object b c ≡ true
        → values_equal num_equal object a c ≡ true

module _ (num_equal : ℕ → ℕ → Bool) (object : ℕ → Object)
    (num_symm : (m n : ℕ) → num_equal m n ≡ num_equal n m)
    (num_trans : (m n k : ℕ)
      → num_equal m n ≡ true
      → num_equal n k ≡ true
      → num_equal m k ≡ true) where
  shapes_symm :
      (a b : Shape) → shapes_equal num_equal a b ≡ true → shapes_equal num_equal b a ≡ true
  unfolding shapes_equal
  shapes_symm (range_shape f t i) (range_shape f' t' i') h =
      ground (arith, h, num_symm f f', num_symm t t')
  shapes_symm (string_shape k s) (string_shape k' s') h =
      let (same_hash, same_bytes) = string_parts k k' s s' h in
      rw (same_hash, same_bytes) (string_refl k' s')
  shapes_symm (range_shape f t i) (string_shape k' s') h = cc
  shapes_symm (range_shape f t i) identity h = cc
  shapes_symm (string_shape k s) (range_shape f' t' i') h = cc
  shapes_symm (string_shape k s) identity h = cc
  shapes_symm identity b h = cc

  shapes_trans :
      (a b c : Shape)
      → shapes_equal num_equal a b ≡ true
      → shapes_equal num_equal b c ≡ true
      → shapes_equal num_equal a c ≡ true
  unfolding shapes_equal
  shapes_trans (range_shape f t i) (range_shape f' t' i') (range_shape f2 t2 i2) h k =
      ground (arith, num_trans f f' f2, num_trans t t' t2)
  shapes_trans (string_shape h1 s) (string_shape h2 s') (string_shape h3 s2) h k =
      let (hash_12, bytes_12) = string_parts h1 h2 s s' h in rw (hash_12, bytes_12) k
  shapes_trans (range_shape f t i) (range_shape f' t' i') (string_shape _ _) h k = cc
  shapes_trans (range_shape f t i) (range_shape f' t' i') identity h k = cc
  shapes_trans (range_shape f t i) (string_shape _ _) c h k = cc
  shapes_trans (range_shape f t i) identity c h k = cc
  shapes_trans (string_shape h1 s) (string_shape h2 s') (range_shape _ _ _) h k = cc
  shapes_trans (string_shape h1 s) (string_shape h2 s') identity h k = cc
  shapes_trans (string_shape h1 s) (range_shape _ _ _) c h k = cc
  shapes_trans (string_shape h1 s) identity c h k = cc
  shapes_trans identity b c h k = cc

  or_right : (a b : Bool) → b ≡ true → (a || b) ≡ true
  or_right true b h = refl
  or_right false b h = h

  symm_true :
      (a b : Value)
      → values_equal num_equal object a b ≡ true
      → values_equal num_equal object b a ≡ true
  unfolding values_equal
  symm_true a b h =
      let x = shape_of object a in
      let y = shape_of object b in
      elim (either (values_same a b) (shapes_equal num_equal x y) h) [
        | inl same ↦ rw (values_same-eq a b same) (rw (values_same_refl b) refl)
        | inr e ↦ or_right (values_same b a) (shapes_equal num_equal y x) (shapes_symm x y e)
      ]

  trans_true :
      (a b c : Value)
      → values_equal num_equal object a b ≡ true
      → values_equal num_equal object b c ≡ true
      → values_equal num_equal object a c ≡ true
  unfolding values_equal
  trans_true a b c h k =
      let x = shape_of object a in
      let y = shape_of object b in
      let z = shape_of object c in
      elim (either (values_same a b) (shapes_equal num_equal x y) h) [
        | inl same ↦ rw (values_same-eq a b same) k
        | inr e ↦ elim (either (values_same b c) (shapes_equal num_equal y z) k) [
          | inl same ↦ rw⁻¹ (values_same-eq b c same) h
          | inr f ↦ or_right (values_same a c) (shapes_equal num_equal x z) (shapes_trans x y z e f)
        ]
      ]

  -- If the comparison of numbers is symmetric and transitive, `wrenValuesEqual` is reflexive,
  -- symmetric and transitive.
  pub values_equal-IsEquality : IsEquality num_equal object
  unfolding values_equal
  values_equal-IsEquality = record {
    equal_refl = λ a. rw (values_same_refl a) refl;
    equal_symm = λ a b.
        same_truth (values_equal num_equal object a b) (values_equal num_equal object b a)
          (symm_true a b) (symm_true b a);
    equal_trans = trans_true;
  }
