-- ===== src/Map/Slots.antt =====
-- What an array of entries means: which keys its slots hold, how often, and with what value.
use ruwren.Prelude.{
  ℕ, zero, suc, ◌+◌, ◌≤◌, ◌<◌, ◌≡◌, refl, sym, ◌∙◌, Bool, true, false, Option, none, List, [], ◌∷◌,
  arith, if◌then◌else◌, length, get_or, set, replicate,
}
use ruwren.Map.{Keys, MapEntry, empty, tombstone, used, value_of}

abbrev pub one_if : Bool → ℕ
one_if true = 1
one_if false = 0

module _ {K V : Type 0} where
  abbrev pub is_used : MapEntry K V → Bool
  is_used empty = false
  is_used tombstone = false
  is_used (used _ _) = true

  abbrev pub is_empty : MapEntry K V → Bool
  is_empty empty = true
  is_empty tombstone = false
  is_empty (used _ _) = false

  -- How many slots are used.
  unfoldable pub used_count : List (MapEntry K V) → ℕ
  used_count [] = 0
  used_count (e ∷ es) = one_if (is_used e) + used_count es

  pub used_count-set :
      (es : List (MapEntry K V)) (i : ℕ) (e : MapEntry K V)
      → i < length es
      → used_count (set es i e) + one_if (is_used (get_or es i empty))
        ≡ used_count es + one_if (is_used e)
  unfolding used_count
  used_count-set [] i e h = absurd (omega arith)
  used_count-set (x ∷ es) zero e h = omega arith
  used_count-set (x ∷ es) (suc i) e h = omega (arith, used_count-set es i e)

  pub used_count-le-length : (es : List (MapEntry K V)) → used_count es ≤ length es
  unfolding used_count
  used_count-le-length [] = omega arith
  used_count-le-length (e ∷ es) = ground (arith, used_count-le-length es)

  -- An array with fewer used slots than slots has a free one.
  pub free_slot :
      (es : List (MapEntry K V))
      → used_count es < length es
      → (i : ℕ) × (i < length es) × (is_used (get_or es i empty) ≡ false)
  unfolding used_count
  free_slot [] h = absurd (omega arith)
  free_slot (empty ∷ es) h = (0, omega arith, refl)
  free_slot (tombstone ∷ es) h = (0, omega arith, refl)
  free_slot (used k v ∷ es) h =
      let (i, lt, free) = free_slot es (omega arith) in (suc i, omega arith, free)

module _ {K : Type 0} (keys : Keys K) where
  pub equal_congr :
      (a b x : K) → keys.values_equal a b ≡ true → keys.values_equal a x ≡ keys.values_equal b x
  equal_congr a b x h =
      ground (arith, keys.equal_symm a b, keys.equal_trans a b x, keys.equal_trans b a x)

module _ {K V : Type 0} (keys : Keys K) where
  open keys use {values_equal}

  -- The slot holds the key `q`.
  abbrev pub hits : K → MapEntry K V → Bool
  hits q empty = false
  hits q tombstone = false
  hits q (used k _) = values_equal k q

  unfoldable pub key_count : K → List (MapEntry K V) → ℕ
  key_count q [] = 0
  key_count q (e ∷ es) = one_if (hits q e) + key_count q es

  -- The value at the first slot that holds `q`: the map as a function of its keys.
  unfoldable pub view : List (MapEntry K V) → K → Option V
  view [] q = none
  view (e ∷ es) q = if hits q e then value_of e else view es q

  pub key_count-set :
      (q : K) (es : List (MapEntry K V)) (i : ℕ) (e : MapEntry K V)
      → i < length es
      → key_count q (set es i e) + one_if (hits q (get_or es i empty))
        ≡ key_count q es + one_if (hits q e)
  unfolding key_count
  key_count-set q [] i e h = absurd (omega arith)
  key_count-set q (x ∷ es) zero e h = omega arith
  key_count-set q (x ∷ es) (suc i) e h = omega (arith, key_count-set q es i e)

  pub hits_congr : (a b : K) (e : MapEntry K V) → values_equal a b ≡ true → hits b e ≡ hits a e
  hits_congr a b empty h = refl
  hits_congr a b tombstone h = refl
  hits_congr a b (used k v) h =
      keys.equal_symm k b ∙ sym (equal_congr keys a b k h) ∙ keys.equal_symm a k

  pub key_count_congr :
      (a b : K) (es : List (MapEntry K V))
      → values_equal a b ≡ true
      → key_count b es ≡ key_count a es
  unfolding key_count
  key_count_congr a b [] h = refl
  key_count_congr a b (e ∷ es) h = rw (hits_congr a b e h, key_count_congr a b es h)

  pub view-absent : (q : K) (es : List (MapEntry K V)) → key_count q es ≡ 0 → view es q ≡ none
  unfolding key_count view
  view-absent q [] h = refl
  view-absent q (e ∷ es) h = ground (arith, view-absent q es)

  pub key_count-nowhere :
      (q : K) (es : List (MapEntry K V))
      → ((i : ℕ) → i < length es → hits q (get_or es i empty) ≡ false)
      → key_count q es ≡ 0
  unfolding key_count
  key_count-nowhere q [] h = refl
  key_count-nowhere q (e ∷ es) h =
      ground (arith, h 0 (omega arith), key_count-nowhere q es (λ i lt. h (suc i) (omega arith)))

  pub key_count-pos :
      (q : K) (es : List (MapEntry K V)) (i : ℕ)
      → hits q (get_or es i empty) ≡ true
      → 0 < key_count q es
  unfolding key_count
  key_count-pos q [] i h = cc
  key_count-pos q (e ∷ es) zero h = ground arith
  key_count-pos q (e ∷ es) (suc i) h = omega (arith, key_count-pos q es i h)

  pub view-at :
      (q : K) (es : List (MapEntry K V)) (i : ℕ)
      → key_count q es ≤ 1
      → hits q (get_or es i empty) ≡ true
      → view es q ≡ value_of (get_or es i empty)
  unfolding key_count view
  view-at q [] i one h = cc
  view-at q (e ∷ es) zero one h = ground arith
  view-at q (e ∷ es) (suc i) one h = ground (arith, view-at q es i, key_count-pos q es i)

  -- A write to one slot, as long as no key stands twice before it or after it.
  pub view-set :
      (q : K) (es : List (MapEntry K V)) (i : ℕ) (e : MapEntry K V)
      → i < length es
      → key_count q es ≤ 1
      → key_count q (set es i e) ≤ 1
      → view (set es i e) q
        ≡ (if hits q e then value_of e else if hits q (get_or es i empty) then none else view es q)
  unfolding key_count view
  view-set q [] i e h one one' = absurd (omega arith)
  view-set q (x ∷ es) zero e h one one' = ground (arith, view-absent q es)
  view-set q (x ∷ es) (suc i) e h one one' =
      ground (arith, view-set q es i e, key_count-set q es i e, key_count-pos q es i)

pub used_count-replicate :
    (K V : Type 0) (n : ℕ) → used_count {K = K} {V = V} (replicate n empty) ≡ 0
unfolding used_count
used_count-replicate K V zero = refl
used_count-replicate K V (suc n) = omega (arith, used_count-replicate K V n)

module _ {K : Type 0} (keys : Keys K) where
  pub key_count-replicate :
      (V : Type 0) (q : K) (n : ℕ) → key_count {V = V} keys q (replicate n empty) ≡ 0
  unfolding key_count
  key_count-replicate V q zero = refl
  key_count-replicate V q (suc n) = omega (arith, key_count-replicate V q n)
