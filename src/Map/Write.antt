-- ===== src/Map/Write.antt =====
-- Writes to one slot of an array that keep the invariant: a new entry, a new value, a tombstone.
use ruwren.Prelude.{
  ℕ, ◌+◌, ◌≤◌, ◌<◌, ◌≡◌, refl, sym, subst, ◌∙◌, Bool, true, false, Option, none, some, List, arith,
  ◌==◌, if◌then◌else◌, length, length-set, get_or, get_or-set, set, Bool-cases, inl, inr,
}
use ruwren.Map.{
  Keys, MapEntry, empty, tombstone, used, value_of, with_value, Found, found, absent, find_entry,
  insert_entry,
}
use ruwren.Map.Slots.{
  hits, is_used, is_empty, one_if, key_count, key_count-set, equal_congr, key_count_congr, view,
  view-at, view-set, view-absent, used_count, used_count-set, free_slot,
}
use ruwren.Map.Insert.{IsPlaced, Leads, Verdict, find_entry-Verdict}

abbrev pub is_none {ℓ} : {A : Type ℓ} → Option A → Bool
is_none none = true
is_none (some _) = false

module _ {K V : Type 0} (keys : Keys K) where
  open keys use {values_equal, hash_value}

  module _ (es : List (MapEntry K V)) (i : ℕ) (e : MapEntry K V) (lt : i < length es)
      (solid : is_empty e ≡ false) where
    solid-set :
        (j : ℕ)
        → is_empty (get_or es j empty) ≡ false
        → is_empty (get_or (set es i e) j empty) ≡ false
    solid-set j h = rw (get_or-set es i j e empty lt) (ground arith)

    Leads-set : (q : K) (k : ℕ) → Leads keys es q k → Leads keys (set es i e) q k
    Leads-set q k (d, below, at, full) =
        rw (length-set es i e) (d, below, at, λ j p. solid-set _ (full j p))

    -- A write that keeps the keys apart, of an entry that its own keys lead to.
    pub set-IsPlaced :
        IsPlaced keys es
        → ((q : K) → key_count keys q (set es i e) ≤ 1)
        → ((q : K) → hits keys q e ≡ true → Leads keys es q i)
        → IsPlaced keys (set es i e)
    set-IsPlaced inv one leads = record { unique = one; placed = placed }
      where
        placed :
            (q : K) (k : ℕ)
            → hits keys q (get_or (set es i e) k empty) ≡ true
            → Leads keys (set es i e) q k
        placed q k hit = elim (Bool-cases (k == i)) [
          | inl same ↦
              let at : i ≡ k = ground arith in
              Leads-set q k (
                subst (λ j. Leads keys es q j) at
                  (leads q (rw (get_or-set es i k e empty lt, same) at hit)))
          | inr other ↦
              Leads-set q k (inv.placed q k (rw (get_or-set es i k e empty lt, other) at hit))
        ]

  -- An entry that holds `q`: it is used, and holds whatever equals `q`.
  pub hits_facts :
      (q : K) (e : MapEntry K V)
      → hits keys q e ≡ true
      → (is_used e ≡ true) × (is_empty e ≡ false) × ((x : K) → hits keys x e ≡ values_equal q x)
  hits_facts q empty h = cc
  hits_facts q tombstone h = cc
  hits_facts q (used k v) h = (refl, refl, λ x. equal_congr keys k q x h)

  pub used_value : (e : MapEntry K V) → is_used e ≡ true → is_none (value_of e) ≡ false
  used_value empty h = cc
  used_value tombstone h = cc
  used_value (used k v) h = refl

  with_value_facts :
      (e : MapEntry K V) (v : V)
      → is_used e ≡ true
      → (is_used (with_value e v) ≡ true)
        × (is_empty (with_value e v) ≡ false)
        × (value_of (with_value e v) ≡ some v)
        × ((x : K) → hits keys x (with_value e v) ≡ hits keys x e)
  with_value_facts empty v h = cc
  with_value_facts tombstone v h = cc
  with_value_facts (used k w) v h = (refl, refl, refl, λ x. refl)

  pub unused_misses : (x : K) (e : MapEntry K V) → is_used e ≡ false → hits keys x e ≡ false
  unused_misses x empty h = refl
  unused_misses x tombstone h = refl
  unused_misses x (used k v) h = cc

  Leads-congr :
      (a b : K) (es : List (MapEntry K V)) (i : ℕ)
      → values_equal a b ≡ true
      → Leads keys es a i
      → Leads keys es b i
  Leads-congr a b es i h leads = rw (sym (keys.equal-hash a b h)) leads

  -- The new array stands for the old map with `v` at `q`.
  pub record Inserts (es : List (MapEntry K V)) (q : K) (v : V) (r : List (MapEntry K V) × Bool)
      : Type 0 where
    pub width : length r.0 ≡ length es
    pub inv : IsPlaced keys r.0
    pub reads : (x : K) → view keys r.0 x ≡ (if values_equal q x then some v else view keys es x)
    pub size : used_count r.0 ≡ used_count es + one_if r.1
    pub is_new : r.1 ≡ is_none (view keys es q)
    pub few : (x : K) → key_count keys x r.0 ≤ key_count keys x es + one_if (values_equal q x)

  module _ (es : List (MapEntry K V)) (q : K) (v : V) (inv : IsPlaced keys es) (i : ℕ) where
    -- The key is there: its value is replaced.
    replace-Inserts :
        i < length es
        → hits keys q (get_or es i empty) ≡ true
        → Inserts es q v (set es i (with_value (get_or es i empty) v), false)
    replace-Inserts lt hit =
        let old = get_or es i empty in
        let e = with_value old v in
        let (u, _, same) = hits_facts q old hit in
        let (u', solid, val, keep) = with_value_facts old v u in
        let one : (x : K) → key_count keys x (set es i e) ≤ 1 =
          λ x. ground (arith, key_count-set keys x es i e lt, keep x, inv.unique x) in
        record {
          width = length-set es i e;
          inv = set-IsPlaced es i e lt solid inv one (λ x h. inv.placed x i (sym (keep x) ∙ h));
          reads = λ x.
              view-set keys x es i e lt (inv.unique x) (one x) ∙ ground (arith, keep x, same x);
          size = ground (arith, used_count-set es i e lt);
          is_new = rw (view-at keys q es i (inv.unique q) hit, used_value old u);
          few = λ x. ground (arith, key_count-set keys x es i e lt, keep x);
        }

    -- The key is not there: a free slot on its way takes it.
    fill-Inserts :
        i < length es
        → is_used (get_or es i empty) ≡ false
        → key_count keys q es ≡ 0
        → Leads keys es q i
        → Inserts es q v (set es i (used q v), true)
    fill-Inserts lt free gone leads =
        let e = used q v in
        let old = get_or es i empty in
        let one : (x : K) → key_count keys x (set es i e) ≤ 1 = λ x.
          ground
            (arith, key_count-set keys x es i e lt, inv.unique x, key_count_congr keys q x es) in
        record {
          width = length-set es i e;
          inv = set-IsPlaced es i e lt refl inv one (λ x h. Leads-congr q x es i h leads);
          reads = λ x.
              view-set keys x es i e lt (inv.unique x) (one x)
              ∙ ground (arith, unused_misses x old free);
          size = ground (arith, used_count-set es i e lt);
          is_new = rw (view-absent keys q es gone);
          few = λ x. ground (arith, key_count-set keys x es i e lt);
        }

  -- `insertEntry`, in an array with a free slot: it does not fault, keeps the invariant, and adds
  -- the key or replaces its value.
  pub insert_entry-Inserts :
      (es : List (MapEntry K V)) (q : K) (v : V)
      → IsPlaced keys es
      → used_count es < length es
      → (r : List (MapEntry K V) × Bool) × (insert_entry keys es (length es) q v ≡ some r)
        × Inserts es q v r
  unfolding insert_entry
  insert_entry-Inserts es q v inv roomy =
      let (r, run, says) = find_entry-Verdict keys es q (omega arith) inv in go r run says
    where
      go :
          (r : Found)
          → find_entry keys es (length es) q ≡ some r
          → Verdict keys es q r
          → (r : List (MapEntry K V) × Bool) × (insert_entry keys es (length es) q v ≡ some r)
            × Inserts es q v r
      go (found i) run (lt, hit) = (
        (set es i (with_value (get_or es i empty) v), false),
        rw (run, insert_entry),
        replace-Inserts es q v inv i lt hit,
      )
      go (absent (some i)) run (gone, lt, free, leads) = (
        (set es i (used q v), true),
        rw (run, insert_entry),
        fill-Inserts es q v inv i lt free gone leads,
      )
      go (absent none) run (gone, all) = let (i, lt, free) = free_slot es roomy in cc (all i lt)
