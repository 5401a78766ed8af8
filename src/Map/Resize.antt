-- ===== src/Map/Resize.antt =====
-- `resizeMap`: the entries of the old array in a new one of another size.
use ruwren.Prelude.{
  ℕ, ◌+◌, ◌≤◌, ◌<◌, ◌≡◌, refl, ap, ◌∙◌, Bool, Option, none, some, List, [], ◌∷◌, arith, length,
  length-replicate, replicate, get_or-replicate,
}
use ruwren.Map.{Keys, MapEntry, empty, tombstone, used, insert_entry, rehash, resize_map, ObjMap}
use ruwren.Map.Slots.{
  hits, one_if, key_count, view, view-absent, used_count, key_count-replicate, used_count-replicate,
}
use ruwren.Map.Insert.{IsPlaced}
use ruwren.Map.Write.{insert_entry-Inserts}

abbrev pub or_else {ℓ} : {A : Type ℓ} → Option A → Option A → Option A
or_else none b = b
or_else (some a) b = some a

module _ {K V : Type 0} (keys : Keys K) where
  open keys use {values_equal}

  -- An array of `n` slots that holds `total` entries and stands for the map `f`.
  pub record Holds (n total : ℕ) (f : K → Option V) (es : List (MapEntry K V)) : Type 0 where
    pub width : length es ≡ n
    pub inv : IsPlaced keys es
    pub size : used_count es ≡ total
    pub reads : (x : K) → view keys es x ≡ f x

  pub replicate-Holds : (n : ℕ) → Holds n 0 (λ _. none) (replicate n empty)
  replicate-Holds n = record {
    width = length-replicate n empty;
    inv = record {
      unique = λ q. rw (key_count-replicate keys V q n) (omega arith);
      placed = λ q i h.
          let vacant : MapEntry K V = empty in
          cc (ap (λ e. hits keys q e) (get_or-replicate n i vacant));
    };
    size = used_count-replicate K V n;
    reads = λ x. view-absent keys x (replicate n empty) (key_count-replicate keys V x n);
  }

  abbrev Rehashed : List (MapEntry K V) → List (MapEntry K V) → Type 0
  Rehashed old es =
      (fresh : List (MapEntry K V)) × (rehash keys old (length es) es ≡ some fresh)
      × Holds (length es) (used_count old + used_count es)
          (λ x. or_else (view keys old x) (view keys es x)) fresh

  rehash-used :
      (k : K) (v : V) (old es : List (MapEntry K V)) (n : ℕ) {r : List (MapEntry K V) × Bool}
      → insert_entry keys es n k v ≡ some r
      → rehash keys (used k v ∷ old) n es ≡ rehash keys old n r.0
  unfolding rehash
  rehash-used k v old es n put = rw (put, rehash)

  -- The old entries, whose keys are not in the new array, are all added to it.
  rehash-Holds :
      (old es : List (MapEntry K V))
      → IsPlaced keys es
      → used_count old + used_count es < length es
      → ((q : K) → key_count keys q old + key_count keys q es ≤ 1)
      → Rehashed old es
  unfolding rehash used_count key_count view
  rehash-Holds [] es inv roomy apart =
      (es, refl, record { width = refl; inv = inv; size = omega arith; reads = λ x. refl })
  rehash-Holds (empty ∷ old) es inv roomy apart =
      let (fresh, run, t) = rehash-Holds old es inv (omega arith) (λ q. omega (arith, apart q)) in
      (fresh, run, record { width = t.width; inv = t.inv; size = omega arith; reads = t.reads })
  rehash-Holds (tombstone ∷ old) es inv roomy apart =
      let (fresh, run, t) = rehash-Holds old es inv (omega arith) (λ q. omega (arith, apart q)) in
      (fresh, run, record { width = t.width; inv = t.inv; size = omega arith; reads = t.reads })
  rehash-Holds (used k v ∷ old) es inv roomy apart =
      let ((es', b), put, w) = insert_entry-Inserts keys es k v inv (omega arith) in
      let gone : view keys es k ≡ none =
        view-absent keys k es (ground (arith, apart k, keys.equal_refl k)) in
      let one : one_if b ≡ 1 = ground (arith, w.is_new) in
      let (fresh, run, t) =
        rehash-Holds old es' w.inv (omega (arith, w.width, w.size))
          (λ q. ground (arith, apart q, w.few q)) in
      (
        fresh,
        rehash-used k v old es (length es) put ∙ rw w.width at run,
        record {
          width = t.width ∙ w.width;
          inv = t.inv;
          size = omega (arith, t.size, w.size);
          reads = λ x. t.reads x ∙ ground (arith, w.reads x, apart x, view-absent keys x old);
        },
      )

  -- `resizeMap` to an array with more slots than there are entries: the map stays the same.
  pub resize_map-Holds :
      (m : ObjMap K V) (n : ℕ)
      → IsPlaced keys m.entries
      → used_count m.entries < n
      → (m' : ObjMap K V) × (resize_map keys m n ≡ some m')
        × (m'.capacity ≡ n)
        × (m'.count ≡ m.count)
        × Holds n (used_count m.entries) (view keys m.entries) m'.entries
  unfolding resize_map
  resize_map-Holds m n inv roomy =
      let start = replicate-Holds n in
      let few = rw (← start.width) at roomy in
      let (fresh, run, t) =
        rehash-Holds m.entries (replicate n empty) start.inv
          (omega (arith, start.size, start.width))
          (λ q. rw (key_count-replicate keys V q n) (omega (arith, inv.unique q))) in
      (
        record m { entries = fresh; capacity = n },
        rw (rw start.width at run, resize_map),
        refl,
        refl,
        record {
          width = t.width ∙ start.width;
          inv = t.inv;
          size = omega (arith, t.size, start.size);
          reads = λ x. t.reads x ∙ or_nothing x (start.reads x);
        },
      )
    where
      or_nothing :
          (x : K) {b : Option V}
          → b ≡ none
          → or_else (view keys m.entries x) b ≡ view keys m.entries x
      or_nothing x e = ground arith
