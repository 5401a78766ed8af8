-- ===== src/Map/Remove.antt =====
-- `wrenMapRemoveKey`, against the function from keys to values that the map stands for.
use ruwren.Prelude.{
  ℕ, ◌+◌, ◌-◌, ◌*◌, ◌/◌, ◌^◌, ◌≤◌, ◌<◌, ◌≡◌, refl, sym, ◌∙◌, true, false, not, ◌&&◌, Option, none,
  some, List, [], ◌∷◌, arith, ltb, ◌==◌, if◌then◌else◌, length, length-set, get_or, set, Bool-cases,
  inl, inr,
}
use ruwren.Map.{
  Keys, MapEntry, empty, tombstone, value_of, Found, found, absent, find_entry, ObjMap, map_clear,
  shed_room, map_remove_key, load_limit,
}
use ruwren.Map.Slots.{
  hits, one_if, key_count, key_count-set, key_count_congr, view, view-at, view-set, view-absent,
  used_count, used_count-set,
}
use ruwren.Map.Insert.{Verdict}
use ruwren.Map.Write.{is_none, set-IsPlaced, hits_facts, used_value}
use ruwren.Map.Resize.{Holds}
use ruwren.Map.Methods.{Models, update, resize-Models, search, gone-count}

module _ {K V : Type 0} (keys : Keys K) where
  open keys use {values_equal}

  key_count-le-used : (q : K) (es : List (MapEntry K V)) → key_count keys q es ≤ used_count es
  unfolding key_count used_count
  key_count-le-used q [] = omega arith
  key_count-le-used q (e ∷ es) = ground (arith, key_count-le-used q es)

  -- The array with a tombstone in the slot of `q`, and the count one less.
  clear-Holds :
      {f : K → Option V} {m : ObjMap K V} (q : K) (i : ℕ)
      → Models keys f m
      → i < length m.entries
      → hits keys q (get_or m.entries i empty) ≡ true
      → Holds keys m.capacity (m.count - 1) (update keys f q none) (set m.entries i tombstone)
        × (0 < m.count)
  clear-Holds {f} {m} q i t lt hit =
      let es = m.entries in
      let gap : MapEntry K V = tombstone in
      let old = get_or es i empty in
      let h = t.holds in
      let (u, _, same) = hits_facts keys q old hit in
      let one : (x : K) → key_count keys x (set es i gap) ≤ 1 =
        λ x. ground (arith, key_count-set keys x es i gap lt, h.inv.unique x) in
      let size : used_count (set es i gap) + 1 ≡ used_count es =
        ground (arith, used_count-set es i gap lt) in
      (
        record {
          width = length-set es i gap ∙ h.width;
          inv = set-IsPlaced keys es i gap lt refl h.inv one (λ x n. cc);
          size = omega (arith, h.size);
          reads = λ x.
              view-set keys x es i gap lt (h.inv.unique x) (one x)
              ∙ ground (arith, same x, h.reads x);
        },
        omega (arith, h.size),
      )

  map_clear-Models :
      {f : K → Option V} {m : ObjMap K V}
      → Holds keys m.capacity m.count f m.entries
      → m.count ≡ 0
      → Models keys f (map_clear m)
  unfolding map_clear used_count key_count view
  map_clear-Models {f} {m} h z = record {
    holds = record {
      width = refl;
      inv = record { unique = λ q. omega arith; placed = λ q i n. cc };
      size = refl;
      reads = λ x.
          sym (view-absent keys x m.entries (omega (arith, key_count-le-used x m.entries, h.size)))
          ∙ h.reads x;
    };
    load = omega arith;
  }

  shed_room-Models :
      {f : K → Option V} {m : ObjMap K V}
      → Models keys f m
      → m.capacity * 75 < 2 ^ 32
      → (m' : ObjMap K V) × (shed_room keys m ≡ some m') × Models keys f m' × (m'.count ≡ m.count)
  unfolding shed_room map_clear
  shed_room-Models {f} {m} t small = elim (Bool-cases (m.count == 0)) [
    | inl z ↦ (map_clear m, rw z, map_clear-Models t.holds (ground arith), ground arith)
    | inr nz ↦
        let half = m.capacity / 2 in
        elim (Bool-cases (ltb 16 m.capacity && ltb m.count (load_limit half))) [
          | inr keep ↦ (m, rw (nz, keep), t, refl)
          | inl lean ↦
              let n = if ltb half 16 then 16 else half in
              let (m', run, cnt, cap, t') = resize-Models keys t n (ground arith) (ground arith) in
              (m', rw (nz, lean) run, t', cnt)
        ]
  ]

  -- For a map that stands for the function `f`, and whose capacity times 75 is below 2 ^ 32,
  -- `wrenMapRemoveKey` does not fault: it returns the value of the key if there is one, the new
  -- map stands for `f` without the key, and the count falls by one exactly if the key was there.
  pub map_remove_key-Models :
      {f : K → Option V} {m : ObjMap K V} (q : K)
      → Models keys f m
      → m.capacity * 75 < 2 ^ 32
      → (m' : ObjMap K V) × (map_remove_key keys m q ≡ some (f q, m'))
        × Models keys (update keys f q none) m'
        × (m'.count + one_if (not (is_none (f q))) ≡ m.count)
  unfolding map_remove_key
  map_remove_key-Models {f} {m} q t small = let (r, run, says) = search keys q t in go r run says
    where
      go :
          (r : Found)
          → find_entry keys m.entries m.capacity q ≡ some r
          → Verdict keys m.entries q r
          → (m' : ObjMap K V) × (map_remove_key keys m q ≡ some (f q, m'))
            × Models keys (update keys f q none) m'
            × (m'.count + one_if (not (is_none (f q))) ≡ m.count)
      go (found i) run (lt, hit) =
          let (h, pos) = clear-Holds q i t lt hit in
          let gap : MapEntry K V = tombstone in
          let cleared = record m { entries = set m.entries i gap; count = m.count - 1 } in
          let (m', shed, t', cnt) =
            shed_room-Models {m = cleared} (record { holds = h; load = omega arith }) small in
          let val : value_of (get_or m.entries i empty) ≡ f q =
            sym (view-at keys q m.entries i (t.holds.inv.unique q) hit) ∙ t.holds.reads q in
          let there : is_none (f q) ≡ false =
            rw (← val) (used_value keys (get_or m.entries i empty) (hits_facts keys q _ hit).0) in
          (m', rw (run, map_remove_key, shed, map_remove_key, val), t', rw there (omega arith))
      go (absent o) run says =
          let zero_q = gone-count keys q m.entries o says in
          let gone : f q ≡ none = sym (t.holds.reads q) ∙ view-absent keys q m.entries zero_q in
          (
            m,
            rw (run, map_remove_key, gone),
            record {
              holds = record {
                width = t.holds.width;
                inv = t.holds.inv;
                size = t.holds.size;
                reads = λ x. ground (
                  arith,
                  t.holds.reads x,
                  key_count_congr keys q x m.entries,
                  view-absent keys x m.entries,
                );
              };
              load = t.load;
            },
            rw gone (omega arith),
          )
