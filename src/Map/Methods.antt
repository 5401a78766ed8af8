-- ===== src/Map/Methods.antt =====
-- The operations on a whole map, against the function from keys to values that it stands for.
use ruwren.Prelude.{
  ℕ, ◌+◌, ◌*◌, ◌%◌, ◌^◌, ◌≤◌, ◌<◌, ◌≡◌, refl, ap, sym, ◌∙◌, Option, none, some, List, [], ◌∷◌,
  arith, ltb, if◌then◌else◌, length, Bool-cases, inl, inr,
}
use ruwren.Map.{
  Keys, MapEntry, Found, found, absent, find_entry, resize_map, ObjMap, new_map, map_get, make_room,
  add_entry, map_set, load_limit,
}
use ruwren.Map.Slots.{one_if, key_count, view, view-at, view-absent, used_count}
use ruwren.Map.Insert.{IsPlaced, Verdict, find_entry-Verdict}
use ruwren.Map.Write.{insert_entry-Inserts, is_none}
use ruwren.Map.Resize.{Holds, resize_map-Holds}

module _ {K V : Type 0} (keys : Keys K) where
  open keys use {values_equal}

  abbrev pub update : (K → Option V) → K → Option V → K → Option V
  update f q v x = if values_equal q x then v else f x

  -- The map stands for `f`: the array is in order, the count is right, and at most three quarters
  -- of the slots are used.
  pub record Models (f : K → Option V) (m : ObjMap K V) : Type 0 where
    pub holds : Holds keys m.capacity m.count f m.entries
    pub load : m.count * 100 ≤ m.capacity * 75

  pub new_map-Models : Models (λ _. none) new_map
  unfolding new_map used_count key_count view
  new_map-Models = record {
    holds = record {
      width = refl;
      inv = record { unique = λ q. omega arith; placed = λ q i h. cc };
      size = refl;
      reads = λ x. refl;
    };
    load = omega arith;
  }

  -- A search in any array that is in order, the one with no slots included.
  search_array :
      (es : List (MapEntry K V)) (q : K)
      → IsPlaced keys es
      → (r : Found) × (find_entry keys es (length es) q ≡ some r) × Verdict keys es q r
  unfolding find_entry key_count
  search_array [] q inv = (absent none, refl, (refl, λ i lt. absurd (omega arith)))
  search_array (e ∷ es) q inv = find_entry-Verdict keys (e ∷ es) q (omega arith) inv

  pub search :
      {f : K → Option V} {m : ObjMap K V} (q : K)
      → Models f m
      → (r : Found) × (find_entry keys m.entries m.capacity q ≡ some r) × Verdict keys m.entries q r
  search {f} {m} q t =
      let (r, run, says) = search_array m.entries q t.holds.inv in
      (r, rw t.holds.width at run, says)

  -- A search in vain means that no slot holds the key.
  pub gone-count :
      (q : K) (es : List (MapEntry K V)) (o : Option ℕ)
      → Verdict keys es q (absent o)
      → key_count keys q es ≡ 0
  gone-count q es none says = says.0
  gone-count q es (some i) says = says.0

  -- For a map that stands for the function `f`, `wrenMapGet` does not fault, and returns the value
  -- of `f` at the key, or that there is none.
  pub map_get-Models :
      {f : K → Option V} {m : ObjMap K V} (q : K) → Models f m → map_get keys m q ≡ some (f q)
  unfolding map_get
  map_get-Models {f} {m} q t = let (r, run, says) = search q t in go r run says
    where
      go :
          (r : Found)
          → find_entry keys m.entries m.capacity q ≡ some r
          → Verdict keys m.entries q r
          → map_get keys m q ≡ some (f q)
      go (found i) run (lt, hit) =
          rw (run, map_get)
            (ap some
              (sym (view-at keys q m.entries i (t.holds.inv.unique q) hit) ∙ t.holds.reads q))
      go (absent o) run says =
          rw (run, map_get)
            (ap some (
              sym (view-absent keys q m.entries (gone-count q m.entries o says)) ∙ t.holds.reads q))

  module _ {f : K → Option V} {m : ObjMap K V} (t : Models f m) where
    pub resize-Models :
        (n : ℕ)
        → m.count < n
        → m.count * 100 ≤ n * 75
        → (m' : ObjMap K V) × (resize_map keys m n ≡ some m')
          × (m'.count ≡ m.count)
          × (m'.capacity ≡ n)
          × Models f m'
    resize-Models n lt fits =
        let (m', run, cap, cnt, h) =
          resize_map-Holds keys m n t.holds.inv (omega (arith, t.holds.size)) in
        (
          m',
          run,
          cnt,
          cap,
          record {
            holds = record {
              width = h.width ∙ sym cap;
              inv = h.inv;
              size = h.size ∙ t.holds.size ∙ sym cnt;
              reads = λ x. h.reads x ∙ t.holds.reads x;
            };
            load = omega arith;
          },
        )

    -- `wrenMapSet` first makes room: the map is the same, and one more entry keeps to the load.
    make_room-Models :
        m.capacity * 75 < 2 ^ 32
        → (m' : ObjMap K V) × (make_room keys m ≡ some m')
          × (m'.count ≡ m.count)
          × Models f m'
          × ((m.count + 1) * 100 ≤ m'.capacity * 75)
          × (m'.capacity ≤ m.capacity * 2 + 16)
    unfolding make_room
    make_room-Models small = elim (Bool-cases (ltb (load_limit m.capacity) (m.count + 1))) [
      | inr roomy ↦ (m, rw roomy, refl, t, ground arith, omega arith)
      | inl tight ↦
          let doubled = m.capacity * 2 % 2 ^ 32 in
          let n = if ltb doubled 16 then 16 else doubled in
          let (m', run, cnt, cap, t') = resize-Models n (ground arith) (ground arith) in
          (m', rw tight run, cnt, t', ground arith, ground arith)
    ]

    add_entry-Models :
        (q : K) (v : V)
        → (m.count + 1) * 100 ≤ m.capacity * 75
        → (m' : ObjMap K V) × (add_entry keys m q v ≡ some m')
          × Models (update f q (some v)) m'
          × (m'.count ≡ m.count + one_if (is_none (f q)))
          × (m'.capacity ≡ m.capacity)
    unfolding add_entry
    add_entry-Models q v room =
        let h = t.holds in
        let ((es, b), run, w) =
          insert_entry-Inserts keys m.entries q v h.inv (omega (arith, h.size, h.width)) in
        let put = rw h.width at run in
        let new : b ≡ is_none (f q) = rw (h.reads q) at w.is_new in
        let count : ℕ = if b then m.count + 1 else m.count in
        let more : count ≡ m.count + one_if b = ground arith in
        (
          record m { entries = es; count = count },
          rw (put, add_entry),
          record {
            holds = record {
              width = w.width ∙ h.width;
              inv = w.inv;
              size = omega (arith, w.size, h.size);
              reads = λ x. w.reads x ∙ rw (h.reads x);
            };
            load = ground arith;
          },
          rw (← new) more,
          refl,
        )

  -- For a map that stands for the function `f` from keys to values, and whose capacity times 75 is
  -- below 2 ^ 32, `wrenMapSet` does not fault: the new map stands for `f` updated at the key and
  -- for nothing else, its count grows by one exactly if the key is new, and its capacity is at
  -- most twice the old one plus 16.
  pub map_set-Models :
      {f : K → Option V} {m : ObjMap K V} (q : K) (v : V)
      → Models f m
      → m.capacity * 75 < 2 ^ 32
      → (m' : ObjMap K V) × (map_set keys m q v ≡ some m')
        × Models (update f q (some v)) m'
        × (m'.count ≡ m.count + one_if (is_none (f q)))
        × (m'.capacity ≤ m.capacity * 2 + 16)
  unfolding map_set
  map_set-Models q v t small =
      let (room, run, cnt, t', fits, wide) = make_room-Models t small in
      let (m', run', u, cnt', cap) = add_entry-Models t' q v (rw cnt fits) in
      (m', rw (run, map_set) run', u, omega (arith, cnt, cnt'), omega (arith, cap))
