-- ===== src/Map/Insert.antt =====
-- The invariant of an array of entries, what a search says under it, and writes that keep it.
use native.Mathlib.Decide.{dec_lt}
use ruwren.Prelude.{
  ℕ, ◌%◌, ◌≤◌, ◌<◌, ◌≡◌, subst, true, false, Option, none, some, List, arith, length, get_or,
  Bool-cases, inl, inr,
}
use ruwren.Map.{Keys, MapEntry, empty, tombstone, used, Found, found, absent, find_entry}
use ruwren.Map.Slots.{hits, is_used, is_empty, key_count, key_count-nowhere}
use ruwren.Map.Probe.{step_from, step_from-lt, steps_to, slot, NonEmpty, Answer, find_entry-answers}

module _ {K V : Type 0} (keys : Keys K) where
  open keys use {values_equal, hash_value}

  abbrev pub home : List (MapEntry K V) → K → ℕ
  home es q = hash_value q % length es

  -- The probe sequence of `q` comes to slot `i` with no empty slot before it.
  abbrev pub Leads : List (MapEntry K V) → K → ℕ → Type 0
  Leads es q i =
      (d : ℕ) × (d < length es)
      × (i ≡ step_from (home es q) d (length es))
      × NonEmpty keys es q (home es q) d

  -- No key stands twice, and each is found along its probe sequence.
  pub record IsPlaced (es : List (MapEntry K V)) : Type 0 where
    pub unique : (q : K) → key_count keys q es ≤ 1
    pub placed : (q : K) (i : ℕ) → hits keys q (get_or es i empty) ≡ true → Leads es q i

  -- What a search says of the array.
  abbrev pub Verdict : List (MapEntry K V) → K → Found → Type 0
  Verdict es q (found i) = (i < length es) × (hits keys q (get_or es i empty) ≡ true)
  Verdict es q (absent none) =
      (key_count keys q es ≡ 0) × ((i : ℕ) → i < length es → is_used (get_or es i empty) ≡ true)
  Verdict es q (absent (some i)) =
      (key_count keys q es ≡ 0)
      × (i < length es)
      × (is_used (get_or es i empty) ≡ false)
      × Leads es q i

  empty_misses : (q : K) (e : MapEntry K V) → is_empty e ≡ true → hits keys q e ≡ true → ⊥
  empty_misses q empty h n = cc
  empty_misses q tombstone h n = cc
  empty_misses q (used k v) h n = cc

  empty_unused : (e : MapEntry K V) → is_empty e ≡ true → is_used e ≡ true → ⊥
  empty_unused empty h n = cc
  empty_unused tombstone h n = cc
  empty_unused (used k v) h n = cc

  module _ (es : List (MapEntry K V)) (q : K) (small : 0 < length es) (inv : IsPlaced es) where
    home-lt : home es q < length es
    home-lt = omega arith

    -- A search that went in vain has passed every place where the key could be.
    vain-absent : (t : Option ℕ) → Answer keys es q (home es q) (absent t) → key_count keys q es ≡ 0
    vain-absent t (d, full, miss, stop) = key_count-nowhere keys q es nowhere
      where
        far :
            (d₀ : ℕ)
            → d₀ < length es
            → NonEmpty keys es q (home es q) d₀
            → d ≤ d₀
            → hits keys q (slot keys es q (home es q) d₀) ≡ true
            → ⊥
        far d₀ lt solid le hit = elim stop [
          | inl (e, _) ↦ absurd (omega arith)
          | inr (lt', hollow, _) ↦ elim (dec_lt d d₀) [
            | yes p ↦ cc (solid d p)
            | no p ↦
                let same : d₀ ≡ d = omega arith in
                empty_misses q (slot keys es q (home es q) d) hollow
                  (subst (λ j. hits keys q (slot keys es q (home es q) j) ≡ true) same hit)
          ]
        ]

        nowhere : (i : ℕ) → i < length es → hits keys q (get_or es i empty) ≡ false
        nowhere i lt = elim (Bool-cases (hits keys q (get_or es i empty))) [
          | inr n ↦ n
          | inl hit ↦
              let (d₀, lt₀, e, solid) = inv.placed q i hit in
              let hit₀ = rw e at hit in
              elim (dec_lt d₀ d) [
                | yes p ↦ cc (miss d₀ p)
                | no p ↦ absurd (far d₀ lt₀ solid (omega arith) hit₀)
              ]
        ]

    vain_all_used :
        Answer keys es q (home es q) (absent none)
        → (i : ℕ) → i < length es
        → is_used (get_or es i empty) ≡ true
    vain_all_used (d, full, miss, inl (e, all)) i lt =
        let (j, lt', at) = steps_to (home es q) i (length es) home-lt lt in
        rw at (all j (omega arith))
    vain_all_used (d, full, miss, inr (lt', hollow, all)) i lt =
        absurd (empty_unused (slot keys es q (home es q) d) hollow (all d (omega arith)))

    vain_free :
        (i : ℕ)
        → Answer keys es q (home es q) (absent (some i))
        → (i < length es) × (is_used (get_or es i empty) ≡ false) × Leads es q i
    vain_free i (d, full, miss, inl (e, (j, lt, at, free))) = (
      rw at (step_from-lt (home es q) j (length es) home-lt (omega arith)),
      rw at free,
      (j, omega arith, at, λ k p. full k (omega arith)),
    )
    vain_free i (d, full, miss, inr (lt', hollow, (j, lt, at, free))) = (
      rw at (step_from-lt (home es q) j (length es) home-lt (omega arith)),
      rw at free,
      (j, omega arith, at, λ k p. full k (omega arith)),
    )

    verdict : (r : Found) → Answer keys es q (home es q) r → Verdict es q r
    verdict (found i) (d, lt, at, hit) =
        (rw at (step_from-lt (home es q) d (length es) home-lt lt), rw at hit)
    verdict (absent none) a = (vain-absent none a, vain_all_used a)
    verdict (absent (some i)) a =
        let (lt, free, leads) = vain_free i a in (vain-absent (some i) a, lt, free, leads)

    -- `findEntry` ends: it finds the key exactly where it stands, or shows a free slot for it.
    pub find_entry-Verdict :
        (r : Found) × (find_entry keys es (length es) q ≡ some r) × Verdict es q r
    find_entry-Verdict =
        let (r, run, answer) = find_entry-answers keys es q small in (r, run, verdict r answer)
