-- ===== src/Map/Probe.antt =====
-- The probe sequence: where it goes, that it ends within as many steps as there are slots, and
-- what its answer means.
use native.Mathlib.Decide.{dec_lt}
use ruwren.Prelude.{
  ℕ, zero, suc, ◌+◌, ◌-◌, ◌%◌, ◌<◌, ◌≡◌, ◌≢◌, refl, subst, ◌∙◌, true, false, Option, none, some,
  List, [], ◌∷◌, arith, ltb, leb, ◌==◌, ==_ne, if◌then◌else◌, length, get_or, Bool-cases, ◌⊎◌, inl,
  inr,
}
use ruwren.Map.{
  Keys, MapEntry, empty, tombstone, used, Found, found, absent, probe, find_entry, first_free,
}
use ruwren.Map.Slots.{hits, is_used, is_empty}

-- The slot `d` steps from `h`, in a ring of `c`.
pub step_from : ℕ → ℕ → ℕ → ℕ
step_from h d c = if ltb (h + d) c then h + d else h + d - c

pub step_from-lt : (h d c : ℕ) → h < c → d < c → step_from h d c < c
unfolding step_from
step_from-lt h d c p q = ground arith

step_from-zero : (h c : ℕ) → h < c → step_from h 0 c ≡ h
unfolding step_from
step_from-zero h c p = ground arith

mod-below : (x c : ℕ) → x < c → x % c ≡ x
mod-below x c h = grind arith

mod_self : (c : ℕ) → c % c ≡ 0
mod_self c = grind arith

-- The step `(index + 1) % capacity`, before the last slot and at it.
step_from-next : (h d c : ℕ) → h < c → suc d < c → (step_from h d c + 1) % c ≡ step_from h (suc d) c
unfolding step_from
step_from-next h d c p q =
    ground (arith, mod-below (h + d + 1) c, mod-below (h + d - c + 1) c, mod_self c)

step_from-last : (h d c : ℕ) → h < c → suc d ≡ c → (step_from h d c + 1) % c ≡ h
unfolding step_from
step_from-last h d c p q = ground (arith, mod-below h c, mod_self c)

step_from-ne : (h d c : ℕ) → h < c → 0 < d → d < c → step_from h d c ≢ h
unfolding step_from
step_from-ne h d c p q r = ground arith

-- Every slot is some steps from `h`.
pub steps_to : (h i c : ℕ) → h < c → i < c → (d : ℕ) × (d < c) × (i ≡ step_from h d c)
unfolding step_from
steps_to h i c p q = ((if leb h i then i - h else i + c - h), ground arith, ground arith)

one_more : (P : ℕ → Type 0) (d : ℕ) → ((j : ℕ) → j < d → P j) → P d → (j : ℕ) → j < suc d → P j
one_more P d below here j lt = elim (dec_lt j d) [
  | yes p ↦ below j p
  | no p ↦ subst P (omega arith) here
]

module _ {K V : Type 0} (keys : Keys K) where
  -- The tombstone to remember after passing the entry `e` at `i`.
  abbrev passed : Option ℕ → MapEntry K V → ℕ → Option ℕ
  passed t e i = if is_used e then t else first_free t i

  module _ (es : List (MapEntry K V)) (c fuel : ℕ) (q : K) (s i : ℕ) (t : Option ℕ) where
    probe-hit :
        hits keys q (get_or es i empty) ≡ true → probe keys (suc fuel) es c q s i t ≡ some (found i)
    unfolding probe
    probe-hit h = ground arith

    probe-empty :
        is_empty (get_or es i empty) ≡ true
        → probe keys (suc fuel) es c q s i t ≡ some (absent (first_free t i))
    unfolding probe
    probe-empty h = ground arith

    probe-pass :
        is_empty (get_or es i empty) ≡ false
        → hits keys q (get_or es i empty) ≡ false
        → probe keys (suc fuel) es c q s i t ≡ (
            if (i + 1) % c == s
            then some (absent (passed t (get_or es i empty) i))
            else probe keys fuel es c q s ((i + 1) % c) (passed t (get_or es i empty) i))
    unfolding probe
    probe-pass h n = ground arith

  module _ (es : List (MapEntry K V)) (q : K) (h : ℕ) where
    -- The entry `d` steps along the probe sequence.
    abbrev pub slot : ℕ → MapEntry K V
    slot d = get_or es (step_from h d (length es)) empty

    abbrev pub NonEmpty : ℕ → Type 0
    NonEmpty d = (j : ℕ) → j < d → is_empty (slot j) ≡ false

    abbrev pub Misses : ℕ → Type 0
    Misses d = (j : ℕ) → j < d → hits keys q (slot j) ≡ false

    -- The tombstone in hand is a free slot among the first `d`; with none in hand all are used.
    abbrev pub FirstFree : ℕ → Option ℕ → Type 0
    FirstFree d none = (j : ℕ) → j < d → is_used (slot j) ≡ true
    FirstFree d (some i) =
        (j : ℕ) × (j < d) × (i ≡ step_from h j (length es)) × (is_used (slot j) ≡ false)

    -- What a search may answer: the entry found, or the steps that it went in vain.
    abbrev pub Answer : Found → Type 0
    Answer (found i) =
        (d : ℕ) × (d < length es) × (i ≡ step_from h d (length es)) × (hits keys q (slot d) ≡ true)
    Answer (absent t) =
        (d : ℕ) × NonEmpty d
        × Misses d
        × ((d ≡ length es) × FirstFree d t
            ⊎ (d < length es) × (is_empty (slot d) ≡ true) × FirstFree (suc d) t)

    free_passed :
        (t : Option ℕ) (d : ℕ)
        → FirstFree d t
        → FirstFree (suc d) (passed t (slot d) (step_from h d (length es)))
    free_passed t d f = elim (Bool-cases (is_used (slot d))) [
      | inl u ↦ rw u (keep t f u)
      | inr u ↦ rw u (take_it t f u)
    ]
      where
        keep : (t : Option ℕ) → FirstFree d t → is_used (slot d) ≡ true → FirstFree (suc d) t
        keep none f u = one_more (λ j. is_used (slot j) ≡ true) d f u
        keep (some i) (j, lt, e, n) u = (j, omega arith, e, n)

        take_it :
            (t : Option ℕ)
            → FirstFree d t
            → is_used (slot d) ≡ false
            → FirstFree (suc d) (first_free t (step_from h d (length es)))
        take_it none f u = (d, omega arith, refl, u)
        take_it (some i) (j, lt, e, n) u = (j, omega arith, e, n)

    unused_of_empty : (e : MapEntry K V) → is_empty e ≡ true → is_used e ≡ false
    unused_of_empty empty p = refl
    unused_of_empty tombstone p = refl
    unused_of_empty (used k v) p = cc

    abbrev Answered : ℕ → ℕ → Option ℕ → Type 0
    Answered fuel d t =
        (r : Found) × (probe keys fuel es (length es) q h (step_from h d (length es)) t ≡ some r)
        × Answer r

    -- A slot that holds the key, or is empty, ends the search; any other is passed.
    stop_or_pass :
        (fuel d : ℕ) (t : Option ℕ)
        → d < length es
        → NonEmpty d
        → Misses d
        → FirstFree d t
        → (hits keys q (slot d) ≡ false → is_empty (slot d) ≡ false → Answered (suc fuel) d t)
        → Answered (suc fuel) d t
    stop_or_pass fuel d t lt full miss free pass = elim (Bool-cases (hits keys q (slot d))) [
      | inl hit ↦ (
        found (step_from h d (length es)),
        probe-hit es (length es) fuel q h (step_from h d (length es)) t hit,
        (d, lt, refl, hit),
      )
      | inr away ↦ elim (Bool-cases (is_empty (slot d))) [
        | inr solid ↦ pass away solid
        | inl hollow ↦
            let u = unused_of_empty (slot d) hollow in
            (
              absent (first_free t (step_from h d (length es))),
              probe-empty es (length es) fuel q h (step_from h d (length es)) t hollow,
              (d, full, miss, inr (lt, hollow, rw u at (free_passed t d free))),
            )
      ]
    ]

    abbrev after : ℕ → Option ℕ → Option ℕ
    after d t = passed t (slot d) (step_from h d (length es))

    pass_last :
        (fuel d : ℕ) (t : Option ℕ)
        → h < length es
        → suc d ≡ length es
        → NonEmpty d
        → Misses d
        → FirstFree d t
        → hits keys q (slot d) ≡ false
        → is_empty (slot d) ≡ false
        → Answered (suc fuel) d t
    pass_last fuel d t small last full miss free away solid = (
      absent (after d t),
      probe-pass es (length es) fuel q h (step_from h d (length es)) t solid away
          ∙ ground (arith, step_from-last h d (length es) small last),
      (
        suc d,
        one_more (λ j. is_empty (slot j) ≡ false) d full solid,
        one_more (λ j. hits keys q (slot j) ≡ false) d miss away,
        inl (last, free_passed t d free),
      ),
    )

    pass_on :
        (fuel d : ℕ) (t : Option ℕ)
        → h < length es
        → suc d < length es
        → hits keys q (slot d) ≡ false
        → is_empty (slot d) ≡ false
        → Answered fuel (suc d) (after d t)
        → Answered (suc fuel) d t
    pass_on fuel d t small more away solid (r, run, answer) = (
      r,
      probe-pass es (length es) fuel q h (step_from h d (length es)) t solid away
          ∙ rw
              (
                step_from-next h d (length es) small more,
                ==_ne (step_from h (suc d) (length es)) h
                    (step_from-ne h (suc d) (length es) small (omega arith) more),
              )
              run,
      answer,
    )

    -- The loop answers within its fuel: from `d` steps along the sequence, with one unit of fuel
    -- for each slot that is left.
    probe-answers :
        (fuel d : ℕ) (t : Option ℕ)
        → h < length es
        → d + suc fuel ≡ length es
        → NonEmpty d
        → Misses d
        → FirstFree d t
        → Answered (suc fuel) d t
    probe-answers zero d t small left full miss free =
        stop_or_pass zero d t (omega arith) full miss free
          λ away solid. pass_last zero d t small (omega arith) full miss free away solid
    probe-answers (suc fuel) d t small left full miss free =
        stop_or_pass (suc fuel) d t (omega arith) full miss free λ away solid.
          pass_on (suc fuel) d t small (omega arith) away solid (
            probe-answers fuel (suc d) (after d t) small (omega arith)
              (one_more (λ j. is_empty (slot j) ≡ false) d full solid)
              (one_more (λ j. hits keys q (slot j) ≡ false) d miss away) (free_passed t d free))

  -- A search in a table of at least one slot ends, with an answer along the probe sequence of the
  -- key's home slot.
  pub find_entry-answers :
      (es : List (MapEntry K V)) (q : K)
      → 0 < length es
      → (r : Found) × (find_entry keys es (length es) q ≡ some r)
        × Answer es q (keys.hash_value q % length es) r
  unfolding find_entry
  find_entry-answers [] q pos = absurd (omega arith)
  find_entry-answers (e ∷ es) q pos =
      let home = keys.hash_value q % length (e ∷ es) in
      let small : home < length (e ∷ es) = omega arith in
      let (r, run, answer) =
        probe-answers (e ∷ es) q home (length es) 0 none small (omega arith)
          (λ j lt. absurd (omega arith)) (λ j lt. absurd (omega arith))
          (λ j lt. absurd (omega arith)) in
      let start = rw (step_from-zero home (length (e ∷ es)) small) at run in
      (r, ground arith, answer)
