-- ===== src/Find/Search.antt =====
-- `wrenStringFind` against the first place where the needle stands.
use ruwren.Prelude.{
  ℕ, zero, suc, ◌+◌, ◌-◌, ◌≤◌, ◌<◌, ◌^◌, ◌%◌, ◌≡◌, refl, ◌∙◌, ap, subst, sym, Bool, true, false,
  ◌&&◌, Option, none, some, List, arith, ltb, leb, ◌==◌, if_split, length, get_or, ◌⊎◌, inl, inr,
}
use mathlib.Core.Bool.{false≢true}
use native.Mathlib.Decide.{dec_lt}
use ruwren.Find.{shift_table, mem_equal, slide, string_find}
use ruwren.Find.Shifts.{IsCovered, shift-positive, shift-within, shift-bound}

-- The needle stands at `k` in the haystack.
abbrev pub IsMatch : List ℕ → List ℕ → ℕ → Type 0
IsMatch haystack needle k =
    (j : ℕ) → j < length needle → get_or haystack (k + j) 0 ≡ get_or needle j 0

mem_equal_sound :
    (hay : List ℕ) (i : ℕ) (needle : List ℕ) (n j : ℕ)
    → mem_equal hay i needle n ≡ true
    → j < n
    → get_or hay (i + j) 0 ≡ get_or needle j 0
unfolding mem_equal
mem_equal_sound hay i needle zero j h lt = absurd (omega arith)
mem_equal_sound hay i needle (suc n) j h lt = elim (dec_lt j n) [
  | yes below ↦ mem_equal_sound hay i needle n j (ground arith) below
  | no last ↦
      let same : j ≡ n = omega arith in
      subst (λ m. get_or hay (i + m) 0 ≡ get_or needle m 0) (sym same) (ground arith)
]

mem_equal_complete :
    (hay : List ℕ) (i : ℕ) (needle : List ℕ) (n : ℕ)
    → n ≤ length needle
    → IsMatch hay needle i
    → mem_equal hay i needle n ≡ true
unfolding mem_equal
mem_equal_complete hay i needle zero h all = refl
mem_equal_complete hay i needle (suc n) h all =
    let before = mem_equal_complete hay i needle n (omega arith) all in
    let here = all n (omega arith) in ground (arith, before, here)

module _ (haystack needle : List ℕ) (end range : ℕ) where
  -- What a search from `index` answers.
  abbrev pub Answers : ℕ → Option (Option ℕ) → Type 0
  Answers index none = ⊥
  Answers index (some none) = (k : ℕ) → index ≤ k → k ≤ range → ¬ IsMatch haystack needle k
  Answers index (some (some i)) =
      (index ≤ i)
      × (i ≤ range)
      × IsMatch haystack needle i
      × ((k : ℕ) → index ≤ k → k < i → ¬ IsMatch haystack needle k)

  farther :
      (index next : ℕ) (o : Option (Option ℕ))
      → index ≤ next
      → ((k : ℕ) → index ≤ k → k < next → ¬ IsMatch haystack needle k)
      → Answers next o
      → Answers index o
  farther index next none h skipped a = a
  farther index next (some none) h skipped a = λ k lo hi. elim (dec_lt k next) [
    | yes before ↦ skipped k lo before
    | no after ↦ a k (omega arith) hi
  ]
  farther index next (some (some i)) h skipped (lo, hi, found, first) = (
    omega arith,
    hi,
    found,
    λ k lo' hi'. elim (dec_lt k next) [
      | yes before ↦ skipped k lo' before
      | no after ↦ first k (omega arith) hi'
    ],
  )

  abbrev tests : ℕ → Bool
  tests index =
      get_or needle end 0 == get_or haystack (index + end) 0 && mem_equal haystack index needle end

  module _ (long : length needle ≡ suc end) where
    tests_sound : (index : ℕ) → tests index ≡ true → IsMatch haystack needle index
    tests_sound index h j lt = elim (dec_lt j end) [
      | yes below ↦ mem_equal_sound haystack index needle end j (ground arith) below
      | no last ↦
          let same : j ≡ end = omega (arith, long) in
          subst (λ m. get_or haystack (index + m) 0 ≡ get_or needle m 0) (sym same) (ground arith)
    ]

    tests_complete : (index : ℕ) → IsMatch haystack needle index → tests index ≡ true
    tests_complete index all =
        let before = mem_equal_complete haystack index needle end (omega (arith, long)) all in
        let here = all end (omega (arith, long)) in ground (arith, before, here)

    skips :
        (index k : ℕ)
        → IsCovered needle
        → get_or haystack (index + end) 0 < 255
        → tests index ≡ false
        → index ≤ k
        → k < index + get_or (shift_table needle end end) (get_or haystack (index + end) 0) 0
        → ¬ IsMatch haystack needle k
    skips index k covered small fails lo hi all = elim (dec_lt index k) [
      | no same ↦
          let e : k ≡ index = omega arith in
          false≢true (sym fails ∙ tests_complete index (subst (IsMatch haystack needle) e all))
      | yes above ↦
          let c = get_or haystack (index + end) 0 in
          let table = shift_table needle end end in
          let within =
            shift-within needle end end c (omega arith) (omega (arith, long)) covered small in
          let j = index + end - k in
          let at : get_or haystack (k + j) 0 ≡ get_or needle j 0 =
            all j (omega (arith, long, within, hi)) in
          let place : k + j ≡ index + end = omega (arith, long, within, hi) in
          let bound =
            shift-bound needle end end j (omega arith) (omega (arith, long)) covered
              (omega arith) in
          let byte : get_or needle j 0 ≡ c = sym at ∙ ap (λ m. get_or haystack m 0) place in
          let bound' = subst (λ b. get_or table b 0 ≤ end - j) byte bound in
          omega (arith, bound', hi, within, long)
    ]

    slide-Answers :
        (fuel index : ℕ)
        → IsCovered haystack
        → IsCovered needle
        → length haystack ≡ range + suc end
        → range + 1 < fuel + index
        → 0 < fuel
        → Answers index (slide haystack needle (shift_table needle end end) end range fuel index)
    unfolding slide
    slide-Answers zero index ch cn size enough h = absurd (omega arith)
    slide-Answers (suc fuel) index ch cn size enough h =
        let c = get_or haystack (index + end) 0 in
        let s = get_or (shift_table needle end end) c 0 in
        if_split (Answers index) (ltb range index) {x = some none}
          (λ past. λ k lo hi. absurd (ground arith))
          (λ inside.
            let room : index ≤ range = ground arith in
            if_split (Answers index) (tests index) {x = some (some index)}
              (λ passes.
                (omega arith, room, tests_sound index passes, λ k lo hi. absurd (omega arith)))
              (λ fails.
                let small = ch (index + end) (omega (arith, size)) in
                let forth =
                  shift-positive needle end end c (omega arith) (omega (arith, long)) cn small in
                farther index (index + s) _ (omega arith) (λ k. skips index k cn small fails)
                  (slide-Answers fuel (index + s) ch cn size (omega (arith, forth)) (omega arith))))

-- What a search from `start` for the needle in the haystack answers.
abbrev pub First : List ℕ → List ℕ → ℕ → Option (Option ℕ) → Type 0
First haystack needle start none = ⊥
First haystack needle start (some none) =
    (k : ℕ) → start ≤ k → k + length needle ≤ length haystack → ¬ IsMatch haystack needle k
First haystack needle start (some (some i)) =
    (start ≤ i)
    × ((length needle ≡ 0) ⊎ (i + length needle ≤ length haystack))
    × IsMatch haystack needle i
    × ((k : ℕ) → start ≤ k → k < i → ¬ IsMatch haystack needle k)

as-First :
    (haystack needle : List ℕ) (start range : ℕ) (o : Option (Option ℕ))
    → length haystack ≡ range + length needle
    → Answers haystack needle (length needle - 1) range start o
    → First haystack needle start o
as-First haystack needle start range none size a = a
as-First haystack needle start range (some none) size a = λ k lo hi. a k lo (omega (arith, size))
as-First haystack needle start range (some (some i)) size (lo, hi, found, first) =
    (lo, inr (omega (arith, size)), found, first)

-- For strings without the byte 255, and a start that added to the needle's length is below 2 ^ 32,
-- `wrenStringFind` returns: an index is the first place from the start on where the needle stands,
-- and the needle ends inside the haystack unless it is empty; no index means that it stands
-- nowhere in the haystack from the start on.
pub string_find-First :
    (haystack needle : List ℕ) (start : ℕ)
    → IsCovered haystack
    → IsCovered needle
    → start + length needle < 2 ^ 32
    → First haystack needle start (string_find haystack needle start)
unfolding string_find
string_find-First haystack needle start ch cn small =
    if_split (First haystack needle start) (length needle == 0) {x = some (some start)}
      (λ e.
        let gone : length needle ≡ 0 = ground arith in
        (omega arith, inl gone, λ j lt. absurd (omega arith), λ k lo hi. absurd (omega arith)))
      (λ full.
        let nonempty : 0 < length needle = ground arith in
        if_split (First haystack needle start)
          (ltb (length haystack) ((start + length needle) % 2 ^ 32)) {x = some none}
          (λ far. λ k lo hi. absurd (ground arith))
          (λ near.
            let fits : start + length needle ≤ length haystack = ground arith in
            if_split (First haystack needle start) (leb (length haystack) start) {x = some none}
              (λ far. λ k lo hi. absurd (ground arith))
              (λ _.
                let range = length haystack - length needle in
                as-First haystack needle start range _ (omega arith) (
                  slide-Answers haystack needle (length needle - 1) range (omega arith)
                    (suc (suc range)) start ch cn (omega arith) (omega arith) (omega arith)))))
