-- ===== src/Find/Shifts.antt =====
-- The table of shifts: no shift is 0, and none passes the last place of its byte.
use ruwren.Prelude.{
  ℕ, zero, suc, ◌-◌, ◌≤◌, ◌<◌, ◌≡◌, refl, ap, ◌∙◌, List, arith, length, length-set,
  length-replicate, get_or, get_or-set, replicate,
}
use native.Mathlib.Decide.{dec_lt}
use ruwren.Find.{shift_table}

-- Each byte of the needle has a slot.
abbrev pub IsCovered : List ℕ → Type 0
IsCovered s = (k : ℕ) → k < length s → get_or s k 0 < 255

module _ (needle : List ℕ) (end : ℕ) where
  pub length-shift_table : (n : ℕ) → length (shift_table needle end n) ≡ 255
  unfolding shift_table
  length-shift_table zero = length-replicate 255 (length needle)
  length-shift_table (suc n) =
      length-set (shift_table needle end n) (get_or needle n 0) (end - n) ∙ length-shift_table n

  get_or-replicate_below : (n i v : ℕ) → i < n → get_or (replicate n v) i 0 ≡ v
  get_or-replicate_below zero i v h = absurd (omega arith)
  get_or-replicate_below (suc n) zero v h = refl
  get_or-replicate_below (suc n) (suc i) v h = get_or-replicate_below n i v (omega arith)

  pub shift-positive :
      (n c : ℕ)
      → n ≤ end
      → end < length needle
      → IsCovered needle
      → c < 255
      → 1 ≤ get_or (shift_table needle end n) c 0
  unfolding shift_table
  shift-positive zero c h fits covered small =
      let e = get_or-replicate_below 255 c (length needle) small in omega (arith, e)
  shift-positive (suc n) c h fits covered small =
      let before = shift-positive n c (omega arith) fits covered small in
      let slot = covered n (omega arith) in
      let len = length-shift_table n in
      let e =
        get_or-set (shift_table needle end n) (get_or needle n 0) c (end - n) 0
          (omega (arith, len, slot)) in
      ground (arith, e, before)

  pub shift-within :
      (n c : ℕ)
      → n ≤ end
      → end < length needle
      → IsCovered needle
      → c < 255
      → get_or (shift_table needle end n) c 0 ≤ length needle
  unfolding shift_table
  shift-within zero c h fits covered small =
      let e = get_or-replicate_below 255 c (length needle) small in omega (arith, e)
  shift-within (suc n) c h fits covered small =
      let before = shift-within n c (omega arith) fits covered small in
      let slot = covered n (omega arith) in
      let len = length-shift_table n in
      let e =
        get_or-set (shift_table needle end n) (get_or needle n 0) c (end - n) 0
          (omega (arith, len, slot)) in
      ground (arith, e, before)

  pub shift-bound :
      (n j : ℕ)
      → n ≤ end
      → end < length needle
      → IsCovered needle
      → j < n
      → get_or (shift_table needle end n) (get_or needle j 0) 0 ≤ end - j
  unfolding shift_table
  shift-bound zero j h fits covered lt = absurd (omega arith)
  shift-bound (suc n) j h fits covered lt =
      let slot = covered n (omega arith) in
      let len = length-shift_table n in
      let e =
        get_or-set (shift_table needle end n) (get_or needle n 0) (get_or needle j 0) (end - n) 0
          (omega (arith, len, slot)) in
      elim (dec_lt j n) [
        | yes below ↦
            let before = shift-bound n j (omega arith) fits covered below in
            ground (arith, e, before)
        | no last ↦
            let same : j ≡ n = omega arith in
            let byte : get_or needle j 0 ≡ get_or needle n 0 = ap (λ i. get_or needle i 0) same in
            ground (arith, e, byte, same)
      ]
