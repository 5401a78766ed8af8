-- ===== src/Sequence/Ranges.antt =====
-- Which indices and spans the validation lets through.
use ruwren.Prelude.{
  ℕ, ◌+◌, ◌-◌, ◌^◌, ◌≤◌, ◌<◌, ◌≡◌, refl, Option, none, some, arith, ltb, if◌then◌else◌, if_split,
  ◌⊎◌, inl, inr,
}
use ruwren.Prelude.Int.{ℤ, pos, negsuc, ◌+ℤ◌}
use ruwren.Sequence.{
  validate_index, Double, whole, infinite, fraction, Checked, valid, invalid, validate_index_value,
  Range, Span, distance, span_to, range_from, calculate_range,
}

-- An index from the start is accepted exactly if it is below the count, and then stands for
-- itself; a negative one, -(i + 1), exactly if i is below the count, and then counts from the end.
pub validate_index-both :
    (count i : ℕ)
    → (validate_index count (pos i) ≡ (if ltb i count then some i else none))
      × (validate_index count (negsuc i) ≡ (if ltb i count then some (count - 1 - i) else none))
unfolding validate_index ◌+ℤ◌
validate_index-both count i = (ground arith, ground arith)

-- Where the steps of a span go.
abbrev pub IsInside : ℕ → Span → Type 0
IsInside length s =
    ((s.step ≡ pos 0) × (s.count ≡ 0))
    ⊎ ((s.step ≡ pos 1) × (s.start + s.count ≤ length))
    ⊎ ((s.step ≡ negsuc 0) × (s.start < length) × (s.count ≤ s.start + 1))

abbrev Inside : ℕ → Checked Span → Type 0
Inside length (valid s) = IsInside length s
Inside length (invalid e) = Unit

span_to-Inside :
    (length from : ℕ) (end : Option ℤ)
    → length ≤ 2 ^ 31
    → from < length
    → Inside length (span_to length from end)
span_to-Inside length from none small h = inl (refl, refl)
span_to-Inside length from (some (negsuc n)) small h = tt
span_to-Inside length from (some (pos to)) small h =
    if_split (Inside length) (ltb to length)
      (λ b.
        if_split
          (λ step.
            IsInside length (record { start = from; count = distance from to + 1; step = step }))
          (ltb from to) (λ up. inr (inl (refl, ground arith)))
          (λ down. inr (inr (refl, h, ground arith))))
      (λ _. tt)

validate-below :
    (count : ℕ) (value : Double) (i : ℕ) → validate_index_value count value ≡ valid i → i < count
unfolding validate_index_value ◌+ℤ◌
validate-below count fraction i h = cc
validate-below count infinite i h = cc
validate-below count (whole (pos n)) i h = ground arith
validate-below count (whole (negsuc n)) i h = ground arith

range_from-Inside :
    (range : Range) (length : ℕ) (start : Checked ℕ)
    → length ≤ 2 ^ 31
    → ((i : ℕ) → start ≡ valid i → i < length)
    → Inside length (range_from range length start)
range_from-Inside range length (invalid e) small below = tt
range_from-Inside range length (valid from) small below =
    elim range.to
      as (λ to. Inside length (range_from (record range { to = to }) length (valid from))) [
        | fraction ↦ tt
        | infinite ↦ tt
        | whole to ↦ span_to-Inside length from _ small (below from refl)
      ]

-- A range that `calculateRange` accepts for a sequence of at most 2 ^ 31 items gives a span inside
-- it: no items, or items upwards from the start that end before the length, or items downwards
-- from a start below the length that do not pass 0.
pub calculate_range-IsInside :
    (range : Range) (length : ℕ) (s : Span)
    → length ≤ 2 ^ 31
    → calculate_range range length ≡ valid s
    → IsInside length s
unfolding calculate_range
calculate_range-IsInside range length s small h =
    let start = validate_index_value length range.from in
    let inside : Inside length (calculate_range range length) =
      if_split (Inside length) _ {x = valid (record { start = 0; count = 0; step = pos 0 })}
        (λ _. inl (refl, refl))
        (λ _. range_from-Inside range length start small (validate-below length range.from)) in
    rw h at inside
