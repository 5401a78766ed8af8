-- ===== src/Tests/CaptureTests.antt =====
-- A stack of three slots, of which the last has an open upvalue.
use ruwren.Prelude.{ℕ, ◌≡◌, refl, [], ◌∷◌, inl, inr, arith, In, ◌<◌}
use ruwren.Capture.{Upvalues, stack_slot, capture_upvalue, close_upvalues}
use ruwren.Capture.Open.{Chain, done, link, Captures, capture_upvalue-Captures}
use ruwren.Capture.Close.{Closes, close_upvalues-Closes}

abbrev one_open : Upvalues ℕ
one_open = record {
  object = λ a. record { value = stack_slot 2; closed = 0 };
  allocated = 1;
  open_upvalues = 0 ∷ [];
}

sorted : Chain one_open.object 3 one_open.open_upvalues
sorted = link 3 0 2 [] refl (omega arith) (done 2)

allocated : (b : ℕ) → In b one_open.open_upvalues → b < one_open.allocated
allocated b i = elim i [ inl e ↦ omega (arith, e) | inr z ↦ absurd z ]

capture_upvalue-Captures_example :
    Captures 1 3 one_open (capture_upvalue 0 1 one_open).0 (capture_upvalue 0 1 one_open).1
capture_upvalue-Captures_example =
    capture_upvalue-Captures 0 1 3 one_open (omega arith) sorted allocated

close_upvalues-Closes_example :
    Closes 0 (10 ∷ 20 ∷ 30 ∷ []) 1 one_open.open_upvalues one_open.object (
      (close_upvalues 0 (10 ∷ 20 ∷ 30 ∷ []) 1 one_open).open_upvalues,
      (close_upvalues 0 (10 ∷ 20 ∷ 30 ∷ []) 1 one_open).object,
    )
    × ((close_upvalues 0 (10 ∷ 20 ∷ 30 ∷ []) 1 one_open).allocated ≡ one_open.allocated)
close_upvalues-Closes_example = close_upvalues-Closes 0 (10 ∷ 20 ∷ 30 ∷ []) 1 3 one_open sorted
