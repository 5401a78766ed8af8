-- ===== src/Tests/FiberTests.antt =====
-- Two fibers, and an error that is caught by the second.
use ruwren.Prelude.{ℕ, ◌≡◌, ◌≢◌, refl, none, some, [], ◌∷◌, ◌==◌, if◌then◌else◌, arith}
use ruwren.Values.{Value, null_val, true_val, num_val, obj_val}
use ruwren.Fibers.{
  Vm, Fiber, FiberMessage, fiber_other, fiber_try, fiber_call, fiber_call1, fiber_yield1, set_top,
  pop, has_error, runtime_error, finished_fiber, already_called,
}
use ruwren.Fibers.Calls.{IsCallable, Calls, fiber_yield1-fiber_call1, run_fiber-finished}
use ruwren.Fibers.Errors.{Unwinds, caught, passes, finish, Unwound, runtime_error-Unwound}

abbrev message : FiberMessage → Value
message m = obj_val 100

-- Fiber 1 is running; fiber 2 has not been started.
abbrev main : Fiber
main = record {
  stack = num_val 7 ∷ obj_val 2 ∷ [];
  stack_capacity = 4;
  frame_capacity = 4;
  open_upvalues = [];
  frames = record { ip = 3; arity = 0; closure = 9; stack_start = 0 } ∷ [];
  caller = none;
  error = null_val;
  state = fiber_other;
}

abbrev fresh : Fiber
fresh = record {
  stack = obj_val 9 ∷ [];
  stack_capacity = 4;
  frame_capacity = 4;
  open_upvalues = [];
  frames = record { ip = 0; arity = 1; closure = 9; stack_start = 0 } ∷ [];
  caller = none;
  error = null_val;
  state = fiber_other;
}

abbrev two : Vm
two = record { fiber = some 1; fibers = λ a. if a == 1 then main else fresh }

one_two : ◌≢◌ {A = ℕ} 1 2
one_two = omega arith

callable : IsCallable (two.fibers 2)
unfolding has_error
callable = record { no_error = refl; no_caller = refl; not_root = refl; not_finished = refl }

abbrev called : Vm
called = (fiber_call1 message 2 (num_val 7) 1 two).1

fiber_yield1-fiber_call1_example :
    Calls message 1 2 one_two (num_val 7) two called
    × ((fiber_yield1 true_val 2 called).1.fiber ≡ some 1)
    × ((fiber_yield1 true_val 2 called).1.fibers 1
        ≡ record (two.fibers 1) { stack = set_top true_val (pop (two.fibers 1).stack) })
    × (((fiber_yield1 true_val 2 called).1.fibers 2).caller ≡ none)
fiber_yield1-fiber_call1_example =
    fiber_yield1-fiber_call1 message 1 2 one_two (num_val 7) true_val two called callable refl refl

-- Fiber 2 has finished.
abbrev finished : Vm
finished = record {
  fiber = some 1;
  fibers = λ a. if a == 1 then main else record fresh { frames = [] };
}

run_fiber-finished_example :
    (((fiber_call message 2 1 finished).1.fibers 1).error ≡ message finished_fiber)
    × (((fiber_call message 2 1 (fiber_call message 2 1 finished).1).1.fibers 1).error
        ≡ message already_called)
unfolding has_error
run_fiber-finished_example =
    run_fiber-finished message 1 2 one_two finished 1 refl refl refl refl one_two

-- Fiber 3 has failed; it was called by fiber 2, which fiber 1 tries.
abbrev failing : Vm
failing = record {
  fiber = some 3;
  fibers = λ a.
      if a == 3
      then record fresh { error = num_val 5; caller = some 2 }
      else if a == 2
      then record fresh { caller = some 1; state = fiber_try }
      else main;
}

chain : Unwinds failing.fibers (some 3) (3 ∷ []) (some (2, 1))
chain = passes 3 (some 2) [] (some (2, 1)) refl refl (caught 2 1 refl refl)

runtime_error-Unwound_example :
    (m : Vm) × (runtime_error 2 3 failing ≡ some (finish (some (2, 1)) (failing.fibers 3).error m))
    × Unwound (3 ∷ []) (failing.fibers 3).error failing.fibers m.fibers
runtime_error-Unwound_example =
    runtime_error-Unwound 2 3 (3 ∷ []) (some (2, 1)) failing (omega arith) (λ z. z, tt)
      (omega arith) chain
