-- ===== src/Tests/InterpreterTests.antt =====
-- A machine in a function of four instructions, and a call of a method with it.
use ruwren.Prelude.{
  ℕ, ◌+◌, ◌≡◌, ◌≤◌, refl, true, false, some, none, List, [], ◌∷◌, ◌==◌, if◌then◌else◌, length,
  arith,
}
use ruwren.Prelude.Int.{pos, ◌+ℤ◌}
use ruwren.Scopes.{Compiler, emit_byte}
use ruwren.Emit.{emit_op, argument_bytes}
use ruwren.Values.{
  Value, null_val, true_val, num_val, obj_val, block, closure_obj, fn_obj, ObjFn, Object,
}
use ruwren.Capture.{stack_slot}
use ruwren.Fibers.{CallFrame, Fiber, fiber_root}
use ruwren.Interpreter.State.{
  Machine, Running, Outcome, running, success, runtime_failure, fault, or_fault, load_running,
  stack_of,
}
use ruwren.Interpreter.Calls.{Natives, call_method, return_from}
use ruwren.Interpreter.Instructions.{decode, null_, true_}
use ruwren.Interpreter.Step.{step}
use ruwren.Interpreter.Effects.{is_plain}
use ruwren.Interpreter.Heights.{Advances, step-Advances}
use ruwren.Interpreter.Enter.{Loads, Calls, call_method-Calls}
use ruwren.Interpreter.Returns.{Resumes, return_from-Resumes}
use ruwren.Interpreter.Slots.{Straight, done, next, emit_ops, HasSlots, Straight-fits}

abbrev natives : Natives
natives = record {
  call_primitive = λ f start m. (true, m);
  call_foreign = λ f start m. m;
  call_definition = λ op fiber m. fault;
  method_not_found = λ class symbol. obj_val 50;
  too_few_arguments = obj_val 51;
  bool_class = 30;
  null_class = 31;
  num_class = 32;
  fn_class = 33;
  fuel = 2;
}

-- `null`, `true`, a pop and a return.
abbrev function : ObjFn
function = record {
  arity = 0;
  max_slots = 3;
  num_upvalues = 0;
  module_ = 40;
  code = 1 ∷ 3 ∷ 23 ∷ 64 ∷ 76 ∷ [];
  constants = [];
  constants_capacity = 0;
  code_capacity = 8;
}

abbrev outer_frame : CallFrame
outer_frame = record { ip = 0; arity = 0; closure = 9; stack_start = 0 }

abbrev fiber : List Value → List CallFrame → Fiber
fiber stack frames = record {
  stack = stack;
  stack_capacity = 4;
  frames = frames;
  frame_capacity = 4;
  open_upvalues = [];
  caller = none;
  error = null_val;
  state = fiber_root;
}

abbrev object : ℕ → Object
object a =
    if a == 9
    then record { class_of = some 33; body = closure_obj (record { fn = some 8; upvalues = [] }) }
    else record { class_of = none; body = fn_obj function }

abbrev machine : List Value → List CallFrame → ℕ → Machine
machine stack frames ip = record {
  vm = record { fiber = some 1; fibers = λ a. fiber stack frames };
  object = object;
  allocated = 60;
  upvalue = λ a. record { value = stack_slot 0; closed = null_val };
  allocated_upvalues = 0;
  owner = λ a. 1;
  last_module = none;
  ip = ip;
}

abbrev started : Machine
started = machine (obj_val 9 ∷ []) (outer_frame ∷ []) 0

abbrev in_function : Running
in_function = record {
  fiber = 1;
  frame = outer_frame;
  closure = record { fn = some 8; upvalues = [] };
  fn = function;
}

-- The machine with which the loop goes on.
abbrev going : Outcome → Machine
going (running m) = m
going (success m) = m
going (runtime_failure m) = m
going fault = started

abbrev first_step : Machine
first_step = going (step natives started)

step-Advances_example : Advances in_function 1 started first_step
unfolding load_running decode is_plain step or_fault argument_bytes
step-Advances_example =
    step-Advances natives in_function started 1 null_ first_step refl refl refl refl refl

abbrev second_step : Machine
second_step = going (step natives first_step)

two_steps-Straight : Straight natives in_function started (1 ∷ 3 ∷ []) second_step
unfolding load_running decode is_plain step or_fault argument_bytes
two_steps-Straight =
    next {m = started} {m₁ = first_step} {i = null_} refl refl refl refl refl
      (next {m = first_step} {m₁ = second_step} {i = true_} refl refl refl refl refl done)

abbrev compiler : Compiler
compiler = record {
  locals = [];
  upvalues = [];
  scope_depth = 1;
  num_slots = pos 1;
  max_slots = pos 1;
  loops = [];
  is_method = false;
  code = [];
  source_lines = [];
  line = 1;
  quiet = false;
  errors = [];
}

Straight-fits_example :
    HasSlots 0 (length (stack_of 1 second_step)) (emit_ops (1 ∷ 3 ∷ []) compiler)
    × (length (stack_of 1 second_step) ≤ 0 + 3)
unfolding emit_ops emit_op emit_byte ◌+ℤ◌
Straight-fits_example =
    Straight-fits natives in_function started second_step (1 ∷ 3 ∷ []) (23 ∷ []) 0 3 compiler
      two_steps-Straight refl (omega arith) refl

started-Loads : Loads started 9 function
started-Loads = record {
  object = record { fn = some 8; upvalues = [] };
  function = 8;
  is_closure = refl;
  has_function = refl;
  is_function = refl;
}

call_method-Calls_example :
    (m' : Machine) × (call_method natives (block 9) (obj_val 9) 1 1 started ≡ running m')
    × Calls 1 9 function 1 started m'
call_method-Calls_example =
    call_method-Calls natives 9 (obj_val 9) 1 1 function started refl started-Loads (omega arith)
      (omega arith)

-- In a method that was called with one argument behind the receiver, above one more slot.
abbrev callee_frame : CallFrame
callee_frame = record { ip = 2; arity = 1; closure = 9; stack_start = 1 }

abbrev in_method : Machine
in_method =
    machine (true_val ∷ num_val 5 ∷ num_val 6 ∷ obj_val 9 ∷ []) (callee_frame ∷ outer_frame ∷ []) 2

in_method-Loads : Loads in_method 9 function
in_method-Loads = record {
  object = record { fn = some 8; upvalues = [] };
  function = 8;
  is_closure = refl;
  has_function = refl;
  is_function = refl;
}

return_from-Resumes_example :
    (m' : Machine) × (return_from 1 callee_frame in_method ≡ running m')
    × Resumes 1 0 true_val (obj_val 9 ∷ []) in_method m'
return_from-Resumes_example =
    return_from-Resumes 1 callee_frame outer_frame [] function true_val (num_val 5 ∷ num_val 6 ∷ [])
      (obj_val 9 ∷ []) in_method refl refl refl refl in_method-Loads
