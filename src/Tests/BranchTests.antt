-- ===== src/Tests/BranchTests.antt =====
-- `&&` and `?:` with operands of one byte.
use ruwren.Prelude.{
  ℕ, ◌+◌, ◌≡◌, refl, true, false, some, none, List, [], ◌∷◌, ◌==◌, if◌then◌else◌, length, arith,
}
use ruwren.Prelude.Int.{pos}
use ruwren.Scopes.{Compiler, emit_byte}
use ruwren.Emit.{emit_op, emit_jump, patch_jump}
use ruwren.Emit.Branches.{conditional, and_}
use ruwren.Emit.Choices.{first_done}
use ruwren.Values.{null_val, false_val, obj_val, closure_obj, fn_obj, ObjFn}
use ruwren.Capture.{stack_slot}
use ruwren.Fibers.{CallFrame, Fiber, fiber_root}
use ruwren.Interpreter.State.{Machine, Running, running, fault, load_running, set_stack}
use ruwren.Interpreter.Calls.{Natives}
use ruwren.Interpreter.Step.{step}
use ruwren.Interpreter.Branches.{on_and, compile_test, compile_test-runs, conditional-runs}

abbrev natives : Natives
natives = record {
  call_primitive = λ f start m. (true, m);
  call_foreign = λ f start m. m;
  call_definition = λ op fiber m. fault;
  method_not_found = λ class symbol. obj_val 50;
  too_few_arguments = obj_val 51;
  bool_class = 30;
  null_class = 31;
  num_class = 32;
  fn_class = 33;
  fuel = 2;
}

abbrev compiler : Compiler
compiler = record {
  locals = [];
  upvalues = [];
  scope_depth = 1;
  num_slots = pos 1;
  max_slots = pos 1;
  loops = [];
  is_method = false;
  code = 2 ∷ [];
  source_lines = 1 ∷ [];
  line = 1;
  quiet = false;
  errors = [];
}

-- The operand `null`.
abbrev operand : Compiler → Compiler
operand = emit_op 1

abbrev function : List ℕ → ObjFn
function code = record {
  arity = 0;
  max_slots = 3;
  num_upvalues = 0;
  module_ = 40;
  code = code;
  constants = [];
  constants_capacity = 0;
  code_capacity = 16;
}

abbrev frame : CallFrame
frame = record { ip = 0; arity = 0; closure = 9; stack_start = 0 }

abbrev fiber : Fiber
fiber = record {
  stack = false_val ∷ obj_val 9 ∷ [];
  stack_capacity = 4;
  frames = frame ∷ [];
  frame_capacity = 4;
  open_upvalues = [];
  caller = none;
  error = null_val;
  state = fiber_root;
}

abbrev machine : List ℕ → ℕ → Machine
machine code ip = record {
  vm = record { fiber = some 1; fibers = λ a. fiber };
  object = λ a.
      if a == 9
      then record { class_of = some 33; body = closure_obj (record { fn = some 8; upvalues = [] }) }
      else record { class_of = none; body = fn_obj (function code) };
  allocated = 60;
  upvalue = λ a. record { value = stack_slot 0; closed = null_val };
  allocated_upvalues = 0;
  owner = λ a. 1;
  last_module = none;
  ip = ip;
}

abbrev in_function : List ℕ → Running
in_function code = record {
  fiber = 1;
  frame = frame;
  closure = record { fn = some 8; upvalues = [] };
  fn = function code;
}

abbrev both : List ℕ
both = (compile_test on_and operand compiler).code

compile_test-runs_example :
    step natives (machine both 1)
    ≡ running (
        if true
        then record (set_stack 1 (false_val ∷ obj_val 9 ∷ []) (machine both 1)) {
          ip = length (compile_test on_and operand compiler).code;
        }
        else record (set_stack 1 (obj_val 9 ∷ []) (machine both 1)) {
          ip = length compiler.code + 3;
        })
unfolding load_running emit_op emit_byte emit_jump compile_test and_ patch_jump
compile_test-runs_example =
    compile_test-runs natives (in_function both) (machine both 1) on_and operand compiler []
      false_val (obj_val 9 ∷ []) refl refl refl refl (record { new = 1 ∷ []; code = refl })
      (omega arith)

abbrev choice : List ℕ
choice = (conditional operand operand compiler).code

conditional-runs_example :
    (step natives (machine choice 1)
      ≡ running (
          if true
          then record (set_stack 1 (obj_val 9 ∷ []) (machine choice 1)) {
            ip = length (first_done operand operand compiler).code + 3;
          }
          else record (set_stack 1 (obj_val 9 ∷ []) (machine choice 1)) { ip = 1 + 3 }))
    × (step natives (machine choice 5)
        ≡ running
            (record (machine choice 5) { ip = length (conditional operand operand compiler).code }))
unfolding load_running emit_op emit_byte emit_jump conditional patch_jump
conditional-runs_example =
    conditional-runs natives (in_function choice) (machine choice 1) (machine choice 5) operand
      operand compiler [] false_val (obj_val 9 ∷ []) refl refl refl refl refl refl
      (record { new = 1 ∷ []; code = refl }) (record { new = 1 ∷ []; code = refl }) (omega arith)
      (omega arith)
