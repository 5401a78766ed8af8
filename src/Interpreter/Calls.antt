-- ===== src/Interpreter/Calls.antt =====
-- ruwren-sys/src/wren_vm.c: calls of methods (`completeCall` of `runInterpreter`, `checkArity`,
-- `callForeign`, `methodNotFound`), and returns; `wrenCallFunction` and `wrenGetClassInline` of
-- wren_vm.h, `wrenEnsureStack` and `wrenAppendCallFrame` of wren_value.{h,c}.
use ruwren.Prelude.{
  ℕ, ◌+◌, ◌-◌, ◌*◌, Bool, true, false, Option, none, some, [], ◌∷◌, ltb, leb, if◌then◌else◌, length,
  drop,
}
use ruwren.Sequence.{power_of_2_ceil}
use ruwren.Values.{
  Value, null_val, false_val, true_val, undefined_val, num_val, obj_val, Method, block, primitive,
  foreign, function_call, no_method, ObjFn,
}
use ruwren.Fibers.{CallFrame, Fiber, set_top, has_error, set_error, runtime_error, update_pointer}
use ruwren.Classes.{method_of}
use ruwren.Interpreter.State.{
  Machine, Outcome, running, success, runtime_failure, fault, or_fault, as_class, as_closure, as_fn,
  address_of, body_at, load_frame, change_fiber, stack_of, set_stack, store_frame, slot_at, close,
}

-- What the loop calls beside this file: the functions of C behind primitive and foreign methods,
-- with the number of slots below their arguments, the instructions that define classes and import
-- modules, by opcode and fiber, the strings of two errors, and the classes of
-- values that are no objects and of closures. `fuel` bounds the fibers that one error aborts.
pub record Natives : Type 0 where
  pub call_primitive : ℕ → ℕ → Machine → Bool × Machine
  pub call_foreign : ℕ → ℕ → Machine → Machine
  pub call_definition : ℕ → ℕ → Machine → Outcome
  pub method_not_found : ℕ → ℕ → Value
  pub too_few_arguments : Value
  pub bool_class : ℕ
  pub null_class : ℕ
  pub num_class : ℕ
  pub fn_class : ℕ
  pub fuel : ℕ

unfoldable pub ensure_stack : ℕ → Fiber → Fiber
ensure_stack needed f =
    if leb needed f.stack_capacity then f else record f { stack_capacity = power_of_2_ceil needed }

unfoldable pub append_call_frame : ℕ → ObjFn → ℕ → Fiber → Fiber
append_call_frame closure fn stack_start f = record f {
  frames =
      record { ip = 0; arity = fn.arity; closure = closure; stack_start = stack_start } ∷ f.frames;
}

-- On the fiber, for the closure at an address and its function.
unfoldable pub call_function : ℕ → ObjFn → ℕ → Fiber → Fiber
unfolding ensure_stack append_call_frame
call_function closure fn num_args f =
    let grown =
      if ltb f.frame_capacity (length f.frames + 1)
      then record f { frame_capacity = f.frame_capacity * 2 }
      else f in
    append_call_frame closure fn (length f.stack - num_args)
      (ensure_stack (length f.stack + fn.max_slots) grown)

-- A call of the closure at an address in the fiber, behind `STORE_FRAME`, with `LOAD_FRAME`.
unfoldable pub call_closure : ℕ → ℕ → ℕ → Machine → Outcome
unfolding call_function
call_closure fiber closure num_args m = or_fault (as_closure (body_at m closure)) λ c.
    or_fault c.fn λ a.
      or_fault (as_fn (body_at m a))
        λ fn. load_frame (change_fiber fiber (call_function closure fn num_args) m)

unfoldable pub class_of_value : Natives → Machine → Value → Option ℕ
class_of_value natives m (num_val _) = some natives.num_class
class_of_value natives m (obj_val a) = let o = m.object a in o.class_of
class_of_value natives m false_val = some natives.bool_class
class_of_value natives m true_val = some natives.bool_class
class_of_value natives m null_val = some natives.null_class
class_of_value natives m undefined_val = none

-- `RUNTIME_ERROR` in the fiber of the loop.
unfoldable pub raise : Natives → ℕ → Machine → Outcome
raise natives fiber m =
    let stored = store_frame fiber m in
    or_fault stored.vm.fiber λ a. or_fault (runtime_error natives.fuel a stored.vm) λ vm.
      elim vm.fiber [
        | none ↦ runtime_failure (record stored { vm = vm })
        | some _ ↦ load_frame (record stored { vm = vm })
      ]

-- An error in `vm->fiber`, and `RUNTIME_ERROR`.
unfoldable pub fail : Natives → Value → ℕ → Machine → Outcome
unfolding raise
fail natives error fiber m =
    raise natives fiber (record m { vm = update_pointer m.vm.fiber (set_error error) m.vm })

unfoldable pub check_arity : ObjFn → ℕ → Bool
check_arity fn num_args = leb fn.arity (num_args - 1)

-- The stack pointer of C's interface is on the arguments during the call.
unfoldable pub call_foreign_method : Natives → ℕ → ℕ → ℕ → Machine → Machine
call_foreign_method natives function num_args fiber m =
    let start = length (stack_of fiber m) - num_args in
    let after = natives.call_foreign function start m in
    let stack = stack_of fiber after in
    set_stack fiber (drop (length stack - (start + 1)) stack) after

-- A primitive, which puts its result in the place of the receiver if it returns true.
unfoldable pub call_primitive_method : Natives → ℕ → ℕ → ℕ → Machine → Outcome
unfolding raise
call_primitive_method natives function num_args fiber m =
    let (done, after) = natives.call_primitive function (length (stack_of fiber m) - num_args) m in
    let stored = store_frame fiber after in
    if done
    then running (set_stack fiber (drop (num_args - 1) (stack_of fiber after)) after)
    else elim stored.vm.fiber [
      | none ↦ success stored
      | some a ↦
          let f = stored.vm.fibers a in
          let failed = raise natives fiber stored in
          let resumed = load_frame stored in if has_error f then failed else resumed
    ]

-- The `switch` over the type of the method; `receiver` is `args[0]`.
unfoldable pub call_method : Natives → Method → Value → ℕ → ℕ → Machine → Outcome
unfolding raise fail call_closure call_primitive_method call_foreign_method check_arity
call_method natives (primitive function) receiver num_args fiber m =
    call_primitive_method natives function num_args fiber m
call_method natives function_call receiver num_args fiber m = or_fault (address_of receiver) λ a.
    or_fault (as_closure (body_at m a)) λ closure. or_fault closure.fn λ f.
      or_fault (as_fn (body_at m f)) λ fn.
        if check_arity fn num_args
        then call_closure fiber a num_args (store_frame fiber m)
        else fail natives natives.too_few_arguments fiber m
call_method natives (foreign function) receiver num_args fiber m =
    let after = call_foreign_method natives function num_args fiber m in
    let f = after.vm.fibers fiber in
    if has_error f then raise natives fiber after else running after
call_method natives (block closure) receiver num_args fiber m =
    call_closure fiber closure num_args (store_frame fiber m)
call_method natives no_method receiver num_args fiber m = fault

abbrev pub is_missing : Method → Bool
is_missing no_method = true
is_missing (block _) = false
is_missing (primitive _) = false
is_missing (foreign _) = false
is_missing function_call = false

-- `completeCall`, for the class at an address.
unfoldable pub complete_call : Natives → ℕ → ℕ → ℕ → ℕ → Machine → Outcome
unfolding fail call_method
complete_call natives num_args symbol class fiber m =
    let stack = stack_of fiber m in
    or_fault (as_class (body_at m class)) λ c.
      or_fault (slot_at stack (length stack - num_args)) λ receiver.
        let method = method_of c symbol in
        if is_missing method
        then fail natives (natives.method_not_found class symbol) fiber m
        else call_method natives method receiver num_args fiber m

-- `RETURN` with the frame of the loop on the top of the fiber.
unfoldable pub return_from : ℕ → CallFrame → Machine → Outcome
return_from fiber frame m = elim (stack_of fiber m) [
  | [] ↦ fault
  | result ∷ rest ↦
      let closed = close fiber frame.stack_start m in
      let left =
        change_fiber fiber (λ f. record f { stack = rest; frames = drop 1 f.frames }) closed in
      let f = left.vm.fibers fiber in
      elim f.frames [
        | _ ∷ _ ↦
            let below = drop (length rest - frame.stack_start) rest in
            load_frame (set_stack fiber (result ∷ below) left)
        | [] ↦ elim f.caller [
          | none ↦ success (set_stack fiber (result ∷ []) left)
          | some c ↦
              let ended = change_fiber fiber (λ g. record g { caller = none }) left in
              let resumed = record ended { vm = record (ended.vm) { fiber = some c } } in
              load_frame (change_fiber c (λ g. record g { stack = set_top result g.stack }) resumed)
        ]
      ]
]
