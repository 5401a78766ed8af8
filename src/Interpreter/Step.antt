-- ===== src/Interpreter/Step.antt =====
-- ruwren-sys/src/wren_vm.c: what each case of `runInterpreter` does, and a round of its loop. `ip`
-- is behind the opcode.
use ruwren.Prelude.{
  ℕ, zero, suc, ◌+◌, Bool, not, Option, none, some, List, [], ◌∷◌, ltb, leb, ◌==◌, if◌then◌else◌,
  length, get_elem?, get_or, set,
}
use ruwren.Emit.{read_short, jump_target, loop_target, argument_bytes}
use ruwren.Values.{
  Value, null_val, false_val, true_val, obj_val, closure_obj, instance_obj, module_obj, Object,
}
use ruwren.Interpreter.State.{
  Machine, Running, Outcome, running, success, runtime_failure, fault, or_fault, then_, as_class,
  as_fn, as_module, address_of, change_fiber, load_frame, body_at, first, load_running, set_stack,
  advance, set_slot, capture, close, load_upvalue_at, store_upvalue_at, allocate, set_body,
}
use ruwren.Fibers.{fiber_root}
use ruwren.Interpreter.Calls.{Natives, class_of_value, complete_call, return_from}
use ruwren.Interpreter.Instructions.{
  Instruction, constant, null_, false_, true_, load_local_n, load_local, store_local, load_upvalue,
  store_upvalue, load_module_var, store_module_var, load_field_this, store_field_this, load_field,
  store_field, pop_, call, super_, jump, loop, jump_if, and_, or_, close_upvalue, return_, closure_,
  construct, end_module, define, decode, is_falsy, new_fields, byte, short, stack, local_at, push,
  pushed, field_of, with_field,
}

-- The loop of `CLOSURE` with `n` upvalues left: the upvalues, and the machine behind their bytes.
unfoldable pub capture_upvalues : ℕ → Running → Machine → Option (List (Option ℕ) × Machine)
capture_upvalues zero r m = some ([], m)
capture_upvalues (suc n) r m =
    let fn = r.fn in
    let closure = r.closure in
    let frame = r.frame in
    let index = get_or fn.code (m.ip + 1) 0 in
    let (captured, m₁) = capture r.fiber (frame.stack_start + index) m in
    let from_stack = capture_upvalues n r (advance 2 m₁) in
    let from_closure = capture_upvalues n r (advance 2 m) in
    if get_or fn.code m.ip 0 == 0
    then then_ (get_elem? closure.upvalues index)
        (λ u. then_ from_closure (λ (rest, m'). some (u ∷ rest, m')))
    else then_ from_stack λ (rest, m'). some (some captured ∷ rest, m')

unfoldable pub make_closure : Natives → Running → Machine → Outcome
unfolding capture_upvalues
make_closure natives r m =
    let fn = r.fn in
    or_fault (get_elem? fn.constants (short r m)) λ value. or_fault (address_of value) λ a.
      or_fault (as_fn (body_at m a)) λ function.
        let empty : Object = record {
          class_of = some natives.fn_class;
          body = closure_obj (record { fn = some a; upvalues = [] });
        } in
        let (made, m₁) = allocate empty m in
        or_fault (capture_upvalues function.num_upvalues r (advance 2 (push r m (obj_val made) m₁)))
          λ (upvalues, m₂).
            running (set_body made (closure_obj (record { fn = some a; upvalues = upvalues })) m₂)

-- `JUMP_IF`, `AND` and `OR`, with the condition and the stack below it: whether to jump, and the
-- stack for going on.
abbrev pub branch : Running → Machine → Bool → List Value → List Value → Outcome
branch r m jumps there here =
    let fn = r.fn in
    let target = jump_target fn.code m.ip in
    let jumped = set_stack r.fiber there (record m { ip = target }) in
    let passed = set_stack r.fiber here (advance 2 m) in
    if jumps then running jumped else running passed

abbrev pub popped : Running → Machine → (Value → List Value → Outcome) → Outcome
popped r m k = elim (stack r m) [ [] ↦ fault | v ∷ rest ↦ k v rest ]

-- `CLOSURE` is followed by two bytes for each upvalue of its function.
abbrev pub upvalues_of : Running → Machine → ℕ → ℕ
upvalues_of r m i =
    let fn = r.fn in
    elim (then_ (get_elem? fn.constants i)
      λ value. then_ (address_of value) λ a. as_fn (body_at m a)) [
        | none ↦ 0
        | some function ↦ function.num_upvalues
      ]

module _ (natives : Natives) where
  unfoldable pub execute : Instruction → Running → Machine → Outcome
  unfolding make_closure
  execute constant r m = let fn = r.fn in pushed r m 2 (get_elem? fn.constants (short r m))
  execute null_ r m = pushed r m 0 (some null_val)
  execute false_ r m = pushed r m 0 (some false_val)
  execute true_ r m = pushed r m 0 (some true_val)
  execute (load_local_n n) r m = pushed r m 0 (local_at r m n)
  execute load_local r m = pushed r m 1 (local_at r m (byte r m))
  execute store_local r m =
      let frame = r.frame in
      popped r m λ value rest.
        or_fault (set_slot (value ∷ rest) (frame.stack_start + byte r m) value)
          λ stored. running (advance 1 (set_stack r.fiber stored m))
  execute load_upvalue r m =
      let closure = r.closure in
      pushed r m 1
        (then_ (get_elem? closure.upvalues (byte r m)) λ u. then_ u λ a. load_upvalue_at a m)
  execute store_upvalue r m =
      let closure = r.closure in
      popped r m λ value rest. or_fault (get_elem? closure.upvalues (byte r m)) λ u.
        or_fault u λ a. or_fault (store_upvalue_at a value m) λ stored. running (advance 1 stored)
  execute load_module_var r m =
      let fn = r.fn in
      pushed r m 2 (then_ (as_module (body_at m fn.module_)) λ o. get_elem? o.variables (short r m))
  execute store_module_var r m =
      let fn = r.fn in
      popped r m λ value rest. or_fault (as_module (body_at m fn.module_)) λ o.
        if ltb (short r m) (length o.variables)
        then running (
            advance 2 (
              set_body fn.module_
                (module_obj (record o { variables = set o.variables (short r m) value })) m))
        else fault
  execute load_field_this r m =
      pushed r m 1 (then_ (local_at r m 0) λ receiver. field_of r m receiver (byte r m))
  execute store_field_this r m = popped r m λ value rest. or_fault (local_at r m 0) λ receiver.
      or_fault (with_field r m receiver (byte r m) value m) λ stored. running (advance 1 stored)
  execute load_field r m = popped r m λ receiver rest.
      or_fault (field_of r m receiver (byte r m))
        λ v. running (advance 1 (set_stack r.fiber (v ∷ rest) m))
  execute store_field r m = popped r m λ receiver rest. or_fault (first rest) λ value.
      or_fault (with_field r m receiver (byte r m) value (set_stack r.fiber rest m))
        λ stored. running (advance 1 stored)
  execute pop_ r m = popped r m λ _ rest. running (set_stack r.fiber rest m)
  execute (call n) r m = or_fault (get_elem? (stack r m) n) λ receiver.
      or_fault (class_of_value natives m receiver)
        λ class. complete_call natives (n + 1) (short r m) class r.fiber (advance 2 m)
  execute (super_ n) r m =
      let fn = r.fn in
      or_fault (get_elem? fn.constants (read_short fn.code (m.ip + 2))) λ value.
        or_fault (address_of value)
          λ class. complete_call natives (n + 1) (short r m) class r.fiber (advance 4 m)
  execute jump r m = let fn = r.fn in running (record m { ip = jump_target fn.code m.ip })
  execute loop r m =
      let fn = r.fn in
      if leb (short r m) (m.ip + 2)
      then running (record m { ip = loop_target fn.code m.ip })
      else fault
  execute jump_if r m = popped r m λ v rest. branch r m (is_falsy v) rest rest
  execute and_ r m = popped r m λ v rest. branch r m (is_falsy v) (v ∷ rest) rest
  execute or_ r m = popped r m λ v rest. branch r m (not (is_falsy v)) (v ∷ rest) rest
  execute close_upvalue r m =
      popped r m λ v rest. running (set_stack r.fiber rest (close r.fiber (length rest) m))
  execute return_ r m = return_from r.fiber r.frame m
  execute closure_ r m = make_closure natives r m
  execute construct r m =
      let frame = r.frame in
      or_fault (local_at r m 0) λ receiver. or_fault (address_of receiver) λ a.
        or_fault (as_class (body_at m a)) λ c.
          let (made, m₁) =
            allocate (record { class_of = some a; body = instance_obj (new_fields c) }) m in
          or_fault (set_slot (stack r m) frame.stack_start (obj_val made))
            λ stored. running (set_stack r.fiber stored m₁)
  execute end_module r m =
      let fn = r.fn in running (push r m null_val (record m { last_module = some fn.module_ }))
  execute (define op) r m = natives.call_definition op r.fiber m

  -- An instruction whose opcode or arguments are not inside the code is a fault.
  unfoldable pub step : Machine → Outcome
  unfolding execute
  step m = or_fault (load_running m) λ r.
      let fn = r.fn in
      or_fault (get_elem? fn.code m.ip) λ op. or_fault (decode op) λ instruction.
        if leb (m.ip + 1 + argument_bytes (upvalues_of r m) fn.code m.ip) (length fn.code)
        then execute instruction r (advance 1 m)
        else fault

  -- Rounds of the loop, as long as it goes on.
  unfoldable pub run : ℕ → Machine → Outcome
  run zero m = running m
  run (suc rounds) m = elim (step m) [
    | running m' ↦ run rounds m'
    | success m' ↦ success m'
    | runtime_failure m' ↦ runtime_failure m'
    | fault ↦ fault
  ]

  -- `runInterpreter`, as far as this many rounds take it.
  unfoldable pub run_interpreter : ℕ → ℕ → Machine → Outcome
  unfolding run
  run_interpreter rounds fiber m =
      let entered = change_fiber fiber (λ f. record f { state = fiber_root }) m in
      elim (load_frame (record entered { vm = record (entered.vm) { fiber = some fiber } })) [
        | running m' ↦ run rounds m'
        | success m' ↦ success m'
        | runtime_failure m' ↦ runtime_failure m'
        | fault ↦ fault
      ]
