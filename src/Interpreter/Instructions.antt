-- ===== src/Interpreter/Instructions.antt =====
-- ruwren-sys/src/wren_opcodes.h and wren_vm.c: the instructions, and what each case of
-- `runInterpreter` does.
use ruwren.Prelude.{
  ℕ, ◌+◌, ◌-◌, Bool, true, false, Option, none, some, List, [], ◌∷◌, ltb, leb, ◌==◌, if◌then◌else◌,
  length, get_elem?, get_or, set, replicate,
}
use ruwren.Prelude.Int.{pos, negsuc}
use ruwren.Emit.{read_short}
use ruwren.Values.{
  Value, null_val, false_val, true_val, undefined_val, num_val, obj_val, ObjClass, instance_obj,
}
use ruwren.Interpreter.State.{
  Machine, Running, Outcome, running, or_fault, then_, as_fields, as_module, address_of, body_at,
  stack_of, set_stack, advance, slot_at, set_body,
}

-- The opcodes, with a number for those of a family; `define` is any other that defines a class or
-- imports a module.
pub data Instruction : Type 0 where
  constant null_ false_ true_ : Instruction
  load_local_n : ℕ → Instruction
  load_local store_local load_upvalue store_upvalue load_module_var : Instruction
  store_module_var load_field_this store_field_this load_field store_field pop_ : Instruction
  call super_ : ℕ → Instruction
  jump loop jump_if and_ or_ close_upvalue return_ closure_ construct end_module : Instruction
  define : ℕ → Instruction

unfoldable pub decode : ℕ → Option Instruction
decode op =
    if op == 0
    then some constant
    else if op == 1
    then some null_
    else if op == 2
    then some false_
    else if op == 3
    then some true_
    else if leb op 12
    then some (load_local_n (op - 4))
    else if op == 13
    then some load_local
    else if op == 14
    then some store_local
    else if op == 15
    then some load_upvalue
    else if op == 16
    then some store_upvalue
    else if op == 17
    then some load_module_var
    else if op == 18
    then some store_module_var
    else if op == 19
    then some load_field_this
    else if op == 20
    then some store_field_this
    else if op == 21
    then some load_field
    else if op == 22
    then some store_field
    else if op == 23
    then some pop_
    else if leb op 40
    then some (call (op - 24))
    else if leb op 57
    then some (super_ (op - 41))
    else if op == 58
    then some jump
    else if op == 59
    then some loop
    else if op == 60
    then some jump_if
    else if op == 61
    then some and_
    else if op == 62
    then some or_
    else if op == 63
    then some close_upvalue
    else if op == 64
    then some return_
    else if op == 65
    then some closure_
    else if op == 66
    then some construct
    else if leb op 72
    then some (define op)
    else if op == 73
    then some end_module
    else if leb op 75
    then some (define op)
    else none

abbrev pub is_falsy : Value → Bool
is_falsy false_val = true
is_falsy null_val = true
is_falsy true_val = false
is_falsy undefined_val = false
is_falsy (num_val _) = false
is_falsy (obj_val _) = false

-- `wrenNewInstance`.
abbrev pub new_fields : ObjClass → List Value
new_fields c = elim c.num_fields [ pos n ↦ replicate n null_val | negsuc _ ↦ [] ]

module _ (r : Running) (m : Machine) where
  abbrev pub byte : ℕ
  byte = let fn = r.fn in get_or fn.code m.ip 0

  abbrev pub short : ℕ
  short = let fn = r.fn in read_short fn.code m.ip

  abbrev pub stack : List Value
  stack = stack_of r.fiber m

  abbrev pub local_at : ℕ → Option Value
  local_at i = let frame = r.frame in slot_at stack (frame.stack_start + i)

  abbrev pub push : Value → Machine → Machine
  push v after = set_stack r.fiber (v ∷ stack_of r.fiber after) after

  -- With `n` bytes of arguments read.
  abbrev pub pushed : ℕ → Option Value → Outcome
  pushed n value = or_fault value λ v. running (advance n (push v m))

  abbrev pub fields_of : Value → Option (ℕ × List Value)
  fields_of receiver =
      then_ (address_of receiver) λ a. then_ (as_fields (body_at m a)) λ fields. some (a, fields)

  abbrev pub field_of : Value → ℕ → Option Value
  field_of receiver i = then_ (fields_of receiver) λ (a, fields). get_elem? fields i

  abbrev pub with_field : Value → ℕ → Value → Machine → Option Machine
  with_field receiver i value after = then_ (fields_of receiver) λ (a, fields).
      if ltb i (length fields)
      then some (set_body a (instance_obj (set fields i value)) after)
      else none

  abbrev pub module_of : Option (ℕ × List Value)
  module_of =
      let fn = r.fn in then_ (as_module (body_at m fn.module_)) λ o. some (fn.module_, o.variables)
