-- ===== src/Interpreter/State.antt =====
-- ruwren-sys/src/wren_vm.c, `runInterpreter`: the state of the machine, and the macros by which its
-- instructions read and write it.
use ruwren.Prelude.{
  ℕ, ◌+◌, ◌-◌, Option, none, some, List, [], ◌∷◌, ◌++◌, ltb, ◌==◌, if◌then◌else◌, length, get_elem?,
  set,
}
use ruwren.Values.{
  Value, null_val, obj_val, ObjClass, ObjClosure, ObjFn, ObjModule, Body, class_obj, closure_obj,
  fn_obj, instance_obj, module_obj, Object,
}
use ruwren.Capture.{
  stack_slot, own_field, ObjUpvalue, Upvalues, write, capture_upvalue, close_upvalues,
}
use ruwren.Fibers.{CallFrame, Fiber, Vm, update}

-- Objects stand at the addresses below `allocated`, and upvalues at those below
-- `allocated_upvalues`; `owner` is the fiber into whose stack an open upvalue points. `ip` is the
-- local variable of the loop: the one of a call frame is only up to date after `STORE_FRAME`.
pub record Machine : Type 0 where
  pub vm : Vm
  pub object : ℕ → Object
  pub allocated : ℕ
  pub upvalue : ℕ → ObjUpvalue Value
  pub allocated_upvalues : ℕ
  pub owner : ℕ → ℕ
  pub last_module : Option ℕ
  pub ip : ℕ

-- The other local variables of the loop: `fiber`, the frame on its top, its closure and `fn`.
pub record Running : Type 0 where
  pub fiber : ℕ
  pub frame : CallFrame
  pub closure : ObjClosure
  pub fn : ObjFn

-- How a part of the loop ends: it goes on, or `runInterpreter` returns. A `fault` is a failed
-- assertion, or an access outside of an array.
pub data Outcome : Type 0 where
  running : Machine → Outcome
  success : Machine → Outcome
  runtime_failure : Machine → Outcome
  fault : Outcome

unfoldable pub or_fault : {A : Type 0} → Option A → (A → Outcome) → Outcome
or_fault none k = fault
or_fault (some a) k = k a

abbrev pub then_ : {A B : Type 0} → Option A → (A → Option B) → Option B
then_ none k = none
then_ (some a) k = k a

abbrev pub as_class : Body → Option ObjClass
as_class (class_obj c) = some c
as_class _ = none

abbrev pub as_closure : Body → Option ObjClosure
as_closure (closure_obj c) = some c
as_closure _ = none

abbrev pub as_fn : Body → Option ObjFn
as_fn (fn_obj f) = some f
as_fn _ = none

abbrev pub as_fields : Body → Option (List Value)
as_fields (instance_obj fields) = some fields
as_fields _ = none

abbrev pub as_module : Body → Option ObjModule
as_module (module_obj o) = some o
as_module _ = none

abbrev pub address_of : Value → Option ℕ
address_of (obj_val a) = some a
address_of _ = none

abbrev pub body_at : Machine → ℕ → Body
body_at m a = let o = m.object a in o.body

abbrev pub first : {A : Type 0} → List A → Option A
first [] = none
first (a ∷ _) = some a

abbrev pub top_frame : Fiber → Option CallFrame
top_frame f = first f.frames

-- `LOAD_FRAME` but for `ip`.
unfoldable pub load_running : Machine → Option Running
load_running m = then_ m.vm.fiber λ a. then_ (top_frame (m.vm.fibers a)) λ frame.
    then_ (as_closure (body_at m frame.closure)) λ closure. then_ closure.fn λ f.
      then_ (as_fn (body_at m f))
        λ fn. some (record { fiber = a; frame = frame; closure = closure; fn = fn })

unfoldable pub load_frame : Machine → Outcome
load_frame m = or_fault (load_running m) λ r. running (record m { ip = r.frame.ip })

abbrev pub change_fiber : ℕ → (Fiber → Fiber) → Machine → Machine
change_fiber a change m = record m { vm = update a change m.vm }

abbrev pub stack_of : ℕ → Machine → List Value
stack_of a m = let f = m.vm.fibers a in f.stack

abbrev pub set_stack : ℕ → List Value → Machine → Machine
set_stack a stack m = change_fiber a (λ f. record f { stack = stack }) m

abbrev pub advance : ℕ → Machine → Machine
advance n m = record m { ip = m.ip + n }

-- `STORE_FRAME`, in the frame on the top of the fiber.
abbrev pub with_ip : ℕ → List CallFrame → List CallFrame
with_ip ip [] = []
with_ip ip (frame ∷ outer) = record frame { ip = ip } ∷ outer

unfoldable pub store_frame : ℕ → Machine → Machine
store_frame a m = change_fiber a (λ f. record f { frames = with_ip m.ip f.frames }) m

-- The slots of a stack, counted from the bottom.
abbrev pub slot_at : List Value → ℕ → Option Value
slot_at stack i = if ltb i (length stack) then get_elem? stack (length stack - 1 - i) else none

abbrev pub set_slot : List Value → ℕ → Value → Option (List Value)
set_slot stack i value =
    if ltb i (length stack) then some (set stack (length stack - 1 - i) value) else none

-- The stack with the bottom first, as the chain of upvalues counts its slots.
unfoldable pub from_bottom : List Value → List Value
from_bottom [] = []
from_bottom (v ∷ rest) = from_bottom rest ++ v ∷ []

unfoldable pub capture : ℕ → ℕ → Machine → ℕ × Machine
capture fiber slot m =
    let f = m.vm.fibers fiber in
    let open_before : Upvalues Value = record {
      object = m.upvalue;
      allocated = m.allocated_upvalues;
      open_upvalues = f.open_upvalues;
    } in
    let (u, after) = capture_upvalue null_val slot open_before in
    (
      u,
      record (change_fiber fiber (λ g. record g { open_upvalues = after.open_upvalues }) m) {
        upvalue = after.object;
        allocated_upvalues = after.allocated;
        owner = λ b. if b == m.allocated_upvalues then fiber else m.owner b;
      },
    )

unfoldable pub close : ℕ → ℕ → Machine → Machine
close fiber last m =
    let f = m.vm.fibers fiber in
    let open_before : Upvalues Value = record {
      object = m.upvalue;
      allocated = m.allocated_upvalues;
      open_upvalues = f.open_upvalues;
    } in
    let after = close_upvalues null_val (from_bottom f.stack) last open_before in
    record (change_fiber fiber (λ g. record g { open_upvalues = after.open_upvalues }) m) {
      upvalue = after.object;
    }

-- `*upvalue->value`, and an assignment to it.
unfoldable pub load_upvalue_at : ℕ → Machine → Option Value
load_upvalue_at u m =
    let o = m.upvalue u in
    elim o.value [ stack_slot n ↦ slot_at (stack_of (m.owner u) m) n | own_field ↦ some o.closed ]

unfoldable pub store_upvalue_at : ℕ → Value → Machine → Option Machine
store_upvalue_at u value m =
    let o = m.upvalue u in
    elim o.value [
      | stack_slot n ↦
          then_ (set_slot (stack_of (m.owner u) m) n value)
            (λ stack. some (set_stack (m.owner u) stack m))
      | own_field ↦ some (record m { upvalue = write u (record o { closed = value }) m.upvalue })
    ]

-- A new object at the next address.
unfoldable pub allocate : Object → Machine → ℕ × Machine
allocate o m = (
  m.allocated,
  record m {
    object = λ b. if b == m.allocated then o else m.object b;
    allocated = m.allocated + 1;
  },
)

unfoldable pub set_body : ℕ → Body → Machine → Machine
set_body a body m = record m {
  object = λ b. if b == a then record (m.object b) { body = body } else m.object b;
}
