-- ===== src/Fibers.antt =====
-- Switching between fibers: `runFiber` and the primitives of fibers of ruwren-sys/src/wren_core.c,
-- and `runtimeError` of wren_vm.c. A fiber is known by its address. While a primitive runs,
-- `vm->fiber` is the fiber `running`; `value` is `args[1]`.
pub mod Calls
pub mod Errors
use ruwren.Prelude.{
  ℕ, zero, suc, ◌+◌, Bool, true, false, ◌&&◌, not, Option, none, some, List, [], ◌∷◌, ◌==◌,
  if◌then◌else◌,
}
use ruwren.Values.{Value, null_val, false_val, true_val, undefined_val, num_val, obj_val}

pub data FiberState : Type 0 where
  fiber_try fiber_root fiber_other : FiberState

-- `ip` is its distance from the first byte of code, and `arity` that of the closure's function.
-- `stack_start` is the number of slots below the frame.
pub record CallFrame : Type 0 where
  pub ip : ℕ
  pub arity : ℕ
  pub closure : ℕ
  pub stack_start : ℕ

-- The stack below `stackTop` and the call frames, each with the top first; `open_upvalues` is the
-- chain from the first.
pub record Fiber : Type 0 where
  pub stack : List Value
  pub stack_capacity : ℕ
  pub frames : List CallFrame
  pub frame_capacity : ℕ
  pub open_upvalues : List ℕ
  pub caller : Option ℕ
  pub error : Value
  pub state : FiberState

pub record Vm : Type 0 where
  pub fiber : Option ℕ
  pub fibers : ℕ → Fiber

-- The messages of `runFiber`, without its verb.
pub data FiberMessage : Type 0 where
  aborted_fiber already_called root_called finished_fiber : FiberMessage

abbrev pub is_null : Value → Bool
is_null null_val = true
is_null false_val = false
is_null true_val = false
is_null undefined_val = false
is_null (num_val _) = false
is_null (obj_val _) = false

abbrev pub is_none : Option ℕ → Bool
is_none none = true
is_none (some _) = false

abbrev pub is_root : FiberState → Bool
is_root fiber_root = true
is_root fiber_try = false
is_root fiber_other = false

abbrev pub is_try : FiberState → Bool
is_try fiber_try = true
is_try fiber_root = false
is_try fiber_other = false

abbrev pub is_empty : List CallFrame → Bool
is_empty [] = true
is_empty (_ ∷ _) = false

unfoldable pub has_error : Fiber → Bool
has_error f = not (is_null f.error)

-- A change to the fiber at `a`.
abbrev pub update : ℕ → (Fiber → Fiber) → Vm → Vm
update a change vm = record vm {
  fibers = λ b. if b == a then change (vm.fibers b) else vm.fibers b;
}

-- `stackTop--`, and `stackTop[-1] = value`, on a stack that is not empty.
abbrev pub pop : List Value → List Value
pop [] = []
pop (_ ∷ rest) = rest

abbrev pub set_top : Value → List Value → List Value
set_top value [] = []
set_top value (_ ∷ rest) = value ∷ rest

abbrev pub set_error : Value → Fiber → Fiber
set_error value f = record f { error = value }

-- A change to a fiber by a pointer to it.
abbrev pub update_pointer : Option ℕ → (Fiber → Fiber) → Vm → Vm
update_pointer none change vm = vm
update_pointer (some a) change vm = update a change vm

unfoldable pub trying : Fiber → Fiber
trying f = if has_error f then f else record f { state = fiber_try }

-- What the fiber gets that is started or resumed.
unfoldable pub receive : Value → Fiber → Fiber
receive value f = elim f.frames [
  | [] ↦ record f { stack = set_top value f.stack }
  | frame ∷ outer ↦
      if is_empty outer && frame.ip == 0
      then (if frame.arity == 1 then record f { stack = value ∷ f.stack } else f)
      else record f { stack = set_top value f.stack }
]

-- `message` makes the string of an error.
module _ (message : FiberMessage → Value) where
  unfoldable pub fail_fiber : FiberMessage → ℕ → Vm → Bool × Vm
  fail_fiber m running vm = (false, update running (set_error (message m)) vm)

  -- `runFiber` from the test for a finished fiber on.
  unfoldable pub switch_fiber : ℕ → Value → Bool → ℕ → Vm → Bool × Vm
  unfolding fail_fiber
  switch_fiber fiber value has_value running vm =
      let popped =
        if has_value then update running (λ f. record f { stack = pop f.stack }) vm else vm in
      let given = if has_value then value else null_val in
      let received = update fiber (receive given) popped in
      if is_empty (vm.fibers fiber).frames
      then fail_fiber finished_fiber running vm
      else (false, record received { fiber = some fiber })

  unfoldable pub run_fiber : ℕ → Value → Bool → Bool → ℕ → Vm → Bool × Vm
  unfolding fail_fiber switch_fiber
  run_fiber fiber value is_call has_value running vm =
      let f = vm.fibers fiber in
      let called = update fiber (λ g. record g { caller = some running }) vm in
      if has_error f
      then fail_fiber aborted_fiber running vm
      else if not is_call
      then switch_fiber fiber value has_value running vm
      else if not (is_none f.caller)
      then fail_fiber already_called running vm
      else if is_root f.state
      then fail_fiber root_called running vm
      else switch_fiber fiber value has_value running called

  unfoldable pub fiber_call : ℕ → ℕ → Vm → Bool × Vm
  unfolding run_fiber
  fiber_call fiber running vm = run_fiber fiber null_val true false running vm

  unfoldable pub fiber_call1 : ℕ → Value → ℕ → Vm → Bool × Vm
  unfolding run_fiber
  fiber_call1 fiber value running vm = run_fiber fiber value true true running vm

  unfoldable pub fiber_transfer : ℕ → ℕ → Vm → Bool × Vm
  unfolding run_fiber
  fiber_transfer fiber running vm = run_fiber fiber null_val false false running vm

  unfoldable pub fiber_transfer1 : ℕ → Value → ℕ → Vm → Bool × Vm
  unfolding run_fiber
  fiber_transfer1 fiber value running vm = run_fiber fiber value false true running vm

  unfoldable pub fiber_transfer_error : ℕ → Value → ℕ → Vm → Bool × Vm
  unfolding run_fiber
  fiber_transfer_error fiber value running vm =
      let (_, vm') = run_fiber fiber value false true running vm in
      (false, update_pointer vm'.fiber (set_error value) vm')

  unfoldable pub fiber_try0 : ℕ → ℕ → Vm → Bool × Vm
  unfolding run_fiber
  fiber_try0 fiber running vm =
      let (_, vm') = run_fiber fiber null_val true false running vm in
      (false, update_pointer vm'.fiber trying vm')

  unfoldable pub fiber_try1 : ℕ → Value → ℕ → Vm → Bool × Vm
  unfolding run_fiber
  fiber_try1 fiber value running vm =
      let (_, vm') = run_fiber fiber value true true running vm in
      (false, update_pointer vm'.fiber trying vm')

unfoldable pub fiber_abort : Value → ℕ → Vm → Bool × Vm
fiber_abort value running vm = (is_null value, update running (set_error value) vm)

unfoldable pub fiber_is_done : ℕ → Vm → Bool
fiber_is_done fiber vm = let f = vm.fibers fiber in if is_empty f.frames then true else has_error f

unfoldable pub fiber_suspend : Vm → Bool × Vm
fiber_suspend vm = (false, record vm { fiber = none })

abbrev pub unhook : Fiber → Fiber
unhook f = record f { caller = none; state = fiber_other }

unfoldable pub fiber_yield : ℕ → Vm → Bool × Vm
fiber_yield running vm =
    let caller = (vm.fibers running).caller in
    let unhooked = record (update running unhook vm) { fiber = caller } in
    elim caller [
      | none ↦ (false, unhooked)
      | some a ↦ (false, update a (λ f. record f { stack = set_top null_val f.stack }) unhooked)
    ]

unfoldable pub fiber_yield1 : Value → ℕ → Vm → Bool × Vm
fiber_yield1 value running vm =
    let caller = (vm.fibers running).caller in
    let unhooked = record (update running unhook vm) { fiber = caller } in
    elim caller [
      | none ↦ (false, unhooked)
      | some a ↦
          let told = update a (λ f. record f { stack = set_top value f.stack }) unhooked in
          (false, update running (λ f. record f { stack = pop f.stack }) told)
    ]

-- The loop of `runtimeError` at the fiber `a`; `none` means that the fuel ran out. The stack trace
-- is left out. A fiber in the state of a try has a caller.
unfoldable pub unwind : ℕ → Value → Option ℕ → Vm → Option Vm
unwind fuel error none vm = some (record vm { fiber = none })
unwind zero error (some a) vm = none
unwind (suc fuel) error (some a) vm =
    let aborted = update a (set_error error) vm in
    let caller = (vm.fibers a).caller in
    let caught = update_pointer caller (λ f. record f { stack = set_top error f.stack }) aborted in
    let further = unwind fuel error caller (update a (λ f. record f { caller = none }) aborted) in
    if is_try (vm.fibers a).state then some (record caught { fiber = caller }) else further

unfoldable pub runtime_error : ℕ → ℕ → Vm → Option Vm
runtime_error fuel running vm = unwind fuel (vm.fibers running).error (some running) vm
