-- ===== src/Interpreter/Enter.antt =====
-- ruwren-sys/src/wren_vm.c, `runInterpreter`: a call of a method that is written in the language.
use ruwren.Prelude.{
  ℕ, ◌+◌, ◌-◌, ◌/◌, ◌^◌, bit_or, ◌≤◌, ◌<◌, ◌≡◌, refl, ap, ◌∙◌, some, List, [], ◌∷◌, length, arith,
  ==_self,
}
use ruwren.Prelude.Bits.{bit_or-le}
use ruwren.Sequence.{power_of_2_ceil}
use ruwren.Values.{Value, block, ObjClosure, ObjFn}
use ruwren.Fibers.{CallFrame, Fiber}
use ruwren.Interpreter.State.{
  Machine, running, or_fault, then_, as_closure, as_fn, body_at, load_running, load_frame,
  change_fiber, stack_of, with_ip, store_frame,
}
use ruwren.Interpreter.Calls.{
  Natives, ensure_stack, append_call_frame, call_function, call_closure, call_method,
}

pub power_of_2_ceil-le : (n : ℕ) → n ≤ power_of_2_ceil n
unfolding power_of_2_ceil
power_of_2_ceil-le n =
    let n₀ = n - 1 in
    let n₁ = bit_or n₀ (n₀ / 2) in
    let n₂ = bit_or n₁ (n₁ / 2 ^ 2) in
    let n₃ = bit_or n₂ (n₂ / 2 ^ 4) in
    let n₄ = bit_or n₃ (n₃ / 2 ^ 8) in
    omega (
      arith,
      bit_or-le n₀ (n₀ / 2),
      bit_or-le n₁ (n₁ / 2 ^ 2),
      bit_or-le n₂ (n₂ / 2 ^ 4),
      bit_or-le n₃ (n₃ / 2 ^ 8),
      bit_or-le n₄ (n₄ / 2 ^ 16),
    )

-- The closure at an address and its function, which the loop loads with a frame.
pub record Loads (m : Machine) (closure : ℕ) (fn : ObjFn) : Type 0 where
  pub object : ObjClosure
  pub function : ℕ
  pub is_closure : as_closure (body_at m closure) ≡ some object
  pub has_function : object.fn ≡ some function
  pub is_function : as_fn (body_at m function) ≡ some fn

-- The new frame starts `num_args` slots below the top, and the one below has the `ip` of the loop.
pub record Calls (fiber closure : ℕ) (fn : ObjFn) (num_args : ℕ) (m m' : Machine) : Type 0 where
  pub same_fiber : m'.vm.fiber ≡ m.vm.fiber
  pub frames :
      (m'.vm.fibers fiber).frames
      ≡ record {
        ip = 0;
        arity = fn.arity;
        closure = closure;
        stack_start = length (stack_of fiber m) - num_args;
      }
        ∷ with_ip m.ip (m.vm.fibers fiber).frames
  pub same_stack : stack_of fiber m' ≡ stack_of fiber m
  pub at_start : m'.ip ≡ 0
  pub slots_fit : length (stack_of fiber m) + fn.max_slots ≤ (m'.vm.fibers fiber).stack_capacity
  pub frames_fit : length (m'.vm.fibers fiber).frames ≤ (m'.vm.fibers fiber).frame_capacity

-- A frame on the top of the running fiber is loaded.
pub load_frame-running :
    (m : Machine) (a : ℕ) (frame : CallFrame) (outer : List CallFrame) (fn : ObjFn)
    → m.vm.fiber ≡ some a
    → (m.vm.fibers a).frames ≡ frame ∷ outer
    → Loads m frame.closure fn
    → load_frame m ≡ running (record m { ip = frame.ip })
unfolding load_frame load_running or_fault
load_frame-running m a frame outer fn e f l =
    rw (e, then_, f, l.is_closure, l.has_function, l.is_function) refl

-- What a call makes of a fiber.
abbrev new_frame : ℕ → ObjFn → ℕ → Fiber → CallFrame
new_frame closure fn num_args f = record {
  ip = 0;
  arity = fn.arity;
  closure = closure;
  stack_start = length f.stack - num_args;
}

call_function-parts :
    (closure : ℕ) (fn : ObjFn) (num_args : ℕ) (f : Fiber)
    → ((call_function closure fn num_args f).frames ≡ new_frame closure fn num_args f ∷ f.frames)
      × ((call_function closure fn num_args f).stack ≡ f.stack)
unfolding call_function ensure_stack append_call_frame
call_function-parts closure fn num_args f = (ground arith, ground arith)

call_function-fits :
    (closure : ℕ) (fn : ObjFn) (num_args : ℕ) (f : Fiber)
    → length f.frames ≤ f.frame_capacity
    → 0 < f.frame_capacity
    → (length f.stack + fn.max_slots ≤ (call_function closure fn num_args f).stack_capacity)
      × (length (call_function closure fn num_args f).frames
          ≤ (call_function closure fn num_args f).frame_capacity)
unfolding call_function ensure_stack append_call_frame
call_function-fits closure fn num_args f less some_frame =
    (ground (arith, power_of_2_ceil-le (length f.stack + fn.max_slots)), ground arith)

pub change_fiber-same :
    (a : ℕ) (change : Fiber → Fiber) (m : Machine)
    → (change_fiber a change m).vm.fibers a ≡ change (m.vm.fibers a)
change_fiber-same a change m = (rw (==_self a) refl)

store_frame-fiber :
    (a : ℕ) (m : Machine)
    → (store_frame a m).vm.fibers a
      ≡ record (m.vm.fibers a) { frames = with_ip m.ip (m.vm.fibers a).frames }
unfolding store_frame
store_frame-fiber a m = (rw (==_self a) refl)

length-with_ip : (ip : ℕ) (frames : List CallFrame) → length (with_ip ip frames) ≡ length frames
length-with_ip ip [] = refl
length-with_ip ip (frame ∷ outer) = refl

pub Loads-same :
    (m m' : Machine) (closure : ℕ) (fn : ObjFn)
    → m'.object ≡ m.object
    → Loads m closure fn
    → Loads m' closure fn
Loads-same m m' closure fn same l = record {
  object = l.object;
  function = l.function;
  is_closure = ap (λ o. as_closure (o closure).body) same ∙ l.is_closure;
  has_function = l.has_function;
  is_function = ap (λ o. as_fn (o l.function).body) same ∙ l.is_function;
}

-- The machine in the called function.
abbrev entered : ℕ → ℕ → ObjFn → ℕ → Machine → Machine
entered fiber closure fn num_args m =
    record (change_fiber fiber (call_function closure fn num_args) m) { ip = 0 }

call_closure-running :
    (fiber closure num_args : ℕ) (fn : ObjFn) (m : Machine)
    → m.vm.fiber ≡ some fiber
    → Loads m closure fn
    → call_closure fiber closure num_args m ≡ running (entered fiber closure fn num_args m)
unfolding call_closure or_fault
call_closure-running fiber closure num_args fn m e l =
    let called = change_fiber fiber (call_function closure fn num_args) m in
    let f = m.vm.fibers fiber in
    let inside = change_fiber-same fiber (call_function closure fn num_args) m in
    let frames = call_function-parts closure fn num_args f in
    rw (l.is_closure, l.has_function, l.is_function)
      (load_frame-running called fiber (new_frame closure fn num_args f) f.frames fn e
        (ap (λ h. h.frames) inside ∙ frames.0) (Loads-same m called closure fn refl l))

-- If the called method has a body whose closure and function are in place, the fiber is the
-- running one, and its frames fit into a capacity that is not 0, the call goes on at the start of
-- the function with the same stack: the new frame begins at the receiver, the frame below has kept
-- the caller's place, and the stack has room for all slots of the function, as the array of frames
-- has for the new frame.
pub call_method-Calls :
    (natives : Natives) (closure : ℕ) (receiver : Value) (num_args fiber : ℕ) (fn : ObjFn)
    (m : Machine)
    → m.vm.fiber ≡ some fiber
    → Loads m closure fn
    → length (m.vm.fibers fiber).frames ≤ (m.vm.fibers fiber).frame_capacity
    → 0 < (m.vm.fibers fiber).frame_capacity
    → (m' : Machine) × (call_method natives (block closure) receiver num_args fiber m ≡ running m')
      × Calls fiber closure fn num_args m m'
unfolding call_method store_frame
call_method-Calls natives closure receiver num_args fiber fn m e l less some_frame =
    let stored = store_frame fiber m in
    let f = m.vm.fibers fiber in
    let g : Fiber = record f { frames = with_ip m.ip f.frames } in
    let m' = entered fiber closure fn num_args stored in
    let inside : m'.vm.fibers fiber ≡ call_function closure fn num_args g =
      change_fiber-same fiber (call_function closure fn num_args) stored
      ∙ ap (call_function closure fn num_args) (store_frame-fiber fiber m) in
    let (frames, same_stack) = call_function-parts closure fn num_args g in
    let n = length-with_ip m.ip f.frames in
    let (slots, fits) =
      call_function-fits closure fn num_args g (omega (arith, n, less)) some_frame in
    (
      m',
      call_closure-running fiber closure num_args fn stored e
          (Loads-same m stored closure fn refl l),
      record {
        same_fiber = refl;
        frames = ap (λ h. h.frames) inside ∙ frames;
        same_stack = ap (λ h. h.stack) inside ∙ same_stack;
        at_start = refl;
        slots_fit = rw inside slots;
        frames_fit = rw inside fits;
      },
    )
