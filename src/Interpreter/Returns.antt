-- ===== src/Interpreter/Returns.antt =====
-- ruwren-sys/src/wren_vm.c, `runInterpreter`: the return from a method that is written in the
-- language.
use ruwren.Prelude.{
  ℕ, ◌-◌, ◌≡◌, refl, ap, ◌∙◌, some, List, [], ◌∷◌, ◌++◌, length, length-append, drop, arith,
  ==_self,
}
use ruwren.Values.{Value, ObjFn}
use ruwren.Fibers.{CallFrame}
use ruwren.Interpreter.State.{
  Machine, running, load_frame, change_fiber, stack_of, set_stack, close,
}
use ruwren.Interpreter.Calls.{return_from}
use ruwren.Interpreter.Enter.{Loads, Loads-same, load_frame-running, change_fiber-same}

-- What the loop goes on with behind a call.
pub record Resumes (fiber ip : ℕ) (result : Value) (below : List Value) (m m' : Machine)
    : Type 0 where
  pub same_fiber : m'.vm.fiber ≡ some fiber
  pub frames : (m'.vm.fibers fiber).frames ≡ drop 1 (m.vm.fibers fiber).frames
  pub stack : stack_of fiber m' ≡ result ∷ below
  pub behind : m'.ip ≡ ip

drop-append_all : (xs ys : List Value) → drop (length xs) (xs ++ ys) ≡ ys
drop-append_all [] ys = refl
drop-append_all (x ∷ xs) ys = drop-append_all xs ys

close-frames :
    (a last : ℕ) (m : Machine) → ((close a last m).vm.fibers a).frames ≡ (m.vm.fibers a).frames
unfolding close
close-frames a last m = (rw (==_self a) refl)

close-object :
    (a last : ℕ) (m : Machine)
    → ((close a last m).object ≡ m.object) × ((close a last m).vm.fiber ≡ m.vm.fiber)
unfolding close
close-object a last m = (refl, refl)

-- The machine without the frame on the top, and without the result and the slots of that frame.
abbrev left_frame : ℕ → List Value → Machine → Machine
left_frame fiber rest m =
    change_fiber fiber (λ f. record f { stack = rest; frames = drop 1 f.frames }) m

return_from-left :
    (fiber : ℕ) (callee frame : CallFrame) (outer : List CallFrame) (result : Value)
    (rest : List Value) (m : Machine)
    → stack_of fiber m ≡ result ∷ rest
    → ((left_frame fiber rest (close fiber callee.stack_start m)).vm.fibers fiber).frames
      ≡ frame ∷ outer
    → return_from fiber callee m
      ≡ load_frame (
          set_stack fiber
            (result ∷ drop (length rest - callee.stack_start) rest)
            (left_frame fiber rest (close fiber callee.stack_start m)))
unfolding return_from
return_from-left fiber callee frame outer result rest m s f = rw (return_from, s, f) refl

-- If the running fiber has a frame below the one that returns, whose closure and function are in
-- place, and the frame that returns starts above certain slots, the loop goes on in that lower
-- frame at the place it has kept, and the stack is those slots and the result, whatever the
-- function has left above them.
pub return_from-Resumes :
    (fiber : ℕ) (callee frame : CallFrame) (outer : List CallFrame) (fn : ObjFn) (result : Value)
    (temporaries below : List Value) (m : Machine)
    → m.vm.fiber ≡ some fiber
    → (m.vm.fibers fiber).frames ≡ callee ∷ frame ∷ outer
    → stack_of fiber m ≡ result ∷ temporaries ++ below
    → callee.stack_start ≡ length below
    → Loads m frame.closure fn
    → (m' : Machine) × (return_from fiber callee m ≡ running m')
      × Resumes fiber frame.ip result below m m'
return_from-Resumes fiber callee frame outer fn result temporaries below m e f s start l =
    let rest = temporaries ++ below in
    let closed = close fiber callee.stack_start m in
    let (objects, in_fiber) = close-object fiber callee.stack_start m in
    let left = left_frame fiber rest closed in
    let kept = drop (length rest - callee.stack_start) rest in
    let last = set_stack fiber (result ∷ kept) left in
    let in_left =
      change_fiber-same fiber (λ g. record g { stack = rest; frames = drop 1 g.frames }) closed in
    let popped : (left.vm.fibers fiber).frames ≡ drop 1 (m.vm.fibers fiber).frames =
      ap (λ g. g.frames) in_left ∙ ap (drop 1) (close-frames fiber callee.stack_start m) in
    let in_last = change_fiber-same fiber (λ g. record g { stack = result ∷ kept }) left in
    let frames : (last.vm.fibers fiber).frames ≡ drop 1 (m.vm.fibers fiber).frames =
      ap (λ g. g.frames) in_last ∙ popped in
    let n = length-append temporaries below in
    let all : length rest - callee.stack_start ≡ length temporaries = omega (arith, n, start) in
    let below_kept : kept ≡ below = rw all (drop-append_all temporaries below) in
    (
      record last { ip = frame.ip },
      return_from-left fiber callee frame outer result rest m s (popped ∙ ap (drop 1) f)
          ∙ load_frame-running last fiber frame outer fn (in_fiber ∙ e) (frames ∙ ap (drop 1) f)
              (Loads-same m last frame.closure fn objects l),
      record {
        same_fiber = in_fiber ∙ e;
        frames = frames;
        stack = ap (λ g. g.stack) in_last ∙ ap (λ xs. result ∷ xs) below_kept;
        behind = refl;
      },
    )
