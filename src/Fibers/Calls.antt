-- ===== src/Fibers/Calls.antt =====
-- ruwren-sys/src/wren_core.c: calling a fiber, and yielding back from it.
use ruwren.Prelude.{
  ℕ, ◌≡◌, ◌≢◌, refl, true, false, ◌&&◌, Option, none, some, List, [], ◌∷◌, ◌==◌, arith, Bool-cases,
  inl, inr, ==_ne, ap, ◌∙◌, sym,
}
use ruwren.Values.{Value}
use ruwren.Fibers.{
  Fiber, CallFrame, Vm, FiberMessage, fiber_other, is_root, is_empty, has_error, update, pop,
  set_top, receive, fail_fiber, switch_fiber, run_fiber, fiber_call, fiber_call1, fiber_yield1,
  set_error, finished_fiber, already_called,
}

-- The fiber `f'` is `f` with another caller, and what it has got: a value that waits on the top of
-- its stack replaces what was there; a function that has not begun gets it as its parameter, or
-- not at all if it has none.
pub record Gets (caller : Option ℕ) (value : Value) (f f' : Fiber) : Type 0 where
  pub called : f'.caller ≡ caller
  pub same_frames : f'.frames ≡ f.frames
  pub same_state : (f'.state ≡ f.state) × (f'.error ≡ f.error)
  pub resumed :
      (frame below : CallFrame) (outer : List CallFrame)
      → f.frames ≡ frame ∷ below ∷ outer
      → f'.stack ≡ set_top value f.stack
  pub resumed_last :
      (frame : CallFrame) → f.frames ≡ frame ∷ [] → frame.ip ≢ 0 → f'.stack ≡ set_top value f.stack
  pub begun :
      (frame : CallFrame)
      → f.frames ≡ frame ∷ []
      → frame.ip ≡ 0
      → frame.arity ≡ 1
      → f'.stack ≡ value ∷ f.stack
  pub begun_without :
      (frame : CallFrame)
      → f.frames ≡ frame ∷ []
      → frame.ip ≡ 0
      → frame.arity ≢ 1
      → f'.stack ≡ f.stack

-- A fiber that may be called.
pub record IsCallable (f : Fiber) : Type 0 where
  pub no_error : has_error f ≡ false
  pub no_caller : f.caller ≡ none
  pub not_root : is_root f.state ≡ false
  pub not_finished : is_empty f.frames ≡ false

update-same :
    (a : ℕ) (change : Fiber → Fiber) (vm : Vm)
    → (update a change vm).fibers a ≡ change (vm.fibers a)
update-same a change vm = let equal : (a == a) ≡ true = ground arith in rw equal refl

update-other :
    (a b : ℕ) (change : Fiber → Fiber) (vm : Vm)
    → b ≢ a
    → (update a change vm).fibers b ≡ vm.fibers b
update-other a b change vm ne = rw (==_ne b a ne) refl

-- Receiving changes the stack at most.
receive_frames :
    (value : Value) (frames : List CallFrame) (f : Fiber)
    → f.frames ≡ frames
    → ((receive value f).caller ≡ f.caller)
      × ((receive value f).frames ≡ f.frames)
      × ((receive value f).state ≡ f.state)
      × ((receive value f).error ≡ f.error)
unfolding receive
receive_frames value [] f e = rw (receive, e) (refl, e, refl, refl)
receive_frames value (frame ∷ outer) f e = elim (Bool-cases (is_empty outer && frame.ip == 0)) [
  | inl fresh ↦ elim (Bool-cases (frame.arity == 1)) [
    | inl one ↦ rw (receive, e, fresh, one) (refl, e, refl, refl)
    | inr other ↦ rw (receive, e, fresh, other) (refl, e, refl, refl)
  ]
  | inr started ↦ rw (receive, e, started) (refl, e, refl, refl)
]

receive-Gets :
    (caller : Option ℕ) (value : Value) (f : Fiber)
    → Gets caller value f (receive value (record f { caller = caller }))
unfolding receive
receive-Gets caller value f =
    let (same_caller, same_frames, same_state, same_error) =
      receive_frames value f.frames (record f { caller = caller }) refl in
    record {
      called = same_caller;
      same_frames = same_frames;
      same_state = (same_state, same_error);
      resumed = λ frame below outer e. rw e refl;
      resumed_last = λ frame e moved. rw (e, ==_ne frame.ip 0 moved) refl;
      begun = λ frame e start one. rw (e, start, one) refl;
      begun_without = λ frame e start other. rw (e, start, ==_ne frame.arity 1 other) refl;
    }

module _ (message : FiberMessage → Value) (a b : ℕ) (apart : a ≢ b) where
  -- What a call of `b` with a value makes of the fibers, when `a` is running.
  pub record Calls (value : Value) (vm after : Vm) : Type 0 where
    pub runs : after.fiber ≡ some b
    pub pops : after.fibers a ≡ record (vm.fibers a) { stack = pop (vm.fibers a).stack }
    pub gives : Gets (some a) value (vm.fibers b) (after.fibers b)
    pub others : (c : ℕ) → c ≢ a → c ≢ b → after.fibers c ≡ vm.fibers c

  call :
      (value : Value) (vm : Vm)
      → IsCallable (vm.fibers b)
      → Calls value vm (fiber_call1 message b value a vm).1
  unfolding fiber_call1 run_fiber switch_fiber
  call value vm h =
      let ab : (a == b) ≡ false = ==_ne a b apart in
      let ba : (b == a) ≡ false = ==_ne b a (λ e. apart (sym e)) in
      let aa : (a == a) ≡ true = ground arith in
      let bb : (b == b) ≡ true = ground arith in
      rw (h.no_error, h.no_caller, h.not_root, bb, h.not_finished)
        (record {
          runs = refl;
          pops = rw (ab, aa) refl;
          gives = rw (bb, ba) (receive-Gets (some a) value (vm.fibers b));
          others = λ c p q. rw (==_ne c b q, ==_ne c a p) refl;
        })

  -- What a yield from `b` makes of the fibers, when `a` has called it.
  pub record Yields (value : Value) (vm after : Vm) : Type 0 where
    pub resumes : after.fiber ≡ some a
    pub tells : after.fibers a ≡ record (vm.fibers a) { stack = set_top value (vm.fibers a).stack }
    pub unhooks : after.fibers b ≡ record (vm.fibers b) {
      stack = pop (vm.fibers b).stack;
      caller = none;
      state = fiber_other;
    }
    pub others : (c : ℕ) → c ≢ a → c ≢ b → after.fibers c ≡ vm.fibers c

  yield :
      (value : Value) (vm : Vm)
      → (vm.fibers b).caller ≡ some a
      → Yields value vm (fiber_yield1 value b vm).1
  unfolding fiber_yield1
  yield value vm e =
      let ab : (a == b) ≡ false = ==_ne a b apart in
      let ba : (b == a) ≡ false = ==_ne b a (λ e. apart (sym e)) in
      let aa : (a == a) ≡ true = ground arith in
      let bb : (b == b) ≡ true = ground arith in
      rw (fiber_yield1, e)
        (record {
          resumes = e;
          tells = rw (ab, aa) refl;
          unhooks = rw (bb, ba) refl;
          others = λ c p q. rw (==_ne c b q, ==_ne c a p) refl;
        })

  -- If a fiber without error, caller or the state of a root, and with a frame, is called by
  -- another one with a value, it runs and has the other as its caller, the other one's stack loses
  -- a slot, and no third fiber changes. The value replaces the top of the fiber's stack if it had
  -- begun, is pushed on it if the fiber is about to begin and has a parameter, and is dropped if
  -- it is about to begin and has none. When it yields a value later, while the other one is
  -- unchanged and still its caller, the other one runs again, with the value on the top of its
  -- stack and the rest of it as the call left it, and the fiber has no caller.
  pub fiber_yield1-fiber_call1 :
      (given told : Value) (vm later : Vm)
      → IsCallable (vm.fibers b)
      → later.fibers a ≡ (fiber_call1 message b given a vm).1.fibers a
      → (later.fibers b).caller ≡ ((fiber_call1 message b given a vm).1.fibers b).caller
      → Calls given vm (fiber_call1 message b given a vm).1
        × ((fiber_yield1 told b later).1.fiber ≡ some a)
        × ((fiber_yield1 told b later).1.fibers a
            ≡ record (vm.fibers a) { stack = set_top told (pop (vm.fibers a).stack) })
        × (((fiber_yield1 told b later).1.fibers b).caller ≡ none)
  fiber_yield1-fiber_call1 given told vm later h same_a same_b =
      let called = call given vm h in
      let gives = called.gives in
      let back = same_b ∙ gives.called in
      let y = yield told later back in
      let stack =
        ap (λ (f : Fiber). record f { stack = set_top told f.stack }) (same_a ∙ called.pops) in
      (called, y.resumes, y.tells ∙ stack, ap (λ (f : Fiber). f.caller) y.unhooks)

  call_finished :
      (vm : Vm)
      → has_error (vm.fibers b) ≡ false
      → (vm.fibers b).caller ≡ none
      → is_root (vm.fibers b).state ≡ false
      → is_empty (vm.fibers b).frames ≡ true
      → fiber_call message b a vm
        ≡ fail_fiber message finished_fiber a (update b (λ f. record f { caller = some a }) vm)
  unfolding fiber_call run_fiber switch_fiber
  call_finished vm no_error no_caller not_root finished =
      let bb : (b == b) ≡ true = ground arith in
      rw (no_error, no_caller, not_root, bb, finished) refl

  call_called :
      (vm : Vm) (c x : ℕ)
      → has_error (vm.fibers b) ≡ false
      → (vm.fibers b).caller ≡ some x
      → fiber_call message b c vm ≡ fail_fiber message already_called c vm
  unfolding fiber_call run_fiber
  call_called vm c x no_error caller = rw (no_error, caller) refl

  -- If a fiber without error and caller, and not a root, has finished, a call of it fails with the
  -- message for a finished fiber, but a further call by any other fiber fails with the message
  -- that it has already been called.
  pub run_fiber-finished :
      (vm : Vm) (c : ℕ)
      → has_error (vm.fibers b) ≡ false
      → (vm.fibers b).caller ≡ none
      → is_root (vm.fibers b).state ≡ false
      → is_empty (vm.fibers b).frames ≡ true
      → c ≢ b
      → let failed = (fiber_call message b a vm).1 in
        ((failed.fibers a).error ≡ message finished_fiber)
        × (((fiber_call message b c failed).1.fibers c).error ≡ message already_called)
  unfolding fail_fiber has_error
  run_fiber-finished vm c no_error no_caller not_root finished cb =
      let called = update b (λ f. record f { caller = some a }) vm in
      let failed = update a (set_error (message finished_fiber)) called in
      let first = call_finished vm no_error no_caller not_root finished in
      let marked : called.fibers b ≡ record (vm.fibers b) { caller = some a } =
        update-same b (λ f. record f { caller = some a }) vm in
      let kept : failed.fibers b ≡ record (vm.fibers b) { caller = some a } =
        update-other a b (set_error (message finished_fiber)) called (λ e. apart (sym e))
        ∙ marked in
      let second = call_called failed c a (rw kept no_error) (ap (λ (f : Fiber). f.caller) kept) in
      rw first (
        ap (λ (f : Fiber). f.error) (update-same a (set_error (message finished_fiber)) called),
        rw second (
            ap (λ (f : Fiber). f.error)
              (update-same c (set_error (message already_called)) failed)),
      )
