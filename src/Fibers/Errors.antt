-- ===== src/Fibers/Errors.antt =====
-- ruwren-sys/src/wren_vm.c, `runtimeError`: which fibers an error aborts, and which one catches it.
use ruwren.Prelude.{
  ℕ, zero, suc, ◌<◌, ◌≡◌, ◌≢◌, refl, true, false, Option, none, some, List, [], ◌∷◌, ◌==◌, arith,
  Bool-cases, inl, inr, ==_ne, ap, ◌∙◌, sym, In, length,
}
use ruwren.Values.{Value}
use ruwren.Gc.Sweep.{IsDistinct}
use ruwren.Fibers.{Fiber, Vm, is_try, update, set_top, set_error, unwind, runtime_error}

-- The fibers from a fiber on along the callers that do not try, and the one that tries with its
-- caller, if there is one.
pub data Unwinds (fibers : ℕ → Fiber) : Option ℕ → List ℕ → Option (ℕ × ℕ) → Type 0 where
  uncaught : Unwinds fibers none [] none
  caught :
      (a c : ℕ)
      → is_try (fibers a).state ≡ true
      → (fibers a).caller ≡ some c
      → Unwinds fibers (some a) [] (some (a, c))
  passes :
      (a : ℕ) (next : Option ℕ) (aborted : List ℕ) (catcher : Option (ℕ × ℕ))
      → is_try (fibers a).state ≡ false
      → (fibers a).caller ≡ next
      → Unwinds fibers next aborted catcher
      → Unwinds fibers (some a) (a ∷ aborted) catcher

-- The fiber that tries is not among those that are aborted.
abbrev pub IsOutside : Option (ℕ × ℕ) → List ℕ → Type 0
IsOutside none aborted = Unit
IsOutside (some (t, c)) aborted = In t aborted → ⊥

-- The fibers as the error leaves them.
pub record Unwound (aborted : List ℕ) (error : Value) (before after : ℕ → Fiber) : Type 0 where
  pub fails : (a : ℕ) → In a aborted → ((after a).error ≡ error) × ((after a).caller ≡ none)
  pub spares :
      (a : ℕ)
      → (In a aborted → ⊥)
      → ((after a).error ≡ (before a).error) × ((after a).caller ≡ (before a).caller)
  pub stacks : (a : ℕ) → (after a).stack ≡ (before a).stack
  pub frames : (a : ℕ) → (after a).frames ≡ (before a).frames
  pub states : (a : ℕ) → (after a).state ≡ (before a).state

-- Aborting one fiber, and unhooking its caller.
abbrev abort : Value → ℕ → Vm → Vm
abort error a vm = update a (λ f. record f { caller = none }) (update a (set_error error) vm)

abort-same :
    (error : Value) (a : ℕ) (vm : Vm)
    → (abort error a vm).fibers a ≡ record (vm.fibers a) { caller = none; error = error }
abort-same error a vm = let equal : (a == a) ≡ true = ground arith in rw equal refl

abort-other :
    (error : Value) (a b : ℕ) (vm : Vm) → b ≢ a → (abort error a vm).fibers b ≡ vm.fibers b
abort-other error a b vm ne = rw (==_ne b a ne) refl

plain_fields :
    (error : Value) (b a : ℕ) (vm : Vm)
    → (((abort error b vm).fibers a).stack ≡ (vm.fibers a).stack)
      × (((abort error b vm).fibers a).frames ≡ (vm.fibers a).frames)
      × (((abort error b vm).fibers a).state ≡ (vm.fibers a).state)
plain_fields error b a vm = elim (Bool-cases (a == b)) [
  | inl e ↦ rw e (refl, refl, refl)
  | inr e ↦ rw e (refl, refl, refl)
]

abort_all : Value → List ℕ → Vm → Vm
abort_all error [] vm = vm
abort_all error (a ∷ rest) vm = abort_all error rest (abort error a vm)

-- The last step: the caller of the fiber that tries gets the error as the result and runs, or
-- nothing runs.
abbrev pub finish : Option (ℕ × ℕ) → Value → Vm → Vm
finish none error vm = record vm { fiber = none }
finish (some (t, c)) error vm =
    record (update c (λ f. record f { stack = set_top error f.stack })
      (update t (set_error error) vm)) { fiber = some c }

abort_all-Unwound :
    (error : Value) (l : List ℕ) (vm : Vm)
    → IsDistinct l
    → Unwound l error vm.fibers (abort_all error l vm).fibers
unfolding abort_all
abort_all-Unwound error [] vm d = record {
  fails = λ a z. absurd z;
  spares = λ a n. (refl, refl);
  stacks = λ a. refl;
  frames = λ a. refl;
  states = λ a. refl;
}
abort_all-Unwound error (b ∷ l) vm (new, d) =
    let rest = abort_all-Unwound error l (abort error b vm) d in
    let same = abort-same error b vm in
    let (first_error, first_caller) = rest.spares b new in
    let plain = λ (a : ℕ). plain_fields error b a vm in
    record {
      fails = λ a i. elim i [
        | inl e ↦ rw e (
          first_error ∙ ap (λ (f : Fiber). f.error) same,
          first_caller ∙ ap (λ (f : Fiber). f.caller) same,
        )
        | inr j ↦ rest.fails a j
      ];
      spares = λ a n.
          let other = abort-other error b a vm (λ e. n (inl e)) in
          let (p, q) = rest.spares a (λ j. n (inr j)) in
          (p ∙ ap (λ (f : Fiber). f.error) other, q ∙ ap (λ (f : Fiber). f.caller) other);
      stacks = λ a. rest.stacks a ∙ (plain a).0;
      frames = λ a. rest.frames a ∙ (plain a).1;
      states = λ a. rest.states a ∙ (plain a).2;
    }

abbrev IsOther : ℕ → Option (ℕ × ℕ) → Type 0
IsOther a none = Unit
IsOther a (some (t, c)) = t ≢ a

Unwinds-kept :
    (a : ℕ) (before after : ℕ → Fiber) (p : Option ℕ) (l : List ℕ) (r : Option (ℕ × ℕ))
    → ((b : ℕ) → b ≢ a → after b ≡ before b)
    → (In a l → ⊥)
    → IsOther a r
    → Unwinds before p l r
    → Unwinds after p l r
Unwinds-kept a before after _ _ _ same new other uncaught = uncaught
Unwinds-kept a before after _ _ _ same new other (caught t c state caller) =
    caught t c (rw (same t other) state) (rw (same t other) caller)
Unwinds-kept a before after _ _ _ same new other (passes b next l r state caller rest) =
    let kept = same b (λ e. new (inl (sym e))) in
    passes b next l r (rw kept state) (rw kept caller)
      (Unwinds-kept a before after next l r same (λ i. new (inr i)) other rest)

IsOutside-IsOther : (a : ℕ) (l : List ℕ) (r : Option (ℕ × ℕ)) → IsOutside r (a ∷ l) → IsOther a r
IsOutside-IsOther a l none h = tt
IsOutside-IsOther a l (some (t, c)) h = λ e. h (inl e)

IsOutside-rest : (a : ℕ) (l : List ℕ) (r : Option (ℕ × ℕ)) → IsOutside r (a ∷ l) → IsOutside r l
IsOutside-rest a l none h = tt
IsOutside-rest a l (some (t, c)) h = λ i. h (inr i)

unwind-finish :
    (fuel : ℕ) (error : Value) (p : Option ℕ) (l : List ℕ) (r : Option (ℕ × ℕ)) (vm : Vm)
    → length l < fuel
    → IsDistinct l
    → IsOutside r l
    → Unwinds vm.fibers p l r
    → unwind fuel error p vm ≡ some (finish r error (abort_all error l vm))
unfolding unwind abort_all
unwind-finish (suc fuel) error _ [] _ vm enough d out uncaught = refl
unwind-finish (suc fuel) error _ [] _ vm enough d out (caught t c state caller) =
    rw (state, caller) refl
unwind-finish (suc fuel) error _ (a ∷ l) r vm enough d out (passes _ next _ _ state caller rest) =
    let later = abort error a vm in
    let chain =
      Unwinds-kept a vm.fibers later.fibers next l r (λ b ne. abort-other error a b vm ne) d.0
        (IsOutside-IsOther a l r out) rest in
    let ih =
      unwind-finish fuel error next l r later (omega arith) d.1 (IsOutside-rest a l r out) chain in
    rw (state, caller) ih
unwind-finish zero error _ _ _ vm enough d out rest = absurd (omega arith)

-- If the callers from the failed fiber on lead, through fibers that do not try and that are all
-- different, to a fiber that tries or to no fiber, and the fuel is more than their number,
-- `runtimeError` ends: each of them gets the error and no caller, and the stacks, frames and
-- states stay; then the fiber that tries gets the error too, its caller gets it on the top of its
-- stack and runs, or no fiber runs.
pub runtime_error-Unwound :
    (fuel a : ℕ) (l : List ℕ) (r : Option (ℕ × ℕ)) (vm : Vm)
    → length l < fuel
    → IsDistinct l
    → IsOutside r l
    → Unwinds vm.fibers (some a) l r
    → let error = (vm.fibers a).error in
      (m : Vm) × (runtime_error fuel a vm ≡ some (finish r error m))
      × Unwound l error vm.fibers m.fibers
unfolding runtime_error
runtime_error-Unwound fuel a l r vm enough d out chain =
    let error = (vm.fibers a).error in
    (
      abort_all error l vm,
      unwind-finish fuel error (some a) l r vm enough d out chain,
      abort_all-Unwound error l vm d,
    )
