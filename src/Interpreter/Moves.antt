-- ===== src/Interpreter/Moves.antt =====
-- ruwren-sys/src/wren_vm.c, `runInterpreter`: what the parts of an instruction that goes on to the
-- next do to the fiber, its frames, the height of its stack and `ip`.
use ruwren.Prelude.{
  ℕ, ◌+◌, ◌≡◌, refl, sym, ap, ◌∙◌, Option, none, some, List, [], ◌∷◌, ◌==◌, length, arith, ==_self,
  ==_iff, if_split,
}
use ruwren.Prelude.Int.{ℤ, pos, pos_part, neg_part}
use ruwren.Values.{Value}
use ruwren.Fibers.{Fiber}
use ruwren.Interpreter.State.{
  Machine, Running, Outcome, running, success, runtime_failure, fault, or_fault, then_, stack_of,
  set_stack,
}
use ruwren.Interpreter.Instructions.{pushed}
use ruwren.Interpreter.Step.{popped}

-- What holds of the machine if the loop goes on with it.
unfoldable pub Ensures : (Machine → Type 0) → Outcome → Type 0
Ensures P (running m) = P m
Ensures P (success m) = Unit
Ensures P (runtime_failure m) = Unit
Ensures P fault = Unit

-- What holds of the value of an option, if it has one.
unfoldable pub Yields : {A : Type 0} → (A → Type 0) → Option A → Type 0
Yields P none = Unit
Yields P (some a) = P a

pub record Moves (a : ℕ) (effect : ℤ) (width : ℕ) (m m' : Machine) : Type 0 where
  pub same_fiber : m'.vm.fiber ≡ m.vm.fiber
  pub same_frames : (m'.vm.fibers a).frames ≡ (m.vm.fibers a).frames
  pub height : length (stack_of a m') + neg_part effect ≡ length (stack_of a m) + pos_part effect
  pub behind : m'.ip ≡ m.ip + width

pub or_fault-Ensures :
    {A : Type 0} (P : Machine → Type 0) (o : Option A) (k : A → Outcome)
    → ((a : A) → o ≡ some a → Ensures P (k a))
    → Ensures P (or_fault o k)
unfolding Ensures or_fault
or_fault-Ensures P none k h = tt
or_fault-Ensures P (some a) k h = h a refl

pub or_fault-Yields :
    {A : Type 0} (P : Machine → Type 0) (Q : A → Type 0) (o : Option A) (k : A → Outcome)
    → Yields Q o
    → ((a : A) → Q a → Ensures P (k a))
    → Ensures P (or_fault o k)
unfolding Ensures Yields or_fault
or_fault-Yields P Q none k q h = tt
or_fault-Yields P Q (some a) k q h = h a q

pub then_-Yields :
    {A B : Type 0} (P : B → Type 0) (o : Option A) (k : A → Option B)
    → ((a : A) → o ≡ some a → Yields P (k a))
    → Yields P (then_ o k)
unfolding Yields
then_-Yields P none k h = tt
then_-Yields P (some a) k h = h a refl

pub then_-Yields' :
    {A B : Type 0} (P : B → Type 0) (Q : A → Type 0) (o : Option A) (k : A → Option B)
    → Yields Q o
    → ((a : A) → Q a → Yields P (k a))
    → Yields P (then_ o k)
unfolding Yields
then_-Yields' P Q none k q h = tt
then_-Yields' P Q (some a) k q h = h a q

pub popped-Ensures :
    (P : Machine → Type 0) (r : Running) (m : Machine) (k : Value → List Value → Outcome)
    → ((v : Value) (rest : List Value) → stack_of r.fiber m ≡ v ∷ rest → Ensures P (k v rest))
    → Ensures P (popped r m k)
unfolding Ensures
popped-Ensures P r m k h = by_stack (stack_of r.fiber m) refl
  where
    by_stack :
        (s : List Value)
        → stack_of r.fiber m ≡ s
        → Ensures P (elim s [ [] ↦ fault | v ∷ rest ↦ k v rest ])
    by_stack [] e = tt
    by_stack (v ∷ rest) e = h v rest e

pub set_stack-Moves :
    (a : ℕ) (stack : List Value) (effect : ℤ) (width : ℕ) (m m' : Machine)
    → length stack + neg_part effect ≡ length (stack_of a m) + pos_part effect
    → m'.vm ≡ (set_stack a stack m).vm
    → m'.ip ≡ m.ip + width
    → Moves a effect width m m'
set_stack-Moves a stack effect width m m' h vm ip = record {
  same_fiber = ap (λ w. w.fiber) vm;
  same_frames = ap (λ w. (w.fibers a).frames) vm ∙ (rw (==_self a) refl);
  height = ap (λ w. length (w.fibers a).stack + neg_part effect) vm ∙ (rw (==_self a) h);
  behind = ip;
}

pub pushed-Moves :
    (r : Running) (m : Machine) (n : ℕ) (value : Option Value)
    → Ensures (Moves r.fiber (pos 1) n m) (pushed r m n value)
unfolding Ensures
pushed-Moves r m n value =
    or_fault-Ensures _ value _
      λ v _. set_stack-Moves r.fiber (v ∷ stack_of r.fiber m) (pos 1) n m _ (omega arith) refl refl

-- Nothing is done to the frames or the stacks, in front of another change.
pub same-Moves :
    (a : ℕ) (width : ℕ) (m m' : Machine)
    → m'.vm ≡ m.vm
    → m'.ip ≡ m.ip + width
    → Moves a (pos 0) width m m'
same-Moves a width m m' vm ip = record {
  same_fiber = ap (λ w. w.fiber) vm;
  same_frames = ap (λ w. (w.fibers a).frames) vm;
  height = ap (λ w. length (w.fibers a).stack + 0) vm;
  behind = ip;
}

-- A change of a stack, of this fiber or another, that leaves its height.
pub stack-Moves :
    (a b : ℕ) (stack : List Value) (width : ℕ) (m m' : Machine)
    → length stack ≡ length (stack_of b m)
    → m'.vm ≡ (set_stack b stack m).vm
    → m'.ip ≡ m.ip + width
    → Moves a (pos 0) width m m'
stack-Moves a b stack width m m' h vm ip = record {
  same_fiber = ap (λ w. w.fiber) vm;
  same_frames =
      ap (λ w. (w.fibers a).frames) vm
      ∙ if_split (λ (f : Fiber). f.frames ≡ (m.vm.fibers a).frames) (a == b) (λ _. refl)
          (λ _. refl);
  height =
      ap (λ w. length (w.fibers a).stack + 0) vm
      ∙ if_split (λ (f : Fiber). length f.stack + 0 ≡ length (stack_of a m) + 0) (a == b)
          (λ e. ap (λ n. n + 0) h ∙ ap (λ c. length (stack_of c m) + 0) (sym ((==_iff a b).0 e)))
          (λ _. refl);
  behind = ip;
}

pub then-Moves :
    (a : ℕ) (e : ℤ) (n k w : ℕ) (m m₁ m₂ : Machine)
    → Moves a e n m m₁
    → Moves a (pos 0) k m₁ m₂
    → w ≡ n + k
    → Moves a e w m m₂
then-Moves a e n k w m m₁ m₂ one two sum = record {
  same_fiber = two.same_fiber ∙ one.same_fiber;
  same_frames = two.same_frames ∙ one.same_frames;
  height = let h = one.height in let h' = two.height in omega (arith, h, h');
  behind = let b = one.behind in let b' = two.behind in omega (arith, b, b', sum);
}
