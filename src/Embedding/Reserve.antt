-- ===== src/Embedding/Reserve.antt =====
-- ruwren-sys/src/wren_vm.c, `wrenEnsureSlots`, and writing and reading a slot.
use ruwren.Prelude.{
  ℕ, zero, suc, ◌+◌, ◌-◌, ◌^◌, ◌≤◌, ◌<◌, ◌≡◌, ◌≢◌, refl, ap, ◌∙◌, true, some, List, [], ◌∷◌, ◌++◌,
  ◌==◌, ==_ne, ltb, leb, if◌then◌else◌, length, length-append, length-set, get_elem?, set, arith,
  Bool-cases, inl, inr, ==_self,
}
use ruwren.Values.{Value}
use ruwren.Fibers.{Fiber}
use ruwren.Interpreter.State.{Machine, then_, change_fiber, stack_of, slot_at}
use ruwren.Interpreter.State
use ruwren.Interpreter.Calls.{ensure_stack}
use ruwren.Interpreter.Enter.{power_of_2_ceil-le, change_fiber-same}
use ruwren.Embedding.Slots.{
  Api, unset, widen, can_widen, ensure_slots, get_slot_count, slot_value, set_slot,
}

length-unset : (stale : ℕ → Value) (from n : ℕ) → length (unset stale from n) ≡ n
length-unset stale from zero = refl
length-unset stale from (suc n) = ap suc (length-unset stale from n)

get_elem?-behind :
    (xs ys : List Value) (i : ℕ) → get_elem? (xs ++ ys) (length xs + i) ≡ get_elem? ys i
get_elem?-behind [] ys i = ap (get_elem? ys) (omega arith)
get_elem?-behind (x ∷ xs) ys i =
    let next_one : suc (length xs) + i ≡ suc (length xs + i) = omega arith in
    rw next_one (get_elem?-behind xs ys i)

-- Slots above do not change a slot.
slot_at-append : (xs ys : List Value) (i : ℕ) → i < length ys → slot_at (xs ++ ys) i ≡ slot_at ys i
slot_at-append xs ys i h =
    let n = length-append xs ys in
    let long : ltb i (length (xs ++ ys)) ≡ true = ground (arith, n, h) in
    let short : ltb i (length ys) ≡ true = ground (arith, h) in
    let where_ : length (xs ++ ys) - 1 - i ≡ length xs + (length ys - 1 - i) =
      omega (arith, n, h) in
    rw (long, short, where_) (get_elem?-behind xs ys (length ys - 1 - i))

-- At least `slots` slots above `start`, of which those that were there are kept.
pub record Reserves (start slots : ℕ) (f f' : Fiber) : Type 0 where
  pub enough : start + slots ≤ length f'.stack
  pub no_fewer : length f.stack ≤ length f'.stack
  pub no_more : length f'.stack ≤ length f.stack + (start + slots - length f.stack)
  pub fits : length f'.stack ≤ f'.stack_capacity
  pub kept : (i : ℕ) → i < length f.stack → slot_at f'.stack i ≡ slot_at f.stack i

widen-Reserves :
    (stale : ℕ → Value) (start slots : ℕ) (f : Fiber)
    → start ≤ length f.stack
    → length f.stack ≤ f.stack_capacity
    → Reserves start slots f (widen stale start slots f)
unfolding widen ensure_stack
widen-Reserves stale start slots f below fits =
    elim (Bool-cases (leb slots (length f.stack - start))) [
      | inl e ↦ rw e (record {
        enough = ground (arith, e, below);
        no_fewer = omega arith;
        no_more = omega arith;
        fits = fits;
        kept = λ i h. refl;
      })
      | inr e ↦
          let size = length f.stack in
          let needed = start + slots in
          let new = unset stale size (needed - size) in
          let n = length-append new f.stack in
          let k = length-unset stale size (needed - size) in
          let more : size < needed = ground (arith, e, below) in
          rw e (record {
            enough = omega (arith, n, k);
            no_fewer = omega (arith, n);
            no_more = omega (arith, n, k);
            fits = ground (arith, n, k, more, power_of_2_ceil-le needed);
            kept = λ i h. slot_at-append new f.stack i h;
          })
    ]

-- If the interface's slots begin inside the stack of the running fiber, the stack fits into its
-- capacity, and the slots asked for end at 2 ^ 30 at most, counted from the bottom of the stack,
-- `wrenEnsureSlots` succeeds: there are at least as many slots as it was asked for, no slot is
-- lost and none added beyond them, the stack fits into its capacity, and every slot that was there
-- holds what it held.
pub ensure_slots-Reserves :
    (stale : ℕ → Value) (slots start a : ℕ) (api : Api)
    → api.api_stack ≡ some start
    → (api.machine).vm.fiber ≡ some a
    → start ≤ length (stack_of a api.machine)
    → length (stack_of a api.machine) ≤ ((api.machine).vm.fibers a).stack_capacity
    → start + slots ≤ 2 ^ 30
    → (api' : Api) × (count : ℕ) × (ensure_slots stale slots api ≡ some api')
      × Reserves start slots ((api.machine).vm.fibers a) ((api'.machine).vm.fibers a)
      × (get_slot_count api' ≡ some count)
      × (slots ≤ count)
unfolding ensure_slots get_slot_count
ensure_slots-Reserves stale slots start a api e f below fits small =
    let m = api.machine in
    let can : can_widen start slots (m.vm.fibers a) ≡ true = ground (arith, small) in
    let m' = change_fiber a (widen stale start slots) m in
    let there = change_fiber-same a (widen stale start slots) m in
    let w : Reserves start slots (m.vm.fibers a) (m'.vm.fibers a) =
      rw there (widen-Reserves stale start slots (m.vm.fibers a) below fits) in
    let enough = w.enough in
    (
      record api { machine = m' },
      length (stack_of a m') - start,
      rw (e, then_, f, can) refl,
      w,
      rw (e, then_, f) refl,
      omega (arith, enough),
    )

get_elem?-set :
    (xs : List Value) (i j : ℕ) (v : Value)
    → i < length xs
    → get_elem? (set xs i v) j ≡ (if j == i then some v else get_elem? xs j)
get_elem?-set [] i j v h = absurd (omega arith)
get_elem?-set (x ∷ xs) zero zero v h = refl
get_elem?-set (x ∷ xs) zero (suc j) v h = ground arith
get_elem?-set (x ∷ xs) (suc i) zero v h = ground arith
get_elem?-set (x ∷ xs) (suc i) (suc j) v h = ground (arith, get_elem?-set xs i j v)

-- A slot that is written, and the others.
slot_at-set :
    (xs : List Value) (i j : ℕ) (v : Value)
    → i < length xs
    → slot_at (set xs (length xs - 1 - i) v) j ≡ (if j == i then some v else slot_at xs j)
slot_at-set xs i j v h =
    let n = length-set xs (length xs - 1 - i) v in
    let here = get_elem?-set xs (length xs - 1 - i) (length xs - 1 - j) v (omega (arith, h)) in
    rw n (ground (arith, here, h))

pub set_slot-slot_value :
    (slot start a : ℕ) (value : Value) (api : Api)
    → api.api_stack ≡ some start
    → (api.machine).vm.fiber ≡ some a
    → start + slot < length (stack_of a api.machine)
    → (api' : Api) × (set_slot slot value api ≡ some api')
      × (slot_value slot api' ≡ some value)
      × ((other : ℕ) → other ≢ slot → slot_value other api' ≡ slot_value other api)
      × (get_slot_count api' ≡ get_slot_count api)
unfolding set_slot slot_value get_slot_count
set_slot-slot_value slot start a value api e f inside =
    let m = api.machine in
    let xs = stack_of a m in
    let stack = set xs (length xs - 1 - (start + slot)) value in
    let m' = State.set_stack a stack m in
    let there : stack_of a m' ≡ stack =
      ap (λ (g : Fiber). g.stack) (change_fiber-same a (λ g. record g { stack = stack }) m) in
    let on : ltb (start + slot) (length xs) ≡ true = ground (arith, inside) in
    let read = λ (other : ℕ).
      ap (λ s. slot_at s (start + other)) there
      ∙ slot_at-set xs (start + slot) (start + other) value inside in
    (
      record api { machine = m' },
      rw (e, then_, f, State.set_slot, on) refl,
      rw (e, then_, f) (read slot ∙ (rw (==_self (start + slot)) refl)),
      λ other apart.
          rw (e, then_, f)
            (read other
              ∙ (rw (==_ne (start + other) (start + slot) (λ q. apart (omega (arith, q)))) refl)),
      rw (e, then_, f)
          (ap (λ n. some (n - start))
            (ap length there ∙ length-set xs (length xs - 1 - (start + slot)) value)),
    )
