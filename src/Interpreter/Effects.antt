-- ===== src/Interpreter/Effects.antt =====
-- ruwren-sys/src/wren_vm.c, `runInterpreter`: the instructions that go on to the next one, against
-- the effect on the stack and the width that the compiler counts with.
use ruwren.Prelude.{
  ℕ, zero, suc, ◌+◌, ◌-◌, ◌*◌, ◌≡◌, refl, sym, ap, ◌∙◌, Bool, true, false, Option, some, List, [],
  ◌∷◌, ltb, ◌==◌, length, get_elem?, get_or, length-set, arith, ==_self, if_both,
}
use ruwren.Prelude.Int.{ℤ, pos, negsuc}
use mathlib.Core.Bool.{false≢true}
use ruwren.Values.{Value, null_val, obj_val, closure_obj, Body, Object}
use ruwren.Capture.{Pointer, own_field, stack_slot, write}
use ruwren.Interpreter.State.{
  Machine, Running, then_, stack_of, set_stack, advance, set_slot, capture, close, store_upvalue_at,
  as_class, as_fn, as_module, allocate, first, address_of, body_at, set_body,
}
use ruwren.Interpreter.Calls.{Natives}
use ruwren.Interpreter.Instructions.{
  Instruction, constant, null_, false_, true_, load_local_n, load_local, store_local, load_upvalue,
  store_upvalue, load_module_var, store_module_var, load_field_this, store_field_this, load_field,
  store_field, pop_, call, super_, jump, loop, jump_if, and_, or_, close_upvalue, return_, closure_,
  construct, end_module, define, byte, short, stack, push, local_at, field_of, with_field,
  fields_of,
}
use ruwren.Interpreter.Step.{capture_upvalues, make_closure, execute, upvalues_of}
use ruwren.Interpreter.Table.{effect_of, width_of}
use ruwren.Interpreter.Moves.{
  Ensures, Yields, or_fault-Yields, then_-Yields, then_-Yields', stack-Moves, then-Moves, Moves,
  or_fault-Ensures, popped-Ensures, set_stack-Moves, pushed-Moves, same-Moves,
}

-- The instructions that neither jump nor call nor return nor define a class or import a module.
unfoldable pub is_plain : Instruction → Bool
is_plain (call _) = false
is_plain (super_ _) = false
is_plain jump = false
is_plain loop = false
is_plain jump_if = false
is_plain and_ = false
is_plain or_ = false
is_plain return_ = false
is_plain (define _) = false
is_plain _ = true

unfoldable pub width_in : Running → Machine → Instruction → ℕ
unfolding width_of
width_in r m closure_ = 2 + upvalues_of r m (short r m) * 2
width_in r m i = width_of i

-- A stack of the same height.
set_slot-Yields :
    (stack : List Value) (i : ℕ) (v : Value)
    → Yields (λ stored. length stored ≡ length stack) (set_slot stack i v)
unfolding Yields
set_slot-Yields stack i v =
    if_both (Yields (λ stored. length stored ≡ length stack)) (ltb i (length stack))
      (length-set stack (length stack - 1 - i) v) tt

store_upvalue_at-Yields :
    (a u : ℕ) (v : Value) (m : Machine)
    → Yields (λ m'. Moves a (pos 0) 1 m (advance 1 m')) (store_upvalue_at u v m)
unfolding Yields store_upvalue_at
store_upvalue_at-Yields a u v m = let o = m.upvalue u in by_pointer o.value
  where
    by_pointer :
        (p : Pointer)
        → Yields
            (λ m'. Moves a (pos 0) 1 m (advance 1 m'))
            (let o = m.upvalue u in
              elim p [
                | stack_slot n ↦
                    then_
                      (set_slot (stack_of (m.owner u) m) n v)
                      (λ stack. some (set_stack (m.owner u) stack m))
                | own_field ↦
                    some (record m { upvalue = write u (record o { closed = v }) m.upvalue })
              ])
    by_pointer (stack_slot n) =
        then_-Yields' _ _ _ _ (set_slot-Yields (stack_of (m.owner u) m) n v)
          λ stack same. stack-Moves a (m.owner u) stack 1 m _ same refl refl
    by_pointer own_field = same-Moves a 1 m _ refl refl

with_field-Yields :
    (r : Running) (receiver : Value) (i : ℕ) (v : Value) (m after : Machine)
    → Yields (λ m'. (m'.vm ≡ after.vm) × (m'.ip ≡ after.ip)) (with_field r m receiver i v after)
unfolding Yields set_body
with_field-Yields r receiver i v m after =
    let P : Machine → Type 0 = λ m'. (m'.vm ≡ after.vm) × (m'.ip ≡ after.ip) in
    then_-Yields P (fields_of r m receiver) _
      λ (a, fields) _. if_both (Yields P) (ltb i (length fields)) (refl, refl) tt

capture-stack :
    (a slot : ℕ) (m : Machine) → ((capture a slot m).1.vm.fibers a).stack ≡ (m.vm.fibers a).stack
unfolding capture
capture-stack a slot m = (rw (==_self a) refl)

capture-Moves : (a slot : ℕ) (m : Machine) → Moves a (pos 0) 2 m (advance 2 (capture a slot m).1)
unfolding capture
capture-Moves a slot m = record {
  same_fiber = refl;
  same_frames = (rw (==_self a) refl);
  height = ap (λ stack. length stack + 0) (capture-stack a slot m);
  behind = refl;
}

capture_upvalues-Yields :
    (n : ℕ) (r : Running) (m : Machine)
    → Yields (λ (upvalues, m'). Moves r.fiber (pos 0) (n * 2) m m') (capture_upvalues n r m)
unfolding Yields capture_upvalues
capture_upvalues-Yields zero r m = same-Moves r.fiber 0 m m refl (omega arith)
capture_upvalues-Yields (suc n) r m =
    let fn = r.fn in
    let frame = r.frame in
    let closure = r.closure in
    let index = get_or fn.code (m.ip + 1) 0 in
    let m₁ = (capture r.fiber (frame.stack_start + index) m).1 in
    let P : List (Option ℕ) × Machine → Type 0 =
      λ (upvalues, m'). Moves r.fiber (pos 0) (suc n * 2) m m' in
    let on =
      λ (m₂ : Machine) (two : Moves r.fiber (pos 0) 2 m m₂) (m' : Machine)
          (rest : Moves r.fiber (pos 0) (n * 2) m₂ m').
        then-Moves r.fiber (pos 0) 2 (n * 2) (suc n * 2) m m₂ m' two rest (omega arith) in
    if_both (Yields P) (get_or fn.code m.ip 0 == 0)
      (then_-Yields P (get_elem? closure.upvalues index) _ λ u _.
        then_-Yields' P _ _ _ (capture_upvalues-Yields n r (advance 2 m)) λ (rest, m') moves.
          on (advance 2 m) (same-Moves r.fiber 2 m (advance 2 m) refl refl) m' moves)
      (then_-Yields' P _ _ _ (capture_upvalues-Yields n r (advance 2 m₁)) λ (rest, m') moves.
        on (advance 2 m₁) (capture-Moves r.fiber (frame.stack_start + index) m) m' moves)

close-Moves :
    (a last width : ℕ) (rest : List Value) (m m' : Machine)
    → length rest + 1 ≡ length (stack_of a m) + 0
    → m'.vm ≡ (set_stack a rest (close a last m)).vm
    → m'.ip ≡ m.ip + width
    → Moves a (negsuc 0) width m m'
unfolding close
close-Moves a last width rest m m' h vm ip = record {
  same_fiber = ap (λ w. w.fiber) vm;
  same_frames = ap (λ w. (w.fibers a).frames) vm ∙ (rw (==_self a) refl);
  height = ap (λ w. length (w.fibers a).stack + 1) vm ∙ (rw (==_self a) (omega (arith, h)));
  behind = ip;
}

popped_height :
    (m : Machine) (a : ℕ) (v : Value) (rest : List Value)
    → stack_of a m ≡ v ∷ rest
    → length rest + 1 ≡ length (stack_of a m) + 0
popped_height m a v rest e = let h = ap length e in omega (arith, h)

close-ip : (a last : ℕ) (m : Machine) → (close a last m).ip ≡ m.ip
unfolding close
close-ip a last m = refl

-- The object of `CLOSURE` before its upvalues are filled in.
abbrev unfilled : Natives → ℕ → Object
unfilled natives f = record {
  class_of = some natives.fn_class;
  body = closure_obj (record { fn = some f; upvalues = [] });
}

in_object :
    (a : ℕ) (e : ℤ) (n : ℕ) (m m' : Machine) (b : ℕ) (body : Body)
    → Moves a e n m m'
    → Moves a e n m (set_body b body m')
unfolding set_body
in_object a e n m m' b body moves = record {
  same_fiber = moves.same_fiber;
  same_frames = moves.same_frames;
  height = moves.height;
  behind = moves.behind;
}

module _ (natives : Natives) (r : Running) (m : Machine) where
  make_closure-Moves :
      Ensures (Moves r.fiber (pos 1) (width_in r m closure_) m) (make_closure natives r m)
  unfolding Ensures make_closure allocate set_body width_in
  make_closure-Moves =
      let fn = r.fn in
      or_fault-Ensures _ (get_elem? fn.constants (short r m)) _ λ value e₁.
        or_fault-Ensures _ (address_of value) _ λ a e₂.
          or_fault-Ensures _ (as_fn (body_at m a)) _ λ function e₃.
            let m₁ = (allocate (unfilled natives a) m).1 in
            let m₂ = advance 2 (push r m (obj_val m.allocated) m₁) in
            let n : upvalues_of r m (short r m) ≡ function.num_upvalues =
              rw (upvalues_of, e₁, then_, e₂, e₃) refl in
            let pushing : Moves r.fiber (pos 1) 2 m m₂ =
              set_stack-Moves r.fiber (obj_val m.allocated ∷ stack_of r.fiber m) (pos 1) 2 m m₂
                (omega arith) refl refl in
            or_fault-Yields _ _ (capture_upvalues function.num_upvalues r m₂) _
              (capture_upvalues-Yields function.num_upvalues r m₂)
              λ (upvalues, m₃) moves.
                in_object r.fiber (pos 1) (2 + upvalues_of r m (short r m) * 2) m m₃ _ _ (
                  then-Moves r.fiber (pos 1) 2 (function.num_upvalues * 2)
                    (2 + upvalues_of r m (short r m) * 2) m m₂ m₃ pushing moves (omega (arith, n)))

  pub execute-Moves :
      (i : Instruction)
      → is_plain i ≡ true
      → Ensures (Moves r.fiber (effect_of i) (width_in r m i) m) (execute natives i r m)
  unfolding Ensures execute effect_of width_of width_in is_plain allocate set_body
  execute-Moves constant p = pushed-Moves r m 2 _
  execute-Moves null_ p = pushed-Moves r m 0 _
  execute-Moves false_ p = pushed-Moves r m 0 _
  execute-Moves true_ p = pushed-Moves r m 0 _
  execute-Moves (load_local_n n) p = pushed-Moves r m 0 _
  execute-Moves load_local p = pushed-Moves r m 1 _
  execute-Moves store_local p = popped-Ensures _ r m _ λ value rest e.
      let frame = r.frame in
      or_fault-Yields _ _ (set_slot (value ∷ rest) (frame.stack_start + byte r m) value) _
        (set_slot-Yields (value ∷ rest) (frame.stack_start + byte r m) value)
        λ stored same.
          set_stack-Moves r.fiber stored (pos 0) 1 m _ (ap (λ n. n + 0) (same ∙ ap length (sym e)))
            refl refl
  execute-Moves load_upvalue p = pushed-Moves r m 1 _
  execute-Moves store_upvalue p = popped-Ensures _ r m _ λ value rest e.
      let closure = r.closure in
      or_fault-Ensures _ (get_elem? closure.upvalues (byte r m)) _ λ u _.
        or_fault-Ensures _ u _ λ a _.
          or_fault-Yields _ _ (store_upvalue_at a value m) _
            (store_upvalue_at-Yields r.fiber a value m) λ stored moves. moves
  execute-Moves load_module_var p = pushed-Moves r m 2 _
  execute-Moves store_module_var p = popped-Ensures _ r m _ λ value rest e.
      let fn = r.fn in
      or_fault-Ensures _ (as_module (body_at m fn.module_)) _ λ o _.
        if_both (Ensures (Moves r.fiber (pos 0) 2 m)) (ltb (short r m) (length o.variables))
          (same-Moves r.fiber 2 m _ refl refl) tt
  execute-Moves load_field_this p = pushed-Moves r m 1 _
  execute-Moves store_field_this p = popped-Ensures _ r m _ λ value rest e.
      or_fault-Ensures _ (local_at r m 0) _ λ receiver _.
        or_fault-Yields _ _ (with_field r m receiver (byte r m) value m) _
          (with_field-Yields r receiver (byte r m) value m m)
          λ stored (vm, ip). same-Moves r.fiber 1 m _ vm (ap (λ n. n + 1) ip)
  execute-Moves load_field p = popped-Ensures _ r m _ λ receiver rest e.
      or_fault-Ensures _ (field_of r m receiver (byte r m)) _ λ v _.
        set_stack-Moves r.fiber (v ∷ rest) (pos 0) 1 m _ (ap (λ s. length s + 0) (sym e)) refl refl
  execute-Moves store_field p = popped-Ensures _ r m _ λ receiver rest e.
      or_fault-Ensures _ (first rest) _ λ value _.
        or_fault-Yields _ _ (with_field r m receiver (byte r m) value (set_stack r.fiber rest m)) _
          (with_field-Yields r receiver (byte r m) value m (set_stack r.fiber rest m))
          λ stored (vm, ip).
            set_stack-Moves r.fiber rest (negsuc 0) 1 m _ (popped_height m r.fiber receiver rest e)
              vm (ap (λ n. n + 1) ip)
  execute-Moves pop_ p = popped-Ensures _ r m _ λ v rest e.
      set_stack-Moves r.fiber rest (negsuc 0) 0 m _ (popped_height m r.fiber v rest e) refl
        (omega arith)
  execute-Moves close_upvalue p = popped-Ensures _ r m _ λ v rest e.
      close-Moves r.fiber (length rest) 0 rest m _ (popped_height m r.fiber v rest e) refl
        (close-ip r.fiber (length rest) m ∙ (omega arith))
  execute-Moves closure_ p = make_closure-Moves
  execute-Moves construct p =
      let frame = r.frame in
      or_fault-Ensures _ (local_at r m 0) _ λ receiver _.
        or_fault-Ensures _ (address_of receiver) _ λ a _.
          or_fault-Ensures _ (as_class (body_at m a)) _ λ c _.
            or_fault-Yields _ _ (set_slot (stack r m) frame.stack_start _) _
              (set_slot-Yields (stack r m) frame.stack_start _)
              λ stored same.
                set_stack-Moves r.fiber stored (pos 0) 0 m _ (ap (λ n. n + 0) same) refl
                  (omega arith)
  execute-Moves end_module p =
      set_stack-Moves r.fiber (null_val ∷ stack_of r.fiber m) (pos 1) 0 m _ (omega arith) refl
        (omega arith)
  execute-Moves (call _) p = absurd (false≢true p)
  execute-Moves (super_ _) p = absurd (false≢true p)
  execute-Moves jump p = absurd (false≢true p)
  execute-Moves loop p = absurd (false≢true p)
  execute-Moves jump_if p = absurd (false≢true p)
  execute-Moves and_ p = absurd (false≢true p)
  execute-Moves or_ p = absurd (false≢true p)
  execute-Moves return_ p = absurd (false≢true p)
  execute-Moves (define _) p = absurd (false≢true p)
