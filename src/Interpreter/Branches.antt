-- ===== src/Interpreter/Branches.antt =====
-- ruwren-sys/src/wren_compiler.c, `and_`, `or_`, `conditional` and `ifStatement`, with
-- ruwren-sys/src/wren_vm.c, `runInterpreter`: what their code does when it runs.
use ruwren.Prelude.{
  ℕ, zero, suc, ◌+◌, ◌<◌, ◌≡◌, refl, ap, ◌∙◌, Bool, true, false, not, none, some, List, [], ◌∷◌,
  ◌++◌, leb, if◌then◌else◌, length, get_elem?, get_or, arith,
}
use ruwren.Values.{Value}
use ruwren.Scopes.{Compiler}
use ruwren.Emit.{emit_jump, argument_bytes, jump_target, max_jump, code_jump, code_jump_if}
use ruwren.Emit.Branches.{
  and_, or_, conditional, if_statement, code_and, code_or, HasJump, HasJump-append, Extends, over,
  over-HasJump,
}
use ruwren.Emit.Choices.{tested, first_done, second, second_done, two_jumps-IsChoice}
use ruwren.Interpreter.State.{
  Machine, Running, running, or_fault, load_running, stack_of, set_stack, advance,
}
use ruwren.Interpreter.Calls.{Natives}
use ruwren.Interpreter.Instructions.{Instruction, jump, decode, is_falsy}
use ruwren.Interpreter.Instructions
use ruwren.Interpreter.Step.{branch, popped, execute, step, upvalues_of}

-- The instructions that jump on a condition.
pub data Test : Type 0 where
  on_false on_and on_or : Test

abbrev pub opcode_of : Test → ℕ
opcode_of on_false = code_jump_if
opcode_of on_and = code_and
opcode_of on_or = code_or

-- Whether it jumps, and the stack where it jumps to.
abbrev pub jumps : Test → Value → Bool
jumps on_false v = is_falsy v
jumps on_and v = is_falsy v
jumps on_or v = not (is_falsy v)

abbrev pub jumped : Test → Value → List Value → List Value
jumped on_false v rest = rest
jumped on_and v rest = v ∷ rest
jumped on_or v rest = v ∷ rest

abbrev instruction_of : Test → Instruction
instruction_of on_false = Instructions.jump_if
instruction_of on_and = Instructions.and_
instruction_of on_or = Instructions.or_

decode-opcode_of : (t : Test) → decode (opcode_of t) ≡ some (instruction_of t)
unfolding decode
decode-opcode_of on_false = refl
decode-opcode_of on_and = refl
decode-opcode_of on_or = refl

argument_bytes-opcode_of :
    (t : Test) (upvalues : ℕ → ℕ) (code : List ℕ) (ip : ℕ)
    → get_or code ip 0 ≡ opcode_of t
    → argument_bytes upvalues code ip ≡ 2
unfolding argument_bytes
argument_bytes-opcode_of on_false upvalues code ip e = rw e refl
argument_bytes-opcode_of on_and upvalues code ip e = rw e refl
argument_bytes-opcode_of on_or upvalues code ip e = rw e refl

get_elem?-of_get_or : (xs : List ℕ) (i : ℕ) → i < length xs → get_elem? xs i ≡ some (get_or xs i 0)
get_elem?-of_get_or [] i h = absurd (omega arith)
get_elem?-of_get_or (x ∷ xs) zero h = refl
get_elem?-of_get_or (x ∷ xs) (suc i) h = get_elem?-of_get_or xs i (omega arith)

module _ (natives : Natives) (r : Running) (m : Machine) (loads : load_running m ≡ some r) where
  reads :
      (op target : ℕ) → HasJump (r.fn).code m.ip op target → get_elem? (r.fn).code m.ip ≡ some op
  reads op target j =
      let whole = j.whole in
      get_elem?-of_get_or (r.fn).code m.ip (omega (arith, whole)) ∙ ap some j.opcode

  -- A jump instruction is whole, so the loop carries it out.
  step-jump :
      (op target : ℕ) (i : Instruction)
      → HasJump (r.fn).code m.ip op target
      → decode op ≡ some i
      → argument_bytes (upvalues_of r m) (r.fn).code m.ip ≡ 2
      → step natives m ≡ execute natives i r (advance 1 m)
  unfolding step or_fault
  step-jump op target i j d two =
      let whole = j.whole in
      let inside : leb (m.ip + 1 + 2) (length (r.fn).code) ≡ true = ground (arith, whole) in
      rw (loads, reads op target j, d, two, inside) refl

  branch_running :
      (b : Bool) (target : ℕ) (there here : List Value)
      → jump_target (r.fn).code (m.ip + 1) ≡ target
      → branch r (advance 1 m) b there here
        ≡ running (
            if b
            then record (set_stack r.fiber there m) { ip = target }
            else record (set_stack r.fiber here m) { ip = m.ip + 3 })
  branch_running true target there here e = rw e refl
  branch_running false target there here e =
      ap (λ ip. running (record (set_stack r.fiber here m) { ip = ip })) (omega arith)

  execute-test :
      (t : Test) (v : Value) (rest : List Value)
      → stack_of r.fiber m ≡ v ∷ rest
      → execute natives (instruction_of t) r (advance 1 m)
        ≡ branch r (advance 1 m) (jumps t v) (jumped t v rest) rest
  unfolding execute
  execute-test on_false v rest s = rw (execute, popped, s) refl
  execute-test on_and v rest s = rw (execute, popped, s) refl
  execute-test on_or v rest s = rw (execute, popped, s) refl

  test-step :
      (t : Test) (target : ℕ) (v : Value) (rest : List Value)
      → HasJump (r.fn).code m.ip (opcode_of t) target
      → stack_of r.fiber m ≡ v ∷ rest
      → step natives m
        ≡ running (
            if jumps t v
            then record (set_stack r.fiber (jumped t v rest) m) { ip = target }
            else record (set_stack r.fiber rest m) { ip = m.ip + 3 })
  test-step t target v rest j s =
      step-jump (opcode_of t) target (instruction_of t) j (decode-opcode_of t)
        (argument_bytes-opcode_of t (upvalues_of r m) (r.fn).code m.ip j.opcode)
      ∙ execute-test t v rest s
      ∙ branch_running (jumps t v) target (jumped t v rest) rest j.leads

  jump_step :
      (target : ℕ)
      → HasJump (r.fn).code m.ip code_jump target
      → step natives m ≡ running (record m { ip = target })
  unfolding decode argument_bytes execute
  jump_step target j =
      step-jump code_jump target jump j refl (rw (j.opcode) refl)
      ∙ ap (λ ip. running (record m { ip = ip })) j.leads

-- What the compiler emits behind a condition, with one operand or branch.
unfoldable pub compile_test : Test → (Compiler → Compiler) → Compiler → Compiler
unfolding and_ or_ if_statement
compile_test on_false body c = if_statement body none c
compile_test on_and body c = and_ body c
compile_test on_or body c = or_ body c

compile_test-over :
    (t : Test) (body : Compiler → Compiler) (c : Compiler)
    → compile_test t body c ≡ over (opcode_of t) body c
unfolding compile_test and_ or_ if_statement
compile_test-over on_false body c = refl
compile_test-over on_and body c = refl
compile_test-over on_or body c = refl

opcode_of-lt : (t : Test) → opcode_of t < 256
opcode_of-lt on_false = omega arith
opcode_of-lt on_and = omega arith
opcode_of-lt on_or = omega arith

-- For the code that the compiler emits for `&&`, `||` or an `if` without `else`, whose operand or
-- body only appends code and less than 65536 bytes of it, a round of the loop at the jump with a
-- condition on the stack leads behind the whole code if the condition decides, with the condition
-- kept for an operator and dropped for an `if`, and otherwise to the first byte of the operand or
-- body, with the condition dropped.
pub compile_test-runs :
    (natives : Natives) (r : Running) (m : Machine) (t : Test) (body : Compiler → Compiler)
    (c : Compiler) (later : List ℕ) (v : Value) (rest : List Value)
    → load_running m ≡ some r
    → (r.fn).code ≡ (compile_test t body c).code ++ later
    → m.ip ≡ length c.code
    → stack_of r.fiber m ≡ v ∷ rest
    → Extends (emit_jump (opcode_of t) c).1 (body (emit_jump (opcode_of t) c).1)
    → length (body (emit_jump (opcode_of t) c).1).code < length c.code + 3 + max_jump
    → step natives m
      ≡ running (
          if jumps t v
          then record (set_stack r.fiber (jumped t v rest) m) {
            ip = length (compile_test t body c).code;
          }
          else record (set_stack r.fiber rest m) { ip = length c.code + 3 })
compile_test-runs natives r m t body c later v rest loads e at s x near =
    let whole = compile_test t body c in
    let target = length whole.code in
    let j : HasJump whole.code (length c.code) (opcode_of t) target =
      rw (compile_test-over t body c) (over-HasJump (opcode_of t) body c (opcode_of-lt t) x near) in
    let here : HasJump (r.fn).code m.ip (opcode_of t) target =
      rw (e, at) (HasJump-append whole.code later (length c.code) (opcode_of t) target j) in
    test-step natives r m loads t target v rest here s
    ∙ ap
        (λ ip. running (
          if jumps t v
          then record (set_stack r.fiber (jumped t v rest) m) { ip = target }
          else record (set_stack r.fiber rest m) { ip = ip + 3 }))
        at

-- For the code that the compiler emits for the conditional operator, whose branches only append
-- code and less than 65536 bytes of it with the jump between them, a round of the loop at the
-- condition drops it and leads to the first byte of the second branch if it is false or null, and
-- otherwise to that of the first branch; and a round behind the first branch leads behind the
-- whole code.
pub conditional-runs :
    (natives : Natives) (r : Running) (m m' : Machine)
    (then_branch else_branch : Compiler → Compiler) (c : Compiler) (later : List ℕ) (v : Value)
    (rest : List Value)
    → load_running m ≡ some r
    → load_running m' ≡ some r
    → (r.fn).code ≡ (conditional then_branch else_branch c).code ++ later
    → m.ip ≡ length c.code
    → m'.ip ≡ length (first_done then_branch else_branch c).code
    → stack_of r.fiber m ≡ v ∷ rest
    → Extends (tested then_branch else_branch c) (first_done then_branch else_branch c)
    → Extends (second then_branch else_branch c) (second_done then_branch else_branch c)
    → length (first_done then_branch else_branch c).code < length c.code + max_jump
    → length (second_done then_branch else_branch c).code
      < length (first_done then_branch else_branch c).code + 3 + max_jump
    → (step natives m
        ≡ running (
            if is_falsy v
            then record (set_stack r.fiber rest m) {
              ip = length (first_done then_branch else_branch c).code + 3;
            }
            else record (set_stack r.fiber rest m) { ip = m.ip + 3 }))
      × (step natives m'
          ≡ running (record m' { ip = length (conditional then_branch else_branch c).code }))
unfolding conditional
conditional-runs natives r m m' then_branch else_branch c later v rest loads loads' e at at' s x y
      near near' =
    let choice = two_jumps-IsChoice then_branch else_branch c x y near near' in
    let whole = conditional then_branch else_branch c in
    let middle = length (first_done then_branch else_branch c).code in
    let test : HasJump (r.fn).code m.ip code_jump_if (middle + 3) =
      rw (e, at)
        (HasJump-append whole.code later (length c.code) code_jump_if (middle + 3) (choice.test)) in
    let skip : HasJump (r.fn).code m'.ip code_jump (length whole.code) =
      rw (e, at')
        (HasJump-append whole.code later middle code_jump (length whole.code) (choice.skip)) in
    (
      test-step natives r m loads on_false (middle + 3) v rest test s,
      jump_step natives r m' loads' (length whole.code) skip,
    )
