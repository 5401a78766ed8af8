-- ===== src/Interpreter/Heights.antt =====
-- ruwren-sys/src/wren_vm.c, `runInterpreter`, against ruwren-sys/src/wren_compiler.c: a round of
-- the loop, with what the compiler's table and `getByteCountForArguments` say of the opcode.
use ruwren.Prelude.{
  ℕ, zero, suc, ◌+◌, ◌*◌, ◌^◌, ◌≡◌, refl, sym, ap, ◌∙◌, true, false, none, some, List, [], ◌∷◌, leb,
  ◌==◌, length, get_elem?, get_or, arith, Bool-cases, inl, inr, if_both, if_split, ==_ne,
}
use mathlib.Core.Bool.{false≢true}
use ruwren.Prelude.Int.{ℤ, pos, ◌+ℤ◌, eqb_ℤ, pos_part, neg_part}
use ruwren.Emit.{stack_effects, argument_bytes, code_closure, read_short}
use ruwren.Interpreter.State.{Machine, Running, running, or_fault, load_running, stack_of, advance}
use ruwren.Interpreter.Calls.{Natives}
use ruwren.Interpreter.Instructions.{Instruction, closure_, define, decode}
use ruwren.Interpreter.Step.{step, upvalues_of}
use ruwren.Interpreter.Table.{effect_of, width_of, is_define, is_closure, Fits, decode-Fits}
use ruwren.Interpreter.Moves.{Ensures, Moves}
use ruwren.Interpreter.Effects.{is_plain, width_in, execute-Moves}

-- The machine behind the instruction at `ip`, with the stack raised by what the compiler counts.
pub record Advances (r : Running) (op : ℕ) (m m' : Machine) : Type 0 where
  pub same_fiber : m'.vm.fiber ≡ m.vm.fiber
  pub same_frames : (m'.vm.fibers r.fiber).frames ≡ (m.vm.fibers r.fiber).frames
  pub height :
      pos (length (stack_of r.fiber m'))
      ≡ pos (length (stack_of r.fiber m)) +ℤ get_or stack_effects op (pos 0)
  pub behind : m'.ip ≡ m.ip + 1 + argument_bytes (upvalues_of r m) (r.fn).code m.ip

plain-define : (i : Instruction) → is_plain i ≡ true → is_define i ≡ false
unfolding is_plain
plain-define (define _) p = absurd (false≢true p)
plain-define _ p = refl

-- The integer sum of a height and an effect.
pub pos-+ℤ : (h h' : ℕ) (e : ℤ) → h' + neg_part e ≡ h + pos_part e → pos h' ≡ pos h +ℤ e
unfolding ◌+ℤ◌
pos-+ℤ h h' e eq =
    if_split (λ z. pos h' ≡ z) (leb (0 + neg_part e) (h + pos_part e))
      (λ _. ap pos (omega (arith, eq))) (λ no. ground (arith, no, eq))

same_effect :
    (a b : ℤ) (h h' : ℕ)
    → eqb_ℤ a b ≡ true
    → h' + neg_part b ≡ h + pos_part b
    → h' + neg_part a ≡ h + pos_part a
same_effect a b h h' e eq = ground (arith, e, eq)

argument_bytes-at :
    (upvalues : ℕ → ℕ) (code : List ℕ) (ip op : ℕ)
    → get_or code ip 0 ≡ op
    → (op == code_closure) ≡ false
    → argument_bytes upvalues code ip ≡ argument_bytes (λ constant. 0) (op ∷ []) 0
unfolding argument_bytes
argument_bytes-at upvalues code ip op e other = rw (e, other) refl

is_closure-same : (i : Instruction) → is_closure i ≡ true → i ≡ closure_
is_closure-same closure_ h = refl
is_closure-same _ h = absurd (false≢true h)

width_in-same :
    (r : Running) (m : Machine) (i : Instruction)
    → is_closure i ≡ false
    → width_in r m i ≡ width_of i
unfolding width_in
width_in-same r m closure_ h = absurd (false≢true (sym h))
width_in-same r m _ h = refl

get_elem?-get_or : (xs : List ℕ) (i x : ℕ) → get_elem? xs i ≡ some x → get_or xs i 0 ≡ x
get_elem?-get_or [] i x e = absurd cc
get_elem?-get_or (y ∷ ys) zero x e = ap (λ o. elim o [ none ↦ y | some z ↦ z ]) e
get_elem?-get_or (y ∷ ys) (suc i) x e = get_elem?-get_or ys i x e

closure_width :
    (r : Running) (m : Machine) (op : ℕ)
    → get_or (r.fn).code m.ip 0 ≡ op
    → op ≡ code_closure
    → argument_bytes (upvalues_of r m) (r.fn).code m.ip ≡ width_in r (advance 1 m) closure_
unfolding argument_bytes width_in read_short
closure_width r m op e closure =
    rw (e, closure)
      (ap
        (λ low.
          2
          + upvalues_of r m (get_or (r.fn).code (m.ip + 1) 0 * 2 ^ 8 + get_or (r.fn).code low 0)
            * 2)
        (omega arith))

-- The width of an instruction that is decoded at `ip`.
argument_bytes-width :
    (r : Running) (m : Machine) (op : ℕ) (i : Instruction)
    → get_or (r.fn).code m.ip 0 ≡ op
    → Fits op i
    → argument_bytes (upvalues_of r m) (r.fn).code m.ip ≡ width_in r (advance 1 m) i
unfolding Fits
argument_bytes-width r m op i e (effect, width, closes) = elim (Bool-cases (is_closure i)) [
  | inl closure ↦
      closure_width r m op e (closes.0 closure)
      ∙ ap (width_in r (advance 1 m)) (sym (is_closure-same i closure))
  | inr other ↦
      let differs = ==_ne op code_closure (λ same. false≢true (sym other ∙ closes.1 same)) in
      argument_bytes-at (upvalues_of r m) (r.fn).code m.ip op e differs
      ∙ width
      ∙ sym (width_in-same r (advance 1 m) i other)
]

module _ (natives : Natives) (r : Running) (m : Machine) where
  -- If a round of the loop reads an opcode, other than those that jump, call, return, define a
  -- class or import, and the loop goes on, then it goes on behind the instruction, whose length is
  -- the one that `getByteCountForArguments` gives for the closure's code, in the same fiber with
  -- the same frames, and the height of the stack has changed by what the compiler's table of stack
  -- effects says of the opcode.
  pub step-Advances :
      (op : ℕ) (i : Instruction) (m' : Machine)
      → load_running m ≡ some r
      → get_elem? (r.fn).code m.ip ≡ some op
      → decode op ≡ some i
      → is_plain i ≡ true
      → step natives m ≡ running m'
      → Advances r op m m'
  unfolding step Ensures or_fault Fits
  step-Advances op i m' loads reads decodes plain goes =
      let f = decode-Fits op i decodes (plain-define i plain) in
      let goal = Moves r.fiber (effect_of i) (width_in r (advance 1 m) i) (advance 1 m) in
      let inside =
        leb (m.ip + 1 + argument_bytes (upvalues_of r m) (r.fn).code m.ip) (length (r.fn).code) in
      let all : Ensures goal (step natives m) =
        rw (loads, reads, decodes)
          (if_both (Ensures goal) inside (execute-Moves natives r (advance 1 m) i plain) tt) in
      let moves = rw goes at (all) in
      let reads_or = get_elem?-get_or (r.fn).code m.ip op reads in
      let width = argument_bytes-width r m op i reads_or f in
      record {
        same_fiber = moves.same_fiber;
        same_frames = moves.same_frames;
        height = pos-+ℤ _ _ _ (same_effect _ (effect_of i) _ _ f.0 moves.height);
        behind = moves.behind ∙ ap (λ w. m.ip + 1 + w) (sym width);
      }
