-- ===== src/Interpreter/Slots.antt =====
-- ruwren-sys/src/wren_compiler.c and ruwren-sys/src/wren_vm.c: the height of the stack along a run
-- of the loop, against the slots that the compiler counts.
use ruwren.Prelude.{
  ℕ, ◌+◌, ◌≤◌, ◌≡◌, ap, true, some, List, [], ◌∷◌, length, get_elem?, get_or, arith,
}
use ruwren.Prelude.Int.{ℤ, pos, ◌+ℤ◌, pos_part, neg_part}
use ruwren.Scopes.{Compiler, emit_byte}
use ruwren.Emit.{stack_effects, emit_op}
use ruwren.Interpreter.State.{Machine, Running, running, load_running, stack_of}
use ruwren.Interpreter.Calls.{Natives}
use ruwren.Interpreter.Instructions.{Instruction, decode}
use ruwren.Interpreter.Step.{step}
use ruwren.Interpreter.Effects.{is_plain}
use ruwren.Interpreter.Heights.{pos-+ℤ, step-Advances}

-- Rounds of the loop in one frame that read these opcodes, of instructions that go on to the next.
pub data Straight (natives : Natives) (r : Running) : Machine → List ℕ → Machine → Type 0 where
  done : {m : Machine} → Straight natives r m [] m
  next :
      {m m₁ m₂ : Machine} {op : ℕ} {ops : List ℕ} {i : Instruction}
      → load_running m ≡ some r
      → get_elem? (r.fn).code m.ip ≡ some op
      → decode op ≡ some i
      → is_plain i ≡ true
      → step natives m ≡ running m₁
      → Straight natives r m₁ ops m₂
      → Straight natives r m (op ∷ ops) m₂

-- The compiler behind the emission of these opcodes.
unfoldable pub emit_ops : List ℕ → Compiler → Compiler
emit_ops [] c = c
emit_ops (op ∷ ops) c = emit_ops ops (emit_op op c)

-- The number of slots between `base` and the top is the compiler's `num_slots`.
abbrev pub HasSlots : ℕ → ℕ → Compiler → Type 0
HasSlots base height c = pos height ≡ pos base +ℤ c.num_slots

parts-+ℤ :
    (a b : ℤ)
    → pos_part (a +ℤ b) + neg_part a + neg_part b ≡ pos_part a + pos_part b + neg_part (a +ℤ b)
unfolding ◌+ℤ◌
parts-+ℤ a b = ground arith

+ℤ-pos : (h h' : ℕ) (e : ℤ) → pos h' ≡ pos h +ℤ e → h' + neg_part e ≡ h + pos_part e
+ℤ-pos h h' e rises =
    let p = parts-+ℤ (pos h) e in
    let up = ap pos_part rises in let down = ap neg_part rises in omega (arith, p, up, down)

emit_op-HasSlots :
    (base h h' op : ℕ) (c : Compiler)
    → HasSlots base h c
    → pos h' ≡ pos h +ℤ get_or stack_effects op (pos 0)
    → HasSlots base h' (emit_op op c)
unfolding emit_op emit_byte
emit_op-HasSlots base h h' op c has rises =
    let effect = get_or stack_effects op (pos 0) in
    let one = +ℤ-pos base h c.num_slots has in
    let two = +ℤ-pos h h' effect rises in
    pos-+ℤ base h' (c.num_slots +ℤ effect) (omega (arith, one, two, parts-+ℤ c.num_slots effect))

abbrev pub AtMost : ℤ → ℤ → Type 0
AtMost a b = pos_part a + neg_part b ≤ pos_part b + neg_part a

-- The most slots are at least the slots at hand, and never become fewer.
emit_op-AtMost :
    (op : ℕ) (c : Compiler)
    → AtMost (emit_op op c).num_slots (emit_op op c).max_slots
      × AtMost c.max_slots (emit_op op c).max_slots
unfolding emit_op emit_byte
emit_op-AtMost op c = (ground arith, ground arith)

AtMost-trans : (a b c : ℤ) → AtMost a b → AtMost b c → AtMost a c
AtMost-trans a b c one two = omega (arith, one, two)

emit_ops-AtMost : (ops : List ℕ) (c : Compiler) → AtMost c.max_slots (emit_ops ops c).max_slots
unfolding emit_ops
emit_ops-AtMost [] c = omega arith
emit_ops-AtMost (op ∷ ops) c =
    let (_, one) = emit_op-AtMost op c in
    AtMost-trans c.max_slots (emit_op op c).max_slots _ one (emit_ops-AtMost ops (emit_op op c))

-- If the slots above some base are as many as the compiler counts, at most its maximum, and rounds
-- of the loop in one frame go through instructions that neither jump, call, return, define a class
-- nor import, then they are still as many as the compiler counts behind those opcodes, and no more
-- than the maximum that it has counted once it has emitted these and any later opcodes.
pub Straight-fits :
    (natives : Natives) (r : Running) (m m₁ : Machine) (ops later : List ℕ) (base most : ℕ)
    (c : Compiler)
    → Straight natives r m ops m₁
    → HasSlots base (length (stack_of r.fiber m)) c
    → AtMost c.num_slots c.max_slots
    → (emit_ops later (emit_ops ops c)).max_slots ≡ pos most
    → HasSlots base (length (stack_of r.fiber m₁)) (emit_ops ops c)
      × (length (stack_of r.fiber m₁) ≤ base + most)
unfolding emit_ops
Straight-fits natives r m m₁ [] later base most c done has less is_most =
    let one = +ℤ-pos base (length (stack_of r.fiber m)) c.num_slots has in
    let two = emit_ops-AtMost later c in
    let three = rw is_most at (two) in (has, omega (arith, one, less, three))
Straight-fits natives r m m₁ (op ∷ ops) later base most c (next {m₁ = k} e f g p goes run) has less
      is_most =
    let a = step-Advances natives r m op _ k e f g p goes in
    let (fits, _) = emit_op-AtMost op c in
    Straight-fits natives r k m₁ ops later base most (emit_op op c) run
      (emit_op-HasSlots base (length (stack_of r.fiber m)) (length (stack_of r.fiber k)) op c has
        a.height)
      fits is_most
