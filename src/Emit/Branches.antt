-- ===== src/Emit/Branches.antt =====
-- ruwren-sys/src/wren_compiler.c: `and_`, `or_`, `conditional` and `ifStatement`, and where their
-- jumps lead. What the parser emits for an operand or a statement between the jumps is an argument.
use ruwren.Prelude.{
  ℕ, ◌+◌, ◌-◌, ◌%◌, ◌≤◌, ◌<◌, ◌≡◌, refl, ap, ◌∙◌, Option, none, some, List, [], ◌∷◌, ◌++◌, length,
  get_or, length-append, get_or-append, append_assoc, arith,
}
use ruwren.Scopes.{Compiler, emit_byte}
use ruwren.Emit.{
  emit_op, emit_jump, patch_jump, jump_target, read_short, max_jump, code_jump, code_jump_if,
}
use ruwren.Emit.Jumps.{patch_jump-lands}

abbrev pub code_and : ℕ
code_and = 61

abbrev pub code_or : ℕ
code_or = 62

unfoldable pub and_ : (Compiler → Compiler) → Compiler → Compiler
and_ right c = let (jump, c') = emit_jump code_and c in patch_jump jump (right c')

unfoldable pub or_ : (Compiler → Compiler) → Compiler → Compiler
or_ right c = let (jump, c') = emit_jump code_or c in patch_jump jump (right c')

unfoldable pub conditional : (Compiler → Compiler) → (Compiler → Compiler) → Compiler → Compiler
conditional then_branch else_branch c =
    let (if_jump, c₁) = emit_jump code_jump_if c in
    let (else_jump, c₂) = emit_jump code_jump (then_branch c₁) in
    patch_jump else_jump (else_branch (patch_jump if_jump c₂))

-- From the jump behind the condition; `none` stands for no `else`.
unfoldable pub if_statement :
    (Compiler → Compiler) → Option (Compiler → Compiler) → Compiler → Compiler
if_statement then_branch (some else_branch) c =
    let (if_jump, c₁) = emit_jump code_jump_if c in
    let (else_jump, c₂) = emit_jump code_jump (then_branch c₁) in
    patch_jump else_jump (else_branch (patch_jump if_jump c₂))
if_statement then_branch none c =
    let (if_jump, c₁) = emit_jump code_jump_if c in patch_jump if_jump (then_branch c₁)

-- A jump instruction at `at`, whole inside the code.
pub record HasJump (code : List ℕ) (at op target : ℕ) : Type 0 where
  pub opcode : get_or code at 0 ≡ op
  pub whole : at + 3 ≤ length code
  pub leads : jump_target code (at + 1) ≡ target

-- Only new bytes, behind the others.
pub record Extends (before after : Compiler) : Type 0 where
  pub new : List ℕ
  pub code : after.code ≡ before.code ++ new

get_or-next : (xs ys : List ℕ) → get_or (xs ++ ys) (length xs) 0 ≡ get_or ys 0 0
get_or-next [] ys = refl
get_or-next (x ∷ xs) ys = get_or-next xs ys

pub emit_jump-length :
    (op : ℕ) (c : Compiler)
    → (length (emit_jump op c).1.code ≡ length c.code + 3)
      × ((emit_jump op c).0 ≡ length c.code + 1)
      × (get_or (emit_jump op c).1.code (length c.code) 0 ≡ op % 256)
unfolding emit_jump emit_op emit_byte
emit_jump-length op c =
    let one = length-append c.code (op % 256 ∷ []) in
    let two = length-append (c.code ++ op % 256 ∷ []) (0xff ∷ []) in
    let three = length-append (c.code ++ op % 256 ∷ [] ++ 0xff ∷ []) (0xff ∷ []) in
    (
      omega (arith, one, two, three),
      omega (arith, one, two, three),
      ap (λ code. get_or code (length c.code) 0)
            (append_assoc (c.code ++ op % 256 ∷ []) (0xff ∷ []) (0xff ∷ [])
              ∙ append_assoc c.code (op % 256 ∷ []) (0xff ∷ 0xff ∷ []))
          ∙ get_or-next c.code (op % 256 ∷ 0xff ∷ 0xff ∷ []),
    )

pub emit_jump-Extends : (op : ℕ) (c : Compiler) → Extends c (emit_jump op c).1
unfolding emit_jump emit_op emit_byte
emit_jump-Extends op c = record {
  new = op % 256 ∷ 0xff ∷ 0xff ∷ [];
  code =
      append_assoc (c.code ++ op % 256 ∷ []) (0xff ∷ []) (0xff ∷ [])
      ∙ append_assoc c.code (op % 256 ∷ []) (0xff ∷ 0xff ∷ []);
}

pub Extends-trans : (a b c : Compiler) → Extends a b → Extends b c → Extends a c
Extends-trans a b c x y = record {
  new = x.new ++ y.new;
  code = y.code ∙ ap (λ code. code ++ y.new) x.code ∙ append_assoc a.code x.new y.new;
}

-- More code behind a jump does not change it.
pub HasJump-append :
    (code later : List ℕ) (at op target : ℕ)
    → HasJump code at op target
    → HasJump (code ++ later) at op target
unfolding jump_target read_short
HasJump-append code later at op target j =
    let whole = j.whole in
    let same = λ (i : ℕ). get_or-append code later i 0 in
    let n = length-append code later in
    let leads = j.leads in
    record {
      opcode = ground (arith, same at, whole) ∙ j.opcode;
      whole = omega (arith, n, whole);
      leads = ground (arith, same (at + 1), same (at + 2), whole, leads);
    }

-- The jump that `patchJump` completes.
pub patch_jump-HasJump :
    (at op : ℕ) (c : Compiler)
    → get_or c.code at 0 ≡ op
    → at + 3 ≤ length c.code
    → length c.code - (at + 1) - 2 < max_jump
    → HasJump (patch_jump (at + 1) c).code at op (length c.code)
patch_jump-HasJump at op c e whole near =
    let (leads, patched, _) = patch_jump-lands (at + 1) c (omega (arith, whole)) near in
    let n = patched.same_length in
    record {
      opcode = patched.others at (omega arith) (omega arith) ∙ e;
      whole = omega (arith, n, whole);
      leads = leads ∙ n;
    }

-- A jump in front of it stays as it is.
pub HasJump-patch_jump :
    (at op target offset : ℕ) (c : Compiler)
    → HasJump c.code at op target
    → at + 3 ≤ offset
    → offset + 2 ≤ length c.code
    → length c.code - offset - 2 < max_jump
    → HasJump (patch_jump offset c).code at op target
unfolding jump_target read_short
HasJump-patch_jump at op target offset c j before inside near =
    let (_, patched, _) = patch_jump-lands offset c inside near in
    let n = patched.same_length in
    let whole = j.whole in
    let leads = j.leads in
    let high = patched.others (at + 1) (omega (arith, before)) (omega (arith, before)) in
    let low = patched.others (at + 2) (omega (arith, before)) (omega (arith, before)) in
    record {
      opcode = patched.others at (omega (arith, before)) (omega (arith, before)) ∙ j.opcode;
      whole = omega (arith, n, whole);
      leads = omega (arith, high, low, leads);
    }

-- A condition's jump over what `body` emits.
abbrev pub over : ℕ → (Compiler → Compiler) → Compiler → Compiler
over op body c = let (jump, c') = emit_jump op c in patch_jump jump (body c')

-- The lengths and the byte of a jump, once more code follows it.
pub Extends-jump :
    (op : ℕ) (c c' : Compiler)
    → op < 256
    → Extends (emit_jump op c).1 c'
    → (length c.code + 3 ≤ length c'.code) × (get_or c'.code (length c.code) 0 ≡ op)
Extends-jump op c c' byte x =
    let c₁ = (emit_jump op c).1 in
    let (n, _, e) = emit_jump-length op c in
    let longer = ap length x.code ∙ length-append c₁.code x.new in
    let same =
      ap (λ code. get_or code (length c.code) 0) x.code
      ∙ get_or-append c₁.code x.new (length c.code) 0 in
    (omega (arith, n, longer), ground (arith, n, e, same, byte))

pub over-HasJump :
    (op : ℕ) (body : Compiler → Compiler) (c : Compiler)
    → op < 256
    → Extends (emit_jump op c).1 (body (emit_jump op c).1)
    → length (body (emit_jump op c).1).code < length c.code + 3 + max_jump
    → HasJump (over op body c).code (length c.code) op (length (over op body c).code)
over-HasJump op body c byte x near =
    let c' = body (emit_jump op c).1 in
    let (_, at, _) = emit_jump-length op c in
    let (whole, e) = Extends-jump op c c' byte x in
    let j = patch_jump-HasJump (length c.code) op c' e whole (omega (arith, near, whole)) in
    let (_, patched, _) =
      patch_jump-lands (length c.code + 1) c' (omega (arith, whole)) (omega (arith, near, whole)) in
    rw (at, patched.same_length) j
