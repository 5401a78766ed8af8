-- ===== src/Interpreter/Table.antt =====
-- ruwren-sys/src/wren_opcodes.h and `getByteCountForArguments`: what the compiler's tables say of
-- each instruction, computed for all opcodes.
use ruwren.Prelude.{
  ℕ, zero, suc, ◌<◌, ◌≡◌, ◌↔◌, refl, Bool, true, false, ◌&&◌, ◌||◌, not, none, some, [], ◌∷◌, ◌==◌,
  if◌then◌else◌, get_or, arith, ==_iff,
}
use ruwren.Prelude.Bits.{passes_below, passes_below-passes}
use ruwren.Prelude.Int.{ℤ, pos, negsuc, eqb_ℤ}
use ruwren.Emit.{stack_effects, argument_bytes, code_closure}
use ruwren.Interpreter.Instructions.{
  Instruction, constant, null_, false_, true_, load_local_n, load_local, store_local, load_upvalue,
  store_upvalue, load_module_var, store_module_var, load_field_this, store_field_this, load_field,
  store_field, pop_, call, super_, jump, loop, jump_if, and_, or_, close_upvalue, return_, closure_,
  construct, end_module, define, decode,
}

-- By how much an instruction raises the stack.
unfoldable pub effect_of : Instruction → ℤ
effect_of constant = pos 1
effect_of null_ = pos 1
effect_of false_ = pos 1
effect_of true_ = pos 1
effect_of (load_local_n _) = pos 1
effect_of load_local = pos 1
effect_of store_local = pos 0
effect_of load_upvalue = pos 1
effect_of store_upvalue = pos 0
effect_of load_module_var = pos 1
effect_of store_module_var = pos 0
effect_of load_field_this = pos 1
effect_of store_field_this = pos 0
effect_of load_field = pos 0
effect_of store_field = negsuc 0
effect_of pop_ = negsuc 0
effect_of (call zero) = pos 0
effect_of (call (suc n)) = negsuc n
effect_of (super_ zero) = pos 0
effect_of (super_ (suc n)) = negsuc n
effect_of jump = pos 0
effect_of loop = pos 0
effect_of jump_if = negsuc 0
effect_of and_ = negsuc 0
effect_of or_ = negsuc 0
effect_of close_upvalue = negsuc 0
effect_of return_ = pos 0
effect_of closure_ = pos 1
effect_of construct = pos 0
effect_of end_module = pos 1
effect_of (define _) = pos 0

-- How many bytes of arguments it has; those of `closure_` depend on its function.
unfoldable pub width_of : Instruction → ℕ
width_of constant = 2
width_of null_ = 0
width_of false_ = 0
width_of true_ = 0
width_of (load_local_n _) = 0
width_of load_local = 1
width_of store_local = 1
width_of load_upvalue = 1
width_of store_upvalue = 1
width_of load_module_var = 2
width_of store_module_var = 2
width_of load_field_this = 1
width_of store_field_this = 1
width_of load_field = 1
width_of store_field = 1
width_of pop_ = 0
width_of (call _) = 2
width_of (super_ _) = 4
width_of jump = 2
width_of loop = 2
width_of jump_if = 2
width_of and_ = 2
width_of or_ = 2
width_of close_upvalue = 0
width_of return_ = 0
width_of closure_ = 2
width_of construct = 0
width_of end_module = 0
width_of (define _) = 0

abbrev pub is_define : Instruction → Bool
is_define (define _) = true
is_define _ = false

abbrev pub is_closure : Instruction → Bool
is_closure closure_ = true
is_closure _ = false

unfoldable fits_tables : ℕ → Bool
fits_tables op = elim (decode op) [
  | none ↦ true
  | some i ↦
      is_define i
      || eqb_ℤ (get_or stack_effects op (pos 0)) (effect_of i)
        && argument_bytes (λ constant. 0) (op ∷ []) 0 == width_of i
        && (if is_closure i then op == code_closure else not (op == code_closure))
]

all_fit : passes_below fits_tables 76 ≡ true
unfolding passes_below fits_tables decode effect_of width_of argument_bytes
all_fit = refl

-- An opcode that is decoded is below 76.
decode-lt : (op : ℕ) (i : Instruction) → decode op ≡ some i → op < 76
unfolding decode
decode-lt op i e = ground (arith, e)

unfoldable pub Fits : ℕ → Instruction → Type 0
Fits op i =
    (eqb_ℤ (get_or stack_effects op (pos 0)) (effect_of i) ≡ true)
    × (argument_bytes (λ constant. 0) (op ∷ []) 0 ≡ width_of i)
    × ((is_closure i ≡ true) ↔ (op ≡ code_closure))

fits_parts : (a b c : Bool) → (a && b && c) ≡ true → (a ≡ true) × (b ≡ true) × (c ≡ true)
fits_parts a b c h = ground (arith, h)

closure_iff :
    (op : ℕ) (b : Bool)
    → (if b then op == code_closure else not (op == code_closure)) ≡ true
    → (b ≡ true) ↔ (op ≡ code_closure)
closure_iff op b h = ground (arith, h)

pub decode-Fits : (op : ℕ) (i : Instruction) → decode op ≡ some i → is_define i ≡ false → Fits op i
unfolding fits_tables Fits
decode-Fits op i e d =
    let all = passes_below-passes fits_tables op 76 (decode-lt op i e) all_fit in
    let here = rw (fits_tables, e, d) at (all) in
    let (a, b, c) = fits_parts _ _ _ here in (a, (==_iff _ _).0 b, closure_iff op (is_closure i) c)
