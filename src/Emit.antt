-- ===== src/Emit.antt =====
-- ruwren-sys/src/wren_compiler.c: emitting instructions, jumps and loops, and what the interpreter
-- of wren_vm.c reads of them. An opcode is its place in wren_opcodes.h.
pub mod Jumps
pub mod Breaks
pub mod Loops
pub mod Branches
pub mod Choices
use ruwren.Prelude.{
  ℕ, zero, suc, ◌+◌, ◌-◌, ◌*◌, ◌/◌, ◌%◌, ◌^◌, Bool, ◌&&◌, ◌||◌, Option, none, some, List, [], ◌∷◌,
  ltb, leb, ◌==◌, if◌then◌else◌, length, get_or, set,
}
use ruwren.Prelude.Int.{ℤ, pos, negsuc, ◌+ℤ◌, ltb_ℤ}
use ruwren.Scopes.{
  Compiler, Loop, jump_too_far, break_outside, compile_error, emit_byte, discard_locals,
}

abbrev pub stack_effects : List ℤ
stack_effects =
    pos 1
    ∷ pos 1
    ∷ pos 1
    ∷ pos 1
    ∷ pos 1
    ∷ pos 1
    ∷ pos 1
    ∷ pos 1
    ∷ pos 1
    ∷ pos 1
    ∷ pos 1
    ∷ pos 1
    ∷ pos 1
    ∷ pos 1
    ∷ pos 0
    ∷ pos 1
    ∷ pos 0
    ∷ pos 1
    ∷ pos 0
    ∷ pos 1
    ∷ pos 0
    ∷ pos 0
    ∷ negsuc 0
    ∷ negsuc 0
    ∷ pos 0
    ∷ negsuc 0
    ∷ negsuc 1
    ∷ negsuc 2
    ∷ negsuc 3
    ∷ negsuc 4
    ∷ negsuc 5
    ∷ negsuc 6
    ∷ negsuc 7
    ∷ negsuc 8
    ∷ negsuc 9
    ∷ negsuc 10
    ∷ negsuc 11
    ∷ negsuc 12
    ∷ negsuc 13
    ∷ negsuc 14
    ∷ negsuc 15
    ∷ pos 0
    ∷ negsuc 0
    ∷ negsuc 1
    ∷ negsuc 2
    ∷ negsuc 3
    ∷ negsuc 4
    ∷ negsuc 5
    ∷ negsuc 6
    ∷ negsuc 7
    ∷ negsuc 8
    ∷ negsuc 9
    ∷ negsuc 10
    ∷ negsuc 11
    ∷ negsuc 12
    ∷ negsuc 13
    ∷ negsuc 14
    ∷ negsuc 15
    ∷ pos 0
    ∷ pos 0
    ∷ negsuc 0
    ∷ negsuc 0
    ∷ negsuc 0
    ∷ negsuc 0
    ∷ pos 0
    ∷ pos 1
    ∷ pos 0
    ∷ pos 0
    ∷ negsuc 0
    ∷ negsuc 1
    ∷ negsuc 0
    ∷ negsuc 1
    ∷ negsuc 1
    ∷ pos 1
    ∷ pos 1
    ∷ pos 1
    ∷ pos 0
    ∷ []

abbrev pub code_constant : ℕ
code_constant = 0

abbrev pub code_load_local_0 : ℕ
code_load_local_0 = 4

abbrev pub code_load_local : ℕ
code_load_local = 13

abbrev pub code_store_module_var : ℕ
code_store_module_var = 18

abbrev pub code_jump : ℕ
code_jump = 58

abbrev pub code_loop : ℕ
code_loop = 59

abbrev pub code_jump_if : ℕ
code_jump_if = 60

abbrev pub code_closure : ℕ
code_closure = 65

abbrev pub code_end_ : ℕ
code_end_ = 76

abbrev pub code_call_0 : ℕ
code_call_0 = 24

abbrev pub code_super_0 : ℕ
code_super_0 = 41

unfoldable pub emit_op : ℕ → Compiler → Compiler
emit_op op c =
    let c' = (emit_byte op c).1 in
    let slots = c'.num_slots +ℤ get_or stack_effects op (pos 0) in
    record c' {
      num_slots = slots;
      max_slots = if ltb_ℤ c'.max_slots slots then slots else c'.max_slots;
    }

-- The argument by the bits of the `int`.
unfoldable pub emit_short : ℕ → Compiler → Compiler
emit_short arg c = (emit_byte (arg % 256) (emit_byte (arg / 2 ^ 8 % 256) c).1).1

unfoldable pub emit_byte_arg : ℕ → ℕ → Compiler → ℕ × Compiler
emit_byte_arg op arg c = emit_byte arg (emit_op op c)

unfoldable pub emit_short_arg : ℕ → ℕ → Compiler → Compiler
emit_short_arg op arg c = emit_short arg (emit_op op c)

-- The index of the placeholder, and the compiler.
unfoldable pub emit_jump : ℕ → Compiler → ℕ × Compiler
emit_jump op c = let (last, c') = emit_byte 0xff (emit_byte 0xff (emit_op op c)).1 in (last - 1, c')

unfoldable pub load_local : ℕ → Compiler → Compiler
load_local slot c =
    if leb slot 8
    then emit_op (code_load_local_0 + slot) c
    else (emit_byte_arg code_load_local slot c).1

abbrev pub max_jump : ℕ
max_jump = 2 ^ 16

unfoldable pub patch_jump : ℕ → Compiler → Compiler
patch_jump offset c =
    let jump = length c.code - offset - 2 in
    let checked = if ltb max_jump jump then compile_error jump_too_far c else c in
    record checked {
      code = set (set checked.code offset (jump / 2 ^ 8 % 256)) (offset + 1) (jump % 256);
    }

-- `fn_upvalues` gives the number of upvalues of the function at a place of the constant table.
unfoldable pub argument_bytes : (ℕ → ℕ) → List ℕ → ℕ → ℕ
argument_bytes fn_upvalues code ip =
    let op = get_or code ip 0 in
    if op == code_closure
    then 2 + fn_upvalues (get_or code (ip + 1) 0 * 2 ^ 8 + get_or code (ip + 2) 0) * 2
    else if op == 13 || leb 14 op && leb op 16 || leb 19 op && leb op 22 || op == 68
    then 1
    else if op == 0
        || leb 17 op && leb op 18
        || leb 24 op && leb op 40
        || leb 58 op && leb op 62
        || leb 71 op && leb op 72
        || leb 74 op && leb op 75
    then 2
    else if leb 41 op && leb op 57
    then 4
    else 0

unfoldable pub start_loop : Compiler → Compiler
start_loop c = record c {
  loops =
      record { start = length c.code; exit_jump = 0; body = 0; scope_depth = c.scope_depth }
      ∷ c.loops;
}

-- A change to the innermost loop.
abbrev pub in_loop : (Loop → Loop) → List Loop → List Loop
in_loop change [] = []
in_loop change (l ∷ ls) = change l ∷ ls

unfoldable pub test_exit_loop : Compiler → Compiler
test_exit_loop c =
    let (exit, c') = emit_jump code_jump_if c in
    record c' { loops = in_loop (λ l. record l { exit_jump = exit }) c'.loops }

-- The compiler before `statement` compiles the body.
unfoldable pub loop_body : Compiler → Compiler
loop_body c = record c { loops = in_loop (λ l. record l { body = length c.code }) c.loops }

-- A `break` statement.
unfoldable pub break_statement : List Loop → Compiler → Compiler
break_statement [] c = compile_error break_outside c
break_statement (l ∷ _) c = (emit_jump code_end_ (discard_locals (l.scope_depth + 1) c).1).1

-- The loop of `endLoop` over the body, from `i`; with as much fuel as there are bytes.
unfoldable pub patch_breaks : (ℕ → ℕ) → ℕ → ℕ → Compiler → Compiler
patch_breaks fn_upvalues zero i c = c
patch_breaks fn_upvalues (suc fuel) i c =
    let jump = patch_jump (i + 1) (record c { code = set c.code i code_jump }) in
    let patched = patch_breaks fn_upvalues fuel (i + 3) jump in
    let skipped = patch_breaks fn_upvalues fuel (i + 1 + argument_bytes fn_upvalues c.code i) c in
    if ltb i (length c.code)
    then (if get_or c.code i 0 == code_end_ then patched else skipped)
    else c

unfoldable pub end_loop : (ℕ → ℕ) → List Loop → Compiler → Compiler
end_loop fn_upvalues [] c = c
end_loop fn_upvalues (l ∷ outer) c =
    let looped = emit_short_arg code_loop (length c.code + 3 - l.start) c in
    let exit = patch_jump l.exit_jump looped in
    record (patch_breaks fn_upvalues (length exit.code) l.body exit) { loops = outer }

-- What the interpreter reads at `ip`: `READ_SHORT`, and the `ip` behind a jump and behind a loop
-- instruction, whose argument is at `ip`.
unfoldable pub read_short : List ℕ → ℕ → ℕ
read_short code ip = get_or code ip 0 * 2 ^ 8 + get_or code (ip + 1) 0

unfoldable pub jump_target : List ℕ → ℕ → ℕ
jump_target code ip = ip + 2 + read_short code ip

unfoldable pub loop_target : List ℕ → ℕ → ℕ
loop_target code ip = ip + 2 - read_short code ip
