-- ===== src/Classes/Bind.antt =====
-- ruwren-sys/src/wren_compiler.c, `wrenBindMethodCode`: the code of a method once the superclass of
-- its class is known.
use ruwren.Prelude.{
  ℕ, zero, suc, ◌+◌, ◌-◌, ◌*◌, ◌%◌, ◌^◌, Bool, true, false, ◌&&◌, Option, none, some, List, leb,
  ◌==◌, if◌then◌else◌, length, get_elem?, get_or, set,
}
use ruwren.Prelude.Int.{ℤ, pos, negsuc}
use ruwren.Emit.{argument_bytes, code_closure, code_end_}
use ruwren.Values.{Value, obj_val, ObjFn, ObjClosure, block}
use ruwren.Classes.{Classes, bind_method, update}

-- A byte and a number of fields, which is -1 in a foreign class, in eight bits.
abbrev pub add_byte : ℕ → ℤ → ℕ
add_byte byte (pos n) = (byte + n) % 256
add_byte byte (negsuc n) = (byte + 256 - (n + 1) % 256) % 256

abbrev pub is_field_op : ℕ → Bool
is_field_op op = leb 19 op && leb op 22

abbrev pub is_super_op : ℕ → Bool
is_super_op op = leb 41 op && leb op 57

abbrev pub short_at : List ℕ → ℕ → ℕ
short_at code i = get_or code i 0 * 2 ^ 8 + get_or code (i + 1) 0

abbrev pub function_at : List Value → ℕ → Option ℕ
function_at constants i = elim (get_elem? constants i) [ some (obj_val f) ↦ some f | _ ↦ none ]

-- The number of upvalues of a function in the constants.
abbrev pub upvalue_count : (ℕ → ObjFn) → List Value → ℕ → ℕ
upvalue_count fns constants i = elim (function_at constants i) [
  | none ↦ 0
  | some f ↦ (fns f).num_upvalues
]

module _ (superclass : ℕ) (num_fields : ℤ) where
  -- The instruction at `ip`, unless it is a closure.
  unfoldable pub bind_instruction : ℕ → ℕ → ObjFn → ObjFn
  bind_instruction op ip fn =
      if is_field_op op
      then record fn {
        code = set fn.code (ip + 1) (add_byte (get_or fn.code (ip + 1) 0) num_fields);
      }
      else if is_super_op op
      then record fn {
        constants = set fn.constants (short_at fn.code (ip + 3)) (obj_val superclass);
      }
      else fn

  -- From `ip` in the function at an address, which is `none` behind the code or without fuel; the fuel bounds the instructions on the way, those of
  -- a nested function included.
  unfoldable pub bind_method_code : ℕ → (ℕ → ObjFn) → ℕ → ℕ → Option (ℕ → ObjFn)
  unfolding bind_instruction
  bind_method_code zero fns a ip = none
  bind_method_code (suc fuel) fns a ip =
      let fn = fns a in
      let behind = ip + 1 + argument_bytes (upvalue_count fns fn.constants) fn.code ip in
      let op = get_or fn.code ip 0 in
      let bound = bind_instruction op ip fn in
      elim (leb (length fn.code) ip) [
        | true ↦ none
        | false ↦ elim (op == code_end_) [
          | true ↦ some fns
          | false ↦ elim (op == code_closure) [
            | false ↦ bind_method_code fuel (λ b. if b == a then bound else fns b) a behind
            | true ↦ elim (function_at fn.constants (short_at fn.code (ip + 1))) [
              | none ↦ none
              | some f ↦ elim (bind_method_code fuel fns f 0) [
                | none ↦ none
                | some inner ↦ bind_method_code fuel inner a behind
              ]
            ]
          ]
        ]
      ]

-- `bindMethod` of wren_vm.c for a method with a body, `is_static` for `CODE_METHOD_STATIC`:
-- the functions, and the classes. `class` is the address of the class that is being defined.
unfoldable pub bind_block :
    ℕ → Bool → ℕ → ℕ → ObjClosure → ℕ → (ℕ → ObjFn) → Classes → Option ((ℕ → ObjFn) × Classes)
unfolding bind_method_code
bind_block fuel is_static symbol closure_address closure class fns classes =
    let owner = if is_static then classes.class_of class else some class in
    elim owner [
      | none ↦ none
      | some c ↦
          let target = classes.class_at c in
          elim target.superclass [
            | none ↦ none
            | some superclass ↦ elim closure.fn [
              | none ↦ none
              | some f ↦
                  let parent = classes.class_at superclass in
                  elim (bind_method_code superclass parent.num_fields fuel fns f 0) [
                    | none ↦ none
                    | some bound ↦ some (
                      bound,
                      update c (bind_method symbol (block closure_address) target) classes,
                    )
                  ]
            ]
          ]
    ]
