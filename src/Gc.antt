-- ===== src/Gc.antt =====
-- The garbage collector: `wrenGrayObj` to `wrenBlackenObjects` of ruwren-sys/src/wren_value.c,
-- `wrenCollectGarbage` of wren_vm.c, and `wrenMarkCompiler` of wren_compiler.c. The objects do not
-- change while it runs; its state is the marks, the gray stack and the count of bytes.
pub mod Children
pub mod Pointers
pub mod Reach
pub mod Mark
pub mod Sweep
pub mod Collect
use ruwren.Prelude.{
  ℕ, zero, suc, ◌+◌, ◌*◌, ◌/◌, Bool, true, false, Option, none, some, List, [], ◌∷◌, ◌++◌, ltb,
  ◌==◌, if◌then◌else◌, length,
}
use ruwren.Map.{MapEntry, empty, tombstone, used}
use ruwren.Values.{
  Value, obj_val, null_val, Method, block, ObjClass, ObjClosure, ObjFiber, ObjFn, ObjModule, Body,
  class_obj, closure_obj, fiber_obj, fn_obj, foreign_obj, instance_obj, list_obj, map_obj,
  module_obj, range_obj, string_obj, upvalue_obj, Object,
}

-- The list of all objects from `vm->first`, and the object at each address.
pub record Heap : Type 0 where
  pub all : List ℕ
  pub object : ℕ → Object

-- `gray` is the gray stack, its top first.
pub record Marks : Type 0 where
  pub is_dark : ℕ → Bool
  pub gray : List ℕ
  pub bytes_allocated : ℕ

-- What the platform gives as `sizeof` the types.
pub record Sizes : Type 0 where
  pub obj_class : ℕ
  pub obj_closure : ℕ
  pub obj_fiber : ℕ
  pub obj_fn : ℕ
  pub obj_instance : ℕ
  pub obj_list : ℕ
  pub obj_map : ℕ
  pub obj_module : ℕ
  pub obj_range : ℕ
  pub obj_string : ℕ
  pub obj_upvalue : ℕ
  pub method : ℕ
  pub value : ℕ
  pub map_entry : ℕ
  pub call_frame : ℕ
  pub pointer : ℕ
  pub int_ : ℕ

unfoldable pub gray_obj : ℕ → Marks → Marks
gray_obj a m =
    if m.is_dark a
    then m
    else record m { is_dark = λ b. if b == a then true else m.is_dark b; gray = a ∷ m.gray }

-- A pointer that may be null.
unfoldable pub gray_pointer : Option ℕ → Marks → Marks
gray_pointer none m = m
gray_pointer (some a) m = gray_obj a m

unfoldable pub gray_pointers : List (Option ℕ) → Marks → Marks
gray_pointers [] m = m
gray_pointers (p ∷ ps) m = gray_pointers ps (gray_pointer p m)

unfoldable pub gray_value : Value → Marks → Marks
gray_value (obj_val a) m = gray_obj a m
gray_value _ m = m

unfoldable pub gray_buffer : List Value → Marks → Marks
gray_buffer [] m = m
gray_buffer (v ∷ vs) m = gray_buffer vs (gray_value v m)

-- A symbol table is a buffer of string objects.
unfoldable pub blacken_symbol_table : List ℕ → Marks → Marks
blacken_symbol_table [] m = m
blacken_symbol_table (a ∷ xs) m = blacken_symbol_table xs (gray_obj a m)

unfoldable pub gray_methods : List Method → Marks → Marks
gray_methods [] m = m
gray_methods (block a ∷ ms) m = gray_methods ms (gray_obj a m)
gray_methods (_ ∷ ms) m = gray_methods ms m

unfoldable pub gray_entries : List (MapEntry Value Value) → Marks → Marks
gray_entries [] m = m
gray_entries (empty ∷ es) m = gray_entries es m
gray_entries (tombstone ∷ es) m = gray_entries es m
gray_entries (used k v ∷ es) m = gray_entries es (gray_value v (gray_value k m))

-- `vm->bytesAllocated += n`.
unfoldable pub count_bytes : ℕ → Marks → Marks
count_bytes n m = record m { bytes_allocated = m.bytes_allocated + n }

module _ (sizes : Sizes) where
  unfoldable pub blacken_class : Option ℕ → ObjClass → Marks → Marks
  blacken_class class_of c m =
      let so_far = gray_methods c.methods (gray_pointer c.superclass (gray_pointer class_of m)) in
      count_bytes (sizes.obj_class + c.methods_capacity * sizes.method)
        (gray_value c.attributes (gray_pointer c.name so_far))

  unfoldable pub blacken_closure : ObjClosure → Marks → Marks
  blacken_closure c m =
      count_bytes (sizes.obj_closure + sizes.pointer * length c.upvalues)
        (gray_pointers c.upvalues (gray_pointer c.fn m))

  unfoldable pub blacken_fiber : ObjFiber → Marks → Marks
  blacken_fiber f m =
      let stacks = gray_buffer f.stack (gray_pointers f.frames m) in
      count_bytes
        (sizes.obj_fiber + f.frame_capacity * sizes.call_frame + f.stack_capacity * sizes.value)
        (gray_value f.error (gray_pointer f.caller (blacken_symbol_table f.open_upvalues stacks)))

  unfoldable pub blacken_fn : ObjFn → Marks → Marks
  blacken_fn f m =
      count_bytes
        (sizes.obj_fn
          + f.code_capacity
          + sizes.value * f.constants_capacity
          + sizes.int_ * f.code_capacity)
        (gray_buffer f.constants m)

  unfoldable pub blacken_instance : Option ℕ → List Value → Marks → Marks
  blacken_instance class_of fields m =
      count_bytes (sizes.obj_instance + sizes.value * length fields)
        (gray_buffer fields (gray_pointer class_of m))

  unfoldable pub blacken_list : List Value → ℕ → Marks → Marks
  blacken_list elements capacity m =
      count_bytes (sizes.obj_list + sizes.value * capacity) (gray_buffer elements m)

  unfoldable pub blacken_map : List (MapEntry Value Value) → Marks → Marks
  blacken_map entries m =
      count_bytes (sizes.obj_map + sizes.map_entry * length entries) (gray_entries entries m)

  unfoldable pub blacken_module : ObjModule → Marks → Marks
  blacken_module o m =
      count_bytes sizes.obj_module
        (gray_pointer o.name (blacken_symbol_table o.variable_names (gray_buffer o.variables m)))

  unfoldable pub blacken_object : Object → Marks → Marks
  blacken_object o m = elim o.body [
    | class_obj c ↦ blacken_class o.class_of c m
    | closure_obj c ↦ blacken_closure c m
    | fiber_obj f ↦ blacken_fiber f m
    | fn_obj f ↦ blacken_fn f m
    | foreign_obj ↦ m
    | instance_obj fields ↦ blacken_instance o.class_of fields m
    | list_obj elements capacity ↦ blacken_list elements capacity m
    | map_obj entries ↦ blacken_map entries m
    | module_obj x ↦ blacken_module x m
    | range_obj _ _ _ ↦ count_bytes sizes.obj_range m
    | string_obj bytes _ ↦ count_bytes (sizes.obj_string + length bytes + 1) m
    | upvalue_obj closed ↦ count_bytes sizes.obj_upvalue (gray_value closed m)
  ]

  -- `none` means that the fuel ran out.
  unfoldable pub blacken_objects : ℕ → Heap → Marks → Option Marks
  blacken_objects zero heap m = elim m.gray [ [] ↦ some m | _ ∷ _ ↦ none ]
  blacken_objects (suc fuel) heap m = elim m.gray [
    | [] ↦ some m
    | a ∷ rest ↦
        blacken_objects fuel heap (blacken_object (heap.object a) (record m { gray = rest }))
  ]

-- A compiler in the chain of `parent`; `fields` and the attributes are those of its class, if any.
pub record CompilerRoots : Type 0 where
  pub fn : Option ℕ
  pub constants : Option ℕ
  pub attributes : Option ℕ
  pub fields : List ℕ
  pub method_attributes : Option ℕ
  pub class_attributes : Option ℕ

pub record Roots : Type 0 where
  pub modules : Option ℕ
  pub temp_roots : List (Option ℕ)
  pub fiber : Option ℕ
  pub handles : List Value
  pub token_values : List Value
  pub compilers : List CompilerRoots
  pub method_names : List ℕ

unfoldable pub mark_compilers : List CompilerRoots → Marks → Marks
mark_compilers [] m = m
mark_compilers (c ∷ cs) m =
    let own = gray_pointer c.attributes (gray_pointer c.constants (gray_pointer c.fn m)) in
    mark_compilers cs (
      gray_pointer c.class_attributes
        (gray_pointer c.method_attributes (blacken_symbol_table c.fields own)))

-- `token_values` are those of the current, the previous and the next token, and there are neither
-- these nor compilers if nothing is being compiled.
unfoldable pub mark_compiler : List Value → List CompilerRoots → Marks → Marks
mark_compiler token_values compilers m = mark_compilers compilers (gray_buffer token_values m)

unfoldable pub gray_roots : Roots → Marks → Marks
gray_roots r m =
    let running = gray_pointer r.fiber (gray_pointers r.temp_roots (gray_pointer r.modules m)) in
    blacken_symbol_table r.method_names
      (mark_compiler r.token_values r.compilers (gray_buffer r.handles running))

-- The sweep: the objects that stay, those that are freed, and the marks.
pub record Swept : Type 0 where
  pub kept : List ℕ
  pub freed : List ℕ
  pub is_dark : ℕ → Bool

unfoldable pub sweep : List ℕ → (ℕ → Bool) → Swept
sweep [] is_dark = record { kept = []; freed = []; is_dark = is_dark }
sweep (a ∷ xs) is_dark =
    let unmarked = sweep xs (λ b. if b == a then false else is_dark b) in
    let rest = sweep xs is_dark in
    if is_dark a
    then record unmarked { kept = a ∷ unmarked.kept }
    else record rest { freed = a ∷ rest.freed }

pub record Config : Type 0 where
  pub heap_growth_percent : ℕ
  pub min_heap_size : ℕ

unfoldable pub next_gc : Config → ℕ → ℕ
next_gc config bytes =
    let next = bytes + bytes * config.heap_growth_percent / 100 in
    if ltb next config.min_heap_size then config.min_heap_size else next

pub record Collected : Type 0 where
  pub swept : Swept
  pub bytes_allocated : ℕ
  pub next_gc : ℕ

-- Fuel: one unit for each object, as each enters the gray stack at most once.
unfoldable pub collect_garbage : Sizes → Config → Roots → Heap → (ℕ → Bool) → Option Collected
collect_garbage sizes config roots heap is_dark =
    let marked = gray_roots roots (record { is_dark = is_dark; gray = []; bytes_allocated = 0 }) in
    elim (blacken_objects sizes (length heap.all) heap marked) [
      | none ↦ none
      | some m ↦ some (record {
        swept = sweep heap.all m.is_dark;
        bytes_allocated = m.bytes_allocated;
        next_gc = next_gc config m.bytes_allocated;
      })
    ]
