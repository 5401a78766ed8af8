-- ===== src/Embedding/CallHandles.antt =====
-- ruwren-sys/src/wren_vm.c, `wrenMakeCallHandle`: the stub function that a handle for calling a
-- method stands for.
use ruwren.Prelude.{
  ℕ, zero, suc, ◌+◌, ◌-◌, ◌/◌, ◌%◌, ◌^◌, none, some, List, [], ◌∷◌, ◌==◌, if◌then◌else◌, ◌++◌, drop,
  length, get_or,
}
use ruwren.Sequence.{Buffer, buffer_write}
use ruwren.Symbols.{SymbolTable, symbol_ensure}
use ruwren.Values.{Value, obj_val, ObjFn, fn_obj, closure_obj}
use ruwren.Fibers.{is_empty}
use ruwren.Interpreter.State.{
  Machine, Outcome, fault, or_fault, allocate, address_of, as_closure, as_fn, body_at, stack_of,
  set_stack, change_fiber,
}
use ruwren.Interpreter.Calls.{Natives, call_function}
use ruwren.Interpreter.Step.{run_interpreter}
use ruwren.Embedding.Slots.{unset}
use ruwren.Embedding.Handles.{Handles, make_handle, at_handle}

-- `for (int i = …; i > 0 && signature[i] != '('; i--)`, which counts the underscores.
unfoldable pub count_back : ℕ → List ℕ → ℕ
count_back zero text = 0
count_back (suc i) text =
    let rest = count_back i text in
    let c = get_or text (suc i) 0 in if c == b'(' then 0 else if c == b'_' then suc rest else rest

-- The loop from the first byte to `]`.
unfoldable pub count_to_bracket : List ℕ → ℕ
count_to_bracket [] = 0
count_to_bracket (c ∷ cs) =
    let rest = count_to_bracket cs in if c == b']' then 0 else if c == b'_' then suc rest else rest

-- For a signature that is not empty.
unfoldable pub num_params : List ℕ → ℕ
unfolding count_back count_to_bracket
num_params text =
    let last = length text - 1 in
    (if get_or text last 0 == b')' then count_back last text else 0)
    + (if get_or text 0 0 == b'[' then count_to_bracket text else 0)

abbrev write_all : Buffer ℕ → List ℕ → Buffer ℕ
write_all b [] = b
write_all b (c ∷ cs) = write_all (buffer_write b (c % 256)) cs

-- The code of the stub: the call, `CODE_RETURN` and `CODE_END`.
unfoldable pub stub_code : ℕ → ℕ → Buffer ℕ
stub_code params method =
    write_all (record { data_ = []; capacity = 0 })
      ((24 + params) ∷ (method / 2 ^ 8) ∷ method ∷ 64 ∷ 76 ∷ [])

-- `fn_class` is the class of closures, and `no_module` stands for `NULL`. The handle, the table of
-- method names, the machine and the handles.
unfoldable pub make_call_handle :
    ℕ
    → ℕ
    → List ℕ
    → SymbolTable
    → Machine
    → Handles Value
    → ℕ × SymbolTable × Machine × Handles Value
unfolding num_params stub_code
make_call_handle fn_class no_module text method_names m handles =
    let params = num_params text in
    let (method, names) = symbol_ensure method_names text in
    let stub = stub_code params method in
    let fn : ObjFn = record {
      arity = 0;
      max_slots = params + 1;
      num_upvalues = 0;
      module_ = no_module;
      code = stub.data_;
      constants = [];
      constants_capacity = 0;
      code_capacity = stub.capacity;
    } in
    let (f, m₁) = allocate (record { class_of = none; body = fn_obj fn }) m in
    let (handle, made) = make_handle (obj_val f) handles in
    let (closure, m₂) =
      allocate
        (record {
          class_of = some fn_class;
          body = closure_obj (record { fn = some f; upvalues = [] });
        })
        m₁ in
    (
      handle,
      names,
      m₂,
      record made {
        handle = at_handle (some handle) (λ x. record x { value = obj_val closure }) made.handle;
      },
    )

-- `wrenCall` but for `vm->apiStack` and the assertion about the arity; `stale` are the values
-- that the array of the stack holds above its top.
unfoldable pub call_handle : Natives → ℕ → (ℕ → Value) → ℕ → Handles Value → Machine → Outcome
unfolding run_interpreter
call_handle natives rounds stale handle handles m =
    or_fault (address_of (handles.handle handle).value) λ closure.
      or_fault (as_closure (body_at m closure)) λ c. or_fault c.fn λ f.
        or_fault (as_fn (body_at m f)) λ fn. or_fault m.vm.fiber λ a.
          let size = length (stack_of a m) in
          let stack =
            unset stale size (fn.max_slots - size) ++ drop (size - fn.max_slots) (stack_of a m) in
          if is_empty (m.vm.fibers a).frames
          then run_interpreter natives rounds a
              (change_fiber a (call_function closure fn 0) (set_stack a stack m))
          else fault
