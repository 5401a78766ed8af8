-- ===== src/Tests/GcTests.antt =====
-- A collection of a heap with a list, a string in it, their class, and an object that nothing points
-- to.
use ruwren.Prelude.{ℕ, none, some, [], ◌∷◌, zero, suc}
use ruwren.Prelude.Int.{pos}
use ruwren.Values.{obj_val, null_val, Body, class_obj, list_obj, string_obj}
use ruwren.Gc.{Heap, Roots, Sizes, Config}

abbrev body_at : ℕ → Body
body_at (suc zero) = list_obj (obj_val 2 ∷ []) 4
body_at (suc (suc (suc zero))) = class_obj (record {
  superclass = none;
  num_fields = pos 0;
  methods = [];
  methods_capacity = 0;
  name = none;
  attributes = null_val;
})
body_at _ = string_obj [] 0

-- Object 3 is the class of all others, and of itself.
abbrev small_heap : Heap
small_heap = record {
  all = 4 ∷ 3 ∷ 2 ∷ 1 ∷ [];
  object = λ a. record { class_of = some 3; body = body_at a };
}

abbrev one_root : Roots
one_root = record {
  modules = none;
  temp_roots = [];
  fiber = none;
  handles = obj_val 1 ∷ obj_val 3 ∷ [];
  token_values = [];
  compilers = [];
  method_names = [];
}

abbrev bytes : Sizes
bytes = record {
  obj_class = 8;
  obj_closure = 8;
  obj_fiber = 8;
  obj_fn = 8;
  obj_instance = 8;
  obj_list = 8;
  obj_map = 8;
  obj_module = 8;
  obj_range = 8;
  obj_string = 8;
  obj_upvalue = 8;
  method = 8;
  value = 8;
  map_entry = 8;
  call_frame = 8;
  pointer = 8;
  int_ = 4;
}

abbrev config : Config
config = record { heap_growth_percent = 50; min_heap_size = 100 }
