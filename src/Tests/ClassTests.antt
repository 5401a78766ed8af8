-- ===== src/Tests/ClassTests.antt =====
-- Two classes, of which the second has a method.
use ruwren.Prelude.{ℕ, Option, List, ◌≡◌, ◌+◌, ◌<◌, refl, none, some, [], ◌∷◌, arith}
use ruwren.Prelude.Int.{pos}
use ruwren.Values.{ObjClass, Value, ObjFn, obj_val, null_val, block, no_method}
use ruwren.Classes.{Classes, new_class, method_of}
use ruwren.Emit.{argument_bytes}
use ruwren.Classes.Bind.{bind_method_code}
use ruwren.Classes.Inherit.{new_class-Inherits}

abbrev some_class : ObjClass
some_class = record {
  superclass = none;
  num_fields = pos 1;
  methods = no_method ∷ block 7 ∷ [];
  methods_capacity = 2;
  name = none;
  attributes = null_val;
}

abbrev core : Classes
core = record { class_at = λ a. some_class; class_of = λ a. none; allocated = 2 }

new_class-Inherits_example :
    ((new_class 0 50 1 (pos 2) 51 core).0 ≡ core.allocated + 1)
    × ((new_class 0 50 1 (pos 2) 51 core).1.class_of (new_class 0 50 1 (pos 2) 51 core).0
        ≡ some core.allocated)
    × ((new_class 0 50 1 (pos 2) 51 core).1.class_of core.allocated ≡ some 0)
    × ((s : ℕ)
        → method_of
            ((new_class 0 50 1 (pos 2) 51 core).1.class_at (new_class 0 50 1 (pos 2) 51 core).0)
            s
          ≡ method_of (core.class_at 1) s)
    × ((s : ℕ)
        → method_of ((new_class 0 50 1 (pos 2) 51 core).1.class_at core.allocated) s
          ≡ method_of (core.class_at 0) s)
    × ((a : ℕ)
        → a < core.allocated
        → (new_class 0 50 1 (pos 2) 51 core).1.class_at a ≡ core.class_at a)
new_class-Inherits_example = new_class-Inherits 0 50 1 (pos 2) 51 core (omega arith) (omega arith)

-- A method that loads its second field and calls a method of the superclass.
abbrev inherited_method : ObjFn
inherited_method = record {
  arity = 0;
  max_slots = 2;
  num_upvalues = 0;
  module_ = 0;
  code = 19 ∷ 1 ∷ 41 ∷ 0 ∷ 5 ∷ 0 ∷ 1 ∷ 76 ∷ [];
  constants = null_val ∷ null_val ∷ [];
  constants_capacity = 2;
  code_capacity = 8;
}

abbrev code_at_4 : Option (ℕ → ObjFn) → Option (List ℕ)
code_at_4 none = none
code_at_4 (some fns) = some (fns 4).code

abbrev constants_at_4 : Option (ℕ → ObjFn) → Option (List Value)
constants_at_4 none = none
constants_at_4 (some fns) = some (fns 4).constants

-- The field moves behind the three that are inherited, and the constant is the superclass.
bound_method :
    code_at_4 (bind_method_code 9 (pos 3) 4 (λ a. inherited_method) 4 0)
    ≡ some (19 ∷ 4 ∷ 41 ∷ 0 ∷ 5 ∷ 0 ∷ 1 ∷ 76 ∷ [])
unfolding bind_method_code argument_bytes
bound_method = refl

bound_constants :
    constants_at_4 (bind_method_code 9 (pos 3) 4 (λ a. inherited_method) 4 0)
    ≡ some (null_val ∷ obj_val 9 ∷ [])
unfolding bind_method_code argument_bytes
bound_constants = refl

-- Without an `END` within the fuel there is no result.
short_of_fuel : code_at_4 (bind_method_code 9 (pos 3) 2 (λ a. inherited_method) 4 0) ≡ none
unfolding bind_method_code argument_bytes
short_of_fuel = refl
