-- ===== src/Values.antt =====
-- ruwren-sys/src/wren_value.h: values, and the objects on the heap. An object is known by its
-- address, a number; an array whose length another field gives is a list.
pub mod Equal
pub mod Laws
pub mod Hashes
use ruwren.Prelude.{ℕ, Bool, Option, List}
use ruwren.Prelude.Int.{ℤ}
use ruwren.Map.{MapEntry}

-- A number is its 64 bits, an object its address.
pub data Value : Type 0 where
  null_val false_val true_val undefined_val : Value
  num_val obj_val : ℕ → Value

-- A `Method`: the closure of a block, or another type. A function of C is known by a number.
pub data Method : Type 0 where
  block primitive foreign : ℕ → Method
  function_call no_method : Method

pub record ObjClass : Type 0 where
  pub superclass : Option ℕ
  pub num_fields : ℤ
  pub methods : List Method
  pub methods_capacity : ℕ
  pub name : Option ℕ
  pub attributes : Value

pub record ObjClosure : Type 0 where
  pub fn : Option ℕ
  pub upvalues : List (Option ℕ)

-- `frames` has the closure of each call frame, and `open_upvalues` the chain from the first.
pub record ObjFiber : Type 0 where
  pub frames : List (Option ℕ)
  pub frame_capacity : ℕ
  pub stack : List Value
  pub stack_capacity : ℕ
  pub open_upvalues : List ℕ
  pub caller : Option ℕ
  pub error : Value

pub record ObjFn : Type 0 where
  pub arity : ℕ
  pub max_slots : ℕ
  pub num_upvalues : ℕ
  pub module_ : ℕ
  pub code : List ℕ
  pub constants : List Value
  pub constants_capacity : ℕ
  pub code_capacity : ℕ

pub record ObjModule : Type 0 where
  pub variables : List Value
  pub variable_names : List ℕ
  pub name : Option ℕ

-- The parts of an object that depend on its type.
pub data Body : Type 0 where
  class_obj : ObjClass → Body
  closure_obj : ObjClosure → Body
  fiber_obj : ObjFiber → Body
  fn_obj : ObjFn → Body
  foreign_obj : Body
  instance_obj : List Value → Body
  list_obj : List Value → ℕ → Body
  map_obj : List (MapEntry Value Value) → Body
  module_obj : ObjModule → Body
  range_obj : ℕ → ℕ → Bool → Body
  string_obj : List ℕ → ℕ → Body
  upvalue_obj : Value → Body

-- An `Obj` without its mark and its place in the list of all objects.
pub record Object : Type 0 where
  pub class_of : Option ℕ
  pub body : Body
