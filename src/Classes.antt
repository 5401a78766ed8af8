-- ===== src/Classes.antt =====
-- ruwren-sys/src/wren_value.c: making a class and binding its methods. A method's symbol is its
-- index in the table of the class. Classes are known by their addresses.
pub mod Inherit
pub mod Bind
use ruwren.Prelude.{
  ℕ, ◌+◌, ◌-◌, Bool, Option, none, some, List, [], ◌∷◌, leb, ◌==◌, if◌then◌else◌, length, get_or,
  set,
}
use ruwren.Prelude.Int.{ℤ, pos, negsuc, ◌+ℤ◌, eqb_ℤ}
use ruwren.Sequence.{Buffer, buffer_fill}
use ruwren.Values.{Value, null_val, Method, no_method, ObjClass}

-- The classes below `allocated`, where the next one is allocated, and the class of each.
pub record Classes : Type 0 where
  pub class_at : ℕ → ObjClass
  pub class_of : ℕ → Option ℕ
  pub allocated : ℕ

abbrev pub update : ℕ → ObjClass → Classes → Classes
update a c classes = record classes { class_at = λ b. if b == a then c else classes.class_at b }

unfoldable pub new_single_class : ℤ → ℕ → Classes → ℕ × Classes
new_single_class num_fields name classes =
    let fresh : ObjClass = record {
      superclass = none;
      num_fields = num_fields;
      methods = [];
      methods_capacity = 0;
      name = some name;
      attributes = null_val;
    } in
    let a = classes.allocated in
    (
      a,
      record {
        class_at = λ b. if b == a then fresh else classes.class_at b;
        class_of = λ b. if b == a then none else classes.class_of b;
        allocated = a + 1;
      },
    )

unfoldable pub bind_method : ℕ → Method → ObjClass → ObjClass
bind_method symbol method c =
    let buffer : Buffer Method = record { data_ = c.methods; capacity = c.methods_capacity } in
    let filled =
      if leb (length c.methods) symbol
      then buffer_fill buffer no_method (symbol - length c.methods + 1)
      else buffer in
    record c { methods = set filled.data_ symbol method; methods_capacity = filled.capacity }

-- The loop of `wrenBindSuperclass` over the methods from the symbol `i` on.
unfoldable pub bind_methods : ℕ → List Method → ObjClass → ObjClass
bind_methods i [] c = c
bind_methods i (method ∷ methods) c = bind_methods (i + 1) methods (bind_method i method c)

-- `numFields` is -1 in a foreign class.
unfoldable pub bind_superclass : ℕ → ObjClass → ObjClass → ObjClass
bind_superclass superclass_address superclass subclass =
    let fields =
      if eqb_ℤ subclass.num_fields (negsuc 0)
      then subclass.num_fields
      else subclass.num_fields +ℤ superclass.num_fields in
    bind_methods 0 superclass.methods
      (record subclass { superclass = some superclass_address; num_fields = fields })

abbrev pub set_class_of : ℕ → ℕ → Classes → Classes
set_class_of a class classes = record classes {
  class_of = λ b. if b == a then some class else classes.class_of b;
}

-- `metaclass_name` is the string for the name followed by " metaclass", and `class_class` is the
-- class `Class`. Roots are left out.
unfoldable pub new_class : ℕ → ℕ → ℕ → ℤ → ℕ → Classes → ℕ × Classes
new_class class_class metaclass_name superclass num_fields name classes =
    let (metaclass, c₁) = new_single_class (pos 0) metaclass_name classes in
    let c₂ = set_class_of metaclass class_class c₁ in
    let meta = bind_superclass class_class (c₂.class_at class_class) (c₂.class_at metaclass) in
    let (class, c₃) = new_single_class num_fields name (update metaclass meta c₂) in
    let c₄ = set_class_of class metaclass c₃ in
    let bound = bind_superclass superclass (c₄.class_at superclass) (c₄.class_at class) in
    (class, update class bound c₄)

-- The method of a class for a symbol, as the interpreter finds it.
unfoldable pub method_of : ObjClass → ℕ → Method
method_of c symbol = get_or c.methods symbol no_method
