-- ===== src/Gc/Children.antt =====
-- The objects that the collector grays for an object or for the roots, in their order.
use ruwren.Prelude.{ℕ, ◌+◌, ◌≡◌, refl, ◌∙◌, ap, Option, none, some, List, [], ◌∷◌, ◌++◌, sym}
use ruwren.Map.{MapEntry, empty, tombstone, used}
use ruwren.Values.{
  Value, obj_val, Method, block, Body, class_obj, closure_obj, fiber_obj, fn_obj, foreign_obj,
  instance_obj, list_obj, map_obj, module_obj, range_obj, string_obj, upvalue_obj, Object,
}
use ruwren.Gc.{
  Marks, Sizes, gray_obj, gray_pointer, gray_pointers, gray_value, gray_buffer,
  blacken_symbol_table, gray_methods, gray_entries, count_bytes, CompilerRoots, mark_compilers,
  mark_compiler, Roots, gray_roots, blacken_object, blacken_class, blacken_closure, blacken_fiber,
  blacken_fn, blacken_instance, blacken_list, blacken_map, blacken_module,
}

abbrev pub of_pointer : Option ℕ → List ℕ
of_pointer none = []
of_pointer (some a) = a ∷ []

abbrev pub of_pointers : List (Option ℕ) → List ℕ
of_pointers [] = []
of_pointers (p ∷ ps) = of_pointer p ++ of_pointers ps

abbrev pub of_value : Value → List ℕ
of_value (obj_val a) = a ∷ []
of_value _ = []

abbrev pub of_values : List Value → List ℕ
of_values [] = []
of_values (v ∷ vs) = of_value v ++ of_values vs

abbrev pub of_methods : List Method → List ℕ
of_methods [] = []
of_methods (block a ∷ ms) = a ∷ of_methods ms
of_methods (_ ∷ ms) = of_methods ms

abbrev pub of_entries : List (MapEntry Value Value) → List ℕ
of_entries [] = []
of_entries (used k v ∷ es) = of_value k ++ of_value v ++ of_entries es
of_entries (_ ∷ es) = of_entries es

-- What the collector grays for an object.
unfoldable pub children : Object → List ℕ
children o = elim o.body [
  | class_obj c ↦
      of_pointer o.class_of
      ++ of_pointer c.superclass
      ++ of_methods c.methods
      ++ of_pointer c.name
      ++ of_value c.attributes
  | closure_obj c ↦ of_pointer c.fn ++ of_pointers c.upvalues
  | fiber_obj f ↦
      of_pointers f.frames
      ++ of_values f.stack
      ++ f.open_upvalues
      ++ of_pointer f.caller
      ++ of_value f.error
  | fn_obj f ↦ of_values f.constants
  | foreign_obj ↦ []
  | instance_obj fields ↦ of_pointer o.class_of ++ of_values fields
  | list_obj elements _ ↦ of_values elements
  | map_obj entries ↦ of_entries entries
  | module_obj x ↦ of_values x.variables ++ x.variable_names ++ of_pointer x.name
  | range_obj _ _ _ ↦ []
  | string_obj _ _ ↦ []
  | upvalue_obj closed ↦ of_value closed
]

abbrev of_compilers : List CompilerRoots → List ℕ
of_compilers [] = []
of_compilers (c ∷ cs) =
    of_pointer c.fn
    ++ of_pointer c.constants
    ++ of_pointer c.attributes
    ++ c.fields
    ++ of_pointer c.method_attributes
    ++ of_pointer c.class_attributes
    ++ of_compilers cs

unfoldable pub root_objects : Roots → List ℕ
root_objects r =
    of_pointer r.modules
    ++ of_pointers r.temp_roots
    ++ of_pointer r.fiber
    ++ of_values r.handles
    ++ of_values r.token_values
    ++ of_compilers r.compilers
    ++ r.method_names

-- To gray one after the other.
unfoldable pub gray_all : List ℕ → Marks → Marks
gray_all [] m = m
gray_all (a ∷ xs) m = gray_all xs (gray_obj a m)

gray_all-append : (xs bs : List ℕ) (m : Marks) → gray_all (xs ++ bs) m ≡ gray_all bs (gray_all xs m)
unfolding gray_all
gray_all-append [] bs m = refl
gray_all-append (a ∷ xs) bs m = gray_all-append xs bs (gray_obj a m)

-- To gray the objects `xs` takes `m` to `m'`.
pub record Grayed (xs : List ℕ) (m m' : Marks) : Type 0 where
  pub equal : m' ≡ gray_all xs m

join :
    {xs ys : List ℕ} {m m₁ m₂ : Marks} → Grayed xs m m₁ → Grayed ys m₁ m₂ → Grayed (xs ++ ys) m m₂
join {xs} {ys} {m} e₁ e₂ = record {
  equal = e₂.equal ∙ ap (λ k. gray_all ys k) e₁.equal ∙ sym (gray_all-append xs ys m);
}

pointer-all : (p : Option ℕ) (m : Marks) → Grayed (of_pointer p) m (gray_pointer p m)
unfolding gray_pointer gray_all
pointer-all none m = record { equal = refl }
pointer-all (some a) m = record { equal = refl }

value-all : (v : Value) (m : Marks) → Grayed (of_value v) m (gray_value v m)
unfolding gray_value gray_all
value-all Value.null_val m = record { equal = refl }
value-all Value.false_val m = record { equal = refl }
value-all Value.true_val m = record { equal = refl }
value-all Value.undefined_val m = record { equal = refl }
value-all (Value.num_val b) m = record { equal = refl }
value-all (obj_val a) m = record { equal = refl }

table-all : (xs : List ℕ) (m : Marks) → Grayed xs m (blacken_symbol_table xs m)
unfolding blacken_symbol_table gray_all
table-all [] m = record { equal = refl }
table-all (a ∷ xs) m = record { equal = (table-all xs (gray_obj a m)).equal }

pointers-all : (ps : List (Option ℕ)) (m : Marks) → Grayed (of_pointers ps) m (gray_pointers ps m)
unfolding gray_pointers gray_all
pointers-all [] m = record { equal = refl }
pointers-all (p ∷ ps) m = join (pointer-all p m) (pointers-all ps _)

values-all : (vs : List Value) (m : Marks) → Grayed (of_values vs) m (gray_buffer vs m)
unfolding gray_buffer gray_all
values-all [] m = record { equal = refl }
values-all (v ∷ vs) m = join (value-all v m) (values-all vs _)

methods-all : (ms : List Method) (m : Marks) → Grayed (of_methods ms) m (gray_methods ms m)
unfolding gray_methods gray_all
methods-all [] m = record { equal = refl }
methods-all (block a ∷ ms) m = record { equal = (methods-all ms (gray_obj a m)).equal }
methods-all (Method.primitive _ ∷ ms) m = methods-all ms m
methods-all (Method.function_call ∷ ms) m = methods-all ms m
methods-all (Method.foreign _ ∷ ms) m = methods-all ms m
methods-all (Method.no_method ∷ ms) m = methods-all ms m

entries-all :
    (es : List (MapEntry Value Value)) (m : Marks) → Grayed (of_entries es) m (gray_entries es m)
unfolding gray_entries gray_all
entries-all [] m = record { equal = refl }
entries-all (empty ∷ es) m = entries-all es m
entries-all (tombstone ∷ es) m = entries-all es m
entries-all (used k v ∷ es) m = join (join (value-all k m) (value-all v _)) (entries-all es _)

compilers-all :
    (cs : List CompilerRoots) (m : Marks) → Grayed (of_compilers cs) m (mark_compilers cs m)
unfolding mark_compilers gray_all
compilers-all [] m = record { equal = refl }
compilers-all (c ∷ cs) m =
    join
      (join
        (join
          (join
            (join (join (pointer-all c.fn m) (pointer-all c.constants _))
              (pointer-all c.attributes _))
            (table-all c.fields _))
          (pointer-all c.method_attributes _))
        (pointer-all c.class_attributes _))
      (compilers-all cs _)

pub roots-all : (r : Roots) (m : Marks) → Grayed (root_objects r) m (gray_roots r m)
unfolding gray_roots mark_compiler root_objects
roots-all r m =
    join
      (join
        (join
          (join
            (join (join (pointer-all r.modules m) (pointers-all r.temp_roots _))
              (pointer-all r.fiber _))
            (values-all r.handles _))
          (values-all r.token_values _))
        (compilers-all r.compilers _))
      (table-all r.method_names _)

-- Blackening an object grays its children, and counts some bytes.
abbrev pub Grays : List ℕ → Marks → Marks → Type 0
Grays xs m m' = (n : ℕ) × (m' ≡ record (gray_all xs m) { bytes_allocated = n })

counted : (xs : List ℕ) (m m₁ : Marks) (n : ℕ) → Grayed xs m m₁ → Grays xs m (count_bytes n m₁)
unfolding count_bytes
counted xs m m₁ n e = (
  m₁.bytes_allocated + n,
  ap {A = Marks} (λ k. record k { bytes_allocated = m₁.bytes_allocated + n }) e.equal,
)

pub blacken-Grays :
    (sizes : Sizes) (o : Object) (m : Marks) → Grays (children o) m (blacken_object sizes o m)
unfolding blacken_object children blacken_class blacken_closure blacken_fiber blacken_fn
    blacken_instance blacken_list blacken_map blacken_module gray_all
blacken-Grays sizes o m = go o.body
  where
    go :
        (b : Body)
        → Grays
            (children (record o { body = b }))
            m
            (blacken_object sizes (record o { body = b }) m)
    go (class_obj c) = counted _ m _ _ (
        join
          (join
            (join (join (pointer-all o.class_of m) (pointer-all c.superclass _))
              (methods-all c.methods _))
            (pointer-all c.name _))
          (value-all c.attributes _))
    go (closure_obj c) = counted _ m _ _ (join (pointer-all c.fn m) (pointers-all c.upvalues _))
    go (fiber_obj f) = counted _ m _ _ (
        join
          (join
            (join (join (pointers-all f.frames m) (values-all f.stack _))
              (table-all f.open_upvalues _))
            (pointer-all f.caller _))
          (value-all f.error _))
    go (fn_obj f) = counted _ m _ _ (values-all f.constants m)
    go foreign_obj = (m.bytes_allocated, refl)
    go (instance_obj fields) =
        counted _ m _ _ (join (pointer-all o.class_of m) (values-all fields _))
    go (list_obj elements capacity) = counted _ m _ _ (values-all elements m)
    go (map_obj entries) = counted _ m _ _ (entries-all entries m)
    go (module_obj x) = counted _ m _ _ (
        join (join (values-all x.variables m) (table-all x.variable_names _))
          (pointer-all x.name _))
    go (range_obj a b c) = counted [] m m _ (record { equal = refl })
    go (string_obj bytes hash) = counted [] m m _ (record { equal = refl })
    go (upvalue_obj closed) = counted _ m _ _ (value-all closed m)
