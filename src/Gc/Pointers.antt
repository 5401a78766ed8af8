-- ===== src/Gc/Pointers.antt =====
-- All objects that an object points to, by the structs of ruwren-sys/src/wren_value.h, against
-- those that the collector grays for it.
use ruwren.Prelude.{ℕ, List, [], ◌∷◌, ◌++◌, In, ◌⊎◌, inl, inr}
use ruwren.Values.{
  Body, class_obj, closure_obj, fiber_obj, fn_obj, foreign_obj, instance_obj, list_obj, map_obj,
  module_obj, range_obj, string_obj, upvalue_obj, Object,
}
use ruwren.Gc.Children.{
  of_pointer, of_pointers, of_value, of_values, of_methods, of_entries, children,
}

-- What the fields of an object point to, its class apart.
abbrev pub fields_of : Body → List ℕ
fields_of (class_obj c) =
    of_pointer c.superclass ++ of_methods c.methods ++ of_pointer c.name ++ of_value c.attributes
fields_of (closure_obj c) = of_pointer c.fn ++ of_pointers c.upvalues
fields_of (fiber_obj f) =
    of_pointers f.frames
    ++ of_values f.stack
    ++ f.open_upvalues
    ++ of_pointer f.caller
    ++ of_value f.error
fields_of (fn_obj f) = f.module_ ∷ of_values f.constants
fields_of foreign_obj = []
fields_of (instance_obj fields) = of_values fields
fields_of (list_obj elements _) = of_values elements
fields_of (map_obj entries) = of_entries entries
fields_of (module_obj x) = of_values x.variables ++ x.variable_names ++ of_pointer x.name
fields_of (range_obj _ _ _) = []
fields_of (string_obj _ _) = []
fields_of (upvalue_obj closed) = of_value closed

-- Every object that an object points to, whatever the collector makes of it: every object has a
-- `classObj`.
unfoldable pub pointers : Object → List ℕ
pointers o = of_pointer o.class_of ++ fields_of o.body

-- The pointers that the collector does not follow: the module of a function, and the class of an
-- object that is neither a class nor an instance.
unfoldable pub untraced : Object → List ℕ
untraced o = elim o.body [
  | class_obj _ ↦ []
  | instance_obj _ ↦ []
  | fn_obj f ↦ of_pointer o.class_of ++ f.module_ ∷ []
  | _ ↦ of_pointer o.class_of
]

In-split : (b : ℕ) (xs ys : List ℕ) → In b (xs ++ ys) → In b xs ⊎ In b ys
In-split b [] ys i = inr i
In-split b (x ∷ xs) ys (inl e) = inl (inl e)
In-split b (x ∷ xs) ys (inr i) = elim (In-split b xs ys i) [ inl j ↦ inl (inr j) | inr j ↦ inr j ]

In-left : (b : ℕ) (xs ys : List ℕ) → In b xs → In b (xs ++ ys)
In-left b [] ys i = absurd i
In-left b (x ∷ xs) ys (inl e) = inl e
In-left b (x ∷ xs) ys (inr i) = inr (In-left b xs ys i)

In-right : (b : ℕ) (xs ys : List ℕ) → In b ys → In b (xs ++ ys)
In-right b [] ys i = i
In-right b (x ∷ xs) ys i = inr (In-right b xs ys i)

-- The pointers of a class, from left to right.
grouped :
    (b : ℕ) (c s m n v : List ℕ)
    → (In b (c ++ s ++ m ++ n ++ v) → In b (c ++ (s ++ m ++ n ++ v)))
      × (In b (c ++ (s ++ m ++ n ++ v)) → In b (c ++ s ++ m ++ n ++ v))
grouped b [] s m n v = (λ i. i, λ i. i)
grouped b (x ∷ c) s m n v =
    let (there, back) = grouped b c s m n v in
    (
      λ i. elim i [ inl e ↦ inl e | inr j ↦ inr (there j) ],
      λ i. elim i [ inl e ↦ inl e | inr j ↦ inr (back j) ],
    )

swap : {A B : Type 0} → A ⊎ B → B ⊎ A
swap (inl a) = inr a
swap (inr b) = inl b

pub children-pointers : (o : Object) (b : ℕ) → In b (children o) → In b (pointers o)
unfolding children pointers
children-pointers o b i = go o.body i
  where
    go :
        (body : Body)
        → In b (children (record o { body = body }))
        → In b (pointers (record o { body = body }))
    go (class_obj c) i = (grouped b (of_pointer o.class_of) _ _ _ _).0 i
    go (closure_obj c) i = In-right b (of_pointer o.class_of) _ i
    go (fiber_obj f) i = In-right b (of_pointer o.class_of) _ i
    go (fn_obj f) i = In-right b (of_pointer o.class_of) _ (inr i)
    go foreign_obj i = absurd i
    go (instance_obj fields) i = i
    go (list_obj elements capacity) i = In-right b (of_pointer o.class_of) _ i
    go (map_obj entries) i = In-right b (of_pointer o.class_of) _ i
    go (module_obj x) i = In-right b (of_pointer o.class_of) _ i
    go (range_obj x y z) i = absurd i
    go (string_obj bytes hash) i = absurd i
    go (upvalue_obj closed) i = In-right b (of_pointer o.class_of) _ i

pub pointers-traced :
    (o : Object) (b : ℕ) → In b (pointers o) → In b (children o) ⊎ In b (untraced o)
unfolding children pointers untraced
pointers-traced o b i = go o.body i
  where
    go :
        (body : Body)
        → In b (pointers (record o { body = body }))
        → In b (children (record o { body = body })) ⊎ In b (untraced (record o { body = body }))
    go (class_obj c) i = inl ((grouped b (of_pointer o.class_of) _ _ _ _).1 i)
    go (closure_obj c) i = swap (In-split b (of_pointer o.class_of) _ i)
    go (fiber_obj f) i = swap (In-split b (of_pointer o.class_of) _ i)
    go (fn_obj f) i = elim (In-split b (of_pointer o.class_of) _ i) [
      | inl j ↦ inr (In-left b (of_pointer o.class_of) _ j)
      | inr (inl e) ↦ inr (In-right b (of_pointer o.class_of) _ (inl e))
      | inr (inr j) ↦ inl j
    ]
    go foreign_obj i = swap (In-split b (of_pointer o.class_of) [] i)
    go (instance_obj fields) i = inl i
    go (list_obj elements capacity) i = swap (In-split b (of_pointer o.class_of) _ i)
    go (map_obj entries) i = swap (In-split b (of_pointer o.class_of) _ i)
    go (module_obj x) i = swap (In-split b (of_pointer o.class_of) _ i)
    go (range_obj x y z) i = swap (In-split b (of_pointer o.class_of) [] i)
    go (string_obj bytes hash) i = swap (In-split b (of_pointer o.class_of) [] i)
    go (upvalue_obj closed) i = swap (In-split b (of_pointer o.class_of) _ i)
