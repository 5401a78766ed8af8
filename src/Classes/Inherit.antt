-- ===== src/Classes/Inherit.antt =====
-- ruwren-sys/src/wren_value.c: overriding and inheriting methods.
use ruwren.Prelude.{
  ℕ, suc, ◌+◌, ◌-◌, ◌<◌, ◌≡◌, refl, ap, ◌∙◌, sym, true, false, ◌&&◌, some, List, [], ◌∷◌, ◌++◌, ltb,
  leb, ◌==◌, if◌then◌else◌, length, get_or, arith, get_or-set, get_or-append, get_or-replicate,
  get_or-beyond, replicate, length-append, length-replicate, Bool-cases, inl, inr, ==_ne,
}
use ruwren.Prelude.Int.{ℤ, negsuc, ◌+ℤ◌, eqb_ℤ}
use ruwren.Sequence.{buffer_fill}
use ruwren.Values.{Method, no_method, ObjClass}
use ruwren.Classes.{
  Classes, new_single_class, bind_method, bind_methods, bind_superclass, new_class, method_of,
}

filled_get :
    (methods : List Method) (n s : ℕ)
    → get_or (methods ++ replicate n no_method) s no_method ≡ get_or methods s no_method
filled_get methods n s =
    let whole = get_or-append methods (replicate n no_method) s no_method in
    let padding = get_or-replicate n (s - length methods) no_method in
    elim (Bool-cases (ltb s (length methods))) [
      | inl e ↦ whole ∙ rw e refl
      | inr e ↦ whole ∙ rw e (padding ∙ sym (get_or-beyond methods s no_method (ground arith)))
    ]

pub method_of-bind_method :
    (s : ℕ) (m : Method) (c : ObjClass) (t : ℕ)
    → method_of (bind_method s m c) t ≡ (if t == s then m else method_of c t)
unfolding method_of bind_method buffer_fill
method_of-bind_method s m c t =
    let n = s - length c.methods + 1 in
    let padded = c.methods ++ replicate n no_method in
    let length_lem = length-append c.methods (replicate n no_method) in
    let count = length-replicate n no_method in
    elim (Bool-cases (leb (length c.methods) s)) [
      | inl e ↦ rw e (
          get_or-set padded s t m no_method (ground (arith, length_lem, count, e))
          ∙ rw (filled_get c.methods n t) refl)
      | inr e ↦ rw e (get_or-set c.methods s t m no_method (ground (arith, e)))
    ]

method_of-bind_methods :
    (i : ℕ) (ms : List Method) (c : ObjClass) (t : ℕ)
    → method_of (bind_methods i ms c) t
      ≡ (if leb i t && ltb t (i + length ms) then get_or ms (t - i) no_method else method_of c t)
unfolding bind_methods
method_of-bind_methods i [] c t = ground arith
method_of-bind_methods i (m ∷ ms) c t =
    let ih = method_of-bind_methods (i + 1) ms (bind_method i m c) t in
    let step = method_of-bind_method i m c t in
    elim (Bool-cases (t == i)) [
      | inl here ↦
          let z : t - i ≡ 0 = ground (arith, here) in ih ∙ rw z (ground (arith, step, here))
      | inr other ↦ elim (Bool-cases (ltb i t)) [
        | inl later ↦
            let z : t - i ≡ suc (t - (i + 1)) = ground (arith, later) in
            ih ∙ rw z (ground (arith, step, other, later))
        | inr before ↦ ih ∙ ground (arith, step, other, before)
      ]
    ]

-- What a class takes over from its superclass.
pub record Inherits (address : ℕ) (superclass subclass after : ObjClass) : Type 0 where
  pub superclass_lem : after.superclass ≡ some address
  pub methods :
      (s : ℕ)
      → method_of after s ≡ (
          if ltb s (length superclass.methods)
          then method_of superclass s
          else method_of subclass s)
  pub fields : after.num_fields ≡ (
      if eqb_ℤ subclass.num_fields (negsuc 0)
      then subclass.num_fields
      else subclass.num_fields +ℤ superclass.num_fields)
  pub name : after.name ≡ subclass.name

bind_methods-others :
    (i : ℕ) (ms : List Method) (c : ObjClass)
    → ((bind_methods i ms c).superclass ≡ c.superclass)
      × ((bind_methods i ms c).num_fields ≡ c.num_fields)
      × ((bind_methods i ms c).name ≡ c.name)
unfolding bind_methods bind_method
bind_methods-others i [] c = (refl, refl, refl)
bind_methods-others i (m ∷ ms) c = bind_methods-others (i + 1) ms (bind_method i m c)

pub bind_superclass-Inherits :
    (address : ℕ) (superclass subclass : ObjClass)
    → Inherits address superclass subclass (bind_superclass address superclass subclass)
unfolding bind_superclass method_of
bind_superclass-Inherits address superclass subclass =
    let fields =
      if eqb_ℤ subclass.num_fields (negsuc 0)
      then subclass.num_fields
      else subclass.num_fields +ℤ superclass.num_fields in
    let start = record subclass { superclass = some address; num_fields = fields } in
    let (parent, count, name) = bind_methods-others 0 superclass.methods start in
    record {
      superclass_lem = parent;
      methods = λ s.
          let all = method_of-bind_methods 0 superclass.methods start s in
          let same : s - 0 ≡ s = omega arith in
          let at_s = ap (λ (t : ℕ). get_or superclass.methods t no_method) same in
          ground (arith, all, at_s);
      fields = count;
      name = name;
    }

inherits_all :
    (address : ℕ) (superclass subclass : ObjClass)
    → subclass.methods ≡ []
    → (s : ℕ) → method_of (bind_superclass address superclass subclass) s ≡ method_of superclass s
unfolding method_of
inherits_all address superclass subclass none_yet s =
    let inherits = (bind_superclass-Inherits address superclass subclass).methods s in
    elim (Bool-cases (ltb s (length superclass.methods))) [
      | inl e ↦ inherits ∙ rw e refl
      | inr e ↦
          let beyond = get_or-beyond superclass.methods s no_method (ground (arith, e)) in
          inherits ∙ rw (e, none_yet, beyond) refl
    ]

-- A new class with a superclass and the class `Class` that exist already has the superclass's
-- method for each symbol, and its metaclass, which is its class, has the method of `Class`; the
-- metaclass's class is `Class`, and no other class changes.
pub new_class-Inherits :
    (class_class metaclass_name superclass : ℕ) (num_fields : ℤ) (name : ℕ) (classes : Classes)
    → class_class < classes.allocated
    → superclass < classes.allocated
    → let made = new_class class_class metaclass_name superclass num_fields name classes in
      let meta = classes.allocated in
      (made.0 ≡ meta + 1)
      × (made.1.class_of made.0 ≡ some meta)
      × (made.1.class_of meta ≡ some class_class)
      × ((s : ℕ) → method_of (made.1.class_at made.0) s ≡ method_of (classes.class_at superclass) s)
      × ((s : ℕ) → method_of (made.1.class_at meta) s ≡ method_of (classes.class_at class_class) s)
      × ((a : ℕ) → a < meta → made.1.class_at a ≡ classes.class_at a)
unfolding new_class new_single_class
new_class-Inherits class_class metaclass_name superclass num_fields name classes h k =
    let m = classes.allocated in
    let mm : (m == m) ≡ true = ground arith in
    let nn : (m + 1 == m + 1) ≡ true = ground arith in
    let nm : (m + 1 == m) ≡ false = ground arith in
    let mn : (m == m + 1) ≡ false = ground arith in
    let other = λ (a : ℕ) (l : a < m). ==_ne a m (omega (arith, l)) in
    let later = λ (a : ℕ) (l : a < m). ==_ne a (m + 1) (omega (arith, l)) in
    (
      refl,
      rw nn refl,
      rw (mn, mm) refl,
      λ s. rw (nn, later superclass k, other superclass k) (inherits_all superclass _ _ refl s),
      λ s. rw (mn, mm, other class_class h) (inherits_all class_class _ _ refl s),
      λ a l. rw (later a l, other a l) refl,
    )
