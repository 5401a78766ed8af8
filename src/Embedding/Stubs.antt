-- ===== src/Embedding/Stubs.antt =====
-- ruwren-sys/src/wren_vm.c, `wrenMakeCallHandle`: the stub function calls the method that the
-- compiler knows by the same signature.
use ruwren.Prelude.{
  ℕ, ◌+◌, ◌*◌, ◌/◌, ◌%◌, ◌^◌, ◌≤◌, ◌<◌, ◌≡◌, ◌≢◌, refl, ap, ◌∙◌, none, some, [], get_or, arith,
  ==_self, ==_ne,
}
use ruwren.Signature.{
  Signature, SignatureType, sig_method, sig_getter, sig_setter, sig_subscript, sig_subscript_setter,
  sig_initializer, max_parameters, signature_to_string, signature_symbol,
}
use ruwren.Signature.Distinct.{IsOrdinary, IsArity}
use ruwren.Symbols.{SymbolTable}
use ruwren.Values.{Value, obj_val, ObjFn, Object, closure_obj, fn_obj}
use ruwren.Sequence.{buffer_write, buffer_fill}
use ruwren.Emit.{read_short}
use ruwren.Interpreter.State.{Machine, allocate, as_closure, as_fn}
use ruwren.Interpreter.Instructions.{decode, call}
use ruwren.Interpreter.Enter.{Loads}
use ruwren.Embedding.Handles.{Handles, make_handle}
use ruwren.Embedding.CallHandles.{stub_code, make_call_handle}
use ruwren.Embedding.Arity.{HasPlainName, num_params-text}

-- The function that the value of a handle stands for, with the one call in its code.
pub record IsStub (arity symbol : ℕ) (handle : Value) (m : Machine) : Type 0 where
  pub closure : ℕ
  pub fn : ObjFn
  pub is_closure : handle ≡ obj_val closure
  pub loads : Loads m closure fn
  pub calls : decode (get_or fn.code 0 0) ≡ some (call arity)
  pub method : read_short fn.code 1 ≡ symbol
  pub slots : fn.max_slots ≡ arity + 1

IsArity-small : (type : SignatureType) (n : ℕ) → IsArity type n → n ≤ max_parameters
IsArity-small sig_method n a = a
IsArity-small sig_getter n a = omega (arith, a)
IsArity-small sig_setter n a = omega (arith, a)
IsArity-small sig_subscript n a = a
IsArity-small sig_subscript_setter n (_, a) = a
IsArity-small sig_initializer n a = a

decode-call : (n : ℕ) → n ≤ max_parameters → decode ((24 + n) % 256) ≡ some (call n)
unfolding decode
decode-call n h = ground (arith, h)

stub_code-bytes :
    (n symbol : ℕ)
    → (get_or (stub_code n symbol).data_ 0 0 ≡ (24 + n) % 256)
      × (read_short (stub_code n symbol).data_ 1 ≡ symbol / 2 ^ 8 % 256 * 2 ^ 8 + symbol % 256)
unfolding stub_code buffer_write buffer_fill read_short
stub_code-bytes n symbol = (refl, refl)

abbrev stub_fn : ℕ → ℕ → ℕ → ObjFn
stub_fn no_module n symbol = record {
  arity = 0;
  max_slots = n + 1;
  num_upvalues = 0;
  module_ = no_module;
  code = (stub_code n symbol).data_;
  constants = [];
  constants_capacity = 0;
  code_capacity = (stub_code n symbol).capacity;
}

abbrev closure_object : ℕ → ℕ → Object
closure_object fn_class f = record {
  class_of = some fn_class;
  body = closure_obj (record { fn = some f; upvalues = [] });
}

allocate-new : (o : Object) (m : Machine) → (allocate o m).1.object m.allocated ≡ o
unfolding allocate
allocate-new o m = (rw (==_self m.allocated) refl)

allocate-old :
    (o : Object) (m : Machine) (b : ℕ) → b ≢ m.allocated → (allocate o m).1.object b ≡ m.object b
unfolding allocate
allocate-old o m b other = (rw (==_ne b m.allocated other) refl)

-- For a signature that the compiler makes without an error, of a name with neither an opening
-- bracket nor `)` nor a space nor `=`, and of no name for a subscript, `wrenMakeCallHandle` on its
-- text uses the table of method names as the compiler does, and if the symbol is below 65536, its
-- handle holds a closure whose code calls the method of the signature's symbol with as many
-- arguments as the signature has, and whose slots are these and the receiver.
pub make_call_handle-IsStub :
    (fn_class no_module : ℕ) (s : Signature) (t : SymbolTable) (m : Machine)
    (handles : Handles Value)
    → IsOrdinary s
    → HasPlainName s.type s.name
    → (signature_symbol t s).0 < 2 ^ 16
    → ((make_call_handle fn_class no_module (signature_to_string s) t m handles).1
        ≡ (signature_symbol t s).1)
      × IsStub s.arity
          (signature_symbol t s).0
          ((make_call_handle fn_class no_module (signature_to_string s) t m handles).3.handle
            (make_call_handle fn_class no_module (signature_to_string s) t m handles).0).value
          (make_call_handle fn_class no_module (signature_to_string s) t m handles).2
unfolding make_call_handle signature_symbol allocate make_handle
make_call_handle-IsStub fn_class no_module s t m handles ordinary plain small =
    let n = num_params-text s.name s.type s.arity ordinary.plain ordinary.arity plain in
    let arity = IsArity-small s.type s.arity ordinary.arity in
    let symbol = (signature_symbol t s).0 in
    let stub : Object = record {
      class_of = none;
      body = fn_obj (stub_fn no_module s.arity symbol);
    } in
    let m₁ = (allocate stub m).1 in
    let (op, short) = stub_code-bytes s.arity symbol in
    (
      refl,
      rw n (record {
        closure = m.allocated + 1;
        fn = stub_fn no_module s.arity symbol;
        is_closure = (rw (==_self handles.allocated) refl);
        loads = record {
          object = record { fn = some m.allocated; upvalues = [] };
          function = m.allocated;
          is_closure =
              ap (λ o. as_closure o.body) (allocate-new (closure_object fn_class m.allocated) m₁);
          has_function = refl;
          is_function =
              ap (λ o. as_fn o.body)
                (allocate-old (closure_object fn_class m.allocated) m₁ m.allocated
                    (λ e. absurd (omega (arith, e)))
                  ∙ allocate-new stub m);
        };
        calls = ap decode op ∙ decode-call s.arity arity;
        method = short ∙ (omega (arith, small));
        slots = refl;
      }),
    )
