-- ===== src/Tests/EmbeddingTests.antt =====
-- Two handles, a handle for a call, and the slots of a foreign method.
use ruwren.Prelude.{
  ℕ, ◌≡◌, ◌≢◌, ◌≤◌, refl, some, none, [], ◌∷◌, ◌++◌, List, ap, get_elem?, Option-cases, inl, inr,
  arith,
}
use ruwren.Prelude.Text.{codes}
use ruwren.Signature.{Signature, sig_method, signature_to_string, signature_symbol}
use ruwren.Signature.Distinct.{IsOrdinary}
use ruwren.Signature.Reading.{is_plain}
use ruwren.Symbols.{symbol_ensure, symbol_find}
use ruwren.Symbols.Laws.{ensure_new, symbol_find-at}
use ruwren.Values.{Value, null_val, num_val, obj_val, fn_obj}
use ruwren.Capture.{stack_slot}
use ruwren.Fibers.{Fiber, fiber_root}
use ruwren.Interpreter.State.{Machine}
use ruwren.Embedding.Handles.{Handles, make_handle, release_handle}
use ruwren.Embedding.Links.{AreHandles, Linked}
use ruwren.Embedding.Linked.{make_handle-AreHandles, release_handle-AreHandles}
use ruwren.Embedding.CallHandles.{make_call_handle}
use ruwren.Embedding.Stubs.{IsStub, make_call_handle-IsStub}
use ruwren.Embedding.Slots.{Api, ensure_slots, get_slot_count}
use ruwren.Embedding.Reserve.{Reserves, ensure_slots-Reserves}

abbrev no_handles : Handles Value
no_handles = record {
  handle = λ a. record { value = null_val; prev = none; next = none };
  first_handle = none;
  allocated = 0;
}

abbrev two_handles : Handles Value
two_handles = (make_handle (num_val 2) (make_handle (num_val 1) no_handles).1).1

no-AreHandles : AreHandles no_handles []
unfolding Linked
no-AreHandles = record { linked = refl; distinct = tt; allocated_lem = λ a i. absurd i }

two-AreHandles : AreHandles two_handles (1 ∷ 0 ∷ [])
unfolding make_handle
two-AreHandles =
    (make_handle-AreHandles (num_val 2) (make_handle (num_val 1) no_handles).1 (0 ∷ [])
      (make_handle-AreHandles (num_val 1) no_handles [] no-AreHandles).0).0

release_handle-AreHandles_example :
    AreHandles (release_handle null_val 0 two_handles) ((1 ∷ []) ++ [])
    × ((b : ℕ)
        → b ≢ 0
        → ((release_handle null_val 0 two_handles).handle b).value ≡ (two_handles.handle b).value)
release_handle-AreHandles_example =
    release_handle-AreHandles null_val two_handles (1 ∷ []) [] 0 two-AreHandles

-- `at(_,_)`.
abbrev at_two : Signature
at_two = record { name = codes "at"; type = sig_method; arity = 2 }

two-IsOrdinary : IsOrdinary at_two
unfolding is_plain
two-IsOrdinary = record { plain = (refl, (refl, tt)); arity = omega arith }

-- A foreign method with a receiver and one argument.
abbrev in_foreign : Fiber
in_foreign = record {
  stack = num_val 5 ∷ obj_val 9 ∷ null_val ∷ [];
  stack_capacity = 4;
  frames = [];
  frame_capacity = 4;
  open_upvalues = [];
  caller = none;
  error = null_val;
  state = fiber_root;
}

abbrev machine : Machine
machine = record {
  vm = record { fiber = some 1; fibers = λ a. in_foreign };
  object = λ a. record {
    class_of = none;
    body = fn_obj (record {
      arity = 0;
      max_slots = 1;
      num_upvalues = 0;
      module_ = 40;
      code = [];
      constants = [];
      constants_capacity = 0;
      code_capacity = 0;
    });
  };
  allocated = 60;
  upvalue = λ a. record { value = stack_slot 0; closed = null_val };
  allocated_upvalues = 0;
  owner = λ a. 1;
  last_module = none;
  ip = 0;
}

absurd_element : {A : Type 0} (i : ℕ) (a : A) → get_elem? {A = A} [] i ≡ some a → ⊥
absurd_element i a e = cc

first_symbol : (text : List ℕ) → (symbol_ensure [] text).0 ≡ 0
first_symbol text = elim (Option-cases (symbol_find [] text)) [
  | inl gone ↦ ap (λ p. p.0) (ensure_new [] text gone)
  | inr (i, found) ↦ absurd (absurd_element i text (symbol_find-at [] text i found))
]

small_symbol : (signature_symbol [] at_two).0 ≤ 5
unfolding signature_symbol
small_symbol = omega (arith, first_symbol (signature_to_string at_two))

make_call_handle-IsStub_example :
    ((make_call_handle 33 0 (signature_to_string at_two) [] machine no_handles).1
      ≡ (signature_symbol [] at_two).1)
    × IsStub 2
        (signature_symbol [] at_two).0
        ((make_call_handle 33 0 (signature_to_string at_two) [] machine no_handles).3.handle
          (make_call_handle 33 0 (signature_to_string at_two) [] machine no_handles).0).value
        (make_call_handle 33 0 (signature_to_string at_two) [] machine no_handles).2
make_call_handle-IsStub_example =
    make_call_handle-IsStub 33 0 at_two [] machine no_handles two-IsOrdinary (refl, (refl, tt))
      (omega (arith, small_symbol))

abbrev api : Api
api = record { machine = machine; api_stack = some 1 }

ensure_slots-Reserves_example :
    (api' : Api) × (count : ℕ) × (ensure_slots (λ n. null_val) 5 api ≡ some api')
    × Reserves 1 5 in_foreign ((api'.machine).vm.fibers 1)
    × (get_slot_count api' ≡ some count)
    × (5 ≤ count)
ensure_slots-Reserves_example =
    ensure_slots-Reserves (λ n. null_val) 5 1 1 api refl refl (omega arith) (omega arith)
      (omega arith)
