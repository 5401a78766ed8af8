-- ===== src/Embedding/Slots.antt =====
-- ruwren-sys/src/wren_vm.c: the slots by which C reads and writes the values of a call, and the
-- lists in them. A failed assertion is `none`.
use ruwren.Prelude.{
  ◌||◌, ◌^◌, ℕ, zero, suc, ◌+◌, ◌-◌, Bool, true, false, Option, none, some, List, [], ◌∷◌, ◌++◌,
  leb, if◌then◌else◌, length, get_elem?, set,
}
use ruwren.Prelude.Int.{ℤ, pos, negsuc, ◌+ℤ◌, ltb_ℤ}
use ruwren.Sequence.{Buffer, validate_index, list_insert}
use ruwren.Values.{Value, null_val, false_val, true_val, num_val, Body, list_obj}
use ruwren.Fibers.{Fiber, fiber_other, set_error}
use ruwren.Interpreter.State.{
  Machine, then_, change_fiber, stack_of, slot_at, set_body, body_at, address_of,
}
use ruwren.Interpreter.State
use ruwren.Interpreter.Calls.{ensure_stack}
use ruwren.Embedding.Handles.{Handles, make_handle}

-- `api_stack` is the number of slots of the fiber below those of the interface.
pub record Api : Type 0 where
  pub machine : Machine
  pub api_stack : Option ℕ

-- `wrenNewFiber` without a closure, for `vm->fiber`; its address is the next one.
unfoldable pub new_fiber : Machine → Machine
new_fiber m =
    let a = m.allocated in
    let fresh : Fiber = record {
      stack = [];
      stack_capacity = 1;
      frames = [];
      frame_capacity = 4;
      open_upvalues = [];
      caller = none;
      error = null_val;
      state = fiber_other;
    } in
    let made = record (change_fiber a (λ _. fresh) m) { allocated = a + 1 } in
    record made { vm = record (made.vm) { fiber = some a } }

unfoldable pub get_slot_count : Api → Option ℕ
get_slot_count api = elim api.api_stack [
  | none ↦ some 0
  | some start ↦ let m = api.machine in then_ m.vm.fiber λ a. some (length (stack_of a m) - start)
]

-- The values that the array of a stack happens to hold in the next slots, the highest first.
abbrev pub unset : (ℕ → Value) → ℕ → ℕ → List Value
unset stale from zero = []
unset stale from (suc n) = stale (from + n) ∷ unset stale from n

-- `wrenEnsureSlots` from the size on, in the fiber.
unfoldable pub widen : (ℕ → Value) → ℕ → ℕ → Fiber → Fiber
widen stale start slots f =
    let size = length f.stack in
    let needed = start + slots in
    let grown = ensure_stack needed f in
    if leb slots (size - start)
    then f
    else record grown { stack = unset stale size (needed - size) ++ f.stack }

-- The new capacity is an `int`, which holds powers of two up to 2 ^ 30.
abbrev pub can_widen : ℕ → ℕ → Fiber → Bool
can_widen start slots f =
    leb slots (length f.stack - start)
    || leb (start + slots) f.stack_capacity
    || leb (start + slots) (2 ^ 30)

-- `none` stands for an overflow of the capacity, which is undefined.
unfoldable pub ensure_slots : (ℕ → Value) → ℕ → Api → Option Api
unfolding new_fiber widen
ensure_slots stale slots api =
    let m = api.machine in
    elim api.api_stack [
      | none ↦
          let made = new_fiber m in
          if can_widen 0 slots (made.vm.fibers m.allocated)
          then some (record {
            machine = change_fiber m.allocated (widen stale 0 slots) made;
            api_stack = some 0;
          })
          else none
      | some start ↦ then_ m.vm.fiber λ a.
          if can_widen start slots (m.vm.fibers a)
          then some (record api { machine = change_fiber a (widen stale start slots) m })
          else none
    ]

-- `validateApiSlot`, and `vm->apiStack[slot]`.
unfoldable pub slot_value : ℕ → Api → Option Value
slot_value slot api =
    let m = api.machine in
    then_ api.api_stack λ start. then_ m.vm.fiber λ a. slot_at (stack_of a m) (start + slot)

unfoldable pub set_slot : ℕ → Value → Api → Option Api
set_slot slot value api =
    let m = api.machine in
    then_ api.api_stack λ start. then_ m.vm.fiber λ a.
      then_ (State.set_slot (stack_of a m) (start + slot) value)
        λ stack. some (record api { machine = State.set_stack a stack m })

unfoldable pub get_slot_bool : ℕ → Api → Option Bool
unfolding slot_value
get_slot_bool slot api =
    then_ (slot_value slot api)
      λ v. elim v [ false_val ↦ some false | true_val ↦ some true | _ ↦ none ]

unfoldable pub get_slot_double : ℕ → Api → Option ℕ
unfolding slot_value
get_slot_double slot api =
    then_ (slot_value slot api) λ v. elim v [ num_val bits ↦ some bits | _ ↦ none ]

unfoldable pub get_slot_handle : ℕ → Api → Handles Value → Option (ℕ × Handles Value)
unfolding slot_value
get_slot_handle slot api handles = then_ (slot_value slot api) λ v. some (make_handle v handles)

unfoldable pub set_slot_bool : ℕ → Bool → Api → Option Api
unfolding set_slot
set_slot_bool slot value api = set_slot slot (if value then true_val else false_val) api

unfoldable pub set_slot_double : ℕ → ℕ → Api → Option Api
unfolding set_slot
set_slot_double slot bits api = set_slot slot (num_val bits) api

unfoldable pub set_slot_null : ℕ → Api → Option Api
unfolding set_slot
set_slot_null slot api = set_slot slot null_val api

unfoldable pub set_slot_handle : ℕ → ℕ → Handles Value → Api → Option Api
unfolding set_slot
set_slot_handle slot handle handles api = set_slot slot (handles.handle handle).value api

abbrev pub as_list : Body → Option (Buffer Value)
as_list (list_obj elements capacity) = some (record { data_ = elements; capacity = capacity })
as_list _ = none

-- The list in a slot, with its address.
unfoldable pub list_in : ℕ → Api → Option (ℕ × Buffer Value)
unfolding slot_value
list_in slot api =
    then_ (slot_value slot api)
      λ v. then_ (address_of v) λ a. then_ (as_list (body_at api.machine a)) λ list. some (a, list)

abbrev pub set_list : ℕ → Buffer Value → Api → Api
set_list a list api = record api {
  machine = set_body a (list_obj list.data_ list.capacity) api.machine;
}

unfoldable pub get_list_count : ℕ → Api → Option ℕ
unfolding list_in
get_list_count slot api = then_ (list_in slot api) λ (a, list). some (length list.data_)

unfoldable pub get_list_element : ℕ → ℤ → ℕ → Api → Option Api
unfolding list_in set_slot
get_list_element list_slot index element_slot api = then_ (list_in list_slot api) λ (a, list).
    then_ (validate_index (length list.data_) index)
      λ used. then_ (get_elem? list.data_ used) λ element. set_slot element_slot element api

unfoldable pub set_list_element : ℕ → ℤ → ℕ → Api → Option Api
unfolding list_in slot_value
set_list_element list_slot index element_slot api = then_ (list_in list_slot api) λ (a, list).
    then_ (slot_value element_slot api) λ element.
      then_ (validate_index (length list.data_) index)
        λ used. some (set_list a (record list { data_ = set list.data_ used element }) api)

-- The assertion lets a negative index pass that stays negative; it is `none` here.
unfoldable pub insert_in_list : ℕ → ℤ → ℕ → Api → Option Api
unfolding list_in slot_value
insert_in_list list_slot index element_slot api = then_ (list_in list_slot api) λ (a, list).
    then_ (slot_value element_slot api) λ element.
      let count = length list.data_ in
      elim (if ltb_ℤ index (pos 0) then pos (count + 1) +ℤ index else index) [
        | negsuc _ ↦ none
        | pos i ↦
            if leb i count
            then some (set_list a (list_insert null_val list element i) api)
            else none
      ]

unfoldable pub abort_fiber : ℕ → Api → Option Api
unfolding slot_value
abort_fiber slot api =
    let m = api.machine in
    then_ (slot_value slot api)
      λ v. then_ m.vm.fiber λ a. some (record api { machine = change_fiber a (set_error v) m })
