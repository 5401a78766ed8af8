-- ===== src/Capture.antt =====
-- ruwren-sys/src/wren_vm.c: `captureUpvalue` and `closeUpvalues`, with `wrenNewUpvalue` of
-- wren_value.c. An upvalue object is known by its address, and points to a slot of the stack of its
-- fiber or to its own field `closed`.
pub mod Open
pub mod Close
use ruwren.Prelude.{
  ℕ, ◌+◌, Bool, true, false, List, [], ◌∷◌, ◌++◌, ltb, leb, ◌==◌, if◌then◌else◌, get_or,
}

pub data Pointer : Type 0 where
  stack_slot : ℕ → Pointer
  own_field : Pointer

pub record ObjUpvalue (A : Type 0) : Type 0 where
  pub value : Pointer
  pub closed : A

-- `object` is the upvalue at each address below `allocated`, where the next one is allocated.
-- `open_upvalues` is the chain from `fiber->openUpvalues`.
pub record Upvalues (A : Type 0) : Type 0 where
  pub object : ℕ → ObjUpvalue A
  pub allocated : ℕ
  pub open_upvalues : List ℕ

-- The comparisons of `upvalue->value` with a slot. An upvalue in the chain points to the stack.
abbrev pub is_above : ℕ → Pointer → Bool
is_above local (stack_slot n) = ltb local n
is_above local own_field = false

abbrev pub is_at : ℕ → Pointer → Bool
is_at local (stack_slot n) = n == local
is_at local own_field = false

abbrev pub is_from : ℕ → Pointer → Bool
is_from last (stack_slot n) = leb last n
is_from last own_field = false

module _ {A : Type 0} where
  abbrev pub write : ℕ → ObjUpvalue A → (ℕ → ObjUpvalue A) → ℕ → ObjUpvalue A
  write a o object b = if b == a then o else object b

  -- The value that `upvalue->value` points to; `null` stands behind the stack.
  abbrev pub load : A → List A → ObjUpvalue A → A
  load null stack o = elim o.value [ stack_slot n ↦ get_or stack n null | own_field ↦ o.closed ]

  -- `null` is `NULL_VAL`.
  unfoldable pub new_upvalue : A → ℕ → Upvalues A → ℕ × Upvalues A
  new_upvalue null local u = (
    u.allocated,
    record u {
      object = write u.allocated (record { value = stack_slot local; closed = null }) u.object;
      allocated = u.allocated + 1;
    },
  )

  -- The upvalues that the walk down the chain passes, and the rest of the chain.
  unfoldable pub walk : (ℕ → ObjUpvalue A) → ℕ → List ℕ → List ℕ × List ℕ
  walk object local [] = ([], [])
  walk object local (a ∷ rest) =
      let later = walk object local rest in
      let o = object a in if is_above local o.value then (a ∷ later.0, later.1) else ([], a ∷ rest)

  -- Between the upvalues `above` and `below`, which is where the walk stopped.
  unfoldable pub insert_upvalue : A → ℕ → List ℕ → List ℕ → Upvalues A → ℕ × Upvalues A
  insert_upvalue null local above below u =
      let (a, u') = new_upvalue null local u in
      (a, record u' { open_upvalues = above ++ a ∷ below })

  -- `captureUpvalue` behind its walk.
  unfoldable pub capture_between : A → ℕ → List ℕ → List ℕ → Upvalues A → ℕ × Upvalues A
  capture_between null local above [] u = insert_upvalue null local above [] u
  capture_between null local above (a ∷ below) u =
      let o = u.object a in
      if is_at local o.value then (a, u) else insert_upvalue null local above (a ∷ below) u

  unfoldable pub capture_upvalue : A → ℕ → Upvalues A → ℕ × Upvalues A
  capture_upvalue null local u =
      let (above, below) = walk u.object local u.open_upvalues in
      capture_between null local above below u

  unfoldable pub close_loop :
      A → List A → ℕ → List ℕ → (ℕ → ObjUpvalue A) → List ℕ × (ℕ → ObjUpvalue A)
  close_loop null stack last [] object = ([], object)
  close_loop null stack last (a ∷ rest) object =
      let o = object a in
      let moved : ObjUpvalue A = record { value = own_field; closed = load null stack o } in
      let closed = close_loop null stack last rest (write a moved object) in
      if is_from last o.value then closed else (a ∷ rest, object)

  unfoldable pub close_upvalues : A → List A → ℕ → Upvalues A → Upvalues A
  close_upvalues null stack last u =
      let (chain, object) = close_loop null stack last u.open_upvalues u.object in
      record u { object = object; open_upvalues = chain }
