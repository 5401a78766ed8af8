-- ===== src/Embedding/Handles.antt =====
-- ruwren-sys/src/wren_vm.c and wren_vm.h: handles, which keep values alive for C. They stand in a
-- doubly linked list. A handle is known by a number.
use ruwren.Prelude.{ℕ, ◌+◌, Option, none, some, ◌==◌, if◌then◌else◌}

pub record WrenHandle (A : Type 0) : Type 0 where
  pub value : A
  pub prev : Option ℕ
  pub next : Option ℕ

-- `first_handle` is `vm->handles`; handles stand below `allocated`.
pub record Handles (A : Type 0) : Type 0 where
  pub handle : ℕ → WrenHandle A
  pub first_handle : Option ℕ
  pub allocated : ℕ

module _ {A : Type 0} where
  abbrev pub at_handle :
      Option ℕ → (WrenHandle A → WrenHandle A) → (ℕ → WrenHandle A) → ℕ → WrenHandle A
  at_handle none change h b = h b
  at_handle (some a) change h b = if b == a then change (h b) else h b

  -- The new handle, and the list with it.
  unfoldable pub make_handle : A → Handles A → ℕ × Handles A
  make_handle value s =
      let new = s.allocated in
      let fresh : WrenHandle A = record { value = value; prev = none; next = s.first_handle } in
      let linked = at_handle s.first_handle (λ x. record x { prev = some new }) s.handle in
      (
        new,
        record {
          handle = at_handle (some new) (λ _. fresh) linked;
          first_handle = some new;
          allocated = s.allocated + 1;
        },
      )

  -- `null` is `NULL_VAL`.
  unfoldable pub release_handle : A → ℕ → Handles A → Handles A
  release_handle null a s =
      let x = s.handle a in
      let first : Option ℕ = elim s.first_handle [
        | none ↦ none
        | some f ↦ if f == a then x.next else some f
      ] in
      let before = at_handle x.prev (λ y. record y { next = x.next }) s.handle in
      let after = at_handle x.next (λ y. record y { prev = (before a).prev }) before in
      record s {
        first_handle = first;
        handle = at_handle (some a) (λ y. record { value = null; prev = none; next = none }) after;
      }
