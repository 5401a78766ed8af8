-- ===== src/Scopes/Locals.antt =====
-- Declaring local variables, and leaving a scope.
use ruwren.Prelude.{
  ℕ, suc, ◌-◌, ◌%◌, ◌≤◌, ◌<◌, ◌≡◌, refl, ◌∙◌, ap, sym, subst, true, false, Option, none, some, List,
  [], ◌∷◌, ◌++◌, arith, ltb, leb, ◌==◌, if◌then◌else◌, if_split, if_both, option_split, length,
  drop, map, append_assoc, append-nil, All, ◌⊎◌, inl, inr,
}
use ruwren.Prelude.Int.{◌+ℤ◌, sub_ℕ}
use ruwren.Prelude.Text.{bytes_equal_refl}
use ruwren.Scopes.{
  Local, Compiler, CompileError, name_too_long, already_declared, too_many_locals, max_locals,
  max_variable_name, code_pop, code_close_upvalue, compile_error, emit_byte, add_local,
  discard_loop, discard_locals, pop_scope, resolve_local, declared_here, declare_checked,
  declare_local,
}

-- Reporting an error changes nothing else.
compile_error-locals : (e : CompileError) (c : Compiler) → (compile_error e c).locals ≡ c.locals
unfolding compile_error
compile_error-locals e c = if_both {B = Compiler} (λ r. r.locals ≡ c.locals) c.quiet refl refl

declared_here-resolves :
    (ls : List Local) (depth : ℕ) (name : List ℕ) (i : ℕ)
    → declared_here ls depth name ≡ some i
    → resolve_local ls name ≡ some i
unfolding declared_here resolve_local
declared_here-resolves [] depth name i h = cc
declared_here-resolves (l ∷ ls) depth name i h =
    ground (arith, declared_here-resolves ls depth name i)

resolve_local-below :
    (ls : List Local) (i : ℕ) (name : List ℕ) → resolve_local ls name ≡ some i → i < length ls
unfolding resolve_local
resolve_local-below [] i name h = cc
resolve_local-below (l ∷ ls) i name h = ground (arith, resolve_local-below ls i name)

-- What a declaration of `name` in `before` did.
abbrev pub Declares : List Local → List ℕ → Option ℕ × Compiler → Type 0
Declares before name (none, c') = (c'.locals ≡ before) × (length before ≡ max_locals)
Declares before name (some i, c') =
    (i < max_locals)
    × (length c'.locals ≤ max_locals)
    × (resolve_local c'.locals name ≡ some i)
    × ((c'.locals ≡ before) ⊎ (i ≡ length before) × (drop 1 c'.locals ≡ before))

declared :
    (c : Compiler) (name : List ℕ) (i : ℕ)
    → length c.locals ≤ max_locals
    → resolve_local c.locals name ≡ some i
    → Declares c.locals name (some i, compile_error already_declared c)
declared c name i room h =
    let same = compile_error-locals already_declared c in
    (omega (arith, resolve_local-below c.locals i name h), rw same room, rw same h, inl same)

fresh :
    (c : Compiler) (name : List ℕ)
    → length c.locals < max_locals
    → Declares c.locals name (some (add_local name c).0, (add_local name c).1)
unfolding add_local resolve_local
fresh c name room = (room, omega arith, rw (bytes_equal_refl name) refl, inr (refl, refl))

declare_checked-Declares :
    (c : Compiler) (name : List ℕ)
    → length c.locals ≤ max_locals
    → Declares c.locals name (declare_checked name c)
unfolding declare_checked
declare_checked-Declares c name room =
    option_split {A = ℕ} (Declares c.locals name) (declared_here c.locals c.scope_depth name) _ _
      (λ _.
        if_split (Declares c.locals name) (length c.locals == max_locals)
          {x = (none, compile_error too_many_locals c)}
          (λ full. (compile_error-locals too_many_locals c, ground arith))
          (λ other. fresh c name (ground arith)))
      (λ i old. declared c name i room (declared_here-resolves c.locals c.scope_depth name i old))

-- In a function with at most 256 locals, declaring a local either gives a slot below 256 under
-- which the name is then found, with the locals unchanged or one added, whose slot it is, and at
-- most 256 of them; or it fails with the locals unchanged, and there were 256.
pub declare_local-Declares :
    (name : List ℕ) (c : Compiler)
    → length c.locals ≤ max_locals
    → Declares c.locals name (declare_local name c)
unfolding declare_local
declare_local-Declares name c room =
    let same = compile_error-locals name_too_long c in
    let long = compile_error name_too_long c in
    if_both (λ c'. Declares c.locals name (declare_checked name c'))
      (ltb max_variable_name (length name))
      (subst (λ ls. Declares ls name (declare_checked name long)) same
        (declare_checked-Declares long name (rw same room)))
      (declare_checked-Declares c name room)

-- The instruction that takes a local from the stack.
abbrev pub discard_op : Local → ℕ
discard_op l = (if l.is_upvalue then code_close_upvalue else code_pop) % 256

-- The locals of the scope at `depth` and of those inside it.
abbrev pub IsInside : ℕ → Local → Type 0
IsInside depth l = depth ≤ l.depth

-- No local is left over from the scope at `depth`.
abbrev pub IsOutside : ℕ → List Local → Type 0
IsOutside depth [] = Unit
IsOutside depth (l ∷ ls) = l.depth < depth

-- What `discard_loop` leaves of the compiler `c`.
abbrev Discards : List Local → Compiler → ℕ × Compiler → Type 0
Discards inner c (popped, c') =
    (popped ≡ length inner)
    × (c'.locals ≡ c.locals)
    × (c'.num_slots ≡ c.num_slots)
    × (c'.scope_depth ≡ c.scope_depth)
    × (c'.code ≡ c.code ++ map discard_op inner)

one_more :
    (l : Local) (inner : List Local) (c : Compiler) (r : ℕ × Compiler)
    → Discards inner (emit_byte (if l.is_upvalue then code_close_upvalue else code_pop) c).1 r
    → Discards (l ∷ inner) c (suc r.0, r.1)
unfolding emit_byte
one_more l inner c r (n, ls, slots, depth, code) = (
  ap suc n,
  ls,
  slots,
  depth,
  code ∙ append_assoc c.code (discard_op l ∷ []) (map discard_op inner),
)

discard_loop-Discards :
    (inner outer : List Local) (depth : ℕ) (c : Compiler)
    → All (IsInside depth) inner
    → IsOutside depth outer
    → Discards inner c (discard_loop (inner ++ outer) depth c)
unfolding discard_loop
discard_loop-Discards [] [] depth c ins out = (refl, refl, refl, refl, sym (append-nil c.code))
discard_loop-Discards [] (l ∷ ls) depth c ins out =
    let stop : leb depth l.depth ≡ false = ground arith in
    rw stop (refl, refl, refl, refl, sym (append-nil c.code))
discard_loop-Discards (l ∷ inner) outer depth c (here, ins) out =
    let go : leb depth l.depth ≡ true = ground arith in
    let c' = (emit_byte (if l.is_upvalue then code_close_upvalue else code_pop) c).1 in
    rw go (
      one_more l inner c (discard_loop (inner ++ outer) depth c')
        (discard_loop-Discards inner outer depth c' ins out))

drop-append : (xs ys : List Local) → drop (length xs) (xs ++ ys) ≡ ys
drop-append [] ys = refl
drop-append (x ∷ xs) ys = drop-append xs ys

-- If the locals are those of the innermost scope, or of one inside it, in front of the others, of
-- which the first is in a scope further out, leaving the scope keeps exactly the others, takes as
-- many from the slot count as went, ends the scope, and emits one instruction for each that went,
-- the last declared first, which closes it if it is an upvalue and pops it if not.
pub pop_scope-pops :
    (inner outer : List Local) (c : Compiler)
    → c.locals ≡ inner ++ outer
    → All (IsInside c.scope_depth) inner
    → IsOutside c.scope_depth outer
    → ((pop_scope c).locals ≡ outer)
      × ((pop_scope c).num_slots ≡ c.num_slots +ℤ sub_ℕ 0 (length inner))
      × ((pop_scope c).scope_depth ≡ c.scope_depth - 1)
      × ((pop_scope c).code ≡ c.code ++ map discard_op inner)
unfolding pop_scope discard_locals
pop_scope-pops inner outer c h ins out =
    let r = discard_loop c.locals c.scope_depth c in
    let (n, ls, slots, depth, code) : Discards inner c r =
      subst (λ ls'. Discards inner c (discard_loop ls' c.scope_depth c)) (sym h)
        (discard_loop-Discards inner outer c.scope_depth c ins out) in
    (rw (n, ls, h) (drop-append inner outer), rw (n, slots) refl, rw depth refl, code)
