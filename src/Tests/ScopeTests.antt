-- ===== src/Tests/ScopeTests.antt =====
-- Locals and upvalues, on a function inside a function.
use ruwren.Prelude.{
  ℕ, Option, some, ◌-◌, ◌≡◌, refl, Bool, true, false, List, [], ◌∷◌, ◌++◌, map, length, arith,
}
use ruwren.Prelude.Int.{pos, ◌+ℤ◌, sub_ℕ}
use ruwren.Prelude.Text.{codes}
use ruwren.Scopes.{Local, Compiler, find_upvalue, declare_local, pop_scope}
use ruwren.Scopes.Upvalues.{Outcome, find_upvalue-Outcome}
use ruwren.Scopes.Locals.{Declares, declare_local-Declares, discard_op, pop_scope-pops}

abbrev receiver : Local
receiver = record { name = []; depth = 0; is_upvalue = false }

abbrev local : List ℕ → ℕ → Bool → Local
local name depth is_upvalue = record { name = name; depth = depth; is_upvalue = is_upvalue }

abbrev compiling : List Local → Compiler
compiling locals = record {
  locals = locals;
  upvalues = [];
  scope_depth = 1;
  num_slots = pos (length locals);
  max_slots = pos (length locals);
  loops = [];
  is_method = false;
  code = [];
  source_lines = [];
  line = 1;
  quiet = false;
  errors = [];
}

abbrev inner : Compiler
inner = compiling (receiver ∷ [])

-- The function that declares `x`, with another function in between.
abbrev outer : List Compiler
outer = compiling (receiver ∷ []) ∷ compiling (local (codes "x") 1 false ∷ receiver ∷ []) ∷ []

find_upvalue-Outcome_example :
    (r : Option ℕ × List Compiler) × (find_upvalue (inner ∷ outer) (codes "x") ≡ some r)
    × Outcome inner outer (codes "x") r
find_upvalue-Outcome_example =
    find_upvalue-Outcome inner outer (codes "x") (omega arith, (omega arith, (omega arith, tt)))

declare_local-Declares_example : Declares inner.locals (codes "y") (declare_local (codes "y") inner)
declare_local-Declares_example = declare_local-Declares (codes "y") inner (omega arith)

abbrev block : Compiler
block = compiling (local (codes "b") 2 true ∷ local (codes "a") 1 false ∷ receiver ∷ [])

pop_scope-pops_example :
    ((pop_scope block).locals ≡ receiver ∷ [])
    × ((pop_scope block).num_slots ≡ block.num_slots +ℤ sub_ℕ 0 2)
    × ((pop_scope block).scope_depth ≡ block.scope_depth - 1)
    × ((pop_scope block).code
        ≡ block.code ++ map discard_op (local (codes "b") 2 true ∷ local (codes "a") 1 false ∷ []))
pop_scope-pops_example =
    pop_scope-pops (local (codes "b") 2 true ∷ local (codes "a") 1 false ∷ []) (receiver ∷ []) block
      refl (omega arith, (omega arith, tt)) (omega arith)
