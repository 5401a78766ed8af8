-- ===== src/Scopes.antt =====
-- ruwren-sys/src/wren_compiler.c, "Variables and scopes": local variables, block scopes and
-- upvalues. A chain of compilers is a list, the function being compiled first, its parents behind
-- it. The locals of a function are listed with the last one first, so that the index of a local is
-- the number of locals behind it.
pub mod Locals
pub mod Upvalues
use ruwren.Prelude.{
  ℕ, suc, ◌+◌, ◌-◌, ◌%◌, Bool, true, false, ◌&&◌, not, Option, none, some, List, [], ◌∷◌, ◌++◌, ltb,
  leb, ◌==◌, if◌then◌else◌, length, drop, get_or, index_of,
}
use ruwren.Prelude.Int.{ℤ, pos, negsuc, ◌+ℤ◌, sub_ℕ}
use ruwren.Prelude.Text.{bytes_equal}
use ruwren.Symbols.{SymbolTable, symbol_find}

-- `depth` is one more than in the source, whose -1 is here 0; so is `scope_depth`.
pub record Local : Type 0 where
  pub name : List ℕ
  pub depth : ℕ
  pub is_upvalue : Bool

pub record CompilerUpvalue : Type 0 where
  pub is_local : Bool
  pub index : ℕ

-- The messages of `error`, as far as they are used here.
pub data CompileError : Type 0 where
  name_too_long already_declared too_many_locals : CompileError
  jump_too_far break_outside continue_outside : CompileError
  too_many_parameters method_name_too_long : CompileError

-- A `Loop`; `start` is one more than in the source, where it can be -1. `exit_jump` and `body` are 0
-- until they are known.
pub record Loop : Type 0 where
  pub start : ℕ
  pub exit_jump : ℕ
  pub body : ℕ
  pub scope_depth : ℕ

-- A `Compiler` with the code of its `fn`. `loops` is the chain of `loop`; `is_method` is
-- `enclosingClass != NULL`; `line` is the line of the previous token, and `quiet` is whether that is
-- an error token.
pub record Compiler : Type 0 where
  pub locals : List Local
  pub upvalues : List CompilerUpvalue
  pub scope_depth : ℕ
  pub num_slots : ℤ
  pub max_slots : ℤ
  pub loops : List Loop
  pub is_method : Bool
  pub code : List ℕ
  pub source_lines : List ℕ
  pub line : ℕ
  pub quiet : Bool
  pub errors : List CompileError

abbrev pub max_locals : ℕ
max_locals = 256

abbrev pub max_variable_name : ℕ
max_variable_name = 64

abbrev pub code_pop : ℕ
code_pop = 23

abbrev pub code_close_upvalue : ℕ
code_close_upvalue = 63

unfoldable pub compile_error : CompileError → Compiler → Compiler
compile_error e c = if c.quiet then c else record c { errors = c.errors ++ e ∷ [] }

unfoldable pub emit_byte : ℕ → Compiler → ℕ × Compiler
emit_byte byte c =
    let c' = record c {
      code = c.code ++ byte % 256 ∷ [];
      source_lines = c.source_lines ++ c.line ∷ [];
    } in
    (length c'.code - 1, c')

unfoldable pub add_local : List ℕ → Compiler → ℕ × Compiler
add_local name c = (
  length c.locals,
  record c {
    locals = record { name = name; depth = c.scope_depth; is_upvalue = false } ∷ c.locals;
  },
)

unfoldable pub push_scope : Compiler → Compiler
push_scope c = record c { scope_depth = c.scope_depth + 1 }

-- The loop of `discardLocals`, with the number of locals that it came by.
unfoldable pub discard_loop : List Local → ℕ → Compiler → ℕ × Compiler
discard_loop [] depth c = (0, c)
discard_loop (local ∷ locals) depth c =
    let (_, c') = emit_byte (if local.is_upvalue then code_close_upvalue else code_pop) c in
    let rest = discard_loop locals depth c' in
    if leb depth local.depth then (suc rest.0, rest.1) else (0, c)

unfoldable pub discard_locals : ℕ → Compiler → ℕ × Compiler
discard_locals depth c = discard_loop c.locals depth c

-- `scopeDepth` is not -1 here.
unfoldable pub pop_scope : Compiler → Compiler
pop_scope c =
    let (popped, c') = discard_locals c.scope_depth c in
    record c' {
      locals = drop popped c'.locals;
      num_slots = c'.num_slots +ℤ sub_ℕ 0 popped;
      scope_depth = c'.scope_depth - 1;
    }

unfoldable pub resolve_local : List Local → List ℕ → Option ℕ
resolve_local [] name = none
resolve_local (local ∷ locals) name =
    if bytes_equal local.name name then some (length locals) else resolve_local locals name

-- The loop of `declareVariable`: a local of this name in the scope at `depth`.
unfoldable pub declared_here : List Local → ℕ → List ℕ → Option ℕ
declared_here [] depth name = none
declared_here (local ∷ locals) depth name =
    if ltb local.depth depth
    then none
    else if bytes_equal local.name name
    then some (length locals)
    else declared_here locals depth name

-- `declareVariable` below the top level of a module, behind the check of the name's length; `none`
-- is -1.
unfoldable pub declare_checked : List ℕ → Compiler → Option ℕ × Compiler
declare_checked name c =
    let (slot, added) = add_local name c in
    elim (declared_here c.locals c.scope_depth name) [
      | some i ↦ (some i, compile_error already_declared c)
      | none ↦
          if length c.locals == max_locals
          then (none, compile_error too_many_locals c)
          else (some slot, added)
    ]

unfoldable pub declare_local : List ℕ → Compiler → Option ℕ × Compiler
declare_local name c =
    declare_checked name
      (if ltb max_variable_name (length name) then compile_error name_too_long c else c)

abbrev pub captures : Bool → ℕ → CompilerUpvalue → Bool
captures is_local index upvalue =
    upvalue.index == index && (if is_local then upvalue.is_local else not upvalue.is_local)

-- The length of the array `upvalues`.
abbrev pub max_upvalues : ℕ
max_upvalues = 256

-- `none` for a write behind the array, which the source does not check.
unfoldable pub add_upvalue : List CompilerUpvalue → Bool → ℕ → Option (ℕ × List CompilerUpvalue)
add_upvalue upvalues is_local index = elim (index_of (captures is_local index) upvalues) [
  | some i ↦ some (i, upvalues)
  | none ↦
      if ltb (length upvalues) max_upvalues
      then some (length upvalues, upvalues ++ record { is_local = is_local; index = index } ∷ [])
      else none
]

-- `locals[i].isUpvalue = true`.
unfoldable pub mark_upvalue : List Local → ℕ → List Local
mark_upvalue [] i = []
mark_upvalue (local ∷ locals) i =
    if i == length locals
    then (record local { is_upvalue = true } ∷ locals)
    else local ∷ mark_upvalue locals i

-- Code in a method closes over no local of the functions outside, except for static fields.
abbrev pub at_boundary : List ℕ → Compiler → Bool
at_boundary name parent = not (get_or name 0 0 == b'_') && parent.is_method

-- The call of `addUpvalue` for `c`, and its index.
abbrev pub with_upvalue : Compiler → Bool → ℕ → List Compiler → Option (Option ℕ × List Compiler)
with_upvalue c is_local index chain = elim (add_upvalue c.upvalues is_local index) [
  | none ↦ none
  | some (i, upvalues) ↦ some (some i, record c { upvalues = upvalues } ∷ chain)
]

-- From what the enclosing function found on: it captures that upvalue.
abbrev pub flatten :
    Compiler → Option (Option ℕ × List Compiler) → Option (Option ℕ × List Compiler)
flatten c none = none
flatten c (some (none, chain)) = some (none, c ∷ chain)
flatten c (some (some upvalue, chain)) = with_upvalue c false upvalue chain

-- The index of the upvalue, and the chain with what was marked and added on the way; `none` for a
-- write behind an array.
unfoldable pub find_upvalue : List Compiler → List ℕ → Option (Option ℕ × List Compiler)
find_upvalue [] name = some (none, [])
find_upvalue (c ∷ []) name = some (none, c ∷ [])
find_upvalue (c ∷ parent ∷ outer) name =
    let above = find_upvalue (parent ∷ outer) name in
    let marked = λ (i : ℕ). record parent { locals = mark_upvalue parent.locals i } in
    if at_boundary name parent
    then some (none, c ∷ parent ∷ outer)
    else elim (resolve_local parent.locals name) [
      | some local ↦ with_upvalue c true local (marked local ∷ outer)
      | none ↦ flatten c above
    ]

-- A `Variable`: its scope with its index, or an index of -1.
pub data Variable : Type 0 where
  in_local in_upvalue in_module : ℕ → Variable
  unresolved : Variable

abbrev resolve_outside : Option (Option ℕ × List Compiler) → Option (Variable × List Compiler)
resolve_outside none = none
resolve_outside (some (none, chain)) = some (unresolved, chain)
resolve_outside (some (some i, chain)) = some (in_upvalue i, chain)

unfoldable pub resolve_nonmodule :
    Compiler → List Compiler → List ℕ → Option (Variable × List Compiler)
resolve_nonmodule c outer name = elim (resolve_local c.locals name) [
  | some i ↦ some (in_local i, c ∷ outer)
  | none ↦ resolve_outside (find_upvalue (c ∷ outer) name)
]

abbrev resolve_in_module :
    SymbolTable → List ℕ → Variable × List Compiler → Variable × List Compiler
resolve_in_module names name (unresolved, chain) =
    (elim (symbol_find names name) [ none ↦ unresolved | some i ↦ in_module i ], chain)
resolve_in_module names name (in_local i, chain) = (in_local i, chain)
resolve_in_module names name (in_upvalue i, chain) = (in_upvalue i, chain)
resolve_in_module names name (in_module i, chain) = (in_module i, chain)

unfoldable pub resolve_name :
    SymbolTable → Compiler → List Compiler → List ℕ → Option (Variable × List Compiler)
resolve_name names c outer name = elim (resolve_nonmodule c outer name) [
  | none ↦ none
  | some found ↦ some (resolve_in_module names name found)
]
