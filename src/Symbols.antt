-- ===== src/Symbols.antt =====
-- ruwren-sys/src/wren_utils.c: symbol tables, which are lists of names; a symbol is an index.
-- ruwren-sys/src/wren_vm.c: the variables of a module (`wrenDeclareVariable`,
-- `wrenDefineVariable`), with `wrenIsLocalName` of wren_vm.h.
pub mod Laws
pub mod Variables
use ruwren.Prelude.{
  ℕ, ◌-◌, Bool, ◌&&◌, Option, none, some, List, [], ◌∷◌, ◌++◌, leb, get_elem?, ◌==◌, if◌then◌else◌,
  length, get_or, set, index_of,
}
use ruwren.Prelude.Int.{ℤ}
use ruwren.Prelude.Text.{bytes_equal}

abbrev pub SymbolTable : Type 0
SymbolTable = List (List ℕ)

unfoldable pub symbol_find : SymbolTable → List ℕ → Option ℕ
symbol_find symbols name = index_of (λ symbol. bytes_equal symbol name) symbols

unfoldable pub symbol_add : SymbolTable → List ℕ → ℕ × SymbolTable
symbol_add symbols name = let symbols' = symbols ++ name ∷ [] in (length symbols' - 1, symbols')

unfoldable pub symbol_ensure : SymbolTable → List ℕ → ℕ × SymbolTable
symbol_ensure symbols name = elim (symbol_find symbols name) [
  | some existing ↦ (existing, symbols)
  | none ↦ symbol_add symbols name
]

-- A value of a module variable, as far as the compiler looks at it: a number, converted to `int`,
-- or another value.
pub data Value (A : Type 0) : Type 0 where
  num : ℤ → Value A
  other : A → Value A

-- The part of an `ObjModule` that holds the variables.
pub record Module (A : Type 0) : Type 0 where
  pub variables : List (Value A)
  pub variable_names : SymbolTable

-- The symbol, or which of the negative codes -1, -2 and -3.
pub data Defined : Type 0 where
  symbol : ℕ → Defined
  already_defined : Defined
  too_many_variables : Defined
  used_before : ℤ → Defined

abbrev pub max_module_vars : ℕ
max_module_vars = 65536

-- `name[0]` of the empty name is the terminating zero, or what else follows the name.
unfoldable pub is_local_name : List ℕ → Bool
is_local_name name = leb b'a' (get_or name 0 0) && leb (get_or name 0 0) b'z'

module _ {A : Type 0} where
  unfoldable pub declare_variable : Module A → List ℕ → ℤ → Defined × Module A
  declare_variable m name line =
      let (s, names) = symbol_add m.variable_names name in
      if length m.variables == max_module_vars
      then (too_many_variables, m)
      else (symbol s, record { variables = m.variables ++ num line ∷ []; variable_names = names })

  -- The branches for a name that has the symbol `s` already, whose value is given; a symbol
  -- without a value cannot be, as there are as many values as names.
  unfoldable pub define_known :
      Module A → List ℕ → Value A → ℕ → Option (Value A) → Defined × Module A
  unfolding is_local_name
  define_known m name value s (some (num line)) =
      let defined = record m { variables = set m.variables s value } in
      (if is_local_name name then used_before line else symbol s, defined)
  define_known m name value s (some (other _)) = (already_defined, m)
  define_known m name value s none = (already_defined, m)

  unfoldable pub define_variable : Module A → List ℕ → Value A → Defined × Module A
  define_variable m name value =
      let (s, names) = symbol_add m.variable_names name in
      let fresh : Module A = record {
        variables = m.variables ++ value ∷ [];
        variable_names = names;
      } in
      if length m.variables == max_module_vars
      then (too_many_variables, m)
      else elim (symbol_find m.variable_names name) [
        | none ↦ (symbol s, fresh)
        | some known ↦ define_known m name value known (get_elem? m.variables known)
      ]
