-- ===== src/Tests/SymbolTests.antt =====
-- Symbols and module variables, on a module with two variables.
use ruwren.Prelude.{ℕ, ◌≡◌, some, List, [], ◌∷◌, get_elem?}
use ruwren.Prelude.Int.{pos}
use ruwren.Prelude.Text.{codes}
use ruwren.Symbols.{SymbolTable, symbol_find, symbol_ensure, num, other, Module}
use ruwren.Symbols.Laws.{symbol_ensure-interns}

abbrev names : SymbolTable
names = codes "count" ∷ codes "Map" ∷ []

symbol_ensure-interns_example :
    (i : ℕ) × (t' : SymbolTable) × (symbol_ensure names (codes "add(_)") ≡ (i, t'))
    × (symbol_find t' (codes "add(_)") ≡ some i)
    × (get_elem? t' i ≡ some (codes "add(_)"))
    × ((x : List ℕ) (j : ℕ) → symbol_find names x ≡ some j → symbol_find t' x ≡ some j)
    × (symbol_ensure t' (codes "add(_)") ≡ (i, t'))
symbol_ensure-interns_example = symbol_ensure-interns names (codes "add(_)")

-- `count` was used in line 3 before its definition.
abbrev module_vars : Module ℕ
module_vars = record { variables = num (pos 3) ∷ other 0 ∷ []; variable_names = names }
