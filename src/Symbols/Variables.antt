-- ===== src/Symbols/Variables.antt =====
-- The variables of a module: each definition, on every branch.
use ruwren.Prelude.{
  ℕ, ◌≡◌, none, some, List, [], ◌∷◌, ◌++◌, ◌⊎◌, true, false, length, set, get_elem?,
}
use ruwren.Prelude.Int.{ℤ}
use ruwren.Symbols.{
  symbol_find, Value, num, other, Module, Defined, symbol, already_defined, too_many_variables,
  used_before, max_module_vars, is_local_name,
}

module _ {A : Type 0} where
  -- As many variables as names.
  abbrev pub IsPaired : Module A → Type 0
  IsPaired m = length m.variables ≡ length m.variable_names

  -- Under `s` the module has `name`, with the value `value`.
  pub record Binds (m : Module A) (name : List ℕ) (s : ℕ) (value : Value A) : Type 0 where
    pub named : symbol_find m.variable_names name ≡ some s
    pub valued : get_elem? m.variables s ≡ some value

  -- A new name with its value behind the others.
  pub record IsAdded (m : Module A) (name : List ℕ) (value : Value A) (m' : Module A) : Type 0 where
    pub was_unknown : symbol_find m.variable_names name ≡ none
    pub one_more_name : m'.variable_names ≡ m.variable_names ++ name ∷ []
    pub one_more_value : m'.variables ≡ m.variables ++ value ∷ []

  -- What each result means for the module before and the module after.
  abbrev pub Means : Module A → List ℕ → Value A → Defined → Module A → Type 0
  Means m name value (symbol s) m' =
      Binds m' name s value
      × (IsAdded m name value m'
          ⊎ (line : ℤ) × Binds m name s (num line)
            × (is_local_name name ≡ false)
            × (m' ≡ record m { variables = set m.variables s value }))
  Means m name value already_defined m' = (m' ≡ m) × (s : ℕ) × (v : A) × Binds m name s (other v)
  Means m name value too_many_variables m' = (m' ≡ m) × (length m.variables ≡ max_module_vars)
  Means m name value (used_before line) m' =
      (is_local_name name ≡ true)
      × (s : ℕ) × Binds m name s (num line)
      × Binds m' name s value
      × (m' ≡ record m { variables = set m.variables s value })

  abbrev Outcome : Module A → List ℕ → Value A → Defined × Module A → Type 0
  Outcome m name value r = IsPaired r.1 × Means m name value r.0 r.1
