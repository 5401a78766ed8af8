-- ===== src/Symbols/Laws.antt =====
-- What finding, adding and ensuring do to a symbol table.
use ruwren.Prelude.{
  ℕ, ◌-◌, ◌≡◌, refl, none, some, List, [], ◌∷◌, ◌++◌, arith, length, get_elem?, index_of-append,
  index_of-new, index_of-passes, Option-cases, inl, inr, length-append,
}
use ruwren.Prelude.Text.{bytes_equal, bytes_equal_refl, bytes_equal-eq}
use ruwren.Symbols.{SymbolTable, symbol_find, symbol_add, symbol_ensure}

-- A name that is found is at its symbol.
pub symbol_find-at :
    (t : SymbolTable) (name : List ℕ) (i : ℕ)
    → symbol_find t name ≡ some i
    → get_elem? t i ≡ some name
unfolding symbol_find
symbol_find-at t name i h =
    let (x, at, same) = index_of-passes (λ s. bytes_equal s name) t i h in
    rw (bytes_equal-eq x name same) at at

pub symbol_find-kept :
    (t : SymbolTable) (new name : List ℕ) (i : ℕ)
    → symbol_find t name ≡ some i
    → symbol_find (t ++ new ∷ []) name ≡ some i
unfolding symbol_find
symbol_find-kept t new name i h = index_of-append (λ s. bytes_equal s name) t (new ∷ []) i h

pub symbol_find-new :
    (t : SymbolTable) (name : List ℕ)
    → symbol_find t name ≡ none
    → symbol_find (t ++ name ∷ []) name ≡ some (length t)
unfolding symbol_find
symbol_find-new t name h = index_of-new (λ s. bytes_equal s name) t name h (bytes_equal_refl name)

-- The index of the item that is appended last.
pub last_index : (t : SymbolTable) (name : List ℕ) → length (t ++ name ∷ []) - 1 ≡ length t
last_index t name = let e = length-append t (name ∷ []) in omega (arith, e)

ensure_found :
    (t : SymbolTable) (name : List ℕ) (i : ℕ)
    → symbol_find t name ≡ some i
    → symbol_ensure t name ≡ (i, t)
unfolding symbol_ensure
ensure_found t name i h = rw (symbol_ensure, h) refl

pub ensure_new :
    (t : SymbolTable) (name : List ℕ)
    → symbol_find t name ≡ none
    → symbol_ensure t name ≡ (length t, t ++ name ∷ [])
unfolding symbol_ensure symbol_add
ensure_new t name h = rw (symbol_ensure, h, symbol_add, last_index t name) refl

-- Ensuring a name gives a symbol and a table in which the name is found under the symbol and
-- stands at that index, every name that was found before is found under the same symbol, and
-- ensuring the name again gives the same symbol and table.
pub symbol_ensure-interns :
    (t : SymbolTable) (name : List ℕ)
    → (i : ℕ) × (t' : SymbolTable) × (symbol_ensure t name ≡ (i, t'))
      × (symbol_find t' name ≡ some i)
      × (get_elem? t' i ≡ some name)
      × ((x : List ℕ) (j : ℕ) → symbol_find t x ≡ some j → symbol_find t' x ≡ some j)
      × (symbol_ensure t' name ≡ (i, t'))
symbol_ensure-interns t name = elim (Option-cases (symbol_find t name)) [
  | inl gone ↦
      let found = symbol_find-new t name gone in
      (
        length t,
        t ++ name ∷ [],
        ensure_new t name gone,
        found,
        symbol_find-at (t ++ name ∷ []) name (length t) found,
        λ x j h. symbol_find-kept t name x j h,
        ensure_found (t ++ name ∷ []) name (length t) found,
      )
  | inr (i, found) ↦ (
    i,
    t,
    ensure_found t name i found,
    found,
    symbol_find-at t name i found,
    λ x j h. h,
    ensure_found t name i found,
  )
]
