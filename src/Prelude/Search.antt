-- ===== src/Prelude/Search.antt =====
-- A search in a list for the first item that passes a test.
use mathlib.Core.Bool.{Bool, true, false}
use mathlib.Core.List.{List, [], ◌∷◌, ◌++◌}
use mathlib.Core.Option.{Option, none, some}
use mathlib.Core.Path.{◌≡◌, refl}
use Prim.Native.Nat.{ℕ, suc}
use ruwren.Prelude.Tests.{if◌then◌else◌, if_split}
use ruwren.Prelude.Lists.{get_elem?, length}

abbrev pub next_index : Option ℕ → Option ℕ
next_index none = none
next_index (some i) = some (suc i)

module _ {A : Type 0} (test : A → Bool) where
  -- `for (int i = 0; i < count; i++) { if (test(data[i])) return i; }`, and `none` for -1.
  unfoldable pub index_of : List A → Option ℕ
  index_of [] = none
  index_of (x ∷ xs) = if test x then some 0 else next_index (index_of xs)

  next_index_inv :
      (o : Option ℕ) (i : ℕ) → next_index o ≡ some i → (j : ℕ) × (o ≡ some j) × (i ≡ suc j)
  next_index_inv none i h = cc
  next_index_inv (some j) i h = (j, refl, cc)

  pub index_of-passes :
      (xs : List A) (i : ℕ)
      → index_of xs ≡ some i
      → (x : A) × (get_elem? xs i ≡ some x) × (test x ≡ true)
  unfolding index_of
  index_of-passes [] i h = cc
  index_of-passes (x ∷ xs) i h =
      if_split (λ o. o ≡ some i → (y : A) × (get_elem? (x ∷ xs) i ≡ some y) × (test y ≡ true))
        (test x) (λ t e. (x, cc, t))
        (λ _ e.
          let (j, found, is) = next_index_inv (index_of xs) i e in
          let (y, at, t) = index_of-passes xs j found in (y, rw is at, t))
        h

  -- What is appended does not change a search that succeeds.
  pub index_of-append :
      (xs ys : List A) (i : ℕ) → index_of xs ≡ some i → index_of (xs ++ ys) ≡ some i
  unfolding index_of
  index_of-append [] ys i h = cc
  index_of-append (x ∷ xs) ys i h =
      if_split (λ o. o ≡ some i → index_of (x ∷ xs ++ ys) ≡ some i) (test x) (λ t e. rw t e)
        (λ f e.
          let (j, found, is) = next_index_inv (index_of xs) i e in
          let after = index_of-append xs ys j found in rw (f, after, is) refl)
        h

  next_index-none : (o : Option ℕ) → next_index o ≡ none → o ≡ none
  next_index-none none h = refl
  next_index-none (some i) h = cc

  -- A search in vain comes to the item that is appended.
  pub index_of-new :
      (xs : List A) (y : A)
      → index_of xs ≡ none
      → test y ≡ true
      → index_of (xs ++ y ∷ []) ≡ some (length xs)
  unfolding index_of
  index_of-new [] y h t = rw t refl
  index_of-new (x ∷ xs) y h t =
      if_split (λ o. o ≡ none → index_of (x ∷ xs ++ y ∷ []) ≡ some (length (x ∷ xs))) (test x)
        (λ _ e. cc)
        (λ f e.
          let after = index_of-new xs y (next_index-none (index_of xs) e) t in rw (f, after) refl)
        h

  pub index_of-other :
      (xs : List A) (y : A) → index_of xs ≡ none → test y ≡ false → index_of (xs ++ y ∷ []) ≡ none
  unfolding index_of
  index_of-other [] y h t = rw t refl
  index_of-other (x ∷ xs) y h t =
      if_split (λ o. o ≡ none → index_of (x ∷ xs ++ y ∷ []) ≡ none) (test x) (λ _ e. cc)
        (λ f e.
          let after = index_of-other xs y (next_index-none (index_of xs) e) t in rw (f, after) refl)
        h
