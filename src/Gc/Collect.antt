-- ===== src/Gc/Collect.antt =====
-- A whole collection, against reachability from the roots.
use ruwren.Prelude.{ℕ, ◌≡◌, Bool, true, false, Option, some, List, [], ◌∷◌, ◌⊎◌, In}
use ruwren.Gc.{Heap, Marks, Sizes, Roots, Config, Collected, sweep, next_gc}
use ruwren.Gc.Reach.{Reach, Traced, IsClosed}
use ruwren.Gc.Children.{children, root_objects}

module _ (sizes : Sizes) (heap : Heap) (roots : Roots) (ok : IsClosed heap roots) where
  record Inv (m : Marks) : Type 0 where
    rooted : (a : ℕ) → In a (root_objects roots) → m.is_dark a ≡ true
    sound : (a : ℕ) → m.is_dark a ≡ true → Traced heap roots a
    inside : (a : ℕ) → m.is_dark a ≡ true → In a heap.all
    waiting :
        (a b : ℕ)
        → m.is_dark a ≡ true
        → In b (children (heap.object a))
        → In a m.gray ⊎ (m.is_dark b ≡ true)
    dark_gray : (a : ℕ) → In a m.gray → m.is_dark a ≡ true

  module _ (m : Marks) (u : ℕ) (rest : List ℕ) (top : m.gray ≡ u ∷ rest) (inv : Inv m) where
    open inv use {rooted, sound, inside, waiting, dark_gray}

    popped : Marks
    popped = record m { gray = rest }

  abbrev Blackened : Option Marks → Type 0
  Blackened o = (m' : Marks) × (o ≡ some m') × Inv m' × (m'.gray ≡ [])

  -- What a collection is meant to do.
  pub record Collects (c : Collected) : Type 0 where
    pub keeps_only : (a : ℕ) → In a c.swept.kept → In a heap.all × Reach heap roots a
    pub keeps_reached : (a : ℕ) → Reach heap roots a → In a c.swept.kept
    pub frees_only : (a : ℕ) → In a c.swept.freed → In a heap.all × (Reach heap roots a → ⊥)
    pub frees_rest : (a : ℕ) → In a heap.all → In a c.swept.kept ⊎ In a c.swept.freed
    pub clears : (a : ℕ) → In a c.swept.kept → c.swept.is_dark a ≡ false

  abbrev unstarted : (ℕ → Bool) → Marks
  unstarted is_dark = record { is_dark = is_dark; gray = []; bytes_allocated = 0 }

  abbrev finish : Config → Marks → Collected
  finish config m = record {
    swept = sweep heap.all m.is_dark;
    bytes_allocated = m.bytes_allocated;
    next_gc = next_gc config m.bytes_allocated;
  }
