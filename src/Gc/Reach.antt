-- ===== src/Gc/Reach.antt =====
-- The objects that can be reached from the roots by any pointers, and those to which the collector
-- comes.
use ruwren.Prelude.{ℕ, inl, inr, In}
use ruwren.Gc.{Heap, Roots}
use ruwren.Gc.Children.{children, root_objects}
use ruwren.Gc.Pointers.{pointers, untraced, children-pointers, pointers-traced}

-- What a program can still come to, by whatever pointer.
pub data Reach (heap : Heap) (roots : Roots) : ℕ → Type 0 where
  root : {a : ℕ} → In a (root_objects roots) → Reach heap roots a
  child : (a b : ℕ) → Reach heap roots a → In b (pointers (heap.object a)) → Reach heap roots b

-- What the collector comes to.
pub data Traced (heap : Heap) (roots : Roots) : ℕ → Type 0 where
  start : {a : ℕ} → In a (root_objects roots) → Traced heap roots a
  next : (a b : ℕ) → Traced heap roots a → In b (children (heap.object a)) → Traced heap roots b

-- Every pointer from a root or an object goes to an object of the list.
pub record IsClosed (heap : Heap) (roots : Roots) : Type 0 where
  pub from_roots : (a : ℕ) → In a (root_objects roots) → In a heap.all
  pub from_objects : (a b : ℕ) → In a heap.all → In b (pointers (heap.object a)) → In b heap.all

-- The classes and modules to which the collector does not follow a pointer are marked on another
-- way, as the classes of the core library are through their module, and modules through the map of
-- all modules.
abbrev pub IsAnchored : Heap → Roots → Type 0
IsAnchored heap roots =
    (a b : ℕ) → Traced heap roots a → In b (untraced (heap.object a)) → Traced heap roots b

pub Traced-Reach : {heap : Heap} {roots : Roots} {a : ℕ} → Traced heap roots a → Reach heap roots a
Traced-Reach (start i) = root i
Traced-Reach {heap} (next a b r i) =
    child a b (Traced-Reach r) (children-pointers (heap.object a) b i)

pub Reach-Traced :
    {heap : Heap} {roots : Roots} {a : ℕ}
    → IsAnchored heap roots
    → Reach heap roots a
    → Traced heap roots a
Reach-Traced anchored (root i) = start i
Reach-Traced {heap} anchored (child a b r i) =
    let t = Reach-Traced anchored r in
    elim (pointers-traced (heap.object a) b i) [ inl j ↦ next a b t j | inr j ↦ anchored a b t j ]
