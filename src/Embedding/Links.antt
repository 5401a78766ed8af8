-- ===== src/Embedding/Links.antt =====
-- ruwren-sys/src/wren_vm.c, handles: the list that their links stand for.
use ruwren.Prelude.{
  ℕ, ◌<◌, ◌≡◌, ◌≢◌, refl, sym, ap, ◌∙◌, subst, Option, none, some, List, [], ◌∷◌, ◌++◌, ◌==◌, In,
  inl, inr, ==_self, ==_ne, In-insert_new, In-insert_old, if_both,
}
use ruwren.Gc.Sweep.{IsDistinct}
use ruwren.Embedding.Handles.{WrenHandle, Handles, at_handle}

-- The handle in front of what follows these.
pub some_same : {a b : ℕ} → some a ≡ some b → a ≡ b
some_same e = cc

pub none-some : {a : ℕ} → none ≡ some a → ⊥
none-some e = cc

unfoldable pub last_of : Option ℕ → List ℕ → Option ℕ
last_of before [] = before
last_of before (a ∷ items) = last_of (some a) items

pub last_of-In :
    (before : Option ℕ) (x : ℕ) (xs : List ℕ)
    → (z : ℕ) × (last_of before (x ∷ xs) ≡ some z) × In z (x ∷ xs)
unfolding last_of
last_of-In before x [] = (x, refl, inl refl)
last_of-In before x (y ∷ ys) = let (z, e, i) = last_of-In (some x) y ys in (z, e, inr i)

pub In-right : (xs zs : List ℕ) (b : ℕ) → In b zs → In b (xs ++ zs)
In-right [] zs b i = i
In-right (x ∷ xs) zs b i = inr (In-right xs zs b i)

pub In-left : (xs zs : List ℕ) (b : ℕ) → In b xs → In b (xs ++ zs)
In-left [] zs b i = elim i [ ]
In-left (x ∷ xs) zs b (inl e) = inl e
In-left (x ∷ xs) zs b (inr i) = inr (In-left xs zs b i)

IsDistinct-apart : (xs zs : List ℕ) (b : ℕ) → IsDistinct (xs ++ zs) → In b xs → In b zs → ⊥
IsDistinct-apart [] zs b d i j = elim i [ ]
IsDistinct-apart (x ∷ xs) zs b (not_in, d) (inl e) i =
    not_in (In-right xs zs x (subst (λ c. In c zs) e i))
IsDistinct-apart (x ∷ xs) zs b (not_in, d) (inr j) i = IsDistinct-apart xs zs b d j i

pub IsDistinct-without :
    (xs ys : List ℕ) (a : ℕ)
    → IsDistinct (xs ++ a ∷ ys)
    → (¬ In a (xs ++ ys)) × IsDistinct (xs ++ ys)
IsDistinct-without [] ys a d = d
IsDistinct-without (x ∷ xs) ys a (not_in, d) =
    let (gone, rest) = IsDistinct-without xs ys a d in
    (
      λ i. elim i [
        | inl e ↦ not_in (subst (λ b. In b (xs ++ a ∷ ys)) e (In-insert_new a xs ys))
        | inr j ↦ gone j
      ],
      ((λ i. not_in (In-insert_old x a xs ys i)), rest),
    )

module _ {A : Type 0} where
  -- From `first` on, the handles are these, and the first has `before` in front of it.
  unfoldable pub Linked : (ℕ → WrenHandle A) → Option ℕ → Option ℕ → List ℕ → Type 0
  Linked h before first [] = first ≡ none
  Linked h before first (a ∷ items) =
      (first ≡ some a) × ((h a).prev ≡ before) × Linked h (some a) (h a).next items

  pub at_handle-other :
      (o : Option ℕ) (change : WrenHandle A → WrenHandle A) (h : ℕ → WrenHandle A) (b : ℕ)
      → o ≢ some b
      → at_handle o change h b ≡ h b
  at_handle-other none change h b not_in = refl
  at_handle-other (some c) change h b not_in = rw (==_ne b c (λ e. not_in (ap some (sym e)))) refl

  pub at_handle-here :
      (o : Option ℕ) (change : WrenHandle A → WrenHandle A) (h : ℕ → WrenHandle A) (b : ℕ)
      → o ≡ some b
      → at_handle o change h b ≡ change (h b)
  at_handle-here o change h b e = rw (e, ==_self b) refl

  pub at_handle-keeps :
      {B : Type 0} (field : WrenHandle A → B) (o : Option ℕ) (change : WrenHandle A → WrenHandle A)
      (h : ℕ → WrenHandle A) (b : ℕ)
      → ((x : WrenHandle A) → field (change x) ≡ field x)
      → field (at_handle o change h b) ≡ field (h b)
  at_handle-keeps field none change h b same = refl
  at_handle-keeps field (some c) change h b same =
      if_both (λ y. field y ≡ field (h b)) (b == c) (same (h b)) refl

  -- The same links in the handles of the list.
  unfoldable pub IsAlikeOn : (ℕ → WrenHandle A) → (ℕ → WrenHandle A) → ℕ → Type 0
  IsAlikeOn h k b = ((k b).prev ≡ (h b).prev) × ((k b).next ≡ (h b).next)

  Linked-same :
      (h k : ℕ → WrenHandle A) (before first : Option ℕ) (items : List ℕ)
      → ((b : ℕ) → In b items → IsAlikeOn h k b)
      → Linked h before first items
      → Linked k before first items
  unfolding Linked IsAlikeOn
  Linked-same h k before first [] same l = l
  Linked-same h k before first (a ∷ items) same (e, p, rest) =
      let (to_prev, to_next) = same a (inl refl) in
      (
        e,
        to_prev ∙ p,
        subst (λ n. Linked k (some a) n items) (sym to_next)
            (Linked-same h k (some a) (h a).next items (λ b i. same b (inr i)) rest),
      )

  -- With another handle in front of the first.
  pub Linked-front :
      (h k : ℕ → WrenHandle A) (before before' first : Option ℕ) (items : List ℕ)
      → IsDistinct items
      → ((f : ℕ) → first ≡ some f → In f items → ((k f).prev ≡ before') × ((k f).next ≡ (h f).next))
      → ((b : ℕ) → In b items → first ≢ some b → IsAlikeOn h k b)
      → Linked h before first items
      → Linked k before' first items
  unfolding Linked
  Linked-front h k before before' first [] d head same l = l
  Linked-front h k before before' first (a ∷ items) (not_in, d) head same (e, p, rest) =
      let (to_prev, to_next) = head a e (inl refl) in
      (
        e,
        to_prev,
        subst (λ n. Linked k (some a) n items) (sym to_next)
            (Linked-same h k (some a) (h a).next items
              (λ b i.
                same b (inr i) (λ f. not_in (subst (λ c. In c items) (some_same (sym f ∙ e)) i)))
              rest),
      )

  pub Linked-first :
      (h : ℕ → WrenHandle A) (before first : Option ℕ) (items : List ℕ) (b : ℕ)
      → Linked h before first items
      → first ≡ some b
      → In b items
  unfolding Linked
  Linked-first h before first [] b l e = absurd (none-some (sym l ∙ e))
  Linked-first h before first (a ∷ items) b (f, _, _) e = inl (some_same (sym e ∙ f))

  pub Linked-last :
      (h : ℕ → WrenHandle A) (before first : Option ℕ) (xs ys : List ℕ) (a : ℕ)
      → Linked h before first (xs ++ a ∷ ys)
      → ((h a).prev ≡ last_of before xs) × Linked h (some a) (h a).next ys
  unfolding Linked last_of
  Linked-last h before first [] ys a (e, p, rest) = (p, rest)
  Linked-last h before first (x ∷ xs) ys a (e, p, rest) =
      Linked-last h (some x) (h x).next xs ys a rest

  -- The list of a state: all its handles are allocated, and none is there twice.
  pub record AreHandles (s : Handles A) (items : List ℕ) : Type 0 where
    pub linked : Linked s.handle none s.first_handle items
    pub distinct : IsDistinct items
    pub allocated_lem : (a : ℕ) → In a items → a < s.allocated
