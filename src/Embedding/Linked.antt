-- ===== src/Embedding/Linked.antt =====
-- ruwren-sys/src/wren_vm.c, `wrenMakeHandle` and `wrenReleaseHandle`, against the list of handles.
use ruwren.Prelude.{
  ℕ, ◌≡◌, ◌≢◌, refl, sym, ap, ◌∙◌, subst, Option, none, some, List, [], ◌∷◌, ◌++◌, In, inl, inr,
  arith, ==_self, ==_ne, In-insert_old,
}
use ruwren.Gc.Sweep.{IsDistinct}
use ruwren.Embedding.Handles.{WrenHandle, Handles, make_handle, release_handle, at_handle}
use ruwren.Embedding.Links.{
  some_same, none-some, last_of, last_of-In, In-left, In-right, IsDistinct-without, at_handle-other,
  at_handle-here, at_handle-keeps, Linked, IsAlikeOn, Linked-front, Linked-last, Linked-first,
  AreHandles,
}

module _ {A : Type 0} where
  pub make_handle-AreHandles :
      (value : A) (s : Handles A) (items : List ℕ)
      → AreHandles s items
      → AreHandles (make_handle value s).1 ((make_handle value s).0 ∷ items)
        × (((make_handle value s).1.handle (make_handle value s).0).value ≡ value)
  unfolding make_handle Linked IsAlikeOn
  make_handle-AreHandles value s items w =
      let new = s.allocated in
      let below = w.allocated_lem in
      let fresh : WrenHandle A = record { value = value; prev = none; next = s.first_handle } in
      let linked = at_handle s.first_handle (λ x. record x { prev = some new }) s.handle in
      let k = at_handle (some new) (λ _. fresh) linked in
      let old : (b : ℕ) → In b items → k b ≡ linked b = λ b i.
        at_handle-other (some new) (λ _. fresh) linked b
          (λ e.
            let less = below b i in let same = some_same e in absurd (omega (arith, less, same))) in
      let at_new : k new ≡ fresh = at_handle-here (some new) (λ _. fresh) linked new refl in
      (
        record {
          linked = (
            refl,
            ap (λ x. x.prev) at_new,
            subst (λ n. Linked k (some new) n items) (sym (ap (λ x. x.next) at_new))
                (Linked-front s.handle k none (some new) s.first_handle items w.distinct
                  (λ f e i.
                    let here = old f i ∙ at_handle-here s.first_handle _ s.handle f e in
                    (ap (λ x. x.prev) here, ap (λ x. x.next) here))
                  (λ b i other.
                    let here = old b i ∙ at_handle-other s.first_handle _ s.handle b other in
                    (ap (λ x. x.prev) here, ap (λ x. x.next) here))
                  w.linked),
          );
          distinct = ((λ i. let less = below new i in absurd (omega (arith, less))), w.distinct);
          allocated_lem = λ a i. elim i [
            | inl e ↦ omega (arith, e)
            | inr j ↦ let less = below a j in omega (arith, less)
          ];
        },
        ap (λ x. x.value) at_new,
      )

  module _ (null : A) (s : Handles A) (a : ℕ) where
    abbrev removed : WrenHandle A
    removed = s.handle a

    abbrev final : ℕ → WrenHandle A
    final = (release_handle null a s).handle

    abbrev without_next : ℕ → WrenHandle A
    without_next = at_handle (removed).prev (λ y. record y { next = (removed).next }) s.handle

    abbrev without : ℕ → WrenHandle A
    without = at_handle (removed).next (λ y. record y { prev = (without_next a).prev }) without_next

    final_other : (b : ℕ) → b ≢ a → final b ≡ without b
    unfolding release_handle
    final_other b other =
        at_handle-other (some a) (λ y. record { value = null; prev = none; next = none }) without b
          (λ e. other (sym (some_same e)))

    next_kept : (b : ℕ) → b ≢ a → (final b).next ≡ (without_next b).next
    next_kept b other =
        ap (λ y. y.next) (final_other b other)
        ∙ at_handle-keeps (λ y. y.next) (removed).next _ without_next b (λ y. refl)

    prev_kept : (b : ℕ) → (without_next b).prev ≡ (s.handle b).prev
    prev_kept b = at_handle-keeps (λ y. y.prev) (removed).prev _ s.handle b (λ y. refl)

    -- What the links are then, apart from the handle that is removed.
    final_next : (b : ℕ) → b ≢ a → (removed).prev ≢ some b → (final b).next ≡ (s.handle b).next
    final_next b other not_front =
        next_kept b other ∙ ap (λ y. y.next) (at_handle-other (removed).prev _ s.handle b not_front)

    final_next_at : (b : ℕ) → b ≢ a → (removed).prev ≡ some b → (final b).next ≡ (removed).next
    final_next_at b other front =
        next_kept b other ∙ ap (λ y. y.next) (at_handle-here (removed).prev _ s.handle b front)

    final_prev : (b : ℕ) → b ≢ a → (removed).next ≢ some b → (final b).prev ≡ (s.handle b).prev
    final_prev b other not_behind =
        ap (λ y. y.prev)
          (final_other b other ∙ at_handle-other (removed).next _ without_next b not_behind)
        ∙ prev_kept b

    final_prev_at : (b : ℕ) → b ≢ a → (removed).next ≡ some b → (final b).prev ≡ (removed).prev
    final_prev_at b other behind =
        ap (λ y. y.prev)
          (final_other b other ∙ at_handle-here (removed).next _ without_next b behind)
        ∙ prev_kept a

    final_value : (b : ℕ) → b ≢ a → (final b).value ≡ (s.handle b).value
    final_value b other =
        ap (λ y. y.value) (final_other b other)
        ∙ at_handle-keeps (λ y. y.value) (removed).next _ without_next b (λ y. refl)
        ∙ at_handle-keeps (λ y. y.value) (removed).prev _ s.handle b (λ y. refl)

    -- Where the list begins that was `xs ++ a ∷ ys` from `first` on.
    begin : Option ℕ → List ℕ → Option ℕ
    begin first [] = (removed).next
    begin first (x ∷ xs) = first

    begins :
        (x : ℕ) (xs : List ℕ)
        → x ≢ a
        → ¬ In x xs
        → (removed).prev ≡ last_of (some x) xs
        → (final x).next ≡ begin (s.handle x).next xs
    unfolding begin last_of
    begins x [] other not_in last = final_next_at x other last
    begins x (v ∷ vs) other not_in last =
        let (z, e, i) = last_of-In (some x) v vs in
        final_next x other
          (λ f. not_in (subst (λ c. In c (v ∷ vs)) (some_same (sym e ∙ sym last ∙ f)) i))

    removes :
        (xs ys : List ℕ) (before first : Option ℕ)
        → IsDistinct (xs ++ a ∷ ys)
        → ((b : ℕ) → In b (xs ++ ys) → b ≢ a)
        → ((b : ℕ) → In b ys → before ≢ some b)
        → Linked s.handle before first (xs ++ a ∷ ys)
        → Linked final before (begin first xs) (xs ++ ys)
    unfolding Linked begin IsAlikeOn
    removes [] ys before first (not_in, d) others apart (e, p, rest) =
        Linked-front s.handle final (some a) before (removed).next ys d
          (λ b behind i. (
            final_prev_at b (others b i) behind ∙ p,
            final_next b (others b i) (λ f. apart b i (sym p ∙ f)),
          ))
          (λ b i not_behind. (
            final_prev b (others b i) not_behind,
            final_next b (others b i) (λ f. apart b i (sym p ∙ f)),
          ))
          rest
    removes (x ∷ xs) ys before first (not_in, d) others apart (e, p, rest) =
        let (last, behind) = Linked-last s.handle (some x) (s.handle x).next xs ys a rest in
        let other = others x (inl refl) in
        let inner =
          removes xs ys (some x) (s.handle x).next d (λ b i. others b (inr i))
            (λ b i f. not_in (
              subst (λ c. In c (xs ++ a ∷ ys)) (sym (some_same f))
                (In-right xs (a ∷ ys) b (inr i))))
            rest in
        (
          e,
          final_prev x other (λ f.
                not_in
                  (In-right xs (a ∷ ys) x (inr (Linked-first s.handle (some a) _ ys x behind f))))
              ∙ p,
          subst (λ n. Linked final (some x) n (xs ++ ys))
              (sym (begins x xs other (λ i. not_in (In-left xs (a ∷ ys) x i)) last)) inner,
        )

  first_released :
      (null : A) (s : Handles A) (xs ys : List ℕ) (a : ℕ)
      → AreHandles s (xs ++ a ∷ ys)
      → (release_handle null a s).first_handle ≡ begin null s a s.first_handle xs
  unfolding release_handle begin Linked
  first_released null s [] ys a w = let (e, _, _) = w.linked in rw (e, ==_self a) refl
  first_released null s (x ∷ xs) ys a w =
      let (e, _, _) = w.linked in
      let (gone, _) = IsDistinct-without (x ∷ xs) ys a w.distinct in
      rw (e, ==_ne x a (λ f. gone (inl (sym f)))) refl

  -- If the links of the handles stand for a list without repetition of allocated handles,
  -- releasing one of it gives links that stand for the list without that one, and every other
  -- handle keeps its value.
  pub release_handle-AreHandles :
      (null : A) (s : Handles A) (xs ys : List ℕ) (a : ℕ)
      → AreHandles s (xs ++ a ∷ ys)
      → AreHandles (release_handle null a s) (xs ++ ys)
        × ((b : ℕ) → b ≢ a → ((release_handle null a s).handle b).value ≡ (s.handle b).value)
  unfolding release_handle
  release_handle-AreHandles null s xs ys a w =
      let (gone, d) = IsDistinct-without xs ys a w.distinct in
      (
        record {
          linked =
              subst (λ f. Linked (release_handle null a s).handle none f (xs ++ ys))
                (sym (first_released null s xs ys a w))
                (removes null s a xs ys none s.first_handle w.distinct
                  (λ b i e. gone (subst (λ c. In c (xs ++ ys)) e i)) (λ b i. none-some) w.linked);
          distinct = d;
          allocated_lem = λ b i. w.allocated_lem b (In-insert_old b a xs ys i);
        },
        final_value null s a,
      )
