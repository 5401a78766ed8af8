-- ===== src/Capture/Close.antt =====
-- ruwren-sys/src/wren_vm.c, `closeUpvalues`: what closures see of the slots that go.
use ruwren.Prelude.{
  ℕ, ◌≡◌, ◌≢◌, refl, ap, ◌∙◌, sym, subst, true, List, [], ◌∷◌, leb, ◌==◌, In, arith, ◌⊎◌, inl, inr,
  Bool-cases, ==_ne, ==_iff,
}
use ruwren.Capture.{
  own_field, ObjUpvalue, Upvalues, is_from, write, load, close_loop, close_upvalues,
}
use ruwren.Capture.Open.{Chain, done, link, slot_of, Chain-kept, slot_injective}

module _ {A : Type 0} (null : A) (stack : List A) (last : ℕ) where
  -- Closing the upvalues of a chain, from the objects before to a chain and the objects after.
  pub record Closes (chain : List ℕ) (before : ℕ → ObjUpvalue A)
      (after : List ℕ × (ℕ → ObjUpvalue A)) : Type 0 where
    pub below : Chain after.1 last after.0
    pub reads : (a : ℕ) → load null stack (after.1 a) ≡ load null stack (before a)
    pub settles : (a : ℕ) → In a chain → In a after.0 ⊎ ((after.1 a).value ≡ own_field)
    pub kept : (a : ℕ) → In a after.0 → In a chain × (after.1 a ≡ before a)
    pub rest : (a : ℕ) → (In a chain → ⊥) → after.1 a ≡ before a

  closed_at : ℕ → (ℕ → ObjUpvalue A) → ℕ → ObjUpvalue A
  closed_at a object =
      write a (record { value = own_field; closed = load null stack (object a) }) object

  closed_at-same : (a : ℕ) (object : ℕ → ObjUpvalue A) → (closed_at a object a).value ≡ own_field
  unfolding closed_at
  closed_at-same a object = let equal : (a == a) ≡ true = ground arith in rw equal refl

  closed_at-other : (a b : ℕ) (object : ℕ → ObjUpvalue A) → b ≢ a → closed_at a object b ≡ object b
  unfolding closed_at
  closed_at-other a b object ne = rw (==_ne b a ne) refl

  closed_at-load :
      (a b : ℕ) (object : ℕ → ObjUpvalue A)
      → load null stack (closed_at a object b) ≡ load null stack (object b)
  unfolding closed_at
  closed_at-load a b object = elim (Bool-cases (b == a)) [
    | inl e ↦ rw e (ap (λ (c : ℕ). load null stack (object c)) (sym ((==_iff b a).0 e)))
    | inr e ↦ rw e refl
  ]

  step_closed :
      (a : ℕ) (later : List ℕ) (object : ℕ → ObjUpvalue A)
      → is_from last (object a).value ≡ true
      → close_loop null stack last (a ∷ later) object
        ≡ close_loop null stack last later (closed_at a object)
  unfolding close_loop closed_at
  step_closed a later object h = rw h refl

  close_loop-Closes :
      (bound : ℕ) (chain : List ℕ) (object : ℕ → ObjUpvalue A)
      → Chain object bound chain
      → Closes chain object (close_loop null stack last chain object)
  unfolding close_loop closed_at
  close_loop-Closes bound [] object (done _) = record {
    below = done last;
    reads = λ a. refl;
    settles = λ a z. absurd z;
    kept = λ a z. absurd z;
    rest = λ a n. refl;
  }
  close_loop-Closes bound (a ∷ later) object (link _ _ n _ e l c) = elim (Bool-cases (leb last n)) [
    | inl from ↦
        let away = λ (b : ℕ) (i : In b later) (same : b ≡ a).
          let (m, f, k) = slot_of object n later c b i in
          let equal = slot_injective m n (sym f ∙ rw same e) in
          let no : ⊥ = omega (arith, equal, k) in no in
        let written = closed_at a object in
        let other = λ (b : ℕ) (ne : b ≢ a). closed_at-other a b object ne in
        let ih =
          close_loop-Closes n later written
            (Chain-kept object written n later (λ b i. other b (away b i)) c) in
        let opens : is_from last (object a).value ≡ true = rw e from in
        subst (λ r. Closes (a ∷ later) object r) (sym (step_closed a later object opens))
          (record {
            below = ih.below;
            reads = λ b. ih.reads b ∙ closed_at-load a b object;
            settles = λ b i. elim i [
              | inl same ↦ inr (
                  rw same (
                    ap (λ (o : ObjUpvalue A). o.value) (ih.rest a (λ j. away a j refl))
                    ∙ closed_at-same a object))
              | inr j ↦ ih.settles b j
            ];
            kept = λ b i. let (j, same) = ih.kept b i in (inr j, same ∙ other b (away b j));
            rest = λ b n. ih.rest b (λ j. n (inr j)) ∙ other b (λ same. n (inl same));
          })
    | inr below ↦
        rw (e, below)
          (record {
            below = link last a n later e (ground arith) c;
            reads = λ b. refl;
            settles = λ b i. inl i;
            kept = λ b i. (i, refl);
            rest = λ b n. refl;
          })
  ]

  -- If the chain of open upvalues is in strictly descending order, closing those from a slot on
  -- leaves a chain in this order of upvalues below the slot, which were in the chain and have not
  -- changed; the others of the chain are closed; every upvalue gives the value that it gave
  -- before; and no upvalue outside the chain changes.
  pub close_upvalues-Closes :
      (bound : ℕ) (u : Upvalues A)
      → Chain u.object bound u.open_upvalues
      → let u' = close_upvalues null stack last u in
        Closes u.open_upvalues u.object (u'.open_upvalues, u'.object) × (u'.allocated ≡ u.allocated)
  unfolding close_upvalues
  close_upvalues-Closes bound u chain =
      (close_loop-Closes bound u.open_upvalues u.object chain, refl)
