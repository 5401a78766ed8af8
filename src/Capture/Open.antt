-- ===== src/Capture/Open.antt =====
-- ruwren-sys/src/wren_vm.c, `captureUpvalue`: the chain of open upvalues.
use ruwren.Prelude.{
  ℕ, ◌≤◌, ◌<◌, ◌≡◌, ◌≢◌, refl, ap, ◌∙◌, sym, subst, true, List, [], ◌∷◌, ◌++◌, ltb, ◌==◌, In,
  In-insert, In-insert_new, In-insert_old, arith, ◌⊎◌, inl, inr, Bool-cases, ==_ne, ltb→lt, ==_iff,
}
use ruwren.Capture.{
  stack_slot, ObjUpvalue, Upvalues, is_above, new_upvalue, walk, insert_upvalue, capture_upvalue,
  capture_between,
}

-- Upvalues that point to the stack below `bound`, in strictly descending order.
pub data Chain {A : Type 0} (object : ℕ → ObjUpvalue A) : ℕ → List ℕ → Type 0 where
  done : (bound : ℕ) → Chain object bound []
  link :
      (bound a n : ℕ) (rest : List ℕ)
      → (object a).value ≡ stack_slot n
      → n < bound
      → Chain object n rest
      → Chain object bound (a ∷ rest)

pub slot_injective : (m n : ℕ) → stack_slot m ≡ stack_slot n → m ≡ n
slot_injective m n e = cc

module _ {A : Type 0} where
  pub slot_of :
      (object : ℕ → ObjUpvalue A) (bound : ℕ) (chain : List ℕ)
      → Chain object bound chain
      → (a : ℕ) → In a chain
      → (n : ℕ) × ((object a).value ≡ stack_slot n) × (n < bound)
  slot_of object bound _ (done _) a z = absurd z
  slot_of object bound _ (link _ b n rest e l c) a (inl q) = (n, rw q e, l)
  slot_of object bound _ (link _ b n rest e l c) a (inr q) =
      let (m, p, k) = slot_of object n rest c a q in (m, p, omega arith)

  pub Chain-kept :
      (object object' : ℕ → ObjUpvalue A) (bound : ℕ) (chain : List ℕ)
      → ((a : ℕ) → In a chain → object' a ≡ object a)
      → Chain object bound chain
      → Chain object' bound chain
  Chain-kept object object' bound _ same (done _) = done bound
  Chain-kept object object' bound _ same (link _ a n rest e l c) =
      link bound a n rest (ap (λ (o : ObjUpvalue A). o.value) (same a (inl refl)) ∙ e) l
        (Chain-kept object object' n rest (λ b q. same b (inr q)) c)

  walk_whole :
      (object : ℕ → ObjUpvalue A) (local : ℕ) (chain : List ℕ)
      → (walk object local chain).0 ++ (walk object local chain).1 ≡ chain
  unfolding walk
  walk_whole object local [] = refl
  walk_whole object local (a ∷ rest) = elim (Bool-cases (is_above local (object a).value)) [
    | inl e ↦ rw e (ap (λ (t : List ℕ). a ∷ t) (walk_whole object local rest))
    | inr e ↦ rw e refl
  ]

  module _ (null : A) (local : ℕ) (u : Upvalues A) where
    other_slot :
        (a n : ℕ)
        → (u.object a).value ≡ stack_slot n
        → n ≢ local
        → (u.object a).value ≢ stack_slot local
    other_slot a n e ne p = absurd (ne (slot_injective n local (sym e ∙ p)))

    not_below :
        (n : ℕ) (rest : List ℕ)
        → Chain u.object n rest
        → n ≤ local
        → (b : ℕ) → In b rest
        → (u.object b).value ≢ stack_slot local
    not_below n rest c le b i at_local =
        let (m, e, l) = slot_of u.object n rest c b i in
        let same = slot_injective m local (sym e ∙ at_local) in absurd (omega (arith, same, l))

    -- The chain has an upvalue for the slot, at which the walk stops, or it has none.
    walk_cases :
        (bound : ℕ) (chain : List ℕ)
        → Chain u.object bound chain
        → ((a : ℕ) × (rest : List ℕ) × ((walk u.object local chain).1 ≡ a ∷ rest)
            × ((u.object a).value ≡ stack_slot local)
            × In a chain
            × ((b : ℕ) → In b chain → (u.object b).value ≡ stack_slot local → b ≡ a))
          ⊎ (((b : ℕ) → In b chain → (u.object b).value ≢ stack_slot local)
              × ((above : List ℕ)
                  → capture_between null local above (walk u.object local chain).1 u
                    ≡ insert_upvalue null local above (walk u.object local chain).1 u))
    unfolding walk capture_between
    walk_cases bound _ (done _) = inr (λ b z. absurd z, λ above. refl)
    walk_cases bound _ (link _ a n rest e l c) = elim (Bool-cases (ltb local n)) [
      | inl above ↦ elim (walk_cases n rest c) [
        | inl (b, later, stop, at_local, i, only) ↦
            rw (e, above)
              (inl (
                b,
                later,
                stop,
                at_local,
                inr i,
                λ d j p. elim j [
                  | inl same ↦
                      absurd (other_slot a n e (omega (arith, ltb→lt local n above)) (rw same at p))
                  | inr k ↦ only d k p
                ],
              ))
        | inr (absent, insert) ↦
            rw (e, above)
              (inr (
                λ d j p. elim j [
                  | inl same ↦ other_slot a n e (omega (arith, ltb→lt local n above)) (rw same at p)
                  | inr k ↦ absent d k p
                ],
                insert,
              ))
      ]
      | inr down ↦ elim (Bool-cases (n == local)) [
        | inl here ↦
            let same = (==_iff n local).0 here in
            rw (e, down)
              (inl (
                a,
                rest,
                refl,
                e ∙ ap stack_slot same,
                inl refl,
                λ d j p. elim j [
                  | inl f ↦ f
                  | inr k ↦ absurd (not_below n rest c (omega (arith, same)) d k p)
                ],
              ))
        | inr other ↦
            let le : n ≤ local = ground arith in
            rw (e, down)
              (inr (
                λ d j p. elim j [
                  | inl f ↦ other_slot a n e (ground (arith, other)) (rw f at p)
                  | inr k ↦ not_below n rest c le d k p
                ],
                λ before. rw (e, other) refl,
              ))
      ]
    ]

    insert_chain :
        (object' : ℕ → ObjUpvalue A) (x bound : ℕ) (chain : List ℕ)
        → Chain u.object bound chain
        → local < bound
        → (object' x).value ≡ stack_slot local
        → ((b : ℕ) → In b chain → object' b ≡ u.object b)
        → ((b : ℕ) → In b chain → (u.object b).value ≢ stack_slot local)
        → Chain object' bound ((walk u.object local chain).0 ++ x ∷ (walk u.object local chain).1)
    unfolding walk
    insert_chain object' x bound _ (done _) h ex same absent =
        link bound x local [] ex h (done local)
    insert_chain object' x bound _ (link _ a n rest e l c) h ex same absent =
        elim (Bool-cases (ltb local n)) [
          | inl above ↦
              rw (e, above)
                (link bound a n _ (ap (λ (o : ObjUpvalue A). o.value) (same a (inl refl)) ∙ e) l (
                  insert_chain object' x n rest c (ltb→lt local n above) ex (λ b i. same b (inr i))
                    (λ b i. absent b (inr i))))
          | inr down ↦
              let other = λ (f : n ≡ local). absent a (inl refl) (e ∙ ap stack_slot f) in
              let less : n < local = ground (arith, other) in
              rw (e, down)
                (link bound x local _ ex h (
                  Chain-kept u.object object' local (a ∷ rest) same (link local a n rest e less c)))
        ]

  -- What capturing a slot does: no object changes, one at most is new.
  pub record Captures (local bound : ℕ) (u : Upvalues A) (a : ℕ) (u' : Upvalues A) : Type 0 where
    pub points : (u'.object a).value ≡ stack_slot local
    pub is_open : In a u'.open_upvalues
    pub chain : Chain u'.object bound u'.open_upvalues
    pub bounded : (b : ℕ) → In b u'.open_upvalues → b < u'.allocated
    pub objects : (b : ℕ) → b < u.allocated → u'.object b ≡ u.object b
    pub stay : (b : ℕ) → In b u.open_upvalues → In b u'.open_upvalues
    pub shares :
        (b : ℕ) → In b u.open_upvalues → (u.object b).value ≡ stack_slot local → (b ≡ a) × (u' ≡ u)

  module _ (null : A) (local bound : ℕ) (u : Upvalues A) (h : local < bound)
      (chain : Chain u.object bound u.open_upvalues)
      (bounded : (b : ℕ) → In b u.open_upvalues → b < u.allocated) where
    shared :
        (a : ℕ) (above rest : List ℕ)
        → (u.object a).value ≡ stack_slot local
        → capture_between null local above (a ∷ rest) u ≡ (a, u)
    unfolding capture_between
    shared a above rest e = let equal : (local == local) ≡ true = ground arith in rw (e, equal) refl

    inserted :
        ((b : ℕ) → In b u.open_upvalues → (u.object b).value ≢ stack_slot local)
        → let (above, below) = walk u.object local u.open_upvalues in
          let done = insert_upvalue null local above below u in Captures local bound u done.0 done.1
    unfolding insert_upvalue new_upvalue
    inserted absent =
        let (above, below) = walk u.object local u.open_upvalues in
        let whole = walk_whole u.object local u.open_upvalues in
        let equal : (u.allocated == u.allocated) ≡ true = ground arith in
        let old = λ (b : ℕ) (l : b < u.allocated). ==_ne b u.allocated (omega (arith, l)) in
        record {
          points = rw equal refl;
          is_open = In-insert_new u.allocated above below;
          chain =
              insert_chain null local u _ u.allocated bound u.open_upvalues chain h (rw equal refl)
                (λ b i. rw (old b (bounded b i)) refl) absent;
          bounded = λ b i. elim (In-insert b u.allocated above below i) [
            | inl e ↦ omega (arith, e)
            | inr j ↦ let k = bounded b (subst (λ l. In b l) whole j) in omega (arith, k)
          ];
          objects = λ b l. rw (old b l) refl;
          stay = λ b i. In-insert_old b u.allocated above below (subst (λ l. In b l) (sym whole) i);
          shares = λ b i e. absurd (absent b i e);
        }

    -- If the chain of open upvalues points to slots below the top of the stack in strictly
    -- descending order, capturing such a slot gives an upvalue in the chain that points to it, and
    -- keeps that order; no upvalue changes or leaves the chain, and if the chain had an upvalue
    -- for the slot, it is that one, and nothing changes.
    pub capture_upvalue-Captures :
        Captures local bound u (capture_upvalue null local u).0 (capture_upvalue null local u).1
    unfolding capture_upvalue
    capture_upvalue-Captures =
        let above = (walk u.object local u.open_upvalues).0 in
        elim (walk_cases null local u bound u.open_upvalues chain) [
          | inl (a, rest, stop, at_local, i, only) ↦
              rw (stop, shared a above rest at_local)
                (record {
                  points = at_local;
                  is_open = i;
                  chain = chain;
                  bounded = bounded;
                  objects = λ b l. refl;
                  stay = λ b j. j;
                  shares = λ b j e. (only b j e, refl);
                })
          | inr (absent, insert) ↦ rw (insert above) (inserted absent)
        ]
