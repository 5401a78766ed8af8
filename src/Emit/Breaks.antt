-- ===== src/Emit/Breaks.antt =====
-- ruwren-sys/src/wren_compiler.c, `endLoop`: the jumps of a finished loop.
use ruwren.Prelude.{
  ℕ, zero, suc, ◌+◌, ◌≤◌, ◌<◌, ◌≡◌, ◌≢◌, refl, ◌∙◌, true, false, List, [], ◌∷◌, ltb, ◌==◌, length,
  get_or, set, length-set, get_or-set, arith, sym, subst, In, inl, inr,
}
use ruwren.Scopes.{Compiler}
use ruwren.Emit.{
  patch_jump, patch_breaks, jump_target, read_short, max_jump, argument_bytes, code_jump, code_end_,
}
use ruwren.Emit.Jumps.{patch_jump-lands}

-- Codes of one length that are alike from `from` on.
pub record IsAlike (from : ℕ) (a b : List ℕ) : Type 0 where
  pub same_length : length a ≡ length b
  pub bytes : (i : ℕ) → from ≤ i → get_or a i 0 ≡ get_or b i 0

IsAlike-later : (i k : ℕ) (a b : List ℕ) → i ≤ k → IsAlike i a b → IsAlike k a b
IsAlike-later i k a b le h = record {
  same_length = h.same_length;
  bytes = λ j l. h.bytes j (omega arith);
}

abbrev pub IsApart : ℕ → ℕ → Type 0
IsApart i p = (i ≢ p) × (i ≢ p + 1) × (i ≢ p + 2)

-- At each place stands a jump behind the end of the code; the other bytes are as before.
pub record AreEnded (places : List ℕ) (before after : Compiler) : Type 0 where
  pub same_length : length after.code ≡ length before.code
  pub ends :
      (p : ℕ)
      → In p places
      → (get_or after.code p 0 ≡ code_jump) × (jump_target after.code (p + 1) ≡ length after.code)
  pub others :
      (i : ℕ)
      → ((p : ℕ) → In p places → IsApart i p)
      → get_or after.code i 0 ≡ get_or before.code i 0
  pub errors : after.errors ≡ before.errors

abbrev ended : ℕ → Compiler → Compiler
ended i c = patch_jump (i + 1) (record c { code = set c.code i code_jump })

ended_one :
    (i : ℕ) (c : Compiler)
    → i + 3 ≤ length c.code
    → length c.code < max_jump
    → AreEnded (i ∷ []) c (ended i c)
ended_one i c h small =
    let opened = record c { code = set c.code i code_jump } in
    let n = length-set c.code i code_jump in
    let (lands, p, quiet) = patch_jump-lands (i + 1) opened (omega (arith, n)) (omega (arith, n)) in
    let inner = λ (j : ℕ). get_or-set c.code i j code_jump 0 (omega arith) in
    let at_i : get_or opened.code i 0 ≡ code_jump = ground (arith, inner i) in
    record {
      same_length = p.same_length ∙ n;
      ends = λ q r. elim r [
        | inl e ↦ rw e (p.others i (omega arith) (omega arith) ∙ at_i, lands)
        | inr z ↦ absurd z
      ];
      others = λ j apart.
          let (a, b, d) = apart i (inl refl) in
          p.others j b (omega (arith, d)) ∙ ground (arith, inner j, a);
      errors = quiet;
    }

then_ended :
    (i : ℕ) (places : List ℕ) (a b c : Compiler)
    → ((p : ℕ) → In p places → i + 3 ≤ p)
    → AreEnded (i ∷ []) a b
    → AreEnded places b c
    → AreEnded (i ∷ places) a c
unfolding jump_target read_short
then_ended i places a b c later one rest =
    let n = rest.same_length in
    let kept = λ (k : ℕ) (h : k < i + 3).
      rest.others k (λ p q. let l = later p q in (omega arith, omega arith, omega arith)) in
    let (op, lands) = one.ends i (inl refl) in
    let at_0 = kept i (omega arith) in
    let at_1 = kept (i + 1) (omega arith) in
    let at_2 = kept (i + 1 + 1) (omega arith) in
    record {
      same_length = n ∙ one.same_length;
      ends = λ p q. elim q [
        | inl e ↦ rw e (at_0 ∙ op, rw (at_1, at_2, n) lands)
        | inr r ↦ rest.ends p r
      ];
      others = λ k apart.
          rest.others k (λ p q. apart p (inr q))
          ∙ one.others k (λ p q. elim q [ inl e ↦ rw e (apart i (inl refl)) | inr z ↦ absurd z ]);
      errors = rest.errors ∙ one.errors;
    }

unchanged : (c : Compiler) → AreEnded [] c c
unchanged c = record {
  same_length = refl;
  ends = λ p z. absurd z;
  others = λ i apart. refl;
  errors = refl;
}

module _ (fn_upvalues : ℕ → ℕ) where
  -- The code from `i` on is instructions, and the placeholders of `break` among them are at `places`.
  pub data Breaks (code : List ℕ) : ℕ → List ℕ → Type 0 where
    finish : (i : ℕ) → i ≡ length code → Breaks code i []
    placeholder :
        (i : ℕ) (places : List ℕ)
        → get_or code i 0 ≡ code_end_
        → i + 3 ≤ length code
        → Breaks code (i + 3) places
        → Breaks code i (i ∷ places)
    other :
        (i : ℕ) (places : List ℕ)
        → get_or code i 0 ≢ code_end_
        → i < length code
        → Breaks code (i + 1 + argument_bytes fn_upvalues code i) places
        → Breaks code i places

  argument_bytes-alike :
      (a b : List ℕ) (i : ℕ)
      → IsAlike i a b
      → argument_bytes fn_upvalues a i ≡ argument_bytes fn_upvalues b i
  unfolding argument_bytes
  argument_bytes-alike a b i h =
      let p = h.bytes i (omega arith) in
      let q = h.bytes (i + 1) (omega arith) in
      let r = h.bytes (i + 2) (omega arith) in rw (p, q, r) refl

  pub Breaks-alike :
      (a b : List ℕ) (i : ℕ) (places : List ℕ)
      → IsAlike i a b
      → Breaks a i places
      → Breaks b i places
  Breaks-alike a b i _ h (finish _ e) = finish i (e ∙ h.same_length)
  Breaks-alike a b i _ h (placeholder _ places e l rest) =
      let n = h.same_length in
      placeholder i places (sym (h.bytes i (omega arith)) ∙ e) (omega (arith, n))
        (Breaks-alike a b (i + 3) places (IsAlike-later i (i + 3) a b (omega arith) h) rest)
  Breaks-alike a b i _ h (other _ places e l rest) =
      let n = h.same_length in
      let p = h.bytes i (omega arith) in
      let next =
        Breaks-alike a b (i + 1 + argument_bytes fn_upvalues a i) places
          (IsAlike-later i (i + 1 + argument_bytes fn_upvalues a i) a b (omega arith) h) rest in
      other i places (λ z. e (p ∙ z)) (omega (arith, n))
        (subst (λ t. Breaks b (i + 1 + t) places) (argument_bytes-alike a b i h) next)

  places_from :
      (code : List ℕ) (i : ℕ) (places : List ℕ)
      → Breaks code i places
      → (p : ℕ) → In p places
      → i ≤ p
  places_from code i _ (finish _ e) p z = absurd z
  places_from code i _ (placeholder _ places e l rest) p (inl q) = omega (arith, q)
  places_from code i _ (placeholder _ places e l rest) p (inr q) =
      omega (arith, places_from code (i + 3) places rest p q)
  places_from code i _ (other _ places e l rest) p q =
      omega (arith, places_from code (i + 1 + argument_bytes fn_upvalues code i) places rest p q)

  step_end :
      (fuel i : ℕ) (c : Compiler)
      → ltb i (length c.code) ≡ false
      → patch_breaks fn_upvalues (suc fuel) i c ≡ c
  unfolding patch_breaks
  step_end fuel i c past = rw past refl

  step_placeholder :
      (fuel i : ℕ) (c : Compiler)
      → ltb i (length c.code) ≡ true
      → (get_or c.code i 0 == code_end_) ≡ true
      → patch_breaks fn_upvalues (suc fuel) i c ≡ patch_breaks fn_upvalues fuel (i + 3) (ended i c)
  unfolding patch_breaks
  step_placeholder fuel i c inside op = rw (inside, op) refl

  step_other :
      (fuel i : ℕ) (c : Compiler)
      → ltb i (length c.code) ≡ true
      → (get_or c.code i 0 == code_end_) ≡ false
      → patch_breaks fn_upvalues (suc fuel) i c
        ≡ patch_breaks fn_upvalues fuel (i + 1 + argument_bytes fn_upvalues c.code i) c
  unfolding patch_breaks
  step_other fuel i c inside op = rw (inside, op) refl

  ended-IsAlike : (i : ℕ) (c d : Compiler) → AreEnded (i ∷ []) c d → IsAlike (i + 3) c.code d.code
  ended-IsAlike i c d one = record {
    same_length = sym one.same_length;
    bytes = λ j l. sym (
        one.others j (λ p q. elim q [
          | inl e ↦ (omega (arith, e), omega (arith, e), omega (arith, e))
          | inr z ↦ absurd z
        ]));
  }

  pub patch_breaks-AreEnded :
      (fuel i : ℕ) (places : List ℕ) (c : Compiler)
      → length c.code ≤ fuel + i
      → length c.code < max_jump
      → Breaks c.code i places
      → AreEnded places c (patch_breaks fn_upvalues fuel i c)
  unfolding patch_breaks
  patch_breaks-AreEnded zero i _ c enough small (finish _ e) = unchanged c
  patch_breaks-AreEnded zero i _ c enough small (placeholder _ places e l rest) =
      absurd (omega arith)
  patch_breaks-AreEnded zero i _ c enough small (other _ places e l rest) = absurd (omega arith)
  patch_breaks-AreEnded (suc fuel) i _ c enough small (finish _ e) =
      rw (step_end fuel i c (ground (arith, e))) (unchanged c)
  patch_breaks-AreEnded (suc fuel) i _ c enough small (placeholder _ places e l rest) =
      let one = ended_one i c l small in
      let n = one.same_length in
      let next =
        Breaks-alike c.code (ended i c).code (i + 3) places (ended-IsAlike i c (ended i c) one)
          rest in
      rw (step_placeholder fuel i c (ground arith) (ground (arith, e))) (
        then_ended i places c (ended i c) (patch_breaks fn_upvalues fuel (i + 3) (ended i c))
          (places_from c.code (i + 3) places rest) one
          (patch_breaks-AreEnded fuel (i + 3) places (ended i c) (omega (arith, n))
            (omega (arith, n)) next))
  patch_breaks-AreEnded (suc fuel) i _ c enough small (other _ places e l rest) =
      rw (step_other fuel i c (ground arith) (ground (arith, e))) (
        patch_breaks-AreEnded fuel (i + 1 + argument_bytes fn_upvalues c.code i) places c
          (omega arith) small rest)
