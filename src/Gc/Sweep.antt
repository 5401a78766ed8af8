-- ===== src/Gc/Sweep.antt =====
-- The sweep over the list of all objects.
use ruwren.Prelude.{
  ℕ, ◌≡◌, refl, sym, subst, Bool, true, false, List, [], ◌∷◌, arith, ◌==◌, if◌then◌else◌, if_split,
  ==_ne, inl, inr, In,
}
use ruwren.Gc.{Swept, sweep}
use ruwren.Gc.Mark.{false_true}

-- No object stands twice in the list.
abbrev pub IsDistinct : List ℕ → Type 0
IsDistinct [] = Unit
IsDistinct (x ∷ xs) = (¬ In x xs) × IsDistinct xs

-- What a sweep does with the objects of a list.
pub record Sweeps (xs : List ℕ) (d : ℕ → Bool) (s : Swept) : Type 0 where
  pub keeps : (a : ℕ) → In a s.kept → In a xs × (d a ≡ true)
  pub frees : (a : ℕ) → In a s.freed → In a xs × (d a ≡ false)
  pub kept_dark : (a : ℕ) → In a xs → d a ≡ true → In a s.kept
  pub freed_white : (a : ℕ) → In a xs → d a ≡ false → In a s.freed
  pub clears : (a : ℕ) → In a s.kept → s.is_dark a ≡ false

stays_white : (xs : List ℕ) (d : ℕ → Bool) (b : ℕ) → d b ≡ false → (sweep xs d).is_dark b ≡ false
unfolding sweep
stays_white [] d b w = w
stays_white (a ∷ xs) d b w =
    if_split {A = Swept} (λ s. s.is_dark b ≡ false) (d a)
      (λ _. stays_white xs (λ x. if x == a then false else d x) b (ground arith))
      (λ _. stays_white xs d b w)

module _ (a : ℕ) (xs : List ℕ) (d : ℕ → Bool) (apart : ¬ In a xs) where
  unmarked : ℕ → Bool
  unmarked b = if b == a then false else d b

  other : (b : ℕ) → In b xs → unmarked b ≡ d b
  unfolding unmarked
  other b i = let e = ==_ne b a (λ same. apart (subst (λ x. In x xs) same i)) in rw e refl

  self : unmarked a ≡ false
  unfolding unmarked
  self = ground arith

  sweep_dark :
      d a ≡ true
      → Sweeps xs unmarked (sweep xs unmarked)
      → Sweeps (a ∷ xs) d (record (sweep xs unmarked) { kept = a ∷ (sweep xs unmarked).kept })
  sweep_dark dark ih = record {
    keeps = λ b i. keeps b i;
    frees = λ b i. let (j, w) = ih.frees b i in (inr j, rw (other b j) at w);
    kept_dark = λ b i t. kept b i t;
    freed_white = λ b i w. freed b i w;
    clears = λ b i. clears b i;
  }
    where
      keeps : (b : ℕ) → In b (a ∷ (sweep xs unmarked).kept) → In b (a ∷ xs) × (d b ≡ true)
      keeps b (inl e) = (inl e, subst (λ x. d x ≡ true) (sym e) dark)
      keeps b (inr i) = let (j, t) = ih.keeps b i in (inr j, rw (other b j) at t)

      kept : (b : ℕ) → In b (a ∷ xs) → d b ≡ true → In b (a ∷ (sweep xs unmarked).kept)
      kept b (inl e) t = inl e
      kept b (inr i) t = inr (ih.kept_dark b i (rw (other b i) t))

      freed : (b : ℕ) → In b (a ∷ xs) → d b ≡ false → In b (sweep xs unmarked).freed
      freed b (inl e) w = false_true (subst (λ x. d x ≡ true) (sym e) dark) w
      freed b (inr i) w = ih.freed_white b i (rw (other b i) w)

      clears : (b : ℕ) → In b (a ∷ (sweep xs unmarked).kept) → (sweep xs unmarked).is_dark b ≡ false
      clears b (inl e) =
          subst (λ x. (sweep xs unmarked).is_dark x ≡ false) (sym e)
            (stays_white xs unmarked a self)
      clears b (inr i) = ih.clears b i

  sweep_white :
      d a ≡ false
      → Sweeps xs d (sweep xs d)
      → Sweeps (a ∷ xs) d (record (sweep xs d) { freed = a ∷ (sweep xs d).freed })
  sweep_white white ih = record {
    keeps = λ b i. let (j, t) = ih.keeps b i in (inr j, t);
    frees = λ b i. frees b i;
    kept_dark = λ b i t. kept b i t;
    freed_white = λ b i w. freed b i w;
    clears = λ b i. ih.clears b i;
  }
    where
      frees : (b : ℕ) → In b (a ∷ (sweep xs d).freed) → In b (a ∷ xs) × (d b ≡ false)
      frees b (inl e) = (inl e, subst (λ x. d x ≡ false) (sym e) white)
      frees b (inr i) = let (j, w) = ih.frees b i in (inr j, w)

      kept : (b : ℕ) → In b (a ∷ xs) → d b ≡ true → In b (sweep xs d).kept
      kept b (inl e) t = false_true t (subst (λ x. d x ≡ false) (sym e) white)
      kept b (inr i) t = ih.kept_dark b i t

      freed : (b : ℕ) → In b (a ∷ xs) → d b ≡ false → In b (a ∷ (sweep xs d).freed)
      freed b (inl e) w = inl e
      freed b (inr i) w = inr (ih.freed_white b i w)

pub sweep-Sweeps : (xs : List ℕ) (d : ℕ → Bool) → IsDistinct xs → Sweeps xs d (sweep xs d)
unfolding sweep unmarked
sweep-Sweeps [] d h = record {
  keeps = λ a i. absurd i;
  frees = λ a i. absurd i;
  kept_dark = λ a i t. absurd i;
  freed_white = λ a i w. absurd i;
  clears = λ a i. absurd i;
}
sweep-Sweeps (a ∷ xs) d (apart, h) =
    if_split {A = Swept} (Sweeps (a ∷ xs) d) (d a)
      (λ dark. sweep_dark a xs d apart dark (sweep-Sweeps xs (unmarked a xs d apart) h))
      (λ white. sweep_white a xs d apart white (sweep-Sweeps xs d h))
